-- ===== src/Oracle.antt =====
-- crates/oracle-layer/src/oracle.rs and constraint_oracle.rs: oracles that evaluate the multilinear
-- extension of a table of values over the Boolean hypercube.
pub mod Mle
pub mod Cube
pub mod Corner
use tscp_anchor.Prelude.{
  ℕ, zero, suc, ◌+◌, ◌*◌, ◌%◌, Bool, Option, none, some, List, [], ◌∷◌, length, get_elem?,
  if◌then◌else◌, ◌==◌, ltb, check, ◌>>=◌, ◌>>◌, map,
}
use tscp_anchor.Prelude.Bits.{bit, shl_one, is_power_of_two, ilog2, trailing_zeros}
use tscp_anchor.Field.{Field, ◌⊕◌, ◌⊖◌, ◌⊗◌}

-- The trait `MleOracle`: a panic is `none`.
pub record MleOracle {ℓ} (F : Type ℓ) : Type ℓ where
  pub n_vars : ℕ
  pub eval : List F → Option F

-- What `from_matrix` reads of `p3_matrix::dense::RowMajorMatrix`.
pub record RowMajorMatrix {ℓ} (F : Type ℓ) : Type ℓ where
  pub values : List F
  pub width : ℕ
  pub height : ℕ

pub record ColumnOracle {ℓ} (F : Type ℓ) : Type ℓ where
  pub values : List F
  pub n_vars : ℕ

module _ {ℓ} {F : Type ℓ} ⦃f : Field F⦄ where
  -- `for (i, &p_i) in point.iter().enumerate()`
  unfoldable pub basis_loop : ℕ → ℕ → F → List F → F
  basis_loop idx i basis [] = basis
  basis_loop idx i basis (p ∷ ps) =
      basis_loop idx (suc i) (basis ⊗ (if bit idx i == 1 then p else f.one ⊖ p)) ps

  -- `for (idx, &v) in values.iter().enumerate()`
  unfoldable pub mle_loop : ℕ → F → List F → List F → F
  mle_loop idx result [] point = result
  mle_loop idx result (v ∷ vs) point =
      mle_loop (suc idx) (result ⊕ v ⊗ basis_loop idx 0 f.one point) vs point

  unfoldable pub evaluate_mle : List F → List F → Option F
  evaluate_mle values point = do
    size ← shl_one (length point)
    check (length values == size)
    some (mle_loop 0 f.zero values point)

  -- `(0..h).map(|i| trace.values[i * trace.width + col])`
  unfoldable pub column_loop : RowMajorMatrix F → ℕ → ℕ → ℕ → Option (List F)
  column_loop trace col i zero = some []
  column_loop trace col i (suc n) = do
    v ← get_elem? trace.values (i * trace.width + col)
    vs ← column_loop trace col (suc i) n
    some (v ∷ vs)

  unfoldable pub from_matrix : RowMajorMatrix F → ℕ → Option (ColumnOracle F)
  unfolding column_loop
  from_matrix trace col = do
    check (is_power_of_two trace.height)
    vs ← column_loop trace col 0 trace.height
    n ← ilog2 trace.height
    some (record { values = vs; n_vars = n })

  unfoldable pub column_oracle : ColumnOracle F → MleOracle F
  column_oracle c = record { n_vars = c.n_vars; eval = evaluate_mle c.values }
