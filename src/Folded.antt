-- ===== src/Folded.antt =====
-- crates/oracle-layer/src/folded.rs: columns folded by the powers of a challenge, and a prefix bound
-- after the fold.
pub mod Fold
pub mod Commute
pub mod Prefix
use tscp_anchor.Prelude.{
  ℕ, zero, suc, Bool, true, false, ◌&&◌, Option, some, List, [], ◌∷◌, ◌++◌, length, get_elem?, set,
  replicate, ◌>>=◌,
}
use tscp_anchor.Prelude.Bits.{shl_one, sub_usize}
use tscp_anchor.Field.{Field, ◌⊕◌, ◌⊗◌}
use tscp_anchor.Oracle.{MleOracle, evaluate_mle}
use tscp_anchor.Oracle.Cube.{corner}

-- The typestates of the builder.
pub data NeedsChallenge : Type 0 where
  needs_challenge : NeedsChallenge

pub record ReadyToBind {ℓ} (F : Type ℓ) : Type ℓ where
  pub alpha : F

pub record FoldedOracleBuilder {ℓ κ} (F : Type ℓ) (State : Type κ) : Type (ℓ ⊔ κ) where
  pub oracles : List (List F)
  pub n_vars : ℕ
  pub state : State

pub record FoldedOracle {ℓ} (F : Type ℓ) : Type ℓ where
  pub values : List F
  pub n_vars : ℕ
  pub alpha : F

module _ {ℓ} {F : Type ℓ} where
  unfoldable pub new : List (List F) → ℕ → FoldedOracleBuilder F NeedsChallenge
  new oracles n_vars = record { oracles = oracles; n_vars = n_vars; state = needs_challenge }

  unfoldable pub absorb_challenge :
      FoldedOracleBuilder F NeedsChallenge → F → FoldedOracleBuilder F (ReadyToBind F)
  absorb_challenge b alpha = record {
    oracles = b.oracles;
    n_vars = b.n_vars;
    state = record { alpha = alpha };
  }

module _ {ℓ} {F : Type ℓ} ⦃f : Field F⦄ where
  -- `for (i, v) in oracle.iter().enumerate() { folded[i] += coeff * *v; }`
  unfoldable pub fold_column : F → ℕ → List F → List F → Option (List F)
  fold_column coeff i [] folded = some folded
  fold_column coeff i (v ∷ vs) folded = do
    old ← get_elem? folded i
    fold_column coeff (suc i) vs (set folded i (old ⊕ coeff ⊗ v))

  -- `for oracle in &self.oracles`
  unfoldable pub fold_columns : F → F → List (List F) → List F → Option (List F)
  fold_columns alpha coeff [] folded = some folded
  fold_columns alpha coeff (o ∷ os) folded = do
    next ← fold_column coeff 0 o folded
    fold_columns alpha (coeff ⊗ alpha) os next

  unfoldable pub build_folded : FoldedOracleBuilder F (ReadyToBind F) → Option (FoldedOracle F)
  build_folded b = do
    first ← get_elem? b.oracles 0
    values ← fold_columns b.state.alpha f.one b.oracles (replicate (length first) f.zero)
    some (record { values = values; n_vars = b.n_vars; alpha = b.state.alpha })

  unfoldable pub folded_oracle : FoldedOracle F → MleOracle F
  folded_oracle o = record { n_vars = o.n_vars; eval = evaluate_mle o.values }

  -- `(0..size).map(..)`, the values at the corners that extend the prefix.
  unfoldable pub bind_loop : List F → List F → ℕ → ℕ → ℕ → Option (List F)
  bind_loop values prefix remaining idx zero = some []
  bind_loop values prefix remaining idx (suc count) = do
    v ← evaluate_mle values (prefix ++ corner idx 0 remaining)
    vs ← bind_loop values prefix remaining (suc idx) count
    some (v ∷ vs)

  unfoldable pub bind_values : List F → ℕ → List F → Option (List F)
  bind_values values n_vars prefix = do
    remaining ← sub_usize n_vars (length prefix)
    size ← shl_one remaining
    bind_loop values prefix remaining 0 size

  unfoldable pub bind_prefix : FoldedOracle F → List F → Option (List F)
  unfolding bind_values
  bind_prefix o prefix = bind_values o.values o.n_vars prefix

  -- The closure of `test_commutation_law` over one oracle, and its loop.
  unfoldable pub bound_loop : List F → List F → ℕ → ℕ → ℕ → Option (List F)
  bound_loop o prefix remaining idx zero = some []
  bound_loop o prefix remaining idx (suc count) = do
    v ← evaluate_mle o (prefix ++ corner idx 0 remaining)
    vs ← bound_loop o prefix remaining (suc idx) count
    some (v ∷ vs)

  unfoldable pub bind_oracle : List F → ℕ → List F → Option (List F)
  bind_oracle o n_vars prefix = do
    remaining ← sub_usize n_vars (length prefix)
    size ← shl_one remaining
    bound_loop o prefix remaining 0 size

  -- `oracles.iter().map(..).collect()`
  unfoldable pub bind_columns : List (List F) → ℕ → List F → Option (List (List F))
  bind_columns [] n_vars prefix = some []
  bind_columns (o ∷ os) n_vars prefix = do
    b ← bind_oracle o n_vars prefix
    bs ← bind_columns os n_vars prefix
    some (b ∷ bs)

  -- `for (i, v) in b.iter().enumerate() { rhs[i] += coeff * *v; }`
  unfoldable pub fold_bound_column : F → ℕ → List F → List F → Option (List F)
  fold_bound_column coeff i [] rhs = some rhs
  fold_bound_column coeff i (v ∷ vs) rhs = do
    old ← get_elem? rhs i
    fold_bound_column coeff (suc i) vs (set rhs i (old ⊕ coeff ⊗ v))

  -- `for b in &bound`
  unfoldable pub fold_bound : F → F → List (List F) → List F → Option (List F)
  fold_bound alpha coeff [] rhs = some rhs
  fold_bound alpha coeff (b ∷ bs) rhs = do
    next ← fold_bound_column coeff 0 b rhs
    fold_bound alpha (coeff ⊗ alpha) bs next

  -- `lhs == rhs`
  unfoldable pub values_eq : List F → List F → Bool
  values_eq [] [] = true
  values_eq (a ∷ as') (b ∷ bs) = f.beq a b && values_eq as' bs
  values_eq _ _ = false

  unfoldable pub test_commutation_law : List (List F) → F → List F → ℕ → Option Bool
  test_commutation_law oracles alpha prefix n_vars = do
    folded ← build_folded (absorb_challenge (new oracles n_vars) alpha)
    lhs ← bind_prefix folded prefix
    bound ← bind_columns oracles n_vars prefix
    rhs ← fold_bound alpha f.one bound (replicate (length lhs) f.zero)
    some (values_eq lhs rhs)
