-- ===== src/DeepVerify.antt =====
-- crates/prover-server/src/deep_ali.rs: interpolation over the rows' numbers, the trace evaluator, and
-- the batch verifier, which nothing calls yet.
pub mod Factor
pub mod Lagrange
pub mod Values
pub mod Rows
pub mod Links
pub mod Batch
use tscp_anchor.Prelude.{
  ℕ, zero, suc, ◌+◌, ◌*◌, ◌/◌, ◌%◌, ◌^◌, Bool, true, false, not, Option, none, some, List, [], ◌∷◌,
  length, get_elem?, replicate, leb, ◌==◌, if◌then◌else◌, ◌>>=◌,
}
use tscp_anchor.Field.{Field, PrimeField32, ◌⊕◌, ◌⊖◌, ◌⊗◌}
use tscp_anchor.Oracle.{RowMajorMatrix}
use tscp_anchor.FriProtocol.{Challenger}
use tscp_anchor.Quotient.{eval_poly_horner}
use tscp_anchor.DeepAli.{
  SoundnessAccumulator, Result, ok, err, interpolation_failure, owsl_halt, invalid_deep_point,
  constraint_violation, trace_evaluation_failure, ◌>>?◌, fits_u32, consume_and_bind,
}
use tscp_anchor.DeepAliFri.{max_usize}
use tscp_anchor.DeepQuotient.{DeepQuery, BabyBearDeepAli, evaluations_loop}

abbrev pub deep_ali_lambda : ℕ
deep_ali_lambda = 128

pub record DeepResponse {ℓ} (F : Type ℓ) : Type ℓ where
  pub value : F
  pub query : DeepQuery F

pub record AlgebraicLink {ℓ} (F : Type ℓ) : Type ℓ where
  pub constraint_index : ℕ
  pub numerator : List F
  pub denominator : F
  pub deep_point : F
  pub involved_columns : List ℕ
  pub shifts : List ℕ

pub record TraceEvaluator {ℓ} (F : Type ℓ) : Type ℓ where
  pub column_polynomials : List (List F)

-- The gate, at the end.
unfoldable pub gated : BabyBearDeepAli → Result (Unit {0})
gated self = if self.owsl_permits then ok tt else err owsl_halt

module _ {ℓ} {F : Type ℓ} ⦃f : Field F⦄ where
  -- `for k in 0..basis.len()` into a fresh `next`; `carry` is what `next[k]` holds before its turn.
  unfoldable pub factor_loop : F → F → List F → List F
  factor_loop xj carry [] = carry ∷ []
  factor_loop xj carry (b ∷ basis) = (carry ⊖ b ⊗ xj) ∷ factor_loop xj (f.zero ⊕ b) basis

  -- `coeffs[k] += basis[k] * evaluations[i] * scale`
  unfoldable pub add_basis : F → F → List F → List F → Option (List F)
  add_basis e scale [] coeffs = some coeffs
  add_basis e scale (b ∷ basis) [] = none
  add_basis e scale (b ∷ basis) (c ∷ coeffs) = do
    rest ← add_basis e scale basis coeffs
    some ((c ⊕ b ⊗ e ⊗ scale) ∷ rest)

module _ {ℓ} {F : Type ℓ} ⦃p : PrimeField32 F⦄ where
  -- `BabyBear::new(i as u32)`
  unfoldable pub row_point : ℕ → F
  row_point i = p.of_u32 (i % 2 ^ 32)

module _ {ℓ} {F : Type ℓ} ⦃f : Field F⦄ ⦃p : PrimeField32 F⦄ where
  -- One pass over `j`: the basis polynomial and the denominator.
  unfoldable pub basis_step : ℕ → ℕ → List F × F → List F × F
  unfolding factor_loop row_point
  basis_step i j (basis, denom) =
      if i == j
      then (basis, denom)
      else (factor_loop (row_point j) f.zero basis, denom ⊗ (row_point i ⊖ row_point j))

  -- `for j in 0..n`, from `j` on.
  unfoldable pub basis_loop : ℕ → ℕ → ℕ → List F × F → List F × F
  unfolding basis_step
  basis_loop i j zero state = state
  basis_loop i j (suc count) state = basis_loop i (suc j) count (basis_step i j state)

  -- `for i in 0..n`, from `i` on.
  unfoldable pub lagrange_loop : List F → ℕ → ℕ → List F → Option (List F)
  unfolding basis_loop add_basis
  lagrange_loop evaluations i zero coeffs = some coeffs
  lagrange_loop evaluations i (suc count) coeffs = do
    let (basis, denom) = basis_loop i 0 (length evaluations) (f.one ∷ [], f.one)
    scale ← f.inverse denom
    e ← get_elem? evaluations i
    changed ← add_basis e scale basis coeffs
    lagrange_loop evaluations (suc i) count changed

  unfoldable pub interpolate_lagrange_naive : List F → Option (Result (List F))
  interpolate_lagrange_naive evaluations =
      if length evaluations == 0 then some (err interpolation_failure) else (do
        coeffs ←
            lagrange_loop evaluations 0 (length evaluations) (replicate (length evaluations) f.zero)
        some (ok coeffs))

  -- `for col in 0..num_cols`, from `col` on.
  unfoldable pub columns_loop : RowMajorMatrix F → ℕ → ℕ → Option (Result (List (List F)))
  columns_loop trace col zero = some (ok [])
  columns_loop trace col (suc count) = evaluations_loop trace col 0 trace.height >>= λ evaluations.
      interpolate_lagrange_naive evaluations >>? λ coeffs.
      columns_loop trace (suc col) count >>? λ rest. some (ok (coeffs ∷ rest))

  unfoldable pub from_trace : RowMajorMatrix F → Option (Result (TraceEvaluator F))
  from_trace trace = columns_loop trace 0 trace.width >>? λ polys.
      some (ok (record { column_polynomials = polys }))

  unfoldable pub evaluate_column : TraceEvaluator F → ℕ → F → Option (Result F)
  evaluate_column self col z =
      if leb (length self.column_polynomials) col
      then some (err (trace_evaluation_failure col))
      else (do
        coeffs ← get_elem? self.column_polynomials col
        some (ok (eval_poly_horner coeffs z)))

  unfoldable pub evaluate_columns : TraceEvaluator F → List ℕ → F → Option (Result (List F))
  evaluate_columns self [] z = some (ok [])
  evaluate_columns self (col ∷ cols) z =
      evaluate_column self col z >>? λ v. evaluate_columns self cols z >>? λ vs. some (ok (v ∷ vs))

  unfoldable pub evaluate_shifted : TraceEvaluator F → ℕ → F → ℕ → Option (Result F)
  evaluate_shifted self col z shift =
      if not (fits_u32 shift)
      then some (err invalid_deep_point)
      else evaluate_column self col (z ⊕ p.of_u32 shift)

  -- One step over the columns and shifts of a link.
  unfoldable pub local_evaluation : TraceEvaluator F → F → ℕ → ℕ → Option (Result F)
  unfolding evaluate_column evaluate_shifted
  local_evaluation evaluator z col shift =
      if shift == 0 then evaluate_column evaluator col z else evaluate_shifted evaluator col z shift

  -- `for (col_idx, shift) in link.involved_columns.iter().zip(link.shifts.iter())`
  unfoldable pub local_loop : ℕ → TraceEvaluator F → F → List ℕ → List ℕ → Option (Result (List F))
  local_loop num_columns evaluator z (col ∷ cols) (shift ∷ shifts) =
      if leb num_columns col
      then some (err invalid_deep_point)
      else local_evaluation evaluator z col shift >>? λ v.
          local_loop num_columns evaluator z cols shifts >>? λ vs. some (ok (v ∷ vs))
  local_loop num_columns evaluator z _ _ = some (ok [])

  -- `fold(BabyBear::ZERO, |a, b| a + b)`
  unfoldable pub fold_sum : F → List F → F
  fold_sum acc [] = acc
  fold_sum acc (v ∷ vs) = fold_sum (acc ⊕ v) vs

  unfoldable pub constraint_value : AlgebraicLink F → List F → F
  unfolding fold_sum
  constraint_value link locals =
      if length link.numerator == 0
      then fold_sum f.zero locals
      else eval_poly_horner link.numerator link.deep_point

  unfoldable pub scaled_constraint : AlgebraicLink F → List F → Option (Result F)
  unfolding constraint_value
  scaled_constraint link locals =
      if f.beq link.denominator f.zero
      then some (err invalid_deep_point)
      else (do inv ← f.inverse link.denominator; some (ok (constraint_value link locals ⊗ inv)))

  unfoldable pub evaluate_air_constraint :
      BabyBearDeepAli → RowMajorMatrix F → AlgebraicLink F → Option (Result F)
  unfolding scaled_constraint
  evaluate_air_constraint self trace link = from_trace trace >>? λ evaluator.
      local_loop self.num_columns evaluator link.deep_point link.involved_columns link.shifts
      >>? λ locals. scaled_constraint link locals

  -- `for link in links`
  unfoldable pub links_loop :
      BabyBearDeepAli → RowMajorMatrix F → List (AlgebraicLink F) → Option (Result (Unit {0}))
  links_loop self trace [] = some (ok tt)
  links_loop self trace (link ∷ links) = evaluate_air_constraint self trace link >>? λ v.
      (let rest = links_loop self trace links in
        if not (f.beq v f.zero)
        then some (err (constraint_violation link.constraint_index))
        else rest)

  module _ {C S : Type 0} (c : Challenger F C S) where
    -- `for resp in queries`
    unfoldable pub observe_responses : ℕ → List (DeepResponse F) → S → Result (Unit {0}) × S
    observe_responses num_columns [] s = (ok tt, s)
    observe_responses num_columns (r ∷ rs) s =
        let rest = observe_responses num_columns rs (c.observe s r.value) in
        if leb num_columns (r.query).column_index then (err invalid_deep_point, s) else rest

    -- What is left when the responses are observed.
    unfoldable pub check_links :
        BabyBearDeepAli
        → RowMajorMatrix F
        → List (AlgebraicLink F)
        → Result (Unit {0}) × S
        → Option (Result (Unit {0}) × S)
    unfolding gated
    check_links self trace links (err e, s) = some (err e, s)
    check_links self trace links (ok u, s) = do
      r ← links_loop self trace links >>? λ u. some (gated self)
      some (r, s)

    unfoldable pub check_budgeted :
        BabyBearDeepAli
        → RowMajorMatrix F
        → List (DeepResponse F)
        → List (AlgebraicLink F)
        → Result (Unit {0}) × SoundnessAccumulator × S
        → Option (Result (Unit {0}) × SoundnessAccumulator × S)
    unfolding check_links
    check_budgeted self trace queries links (err e, a, s) = some (err e, a, s)
    check_budgeted self trace queries links (ok u, a, s) = do
      r ← check_links self trace links (observe_responses self.num_columns queries s)
      some (r.0, a, r.1)

    -- The accumulator and the transcript come back as the call leaves them.
    unfoldable pub verify_deep_batch :
        BabyBearDeepAli
        → RowMajorMatrix F
        → List (DeepResponse F)
        → List (AlgebraicLink F)
        → SoundnessAccumulator
        → S
        → Option (Result (Unit {0}) × SoundnessAccumulator × S)
    unfolding check_budgeted
    verify_deep_batch self trace queries links a s =
        let bits_per_query = deep_ali_lambda / max_usize (length queries) 1 in
        check_budgeted self trace queries links
          (consume_and_bind c (bits_per_query * length queries) a s)
