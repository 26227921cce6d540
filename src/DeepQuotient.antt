-- ===== src/DeepQuotient.antt =====
-- crates/prover-server/src/deep_ali.rs: the interpolation of a trace's columns, their quotients, and
-- the combination of the quotients under sampled weights.
pub mod Single
pub mod Combined
pub mod Returns
use tscp_anchor.Prelude.{
  ℕ, zero, suc, ◌+◌, ◌-◌, ◌*◌, Bool, true, false, ◌&&◌, ◌||◌, not, Option, none, some, List, [],
  ◌∷◌, length, get_elem?, set, replicate, ltb, leb, ◌==◌, if◌then◌else◌, check, ◌>>=◌, ◌>>◌,
}
use tscp_anchor.Prelude.Bits.{is_power_of_two}
use tscp_anchor.Field.{Field, PrimeField32, ◌⊕◌, ◌⊗◌}
use tscp_anchor.Oracle.{RowMajorMatrix}
use tscp_anchor.FriProtocol.{Challenger}
use tscp_anchor.Fft.{interpolate_column}
use tscp_anchor.DeepAli.{
  Result, ok, err, interpolation_failure, owsl_halt, invalid_deep_point, degree_exceeded, ◌>>?◌,
  divide_linear,
}
use tscp_anchor.DeepAliFri.{primitive_root, max_usize}

pub record DeepQuery {ℓ} (F : Type ℓ) : Type ℓ where
  pub point : F
  pub trace_index : ℕ
  pub column_index : ℕ

-- What the code reads of `BabyBearDeepAli`; `owsl_permits` is the verdict of its gate.
pub record BabyBearDeepAli : Type 0 where
  pub max_degree : ℕ
  pub num_columns : ℕ
  pub owsl_permits : Bool

-- `p3_matrix::Matrix::get(r, c).unwrap()`
unfoldable pub matrix_get {ℓ} : {F : Type ℓ} → RowMajorMatrix F → ℕ → ℕ → Option F
matrix_get trace r c = do
  check (ltb r trace.height && ltb c trace.width)
  get_elem? trace.values (r * trace.width + c)

-- `(0..height).map(|r| trace.get(r, col_idx).unwrap())`, from `r` on.
unfoldable pub evaluations_loop {ℓ} : {F : Type ℓ} → RowMajorMatrix F → ℕ → ℕ → ℕ → Option (List F)
evaluations_loop trace col r zero = some []
evaluations_loop trace col r (suc count) = do
  v ← matrix_get trace r col
  vs ← evaluations_loop trace col (suc r) count
  some (v ∷ vs)

module _ {ℓ} {F : Type ℓ} ⦃f : Field F⦄ where
  -- `for (j, &coeff) in quotient.iter().enumerate() { combined[j] += weight * coeff; }`
  unfoldable pub add_scaled : F → List F → ℕ → List F → Option (List F)
  add_scaled weight [] j combined = some combined
  add_scaled weight (coeff ∷ coeffs) j combined = do
    old ← get_elem? combined j
    add_scaled weight coeffs (suc j) (set combined j (old ⊕ weight ⊗ coeff))

  -- A coefficient below what is left of those above it.
  unfoldable pub trim_onto : F → List F → List F
  trim_onto a [] = if f.beq a f.zero then [] else a ∷ []
  trim_onto a (b ∷ bs) = a ∷ b ∷ bs

  -- `while combined.last() == Some(&ZERO) { combined.pop(); }`
  unfoldable pub trim : List F → List F
  unfolding trim_onto
  trim [] = []
  trim (a ∷ as') = trim_onto a (trim as')

  module _ {C S : Type 0} (c : Challenger F C S) where
    -- `for row .. for col ..`: the cells in the order of `i = row * width + col`.
    unfoldable pub observe_row : RowMajorMatrix F → ℕ → ℕ → ℕ → S → Option S
    observe_row trace row col zero s = some s
    observe_row trace row col (suc count) s = do
      v ← matrix_get trace row col
      observe_row trace row (suc col) count (c.observe s v)

    unfoldable pub observe_trace : RowMajorMatrix F → ℕ → ℕ → S → Option S
    observe_trace trace row zero s = some s
    observe_trace trace row (suc count) s = do
      next ← observe_row trace row 0 trace.width s
      observe_trace trace (suc row) count next

    -- `for quotient in quotients.iter()`
    unfoldable pub combine_loop : List (List F) → List F → S → Option (List F × S)
    combine_loop [] combined s = some (combined, s)
    combine_loop (q ∷ qs) combined s = do
      let (weight, next) = c.sample s
      changed ← add_scaled weight q 0 combined
      combine_loop qs changed next

    -- The degree check behind the combination.
    unfoldable pub bounded : ℕ → List F × S → Result (List F) × S
    bounded max_degree (combined, s) =
        if leb max_degree (length (trim combined) - 1)
        then (err degree_exceeded, s)
        else (ok (trim combined), s)

    -- What is done with the quotients of the queries; the transcript stays as it was on an error.
    unfoldable pub combine : ℕ → S → Result (List (List F) × ℕ) → Option (Result (List F) × S)
    unfolding bounded
    combine max_degree s (err e) = some (err e, s)
    combine max_degree s (ok (quotients, longest)) = do
      r ← combine_loop quotients (replicate longest f.zero) s
      some (bounded max_degree r)

module _ {ℓ} {F : Type ℓ} ⦃f : Field F⦄ ⦃p : PrimeField32 F⦄ where
  unfoldable pub interpolate_subgroup : List F → Option (Result (List F))
  interpolate_subgroup evaluations =
      if length evaluations == 0
      then some (err interpolation_failure)
      else if ltb (length evaluations) 2 || not (is_power_of_two (length evaluations))
      then some (err interpolation_failure)
      else (do
        omega ← primitive_root (length evaluations)
        coeffs ← interpolate_column evaluations omega
        some (ok coeffs))

  unfoldable pub compute_single_quotient : RowMajorMatrix F → DeepQuery F → Option (Result (List F))
  compute_single_quotient trace query =
      evaluations_loop trace query.column_index 0 trace.height >>= λ evaluations.
      interpolate_subgroup evaluations >>? λ coeffs. divide_linear coeffs query.point

  -- `for query in queries`: the quotients and the greatest length.
  unfoldable pub quotients_loop :
      ℕ → RowMajorMatrix F → List (DeepQuery F) → ℕ → Option (Result (List (List F) × ℕ))
  quotients_loop num_columns trace [] max_degree = some (ok ([], max_degree))
  quotients_loop num_columns trace (query ∷ queries) max_degree =
      if leb num_columns query.column_index
      then some (err invalid_deep_point)
      else compute_single_quotient trace query >>? λ q.
          quotients_loop num_columns trace queries (max_usize max_degree (length q)) >>? λ r.
          some (ok (q ∷ r.0, r.1))

  module _ {C S : Type 0} (c : Challenger F C S) where
    unfoldable pub compute_deep_quotient :
        BabyBearDeepAli → RowMajorMatrix F → List (DeepQuery F) → S → Option (Result (List F) × S)
    unfolding combine
    compute_deep_quotient self trace [] s =
        some (if self.owsl_permits then ok [] else err owsl_halt, s)
    compute_deep_quotient self trace (query ∷ queries) s =
        if not self.owsl_permits then some (err owsl_halt, s) else (do
          observed ← observe_trace c trace 0 trace.height s
          quotients ← quotients_loop self.num_columns trace (query ∷ queries) 0
          combine c self.max_degree observed quotients)
