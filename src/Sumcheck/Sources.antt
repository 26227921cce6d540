-- ===== src/Sumcheck/Sources.antt =====
-- The oracles of oracle.rs and constraint_oracle.rs of crates/oracle-layer/src as extensions of tables.
use tscp_anchor.Prelude.{
  ℕ, zero, suc, ◌+◌, ◌*◌, ◌^◌, ◌<◌, ◌≡◌, refl, sym, ap, ◌∙◌, true, not, ◌==◌, some, List, [], ◌∷◌,
  length, get_elem?, >>=-eq-some, eq_of_some, arith,
}
use tscp_anchor.Prelude.Bits.{
  is_power_of_two, is_power_of_two-pow, trailing_zeros, trailing_zeros-pow, ilog2, ilog2-pow,
  pow_two-pos,
}
use tscp_anchor.Field.{Field}
use tscp_anchor.Oracle.{
  MleOracle, RowMajorMatrix, ColumnOracle, column_loop, from_matrix, column_oracle,
}
use tscp_anchor.Constraint.{Constraint, constraint_evals, constraint_oracle}
use tscp_anchor.Sumcheck.Round.{Extends, evaluate_mle-Extends}

module _ {ℓ} {F : Type ℓ} ⦃f : Field F⦄ where
  length-constraint_evals :
      (c : Constraint F) (trace : List (List F)) (evals : List F)
      → constraint_evals c trace ≡ some evals
      → length evals ≡ length trace
  unfolding constraint_evals
  length-constraint_evals c [] evals h = ap length (sym (eq_of_some h))
  length-constraint_evals c (row ∷ rows) evals h =
      let (v, hv, rest) = >>=-eq-some (c.evaluate row) _ h in
      let (vs, hvs, made) = >>=-eq-some (constraint_evals c rows) _ rest in
      ap length (sym (eq_of_some made)) ∙ ap suc (length-constraint_evals c rows vs hvs)

  -- On a trace of 2^n rows with n < 64 on which the constraint returns, the constraint's oracle is
  -- built and is the multilinear extension of the constraint's values row by row.
  pub constraint_oracle-Extends :
      (c : Constraint F) (trace : List (List F)) (evals : List F) (n : ℕ)
      → n < 64
      → length trace ≡ 2 ^ n
      → constraint_evals c trace ≡ some evals
      → (oracle : MleOracle F) × (constraint_oracle trace c ≡ some oracle) × Extends evals n oracle
  unfolding constraint_oracle
  constraint_oracle-Extends c trace evals n small size made =
      let e =
        evaluate_mle-Extends evals n small (length-constraint_evals c trace evals made ∙ size) in
      (
        _,
        rw
            (
              ap is_power_of_two size ∙ is_power_of_two-pow n,
              nonzero (length trace) size,
              made,
              ap trailing_zeros size ∙ trailing_zeros-pow n,
            )
            refl,
        e,
      )
    where
      nonzero : (m : ℕ) → m ≡ 2 ^ n → not (m == 0) ≡ true
      nonzero m h = ground (arith, pow_two-pos n)

  -- What the column's loop collected, from row `i` on.
  column_loop-values :
      (trace : RowMajorMatrix F) (col i k : ℕ) (vs : List F)
      → column_loop trace col i k ≡ some vs
      → (length vs ≡ k)
        × ((j : ℕ) → j < k → get_elem? vs j ≡ get_elem? trace.values ((i + j) * trace.width + col))
  unfolding column_loop
  column_loop-values trace col i zero vs h =
      (ap length (sym (eq_of_some h)), λ j less. absurd (omega arith))
  column_loop-values trace col i (suc k) vs h =
      let (v, hv, rest) = >>=-eq-some (get_elem? trace.values (i * trace.width + col)) _ h in
      let (ws, hws, made) = >>=-eq-some (column_loop trace col (suc i) k) _ rest in
      let (size, values) = column_loop-values trace col (suc i) k ws hws in
      (
        ap length (sym (eq_of_some made)) ∙ ap suc size,
        λ j less. ap (λ t. get_elem? t j) (sym (eq_of_some made)) ∙ entry v ws hv values j less,
      )
    where
      entry :
          (v : F) (ws : List F)
          → get_elem? trace.values (i * trace.width + col) ≡ some v
          → ((j : ℕ)
              → j < k
              → get_elem? ws j ≡ get_elem? trace.values ((suc i + j) * trace.width + col))
          → (j : ℕ) → j < suc k
          → get_elem? (v ∷ ws) j ≡ get_elem? trace.values ((i + j) * trace.width + col)
      entry v ws hv values zero less =
          sym hv
          ∙ ap (λ r. get_elem? trace.values (r * trace.width + col)) {x = i} {y = i + 0}
              (omega arith)
      entry v ws hv values (suc j) less =
          values j (omega arith)
          ∙ ap (λ r. get_elem? trace.values (r * trace.width + col)) {x = suc i + j} {y = i + suc j}
              (omega arith)

  -- On a matrix of 2^n rows with n < 64 whose column is there, the column's oracle is built and is
  -- the multilinear extension of the column, whose row j is the matrix's entry.
  pub from_matrix-Extends :
      (trace : RowMajorMatrix F) (col n : ℕ) (vs : List F)
      → n < 64
      → trace.height ≡ 2 ^ n
      → column_loop trace col 0 trace.height ≡ some vs
      → (o : ColumnOracle F) × (from_matrix trace col ≡ some o)
        × Extends vs n (column_oracle o)
        × ((j : ℕ) → j < 2 ^ n → get_elem? vs j ≡ get_elem? trace.values (j * trace.width + col))
  unfolding from_matrix column_oracle
  from_matrix-Extends trace col n vs small rows h =
      let (size, values) = column_loop-values trace col 0 trace.height vs h in
      (
        record { values = vs; n_vars = n },
        rw (ap is_power_of_two rows ∙ is_power_of_two-pow n, h, ap ilog2 rows ∙ ilog2-pow n) refl,
        evaluate_mle-Extends vs n small (size ∙ rows),
        λ j less.
            values j (omega (arith, rows))
            ∙ ap (λ r. get_elem? trace.values (r * trace.width + col)) {x = 0 + j} {y = j}
                (omega arith),
      )
