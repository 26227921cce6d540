-- ===== src/DeepVerify/Rows.antt =====
-- `TraceEvaluator` of crates/prover-server/src/deep_ali.rs at the rows of its trace.
use tscp_anchor.Prelude.{
  ℕ, zero, suc, ◌+◌, ◌*◌, ◌%◌, ◌^◌, ◌≤◌, ◌<◌, ◌≡◌, refl, sym, ap, ◌∙◌, false, not, some, List, [],
  ◌∷◌, length, get_elem?, get_or, ltb, leb, ◌==◌, Bool-cases, ==_iff, inl, inr, eq_of_some, arith,
}
use tscp_anchor.Field.{Field, PrimeField32, ◌⊕◌}
use tscp_anchor.Oracle.{RowMajorMatrix}
use tscp_anchor.Quotient.{eval_poly_horner}
use tscp_anchor.DeepAli.{ok}
use tscp_anchor.DeepQuotient.{matrix_get}
use tscp_anchor.DeepQuotient.Single.{IsFull, matrix_get-some, evaluations_loop-values}
use tscp_anchor.DeepVerify.{
  TraceEvaluator, row_point, columns_loop, from_trace, evaluate_column, evaluate_shifted,
  local_evaluation,
}
use tscp_anchor.DeepVerify.Values.{interpolate_lagrange_naive-values}

module _ {ℓ} {F : Type ℓ} ⦃f : Field F⦄ where
  -- The cell at a row and a column.
  abbrev pub cell : RowMajorMatrix F → ℕ → ℕ → F
  cell trace r c = get_or trace.values (r * trace.width + c) f.zero

-- A column below the number of them.
below : (n col : ℕ) → col < n → leb n col ≡ false
below n col h = ground arith

fits : (n : ℕ) → n < 2 ^ 32 → not (ltb n (2 ^ 32)) ≡ false
fits n h = ground arith

module _ {ℓ} (F : Type ℓ) ⦃f : Field F⦄ ⦃p : PrimeField32 F⦄ where
  -- `BabyBear::new` takes sums below the order to sums.
  abbrev pub Adds : Type ℓ
  Adds = (m k : ℕ) → m + k < p.order → p.of_u32 m ⊕ p.of_u32 k ≡ p.of_u32 (m + k)

module _ {ℓ} {F : Type ℓ} ⦃f : Field F⦄ ⦃p : PrimeField32 F⦄ where
  -- A polynomial with the cells of a column at the points of the rows.
  abbrev pub Holds : RowMajorMatrix F → ℕ → List F → Type ℓ
  Holds trace col coeffs =
      (r : ℕ) → r < trace.height → eval_poly_horner coeffs (row_point r) ≡ cell trace r col

  module _ (trace : RowMajorMatrix F) (full : IsFull trace) (some_row : 0 < trace.height)
      (small : trace.height ≤ p.order) where
    columns_loop-Holds :
        (col count : ℕ)
        → col + count ≡ trace.width
        → (polys : List (List F)) × (columns_loop trace col count ≡ some (ok polys))
          × (length polys ≡ count)
          × ((j : ℕ)
              → j < count
              → (coeffs : List F) × (get_elem? polys j ≡ some coeffs)
                × Holds trace (col + j) coeffs)
    unfolding columns_loop
    columns_loop-Holds col zero e = ([], refl, refl, λ j h. absurd (omega arith))
    columns_loop-Holds col (suc count) e =
        let (vs, read, size, at) =
          evaluations_loop-values trace col 0 trace.height full (omega arith) (omega arith) in
        let (coeffs, made, length_made, values) =
          interpolate_lagrange_naive-values vs (omega arith) (omega arith) in
        let (polys, ran, count_made, columns) = columns_loop-Holds (suc col) count (omega arith) in
        (
          coeffs ∷ polys,
          rw (read, made, ran) refl,
          ap suc count_made,
          λ j h.
              column coeffs polys columns (λ r lt. values r (omega arith) ∙ entry vs at r lt) j h,
        )
      where
        entry :
            (vs : List F)
            → ((j : ℕ)
                → j < trace.height
                → matrix_get trace (0 + j) col ≡ some (get_or vs j f.zero))
            → (r : ℕ) → r < trace.height
            → get_or vs r f.zero ≡ cell trace r col
        entry vs at r lt = eq_of_some (
            sym (at r lt)
            ∙ ap (λ q. matrix_get trace q col) {x = 0 + r} {y = r} (omega arith)
            ∙ matrix_get-some trace r col full lt (omega arith))

        column :
            (coeffs : List F) (polys : List (List F))
            → ((j : ℕ)
                → j < count
                → (cs : List F) × (get_elem? polys j ≡ some cs) × Holds trace (suc col + j) cs)
            → Holds trace col coeffs
            → (j : ℕ) → j < suc count
            → (cs : List F) × (get_elem? (coeffs ∷ polys) j ≡ some cs) × Holds trace (col + j) cs
        column coeffs polys columns here zero h = (
          coeffs,
          refl,
          λ r lt. here r lt ∙ ap (cell trace r) {x = col} {y = col + 0} (omega arith),
        )
        column coeffs polys columns here (suc j) h =
            let (cs, got, holds) = columns j (omega arith) in
            (
              cs,
              got,
              λ r lt.
                  holds r lt ∙ ap (cell trace r) {x = suc col + j} {y = col + suc j} (omega arith),
            )

    -- An evaluator with the cells of every column.
    pub record IsEvaluator (ev : TraceEvaluator F) : Type ℓ where
      pub count : length ev.column_polynomials ≡ trace.width
      pub columns :
          (col : ℕ)
          → col < trace.width
          → (coeffs : List F) × (get_elem? ev.column_polynomials col ≡ some coeffs)
            × Holds trace col coeffs

    pub from_trace-IsEvaluator :
        (ev : TraceEvaluator F) × (from_trace trace ≡ some (ok ev)) × IsEvaluator ev
    unfolding from_trace
    from_trace-IsEvaluator =
        let (polys, made, count, columns) = columns_loop-Holds 0 trace.width (omega arith) in
        (
          record { column_polynomials = polys },
          rw made refl,
          record { count = count; columns = λ col lt. from_zero polys col (columns col lt) },
        )
      where
        from_zero :
            (polys : List (List F)) (col : ℕ)
            → (cs : List F) × (get_elem? polys col ≡ some cs) × Holds trace (0 + col) cs
            → (cs : List F) × (get_elem? polys col ≡ some cs) × Holds trace col cs
        from_zero polys col (cs, got, holds) =
            (cs, got, λ r lt. holds r lt ∙ ap (cell trace r) {x = 0 + col} {y = col} (omega arith))

    evaluate_column-cell :
        (ev : TraceEvaluator F) (r col : ℕ)
        → IsEvaluator ev
        → r < trace.height
        → col < trace.width
        → evaluate_column ev col (row_point r) ≡ some (ok (cell trace r col))
    unfolding evaluate_column
    evaluate_column-cell ev r col e hr hc =
        let (coeffs, got, holds) = e.columns col hc in
        rw (below (length ev.column_polynomials) col (omega (arith, e.count)), got, holds r hr) refl

    module _ (adds : Adds F) where
      shifted_point :
          (r k : ℕ) → r + k < trace.height → row_point r ⊕ p.of_u32 k ≡ row_point (r + k)
      unfolding row_point
      shifted_point r k h =
          let order = p.order-lt in
          ap (λ n. p.of_u32 n ⊕ p.of_u32 k) {x = r % 2 ^ 32} {y = r} (omega arith)
          ∙ adds r k (omega arith)
          ∙ ap p.of_u32 {x = r + k} {y = (r + k) % 2 ^ 32} (omega arith)

      evaluate_shifted-cell :
          (ev : TraceEvaluator F) (r k col : ℕ)
          → IsEvaluator ev
          → r + k < trace.height
          → col < trace.width
          → evaluate_shifted ev col (row_point r) k ≡ some (ok (cell trace (r + k) col))
      unfolding evaluate_shifted
      evaluate_shifted-cell ev r k col e h hc =
          let order = p.order-lt in
          rw (fits k (omega arith), shifted_point r k h)
            (evaluate_column-cell ev (r + k) col e h hc)

      pub local_evaluation-cell :
          (ev : TraceEvaluator F) (r k col : ℕ)
          → IsEvaluator ev
          → r + k < trace.height
          → col < trace.width
          → local_evaluation ev (row_point r) col k ≡ some (ok (cell trace (r + k) col))
      unfolding local_evaluation
      local_evaluation-cell ev r k col e h hc = elim (Bool-cases (k == 0)) [
        | inl z ↦
            rw (local_evaluation, z)
              (evaluate_column-cell ev r col e (omega arith) hc
                ∙ ap (λ q. some (ok (cell trace q col))) {x = r} {y = r + k}
                    (omega (arith, (==_iff k 0).0 z)))
        | inr z ↦ rw (local_evaluation, z) (evaluate_shifted-cell ev r k col e h hc)
      ]

      -- On a full trace of as many rows as fit the field, at least one, where BabyBear::new takes
      -- sums below the order to sums, from_trace returns an evaluator, and a shift by k from the
      -- point of row r gives the cell at row r + k of each column, as long as that row is there.
      pub evaluate_shifted-from_trace :
          (ev : TraceEvaluator F) × (from_trace trace ≡ some (ok ev))
          × ((r k col : ℕ)
              → r + k < trace.height
              → col < trace.width
              → evaluate_shifted ev col (row_point r) k ≡ some (ok (cell trace (r + k) col)))
      evaluate_shifted-from_trace =
          let (ev, made, e) = from_trace-IsEvaluator in
          (ev, made, λ r k col h hc. evaluate_shifted-cell ev r k col e h hc)
