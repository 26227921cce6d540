-- ===== src/DeepQuotient/Combined.antt =====
-- The loops of `compute_deep_quotient`, crates/prover-server/src/deep_ali.rs: what they add up to.
use mathlib.Core.Path.{subst}
use tscp_anchor.Prelude.{
  ℕ, zero, suc, ◌+◌, ◌*◌, ◌≤◌, ◌<◌, ◌≡◌, ◌≢◌, refl, sym, ap, ◌∙◌, false, some, List, [], ◌∷◌,
  length, get_elem?-get_or, get_or, set, length-set, Bool-cases, inl, inr, arith,
}
use tscp_anchor.Field.{Field, ◌⊕◌, ◌⊗◌, exp}
use tscp_anchor.Field.Laws.{add-zero}
use tscp_anchor.Field.Ring.{ring, normal, x0, x1, x2, x3, x4, x5, x6, plus, minus, times, nought}
use tscp_anchor.Quotient.{eval_poly_horner}
use tscp_anchor.Quotient.Horner.{horner-set}
use tscp_anchor.Oracle.{RowMajorMatrix}
use tscp_anchor.FriProtocol.{Challenger}
use tscp_anchor.Poly.{last}
use tscp_anchor.DeepQuotient.{add_scaled, trim, trim_onto, observe_row, observe_trace, combine_loop}
use tscp_anchor.DeepQuotient.Single.{IsFull, matrix_get-some}

module _ {ℓ} {F : Type ℓ} ⦃f : Field F⦄ where
  add_scaled_value :
      (weight : F) (coeffs : List F) (j : ℕ) (combined : List F)
      → j + length coeffs ≤ length combined
      → (r : List F) × (add_scaled weight coeffs j combined ≡ some r)
        × (length r ≡ length combined)
        × ((x : F)
            → eval_poly_horner r x
              ≡ eval_poly_horner combined x ⊕ weight ⊗ (eval_poly_horner coeffs x ⊗ exp x j))
  unfolding add_scaled eval_poly_horner exp normal
  add_scaled_value weight [] j combined h = (
    combined,
    refl,
    refl,
    λ x.
        ring (eval_poly_horner combined x ∷ weight ∷ exp x j ∷ []) x0
          (plus x0 (times x1 (times nought x2))) refl,
  )
  add_scaled_value weight (a ∷ coeffs) j combined h =
      let old : F = get_or combined j f.zero in
      let next : List F = set combined j (old ⊕ weight ⊗ a) in
      let (r, made, size, value) =
        add_scaled_value weight coeffs (suc j) next
          (omega (arith, length-set combined j (old ⊕ weight ⊗ a))) in
      (
        r,
        rw (get_elem?-get_or combined j f.zero (omega arith)) made,
        size ∙ length-set combined j (old ⊕ weight ⊗ a),
        λ x.
            value x
            ∙ ap (λ t. t ⊕ weight ⊗ (eval_poly_horner coeffs x ⊗ (x ⊗ exp x j)))
                (horner-set combined j (old ⊕ weight ⊗ a) x (omega arith))
            ∙ ring
                (eval_poly_horner combined x
                  ∷ old
                  ∷ weight
                  ∷ a
                  ∷ exp x j
                  ∷ eval_poly_horner coeffs x
                  ∷ x
                  ∷ [])
                (plus (plus x0 (times (minus (plus x1 (times x2 x3)) x1) x4))
                  (times x2 (times x5 (times x6 x4))))
                (plus x0 (times x2 (times (plus (times x5 x6) x3) x4))) refl,
      )

  horner-trim_onto :
      (a : F) (as' : List F) (x : F)
      → eval_poly_horner (trim_onto a as') x ≡ eval_poly_horner (a ∷ as') x
  unfolding trim_onto eval_poly_horner normal
  horner-trim_onto a [] x = elim (Bool-cases (f.beq a f.zero)) [
    | inl at_zero ↦ rw at_zero (
        ring (x ∷ []) nought (plus (times nought x0) nought) refl
        ∙ ap (λ t. f.zero ⊗ x ⊕ t) (sym ((f.beq_iff a f.zero).0 at_zero)))
    | inr other ↦ rw other refl
  ]
  horner-trim_onto a (b ∷ bs) x = refl

  pub horner-trim : (as' : List F) (x : F) → eval_poly_horner (trim as') x ≡ eval_poly_horner as' x
  unfolding trim eval_poly_horner
  horner-trim [] x = refl
  horner-trim (a ∷ as') x =
      horner-trim_onto a (trim as') x ∙ ap (λ t. t ⊗ x ⊕ a) (horner-trim as' x)

  -- Its leading coefficient is not zero.
  abbrev pub IsTrimmed : List F → Type ℓ
  IsTrimmed as' = (a : F) → last as' ≡ some a → a ≢ f.zero

  trim_onto-IsTrimmed : (a : F) (as' : List F) → IsTrimmed as' → IsTrimmed (trim_onto a as')
  unfolding trim_onto
  trim_onto-IsTrimmed a [] h = elim (Bool-cases (f.beq a f.zero)) [
    | inl at_zero ↦ rw at_zero (λ b e. absurd cc)
    | inr other ↦ rw other (λ b e z. nonzero other (cc))
  ]
    where
      nonzero : f.beq a f.zero ≡ false → a ≡ f.zero → ⊥
      nonzero other z = absurd (let yes_zero = (f.beq_iff a f.zero).1 z in cc)
  trim_onto-IsTrimmed a (b ∷ bs) h = h

  pub trim-IsTrimmed : (as' : List F) → IsTrimmed (trim as')
  unfolding trim
  trim-IsTrimmed [] a e = absurd cc
  trim-IsTrimmed (a ∷ as') b e = trim_onto-IsTrimmed a (trim as') (trim-IsTrimmed as') b e

  -- All quotients fit.
  abbrev pub Fits : List (List F) → ℕ → Type 0
  Fits [] n = Unit
  Fits (q ∷ qs) n = (length q ≤ n) × Fits qs n

  module _ {C S : Type 0} (c : Challenger F C S) where
    -- The sum of the quotients under the weights that the transcript gives, at a point.
    unfoldable pub weighted : List (List F) → S → F → F
    weighted [] s x = f.zero
    weighted (q ∷ qs) s x = (c.sample s).0 ⊗ eval_poly_horner q x ⊕ weighted qs (c.sample s).1 x

    pub combine_loop_value :
        (qs : List (List F)) (combined : List F) (s : S)
        → Fits qs (length combined)
        → (r : List F) × (after : S) × (combine_loop c qs combined s ≡ some (r, after))
          × ((x : F) → eval_poly_horner r x ≡ eval_poly_horner combined x ⊕ weighted qs s x)
    unfolding combine_loop weighted exp
    combine_loop_value [] combined s h = (combined, s, refl, λ x. sym (add-zero _))
    combine_loop_value (q ∷ qs) combined s (here, h) =
        let (next, made, size, value) =
          add_scaled_value (c.sample s).0 q 0 combined (omega arith) in
        let (r, after, rest, total) =
          combine_loop_value qs next (c.sample s).1 (subst (λ n. Fits qs n) (sym size) h) in
        (
          r,
          after,
          rw made rest,
          λ x.
              total x
              ∙ ap (λ t. t ⊕ weighted qs (c.sample s).1 x) (value x)
              ∙ f.add_assoc _ _ _
              ∙ ap
                  (λ t.
                    eval_poly_horner combined x
                    ⊕ ((c.sample s).0 ⊗ t ⊕ weighted qs (c.sample s).1 x))
                  (f.mul_comm _ _ ∙ f.one-mul _),
        )

    observe_row-some :
        (trace : RowMajorMatrix F) (row col count : ℕ) (s : S)
        → IsFull trace
        → row < trace.height
        → col + count ≡ trace.width
        → (after : S) × (observe_row c trace row col count s ≡ some after)
    unfolding observe_row
    observe_row-some trace row col zero s full inside e = (s, refl)
    observe_row-some trace row col (suc count) s full inside e =
        let v : F = get_or trace.values (row * trace.width + col) f.zero in
        let (after, made) =
          observe_row-some trace row (suc col) count (c.observe s v) full inside (omega arith) in
        (after, rw (matrix_get-some trace row col full inside (omega arith)) made)

    pub observe_trace-some :
        (trace : RowMajorMatrix F) (row count : ℕ) (s : S)
        → IsFull trace
        → row + count ≡ trace.height
        → (after : S) × (observe_trace c trace row count s ≡ some after)
    unfolding observe_trace
    observe_trace-some trace row zero s full e = (s, refl)
    observe_trace-some trace row (suc count) s full e =
        let (next, made) =
          observe_row-some trace row 0 trace.width s full (omega arith) (omega arith) in
        let (after, rest) = observe_trace-some trace (suc row) count next full (omega arith) in
        (after, rw made rest)
