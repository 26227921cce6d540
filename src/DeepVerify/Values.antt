-- ===== src/DeepVerify/Values.antt =====
-- The values of what `interpolate_lagrange_naive` of crates/prover-server/src/deep_ali.rs returns.
use tscp_anchor.Prelude.{
  ℕ, zero, suc, ◌+◌, ◌≤◌, ◌<◌, ◌≡◌, ◌≢◌, refl, sym, ap, ap₂, ◌∙◌, inl, inr, true, false, some, List,
  [], ◌∷◌, length, get_elem?-get_or, get_or, replicate, length-replicate, get_or-replicate, leb,
  ◌==◌, if◌then◌else◌, compared, arith,
}
use tscp_anchor.Field.{Field, PrimeField32, ◌⊕◌, ◌⊗◌}
use tscp_anchor.Field.Laws.{inverse-mul, mul-one, zero-mul, add-zero}
use tscp_anchor.Quotient.{eval_poly_horner}
use tscp_anchor.Quotient.Horner.{horner-zeros}
use tscp_anchor.DeepAli.{ok}
use tscp_anchor.DeepVerify.{row_point, basis_loop, lagrange_loop, interpolate_lagrange_naive}
use tscp_anchor.DeepVerify.Factor.{add_basis-sum}
use tscp_anchor.DeepVerify.Lagrange.{IsBasis, basis_loop-IsBasis}

-- At most, at least.
leb_at : (i m : ℕ) → i ≤ m → leb i m ≡ true
leb_at i m h = ground arith

leb_above : (i m : ℕ) → m < i → leb i m ≡ false
leb_above i m h = ground arith

module _ {ℓ} {F : Type ℓ} ⦃f : Field F⦄ ⦃p : PrimeField32 F⦄ where
  -- What the rounds from the `i`-th on add at the `m`-th point.
  abbrev due : List F → ℕ → ℕ → F
  due evals i m = if leb i m then get_or evals m f.zero else f.zero

  abbrev scaled : List F → ℕ → F → ℕ → F
  scaled evals i scale m =
      eval_poly_horner (basis_loop i 0 (length evals) (f.one ∷ [], f.one)).0 (row_point m)
      ⊗ get_or evals i f.zero
      ⊗ scale

  due-step :
      (evals : List F) (i m : ℕ) (scale : F)
      → IsBasis i (length evals) (basis_loop i 0 (length evals) (f.one ∷ [], f.one))
      → f.inverse (basis_loop i 0 (length evals) (f.one ∷ [], f.one)).1 ≡ some scale
      → m < length evals
      → scaled evals i scale m ⊕ due evals (suc i) m ≡ due evals i m
  due-step evals i m scale basis inverted lt = elim (compared i m) [
    | inl less ↦
        ap (λ t. t ⊕ due evals (suc i) m) (none_left (λ e. omega (arith, less, e)))
        ∙ f.zero-add _
        ∙ rw (leb_at (suc i) m (omega arith), leb_at i m (omega arith)) refl
    | inr (inl e) ↦
        rw (leb_above (suc i) m (omega arith), leb_at i m (omega arith)) (add-zero _ ∙ own e)
    | inr (inr more) ↦
        ap (λ t. t ⊕ due evals (suc i) m) (none_left (λ e. omega (arith, more, e)))
        ∙ f.zero-add _
        ∙ rw (leb_above (suc i) m (omega arith), leb_above i m (omega arith)) refl
  ]
    where
      none_left : i ≢ m → scaled evals i scale m ≡ f.zero
      none_left ne =
          ap (λ t. t ⊗ get_or evals i f.zero ⊗ scale) (basis.other m ne lt)
          ∙ ap (λ t. t ⊗ scale) (zero-mul _)
          ∙ zero-mul _

      own : i ≡ m → scaled evals i scale m ≡ get_or evals m f.zero
      own e =
          ap (λ m. scaled evals i scale m) (sym e)
          ∙ ap (λ t. t ⊗ get_or evals i f.zero ⊗ scale) basis.own
          ∙ ap (λ t. t ⊗ scale) (f.mul_comm _ _)
          ∙ f.mul_assoc _ _ _
          ∙ ap (f.mul (get_or evals i f.zero)) (inverse-mul inverted)
          ∙ mul-one _
          ∙ ap (λ m. get_or evals m f.zero) e

  lagrange_loop-values :
      (evals : List F) (i count : ℕ) (coeffs : List F)
      → length evals ≤ p.order
      → i + count ≡ length evals
      → length coeffs ≡ length evals
      → (result : List F) × (lagrange_loop evals i count coeffs ≡ some result)
        × (length result ≡ length evals)
        × ((m : ℕ)
            → m < length evals
            → eval_poly_horner result (row_point m)
              ≡ eval_poly_horner coeffs (row_point m) ⊕ due evals i m)
  unfolding lagrange_loop
  lagrange_loop-values evals i zero coeffs fits sum size =
      (coeffs, refl, size, λ m lt. sym (add-zero _) ∙ rw (leb_above i m (omega arith)) refl)
  lagrange_loop-values evals i (suc count) coeffs fits sum size =
      let state : List F × F = basis_loop i 0 (length evals) (f.one ∷ [], f.one) in
      let basis : IsBasis i (length evals) state =
        basis_loop-IsBasis i (length evals) (omega arith) fits in
      let (scale, inverted, product) = f.inverse-some state.1 basis.not_zero in
      let e : F = get_or evals i f.zero in
      let (changed, added, size', value) =
        add_basis-sum e scale state.0 coeffs (omega (arith, basis.size, size)) in
      let (result, ran, size'', values) =
        lagrange_loop-values evals (suc i) count changed fits (omega arith) (size' ∙ size) in
      (
        result,
        rw (inverted, get_elem?-get_or evals i f.zero (omega arith), added, ran) refl,
        size'',
        λ m lt.
            values m lt
            ∙ ap (λ t. t ⊕ due evals (suc i) m) (value (row_point m))
            ∙ f.add_assoc _ _ _
            ∙ ap (f.add (eval_poly_horner coeffs (row_point m)))
                (due-step evals i m scale basis inverted lt),
      )

  -- On at least one value and no more than the order of the field, the interpolation returns as many
  -- coefficients, of a polynomial with these values at the points of the rows.
  pub interpolate_lagrange_naive-values :
      (evals : List F)
      → 0 < length evals
      → length evals ≤ p.order
      → (coeffs : List F) × (interpolate_lagrange_naive evals ≡ some (ok coeffs))
        × (length coeffs ≡ length evals)
        × ((m : ℕ)
            → m < length evals
            → eval_poly_horner coeffs (row_point m) ≡ get_or evals m f.zero)
  unfolding interpolate_lagrange_naive
  interpolate_lagrange_naive-values evals some_row fits =
      let start : List F = replicate (length evals) f.zero in
      let (coeffs, ran, size, values) =
        lagrange_loop-values evals 0 (length evals) start fits (omega arith)
          (length-replicate (length evals) f.zero) in
      (
        coeffs,
        rw (filled (length evals) some_row, ran) refl,
        size,
        λ m lt.
            values m lt
            ∙ ap₂ (λ s t. s ⊕ t)
                (horner-zeros start (row_point m) (λ j. get_or-replicate (length evals) j f.zero))
                (rw (leb_at 0 m (omega arith)) refl)
            ∙ f.zero-add _,
      )
    where
      filled : (n : ℕ) → 0 < n → (n == 0) ≡ false
      filled n h = ground arith
