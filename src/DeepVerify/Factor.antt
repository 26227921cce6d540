-- ===== src/DeepVerify/Factor.antt =====
-- The inner loops of `interpolate_lagrange_naive` of crates/prover-server/src/deep_ali.rs, in terms of the
-- values of polynomials.
use tscp_anchor.Prelude.{suc, ◌≤◌, ◌≡◌, refl, ap, ◌∙◌, some, List, [], ◌∷◌, length, arith}
use tscp_anchor.Field.{Field, ◌⊕◌, ◌⊖◌, ◌⊗◌}
use tscp_anchor.Field.Ring.{
  ring, normal, x0, x1, x2, x3, x4, x5, x6, plus, minus, times, nought, unit,
}
use tscp_anchor.Quotient.{eval_poly_horner}
use tscp_anchor.DeepVerify.{factor_loop, add_basis}

module _ {ℓ} {F : Type ℓ} ⦃f : Field F⦄ where
  pub horner-factor_loop :
      (xj carry x : F) (basis : List F)
      → eval_poly_horner (factor_loop xj carry basis) x
        ≡ eval_poly_horner basis x ⊗ (x ⊖ xj) ⊕ carry
  unfolding eval_poly_horner factor_loop normal
  horner-factor_loop xj carry x [] =
      ring (x ∷ xj ∷ carry ∷ []) (plus (times nought x0) x2) (plus (times nought (minus x0 x1)) x2)
        refl
  horner-factor_loop xj carry x (b ∷ basis) =
      ap (λ t. t ⊗ x ⊕ (carry ⊖ b ⊗ xj)) (horner-factor_loop xj (f.zero ⊕ b) x basis)
      ∙ ring (x ∷ xj ∷ carry ∷ b ∷ eval_poly_horner basis x ∷ [])
          (plus (times (plus (times x4 (minus x0 x1)) (plus nought x3)) x0)
            (minus x2 (times x3 x1)))
          (plus (times (plus (times x4 x0) x3) (minus x0 x1)) x2) refl

  pub length-factor_loop :
      (xj carry : F) (basis : List F) → length (factor_loop xj carry basis) ≡ suc (length basis)
  unfolding factor_loop
  length-factor_loop xj carry [] = refl
  length-factor_loop xj carry (b ∷ basis) = ap suc (length-factor_loop xj (f.zero ⊕ b) basis)

  pub constant : (x : F) → eval_poly_horner (f.one ∷ []) x ≡ f.one
  unfolding eval_poly_horner normal
  constant x = ring (x ∷ []) (plus (times nought x0) unit) unit refl

  -- The basis, scaled, is added to the polynomial.
  pub add_basis-sum :
      (e scale : F) (basis coeffs : List F)
      → length basis ≤ length coeffs
      → (sum : List F) × (add_basis e scale basis coeffs ≡ some sum)
        × (length sum ≡ length coeffs)
        × ((x : F)
            → eval_poly_horner sum x
              ≡ eval_poly_horner coeffs x ⊕ eval_poly_horner basis x ⊗ e ⊗ scale)
  unfolding add_basis eval_poly_horner normal
  add_basis-sum e scale [] coeffs fits = (
    coeffs,
    refl,
    refl,
    λ x.
        ring (e ∷ scale ∷ eval_poly_horner coeffs x ∷ []) x2 (plus x2 (times (times nought x0) x1))
          refl,
  )
  add_basis-sum e scale (b ∷ basis) [] fits = absurd (omega arith)
  add_basis-sum e scale (b ∷ basis) (c ∷ coeffs) fits =
      let (rest, made, size, value) = add_basis-sum e scale basis coeffs (omega arith) in
      (
        (c ⊕ b ⊗ e ⊗ scale) ∷ rest,
        rw made refl,
        ap suc size,
        λ x.
            ap (λ t. t ⊗ x ⊕ (c ⊕ b ⊗ e ⊗ scale)) (value x)
            ∙ ring
                (x ∷ e ∷ scale ∷ b ∷ c ∷ eval_poly_horner coeffs x ∷ eval_poly_horner basis x ∷ [])
                (plus (times (plus x5 (times (times x6 x1) x2)) x0)
                  (plus x4 (times (times x3 x1) x2)))
                (plus (plus (times x5 x0) x4) (times (times (plus (times x6 x0) x3) x1) x2)) refl,
      )
