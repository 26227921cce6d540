-- ===== src/Quotient/Horner.antt =====
-- How a write, a cut and zeros change the value of a polynomial.
use tscp_anchor.Prelude.{
  ℕ, zero, suc, ◌+◌, ◌≤◌, ◌<◌, ◌≡◌, refl, sym, ap, ap₂, ◌∙◌, List, [], ◌∷◌, length, get_or, set,
  take, arith,
}
use tscp_anchor.Field.{Field, ◌⊕◌, ◌⊖◌, ◌⊗◌, exp}
use tscp_anchor.Field.Laws.{zero-mul}
use tscp_anchor.Field.Ring.{ring, normal, x0, x1, x2, x3, x4, plus, minus, times, unit}
use tscp_anchor.Quotient.{eval_poly_horner}

module _ {ℓ} {F : Type ℓ} ⦃f : Field F⦄ where
  pub exp-add : (x : F) (m n : ℕ) → exp x (m + n) ≡ exp x m ⊗ exp x n
  unfolding exp
  exp-add x zero n = ap (exp x) {x = 0 + n} {y = n} (omega arith) ∙ sym (f.one-mul (exp x n))
  exp-add x (suc m) n =
      ap (exp x) {x = suc m + n} {y = suc (m + n)} (omega arith)
      ∙ ap (f.mul x) (exp-add x m n)
      ∙ sym (f.mul_assoc x (exp x m) (exp x n))

  pub horner-set :
      (w : List F) (i : ℕ) (v x : F)
      → i < length w
      → eval_poly_horner (set w i v) x ≡ eval_poly_horner w x ⊕ (v ⊖ get_or w i f.zero) ⊗ exp x i
  unfolding eval_poly_horner exp normal
  horner-set [] i v x h = elim h [ ]
  horner-set (c ∷ w) zero v x h =
      ring (eval_poly_horner w x ∷ x ∷ v ∷ c ∷ []) (plus (times x0 x1) x2)
        (plus (plus (times x0 x1) x3) (times (minus x2 x3) unit)) refl
  horner-set (c ∷ w) (suc i) v x h =
      ap (λ t. t ⊗ x ⊕ c) (horner-set w i v x (omega arith))
      ∙ ring (eval_poly_horner w x ∷ x ∷ (v ⊖ get_or w i f.zero) ∷ c ∷ exp x i ∷ [])
          (plus (times (plus x0 (times x2 x4)) x1) x3)
          (plus (plus (times x0 x1) x3) (times x2 (times x1 x4))) refl

  pub horner-zeros :
      (w : List F) (x : F) → ((j : ℕ) → get_or w j f.zero ≡ f.zero) → eval_poly_horner w x ≡ f.zero
  unfolding eval_poly_horner
  horner-zeros [] x h = refl
  horner-zeros (c ∷ w) x h =
      ap₂ (λ t d. t ⊗ x ⊕ d) (horner-zeros w x (λ j. h (suc j))) (h 0)
      ∙ ap (λ t. t ⊕ f.zero) (zero-mul x)
      ∙ f.zero-add f.zero

  pub horner-take :
      (n : ℕ) (w : List F) (x : F)
      → ((j : ℕ) → n ≤ j → get_or w j f.zero ≡ f.zero)
      → eval_poly_horner (take n w) x ≡ eval_poly_horner w x
  unfolding eval_poly_horner
  horner-take zero w x h = sym (horner-zeros w x (λ j. h j (omega arith)))
  horner-take (suc n) [] x h = refl
  horner-take (suc n) (c ∷ w) x h =
      ap (λ t. t ⊗ x ⊕ c) (horner-take n w x (λ j le. h (suc j) (omega arith)))
