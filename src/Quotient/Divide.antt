-- ===== src/Quotient/Divide.antt =====
-- `divide_by_vanishing` and `vanishes_on_domain` of crates/oracle-layer/src/quotient.rs, in terms of
-- the values of polynomials.
use tscp_anchor.Prelude.{
  ℕ, zero, suc, ◌+◌, ◌-◌, ◌≤◌, ◌<◌, ◌≡◌, refl, sym, ap, ap₂, ◌∙◌, Bool, true, false, ◌&&◌,
  eq_of_some, inl, inr, some, List, [], ◌∷◌, length, get_or, take, length-take, length-replicate,
  replicate, get_or-replicate, leb, Bool-cases, arith,
}
use tscp_anchor.Field.{Field, ◌⊕◌, ◌⊖◌, ◌⊗◌, exp}
use tscp_anchor.Field.Laws.{mul-zero, sub_self, add-zero, zero-mul}
use tscp_anchor.Field.Ring.{ring, normal, x0, x1, x2, plus, minus, times, unit, nought}
use tscp_anchor.Quotient.{
  QuotientResult, eval_poly_horner, divide_by_vanishing, all_zero, vanishes_on_domain,
}
use tscp_anchor.Quotient.Horner.{horner-zeros, horner-take}
use tscp_anchor.Quotient.Iterate.{leb_le, Divided, divide_loop-Divided}

longer : (m n : ℕ) → leb m n ≡ false → n + (m - n) ≤ m
longer m n h = ground arith

longer_end : (m n j : ℕ) → leb m n ≡ false → n + (m - n) ≤ j → m ≤ j
longer_end m n j h le = ground arith

pub beyond {ℓ} :
    {F : Type ℓ} ⦃f : Field F⦄ (xs : List F) (j : ℕ) → length xs ≤ j → get_or xs j f.zero ≡ f.zero
beyond [] j h = refl
beyond (x ∷ xs) zero h = absurd (omega arith)
beyond (x ∷ xs) (suc j) h = beyond xs j (omega arith)

and-first : (a b : Bool) → (a && b) ≡ true → a ≡ true
and-first a b h = ground arith

and-second : (a b : Bool) → (a && b) ≡ true → b ≡ true
and-second a b h = ground arith

module _ {ℓ} {F : Type ℓ} ⦃f : Field F⦄ where
  zero_quotient :
      (n : ℕ) (cs : List F) (x : F)
      → eval_poly_horner cs x
        ≡ eval_poly_horner (f.zero ∷ []) x ⊗ (exp x n ⊖ f.one) ⊕ eval_poly_horner cs x
  unfolding eval_poly_horner normal
  zero_quotient n cs x =
      ring (eval_poly_horner cs x ∷ x ∷ exp x n ∷ []) x0
        (plus (times (plus (times nought x1) nought) (minus x2 unit)) x0) refl

  exact :
      (n : ℕ) (coeffs w q : List F) (x : F) {empty : F}
      → eval_poly_horner w x ⊕ eval_poly_horner q x ⊗ (exp x n ⊖ f.one)
        ≡ eval_poly_horner coeffs x ⊕ empty ⊗ (exp x n ⊖ f.one)
      → eval_poly_horner (take n w) x ≡ eval_poly_horner w x
      → empty ≡ f.zero
      → eval_poly_horner coeffs x
        ≡ eval_poly_horner q x ⊗ (exp x n ⊖ f.one) ⊕ eval_poly_horner (take n w) x
  exact n coeffs w q x v t e =
      sym (add-zero (eval_poly_horner coeffs x))
      ∙ ap (f.add (eval_poly_horner coeffs x)) (sym (zero-mul (exp x n ⊖ f.one)))
      ∙ ap (λ z. eval_poly_horner coeffs x ⊕ z ⊗ (exp x n ⊖ f.one)) (sym e)
      ∙ sym v
      ∙ f.add_comm _ _
      ∙ ap (f.add (eval_poly_horner q x ⊗ (exp x n ⊖ f.one))) (sym t)

  -- For a domain of n >= 1 points the division returns a quotient and a remainder of no more than n
  -- coefficients, and at every point the polynomial is the quotient times x^n - 1 plus the
  -- remainder.
  pub divide_by_vanishing-exact :
      (coeffs : List F) (n : ℕ)
      → 0 < n
      → (r : QuotientResult F) × (divide_by_vanishing coeffs n ≡ some r)
        × (length r.remainder ≤ n)
        × ((x : F)
            → eval_poly_horner coeffs x
              ≡ eval_poly_horner r.quotient x ⊗ (exp x n ⊖ f.one) ⊕ eval_poly_horner r.remainder x)
  divide_by_vanishing-exact coeffs n positive = elim (Bool-cases (leb (length coeffs) n)) [
    | inl short ↦ (
      record { quotient = f.zero ∷ []; remainder = coeffs },
      unfold divide_by_vanishing in (rw short refl),
      leb_le (length coeffs) n short,
      λ x. zero_quotient n coeffs x,
    )
    | inr long ↦
        let k : ℕ = length coeffs - n in
        let d : Divided n k coeffs (replicate k f.zero) =
          divide_loop-Divided n k coeffs (replicate k f.zero) positive
            (longer (length coeffs) n long) (omega (arith, length-replicate k f.zero))
            (λ j less. get_or-replicate k j f.zero)
            (λ j le. beyond coeffs j (longer_end (length coeffs) n j long le)) in
        (
          record { quotient = d.quotient'; remainder = take n d.work' },
          unfold divide_by_vanishing in (rw (long, d.made) refl),
          omega (arith, length-take n d.work'),
          λ x.
              exact n coeffs d.work' d.quotient' x (d.value x) (horner-take n d.work' x d.cleared)
                (horner-zeros (replicate k f.zero) x (λ j. get_or-replicate k j f.zero)),
        )
  ]

  all_zero-horner : (rs : List F) (x : F) → all_zero rs ≡ true → eval_poly_horner rs x ≡ f.zero
  unfolding all_zero
  all_zero-horner rs x h = horner-zeros rs x (zeros rs h)
    where
      zeros : (rs : List F) → all_zero rs ≡ true → (j : ℕ) → get_or rs j f.zero ≡ f.zero
      zeros [] h j = refl
      zeros (r ∷ rs) h zero = (f.beq_iff r f.zero).0 (and-first (f.beq r f.zero) (all_zero rs) h)
      zeros (r ∷ rs) h (suc j) = zeros rs (and-second (f.beq r f.zero) (all_zero rs) h) j

  -- A polynomial that passes the check on a domain of n >= 1 points is zero at every point x with
  -- x^n = 1.
  pub vanishes_on_domain_sound :
      (coeffs : List F) (n : ℕ) (x : F)
      → 0 < n
      → vanishes_on_domain coeffs n ≡ some true
      → exp x n ≡ f.one
      → eval_poly_horner coeffs x ≡ f.zero
  unfolding vanishes_on_domain
  vanishes_on_domain_sound coeffs n x positive h root =
      let (r, made, short, value) = divide_by_vanishing-exact coeffs n positive in
      let passed : some (all_zero r.remainder) ≡ some true = sym (rw made refl) ∙ h in
      value x
      ∙ ap₂ (λ a b. eval_poly_horner r.quotient x ⊗ (a ⊖ f.one) ⊕ b) root
          (all_zero-horner r.remainder x (eq_of_some passed))
      ∙ ap (λ z. eval_poly_horner r.quotient x ⊗ z ⊕ f.zero) (sub_self f.one)
      ∙ add-zero _
      ∙ mul-zero (eval_poly_horner r.quotient x)
