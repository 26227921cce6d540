-- ===== src/Poly/Exact.antt =====
-- `poly_div` and `build_quotient` of crates/oracle-layer/src/poly.rs in terms of the values of
-- polynomials.
use tscp_anchor.Prelude.{
  ℕ, zero, suc, ◌+◌, ◌-◌, ◌≤◌, ◌<◌, ◌≡◌, ◌≢◌, refl, sym, ap, ap₂, ◌∙◌, false, inl, inr, some, List,
  [], ◌∷◌, length, get_or, set, write-set, length-set, get_or-set_other, take, length-take,
  length-replicate, replicate, get_or-replicate, ltb, Bool-cases, arith,
}
use tscp_anchor.Field.{Field, ◌⊕◌, ◌⊖◌, ◌⊗◌, exp}
use tscp_anchor.Field.Ring.{ring, normal, x0, x1, plus, minus, times, unit, nought, opp}
use tscp_anchor.Quotient.{eval_poly_horner}
use tscp_anchor.Quotient.Horner.{horner-set, horner-zeros, horner-take}
use tscp_anchor.Quotient.Divide.{beyond}
use tscp_anchor.Poly.{last, vanishing_poly, poly_div, build_quotient}
use tscp_anchor.Poly.Division.{Divided, poly_div_loop-Divided, parts_value}

last-positive {ℓ} : {A : Type ℓ} (xs : List A) {a : A} → last xs ≡ some a → 0 < length xs
last-positive [] h = absurd cc
last-positive (x ∷ xs) h = omega arith

last-set {ℓ} :
    {A : Type ℓ} (xs : List A) (i : ℕ) (v : A) → suc i ≡ length xs → last (set xs i v) ≡ some v
last-set [] i v h = absurd (omega arith)
last-set (x ∷ []) zero v h = refl
last-set (x ∷ []) (suc i) v h = absurd (omega arith)
last-set (x ∷ y ∷ ys) zero v h = absurd (omega arith)
last-set (x ∷ y ∷ ys) (suc zero) v h = last-set (y ∷ ys) zero v (omega arith)
last-set (x ∷ y ∷ ys) (suc (suc i)) v h = last-set (y ∷ ys) (suc i) v (omega arith)

module _ {ℓ} {F : Type ℓ} ⦃f : Field F⦄ where
  nonzero_test : (a : F) → a ≢ f.zero → f.beq a f.zero ≡ false
  nonzero_test a ne = elim (Bool-cases (f.beq a f.zero)) [
    | inl at_zero ↦ absurd (ne ((f.beq_iff a f.zero).0 at_zero))
    | inr other ↦ other
  ]

  recompose :
      (num den r q : List F) (m k : ℕ) (x : F)
      → parts_value den r q x ≡ parts_value den num (replicate k f.zero) x
      → ((j : ℕ) → m ≤ j → get_or r j f.zero ≡ f.zero)
      → eval_poly_horner num x
        ≡ eval_poly_horner q x ⊗ eval_poly_horner den x ⊕ eval_poly_horner (take m r) x
  unfolding normal
  recompose num den r q m k x v cleared =
      ring (eval_poly_horner num x ∷ eval_poly_horner den x ∷ []) x0 (plus x0 (times nought x1))
        refl
      ∙ ap (λ z. eval_poly_horner num x ⊕ z ⊗ eval_poly_horner den x)
          (sym (horner-zeros (replicate k f.zero) x (λ j. get_or-replicate k j f.zero)))
      ∙ sym v
      ∙ f.add_comm _ _
      ∙ ap (f.add (eval_poly_horner q x ⊗ eval_poly_horner den x)) (sym (horner-take m r x cleared))

  -- By a divisor whose last coefficient is there and not zero, the division returns a quotient of
  -- as many coefficients as the degrees leave, and there is a remainder shorter than the divisor
  -- such that at every point the dividend is the quotient times the divisor plus the remainder.
  pub poly_div-exact :
      (num den : List F) (den_lead : F)
      → last den ≡ some den_lead
      → den_lead ≢ f.zero
      → (q : List F) × (r : List F) × (poly_div num den ≡ some q)
        × (length q ≡ length num + 1 - length den)
        × (length r < length den)
        × ((x : F)
            → eval_poly_horner num x
              ≡ eval_poly_horner q x ⊗ eval_poly_horner den x ⊕ eval_poly_horner r x)
  unfolding eval_poly_horner normal
  poly_div-exact num den den_lead hl ne = elim (Bool-cases (ltb (length num) (length den))) [
    | inl short ↦ (
      [],
      num,
      unfold poly_div in (rw short refl),
      ground arith,
      ground arith,
      λ x.
          ring (eval_poly_horner num x ∷ eval_poly_horner den x ∷ []) x0 (plus (times nought x1) x0)
            refl,
    )
    | inr long ↦
        let k : ℕ = length num - length den + 1 in
        let positive : 0 < length den = last-positive den hl in
        let (inv, hi, unit_product) = f.inverse-some den_lead ne in
        let d : Divided den den_lead k num (replicate k f.zero) =
          poly_div_loop-Divided den den_lead inv k num (replicate k f.zero) hl hi positive
            (ground arith) (omega (arith, length-replicate k f.zero))
            (λ j less. get_or-replicate k j f.zero) (λ j le. beyond num j (ground arith)) in
        (
          d.q',
          take (length den - 1) d.r',
          unfold poly_div in (rw (long, hl, nonzero_test den_lead ne, d.made) refl),
          d.size ∙ length-replicate k f.zero ∙ ground arith,
          omega (arith, length-take (length den - 1) d.r'),
          λ x.
              recompose num den d.r' d.q' (length den - 1) k x (d.value x)
                (λ j le. d.cleared j (omega arith)),
        )
  ]

  -- The vanishing polynomial has n + 1 coefficients, the last of them 1, and the values x^n - 1.
  record IsPowerMinusOne (n : ℕ) (van : List F) : Type ℓ where
    made : vanishing_poly n ≡ some van
    size : length van ≡ n + 1
    leading : last van ≡ some f.one
    value : (x : F) → eval_poly_horner van x ≡ exp x n ⊖ f.one

  two_writes_value :
      (zeros : List F) (n : ℕ) (x : F)
      → 0 < n
      → n < length zeros
      → ((j : ℕ) → get_or zeros j f.zero ≡ f.zero)
      → eval_poly_horner (set (set zeros 0 (f.neg f.one)) n f.one) x ≡ exp x n ⊖ f.one
  unfolding normal exp
  two_writes_value zeros n x positive room empty =
      horner-set (set zeros 0 (f.neg f.one)) n f.one x
        (omega (arith, length-set zeros 0 (f.neg f.one)))
      ∙ ap₂ (λ a b. a ⊕ (f.one ⊖ b) ⊗ exp x n)
          (horner-set zeros 0 (f.neg f.one) x (omega arith)
            ∙ ap₂ (λ a b. a ⊕ (f.neg f.one ⊖ b) ⊗ f.one) (horner-zeros zeros x empty) (empty 0))
          (get_or-set_other zeros 0 n (f.neg f.one) f.zero (λ e. omega arith) ∙ empty n)
      ∙ ring (exp x n ∷ [])
          (plus (plus nought (times (minus (opp unit) nought) unit)) (times (minus unit nought) x0))
          (minus x0 unit) refl

  vanishing_poly-IsPowerMinusOne : (n : ℕ) → 0 < n → (van : List F) × IsPowerMinusOne n van
  vanishing_poly-IsPowerMinusOne n positive =
      let zeros : List F = replicate (n + 1) f.zero in
      let low : List F = set zeros 0 (f.neg f.one) in
      let size0 : length zeros ≡ n + 1 = length-replicate (n + 1) f.zero in
      let size1 : length low ≡ n + 1 = length-set zeros 0 (f.neg f.one) ∙ size0 in
      (
        set low n f.one,
        record {
          made =
              unfold vanishing_poly in
              (rw
                (write-set zeros 0 (f.neg f.one) (omega arith), write-set low n f.one (omega arith))
                refl);
          size = length-set low n f.one ∙ size1;
          leading = last-set low n f.one (omega arith);
          value = λ x.
              two_writes_value zeros n x positive (omega arith)
                (λ j. get_or-replicate (n + 1) j f.zero);
        },
      )

  -- On a domain of n >= 1 points the quotient is built, and there is a remainder of at most n
  -- coefficients such that the polynomial is the quotient times x^n - 1 plus the remainder.
  pub build_quotient-exact :
      (constraint_poly : List F) (n : ℕ)
      → 0 < n
      → (q : List F) × (r : List F) × (build_quotient constraint_poly n ≡ some q)
        × (length r ≤ n)
        × ((x : F)
            → eval_poly_horner constraint_poly x
              ≡ eval_poly_horner q x ⊗ (exp x n ⊖ f.one) ⊕ eval_poly_horner r x)
  build_quotient-exact constraint_poly n positive =
      let (van, v) = vanishing_poly-IsPowerMinusOne n positive in
      let (q, r, made, size, short, value) =
        poly_div-exact constraint_poly van f.one v.leading f.one-ne-zero in
      (
        q,
        r,
        unfold build_quotient in (rw (v.made) made),
        omega (arith, v.size),
        λ x. value x ∙ ap (λ t. eval_poly_horner q x ⊗ t ⊕ eval_poly_horner r x) (v.value x),
      )
