-- ===== src/Fri/Poly.antt =====
-- The folding step of crates/oracle-layer/src/fri.rs on the evaluations of a polynomial.
use tscp_anchor.Prelude.{
  ℕ, zero, suc, ◌+◌, ◌/◌, ◌%◌, ◌<◌, ◌≤◌, ◌≡◌, refl, sym, ap, ap₂, ◌∙◌, some, List, [], ◌∷◌, length,
  get_elem?, get_elem?-some, ◌>>=◌, >>=-eq-some, eq_of_some, arith,
}
use tscp_anchor.Field.{Field, ◌⊕◌, ◌⊖◌, ◌⊗◌, from_u64}
use tscp_anchor.Field.Laws.{inverse-mul}
use tscp_anchor.Field.Ring.{ring, normal, x0, x1, x2, x3, x4, x5, plus, minus, times, unit, nought}
use tscp_anchor.Quotient.{eval_poly_horner}
use tscp_anchor.Fri.{folded_value, fold_at, fri_fold_step, fold_domain}
use tscp_anchor.Fri.Fold.{IsFold, fri_fold_step-IsFold, get_elem?-map_sq, length-fold_domain}

pub get_elem?-lt {ℓ} :
    {A : Type ℓ} (xs : List A) (i : ℕ) {a : A} → get_elem? xs i ≡ some a → i < length xs
get_elem?-lt [] i h = absurd cc
get_elem?-lt (x ∷ xs) zero h = omega arith
get_elem?-lt (x ∷ xs) (suc i) h = omega (arith, get_elem?-lt xs i h)

module _ {ℓ} {F : Type ℓ} ⦃f : Field F⦄ where
  -- The coefficients of the folded polynomial.
  unfoldable pub fold_coeffs : F → List F → List F
  fold_coeffs beta [] = []
  fold_coeffs beta (a ∷ []) = a ∷ []
  fold_coeffs beta (a ∷ b ∷ cs) = (a ⊕ beta ⊗ b) ∷ fold_coeffs beta cs

  evens : List F → List F
  evens [] = []
  evens (a ∷ []) = a ∷ []
  evens (a ∷ b ∷ cs) = a ∷ evens cs

  odds : List F → List F
  odds [] = []
  odds (a ∷ []) = []
  odds (a ∷ b ∷ cs) = b ∷ odds cs

  -- The evaluations of a polynomial over a domain.
  pub record IsTable (cs d e : List F) : Type ℓ where
    pub size : length e ≡ length d
    pub values :
        (i : ℕ) (x : F) → get_elem? d i ≡ some x → get_elem? e i ≡ some (eval_poly_horner cs x)

  -- The second half of a domain holds the opposites of the first.
  pub record IsSymmetric (d : List F) : Type ℓ where
    pub opposite :
        (i : ℕ) (x : F)
        → i < length d / 2
        → get_elem? d i ≡ some x
        → get_elem? d (i + length d / 2) ≡ some (f.zero ⊖ x)

  horner_split :
      (cs : List F) (x : F)
      → eval_poly_horner cs x
        ≡ eval_poly_horner (evens cs) (x ⊗ x) ⊕ x ⊗ eval_poly_horner (odds cs) (x ⊗ x)
  unfolding eval_poly_horner evens odds normal
  horner_split [] x = ring (x ∷ []) nought (plus nought (times x0 nought)) refl
  horner_split (a ∷ []) x =
      ring (x ∷ a ∷ []) (plus (times nought x0) x1)
        (plus (plus (times nought (times x0 x0)) x1) (times x0 nought)) refl
  horner_split (a ∷ b ∷ cs) x =
      ap (λ t. (t ⊗ x ⊕ b) ⊗ x ⊕ a) (horner_split cs x)
      ∙ ring
          (x
            ∷ a
            ∷ b
            ∷ eval_poly_horner (evens cs) (x ⊗ x)
            ∷ eval_poly_horner (odds cs) (x ⊗ x)
            ∷ [])
          (plus (times (plus (times (plus x3 (times x0 x4)) x0) x2) x0) x1)
          (plus (plus (times x3 (times x0 x0)) x1) (times x0 (plus (times x4 (times x0 x0)) x2)))
          refl

  horner-fold_coeffs :
      (beta y : F) (cs : List F)
      → eval_poly_horner (fold_coeffs beta cs) y
        ≡ eval_poly_horner (evens cs) y ⊕ beta ⊗ eval_poly_horner (odds cs) y
  unfolding eval_poly_horner evens odds fold_coeffs normal
  horner-fold_coeffs beta y [] = ring (beta ∷ []) nought (plus nought (times x0 nought)) refl
  horner-fold_coeffs beta y (a ∷ []) =
      ring (beta ∷ y ∷ a ∷ []) (plus (times nought x1) x2)
        (plus (plus (times nought x1) x2) (times x0 nought)) refl
  horner-fold_coeffs beta y (a ∷ b ∷ cs) =
      ap (λ t. t ⊗ y ⊕ (a ⊕ beta ⊗ b)) (horner-fold_coeffs beta y cs)
      ∙ ring (beta ∷ y ∷ a ∷ b ∷ eval_poly_horner (evens cs) y ∷ eval_poly_horner (odds cs) y ∷ [])
          (plus (times (plus x4 (times x0 x5)) x1) (plus x2 (times x0 x3)))
          (plus (plus (times x4 x1) x2) (times x0 (plus (times x5 x1) x3))) refl

  -- The fold of the two values of a polynomial with even part `a` and odd part `b`.
  fold_parts :
      (t y beta x a b : F)
      → from_u64 2 ⊗ t ≡ f.one
      → x ⊗ y ≡ f.one
      → folded_value t y beta (a ⊕ x ⊗ b) (a ⊕ (f.zero ⊖ x) ⊗ b) ≡ a ⊕ beta ⊗ b
  unfolding folded_value normal from_u64
  fold_parts t y beta x a b ht hy =
      ring (t ∷ y ∷ beta ∷ x ∷ a ∷ b ∷ [])
        (plus (times (plus (plus x4 (times x3 x5)) (plus x4 (times (minus nought x3) x5))) x0) (
          times x2 (
            times (times (minus (plus x4 (times x3 x5)) (plus x4 (times (minus nought x3) x5))) x0)
              x1)))
        (plus (times x4 (times (plus (plus nought unit) unit) x0))
          (times x2 (times x5 (times (times (plus (plus nought unit) unit) x0) (times x3 x1)))))
        refl
      ∙ ap₂ (λ u w. a ⊗ u ⊕ beta ⊗ (b ⊗ (u ⊗ w))) ht hy
      ∙ ring (beta ∷ a ∷ b ∷ []) (plus (times x1 unit) (times x0 (times x2 (times unit unit))))
          (plus x1 (times x0 x2)) refl

  square_opposite : (x : F) → (f.zero ⊖ x) ⊗ (f.zero ⊖ x) ≡ x ⊗ x
  unfolding normal
  square_opposite x = ring (x ∷ []) (times (minus nought x0) (minus nought x0)) (times x0 x0) refl

  pub length-fold_coeffs :
      (beta : F) (cs : List F) → length (fold_coeffs beta cs) ≤ length cs / 2 + length cs % 2
  unfolding fold_coeffs
  length-fold_coeffs beta [] = omega arith
  length-fold_coeffs beta (a ∷ []) = omega arith
  length-fold_coeffs beta (a ∷ b ∷ cs) = omega (arith, length-fold_coeffs beta cs)

  folded_of :
      (e d : List F) (beta t v x px pn : F) (half i : ℕ)
      → fold_at e d beta t half i ≡ some v
      → get_elem? d i ≡ some x
      → get_elem? e i ≡ some px
      → get_elem? e (i + half) ≡ some pn
      → (y : F) × (f.inverse x ≡ some y) × (folded_value t y beta px pn ≡ v)
  unfolding fold_at
  folded_of e d beta t v x px pn half i h hd he hn =
      let h' : (f.inverse x >>= λ y. some (folded_value t y beta px pn)) ≡ some v =
        rw (hd, he, hn) at h in
      let (y, hy, made) = >>=-eq-some (f.inverse x) (λ y. some (folded_value t y beta px pn)) h' in
      (y, hy, eq_of_some made)

  fold_value :
      (cs e d : List F) (beta t v x : F) (i : ℕ)
      → IsTable cs d e
      → IsSymmetric d
      → f.inverse (from_u64 2) ≡ some t
      → i < length d / 2
      → get_elem? d i ≡ some x
      → fold_at e d beta t (length e / 2) i ≡ some v
      → v ≡ eval_poly_horner (fold_coeffs beta cs) (x ⊗ x)
  fold_value cs e d beta t v x i tab symm two less hd h =
      let h' : fold_at e d beta t (length d / 2) i ≡ some v =
        ap (λ n. fold_at e d beta t (n / 2) i) (sym tab.size) ∙ h in
      let (y, hy, made) =
        folded_of e d beta t v x (eval_poly_horner cs x) (eval_poly_horner cs (f.zero ⊖ x))
          (length d / 2) i h' hd (tab.values i x hd)
          (tab.values (i + length d / 2) (f.zero ⊖ x) (symm.opposite i x less hd)) in
      sym made
      ∙ ap₂ (folded_value t y beta) (horner_split cs x) (
          horner_split cs (f.zero ⊖ x)
          ∙ ap (λ z. eval_poly_horner (evens cs) z ⊕ (f.zero ⊖ x) ⊗ eval_poly_horner (odds cs) z)
              (square_opposite x))
      ∙ fold_parts t y beta x (eval_poly_horner (evens cs) (x ⊗ x))
          (eval_poly_horner (odds cs) (x ⊗ x)) (inverse-mul two) (inverse-mul hy)
      ∙ sym (horner-fold_coeffs beta (x ⊗ x) cs)

  -- On the evaluations of a polynomial over a domain whose second half holds the opposites of the
  -- first, a fold that returns gives the evaluations, over the folded domain, of the polynomial
  -- whose coefficients are each even one plus beta times the odd one behind it, and which has at
  -- most half as many of them, rounded up.
  pub fri_fold_step-IsTable :
      (cs e d : List F) (beta : F) (e' : List F)
      → IsTable cs d e
      → IsSymmetric d
      → fri_fold_step e d beta ≡ some e'
      → IsTable (fold_coeffs beta cs) (fold_domain d) e'
        × (length (fold_coeffs beta cs) ≤ length cs / 2 + length cs % 2)
  fri_fold_step-IsTable cs e d beta e' tab symm h =
      let r : IsFold e d beta e' = fri_fold_step-IsFold e d beta e' h in
      (
        record {
          size = r.size ∙ ap (λ n. n / 2) tab.size ∙ sym (length-fold_domain d);
          values = λ i y hy. entry r i y hy;
        },
        length-fold_coeffs beta cs,
      )
    where
      entry :
          IsFold e d beta e'
          → (i : ℕ) (y : F) → get_elem? (fold_domain d) i ≡ some y
          → get_elem? e' i ≡ some (eval_poly_horner (fold_coeffs beta cs) y)
      entry r i y hy =
          let less : i < length d / 2 =
            omega (arith, get_elem?-lt (fold_domain d) i hy, length-fold_domain d) in
          let (x, hx, square) = get_elem?-map_sq d (length d / 2) i y (unfold fold_domain in hy) in
          let (v, hv) = get_elem?-some e' i (omega (arith, r.size, tab.size, less)) in
          hv
          ∙ ap some (
              fold_value cs e d beta r.two_inv v x i tab symm r.two_inverse less hx
                (r.values i v hv)
              ∙ ap (eval_poly_horner (fold_coeffs beta cs)) (sym square))
