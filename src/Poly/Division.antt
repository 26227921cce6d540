-- ===== src/Poly/Division.antt =====
-- The loops of `poly_div` of crates/oracle-layer/src/poly.rs in terms of the values of polynomials.
use tscp_anchor.Prelude.{
  ℕ, zero, suc, ◌+◌, ◌-◌, ◌≤◌, ◌<◌, ◌≡◌, refl, ap, ap₂, ◌∙◌, inl, inr, some, eq_of_some, List, [],
  ◌∷◌, length, get_or, get_elem?-get_or, set, write-set, length-set, get_or-set_same,
  get_or-set_other, leb, Bool-cases, arith,
}
use tscp_anchor.Field.{Field, ◌⊕◌, ◌⊖◌, ◌⊗◌, exp}
use tscp_anchor.Field.Laws.{inverse-mul}
use tscp_anchor.Field.Ring.{
  ring, normal, x0, x1, x2, x3, x4, x5, x6, plus, minus, times, unit, nought,
}
use tscp_anchor.Quotient.{eval_poly_horner}
use tscp_anchor.Quotient.Horner.{horner-set}
use tscp_anchor.Poly.{last, subtract_row, poly_div_loop}

module _ {ℓ} {F : Type ℓ} ⦃f : Field F⦄ where
  -- What the inner loop leaves.
  record Subtracted (coeff : F) (ds : List F) (i : ℕ) (r : List F) : Type ℓ where
    r' : List F
    made : subtract_row coeff ds i r ≡ some r'
    size : length r' ≡ length r
    value :
        (x : F)
        → eval_poly_horner r' x ≡ eval_poly_horner r x ⊖ coeff ⊗ (eval_poly_horner ds x ⊗ exp x i)
    below : (j : ℕ) → j < i → get_or r' j f.zero ≡ get_or r j f.zero
    beyond : (j : ℕ) → i + length ds ≤ j → get_or r' j f.zero ≡ get_or r j f.zero
    top :
        (d : F) (m : ℕ)
        → last ds ≡ some d
        → suc m ≡ i + length ds
        → get_or r' m f.zero ≡ get_or r m f.zero ⊖ coeff ⊗ d

  set_value :
      (coeff d x : F) (ds r : List F) (i : ℕ)
      → i < length r
      → eval_poly_horner (set r i (get_or r i f.zero ⊖ coeff ⊗ d)) x
          ⊖ coeff ⊗ (eval_poly_horner ds x ⊗ exp x (suc i))
        ≡ eval_poly_horner r x ⊖ coeff ⊗ (eval_poly_horner (d ∷ ds) x ⊗ exp x i)
  unfolding eval_poly_horner exp normal
  set_value coeff d x ds r i h =
      ap (λ t. t ⊖ coeff ⊗ (eval_poly_horner ds x ⊗ (x ⊗ exp x i)))
        (horner-set r i (get_or r i f.zero ⊖ coeff ⊗ d) x h)
      ∙ ring
          (coeff
            ∷ d
            ∷ x
            ∷ eval_poly_horner ds x
            ∷ exp x i
            ∷ eval_poly_horner r x
            ∷ get_or r i f.zero
            ∷ [])
          (minus (plus x5 (times (minus (minus x6 (times x0 x1)) x6) x4))
            (times x0 (times x3 (times x2 x4))))
          (minus x5 (times x0 (times (plus (times x3 x2) x1) x4))) refl

  row_nil : (coeff : F) (i : ℕ) (r : List F) → Subtracted coeff [] i r
  unfolding subtract_row eval_poly_horner normal
  row_nil coeff i r = record {
    r' = r;
    made = refl;
    size = refl;
    value = λ x.
        ring (coeff ∷ exp x i ∷ eval_poly_horner r x ∷ []) x2
          (minus x2 (times x0 (times nought x1))) refl;
    below = λ j h. refl;
    beyond = λ j h. refl;
    top = λ d m h e. absurd cc;
  }

  row_top :
      (coeff d : F) (ds : List F) (i : ℕ) (r : List F)
      → i < length r
      → (s : Subtracted coeff ds (suc i) (set r i (get_or r i f.zero ⊖ coeff ⊗ d)))
      → (c : F) (m : ℕ) → last (d ∷ ds) ≡ some c
      → suc m ≡ i + suc (length ds)
      → get_or s.r' m f.zero ≡ get_or r m f.zero ⊖ coeff ⊗ c
  row_top coeff d [] i r inside s c m h e =
      ap (λ j. get_or s.r' j f.zero) {x = m} {y = i} (omega arith)
      ∙ s.below i (omega arith)
      ∙ get_or-set_same r i (get_or r i f.zero ⊖ coeff ⊗ d) f.zero inside
      ∙ ap₂ (λ j b. get_or r j f.zero ⊖ coeff ⊗ b) {x = i} {y = m} (omega arith) (eq_of_some h)
  row_top coeff d (d' ∷ ds) i r inside s c m h e =
      s.top c m h (omega arith)
      ∙ ap (λ t. t ⊖ coeff ⊗ c)
          (get_or-set_other r i m (get_or r i f.zero ⊖ coeff ⊗ d) f.zero (λ q. omega arith))

  row_made :
      (coeff d : F) (ds : List F) (i : ℕ) (r : List F)
      → i < length r
      → subtract_row coeff (d ∷ ds) i r
        ≡ subtract_row coeff ds (suc i) (set r i (get_or r i f.zero ⊖ coeff ⊗ d))
  unfolding subtract_row
  row_made coeff d ds i r inside = rw (get_elem?-get_or r i f.zero inside) refl

  row :
      (coeff : F) (ds : List F) (i : ℕ) (r : List F)
      → i + length ds ≤ length r
      → Subtracted coeff ds i r
  row coeff [] i r fits = row_nil coeff i r
  row coeff (d ∷ ds) i r fits =
      let inside : i < length r = omega arith in
      let v : F = get_or r i f.zero ⊖ coeff ⊗ d in
      let s : Subtracted coeff ds (suc i) (set r i v) =
        row coeff ds (suc i) (set r i v) (omega (arith, length-set r i v)) in
      record {
        r' = s.r';
        made = row_made coeff d ds i r inside ∙ s.made;
        size = s.size ∙ length-set r i v;
        value = λ x. s.value x ∙ set_value coeff d x ds r i inside;
        below =
            λ j less. s.below j (omega arith) ∙ get_or-set_other r i j v f.zero (λ e. omega arith);
        beyond =
            λ j le. s.beyond j (omega arith) ∙ get_or-set_other r i j v f.zero (λ e. omega arith);
        top = row_top coeff d ds i r inside s;
      }

  -- A polynomial in two parts: `r + q * den`.
  abbrev pub parts_value : List F → List F → List F → F → F
  parts_value den r q x = eval_poly_horner r x ⊕ eval_poly_horner q x ⊗ eval_poly_horner den x

  -- What a run of the outer loop over `k` positions leaves.
  pub record Divided (den : List F) (den_lead : F) (k : ℕ) (r q : List F) : Type ℓ where
    pub r' : List F
    pub q' : List F
    pub made : poly_div_loop den den_lead k r q ≡ some (r', q')
    pub size : length q' ≡ length q
    pub value : (x : F) → parts_value den r' q' x ≡ parts_value den r q x
    pub cleared : (j : ℕ) → length den ≤ suc j → get_or r' j f.zero ≡ f.zero

  step_made :
      (den : List F) (den_lead inv : F) (k : ℕ) (r q : List F)
      → 0 < length den
      → f.inverse den_lead ≡ some inv
      → k + length den ≤ length r
      → k < length q
      → (s : Subtracted (get_or r (k + length den - 1) f.zero ⊗ inv) den k r)
      → poly_div_loop den den_lead (suc k) r q
        ≡ poly_div_loop den den_lead k s.r' (set q k (get_or r (k + length den - 1) f.zero ⊗ inv))
  unfolding poly_div_loop
  step_made den den_lead inv k r q positive h fits room s =
      rw
        (
          get_elem?-get_or r (k + length den - 1) f.zero (omega arith),
          h,
          write-set q k (get_or r (k + length den - 1) f.zero ⊗ inv) room,
          s.made,
        )
        refl

  step_value :
      (den q r : List F) (k : ℕ) (coeff x : F)
      → k < length q
      → get_or q k f.zero ≡ f.zero
      → (s : Subtracted coeff den k r)
      → parts_value den s.r' (set q k coeff) x ≡ parts_value den r q x
  unfolding normal
  step_value den q r k coeff x room free s =
      ap₂ (λ a b. a ⊕ b ⊗ eval_poly_horner den x) (s.value x)
        (horner-set q k coeff x room ∙ ap (λ t. eval_poly_horner q x ⊕ (coeff ⊖ t) ⊗ exp x k) free)
      ∙ ring
          (eval_poly_horner r x
            ∷ coeff
            ∷ eval_poly_horner den x
            ∷ exp x k
            ∷ eval_poly_horner q x
            ∷ [])
          (plus (minus x0 (times x1 (times x2 x3)))
            (times (plus x4 (times (minus x1 nought) x3)) x2))
          (plus x0 (times x4 x2)) refl

  top_cleared :
      (t inv den_lead : F) → f.inverse den_lead ≡ some inv → t ⊖ t ⊗ inv ⊗ den_lead ≡ f.zero
  unfolding normal
  top_cleared t inv den_lead h =
      ring (t ∷ inv ∷ den_lead ∷ []) (minus x0 (times (times x0 x1) x2))
        (minus x0 (times x0 (times x2 x1))) refl
      ∙ ap (λ u. t ⊖ t ⊗ u) (inverse-mul h)
      ∙ ring (t ∷ []) (minus x0 (times x0 unit)) nought refl

  step_cleared :
      (den r : List F) (den_lead inv : F) (k : ℕ)
      → last den ≡ some den_lead
      → f.inverse den_lead ≡ some inv
      → 0 < length den
      → ((j : ℕ) → suc k + length den ≤ suc j → get_or r j f.zero ≡ f.zero)
      → (s : Subtracted (get_or r (k + length den - 1) f.zero ⊗ inv) den k r) → (j : ℕ)
      → k + length den ≤ suc j
      → get_or s.r' j f.zero ≡ f.zero
  step_cleared den r den_lead inv k hl hi positive cleared s j le =
      elim (Bool-cases (leb (k + length den) j)) [
        | inl above ↦ s.beyond j (ground arith) ∙ cleared j (ground arith)
        | inr at_top ↦
            s.top den_lead j hl (ground arith)
            ∙ ap (λ i. get_or r j f.zero ⊖ get_or r i f.zero ⊗ inv ⊗ den_lead)
                {x = k + length den - 1} {y = j} (ground arith)
            ∙ top_cleared (get_or r j f.zero) inv den_lead hi
      ]

  pub poly_div_loop-Divided :
      (den : List F) (den_lead inv : F) (k : ℕ) (r q : List F)
      → last den ≡ some den_lead
      → f.inverse den_lead ≡ some inv
      → 0 < length den
      → k + length den ≤ suc (length r)
      → k ≤ length q
      → ((j : ℕ) → j < k → get_or q j f.zero ≡ f.zero)
      → ((j : ℕ) → k + length den ≤ suc j → get_or r j f.zero ≡ f.zero)
      → Divided den den_lead k r q
  poly_div_loop-Divided den den_lead inv zero r q hl hi positive fits room free cleared = record {
    r' = r;
    q' = q;
    made = unfold poly_div_loop in refl;
    size = refl;
    value = λ x. refl;
    cleared = λ j le. cleared j (omega arith);
  }
  poly_div_loop-Divided den den_lead inv (suc k) r q hl hi positive fits room free cleared =
      let coeff : F = get_or r (k + length den - 1) f.zero ⊗ inv in
      let s : Subtracted coeff den k r = row coeff den k r (omega arith) in
      let d : Divided den den_lead k s.r' (set q k coeff) =
        poly_div_loop-Divided den den_lead inv k s.r' (set q k coeff) hl hi positive
          (omega (arith, s.size)) (omega (arith, length-set q k coeff))
          (λ j less. get_or-set_other q k j coeff f.zero (λ e. omega arith) ∙ free j (omega arith))
          (step_cleared den r den_lead inv k hl hi positive cleared s) in
      record {
        r' = d.r';
        q' = d.q';
        made = step_made den den_lead inv k r q positive hi (omega arith) (omega arith) s ∙ d.made;
        size = d.size ∙ length-set q k coeff;
        value =
            λ x. d.value x ∙ step_value den q r k coeff x (omega arith) (free k (omega arith)) s;
        cleared = d.cleared;
      }
