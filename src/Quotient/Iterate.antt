-- ===== src/Quotient/Iterate.antt =====
-- One iteration of the division's loop, and what the loop leaves.
use tscp_anchor.Prelude.{
  ℕ, zero, suc, ◌+◌, ◌≤◌, ◌<◌, ◌≡◌, refl, ap, ap₂, ◌∙◌, true, false, inl, inr, some, List, [], ◌∷◌,
  length, get_or, set, write-set, length-set, get_or-set_same, get_or-set_other, get_elem?-get_or,
  leb, Bool-cases, arith,
}
use tscp_anchor.Field.{Field, ◌⊕◌, ◌⊖◌, ◌⊗◌, exp}
use tscp_anchor.Field.Ring.{ring, normal, x0, x1, x2, x3, x4, x5, plus, minus, times, unit, nought}
use tscp_anchor.Quotient.{eval_poly_horner, divide_loop}
use tscp_anchor.Quotient.Horner.{exp-add, horner-set}

pub leb_le : (a b : ℕ) → leb a b ≡ true → a ≤ b
leb_le a b h = ground arith

top_index : (n k j : ℕ) → n + k ≤ j → leb (n + suc k) j ≡ false → n + k ≡ j
top_index n k j le h = ground arith

above_index : (n k j : ℕ) → leb (n + suc k) j ≡ true → n + k ≡ j → ⊥
above_index n k j h e = ground arith

module _ {ℓ} {F : Type ℓ} ⦃f : Field F⦄ where
  -- A polynomial in two parts: `work + quotient * (x^n - 1)`.
  abbrev pub split_value : ℕ → List F → List F → F → F
  split_value n work quotient x =
      eval_poly_horner work x ⊕ eval_poly_horner quotient x ⊗ (exp x n ⊖ f.one)

  -- What a run of the loop from `n + k` leaves.
  pub record Divided (n k : ℕ) (work quotient : List F) : Type ℓ where
    pub work' : List F
    pub quotient' : List F
    pub made : divide_loop n k work quotient ≡ some (work', quotient')
    pub value : (x : F) → split_value n work' quotient' x ≡ split_value n work quotient x
    pub cleared : (j : ℕ) → n ≤ j → get_or work' j f.zero ≡ f.zero

  module _ (n k : ℕ) (work quotient : List F) (positive : 0 < n) (inside : n + k < length work)
      (room : k < length quotient) where
    c : F
    c = get_or work (n + k) f.zero

    old : F
    old = get_or work k f.zero

    work1 : List F
    work1 = set (set work (n + k) f.zero) k (old ⊕ c)

    apart : n + k ≡ k → ⊥
    apart e = omega (arith, positive)

    work_value :
        (x : F)
        → eval_poly_horner work1 x
          ≡ eval_poly_horner work x ⊕ (f.zero ⊖ c) ⊗ (exp x n ⊗ exp x k) ⊕ (old ⊕ c ⊖ old) ⊗ exp x k
    unfolding work1 c old
    work_value x =
        horner-set (set work (n + k) f.zero) k (old ⊕ c) x
          (omega (arith, length-set work (n + k) f.zero))
        ∙ ap₂ (λ a b. a ⊕ (old ⊕ c ⊖ b) ⊗ exp x k)
            (horner-set work (n + k) f.zero x inside
              ∙ ap (λ t. eval_poly_horner work x ⊕ (f.zero ⊖ c) ⊗ t) (exp-add x n k))
            (get_or-set_other work (n + k) k f.zero f.zero apart)

    quotient_value :
        (x : F)
        → get_or quotient k f.zero ≡ f.zero
        → eval_poly_horner (set quotient k c) x
          ≡ eval_poly_horner quotient x ⊕ (c ⊖ f.zero) ⊗ exp x k
    quotient_value x free =
        horner-set quotient k c x room
        ∙ ap (λ t. eval_poly_horner quotient x ⊕ (c ⊖ t) ⊗ exp x k) free

    step_value :
        (x : F)
        → get_or quotient k f.zero ≡ f.zero
        → split_value n work1 (set quotient k c) x ≡ split_value n work quotient x
    unfolding normal
    step_value x free =
        ap₂ (λ a b. a ⊕ b ⊗ (exp x n ⊖ f.one)) (work_value x) (quotient_value x free)
        ∙ ring
            (eval_poly_horner work x
              ∷ c
              ∷ exp x n
              ∷ exp x k
              ∷ old
              ∷ eval_poly_horner quotient x
              ∷ [])
            (plus
              (plus (plus x0 (times (minus nought x1) (times x2 x3)))
                (times (minus (plus x4 x1) x4) x3))
              (times (plus x5 (times (minus x1 nought) x3)) (minus x2 unit)))
            (plus x0 (times x5 (minus x2 unit))) refl

    -- One iteration of the loop.
    iterate : divide_loop n (suc k) work quotient ≡ divide_loop n k work1 (set quotient k c)
    unfolding divide_loop work1 c old
    iterate =
        rw
          (
            get_elem?-get_or work (n + k) f.zero inside,
            write-set quotient k (get_or work (n + k) f.zero) room,
            get_elem?-get_or (set work (n + k) f.zero) k f.zero
                (omega (arith, length-set work (n + k) f.zero)),
            get_or-set_other work (n + k) k f.zero f.zero apart,
          )
          refl

    length-work1 : length work1 ≡ length work
    unfolding work1
    length-work1 = length-set (set work (n + k) f.zero) k (old ⊕ c) ∙ length-set work (n + k) f.zero

    -- The values below the cleared one are still there, but for the one added to.
    step_cleared :
        ((j : ℕ) → n + suc k ≤ j → get_or work j f.zero ≡ f.zero)
        → (j : ℕ) → n + k ≤ j
        → get_or work1 j f.zero ≡ f.zero
    unfolding work1
    step_cleared h j le = elim (Bool-cases (leb (n + suc k) j)) [
      | inl above ↦
          get_or-set_other (set work (n + k) f.zero) k j (old ⊕ c) f.zero
            (λ e. omega (arith, positive))
          ∙ get_or-set_other work (n + k) j f.zero f.zero (above_index n k j above)
          ∙ h j (leb_le (n + suc k) j above)
      | inr at_top ↦
          get_or-set_other (set work (n + k) f.zero) k j (old ⊕ c) f.zero
            (λ e. omega (arith, positive))
          ∙ ap (λ i. get_or (set work i f.zero) j f.zero) {x = n + k} {y = j}
              (top_index n k j le at_top)
          ∙ get_or-set_same work j f.zero f.zero (omega (arith, top_index n k j le at_top))
    ]

  -- The loop returns, keeps the value of the two parts and clears what has a degree of `n` or more.
  pub divide_loop-Divided :
      (n k : ℕ) (work quotient : List F)
      → 0 < n
      → n + k ≤ length work
      → k ≤ length quotient
      → ((j : ℕ) → j < k → get_or quotient j f.zero ≡ f.zero)
      → ((j : ℕ) → n + k ≤ j → get_or work j f.zero ≡ f.zero)
      → Divided n k work quotient
  divide_loop-Divided n zero work quotient positive fits room free cleared = record {
    work' = work;
    quotient' = quotient;
    made = unfold divide_loop in refl;
    value = λ x. refl;
    cleared = λ j le. cleared j (omega arith);
  }
  divide_loop-Divided n (suc k) work quotient positive fits room free cleared =
      let inside : n + k < length work = omega arith in
      let space : k < length quotient = omega arith in
      let w : List F = work1 n k work quotient positive inside space in
      let lead : F = c n k work quotient positive inside space in
      let r : Divided n k w (set quotient k lead) =
        divide_loop-Divided n k w (set quotient k lead) positive
          (omega (arith, length-work1 n k work quotient positive inside space))
          (omega (arith, length-set quotient k lead))
          (λ j less.
            get_or-set_other quotient k j lead f.zero (λ e. omega arith) ∙ free j (omega arith))
          (step_cleared n k work quotient positive inside space cleared) in
      record {
        work' = r.work';
        quotient' = r.quotient';
        made = iterate n k work quotient positive inside space ∙ r.made;
        value = λ x.
            r.value x ∙ step_value n k work quotient positive inside space x (free k (omega arith));
        cleared = r.cleared;
      }
