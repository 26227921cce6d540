-- ===== src/Fft/Pairs.antt =====
-- The butterflies of a block of `fft_in_place`, crates/oracle-layer/src/fft.rs.
use tscp_anchor.Prelude.{
  ℕ, zero, suc, ◌+◌, ◌≤◌, ◌<◌, ◌≡◌, refl, sym, ap, ap₂, ◌∙◌, inl, inr, some, List, length,
  get_elem?-get_or, get_or, set, length-set, get_or-set_same, get_or-set_other, compared, arith,
}
use tscp_anchor.Field.{Field, ◌⊕◌, ◌⊖◌, ◌⊗◌, exp}
use tscp_anchor.Fft.{butterfly_loop}

module _ {ℓ} {F : Type ℓ} ⦃f : Field F⦄ (wl : F) (half : ℕ) where
  abbrev pub at : List F → ℕ → F
  at a p = get_or a p f.zero

  -- The values that a butterfly leaves.
  abbrev pub sum_at : List F → ℕ → ℕ → F
  sum_at a start j = get_or a (start + j) f.zero ⊕ get_or a (start + j + half) f.zero ⊗ exp wl j

  abbrev pub difference_at : List F → ℕ → ℕ → F
  difference_at a start j =
      get_or a (start + j) f.zero ⊖ get_or a (start + j + half) f.zero ⊗ exp wl j

  -- What the loop over `k..half` leaves: positions that it does not meet are as before.
  pub record Butterflied (start k : ℕ) (a a' : List F) : Type ℓ where
    pub size : length a' ≡ length a
    pub low : (j : ℕ) → k ≤ j → j < half → at a' (start + j) ≡ sum_at a start j
    pub high : (j : ℕ) → k ≤ j → j < half → at a' (start + j + half) ≡ difference_at a start j
    pub outside :
        (p : ℕ)
        → ((j : ℕ) → k ≤ j → j < half → (p ≡ start + j → ⊥) × (p ≡ start + j + half → ⊥))
        → at a' p ≡ at a p

  module _ (start k : ℕ) (a : List F) (less : k < half)
      (inside : start + half + half ≤ length a) where
    s1 : F
    s1 = sum_at a start k

    d1 : F
    d1 = difference_at a start k

    a1 : List F
    a1 = set (set a (start + k) s1) (start + k + half) d1

    length-a1 : length a1 ≡ length a
    unfolding a1
    length-a1 =
        length-set (set a (start + k) s1) (start + k + half) d1 ∙ length-set a (start + k) s1

    a1_other : (p : ℕ) → (start + k ≡ p → ⊥) → (start + k + half ≡ p → ⊥) → at a1 p ≡ at a p
    unfolding a1
    a1_other p ne ne' =
        get_or-set_other (set a (start + k) s1) (start + k + half) p d1 f.zero ne'
        ∙ get_or-set_other a (start + k) p s1 f.zero ne

    a1_low : at a1 (start + k) ≡ sum_at a start k
    unfolding a1 s1
    a1_low =
        get_or-set_other (set a (start + k) s1) (start + k + half) (start + k) d1 f.zero
          (λ e. omega arith)
        ∙ get_or-set_same a (start + k) s1 f.zero (omega arith)

    a1_high : at a1 (start + k + half) ≡ difference_at a start k
    unfolding a1 d1
    a1_high =
        get_or-set_same (set a (start + k) s1) (start + k + half) d1 f.zero
          (omega (arith, length-set a (start + k) s1))

    round_made :
        (count : ℕ)
        → butterfly_loop wl start half (suc count) k (exp wl k) a
          ≡ butterfly_loop wl start half count (suc k) (exp wl (suc k)) a1
    unfolding butterfly_loop a1 s1 d1 exp
    round_made count =
        rw
          (
            get_elem?-get_or a (start + k) f.zero (omega arith),
            get_elem?-get_or a (start + k + half) f.zero (omega arith),
            f.mul_comm (exp wl k) wl,
          )
          refl

    extend : (a' : List F) → Butterflied start (suc k) a1 a' → Butterflied start k a a'
    extend a' b = record {
      size = b.size ∙ length-a1;
      low = λ j le lt. elim (compared j k) [
        | inl under ↦ absurd (omega arith)
        | inr (inl e) ↦
            ap (λ i. at a' (start + i)) e
            ∙ b.outside (start + k) (λ i le' lt'. (λ q. omega arith, λ q. omega arith))
            ∙ a1_low
            ∙ ap (sum_at a start) (sym e)
        | inr (inr over) ↦
            b.low j (omega arith) lt
            ∙ ap₂ (λ x y. x ⊕ y ⊗ exp wl j)
                (a1_other (start + j) (λ q. omega arith) (λ q. omega arith))
                (a1_other (start + j + half) (λ q. omega arith) (λ q. omega arith))
      ];
      high = λ j le lt. elim (compared j k) [
        | inl under ↦ absurd (omega arith)
        | inr (inl e) ↦
            ap (λ i. at a' (start + i + half)) e
            ∙ b.outside (start + k + half) (λ i le' lt'. (λ q. omega arith, λ q. omega arith))
            ∙ a1_high
            ∙ ap (difference_at a start) (sym e)
        | inr (inr over) ↦
            b.high j (omega arith) lt
            ∙ ap₂ (λ x y. x ⊖ y ⊗ exp wl j)
                (a1_other (start + j) (λ q. omega arith) (λ q. omega arith))
                (a1_other (start + j + half) (λ q. omega arith) (λ q. omega arith))
      ];
      outside = λ p avoids.
          b.outside p (λ j le lt. avoids j (omega arith) lt)
          ∙ a1_other p (λ e. (avoids k (omega arith) less).0 (sym e))
              (λ e. (avoids k (omega arith) less).1 (sym e));
    }

  pub butterfly_loop-Butterflied :
      (start count k : ℕ) (a : List F)
      → k + count ≡ half
      → start + half + half ≤ length a
      → (a' : List F) × (butterfly_loop wl start half count k (exp wl k) a ≡ some a')
        × Butterflied start k a a'
  butterfly_loop-Butterflied start zero k a e inside = (
    a,
    unfold butterfly_loop in refl,
    record {
      size = refl;
      low = λ j le lt. absurd (omega arith);
      high = λ j le lt. absurd (omega arith);
      outside = λ p avoids. refl;
    },
  )
  butterfly_loop-Butterflied start (suc count) k a e inside =
      let less : k < half = omega arith in
      let (a', made, b) =
        butterfly_loop-Butterflied start count (suc k) (a1 start k a less inside) (omega arith)
          (omega (arith, length-a1 start k a less inside)) in
      (a', round_made start k a less inside count ∙ made, extend start k a less inside a' b)
