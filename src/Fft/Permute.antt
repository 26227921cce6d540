-- ===== src/Fft/Permute.antt =====
-- The bit-reversal permutation of `fft_in_place`, crates/oracle-layer/src/fft.rs.
use tscp_anchor.Prelude.{
  ℕ, zero, suc, ◌+◌, ◌^◌, ◌≤◌, ◌<◌, ◌≡◌, refl, sym, ap, ◌∙◌, ◌⊎◌, inl, inr, true, false, some, List,
  length, get_elem?-get_or, get_or, set, length-set, get_or-set_same, get_or-set_other, ltb,
  Bool-cases, compared, arith,
}
use tscp_anchor.Fft.{reverse_bits, swap, permute_loop}
use tscp_anchor.Fft.Reverse.{reverse_bits-lt, reverse_bits-reverse_bits}

-- At the loop's index `i`: what has been swapped, and what has not.
record Swapped {ℓ} {A : Type ℓ} (k : ℕ) (d : A) (c : List A) (i : ℕ) (a : List A) : Type ℓ where
  size : length a ≡ 2 ^ k
  before :
      (p : ℕ)
      → p < 2 ^ k
      → (p < i) ⊎ (reverse_bits p k < i)
      → get_or a p d ≡ get_or c (reverse_bits p k) d
  after : (p : ℕ) → p < 2 ^ k → i ≤ p → i ≤ reverse_bits p k → get_or a p d ≡ get_or c p d

module _ {ℓ} {A : Type ℓ} (k : ℕ) (d : A) (c : List A) where
  -- The partner of the partner.
  partner : (p i : ℕ) → p < 2 ^ k → reverse_bits p k ≡ i → p ≡ reverse_bits i k
  partner p i h e = sym (reverse_bits-reverse_bits k p h) ∙ ap (λ q. reverse_bits q k) e

  keep :
      (i : ℕ) (a : List A)
      → i < 2 ^ k
      → reverse_bits i k ≤ i
      → Swapped k d c i a
      → Swapped k d c (suc i) a
  keep i a inside low s = record {
    size = s.size;
    before = λ p h which. elim (compared p i) [
      | inl less ↦ s.before p h (inl less)
      | inr (inl same) ↦ here p h same
      | inr (inr more) ↦ there p h more which
    ];
    after = λ p h le le'. s.after p h (omega arith) (omega arith);
  }
    where
      here : (p : ℕ) → p < 2 ^ k → p ≡ i → get_or a p d ≡ get_or c (reverse_bits p k) d
      here p h same = elim (compared (reverse_bits p k) p) [
        | inl less ↦ s.before p h (inr (omega arith))
        | inr (inl fixed) ↦
            s.after p h (omega arith) (omega arith) ∙ ap (λ q. get_or c q d) (sym fixed)
        | inr (inr more) ↦ absurd (omega (arith, ap (λ q. reverse_bits q k) same))
      ]

      there :
          (p : ℕ)
          → p < 2 ^ k
          → i < p
          → (p < suc i) ⊎ (reverse_bits p k < suc i)
          → get_or a p d ≡ get_or c (reverse_bits p k) d
      there p h more (inl less) = absurd (omega arith)
      there p h more (inr less) = elim (compared (reverse_bits p k) i) [
        | inl below ↦ s.before p h (inr below)
        | inr (inl e) ↦ absurd (omega (arith, partner p i h e))
        | inr (inr above) ↦ absurd (omega arith)
      ]

  module _ (i : ℕ) (a : List A) (inside : i < 2 ^ k) (high : i < reverse_bits i k)
      (s : Swapped k d c i a) where
    j : ℕ
    j = reverse_bits i k

    a' : List A
    a' = set (set a i (get_or a j d)) j (get_or a i d)

    swap_made : swap a i (reverse_bits i k) ≡ some a'
    unfolding swap a' j
    swap_made =
        rw
          (
            get_elem?-get_or a i d (omega (arith, s.size)),
            get_elem?-get_or a (reverse_bits i k) d (omega (arith, s.size, reverse_bits-lt k i)),
          )
          refl

    at_partner : get_or a' j d ≡ get_or c (reverse_bits j k) d
    unfolding a' j
    at_partner =
        get_or-set_same (set a i (get_or a j d)) j (get_or a i d) d
          (omega (arith, s.size, length-set a i (get_or a j d), reverse_bits-lt k i))
        ∙ s.after i inside (omega arith) (omega arith)
        ∙ ap (λ q. get_or c q d) (sym (reverse_bits-reverse_bits k i inside))

    at_index : get_or a' i d ≡ get_or c (reverse_bits i k) d
    unfolding a' j
    at_index =
        get_or-set_other (set a i (get_or a j d)) j i (get_or a i d) d (λ e. omega arith)
        ∙ get_or-set_same a i (get_or a j d) d (omega (arith, s.size))
        ∙ s.after (reverse_bits i k) (reverse_bits-lt k i) (omega arith)
            (omega (arith, reverse_bits-reverse_bits k i inside))

    elsewhere : (p : ℕ) → (i ≡ p → ⊥) → (j ≡ p → ⊥) → get_or a' p d ≡ get_or a p d
    unfolding a' j
    elsewhere p ne ne' =
        get_or-set_other (set a i (get_or a j d)) j p (get_or a i d) d ne'
        ∙ get_or-set_other a i p (get_or a j d) d ne

    exchanged : Swapped k d c (suc i) a'
    unfolding j
    exchanged = record {
      size =
          unfold a' in
          (length-set (set a i (get_or a j d)) j (get_or a i d)
            ∙ length-set a i (get_or a j d)
            ∙ s.size);
      before = λ p h which. elim (compared p i) [
        | inl less ↦ elsewhere p (λ e. omega arith) (λ e. omega arith) ∙ s.before p h (inl less)
        | inr (inl same) ↦
            ap (λ q. get_or a' q d) same
            ∙ at_index
            ∙ ap (λ q. get_or c (reverse_bits q k) d) (sym same)
        | inr (inr more) ↦ beyond p h more which
      ];
      after = λ p h le le'.
          elsewhere p (λ e. omega arith)
            (λ e. omega (arith, reverse_bits-reverse_bits k i inside, ap (λ q. reverse_bits q k) e))
          ∙ s.after p h (omega arith) (omega arith);
    }
      where
        beyond :
            (p : ℕ)
            → p < 2 ^ k
            → i < p
            → (p < suc i) ⊎ (reverse_bits p k < suc i)
            → get_or a' p d ≡ get_or c (reverse_bits p k) d
        beyond p h more (inl less) = absurd (omega arith)
        beyond p h more (inr less) = elim (compared (reverse_bits p k) i) [
          | inl below ↦
              elsewhere p (λ e. omega arith)
                (λ e.
                  omega (arith, reverse_bits-reverse_bits k i inside, ap (λ q. reverse_bits q k) e))
              ∙ s.before p h (inr below)
          | inr (inl e) ↦
              ap (λ q. get_or a' q d) (partner p i h e)
              ∙ at_partner
              ∙ ap (λ q. get_or c (reverse_bits q k) d) (sym (partner p i h e))
          | inr (inr above) ↦ absurd (omega arith)
        ]

  low_of : (i j : ℕ) → ltb i j ≡ false → j ≤ i
  low_of i j h = ground arith

  high_of : (i j : ℕ) → ltb i j ≡ true → i < j
  high_of i j h = ground arith

  permute :
      (count i : ℕ) (a : List A)
      → i + count ≡ 2 ^ k
      → Swapped k d c i a
      → (r : List A) × (permute_loop k count i a ≡ some r) × Swapped k d c (2 ^ k) r
  unfolding permute_loop
  permute zero i a e s = (
    a,
    refl,
    record {
      size = s.size;
      before = λ p h w. s.before p h (inl (omega arith));
      after = λ p h le le'. absurd (omega arith);
    },
  )
  permute (suc count) i a e s = elim (Bool-cases (ltb i (reverse_bits i k))) [
    | inl high ↦
        let up : i < reverse_bits i k = high_of i (reverse_bits i k) high in
        let (r, made, done) =
          permute count (suc i) (a' i a (omega arith) up s) (omega arith)
            (exchanged i a (omega arith) up s) in
        (r, rw (high, swap_made i a (omega arith) up s) made, done)
    | inr low ↦
        let (r, made, done) =
          permute count (suc i) a (omega arith)
            (keep i a (omega arith) (low_of i (reverse_bits i k) low) s) in
        (r, rw low made, done)
  ]

-- The loop over all indices moves what stands at the reversal of each index to it.
pub permute_loop-reverse {ℓ} :
    {A : Type ℓ} (k : ℕ) (d : A) (c : List A)
    → length c ≡ 2 ^ k
    → (r : List A) × (permute_loop k (2 ^ k) 0 c ≡ some r)
      × (length r ≡ 2 ^ k)
      × ((p : ℕ) → p < 2 ^ k → get_or r p d ≡ get_or c (reverse_bits p k) d)
permute_loop-reverse k d c size =
    let start : Swapped k d c 0 c = record {
      size = size;
      before = λ p h which. elim which [
        | inl less ↦ absurd (omega arith)
        | inr less ↦ absurd (omega arith)
      ];
      after = λ p h le le'. refl;
    } in
    let (r, made, s) = permute k d c (2 ^ k) 0 c (omega arith) start in
    (r, made, s.size, λ p h. s.before p h (inl h))
