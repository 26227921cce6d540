-- ===== src/Fft/Sums.antt =====
-- Sums over a range of indices, and the sums of the powers of a root of unity.
use native.Mathlib.Nat.{mul_comm}
use tscp_anchor.Prelude.{
  ℕ, zero, suc, ◌+◌, ◌*◌, ◌/◌, ◌%◌, ◌^◌, ◌<◌, ◌≡◌, refl, sym, ap, ap₂, ◌∙◌, List, [], ◌∷◌, length,
  get_or, inl, inr, arith,
}
use tscp_anchor.Field.{Field, ◌⊕◌, ◌⊗◌, exp, from_u64}
use tscp_anchor.Field.Laws.{add-zero, mul-zero, zero-mul, mul-one}
use tscp_anchor.Field.Ring.{ring, normal, times, unit, opp}
use tscp_anchor.Prelude.Bits.{pow_two-suc}
use tscp_anchor.Quotient.{eval_poly_horner}
use tscp_anchor.Quotient.Horner.{exp-add}
use tscp_anchor.Fft.Reverse.{parity}
use tscp_anchor.Fft.Stages.{exp-exp}

module _ {ℓ} {F : Type ℓ} ⦃f : Field F⦄ where
  -- The sum of `g` over 0, .., n - 1.
  unfoldable pub sum_below : ℕ → (ℕ → F) → F
  sum_below zero g = f.zero
  sum_below (suc n) g = g 0 ⊕ sum_below n (λ i. g (suc i))

  pub sum-ext :
      (n : ℕ) (g h : ℕ → F) → ((i : ℕ) → i < n → g i ≡ h i) → sum_below n g ≡ sum_below n h
  unfolding sum_below
  sum-ext zero g h e = refl
  sum-ext (suc n) g h e =
      ap₂ f.add (e 0 (omega arith))
        (sum-ext n (λ i. g (suc i)) (λ i. h (suc i)) (λ i lt. e (suc i) (omega arith)))

  pub sum-zero : (n : ℕ) (g : ℕ → F) → ((i : ℕ) → i < n → g i ≡ f.zero) → sum_below n g ≡ f.zero
  unfolding sum_below
  sum-zero zero g e = refl
  sum-zero (suc n) g e =
      ap₂ f.add (e 0 (omega arith)) (sum-zero n (λ i. g (suc i)) (λ i lt. e (suc i) (omega arith)))
      ∙ f.zero-add f.zero

  pub sum-scale : (n : ℕ) (a : F) (g : ℕ → F) → sum_below n (λ i. a ⊗ g i) ≡ a ⊗ sum_below n g
  unfolding sum_below
  sum-scale zero a g = sym (mul-zero a)
  sum-scale (suc n) a g =
      ap (f.add (a ⊗ g 0)) (sum-scale n a (λ i. g (suc i))) ∙ sym (f.mul-add a _ _)

  interchange : (a b c d : F) → a ⊕ b ⊕ (c ⊕ d) ≡ a ⊕ c ⊕ (b ⊕ d)
  interchange a b c d =
      f.add_assoc a b (c ⊕ d)
      ∙ ap (f.add a)
          (sym (f.add_assoc b c d) ∙ ap (λ t. t ⊕ d) (f.add_comm b c) ∙ f.add_assoc c b d)
      ∙ sym (f.add_assoc a c (b ⊕ d))

  sum-add : (n : ℕ) (g h : ℕ → F) → sum_below n (λ i. g i ⊕ h i) ≡ sum_below n g ⊕ sum_below n h
  unfolding sum_below
  sum-add zero g h = sym (f.zero-add f.zero)
  sum-add (suc n) g h =
      ap (f.add (g 0 ⊕ h 0)) (sum-add n (λ i. g (suc i)) (λ i. h (suc i)))
      ∙ interchange (g 0) (h 0) (sum_below n (λ i. g (suc i))) (sum_below n (λ i. h (suc i)))

  pub sum-swap :
      (n m : ℕ) (g : ℕ → ℕ → F)
      → sum_below n (λ i. sum_below m (λ j. g i j)) ≡ sum_below m (λ j. sum_below n (λ i. g i j))
  unfolding sum_below
  sum-swap zero m g = sym (sum-zero m (λ j. f.zero) (λ j lt. refl))
  sum-swap (suc n) m g =
      ap (f.add (sum_below m (g 0))) (sum-swap n m (λ i. g (suc i)))
      ∙ sym (sum-add m (g 0) (λ j. sum_below n (λ i. g (suc i) j)))

  -- The one term that is not zero.
  pub sum_single :
      (n i : ℕ) (g : ℕ → F)
      → i < n
      → ((j : ℕ) → j < n → (j ≡ i → ⊥) → g j ≡ f.zero)
      → sum_below n g ≡ g i
  unfolding sum_below
  sum_single zero i g lt e = absurd (omega arith)
  sum_single (suc n) zero g lt e =
      ap (f.add (g 0))
        (sum-zero n (λ j. g (suc j)) (λ j lt'. e (suc j) (omega arith) (λ q. omega arith)))
      ∙ add-zero (g 0)
  sum_single (suc n) (suc i) g lt e =
      ap₂ f.add (e 0 (omega arith) (λ q. omega arith)) (
        sum_single n i (λ j. g (suc j)) (omega arith)
          (λ j lt' ne. e (suc j) (omega arith) (λ q. ne (omega arith))))
      ∙ f.zero-add (g (suc i))

  pub horner-sum :
      (c : List F) (x : F)
      → eval_poly_horner c x ≡ sum_below (length c) (λ i. get_or c i f.zero ⊗ exp x i)
  unfolding eval_poly_horner sum_below exp
  horner-sum [] x = refl
  horner-sum (a ∷ c) x =
      ap (λ t. t ⊗ x ⊕ a) (horner-sum c x)
      ∙ f.add_comm _ _
      ∙ ap₂ f.add (sym (mul-one a)) (
          f.mul_comm _ x
          ∙ sym (sum-scale (length c) x (λ i. get_or c i f.zero ⊗ exp x i))
          ∙ sum-ext (length c) (λ i. x ⊗ (get_or c i f.zero ⊗ exp x i))
              (λ i. get_or c i f.zero ⊗ (x ⊗ exp x i))
              (λ i lt. left_comm x (get_or c i f.zero) (exp x i)))
    where
      left_comm : (a b c : F) → a ⊗ (b ⊗ c) ≡ b ⊗ (a ⊗ c)
      left_comm a b c =
          sym (f.mul_assoc a b c) ∙ ap (λ t. t ⊗ c) (f.mul_comm a b) ∙ f.mul_assoc b a c

  sum_split :
      (m n : ℕ) (g : ℕ → F) → sum_below (m + n) g ≡ sum_below m g ⊕ sum_below n (λ i. g (m + i))
  unfolding sum_below
  sum_split zero n g =
      ap (λ k. sum_below k g) {x = 0 + n} {y = n} (omega arith)
      ∙ sum-ext n g (λ i. g (0 + i)) (λ i lt. ap g {x = i} {y = 0 + i} (omega arith))
      ∙ sym (f.zero-add _)
  sum_split (suc m) n g =
      ap (λ k. sum_below k g) {x = suc m + n} {y = suc (m + n)} (omega arith)
      ∙ ap (f.add (g 0)) (sum_split m n (λ i. g (suc i)))
      ∙ sym (f.add_assoc (g 0) _ _)
      ∙ ap (f.add (g 0 ⊕ sum_below m (λ i. g (suc i)))) (
          sum-ext n (λ i. g (suc (m + i))) (λ i. g (suc m + i))
            (λ i lt. ap g {x = suc (m + i)} {y = suc m + i} (omega arith)))

  pub exp-one : (n : ℕ) → exp f.one n ≡ f.one
  unfolding exp
  exp-one zero = refl
  exp-one (suc n) = f.one-mul _ ∙ exp-one n

  pub sum_ones : (n : ℕ) → sum_below n (exp f.one) ≡ from_u64 n
  unfolding sum_below from_u64
  sum_ones zero = refl
  sum_ones (suc n) =
      ap₂ f.add (exp-one 0) (
        sum-ext n (λ i. exp f.one (suc i)) (exp f.one) (λ i lt. exp-one (suc i) ∙ sym (exp-one i))
        ∙ sum_ones n)
      ∙ f.add_comm f.one (from_u64 n)

  -- A sum of twice as many powers.
  sum_double : (m : ℕ) (x : F) → sum_below (m + m) (exp x) ≡ sum_below m (exp x) ⊗ (f.one ⊕ exp x m)
  sum_double m x =
      sum_split m m (exp x)
      ∙ ap (f.add (sum_below m (exp x))) (
          sum-ext m (λ i. exp x (m + i)) (λ i. exp x m ⊗ exp x i) (λ i lt. exp-add x m i)
          ∙ sum-scale m (exp x m) (exp x)
          ∙ f.mul_comm _ _)
      ∙ ap (λ t. t ⊕ sum_below m (exp x) ⊗ exp x m) (sym (mul-one _))
      ∙ sym (f.mul-add (sum_below m (exp x)) f.one (exp x m))

  minus_one_odd : (e : ℕ) → exp (f.neg f.one) (2 * e + 1) ≡ f.neg f.one
  unfolding normal exp
  minus_one_odd e =
      exp-add (f.neg f.one) (2 * e) 1
      ∙ ap (λ t. t ⊗ (f.neg f.one ⊗ f.one))
          (sym (exp-exp (f.neg f.one) 2 e)
            ∙ ap (λ y. exp y e) {x = f.neg f.one ⊗ (f.neg f.one ⊗ f.one)} {y = f.one}
                (ring {F = F} [] (times (opp unit) (times (opp unit) unit)) unit refl)
            ∙ exp-one e)
      ∙ ring {F = F} [] (times unit (times (opp unit) unit)) (opp unit) refl

  doubled :
      (k d : ℕ) (root : F)
      → sum_below (2 ^ suc k) (exp (exp root d))
        ≡ sum_below (2 ^ k) (exp (exp root d)) ⊗ (f.one ⊕ exp (exp root d) (2 ^ k))
  doubled k d root =
      ap (λ n. sum_below n (exp (exp root d))) {x = 2 ^ suc k} {y = 2 ^ k + 2 ^ k}
        (omega (arith, pow_two-suc k))
      ∙ sum_double (2 ^ k) (exp root d)

  odd_power :
      (k d : ℕ) (root : F)
      → exp root (2 ^ k) ≡ f.neg f.one
      → d % 2 ≡ 1
      → sum_below (2 ^ suc k) (exp (exp root d)) ≡ f.zero
  odd_power k d root turn e =
      doubled k d root
      ∙ ap (λ t. sum_below (2 ^ k) (exp (exp root d)) ⊗ (f.one ⊕ t))
          (exp-exp root d (2 ^ k)
            ∙ ap (exp root) (mul_comm d (2 ^ k))
            ∙ sym (exp-exp root (2 ^ k) d)
            ∙ ap (λ y. exp y d) turn
            ∙ ap (exp (f.neg f.one)) {x = d} {y = 2 * (d / 2) + 1} (omega arith)
            ∙ minus_one_odd (d / 2))
      ∙ ap (f.mul _) (f.add-neg f.one)
      ∙ mul-zero _

  -- The powers of a power of the root between 0 and the order sum to zero.
  pub sum_root_powers :
      (k d : ℕ) (root : F)
      → exp root (2 ^ k) ≡ f.neg f.one
      → 0 < d
      → d < 2 ^ suc k
      → sum_below (2 ^ suc k) (exp (exp root d)) ≡ f.zero
  sum_root_powers zero d root turn pos lt = odd_power zero d root turn (omega arith)
  sum_root_powers (suc k) d root turn pos lt = elim (parity d) [
    | inl e ↦
        doubled (suc k) d root
        ∙ ap (λ y. sum_below (2 ^ suc k) (exp y) ⊗ (f.one ⊕ exp (exp root d) (2 ^ suc k)))
            (ap (exp root) {x = d} {y = 2 * (d / 2)} (omega arith) ∙ sym (exp-exp root 2 (d / 2)))
        ∙ ap (λ t. t ⊗ (f.one ⊕ exp (exp root d) (2 ^ suc k)))
            (sum_root_powers k (d / 2) (exp root 2)
              (exp-exp root 2 (2 ^ k) ∙ ap (exp root) (sym (pow_two-suc k)) ∙ turn) (omega arith)
              (omega (arith, pow_two-suc (suc k))))
        ∙ zero-mul _
    | inr e ↦ odd_power (suc k) d root turn e
  ]
