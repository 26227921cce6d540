-- ===== src/Fft/Inverse.antt =====
-- The transform of crates/oracle-layer/src/fft.rs at a root of unity undoes that at its inverse, up to
-- the number of values.
use native.Mathlib.Nat.{mul_comm}
use tscp_anchor.Prelude.{
  ℕ, zero, suc, ◌+◌, ◌-◌, ◌^◌, ◌<◌, ◌≡◌, refl, sym, ap, ap₂, ◌∙◌, List, [], ◌∷◌, length, get_or,
  map, inl, inr, compared, arith,
}
use tscp_anchor.Field.{Field, ◌⊗◌, exp, from_u64}
use tscp_anchor.Field.Laws.{mul-zero}
use tscp_anchor.Quotient.Horner.{exp-add}
use tscp_anchor.Fft.Stages.{exp-mul, exp-exp}
use tscp_anchor.Fft.Sums.{
  sum_below, sum-ext, sum-scale, sum-swap, sum_single, exp-one, sum_ones, sum_root_powers,
}

pub list_ext {ℓ} :
    {A : Type ℓ} (d : A) (xs ys : List A)
    → length xs ≡ length ys
    → ((i : ℕ) → i < length xs → get_or xs i d ≡ get_or ys i d)
    → xs ≡ ys
list_ext d [] [] e h = refl
list_ext d [] (y ∷ ys) e h = absurd (omega arith)
list_ext d (x ∷ xs) [] e h = absurd (omega arith)
list_ext d (x ∷ xs) (y ∷ ys) e h =
    ap₂ ◌∷◌ (h 0 (omega arith)) (list_ext d xs ys (omega arith) (λ i lt. h (suc i) (omega arith)))

pub get_or-map {ℓ} :
    {A : Type ℓ} (g : A → A) (xs : List A) (i : ℕ) (d : A)
    → i < length xs
    → get_or (map g xs) i d ≡ g (get_or xs i d)
get_or-map g [] i d lt = absurd (omega arith)
get_or-map g (x ∷ xs) zero d lt = refl
get_or-map g (x ∷ xs) (suc i) d lt = get_or-map g xs i d (omega arith)

module _ {ℓ} {F : Type ℓ} ⦃f : Field F⦄ where
  -- Two roots of unity that are inverse to one another.
  pub record Roots (k : ℕ) (root inv : F) : Type ℓ where
    pub product : root ⊗ inv ≡ f.one
    pub turn : exp root (2 ^ k) ≡ f.neg f.one
    pub turn_inv : exp inv (2 ^ k) ≡ f.neg f.one

  pub Roots-flip : (k : ℕ) (root inv : F) → Roots k root inv → Roots k inv root
  Roots-flip k root inv r = record {
    product = f.mul_comm inv root ∙ r.product;
    turn = r.turn_inv;
    turn_inv = r.turn;
  }

  -- The powers cancel up to the difference of the exponents.
  cancelled :
      (k : ℕ) (root inv : F) (m d : ℕ)
      → Roots k root inv
      → exp inv m ⊗ exp root (m + d) ≡ exp root d
  cancelled k root inv m d r =
      ap (f.mul (exp inv m)) (exp-add root m d)
      ∙ sym (f.mul_assoc _ _ _)
      ∙ ap (λ t. t ⊗ exp root d)
          (f.mul_comm _ _ ∙ sym (exp-mul root inv m) ∙ ap (λ y. exp y m) r.product ∙ exp-one m)
      ∙ f.one-mul _

  module _ (k : ℕ) (root inv : F) (r : Roots k root inv) where
    -- The sum over the powers of root^i * inv^m is zero but for m = i.
    off_diagonal :
        (i m : ℕ)
        → i < 2 ^ suc k
        → m < 2 ^ suc k
        → (m ≡ i → ⊥)
        → sum_below (2 ^ suc k) (exp (exp inv m ⊗ exp root i)) ≡ f.zero
    off_diagonal i m li lm ne = elim (compared m i) [
      | inl below ↦
          ap (λ y. sum_below (2 ^ suc k) (exp y))
            (ap (λ j. exp inv m ⊗ exp root j) {x = i} {y = m + (i - m)} (omega arith)
              ∙ cancelled k root inv m (i - m) r)
          ∙ sum_root_powers k (i - m) root r.turn (omega arith) (omega arith)
      | inr (inl same) ↦ absurd (ne same)
      | inr (inr above) ↦
          ap (λ y. sum_below (2 ^ suc k) (exp y))
            (f.mul_comm _ _
              ∙ ap (λ j. exp root i ⊗ exp inv j) {x = m} {y = i + (m - i)} (omega arith)
              ∙ cancelled k inv root i (m - i) (Roots-flip k root inv r))
          ∙ sum_root_powers k (m - i) inv r.turn_inv (omega arith) (omega arith)
    ]

    diagonal : (i : ℕ) → sum_below (2 ^ suc k) (exp (exp inv i ⊗ exp root i)) ≡ from_u64 (2 ^ suc k)
    diagonal i =
        ap (λ y. sum_below (2 ^ suc k) (exp y))
          (ap (λ j. exp inv i ⊗ exp root j) {x = i} {y = i + 0} (omega arith)
            ∙ cancelled k root inv i 0 r)
        ∙ ap (λ y. sum_below (2 ^ suc k) (exp y)) {x = exp root 0} {y = f.one} (unfold exp in refl)
        ∙ sum_ones (2 ^ suc k)

    term :
        (e : ℕ → F) (i j : ℕ)
        → sum_below (2 ^ suc k) (λ m. e m ⊗ exp (exp inv j) m) ⊗ exp (exp root i) j
          ≡ sum_below (2 ^ suc k) (λ m. e m ⊗ exp (exp inv m ⊗ exp root i) j)
    term e i j =
        f.mul_comm _ _
        ∙ sym (sum-scale (2 ^ suc k) (exp (exp root i) j) (λ m. e m ⊗ exp (exp inv j) m))
        ∙ sum-ext (2 ^ suc k) (λ m. exp (exp root i) j ⊗ (e m ⊗ exp (exp inv j) m))
            (λ m. e m ⊗ exp (exp inv m ⊗ exp root i) j)
            (λ m lt.
              move (exp (exp root i) j) (e m) (exp (exp inv j) m)
              ∙ ap (f.mul (e m)) (
                  ap (λ t. t ⊗ exp (exp root i) j) (exp_swap inv j m)
                  ∙ sym (exp-mul (exp inv m) (exp root i) j)))
      where
        move : (a b c : F) → a ⊗ (b ⊗ c) ≡ b ⊗ (c ⊗ a)
        move a b c = f.mul_comm a (b ⊗ c) ∙ f.mul_assoc b c a

        exp_swap : (x : F) (p q : ℕ) → exp (exp x p) q ≡ exp (exp x q) p
        exp_swap x p q = exp-exp x p q ∙ ap (exp x) (mul_comm p q) ∙ sym (exp-exp x q p)

    -- The transform at `root` of the transform at `inv`.
    pub transform_twice :
        (e : ℕ → F) (i : ℕ)
        → i < 2 ^ suc k
        → sum_below
            (2 ^ suc k)
            (λ j. sum_below (2 ^ suc k) (λ m. e m ⊗ exp (exp inv j) m) ⊗ exp (exp root i) j)
          ≡ e i ⊗ from_u64 (2 ^ suc k)
    transform_twice e i lt =
        sum-ext (2 ^ suc k) _
          (λ j. sum_below (2 ^ suc k) (λ m. e m ⊗ exp (exp inv m ⊗ exp root i) j))
          (λ j lj. term e i j)
        ∙ sum-swap (2 ^ suc k) (2 ^ suc k) (λ j m. e m ⊗ exp (exp inv m ⊗ exp root i) j)
        ∙ sum-ext (2 ^ suc k) _ (λ m. e m ⊗ sum_below (2 ^ suc k) (exp (exp inv m ⊗ exp root i)))
            (λ m lm. sum-scale (2 ^ suc k) (e m) (exp (exp inv m ⊗ exp root i)))
        ∙ sum_single (2 ^ suc k) i (λ m. e m ⊗ sum_below (2 ^ suc k) (exp (exp inv m ⊗ exp root i)))
            lt (λ m lm ne. ap (f.mul (e m)) (off_diagonal i m lt lm ne) ∙ mul-zero (e m))
        ∙ ap (f.mul (e i)) (diagonal i)
