-- ===== src/Fft/Stages.antt =====
-- The stages of `fft_in_place`, crates/oracle-layer/src/fft.rs: each block holds the values of the
-- polynomial of every so many coefficients.
use tscp_anchor.Prelude.{
  ℕ, zero, suc, ◌+◌, ◌-◌, ◌*◌, ◌^◌, ◌<◌, ◌≡◌, refl, sym, ap, ap₂, ◌∙◌, inl, inr, true, false, List,
  [], ◌∷◌, length, get_or, ltb, Bool-cases, arith,
}
use tscp_anchor.Prelude.Bits.{pow_two-suc}
use tscp_anchor.Field.{Field, ◌⊕◌, ◌⊖◌, ◌⊗◌, exp}
use tscp_anchor.Field.Ring.{ring, normal, x0, x1, x2, x3, x4, plus, minus, times, unit, nought, opp}
use tscp_anchor.Quotient.{eval_poly_horner}
use tscp_anchor.Quotient.Horner.{exp-add}
use tscp_anchor.Fft.{reverse_bits}
use tscp_anchor.Fft.Reverse.{reverse_twice, reverse_twice_one}
use tscp_anchor.Fft.Butterfly.{Staged}

pub pow_two-add : (a b : ℕ) → 2 ^ (a + b) ≡ 2 ^ a * 2 ^ b
pow_two-add zero b = ap (λ n. 2 ^ n) {x = 0 + b} {y = b} (omega arith) ∙ omega arith
pow_two-add (suc a) b =
    ap (λ n. 2 ^ n) {x = suc a + b} {y = suc (a + b)} (omega arith)
    ∙ pow_two-suc (a + b)
    ∙ ap (λ n. 2 * n) (pow_two-add a b)
    ∙ regroup (2 ^ a) (2 ^ b)
    ∙ ap (λ n. n * 2 ^ b) (sym (pow_two-suc a))
  where
    regroup : (x y : ℕ) → 2 * (x * y) ≡ 2 * x * y
    regroup x y = grind arith

module _ {ℓ} {F : Type ℓ} ⦃f : Field F⦄ where
  -- The polynomial of `count` coefficients from `off` on, `step` apart.
  unfoldable pub stride : List F → ℕ → ℕ → ℕ → F → F
  stride c zero step off x = f.zero
  stride c (suc count) step off x = get_or c off f.zero ⊕ x ⊗ stride c count step (off + step) x

  pub exp-exp : (x : F) (m n : ℕ) → exp (exp x m) n ≡ exp x (m * n)
  unfolding exp
  exp-exp x m zero = ap (exp x) {x = 0} {y = m * 0} (omega arith)
  exp-exp x m (suc n) =
      ap (f.mul (exp x m)) (exp-exp x m n)
      ∙ sym (exp-add x m (m * n))
      ∙ ap (exp x) {x = m + m * n} {y = m * suc n} (grind arith)

  pub exp-mul : (x y : F) (n : ℕ) → exp (x ⊗ y) n ≡ exp x n ⊗ exp y n
  unfolding exp normal
  exp-mul x y zero = sym (f.one-mul f.one)
  exp-mul x y (suc n) =
      ap (f.mul (x ⊗ y)) (exp-mul x y n)
      ∙ ring (x ∷ y ∷ exp x n ∷ exp y n ∷ []) (times (times x0 x1) (times x2 x3))
          (times (times x0 x2) (times x1 x3)) refl

  stride_split :
      (c : List F) (m step off : ℕ) (x : F)
      → stride c (2 * m) step off x
        ≡ stride c m (2 * step) off (x ⊗ x) ⊕ x ⊗ stride c m (2 * step) (off + step) (x ⊗ x)
  unfolding stride normal
  stride_split c zero step off x = ring (x ∷ []) nought (plus nought (times x0 nought)) refl
  stride_split c (suc m) step off x =
      ap (λ n. stride c n step off x) {x = 2 * suc m} {y = suc (suc (2 * m))} (omega arith)
      ∙ ap (λ t. get_or c off f.zero ⊕ x ⊗ (get_or c (off + step) f.zero ⊕ x ⊗ t))
          (stride_split c m step (off + step + step) x)
      ∙ ring
          (get_or c off f.zero
            ∷ x
            ∷ get_or c (off + step) f.zero
            ∷ stride c m (2 * step) (off + step + step) (x ⊗ x)
            ∷ stride c m (2 * step) (off + step + step + step) (x ⊗ x)
            ∷ [])
          (plus x0 (times x1 (plus x2 (times x1 (plus x3 (times x1 x4))))))
          (plus (plus x0 (times (times x1 x1) x3)) (times x1 (plus x2 (times (times x1 x1) x4))))
          refl
      ∙ ap₂
          (λ p q.
            get_or c off f.zero
            ⊕ x ⊗ x ⊗ stride c m (2 * step) p (x ⊗ x)
            ⊕ x ⊗ (get_or c (off + step) f.zero ⊕ x ⊗ x ⊗ stride c m (2 * step) q (x ⊗ x)))
          {x = off + step + step} {y = off + 2 * step} {u = off + step + step + step}
          {v = off + step + 2 * step} (omega arith) (omega arith)

  stride_tail :
      (a : F) (c : List F) (m off : ℕ) (x : F) → stride (a ∷ c) m 1 (suc off) x ≡ stride c m 1 off x
  unfolding stride
  stride_tail a c zero off x = refl
  stride_tail a c (suc m) off x =
      ap (λ t. get_or c off f.zero ⊕ x ⊗ t)
        (ap (λ n. stride (a ∷ c) m 1 n x) {x = suc off + 1} {y = suc (off + 1)} (omega arith)
          ∙ stride_tail a c m (off + 1) x)

  pub stride-horner : (c : List F) (x : F) → stride c (length c) 1 0 x ≡ eval_poly_horner c x
  unfolding stride eval_poly_horner
  stride-horner [] x = refl
  stride-horner (a ∷ c) x =
      ap (λ t. a ⊕ x ⊗ t)
        (ap (λ n. stride (a ∷ c) (length c) 1 n x) {x = 0 + 1} {y = suc 0} (omega arith)
          ∙ stride_tail a c (length c) 0 x
          ∙ stride-horner c x)
      ∙ f.add_comm _ _
      ∙ ap (λ t. t ⊕ a) (f.mul_comm _ _)

  -- After `s` stages of `s + d`: the blocks of 2^s values hold the strides of 2^d.
  pub record Transformed (c : List F) (root : F) (s d : ℕ) (a : List F) : Type ℓ where
    pub values :
        (b t : ℕ)
        → b < 2 ^ d
        → t < 2 ^ s
        → get_or a (b * 2 ^ s + t) f.zero
          ≡ stride c (2 ^ s) (2 ^ d) (reverse_bits b d) (exp (exp root (2 ^ d)) t)

  module _ (c : List F) (root : F) (s d : ℕ) (a a' : List F)
      (turn : exp (exp root (2 ^ d)) (2 ^ s) ≡ f.neg f.one) (old : Transformed c root s (suc d) a)
      (stage : Staged (exp root (2 ^ d)) (2 ^ s) 0 (2 ^ d) a a') where
    wl : F
    wl = exp root (2 ^ d)

    halves : (p t b : ℕ) → 0 + b * (2 * p) + t ≡ 2 * b * p + t
    halves p t b = grind arith

    halves_high : (p t b : ℕ) → 0 + b * (2 * p) + t + p ≡ (2 * b + 1) * p + t
    halves_high p t b = grind arith

    square : (t : ℕ) → exp (exp root (2 ^ suc d)) t ≡ exp wl t ⊗ exp wl t
    unfolding wl
    square t =
        ap (λ n. exp (exp root n) t) {x = 2 ^ suc d} {y = 2 ^ d + 2 ^ d}
          (omega (arith, pow_two-suc d))
        ∙ ap (λ x. exp x t) (exp-add root (2 ^ d) (2 ^ d))
        ∙ exp-mul (exp root (2 ^ d)) (exp root (2 ^ d)) t

    even : ℕ → ℕ → F
    even b t = stride c (2 ^ s) (2 * 2 ^ d) (reverse_bits b d) (exp wl t ⊗ exp wl t)

    odd : ℕ → ℕ → F
    odd b t = stride c (2 ^ s) (2 * 2 ^ d) (reverse_bits b d + 2 ^ d) (exp wl t ⊗ exp wl t)

    even_at :
        (b t : ℕ) → b < 2 ^ d → t < 2 ^ s → get_or a (0 + b * (2 * 2 ^ s) + t) f.zero ≡ even b t
    unfolding even
    even_at b t lb lt =
        ap (λ p. get_or a p f.zero) (halves (2 ^ s) t b)
        ∙ old.values (2 * b) t (omega (arith, pow_two-suc d)) lt
        ∙ ap₂ (λ r x. stride c (2 ^ s) (2 ^ suc d) r x) (reverse_twice d b) (square t)
        ∙ ap (λ n. stride c (2 ^ s) n (reverse_bits b d) (exp wl t ⊗ exp wl t)) (pow_two-suc d)

    odd_at :
        (b t : ℕ)
        → b < 2 ^ d
        → t < 2 ^ s
        → get_or a (0 + b * (2 * 2 ^ s) + t + 2 ^ s) f.zero ≡ odd b t
    unfolding odd
    odd_at b t lb lt =
        ap (λ p. get_or a p f.zero) (halves_high (2 ^ s) t b)
        ∙ old.values (2 * b + 1) t (omega (arith, pow_two-suc d)) lt
        ∙ ap₂ (λ r x. stride c (2 ^ s) (2 ^ suc d) r x) (reverse_twice_one d b ∙ omega arith)
            (square t)
        ∙ ap (λ n. stride c (2 ^ s) n (reverse_bits b d + 2 ^ d) (exp wl t ⊗ exp wl t))
            (pow_two-suc d)

    joined :
        (b t : ℕ) (x : F)
        → x ⊗ x ≡ exp wl t ⊗ exp wl t
        → stride c (2 ^ suc s) (2 ^ d) (reverse_bits b d) x ≡ even b t ⊕ x ⊗ odd b t
    unfolding even odd
    joined b t x e =
        ap (λ n. stride c n (2 ^ d) (reverse_bits b d) x) (pow_two-suc s)
        ∙ stride_split c (2 ^ s) (2 ^ d) (reverse_bits b d) x
        ∙ ap
            (λ y.
              stride c (2 ^ s) (2 * 2 ^ d) (reverse_bits b d) y
              ⊕ x ⊗ stride c (2 ^ s) (2 * 2 ^ d) (reverse_bits b d + 2 ^ d) y)
            e

    turned : (t : ℕ) → exp wl (t + 2 ^ s) ≡ f.neg (exp wl t)
    unfolding wl normal
    turned t =
        exp-add (exp root (2 ^ d)) t (2 ^ s)
        ∙ ap (f.mul (exp (exp root (2 ^ d)) t)) turn
        ∙ ring (exp (exp root (2 ^ d)) t ∷ []) (times x0 (opp unit)) (opp x0) refl

    low_value :
        (b t : ℕ)
        → b < 2 ^ d
        → t < 2 ^ s
        → get_or a' (b * 2 ^ suc s + t) f.zero
          ≡ stride c (2 ^ suc s) (2 ^ d) (reverse_bits b d) (exp wl t)
    unfolding wl
    low_value b t lb lt =
        ap (λ p. get_or a' p f.zero) {x = b * 2 ^ suc s + t} {y = 0 + b * (2 * 2 ^ s) + t}
          (omega (arith, ap (λ p. b * p) (pow_two-suc s)))
        ∙ stage.low b t lb lt
        ∙ ap₂ (λ u v. u ⊕ v ⊗ exp wl t) (even_at b t lb lt) (odd_at b t lb lt)
        ∙ ap (f.add (even b t)) (f.mul_comm (odd b t) (exp wl t))
        ∙ sym (joined b t (exp wl t) refl)

    high_value :
        (b t : ℕ)
        → b < 2 ^ d
        → t < 2 ^ s
        → get_or a' (b * 2 ^ suc s + (t + 2 ^ s)) f.zero
          ≡ stride c (2 ^ suc s) (2 ^ d) (reverse_bits b d) (exp wl (t + 2 ^ s))
    unfolding wl normal
    high_value b t lb lt =
        ap (λ p. get_or a' p f.zero) {x = b * 2 ^ suc s + (t + 2 ^ s)}
          {y = 0 + b * (2 * 2 ^ s) + t + 2 ^ s} (omega (arith, ap (λ p. b * p) (pow_two-suc s)))
        ∙ stage.high b t lb lt
        ∙ ap₂ (λ u v. u ⊖ v ⊗ exp wl t) (even_at b t lb lt) (odd_at b t lb lt)
        ∙ ring (even b t ∷ odd b t ∷ exp wl t ∷ []) (minus x0 (times x1 x2))
            (plus x0 (times (opp x2) x1)) refl
        ∙ ap (λ x. even b t ⊕ x ⊗ odd b t) (sym (turned t))
        ∙ sym (
            joined b t (exp wl (t + 2 ^ s)) (
              ap (λ x. x ⊗ x) (turned t)
              ∙ ring (exp wl t ∷ []) (times (opp x0) (opp x0)) (times x0 x0) refl))

    pub next_stage : Transformed c root (suc s) d a'
    unfolding wl
    next_stage = record {
      values = λ b t lb lt. elim (Bool-cases (ltb t (2 ^ s))) [
        | inl low ↦ low_value b t lb (below t (2 ^ s) low)
        | inr high ↦
            ap (λ q. get_or a' (b * 2 ^ suc s + q) f.zero) (above t (2 ^ s) high)
            ∙ high_value b (t - 2 ^ s) lb (omega (arith, above t (2 ^ s) high, pow_two-suc s))
            ∙ ap (λ q. stride c (2 ^ suc s) (2 ^ d) (reverse_bits b d) (exp (exp root (2 ^ d)) q))
                (sym (above t (2 ^ s) high))
      ];
    }
      where
        below : (x y : ℕ) → ltb x y ≡ true → x < y
        below x y h = ground arith

        above : (x y : ℕ) → ltb x y ≡ false → x ≡ x - y + y
        above x y h = ground arith
