-- ===== src/Fft/Rounds.antt =====
-- The loop over the stages of `fft_in_place`, crates/oracle-layer/src/fft.rs.
use native.Mathlib.Nat.{div-eq_of_eq-mul_left, le-mul_of_pos_right, mul_comm}
use mathlib.Core.Path.{subst}
use tscp_anchor.Prelude.{
  ℕ, zero, suc, ◌+◌, ◌*◌, ◌/◌, ◌^◌, ◌<◌, ◌≡◌, refl, sym, ap, ◌∙◌, true, false, some, List, length,
  leb, arith,
}
use tscp_anchor.Prelude.Bits.{pow_two-suc, pow_two-pos}
use tscp_anchor.Field.{Field, exp}
use tscp_anchor.Fft.{stage_loop, block_loop}
use tscp_anchor.Fft.Butterfly.{block_loop-Staged}
use tscp_anchor.Fft.Stages.{Transformed, next_stage, exp-exp, pow_two-add}

module _ {ℓ} {F : Type ℓ} ⦃f : Field F⦄ where
  module _ (c : List F) (root : F) (k : ℕ) where
    stage_power : (s d : ℕ) → s + suc d ≡ k → 2 ^ k ≡ 2 ^ d * (2 * 2 ^ s)
    stage_power s d e =
        ap (λ n. 2 ^ n) {x = k} {y = d + suc s} (omega arith)
        ∙ pow_two-add d (suc s)
        ∙ ap (λ n. 2 ^ d * n) (pow_two-suc s)

    stage_done : (fuel : ℕ) (a : List F) → stage_loop (suc fuel) root (2 ^ k) (2 * 2 ^ k) a ≡ some a
    unfolding stage_loop
    stage_done fuel a = rw (too_long (2 ^ k) (pow_two-pos k), stage_loop) refl
      where
        too_long : (n : ℕ) → 0 < n → leb (2 * n) n ≡ false
        too_long n h = ground arith

    stage_next :
        (fuel s d : ℕ) (a b : List F)
        → s + suc d ≡ k
        → block_loop (suc (2 ^ k)) (exp root (2 ^ d)) (2 * 2 ^ s) (2 ^ k) 0 a ≡ some b
        → stage_loop (suc fuel) root (2 ^ k) (2 * 2 ^ s) a
          ≡ stage_loop fuel root (2 ^ k) (2 * 2 ^ suc s) b
    unfolding stage_loop
    stage_next fuel s d a b e made =
        let test : leb (2 * 2 ^ s) (2 ^ k) ≡ true =
          fits (2 ^ k) (2 ^ d) (2 * 2 ^ s) (pow_two-pos d) (stage_power s d e) in
        let ratio : 2 ^ k / (2 * 2 ^ s) ≡ 2 ^ d =
          quotient (2 ^ k) (2 ^ d) (2 * 2 ^ s) (omega (arith, pow_two-pos s)) (stage_power s d e) in
        let longer : 2 * (2 * 2 ^ s) ≡ 2 * 2 ^ suc s = omega (arith, pow_two-suc s) in
        rw (test, ratio, made, longer, stage_loop) refl
      where
        fits : (n m l : ℕ) → 0 < m → n ≡ m * l → leb l n ≡ true
        fits n m l h e = ground (arith, le-mul_of_pos_right {m = m} l h, mul_comm l m)

        quotient : (n m l : ℕ) → 0 < l → n ≡ m * l → n / l ≡ m
        quotient n m l h e = div-eq_of_eq-mul_left h e

    pub stages :
        (fuel d s : ℕ) (a : List F)
        → d < fuel
        → s + d ≡ k
        → ((j : ℕ) → suc j ≡ k → exp root (2 ^ j) ≡ f.neg f.one)
        → length a ≡ 2 ^ k
        → Transformed c root s d a
        → (a' : List F) × (stage_loop fuel root (2 ^ k) (2 * 2 ^ s) a ≡ some a')
          × (length a' ≡ 2 ^ k)
          × Transformed c root k 0 a'
    stages zero d s a enough e turn size t = absurd (omega arith)
    stages (suc fuel) zero s a enough e turn size t =
        let same : s ≡ k = omega arith in
        (
          a,
          ap (λ n. stage_loop (suc fuel) root (2 ^ k) (2 * 2 ^ n) a) same ∙ stage_done fuel a,
          size,
          subst (λ n. Transformed c root n 0 a) same t,
        )
    stages (suc fuel) (suc d) s a enough e turn size t =
        let whole : 0 + 2 ^ d * (2 * 2 ^ s) ≡ 2 ^ k = omega (arith, stage_power s d e) in
        let (b, made, stage) =
          block_loop-Staged (exp root (2 ^ d)) (2 ^ s) (suc (2 ^ k)) (2 ^ d) (2 ^ k) 0 a
            (pow_two-pos s) (fewer (2 ^ d) (2 ^ s) (2 ^ k) (pow_two-pos s) whole) whole size in
        let half_turn : exp (exp root (2 ^ d)) (2 ^ s) ≡ f.neg f.one =
          exp-exp root (2 ^ d) (2 ^ s)
          ∙ ap (exp root) (sym (pow_two-add d s))
          ∙ turn (d + s) (omega arith) in
        let (a', made', size', t') =
          stages fuel d (suc s) b (omega arith) (omega arith) turn (stage.size ∙ size)
            (next_stage c root s d a b half_turn t stage) in
        (a', stage_next fuel s d a b e made ∙ made', size', t')
      where
        fewer : (m h n : ℕ) → 0 < h → 0 + m * (2 * h) ≡ n → m < suc n
        fewer m h n pos e = omega (arith, le-mul_of_pos_right {m = 2 * h} m (omega arith))
