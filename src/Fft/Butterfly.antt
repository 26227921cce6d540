-- ===== src/Fft/Butterfly.antt =====
-- The butterflies of a block, and the blocks of a stage, of `fft_in_place`,
-- crates/oracle-layer/src/fft.rs.
use tscp_anchor.Prelude.{
  ℕ, zero, suc, ◌+◌, ◌*◌, ◌/◌, ◌≤◌, ◌<◌, ◌≡◌, refl, sym, ap, ap₂, ◌∙◌, true, false, some, List,
  length, get_or, ltb, lt→ltb, arith,
}
use tscp_anchor.Field.{Field, ◌⊕◌, ◌⊖◌, ◌⊗◌, exp}
use tscp_anchor.Fft.{butterfly_loop, block_loop}
use tscp_anchor.Fft.Pairs.{at, sum_at, difference_at, Butterflied, butterfly_loop-Butterflied}

module _ {ℓ} {F : Type ℓ} ⦃f : Field F⦄ (wl : F) (half : ℕ) where
  -- What a stage leaves from `start` on, over `blocks` blocks.
  pub record Staged (start blocks : ℕ) (a a' : List F) : Type ℓ where
    pub size : length a' ≡ length a
    pub low :
        (i j : ℕ)
        → i < blocks
        → j < half
        → get_or a' (start + i * (2 * half) + j) f.zero
          ≡ sum_at wl half a (start + i * (2 * half)) j
    pub high :
        (i j : ℕ)
        → i < blocks
        → j < half
        → get_or a' (start + i * (2 * half) + j + half) f.zero
          ≡ difference_at wl half a (start + i * (2 * half)) j
    pub before : (p : ℕ) → p < start → get_or a' p f.zero ≡ get_or a p f.zero

  next_block : (start i : ℕ) → start + 2 * half + i * (2 * half) ≡ start + suc i * (2 * half)
  next_block start i = grind arith

  module _ (start blocks : ℕ) (a b a' : List F) (first : Butterflied wl half start 0 a b)
      (rest : Staged (start + 2 * half) blocks b a') where
    same_later : (p : ℕ) → start + half + half ≤ p → at wl half b p ≡ at wl half a p
    same_later p le = first.outside p (λ j le' lt. (λ e. omega arith, λ e. omega arith))

    stage_low :
        (i j : ℕ)
        → i < suc blocks
        → j < half
        → at wl half a' (start + i * (2 * half) + j) ≡ sum_at wl half a (start + i * (2 * half)) j
    stage_low zero j lt lt' =
        ap (λ p. at wl half a' p) {x = start + 0 * (2 * half) + j} {y = start + j} (omega arith)
        ∙ rest.before (start + j) (omega arith)
        ∙ first.low j (omega arith) lt'
        ∙ ap (λ s. sum_at wl half a s j) {x = start} {y = start + 0 * (2 * half)} (omega arith)
    stage_low (suc i) j lt lt' =
        ap (λ s. at wl half a' (s + j)) (sym (next_block start i))
        ∙ rest.low i j (omega arith) lt'
        ∙ ap₂ (λ x y. x ⊕ y ⊗ exp wl j)
            (same_later (start + 2 * half + i * (2 * half) + j) (omega arith))
            (same_later (start + 2 * half + i * (2 * half) + j + half) (omega arith))
        ∙ ap (λ s. sum_at wl half a s j) (next_block start i)

    stage_high :
        (i j : ℕ)
        → i < suc blocks
        → j < half
        → at wl half a' (start + i * (2 * half) + j + half)
          ≡ difference_at wl half a (start + i * (2 * half)) j
    stage_high zero j lt lt' =
        ap (λ p. at wl half a' p) {x = start + 0 * (2 * half) + j + half} {y = start + j + half}
          (omega arith)
        ∙ rest.before (start + j + half) (omega arith)
        ∙ first.high j (omega arith) lt'
        ∙ ap (λ s. difference_at wl half a s j) {x = start} {y = start + 0 * (2 * half)}
            (omega arith)
    stage_high (suc i) j lt lt' =
        ap (λ s. at wl half a' (s + j + half)) (sym (next_block start i))
        ∙ rest.high i j (omega arith) lt'
        ∙ ap₂ (λ x y. x ⊖ y ⊗ exp wl j)
            (same_later (start + 2 * half + i * (2 * half) + j) (omega arith))
            (same_later (start + 2 * half + i * (2 * half) + j + half) (omega arith))
        ∙ ap (λ s. difference_at wl half a s j) (next_block start i)

    stage_all : Staged start (suc blocks) a a'
    stage_all = record {
      size = rest.size ∙ first.size;
      low = stage_low;
      high = stage_high;
      before = λ p lt.
          rest.before p (omega arith)
          ∙ first.outside p (λ j le lt'. (λ e. omega arith, λ e. omega arith));
    }

  block_done :
      (fuel n start : ℕ) (a : List F)
      → ltb start n ≡ false
      → block_loop (suc fuel) wl (2 * half) n start a ≡ some a
  unfolding block_loop
  block_done fuel n start a h = rw (h, block_loop) refl

  block_next :
      (fuel n start : ℕ) (a b : List F)
      → ltb start n ≡ true
      → butterfly_loop wl start half half 0 f.one a ≡ some b
      → block_loop (suc fuel) wl (2 * half) n start a
        ≡ block_loop fuel wl (2 * half) n (start + 2 * half) b
  unfolding block_loop
  block_next fuel n start a b h made =
      let halved : 2 * half / 2 ≡ half = omega arith in rw (h, halved, made, block_loop) refl

  -- With fuel for every block, the loop over the blocks returns.
  pub block_loop-Staged :
      (fuel blocks n start : ℕ) (a : List F)
      → 0 < half
      → blocks < fuel
      → start + blocks * (2 * half) ≡ n
      → length a ≡ n
      → (a' : List F) × (block_loop fuel wl (2 * half) n start a ≡ some a')
        × Staged start blocks a a'
  block_loop-Staged zero blocks n start a pos enough e size = absurd (omega arith)
  block_loop-Staged (suc fuel) zero n start a pos enough e size =
      let done : ltb start n ≡ false = not_below start n (omega arith) in
      (
        a,
        block_done fuel n start a done,
        record {
          size = refl;
          low = λ i j lt lt'. absurd (omega arith);
          high = λ i j lt lt'. absurd (omega arith);
          before = λ p lt. refl;
        },
      )
    where
      not_below : (x y : ℕ) → x ≡ y → ltb x y ≡ false
      not_below x y h = ground arith
  block_loop-Staged (suc fuel) (suc blocks) n start a pos enough e size =
      let (b, made, first) =
        butterfly_loop-Butterflied wl half start half 0 a (omega arith)
          (omega (arith, next_block start blocks)) in
      let (a', made', rest) =
        block_loop-Staged fuel blocks n (start + 2 * half) b pos (omega arith)
          (next_block start blocks ∙ e) (first.size ∙ size) in
      let start_power : f.one ≡ exp wl 0 = unfold exp in refl in
      (
        a',
        block_next fuel n start a b (lt→ltb start n (omega (arith, next_block start blocks)))
              (ap (λ w. butterfly_loop wl start half half 0 w a) start_power ∙ made)
            ∙ made',
        stage_all start blocks a b a' first rest,
      )
