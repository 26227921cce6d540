-- ===== src/Fft/Reverse.antt =====
-- `reverse_bits` of crates/oracle-layer/src/fft.rs: a permutation of the indices that is its own
-- inverse.
use tscp_anchor.Prelude.{
  ℕ, zero, suc, ◌+◌, ◌*◌, ◌/◌, ◌%◌, ◌^◌, ◌<◌, ◌≡◌, refl, ap, ◌∙◌, ◌⊎◌, inl, inr, arith,
}
use tscp_anchor.Prelude.Bits.{pow_two-suc}
use tscp_anchor.Fft.{reverse_loop, reverse_bits}

regroup : (p r m q : ℕ) → (2 * r + m) * p + q ≡ r * (2 * p) + ((2 * 0 + m) * p + q)
regroup p r m q = grind arith

reverse_loop_acc : (bits r x : ℕ) → reverse_loop bits r x ≡ r * 2 ^ bits + reverse_loop bits 0 x
unfolding reverse_loop
reverse_loop_acc zero r x = omega arith
reverse_loop_acc (suc bits) r x =
    reverse_loop_acc bits (2 * r + x % 2) (x / 2)
    ∙ regroup (2 ^ bits) r (x % 2) (reverse_loop bits 0 (x / 2))
    ∙ ap (λ p. r * p + ((2 * 0 + x % 2) * 2 ^ bits + reverse_loop bits 0 (x / 2)))
        {x = 2 * 2 ^ bits} {y = 2 ^ suc bits} (omega (arith, pow_two-suc bits))
    ∙ ap (λ s. r * 2 ^ suc bits + s) {x = (2 * 0 + x % 2) * 2 ^ bits + reverse_loop bits 0 (x / 2)}
        {y = reverse_loop (suc bits) 0 x}
        (omega (arith, reverse_loop_acc bits (2 * 0 + x % 2) (x / 2)))

pub parity : (x : ℕ) → (x % 2 ≡ 0) ⊎ (x % 2 ≡ 1)
parity zero = inl refl
parity (suc x) = elim (parity x) [ inl e ↦ inr (omega arith) | inr e ↦ inl (omega arith) ]

-- The lowest bit goes to the top.
reverse_even : (bits x : ℕ) → x % 2 ≡ 0 → reverse_bits x (suc bits) ≡ reverse_bits (x / 2) bits
unfolding reverse_bits reverse_loop
reverse_even bits x e =
    reverse_loop_acc bits (2 * 0 + x % 2) (x / 2)
    ∙ ap (λ m. (2 * 0 + m) * 2 ^ bits + reverse_loop bits 0 (x / 2)) e
    ∙ omega arith

reverse_odd :
    (bits x : ℕ) → x % 2 ≡ 1 → reverse_bits x (suc bits) ≡ 2 ^ bits + reverse_bits (x / 2) bits
unfolding reverse_bits reverse_loop
reverse_odd bits x e =
    reverse_loop_acc bits (2 * 0 + x % 2) (x / 2)
    ∙ ap (λ m. (2 * 0 + m) * 2 ^ bits + reverse_loop bits 0 (x / 2)) e
    ∙ omega arith

pub reverse_bits-lt : (bits x : ℕ) → reverse_bits x bits < 2 ^ bits
unfolding reverse_bits
reverse_bits-lt zero x = omega arith
reverse_bits-lt (suc bits) x = elim (parity x) [
  | inl e ↦ omega (arith, reverse_even bits x e, reverse_bits-lt bits (x / 2), pow_two-suc bits)
  | inr e ↦ omega (arith, reverse_odd bits x e, reverse_bits-lt bits (x / 2), pow_two-suc bits)
]

-- The reversal of a block's first half, and of its second.
pub reverse_twice : (bits b : ℕ) → reverse_bits (2 * b) (suc bits) ≡ reverse_bits b bits
reverse_twice bits b =
    reverse_even bits (2 * b) (omega arith)
    ∙ ap (λ x. reverse_bits x bits) {x = 2 * b / 2} {y = b} (omega arith)

pub reverse_twice_one :
    (bits b : ℕ) → reverse_bits (2 * b + 1) (suc bits) ≡ 2 ^ bits + reverse_bits b bits
reverse_twice_one bits b =
    reverse_odd bits (2 * b + 1) (omega arith)
    ∙ ap (λ x. 2 ^ bits + reverse_bits x bits) {x = (2 * b + 1) / 2} {y = b} (omega arith)

-- The highest bit goes to the bottom.
reverse_low : (bits x : ℕ) → x < 2 ^ bits → reverse_bits x (suc bits) ≡ 2 * reverse_bits x bits
reverse_low zero zero h = unfold reverse_bits reverse_loop in refl
reverse_low zero (suc x) h = absurd (omega arith)
reverse_low (suc bits) x h =
    let half : x / 2 < 2 ^ bits = omega (arith, pow_two-suc bits) in
    let ih : reverse_bits (x / 2) (suc bits) ≡ 2 * reverse_bits (x / 2) bits =
      reverse_low bits (x / 2) half in
    elim (parity x) [
      | inl e ↦ omega (arith, reverse_even (suc bits) x e, reverse_even bits x e)
      | inr e ↦ omega (arith, reverse_odd (suc bits) x e, reverse_odd bits x e, pow_two-suc bits)
    ]

reverse_top :
    (bits x : ℕ)
    → x < 2 ^ bits
    → reverse_bits (2 ^ bits + x) (suc bits) ≡ 2 * reverse_bits x bits + 1
reverse_top zero zero h = unfold reverse_bits reverse_loop in refl
reverse_top zero (suc x) h = absurd (omega arith)
reverse_top (suc bits) x h =
    let half : x / 2 < 2 ^ bits = omega (arith, pow_two-suc bits) in
    let split : (2 ^ suc bits + x) / 2 ≡ 2 ^ bits + x / 2 = omega (arith, pow_two-suc bits) in
    let ih : reverse_bits ((2 ^ suc bits + x) / 2) (suc bits) ≡ 2 * reverse_bits (x / 2) bits + 1 =
      ap (λ y. reverse_bits y (suc bits)) split ∙ reverse_top bits (x / 2) half in
    elim (parity x) [
      | inl e ↦ omega (
        arith,
        reverse_even (suc bits) (2 ^ suc bits + x) (omega (arith, pow_two-suc bits)),
        reverse_even bits x e,
      )
      | inr e ↦ omega (
        arith,
        reverse_odd (suc bits) (2 ^ suc bits + x) (omega (arith, pow_two-suc bits)),
        reverse_odd bits x e,
        pow_two-suc bits,
      )
    ]

pub reverse_bits-reverse_bits :
    (bits x : ℕ) → x < 2 ^ bits → reverse_bits (reverse_bits x bits) bits ≡ x
reverse_bits-reverse_bits zero zero h = unfold reverse_bits reverse_loop in refl
reverse_bits-reverse_bits zero (suc x) h = absurd (omega arith)
reverse_bits-reverse_bits (suc bits) x h =
    let half : x / 2 < 2 ^ bits = omega (arith, pow_two-suc bits) in
    let ih : reverse_bits (reverse_bits (x / 2) bits) bits ≡ x / 2 =
      reverse_bits-reverse_bits bits (x / 2) half in
    let small : reverse_bits (x / 2) bits < 2 ^ bits = reverse_bits-lt bits (x / 2) in
    elim (parity x) [
      | inl e ↦
          ap (λ y. reverse_bits y (suc bits)) (reverse_even bits x e)
          ∙ reverse_low bits (reverse_bits (x / 2) bits) small
          ∙ omega arith
      | inr e ↦
          ap (λ y. reverse_bits y (suc bits)) (reverse_odd bits x e)
          ∙ reverse_top bits (reverse_bits (x / 2) bits) small
          ∙ omega arith
    ]
