-- ===== src/Prelude/Bits.antt =====
-- `usize` arithmetic of Rust's standard library: shifts, powers of two, logarithms. A shift by the
-- width or more panics.
use Prim.Native.Nat.{ℕ, zero, suc, ◌+◌, ◌-◌, ◌*◌, ◌/◌, ◌%◌, ◌^◌, ◌<◌}
use mathlib.Core.Path.{◌≡◌, refl}
use mathlib.Core.Logic.{inl, inr}
use mathlib.Core.Bool.{Bool, true, false}
use mathlib.Core.Option.{Option, none, some}
use native.Mathlib.Nat.{pow-succ'}
use native.Mathlib.Omega.{arith}
use tscp_anchor.Prelude.Tests.{ltb, leb, ◌==◌, if◌then◌else◌, lt→ltb, Bool-cases}

-- `x >> i`
unfoldable pub shr : ℕ → ℕ → ℕ
shr x zero = x
shr x (suc i) = shr (x / 2) i

-- `(x >> i) & 1`
unfoldable pub bit : ℕ → ℕ → ℕ
bit x i = shr x i % 2

pub bit-zero : (x : ℕ) → bit x 0 ≡ x % 2
unfolding bit shr
bit-zero x = refl

pub bit-suc : (x i : ℕ) → bit x (suc i) ≡ bit (x / 2) i
unfolding bit shr
bit-suc x i = refl

-- `1usize << n`
unfoldable pub shl_one : ℕ → Option ℕ
shl_one n = if ltb n 64 then some (2 ^ n) else none

pub shl_one-some : (n : ℕ) → n < 64 → shl_one n ≡ some (2 ^ n)
unfolding shl_one
shl_one-some n h = rw (lt→ltb n 64 h)

pub pow_two-suc : (n : ℕ) → 2 ^ suc n ≡ 2 * 2 ^ n
pow_two-suc n = pow-succ' 2 n

pub pow_two-pos : (n : ℕ) → 0 < 2 ^ n
pow_two-pos zero = omega arith
pow_two-pos (suc n) = omega (arith, pow_two-pos n, pow_two-suc n)

pub lt-pow_two : (n : ℕ) → n < 2 ^ n
lt-pow_two zero = omega arith
lt-pow_two (suc n) = omega (arith, lt-pow_two n, pow_two-suc n)

power_loop : ℕ → ℕ → Bool
power_loop zero n = false
power_loop (suc fuel) n =
    let rest = power_loop fuel (n / 2) in
    if n == 1 then true else if n % 2 == 1 then false else rest

-- `n.is_power_of_two()`
unfoldable pub is_power_of_two : ℕ → Bool
unfolding power_loop
is_power_of_two n = power_loop n n

power_loop_sound : (fuel n : ℕ) → power_loop fuel n ≡ true → (k : ℕ) × (n ≡ 2 ^ k)
unfolding power_loop
power_loop_sound zero n h = cc
power_loop_sound (suc fuel) n h = elim (Bool-cases (n == 1)) [
  | inl one ↦ (0, ground arith)
  | inr more ↦ elim (Bool-cases (n % 2 == 1)) [
    | inl odd ↦ cc (rw (more, odd) at h)
    | inr even ↦
        let (k, e) = power_loop_sound fuel (n / 2) (rw (more, even) at h) in
        (suc k, pow_two n k e (ground arith))
  ]
]
  where
    pow_two : (n k : ℕ) → n / 2 ≡ 2 ^ k → n % 2 ≡ 0 → n ≡ 2 ^ suc k
    pow_two n k e h = omega (arith, pow_two-suc k)

power_loop-pow : (fuel k : ℕ) → k < fuel → power_loop fuel (2 ^ k) ≡ true
unfolding power_loop
power_loop-pow zero k h = absurd (omega arith)
power_loop-pow (suc fuel) zero h = refl
power_loop-pow (suc fuel) (suc k) h =
    ground (arith, pow_two-suc k, pow_two-pos k, half, power_loop-pow fuel k)
  where
    half : 2 ^ suc k / 2 ≡ 2 ^ k
    half = omega (arith, pow_two-suc k)

pub is_power_of_two_sound : (n : ℕ) → is_power_of_two n ≡ true → (k : ℕ) × (n ≡ 2 ^ k)
unfolding is_power_of_two
is_power_of_two_sound n h = power_loop_sound n n h

pub is_power_of_two-pow : (k : ℕ) → is_power_of_two (2 ^ k) ≡ true
unfolding is_power_of_two
is_power_of_two-pow k = power_loop-pow (2 ^ k) k (lt-pow_two k)

zeros_loop : ℕ → ℕ → ℕ
zeros_loop zero n = 0
zeros_loop (suc fuel) n = let rest = zeros_loop fuel (n / 2) in if n % 2 == 1 then 0 else suc rest

-- `n.trailing_zeros()`
unfoldable pub trailing_zeros : ℕ → ℕ
unfolding zeros_loop
trailing_zeros n = if n == 0 then 64 else zeros_loop n n

zeros_loop-pow : (fuel k : ℕ) → k < fuel → zeros_loop fuel (2 ^ k) ≡ k
unfolding zeros_loop
zeros_loop-pow zero k h = absurd (omega arith)
zeros_loop-pow (suc fuel) zero h = refl
zeros_loop-pow (suc fuel) (suc k) h = ground (arith, pow_two-suc k, half, zeros_loop-pow fuel k)
  where
    half : 2 ^ suc k / 2 ≡ 2 ^ k
    half = omega (arith, pow_two-suc k)

pub trailing_zeros-pow : (k : ℕ) → trailing_zeros (2 ^ k) ≡ k
unfolding trailing_zeros
trailing_zeros-pow k = ground (arith, pow_two-pos k, zeros_loop-pow (2 ^ k) k (lt-pow_two k))

log_loop : ℕ → ℕ → ℕ
log_loop zero n = 0
log_loop (suc fuel) n = let rest = log_loop fuel (n / 2) in if leb n 1 then 0 else suc rest

-- `n.ilog2()`, which panics at 0
unfoldable pub ilog2 : ℕ → Option ℕ
unfolding log_loop
ilog2 n = if n == 0 then none else some (log_loop n n)

log_loop-pow : (fuel k : ℕ) → k < fuel → log_loop fuel (2 ^ k) ≡ k
unfolding log_loop
log_loop-pow zero k h = absurd (omega arith)
log_loop-pow (suc fuel) zero h = refl
log_loop-pow (suc fuel) (suc k) h =
    ground (arith, pow_two-suc k, pow_two-pos k, half, log_loop-pow fuel k)
  where
    half : 2 ^ suc k / 2 ≡ 2 ^ k
    half = omega (arith, pow_two-suc k)

pub ilog2-pow : (k : ℕ) → ilog2 (2 ^ k) ≡ some k
unfolding ilog2
ilog2-pow k = ground (arith, pow_two-pos k, log_loop-pow (2 ^ k) k (lt-pow_two k))

-- `a - b` on `usize`, which panics below zero.
unfoldable pub sub_usize : ℕ → ℕ → Option ℕ
sub_usize a b = if ltb a b then none else some (a - b)

pub sub_usize-some : (a b c : ℕ) → a ≡ b + c → sub_usize a b ≡ some c
unfolding sub_usize
sub_usize-some a b c h = ground arith
