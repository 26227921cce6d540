-- ===== src/Fft.antt =====
-- crates/oracle-layer/src/fft.rs: the radix-2 transform in place, its inverse, and the interpolation
-- of columns.
pub mod Reverse
pub mod Permute
pub mod Pairs
pub mod Butterfly
pub mod Stages
pub mod Rounds
pub mod Evaluate
pub mod Sums
pub mod Inverse
pub mod Interpolate
use tscp_anchor.Prelude.{
  ℕ, zero, suc, ◌+◌, ◌*◌, ◌/◌, ◌%◌, Bool, true, false, Option, none, some, List, [], ◌∷◌, length,
  get_elem?, set, map, ltb, leb, if◌then◌else◌, check, ◌>>=◌, ◌>>◌,
}
use tscp_anchor.Prelude.Bits.{is_power_of_two, trailing_zeros}
use tscp_anchor.Field.{Field, ◌⊕◌, ◌⊖◌, ◌⊗◌, exp, from_u64}
use tscp_anchor.Quotient.{eval_poly_horner}

-- `for _ in 0..bits { r = (r << 1) | (x & 1); x >>= 1; }`: the bit that enters `r` is free.
unfoldable pub reverse_loop : ℕ → ℕ → ℕ → ℕ
reverse_loop zero r x = r
reverse_loop (suc bits) r x = reverse_loop bits (2 * r + x % 2) (x / 2)

unfoldable pub reverse_bits : ℕ → ℕ → ℕ
unfolding reverse_loop
reverse_bits x bits = reverse_loop bits 0 x

module _ {ℓ} {A : Type ℓ} where
  -- `a.swap(i, j)`
  unfoldable pub swap : List A → ℕ → ℕ → Option (List A)
  swap a i j = do x ← get_elem? a i; y ← get_elem? a j; some (set (set a i y) j x)

  -- `for i in 0..n`, from `i` on.
  unfoldable pub permute_loop : ℕ → ℕ → ℕ → List A → Option (List A)
  permute_loop log_n zero i a = some a
  permute_loop log_n (suc count) i a = do
    let j = reverse_bits i log_n
    next ← (if ltb i j then swap a i j else some a)
    permute_loop log_n count (suc i) next

  -- `(0..n_rows).map(|r| matrix[r][c])`
  unfoldable pub column_of : List (List A) → ℕ → Option (List A)
  column_of [] c = some []
  column_of (row ∷ rows) c = do x ← get_elem? row c; xs ← column_of rows c; some (x ∷ xs)

  -- `matrix.first().map(|r| r.len()).unwrap_or(0)`
  unfoldable pub width : List (List A) → ℕ
  width [] = 0
  width (row ∷ rows) = length row

module _ {ℓ} {F : Type ℓ} ⦃f : Field F⦄ where
  -- `for k in 0..half`, from `k` on, with `w` the power of `omega_len` there.
  unfoldable pub butterfly_loop : F → ℕ → ℕ → ℕ → ℕ → F → List F → Option (List F)
  butterfly_loop omega_len start half zero k w a = some a
  butterfly_loop omega_len start half (suc count) k w a = do
    u ← get_elem? a (start + k)
    t ← get_elem? a (start + k + half)
    let v = t ⊗ w
    butterfly_loop omega_len start half count (suc k) (w ⊗ omega_len)
        (set (set a (start + k) (u ⊕ v)) (start + k + half) (u ⊖ v))

  -- `while start < n`; a block takes one unit of fuel.
  unfoldable pub block_loop : ℕ → F → ℕ → ℕ → ℕ → List F → Option (List F)
  block_loop zero omega_len len n start a = none
  block_loop (suc fuel) omega_len len n start a = elim (ltb start n) [
    | true ↦
        butterfly_loop omega_len start (len / 2) (len / 2) 0 f.one a
        >>= block_loop fuel omega_len len n (start + len)
    | false ↦ some a
  ]

  -- `while len <= n`; a stage takes one unit of fuel.
  unfoldable pub stage_loop : ℕ → F → ℕ → ℕ → List F → Option (List F)
  stage_loop zero omega n len a = none
  stage_loop (suc fuel) omega n len a = elim (leb len n) [
    | true ↦
        block_loop (suc n) (exp omega (n / len)) len n 0 a >>= stage_loop fuel omega n (2 * len)
    | false ↦ some a
  ]

  unfoldable pub fft_in_place : List F → F → Option (List F)
  fft_in_place a omega =
      if leb (length a) 1
      then some a
      else permute_loop (trailing_zeros (length a)) (length a) 0 a
        >>= stage_loop (suc (length a)) omega (length a) 2

  unfoldable pub fft : List F → F → Option (List F)
  fft coeffs omega = do check (is_power_of_two (length coeffs)); fft_in_place coeffs omega

  unfoldable pub ifft : List F → F → Option (List F)
  ifft evals omega = do
    check (is_power_of_two (length evals))
    omega_inv ← f.inverse omega
    a ← fft_in_place evals omega_inv
    n_inv ← f.inverse (from_u64 (length evals))
    some (map (λ x. x ⊗ n_inv) a)

  unfoldable pub interpolate_column : List F → F → Option (List F)
  interpolate_column evals omega = ifft evals omega

  -- `(0..n_cols).map(..)`, from `c` on.
  unfoldable pub columns_loop : List (List F) → F → ℕ → ℕ → Option (List (List F))
  columns_loop matrix omega zero c = some []
  columns_loop matrix omega (suc count) c = do
    col ← column_of matrix c
    coeffs ← interpolate_column col omega
    rest ← columns_loop matrix omega count (suc c)
    some (coeffs ∷ rest)

  unfoldable pub interpolate_matrix : List (List F) → F → Option (List (List F))
  interpolate_matrix matrix omega = columns_loop matrix omega (width matrix) 0

  unfoldable pub evaluate_coeffs : List F → F → F
  evaluate_coeffs coeffs point = eval_poly_horner coeffs point
