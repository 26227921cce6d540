-- ===== src/DeepAliFri/Domain.antt =====
-- `primitive_root` and `two_adic_domain` of crates/prover-server/src/deep_ali_fri.rs, and the size of
-- the padded quotient.
use native.Mathlib.Nat.{mul-div_cancel, mul_assoc}
use tscp_anchor.Prelude.{
  ℕ, zero, suc, ◌+◌, ◌-◌, ◌*◌, ◌/◌, ◌^◌, ◌≤◌, ◌<◌, ◌≡◌, ◌≢◌, refl, sym, ap, ◌∙◌, ◌⊎◌, inl, inr,
  true, false, some, List, [], ◌∷◌, ◌++◌, length, length-append, length-take, length-replicate,
  get_elem?, get_or, take, replicate, leb, ◌==◌, Bool-cases, arith,
}
use tscp_anchor.Prelude.Bits.{pow_two-suc, pow_two-pos, lt-pow_two}
use tscp_anchor.Field.{Field, PrimeField32, ◌⊕◌, ◌⊗◌, exp, from_u64}
use tscp_anchor.Field.Laws.{eq_zero_of_mul}
use tscp_anchor.Fft.Stages.{exp-exp, pow_two-add}
use tscp_anchor.Quotient.{eval_poly_horner}
use tscp_anchor.Quotient.Horner.{horner-zeros}
use tscp_anchor.DeepAliFri.{
  next_power_loop, next_power_of_two, max_usize, resize, powers_loop, primitive_root,
}

-- What the code takes of BabyBear, whose order is 15 * 2^27 + 1: half the order's predecessor is the
-- power at which 31 is -1.
pub record TwoAdic {ℓ} (F : Type ℓ) ⦃f : Field F⦄ ⦃p : PrimeField32 F⦄ : Type ℓ where
  pub cofactor : ℕ
  pub depth : ℕ
  pub order_lem : p.order ≡ cofactor * 2 ^ suc depth + 1
  pub half_order : exp (from_u64 31) (cofactor * 2 ^ depth) ≡ f.neg f.one

module _ {ℓ} {F : Type ℓ} ⦃f : Field F⦄ where
  pub length-powers_loop : (w : F) (i n : ℕ) → length (powers_loop w i n) ≡ n
  unfolding powers_loop
  length-powers_loop w i zero = refl
  length-powers_loop w i (suc n) = ap suc (length-powers_loop w (suc i) n)

  pub powers_loop_entry :
      (w : F) (i n j : ℕ) → j < n → get_elem? (powers_loop w i n) j ≡ some (exp w (i + j))
  unfolding powers_loop
  powers_loop_entry w i zero j h = absurd (omega arith)
  powers_loop_entry w i (suc n) zero h = ap (λ k. some (exp w k)) {x = i} {y = i + 0} (omega arith)
  powers_loop_entry w i (suc n) (suc j) h =
      powers_loop_entry w (suc i) n j (omega arith)
      ∙ ap (λ k. some (exp w k)) {x = suc i + j} {y = i + suc j} (omega arith)

  pub exp-ne-zero : (w : F) (n : ℕ) → w ≢ f.zero → exp w n ≢ f.zero
  unfolding exp
  exp-ne-zero w zero h e = f.one-ne-zero e
  exp-ne-zero w (suc n) h e = exp-ne-zero w n h (eq_zero_of_mul h e)

  horner-append_zeros :
      (xs : List F) (n : ℕ) (x : F)
      → eval_poly_horner (xs ++ replicate n f.zero) x ≡ eval_poly_horner xs x
  unfolding eval_poly_horner
  horner-append_zeros [] n x = horner-zeros (replicate n f.zero) x (zeros n)
    where
      zeros : (n j : ℕ) → get_or (replicate n f.zero) j f.zero ≡ f.zero
      zeros zero j = refl
      zeros (suc n) zero = refl
      zeros (suc n) (suc j) = zeros n j
  horner-append_zeros (a ∷ xs) n x = ap (λ t. t ⊗ x ⊕ a) (horner-append_zeros xs n x)

  take_all : (n : ℕ) (xs : List F) → length xs ≤ n → take n xs ≡ xs
  take_all zero [] h = refl
  take_all zero (x ∷ xs) h = absurd (omega arith)
  take_all (suc n) [] h = refl
  take_all (suc n) (x ∷ xs) h = ap (λ t. x ∷ t) (take_all n xs (omega arith))

  -- The padded polynomial has the same values.
  pub horner-resize :
      (n : ℕ) (xs : List F) (x : F)
      → length xs ≤ n
      → eval_poly_horner (resize n f.zero xs) x ≡ eval_poly_horner xs x
  unfolding resize
  horner-resize n xs x h =
      ap (λ t. eval_poly_horner (t ++ replicate (n - length xs) f.zero) x) (take_all n xs h)
      ∙ horner-append_zeros xs (n - length xs) x

  pub length-resize : (n : ℕ) (xs : List F) → length xs ≤ n → length (resize n f.zero xs) ≡ n
  unfolding resize
  length-resize n xs h = omega (
    arith,
    length-append (take n xs) (replicate (n - length xs) f.zero),
    length-take n xs,
    length-replicate (n - length xs) f.zero,
  )

-- The loop ends at the first power of 2 that is not below the number.
next_power_loop_lem :
    (fuel i n : ℕ)
    → n ≤ i + fuel
    → (i ≡ 0) ⊎ (2 ^ i < 2 * n)
    → (j : ℕ) × (next_power_loop fuel (2 ^ i) n ≡ 2 ^ j) × (n ≤ 2 ^ j) × ((j ≡ 0) ⊎ (2 ^ j < 2 * n))
unfolding next_power_loop
next_power_loop_lem zero i n enough low = (i, refl, omega (arith, lt-pow_two i), low)
next_power_loop_lem (suc fuel) i n enough low = elim (Bool-cases (leb n (2 ^ i))) [
  | inl done ↦ (i, rw (done, next_power_loop) refl, at_most n (2 ^ i) done, low)
  | inr more ↦
      let (j, made, fits, small) =
        next_power_loop_lem fuel (suc i) n (omega arith)
          (inr (omega (arith, above n (2 ^ i) more, pow_two-suc i))) in
      (
        j,
        rw (more, next_power_loop)
            (ap (λ q. next_power_loop fuel q n) (sym (pow_two-suc i)) ∙ made),
        fits,
        small,
      )
]
  where
    at_most : (a b : ℕ) → leb a b ≡ true → a ≤ b
    at_most a b h = ground arith

    above : (a b : ℕ) → leb a b ≡ false → b < a
    above a b h = ground arith

pow_two_cancel : (j m : ℕ) → 2 ^ j < 2 * 2 ^ m → j ≤ m
pow_two_cancel zero m h = omega arith
pow_two_cancel (suc j) zero h = absurd (omega (arith, pow_two-suc j, pow_two-pos j))
pow_two_cancel (suc j) (suc m) h =
    omega (arith, pow_two_cancel j m (omega (arith, pow_two-suc j, pow_two-suc m)))

at_least_two : (q : ℕ) → 2 ≤ q → max_usize q 2 ≡ q
unfolding max_usize
at_least_two q h = ground arith

-- The padded size is a power of 2 that holds the quotient, within the order of the root.
pub padded_size :
    (n m : ℕ)
    → 0 < n
    → n ≤ 2 ^ suc m
    → (k : ℕ) × (max_usize (next_power_of_two n) 2 ≡ 2 ^ suc k) × (n ≤ 2 ^ suc k) × (k ≤ m)
unfolding next_power_of_two
padded_size n m pos le =
    let (j, made, fits, small) = next_power_loop_lem n 0 n (omega arith) (inl refl) in
    pick j made fits small
  where
    pick :
        (j : ℕ)
        → next_power_loop n 1 n ≡ 2 ^ j
        → n ≤ 2 ^ j
        → (j ≡ 0) ⊎ (2 ^ j < 2 * n)
        → (k : ℕ) × (max_usize (next_power_loop n 1 n) 2 ≡ 2 ^ suc k) × (n ≤ 2 ^ suc k) × (k ≤ m)
    pick zero made fits small = (0, unfold max_usize in rw made refl, omega arith, omega arith)
    pick (suc k) made fits (inl e) = absurd (omega arith)
    pick (suc k) made fits (inr small) = (
      k,
      ap (λ q. max_usize q 2) made
          ∙ at_least_two (2 ^ suc k) (omega (arith, pow_two-suc k, pow_two-pos k)),
      fits,
      omega (arith, pow_two_cancel (suc k) (suc m) (omega arith)),
    )

module _ {ℓ} {F : Type ℓ} ⦃f : Field F⦄ ⦃p : PrimeField32 F⦄ (t : TwoAdic F) where
  -- The root of order 2^(k+1).
  pub primitive_root_half :
      (k : ℕ)
      → k ≤ t.depth
      → (w : F) × (primitive_root (2 ^ suc k) ≡ some w) × (exp w (2 ^ k) ≡ f.neg f.one)
  primitive_root_half k le =
      let power : ℕ = (p.order - 1) / 2 ^ suc k in
      (
        exp (from_u64 31) power,
        unfold primitive_root in defined (2 ^ suc k) (pow_two-pos (suc k)),
        exp-exp (from_u64 31) power (2 ^ k)
            ∙ ap (exp (from_u64 31)) (order_half (t.depth - k) (omega arith))
            ∙ t.half_order,
      )
    where
      positive : (n : ℕ) → 0 < n → (n == 0) ≡ false
      positive n h = ground arith

      defined :
          (n : ℕ) → 0 < n → primitive_root {F = F} n ≡ some (exp (from_u64 31) ((p.order - 1) / n))
      defined n h = unfold primitive_root in rw (positive n h) refl

      predecessor : (e : ℕ) → k + e ≡ t.depth → p.order - 1 ≡ t.cofactor * 2 ^ e * 2 ^ suc k
      predecessor e h =
          omega (arith, t.order_lem)
          ∙ ap (λ q. t.cofactor * 2 ^ q) {x = suc t.depth} {y = e + suc k} (omega arith)
          ∙ ap (λ q. t.cofactor * q) (pow_two-add e (suc k))
          ∙ sym (mul_assoc t.cofactor (2 ^ e) (2 ^ suc k))

      order_half :
          (e : ℕ) → k + e ≡ t.depth → (p.order - 1) / 2 ^ suc k * 2 ^ k ≡ t.cofactor * 2 ^ t.depth
      order_half e h =
          ap (λ q. q / 2 ^ suc k * 2 ^ k) (predecessor e h)
          ∙ ap (λ q. q * 2 ^ k) (mul-div_cancel (t.cofactor * 2 ^ e) (pow_two-pos (suc k)))
          ∙ mul_assoc t.cofactor (2 ^ e) (2 ^ k)
          ∙ ap (λ q. t.cofactor * q) (sym (pow_two-add e k))
          ∙ ap (λ q. t.cofactor * 2 ^ q) {x = e + k} {y = t.depth} (omega arith)
