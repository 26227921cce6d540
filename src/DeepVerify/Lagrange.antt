-- ===== src/DeepVerify/Lagrange.antt =====
-- The basis polynomials of `interpolate_lagrange_naive` of crates/prover-server/src/deep_ali.rs.
use tscp_anchor.Prelude.{
  ℕ, zero, suc, ◌+◌, ◌%◌, ◌^◌, ◌≤◌, ◌<◌, ◌≡◌, ◌≢◌, refl, sym, ap, ◌∙◌, inl, inr, List, [], ◌∷◌,
  length, ◌==◌, ==_iff, if◌then◌else◌, Bool-cases, compared, arith,
}
use tscp_anchor.Field.{Field, PrimeField32, ◌⊖◌, ◌⊗◌}
use tscp_anchor.Field.Laws.{
  eq_of_sub, eq_zero_of_mul, sub_self, mul-zero, zero-mul, mul-one, add-zero,
}
use tscp_anchor.Quotient.{eval_poly_horner}
use tscp_anchor.DeepVerify.{row_point, basis_step, basis_loop}
use tscp_anchor.DeepVerify.Factor.{horner-factor_loop, length-factor_loop, constant}

module _ {ℓ} {F : Type ℓ} ⦃f : Field F⦄ ⦃p : PrimeField32 F⦄ where
  -- The product of `x` less the points other than the `i`-th, from the `j`-th on.
  abbrev factor : ℕ → ℕ → F → F
  factor i j x = if i == j then f.one else x ⊖ row_point j

  abbrev product : ℕ → F → ℕ → ℕ → F
  product i x j zero = f.one
  product i x j (suc count) = factor i j x ⊗ product i x (suc j) count

  basis_step-value :
      (i j : ℕ) (state : List F × F) (x : F)
      → eval_poly_horner (basis_step i j state).0 x ≡ eval_poly_horner state.0 x ⊗ factor i j x
  unfolding basis_step
  basis_step-value i j (basis, denom) x = elim (Bool-cases (i == j)) [
    | inl e ↦ rw (basis_step, e) (sym (mul-one _))
    | inr e ↦ rw (basis_step, e) (horner-factor_loop (row_point j) f.zero x basis ∙ add-zero _)
  ]

  basis_step-denom :
      (i j : ℕ) (state : List F × F) → (basis_step i j state).1 ≡ state.1 ⊗ factor i j (row_point i)
  unfolding basis_step
  basis_step-denom i j (basis, denom) = elim (Bool-cases (i == j)) [
    | inl e ↦ rw (basis_step, e) (sym (mul-one _))
    | inr e ↦ rw (basis_step, e) refl
  ]

  basis_loop-value :
      (i j count : ℕ) (state : List F × F) (x : F)
      → eval_poly_horner (basis_loop i j count state).0 x
        ≡ eval_poly_horner state.0 x ⊗ product i x j count
  unfolding basis_loop
  basis_loop-value i j zero state x = sym (mul-one _)
  basis_loop-value i j (suc count) state x =
      basis_loop-value i (suc j) count (basis_step i j state) x
      ∙ ap (λ t. t ⊗ product i x (suc j) count) (basis_step-value i j state x)
      ∙ f.mul_assoc _ _ _

  basis_loop-denom :
      (i j count : ℕ) (state : List F × F)
      → (basis_loop i j count state).1 ≡ state.1 ⊗ product i (row_point i) j count
  unfolding basis_loop
  basis_loop-denom i j zero state = sym (mul-one _)
  basis_loop-denom i j (suc count) state =
      basis_loop-denom i (suc j) count (basis_step i j state)
      ∙ ap (λ t. t ⊗ product i (row_point i) (suc j) count) (basis_step-denom i j state)
      ∙ f.mul_assoc _ _ _

  basis_step-length :
      (i j : ℕ) (state : List F × F)
      → (length (basis_step i j state).0 ≤ suc (length state.0))
        × (i ≡ j → length (basis_step i j state).0 ≡ length state.0)
  unfolding basis_step
  basis_step-length i j (basis, denom) = elim (Bool-cases (i == j)) [
    | inl e ↦ rw (basis_step, e) (omega arith, λ h. refl)
    | inr e ↦ (
      rw (basis_step, e) (omega (arith, length-factor_loop (row_point j) f.zero basis)),
      λ h. cc (e, (==_iff i j).1 h),
    )
  ]

  basis_loop-length :
      (i j count : ℕ) (state : List F × F)
      → (length (basis_loop i j count state).0 ≤ length state.0 + count)
        × (j ≤ i → i < j + count → length (basis_loop i j count state).0 < length state.0 + count)
  unfolding basis_loop
  basis_loop-length i j zero state = (omega arith, λ h k. omega arith)
  basis_loop-length i j (suc count) state =
      let step = basis_step-length i j state in
      let ih = basis_loop-length i (suc j) count (basis_step i j state) in
      (
        omega (arith, step.0, ih.0),
        λ h k. elim (compared i j) [
          | inl less ↦ omega arith
          | inr (inl e) ↦ omega (arith, step.1 e, ih.0)
          | inr (inr more) ↦ omega (arith, step.0, ih.1 (omega arith) (omega arith))
        ],
      )

  -- At another point the product is zero.
  product-zero :
      (i m j count : ℕ) → i ≢ m → j ≤ m → m < j + count → product i (row_point m) j count ≡ f.zero
  product-zero i m j zero other h k = absurd (omega arith)
  product-zero i m j (suc count) other h k = elim (compared j m) [
    | inl less ↦
        ap (f.mul (factor i j (row_point m)))
          (product-zero i m (suc j) count other (omega arith) (omega arith))
        ∙ mul-zero _
    | inr (inl e) ↦
        ap (λ t. t ⊗ product i (row_point m) (suc j) count)
          (ap (λ j. factor i j (row_point m)) e ∙ vanishes i m other)
        ∙ zero-mul _
    | inr (inr more) ↦ absurd (omega arith)
  ]
    where
      vanishes : (i m : ℕ) → i ≢ m → factor i m (row_point m) ≡ f.zero
      vanishes i m other = elim (Bool-cases (i == m)) [
        | inl e ↦ absurd (other ((==_iff i m).0 e))
        | inr e ↦ rw e (sub_self (row_point m))
      ]

  row_point-injective :
      (a b : ℕ) → a < p.order → b < p.order → row_point {F = F} a ≡ row_point b → a ≡ b
  unfolding row_point
  row_point-injective a b ha hb e =
      let small = p.order-lt in
      let a' : a % 2 ^ 32 ≡ a = omega arith in
      let b' : b % 2 ^ 32 ≡ b = omega arith in
      sym (p.canonical-of_u32 a ha)
      ∙ ap p.as_canonical_u32 (ap p.of_u32 (sym a') ∙ e ∙ ap p.of_u32 b')
      ∙ p.canonical-of_u32 b hb

  -- At its own point it is not.
  product-ne-zero :
      (i j count : ℕ) → i < p.order → j + count ≤ p.order → product i (row_point i) j count ≢ f.zero
  product-ne-zero i j zero h k z = f.one-ne-zero z
  product-ne-zero i j (suc count) h k z =
      product-ne-zero i (suc j) count h (omega arith) (eq_zero_of_mul (own i j h (omega arith)) z)
    where
      own : (i j : ℕ) → i < p.order → j < p.order → factor i j (row_point i) ≢ f.zero
      own i j h k = elim (Bool-cases (i == j)) [
        | inl e ↦ rw e f.one-ne-zero
        | inr e ↦ rw e (λ z. cc (e, (==_iff i j).1 (row_point-injective i j h k (eq_of_sub z))))
      ]

  -- A polynomial of at most `n` coefficients whose value at the `i`-th point is the denominator, and
  -- zero at the others.
  pub record IsBasis (i n : ℕ) (state : List F × F) : Type ℓ where
    pub size : length state.0 ≤ n
    pub own : eval_poly_horner state.0 (row_point i) ≡ state.1
    pub not_zero : state.1 ≢ f.zero
    pub other : (m : ℕ) → i ≢ m → m < n → eval_poly_horner state.0 (row_point m) ≡ f.zero

  pub basis_loop-IsBasis :
      (i n : ℕ) → i < n → n ≤ p.order → IsBasis i n (basis_loop i 0 n (f.one ∷ [], f.one))
  basis_loop-IsBasis i n h k = record {
    size =
        omega (arith, (basis_loop-length i 0 n (f.one ∷ [], f.one)).1 (omega arith) (omega arith));
    own =
        basis_loop-value i 0 n (f.one ∷ [], f.one) (row_point i)
        ∙ ap (λ t. t ⊗ product i (row_point i) 0 n) (constant (row_point i))
        ∙ sym (basis_loop-denom i 0 n (f.one ∷ [], f.one));
    not_zero = λ z.
        product-ne-zero i 0 n (omega arith) (omega arith)
          (sym (f.one-mul _) ∙ sym (basis_loop-denom i 0 n (f.one ∷ [], f.one)) ∙ z);
    other = λ m ne lt.
        basis_loop-value i 0 n (f.one ∷ [], f.one) (row_point m)
        ∙ ap (f.mul (eval_poly_horner (f.one ∷ []) (row_point m)))
            (product-zero i m 0 n ne (omega arith) (omega arith))
        ∙ mul-zero _;
  }
