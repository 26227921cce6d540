-- ===== src/Oracle/Cube.antt =====
-- The loops `(0..size).map(|idx| oracle.eval(..)).fold(F::ZERO, |a, b| a + b)` over the corners of a
-- hypercube, which sumcheck.rs, main.rs and folded.rs share, and what they add up to.
use tscp_anchor.Prelude.{
  ℕ, zero, suc, ◌*◌, ◌/◌, ◌%◌, ◌^◌, ◌≡◌, refl, sym, ap, ap₂, ◌∙◌, true, false, Option, some, List,
  [], ◌∷◌, length, if◌then◌else◌, ◌==◌, arith, ◌>>=◌,
}
use tscp_anchor.Prelude.Bits.{bit, bit-zero, bit-suc, pow_two-suc}
use tscp_anchor.Field.{Field, ◌⊕◌, ◌⊖◌, ◌⊗◌}
use tscp_anchor.Field.Laws.{add-zero}
use tscp_anchor.Field.Ring.{ring, normal, x0, x1, x2, x3, x4, plus, minus, times, unit, nought}
use tscp_anchor.Oracle.Mle.{bind, bind_all, mle, head_or, length-bind_pow}

module _ {ℓ} {F : Type ℓ} ⦃f : Field F⦄ where
  -- `if (idx >> i) & 1 == 1 { F::ONE } else { F::ZERO }`, for `i` from the given one on.
  unfoldable pub corner : ℕ → ℕ → ℕ → List F
  corner idx i zero = []
  corner idx i (suc n) = (if bit idx i == 1 then f.one else f.zero) ∷ corner idx (suc i) n

  -- The sum of `g` over `count` indices from `idx` on.
  unfoldable pub sum_range : ℕ → ℕ → F → (ℕ → Option F) → Option F
  sum_range zero idx acc g = some acc
  sum_range (suc count) idx acc g = do v ← g idx; sum_range count (suc idx) (acc ⊕ v) g

  pub total : ℕ → ℕ → (ℕ → F) → F
  total zero idx h = f.zero
  total (suc count) idx h = h idx ⊕ total count (suc idx) h

  -- A sum whose terms all return is a total.
  pub sum_range-total :
      (count idx : ℕ) (acc : F) (g : ℕ → Option F) (h : ℕ → F)
      → ((i : ℕ) → g i ≡ some (h i))
      → sum_range count idx acc g ≡ some (acc ⊕ total count idx h)
  unfolding sum_range total
  sum_range-total zero idx acc g h e = ap some (sym (add-zero acc))
  sum_range-total (suc count) idx acc g h e =
      rw (e idx) (sum_range-total count (suc idx) (acc ⊕ h idx) g h e ∙ ap some (f.add_assoc _ _ _))

  total_congr :
      (count idx : ℕ) {h k : ℕ → F} → ((i : ℕ) → h i ≡ k i) → total count idx h ≡ total count idx k
  unfolding total
  total_congr zero idx e = refl
  total_congr (suc count) idx e = ap₂ f.add (e idx) (total_congr count (suc idx) e)

  -- A total over an even range, two by two.
  total_pairs :
      (m idx : ℕ) (h k : ℕ → F)
      → ((i : ℕ) → h (2 * i) ⊕ h (suc (2 * i)) ≡ k i)
      → total (2 * m) (2 * idx) h ≡ total m idx k
  unfolding total
  total_pairs zero idx h k e = refl
  total_pairs (suc m) idx h k e =
      ap (λ c. total c (2 * idx) h) {x = 2 * suc m} {y = suc (suc (2 * m))} (omega arith)
      ∙ sym (f.add_assoc _ _ _)
      ∙ ap₂ f.add (e idx) (
          ap (λ i. total (2 * m) i h) {x = suc (suc (2 * idx))} {y = 2 * suc idx} (omega arith)
          ∙ total_pairs m (suc idx) h k e)

  total-add :
      (m idx : ℕ) (h k : ℕ → F) → total m idx (λ i. h i ⊕ k i) ≡ total m idx h ⊕ total m idx k
  unfolding total normal
  total-add zero idx h k = sym (f.zero-add _)
  total-add (suc m) idx h k =
      ap (f.add _) (total-add m (suc idx) h k)
      ∙ ring (h idx ∷ k idx ∷ total m (suc idx) h ∷ total m (suc idx) k ∷ [])
          (plus (plus x0 x1) (plus x2 x3)) (plus (plus x0 x2) (plus x1 x3)) refl

  corner-suc : (idx i n : ℕ) → corner idx (suc i) n ≡ corner (idx / 2) i n
  unfolding corner
  corner-suc idx i zero = refl
  corner-suc idx i (suc n) = rw (bit-suc idx i, corner-suc idx (suc i) n)

  pub corner_even : (j n : ℕ) → corner (2 * j) 0 (suc n) ≡ f.zero ∷ corner j 0 n
  unfolding corner
  corner_even j n = rw (bit-zero (2 * j), corner-suc (2 * j) 0 n, half, even)
    where
      half : 2 * j / 2 ≡ j
      half = omega arith

      even : (2 * j % 2 == 1) ≡ false
      even = ground arith

  pub corner_odd : (j n : ℕ) → corner (suc (2 * j)) 0 (suc n) ≡ f.one ∷ corner j 0 n
  unfolding corner
  corner_odd j n = rw (bit-zero (suc (2 * j)), corner-suc (suc (2 * j)) 0 n, half, odd)
    where
      half : suc (2 * j) / 2 ≡ j
      half = omega arith

      odd : (suc (2 * j) % 2 == 1) ≡ true
      odd = ground arith

  -- The sum of a table.
  unfoldable pub sum : List F → F
  sum [] = f.zero
  sum (v ∷ vs) = v ⊕ sum vs

  -- A bound table adds up to the interpolation between its sums at the two corners.
  pub sum-bind :
      (r : F) (vs : List F)
      → sum (bind r vs) ≡ sum (bind f.zero vs) ⊕ r ⊗ (sum (bind f.one vs) ⊖ sum (bind f.zero vs))
  unfolding sum bind normal
  sum-bind r [] = ring (r ∷ []) nought (plus nought (times x0 (minus nought nought))) refl
  sum-bind r (a ∷ []) = ring (r ∷ []) nought (plus nought (times x0 (minus nought nought))) refl
  sum-bind r (a ∷ b ∷ vs) =
      ap (f.add _) (sum-bind r vs)
      ∙ ring (r ∷ a ∷ b ∷ sum (bind f.zero vs) ∷ sum (bind f.one vs) ∷ [])
          (plus (plus (times x1 (minus unit x0)) (times x2 x0)) (plus x3 (times x0 (minus x4 x3))))
          (plus (plus (plus (times x1 (minus unit nought)) (times x2 nought)) x3) (
            times x0 (
              minus (plus (plus (times x1 (minus unit unit)) (times x2 unit)) x4)
                (plus (plus (times x1 (minus unit nought)) (times x2 nought)) x3))))
          refl

  -- The two halves add up to the whole.
  pub sum-bind_corners :
      (vs : List F) (m : ℕ)
      → length vs ≡ 2 * m
      → sum (bind f.zero vs) ⊕ sum (bind f.one vs) ≡ sum vs
  unfolding sum bind normal
  sum-bind_corners [] m h = f.zero-add _
  sum-bind_corners (a ∷ []) m h = absurd (omega arith)
  sum-bind_corners (a ∷ b ∷ vs) zero h = absurd (omega arith)
  sum-bind_corners (a ∷ b ∷ vs) (suc m) h =
      ring (a ∷ b ∷ sum (bind f.zero vs) ∷ sum (bind f.one vs) ∷ [])
        (plus (plus (plus (times x0 (minus unit nought)) (times x1 nought)) x2)
          (plus (plus (times x0 (minus unit unit)) (times x1 unit)) x3))
        (plus x0 (plus x1 (plus x2 x3))) refl
      ∙ ap (λ t. a ⊕ (b ⊕ t)) (sum-bind_corners vs m (omega arith))

  -- The extension adds up over the corners of the cube to the sum of the table.
  pub total-mle :
      (n : ℕ) (vs : List F)
      → length vs ≡ 2 ^ n
      → total (2 ^ n) 0 (λ i. mle (corner i 0 n) vs) ≡ sum vs
  unfolding total
  total-mle zero vs h = single vs h
    where
      single : (vs : List F) → length vs ≡ 1 → total 1 0 (λ i. mle (corner i 0 0) vs) ≡ sum vs
      single [] h = absurd (omega arith)
      single (v ∷ []) h = unfold mle bind_all head_or corner sum in refl
      single (v ∷ w ∷ vs) h = absurd (omega arith)
  total-mle (suc n) vs h =
      ap (λ c. total c 0 (λ i. mle (corner i 0 (suc n)) vs)) (pow_two-suc n)
      ∙ total_pairs (2 ^ n) 0 _ _ (λ i. ap₂ f.add (low i) (high i))
      ∙ total-add (2 ^ n) 0 _ _
      ∙ ap₂ f.add (total-mle n (bind f.zero vs) (length-bind_pow _ vs n h))
          (total-mle n (bind f.one vs) (length-bind_pow _ vs n h))
      ∙ sum-bind_corners vs (2 ^ n) (h ∙ pow_two-suc n)
    where
      low : (i : ℕ) → mle (corner (2 * i) 0 (suc n)) vs ≡ mle (corner i 0 n) (bind f.zero vs)
      low i = ap (λ ps. mle ps vs) (corner_even i n) ∙ unfold mle bind_all in refl

      high : (i : ℕ) → mle (corner (suc (2 * i)) 0 (suc n)) vs ≡ mle (corner i 0 n) (bind f.one vs)
      high i = ap (λ ps. mle ps vs) (corner_odd i n) ∙ unfold mle bind_all in refl

module _ {ℓ} (F : Type ℓ) ⦃f : Field F⦄ where
  pub length-corner : (idx i n : ℕ) → length {A = F} (corner idx i n) ≡ n
  unfolding corner
  length-corner idx i zero = refl
  length-corner idx i (suc n) = ap suc (length-corner idx (suc i) n)
