-- ===== src/Fft/Interpolate.antt =====
-- `ifft` of crates/oracle-layer/src/fft.rs interpolates, and undoes `fft`.
use tscp_anchor.Prelude.{
  ℕ, zero, suc, ◌+◌, ◌-◌, ◌*◌, ◌^◌, ◌<◌, ◌≡◌, ◌≢◌, refl, sym, ap, ◌∙◌, some, List, [], ◌∷◌, length,
  length-map, get_or, map, arith,
}
use tscp_anchor.Prelude.Bits.{pow_two-suc, pow_two-pos, is_power_of_two, is_power_of_two-pow}
use tscp_anchor.Field.{Field, ◌⊕◌, ◌⊗◌, exp, from_u64}
use tscp_anchor.Field.Laws.{zero-mul, mul-one, eq_zero_of_mul, add-zero}
use tscp_anchor.Field.Ring.{ring, normal, x0, x1, x2, x3, plus, times, unit, nought, opp}
use tscp_anchor.Quotient.{eval_poly_horner}
use tscp_anchor.Fft.{fft_in_place, fft, ifft}
use tscp_anchor.Fft.Stages.{exp-mul}
use tscp_anchor.Fft.Evaluate.{Evaluations, fft_in_place-Evaluations, fft-Evaluations}
use tscp_anchor.Fft.Sums.{sum_below, sum-ext, horner-sum, exp-one}
use tscp_anchor.Fft.Inverse.{list_ext, get_or-map, Roots, Roots-flip, transform_twice}

module _ {ℓ} {F : Type ℓ} ⦃f : Field F⦄ where
  from_u64-add : (m n : ℕ) → from_u64 {F = F} (m + n) ≡ from_u64 m ⊕ from_u64 n
  unfolding from_u64
  from_u64-add m zero = ap (from_u64 {F = F}) {x = m + 0} {y = m} (omega arith) ∙ sym (add-zero _)
  from_u64-add m (suc n) =
      ap (from_u64 {F = F}) {x = m + suc n} {y = suc (m + n)} (omega arith)
      ∙ ap (λ t. t ⊕ f.one) (from_u64-add m n)
      ∙ f.add_assoc _ _ _

  from_u64_twice : (n : ℕ) → from_u64 {F = F} (2 * n) ≡ from_u64 2 ⊗ from_u64 n
  unfolding from_u64 normal
  from_u64_twice n =
      ap (from_u64 {F = F}) {x = 2 * n} {y = n + n} (omega arith)
      ∙ from_u64-add n n
      ∙ ring (from_u64 n ∷ []) (plus x0 x0) (times (plus (plus nought unit) unit) x0) refl

  -- Where 2 is not zero, no power of 2 is.
  pub from_u64_pow : (k : ℕ) → from_u64 {F = F} 2 ≢ f.zero → from_u64 {F = F} (2 ^ k) ≢ f.zero
  from_u64_pow zero two e = f.one-ne-zero (unfold from_u64 in sym (f.zero-add f.one) ∙ e)
  from_u64_pow (suc k) two e = from_u64_pow k two (
      eq_zero_of_mul two
        (sym (from_u64_twice (2 ^ k)) ∙ ap (from_u64 {F = F}) (sym (pow_two-suc k)) ∙ e))

  minus_one-ne-zero : f.neg f.one ≢ f.zero
  unfolding normal
  minus_one-ne-zero e = f.one-ne-zero (
      ring {F = F} [] unit (opp (opp unit)) refl
      ∙ ap f.neg e
      ∙ ring {F = F} [] (opp nought) nought refl)

  pub root-ne-zero : (k : ℕ) (root : F) → exp root (2 ^ k) ≡ f.neg f.one → root ≢ f.zero
  root-ne-zero k root turn e = minus_one-ne-zero (
      sym turn
      ∙ ap (λ x. exp x (2 ^ k)) e
      ∙ ap (exp f.zero) {x = 2 ^ k} {y = suc (2 ^ k - 1)} (omega (arith, pow_two-pos k))
      ∙ unfold exp in zero-mul (exp f.zero (2 ^ k - 1)))

  -- A root and its inverse.
  pub inverse-Roots :
      (k : ℕ) (root : F)
      → exp root (2 ^ k) ≡ f.neg f.one
      → (inv : F) × (f.inverse root ≡ some inv) × Roots k root inv
  unfolding normal
  inverse-Roots k root turn =
      let (inv, made, product) = f.inverse-some root (root-ne-zero k root turn) in
      (
        inv,
        made,
        record {
          product = product;
          turn = turn;
          turn_inv =
              ring (exp inv (2 ^ k) ∷ []) x0 (opp (times (opp unit) x0)) refl
              ∙ ap (λ t. f.neg (t ⊗ exp inv (2 ^ k))) (sym turn)
              ∙ ap f.neg (
                  sym (exp-mul root inv (2 ^ k))
                  ∙ ap (λ y. exp y (2 ^ k)) product
                  ∙ exp-one (2 ^ k));
        },
      )

  -- What the scaled transform at `inv` of values `e` is at a power of `root`.
  module _ (k : ℕ) (root inv n_inv : F) (r : Roots k root inv)
      (unit_n : from_u64 (2 ^ suc k) ⊗ n_inv ≡ f.one) where
    scaled_value :
        (e a : List F) (i : ℕ)
        → length e ≡ 2 ^ suc k
        → Evaluations e inv a
        → i < 2 ^ suc k
        → eval_poly_horner a (exp root i) ⊗ n_inv ≡ get_or e i f.zero
    scaled_value e a i size v lt =
        ap (λ t. t ⊗ n_inv)
          (horner-sum a (exp root i)
            ∙ ap (λ m. sum_below m (λ j. get_or a j f.zero ⊗ exp (exp root i) j)) (v.size ∙ size)
            ∙ sum-ext (2 ^ suc k) (λ j. get_or a j f.zero ⊗ exp (exp root i) j)
                (λ j.
                  sum_below (2 ^ suc k) (λ m. get_or e m f.zero ⊗ exp (exp inv j) m)
                  ⊗ exp (exp root i) j)
                (λ j lj.
                  ap (λ t. t ⊗ exp (exp root i) j)
                    (v.values j (omega (arith, size))
                      ∙ horner-sum e (exp inv j)
                      ∙ ap (λ m. sum_below m (λ q. get_or e q f.zero ⊗ exp (exp inv j) q)) size))
            ∙ transform_twice k root inv r (λ m. get_or e m f.zero) i lt)
        ∙ f.mul_assoc _ _ _
        ∙ ap (f.mul (get_or e i f.zero)) unit_n
        ∙ mul-one _

    horner-scaled :
        (a : List F) (x : F)
        → eval_poly_horner (map (λ y. y ⊗ n_inv) a) x ≡ eval_poly_horner a x ⊗ n_inv
    unfolding eval_poly_horner normal
    horner-scaled [] x = sym (zero-mul n_inv)
    horner-scaled (b ∷ a) x =
        ap (λ t. t ⊗ x ⊕ b ⊗ n_inv) (horner-scaled a x)
        ∙ ring (eval_poly_horner a x ∷ n_inv ∷ x ∷ b ∷ [])
            (plus (times (times x0 x1) x2) (times x3 x1)) (times (plus (times x0 x2) x3) x1) refl

  ifft_made :
      (e a : List F) (root inv n_inv : F) (k : ℕ)
      → length e ≡ 2 ^ suc k
      → f.inverse root ≡ some inv
      → fft_in_place e inv ≡ some a
      → f.inverse (from_u64 (2 ^ suc k)) ≡ some n_inv
      → ifft e root ≡ some (map (λ y. y ⊗ n_inv) a)
  unfolding ifft
  ifft_made e a root inv n_inv k size hi made hn =
      rw (ap is_power_of_two size ∙ is_power_of_two-pow (suc k), hi, made, size, hn) refl

  -- On 2^(k+1) values, with a root whose power at half of that is -1 and where 2 is not zero, ifft
  -- returns as many coefficients, of a polynomial with these values at the powers of the root.
  pub ifft_interpolates :
      (evals : List F) (root : F) (k : ℕ)
      → length evals ≡ 2 ^ suc k
      → exp root (2 ^ k) ≡ f.neg f.one
      → from_u64 2 ≢ f.zero
      → (c : List F) × (ifft evals root ≡ some c)
        × (length c ≡ length evals)
        × ((i : ℕ) → i < length evals → eval_poly_horner c (exp root i) ≡ get_or evals i f.zero)
  ifft_interpolates evals root k size turn two =
      let (inv, hi, r) = inverse-Roots k root turn in
      let (n_inv, hn, unit_n) = f.inverse-some (from_u64 (2 ^ suc k)) (from_u64_pow (suc k) two) in
      let (a, made, v) = fft_in_place-Evaluations evals inv k size r.turn_inv in
      (
        map (λ y. y ⊗ n_inv) a,
        ifft_made evals a root inv n_inv k size hi made hn,
        length-map a (λ y. y ⊗ n_inv) ∙ v.size,
        λ i lt.
            horner-scaled k root inv n_inv r unit_n a (exp root i)
            ∙ scaled_value k root inv n_inv r unit_n evals a i size v (omega (arith, size)),
      )

  -- On 2^(k+1) coefficients, with a root whose power at half of that is -1 and where 2 is not zero,
  -- ifft undoes fft.
  pub ifft-fft :
      (coeffs : List F) (root : F) (k : ℕ)
      → length coeffs ≡ 2 ^ suc k
      → exp root (2 ^ k) ≡ f.neg f.one
      → from_u64 2 ≢ f.zero
      → (evals : List F) × (fft coeffs root ≡ some evals) × (ifft evals root ≡ some coeffs)
  ifft-fft coeffs root k size turn two =
      let (evals, made, v) = fft-Evaluations coeffs root k size turn in
      let (inv, hi, r) = inverse-Roots k root turn in
      let (n_inv, hn, unit_n) = f.inverse-some (from_u64 (2 ^ suc k)) (from_u64_pow (suc k) two) in
      let (a, made', w) = fft_in_place-Evaluations evals inv k (v.size ∙ size) r.turn_inv in
      (
        evals,
        made,
        ifft_made evals a root inv n_inv k (v.size ∙ size) hi made' hn
            ∙ ap some (
                list_ext f.zero (map (λ y. y ⊗ n_inv) a) coeffs
                  (length-map a (λ y. y ⊗ n_inv) ∙ w.size ∙ v.size)
                  (λ i lt.
                    get_or-map (λ y. y ⊗ n_inv) a i f.zero
                      (omega (arith, length-map a (λ y. y ⊗ n_inv)))
                    ∙ ap (λ t. t ⊗ n_inv)
                        (w.values i (omega (arith, length-map a (λ y. y ⊗ n_inv), w.size)))
                    ∙ scaled_value k inv root n_inv (Roots-flip k root inv r) unit_n coeffs evals i
                        size v
                        (omega (arith, length-map a (λ y. y ⊗ n_inv), w.size, v.size, size)))),
      )
