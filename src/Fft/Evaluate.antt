-- ===== src/Fft/Evaluate.antt =====
-- `fft` of crates/oracle-layer/src/fft.rs evaluates a polynomial at the powers of the root.
use tscp_anchor.Prelude.{
  ℕ, suc, ◌+◌, ◌*◌, ◌^◌, ◌<◌, ◌≡◌, sym, ap, ap₂, ◌∙◌, false, some, List, length, get_or, leb, arith,
}
use tscp_anchor.Prelude.Bits.{
  pow_two-suc, pow_two-pos, lt-pow_two, is_power_of_two, is_power_of_two-pow, trailing_zeros-pow,
}
use tscp_anchor.Field.{Field, ◌⊕◌, exp}
use tscp_anchor.Field.Laws.{add-zero, mul-zero}
use tscp_anchor.Quotient.{eval_poly_horner}
use tscp_anchor.Fft.{reverse_bits, permute_loop, stage_loop, fft_in_place, fft}
use tscp_anchor.Fft.Permute.{permute_loop-reverse}
use tscp_anchor.Fft.Stages.{stride, stride-horner, Transformed}
use tscp_anchor.Fft.Rounds.{stages}

module _ {ℓ} {F : Type ℓ} ⦃f : Field F⦄ where
  -- The values of the polynomial of `c` at the powers of `root`.
  pub record Evaluations (c : List F) (root : F) (a : List F) : Type ℓ where
    pub size : length a ≡ length c
    pub values : (t : ℕ) → t < length c → get_or a t f.zero ≡ eval_poly_horner c (exp root t)

  initial :
      (c r : List F) (root : F) (k : ℕ)
      → ((p : ℕ) → p < 2 ^ k → get_or r p f.zero ≡ get_or c (reverse_bits p k) f.zero)
      → Transformed c root 0 k r
  unfolding stride
  initial c r root k moved = record {
    values = λ b t lb lt.
        ap (λ p. get_or r p f.zero) {x = b * 1 + t} {y = b} (omega arith)
        ∙ moved b lb
        ∙ sym (add-zero _)
        ∙ ap (λ x. get_or c (reverse_bits b k) f.zero ⊕ x)
            (sym (mul-zero (exp (exp root (2 ^ k)) t)));
  }

  final_values :
      (c a : List F) (root : F) (k : ℕ)
      → length c ≡ 2 ^ k
      → length a ≡ 2 ^ k
      → Transformed c root k 0 a
      → Evaluations c root a
  unfolding reverse_bits exp
  final_values c a root k size size' t = record {
    size = size' ∙ sym size;
    values = λ i lt.
        ap (λ p. get_or a p f.zero) {x = i} {y = 0 * 2 ^ k + i} (omega arith)
        ∙ t.values 0 i (omega arith) (omega arith)
        ∙ ap₂ (λ n x. stride c n 1 0 (exp x i)) (sym size) (f.mul_comm root f.one ∙ f.one-mul root)
        ∙ stride-horner c (exp root i);
  }

  -- On 2^(k+1) coefficients, with a root whose power at half of that is -1.
  pub fft_in_place-Evaluations :
      (c : List F) (root : F) (k : ℕ)
      → length c ≡ 2 ^ suc k
      → exp root (2 ^ k) ≡ f.neg f.one
      → (a : List F) × (fft_in_place c root ≡ some a) × Evaluations c root a
  fft_in_place-Evaluations c root k size turn =
      let (r, moved, size_r, at_r) = permute_loop-reverse (suc k) f.zero c size in
      let (a, made, size_a, t) =
        stages c root (suc k) (suc (2 ^ suc k)) (suc k) 0 r (omega (arith, lt-pow_two (suc k)))
          (omega arith) (λ j e. ap (λ n. exp root (2 ^ n)) {x = j} {y = k} (omega arith) ∙ turn)
          size_r (initial c r root (suc k) at_r) in
      (a, run r a moved made, final_values c a root (suc k) size size_a t)
    where
      big : (n m : ℕ) → 0 < m → n ≡ 2 * m → leb n 1 ≡ false
      big n m h e = ground arith

      run :
          (r a : List F)
          → permute_loop (suc k) (2 ^ suc k) 0 c ≡ some r
          → stage_loop (suc (2 ^ suc k)) root (2 ^ suc k) (2 * 2 ^ 0) r ≡ some a
          → fft_in_place c root ≡ some a
      run r a moved made =
          unfold fft_in_place in
          rw
            (
              big (length c) (2 ^ k) (pow_two-pos k) (size ∙ pow_two-suc k),
              size,
              trailing_zeros-pow (suc k),
              moved,
            )
            made

  -- On 2^(k+1) coefficients, with a root whose power at half of that is -1, fft returns the values
  -- of their polynomial at the powers of the root, in their order.
  pub fft-Evaluations :
      (c : List F) (root : F) (k : ℕ)
      → length c ≡ 2 ^ suc k
      → exp root (2 ^ k) ≡ f.neg f.one
      → (a : List F) × (fft c root ≡ some a) × Evaluations c root a
  unfolding fft
  fft-Evaluations c root k size turn =
      let (a, made, values) = fft_in_place-Evaluations c root k size turn in
      (a, rw (ap is_power_of_two size ∙ is_power_of_two-pow (suc k)) made, values)
