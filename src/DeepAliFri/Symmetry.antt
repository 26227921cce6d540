-- ===== src/DeepAliFri/Symmetry.antt =====
-- The domain of crates/prover-server/src/deep_ali_fri.rs under the foldings of FRI.
use mathlib.Core.Path.{subst}
use tscp_anchor.Prelude.{
  ℕ, zero, suc, ◌+◌, ◌/◌, ◌^◌, ◌<◌, ◌≤◌, ◌≡◌, refl, sym, ap, ap₂, ◌∙◌, some, [], ◌∷◌, map, take,
  length, get_elem?, eq_of_some, arith,
}
use tscp_anchor.Prelude.Bits.{pow_two-suc}
use tscp_anchor.Field.{Field, ◌⊖◌, ◌⊗◌, exp}
use tscp_anchor.Field.Ring.{ring, normal, x0, times, minus, unit, nought}
use tscp_anchor.Quotient.Horner.{exp-add}
use tscp_anchor.Fft.Stages.{exp-mul}
use tscp_anchor.Fri.{fold_domain}
use tscp_anchor.Fri.Poly.{IsSymmetric}
use tscp_anchor.FriQuery.Folds.{Symmetric, ends, folds}
use tscp_anchor.DeepAliFri.{powers_loop}
use tscp_anchor.DeepAliFri.Domain.{length-powers_loop, powers_loop_entry}

module _ {ℓ} {F : Type ℓ} ⦃f : Field F⦄ where
  squares-powers_loop :
      (w : F) (i n m : ℕ)
      → n ≤ m
      → map (λ x. x ⊗ x) (take n (powers_loop w i m)) ≡ powers_loop (w ⊗ w) i n
  unfolding powers_loop
  squares-powers_loop w i zero m h = refl
  squares-powers_loop w i (suc n) zero h = absurd (omega arith)
  squares-powers_loop w i (suc n) (suc m) h =
      ap₂ ◌∷◌ (sym (exp-mul w w i)) (squares-powers_loop w (suc i) n m (omega arith))

  negated : (x : F) → x ⊗ f.neg f.one ≡ f.zero ⊖ x
  unfolding normal
  negated x =
      ap (f.mul x) (sym (f.sub_lem f.zero f.one ∙ f.zero-add (f.neg f.one)))
      ∙ ring (x ∷ []) (times x0 (minus nought unit)) (minus nought x0) refl

  module _ (w : F) (k : ℕ) (turn : exp w (2 ^ k) ≡ f.neg f.one) where
    half_size : length (powers_loop w 0 (2 ^ suc k)) / 2 ≡ 2 ^ k
    half_size = omega (arith, length-powers_loop w 0 (2 ^ suc k), pow_two-suc k)

    powers_loop-IsSymmetric : IsSymmetric (powers_loop w 0 (2 ^ suc k))
    powers_loop-IsSymmetric = record { opposite = opposite }
      where
        opposite :
            (i : ℕ) (x : F)
            → i < length (powers_loop w 0 (2 ^ suc k)) / 2
            → get_elem? (powers_loop w 0 (2 ^ suc k)) i ≡ some x
            → get_elem? (powers_loop w 0 (2 ^ suc k)) (i + length (powers_loop w 0 (2 ^ suc k)) / 2)
              ≡ some (f.zero ⊖ x)
        opposite i x less e =
            ap (λ n. get_elem? (powers_loop w 0 (2 ^ suc k)) (i + n)) half_size
            ∙ powers_loop_entry w 0 (2 ^ suc k) (i + 2 ^ k)
                (omega (arith, less, half_size, pow_two-suc k))
            ∙ ap some (
                ap (exp w) {x = 0 + (i + 2 ^ k)} {y = 0 + i + 2 ^ k} (omega arith)
                ∙ exp-add w (0 + i) (2 ^ k)
                ∙ ap₂ ◌⊗◌
                    (eq_of_some (
                      sym (
                        powers_loop_entry w 0 (2 ^ suc k) i
                          (omega (arith, less, half_size, pow_two-suc k)))
                      ∙ e))
                    turn
                ∙ negated x)

    fold_domain-powers_loop :
        fold_domain (powers_loop w 0 (2 ^ suc k)) ≡ powers_loop (w ⊗ w) 0 (2 ^ k)
    unfolding fold_domain
    fold_domain-powers_loop =
        ap (λ n. map (λ x. x ⊗ x) (take n (powers_loop w 0 (2 ^ suc k)))) half_size
        ∙ squares-powers_loop w 0 (2 ^ k) (2 ^ suc k) (omega (arith, pow_two-suc k))

  -- The powers of a root of -1 stay so under every folding.
  pub powers_loop-Symmetric :
      (k : ℕ) (w : F)
      → exp w (2 ^ k) ≡ f.neg f.one
      → Symmetric (suc k) (powers_loop w 0 (2 ^ suc k))
  powers_loop-Symmetric zero w turn = folds 0 _ (powers_loop-IsSymmetric w 0 turn) (ends _)
  powers_loop-Symmetric (suc k) w turn = folds (suc k) _ (powers_loop-IsSymmetric w (suc k) turn) (
      subst (Symmetric (suc k)) (sym (fold_domain-powers_loop w (suc k) turn)) (
        powers_loop-Symmetric k (w ⊗ w) (
          exp-mul w w (2 ^ k)
          ∙ sym (exp-add w (2 ^ k) (2 ^ k))
          ∙ ap (exp w) {x = 2 ^ k + 2 ^ k} {y = 2 ^ suc k} (omega (arith, pow_two-suc k))
          ∙ turn)))
