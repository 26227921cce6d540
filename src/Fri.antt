-- ===== src/Fri.antt =====
-- crates/oracle-layer/src/fri.rs: one folding step.
pub mod Fold
pub mod Poly
use tscp_anchor.Prelude.{
  ℕ, zero, suc, ◌+◌, ◌/◌, Bool, Option, some, List, [], ◌∷◌, length, get_elem?, take, map, ltb, leb,
  ◌==◌, ◌&&◌, check, ◌>>=◌, ◌>>◌,
}
use tscp_anchor.Prelude.Bits.{is_power_of_two}
use tscp_anchor.Field.{Field, ◌⊕◌, ◌⊖◌, ◌⊗◌, from_u64}

module _ {ℓ} {F : Type ℓ} ⦃f : Field F⦄ where
  -- `even_part + beta * odd_part`
  unfoldable pub folded_value : F → F → F → F → F → F
  folded_value two_inv x_inv beta p_x p_neg_x =
      (p_x ⊕ p_neg_x) ⊗ two_inv ⊕ beta ⊗ ((p_x ⊖ p_neg_x) ⊗ two_inv ⊗ x_inv)

  -- The closure of the map over `0..half`, at `i`.
  unfoldable pub fold_at : List F → List F → F → F → ℕ → ℕ → Option F
  fold_at evals domain beta two_inv half i = do
    x ← get_elem? domain i
    p_x ← get_elem? evals i
    p_neg_x ← get_elem? evals (i + half)
    x_inv ← f.inverse x
    some (folded_value two_inv x_inv beta p_x p_neg_x)

  unfoldable pub fold_loop : List F → List F → F → F → ℕ → ℕ → ℕ → Option (List F)
  fold_loop evals domain beta two_inv half i zero = some []
  fold_loop evals domain beta two_inv half i (suc count) = do
    v ← fold_at evals domain beta two_inv half i
    vs ← fold_loop evals domain beta two_inv half (suc i) count
    some (v ∷ vs)

  unfoldable pub fri_fold_step : List F → List F → F → Option (List F)
  fri_fold_step evals domain beta = do
    check (length domain == length evals)
    check (is_power_of_two (length evals) && leb 2 (length evals))
    two_inv ← f.inverse (from_u64 2)
    fold_loop evals domain beta two_inv (length evals / 2) 0 (length evals / 2)

  unfoldable pub fold_domain : List F → List F
  fold_domain domain = map (λ x. x ⊗ x) (take (length domain / 2) domain)
