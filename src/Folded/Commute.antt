-- ===== src/Folded/Commute.antt =====
-- Binding and scaled sums of columns, for crates/oracle-layer/src/folded.rs.
use tscp_anchor.Prelude.{
  ℕ, zero, suc, ◌+◌, ◌*◌, ◌^◌, ◌≡◌, refl, sym, ap, ap₂, ◌∙◌, List, [], ◌∷◌, map, length, replicate,
  arith,
}
use tscp_anchor.Prelude.Bits.{pow_two-suc}
use tscp_anchor.Field.{Field, ◌⊗◌}
use tscp_anchor.Field.Ring.{ring, normal, x0, x1, x2, x3, x4, x5, plus, minus, times, unit, nought}
use tscp_anchor.Oracle.Mle.{bind, bind_all, length-bind}
use tscp_anchor.Folded.Fold.{Columns, none_left, column, add_scaled, add_columns, length-add_scaled}

module _ {ℓ} {F : Type ℓ} ⦃f : Field F⦄ where
  bind-add_scaled :
      (p c : F) (w v : List F)
      → length v ≡ length w
      → bind p (add_scaled c w v) ≡ add_scaled c (bind p w) (bind p v)
  unfolding bind add_scaled normal
  bind-add_scaled p c [] v h = refl
  bind-add_scaled p c (a ∷ w) [] h = absurd (omega arith)
  bind-add_scaled p c (a ∷ []) (v ∷ []) h = refl
  bind-add_scaled p c (a ∷ []) (v ∷ v' ∷ vs) h = absurd (omega arith)
  bind-add_scaled p c (a ∷ a' ∷ w) (v ∷ []) h = absurd (omega arith)
  bind-add_scaled p c (a ∷ a' ∷ w) (v ∷ v' ∷ vs) h =
      ap₂ (λ x t. x ∷ t)
        (ring (p ∷ c ∷ a ∷ a' ∷ v ∷ v' ∷ [])
          (plus (times (plus x2 (times x1 x4)) (minus unit x0)) (times (plus x3 (times x1 x5)) x0))
          (plus (plus (times x2 (minus unit x0)) (times x3 x0))
            (times x1 (plus (times x4 (minus unit x0)) (times x5 x0))))
          refl)
        (bind-add_scaled p c w vs (omega arith))

  same_bind : (p : F) (w v : List F) → length v ≡ length w → length (bind p v) ≡ length (bind p w)
  same_bind p w v h = omega (arith, length-bind p v, length-bind p w)

  bind_all-add_scaled :
      (ps : List F) (c : F) (w v : List F)
      → length v ≡ length w
      → bind_all ps (add_scaled c w v) ≡ add_scaled c (bind_all ps w) (bind_all ps v)
  unfolding bind_all
  bind_all-add_scaled [] c w v h = refl
  bind_all-add_scaled (p ∷ ps) c w v h =
      ap (bind_all ps) (bind-add_scaled p c w v h)
      ∙ bind_all-add_scaled ps c (bind p w) (bind p v) (same_bind p w v h)

  pub bind_all-add_columns :
      (n : ℕ) (ps : List F) (alpha c : F) {os : List (List F)} (w : List F)
      → length w ≡ n
      → Columns n os
      → bind_all ps (add_columns alpha c os w)
        ≡ add_columns alpha c (map (bind_all ps) os) (bind_all ps w)
  unfolding add_columns
  bind_all-add_columns n ps alpha c w hw none_left = refl
  bind_all-add_columns n ps alpha c w hw (column {o} {os} h rest) =
      bind_all-add_columns n ps alpha (c ⊗ alpha) (add_scaled c w o)
        (length-add_scaled c w o (h ∙ sym hw) ∙ hw) rest
      ∙ ap (add_columns alpha (c ⊗ alpha) (map (bind_all ps) os))
          (bind_all-add_scaled ps c w o (h ∙ sym hw))

  bind-replicate : (p : F) (m : ℕ) → bind p (replicate (2 * m) f.zero) ≡ replicate m f.zero
  unfolding bind normal
  bind-replicate p zero = refl
  bind-replicate p (suc m) =
      ap (λ k. bind p (replicate k f.zero)) {x = 2 * suc m} {y = suc (suc (2 * m))} (omega arith)
      ∙ ap₂ (λ x t. x ∷ t)
          (ring (p ∷ []) (plus (times nought (minus unit x0)) (times nought x0)) nought refl)
          (bind-replicate p m)

  pub bind_all-replicate :
      (ps : List F) (k : ℕ)
      → bind_all ps (replicate (2 ^ (length ps + k)) f.zero) ≡ replicate (2 ^ k) f.zero
  unfolding bind_all
  bind_all-replicate [] k = ap (λ j. replicate (2 ^ j) f.zero) {x = 0 + k} {y = k} (omega arith)
  bind_all-replicate (p ∷ ps) k =
      ap (λ j. bind_all ps (bind p (replicate j f.zero)))
        (ap (λ j. 2 ^ j) {x = suc (length ps) + k} {y = suc (length ps + k)} (omega arith)
          ∙ pow_two-suc (length ps + k))
      ∙ ap (bind_all ps) (bind-replicate p (2 ^ (length ps + k)))
      ∙ bind_all-replicate ps k
