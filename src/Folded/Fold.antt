-- ===== src/Folded/Fold.antt =====
-- The fold of columns of crates/oracle-layer/src/folded.rs, position by position.
use tscp_anchor.Prelude.{
  ℕ, suc, ◌≡◌, refl, sym, ap, ◌∙◌, some, List, [], ◌∷◌, ◌++◌, length, length-append, get_elem?, set,
  replicate, length-replicate, arith,
}
use mathlib.Core.List.{append_assoc}
use tscp_anchor.Field.{Field, ◌⊕◌, ◌⊗◌}
use tscp_anchor.Folded.{fold_column, fold_columns, build_folded, absorb_challenge, new}

module _ {ℓ} {A : Type ℓ} where
  pub get_elem?-append :
      (xs : List A) (y : A) (ys : List A) → get_elem? (xs ++ y ∷ ys) (length xs) ≡ some y
  get_elem?-append [] y ys = refl
  get_elem?-append (x ∷ xs) y ys = get_elem?-append xs y ys

  set-append :
      (xs : List A) (y z : A) (ys : List A) → set (xs ++ y ∷ ys) (length xs) z ≡ xs ++ z ∷ ys
  set-append [] y z ys = refl
  set-append (x ∷ xs) y z ys = ap (λ t. x ∷ t) (set-append xs y z ys)

-- The columns all have one length.
pub data Columns {ℓ} {F : Type ℓ} (n : ℕ) : List (List F) → Type ℓ where
  none_left : Columns n []
  column : {o : List F} {os : List (List F)} → length o ≡ n → Columns n os → Columns n (o ∷ os)

module _ {ℓ} {F : Type ℓ} ⦃f : Field F⦄ where
  unfoldable pub add_scaled : F → List F → List F → List F
  add_scaled c (a ∷ w) (v ∷ vs) = (a ⊕ c ⊗ v) ∷ add_scaled c w vs
  add_scaled c _ _ = []

  -- Every column, scaled by the next power of `alpha`, added to `w`.
  unfoldable pub add_columns : F → F → List (List F) → List F → List F
  add_columns alpha c [] w = w
  add_columns alpha c (o ∷ os) w = add_columns alpha (c ⊗ alpha) os (add_scaled c w o)

  pub length-add_scaled :
      (c : F) (w v : List F) → length v ≡ length w → length (add_scaled c w v) ≡ length w
  unfolding add_scaled
  length-add_scaled c [] [] h = refl
  length-add_scaled c [] (v ∷ vs) h = refl
  length-add_scaled c (a ∷ w) [] h = absurd (omega arith)
  length-add_scaled c (a ∷ w) (v ∷ vs) h = omega (arith, length-add_scaled c w vs (omega arith))

  fold_column-add_scaled :
      (c : F) (before w v : List F)
      → length v ≡ length w
      → fold_column c (length before) v (before ++ w) ≡ some (before ++ add_scaled c w v)
  unfolding fold_column add_scaled
  fold_column-add_scaled c before [] [] h = refl
  fold_column-add_scaled c before [] (v ∷ vs) h = absurd (omega arith)
  fold_column-add_scaled c before (a ∷ w) [] h = absurd (omega arith)
  fold_column-add_scaled c before (a ∷ w) (v ∷ vs) h =
      rw (get_elem?-append before a w, set-append before a (a ⊕ c ⊗ v) w)
        (ap (λ i. fold_column c i vs (before ++ (a ⊕ c ⊗ v) ∷ w)) {x = suc (length before)}
            {y = length (before ++ (a ⊕ c ⊗ v) ∷ [])}
            (omega (arith, length-append before ((a ⊕ c ⊗ v) ∷ [])))
          ∙ ap (fold_column c _ vs) (sym (append_assoc before ((a ⊕ c ⊗ v) ∷ []) w))
          ∙ fold_column-add_scaled c (before ++ (a ⊕ c ⊗ v) ∷ []) w vs (omega arith)
          ∙ ap some (append_assoc before ((a ⊕ c ⊗ v) ∷ []) (add_scaled c w vs)))

  pub fold_columns-add_columns :
      (n : ℕ) (alpha c : F) {os : List (List F)} (w : List F)
      → length w ≡ n
      → Columns n os
      → fold_columns alpha c os w ≡ some (add_columns alpha c os w)
  unfolding fold_columns add_columns
  fold_columns-add_columns n alpha c w hw none_left = refl
  fold_columns-add_columns n alpha c w hw (column {o} {os} h rest) =
      rw (fold_column-add_scaled c [] w o (h ∙ sym hw)) (
        fold_columns-add_columns n alpha (c ⊗ alpha) (add_scaled c w o)
          (length-add_scaled c w o (h ∙ sym hw) ∙ hw) rest)

  pub length-add_columns :
      (n : ℕ) (alpha c : F) {os : List (List F)} (w : List F)
      → length w ≡ n
      → Columns n os
      → length (add_columns alpha c os w) ≡ n
  unfolding add_columns
  length-add_columns n alpha c w hw none_left = hw
  length-add_columns n alpha c w hw (column {o} {os} h rest) =
      length-add_columns n alpha (c ⊗ alpha) (add_scaled c w o)
        (length-add_scaled c w o (h ∙ sym hw) ∙ hw) rest

  -- The values of the fold, from zero.
  abbrev pub folded : F → List (List F) → ℕ → List F
  folded alpha os n = add_columns alpha f.one os (replicate n f.zero)

  -- The builder returns on at least one column, all of one length.
  pub build_folded-Columns :
      (alpha : F) (o : List F) (os : List (List F)) (n_vars n : ℕ)
      → Columns n (o ∷ os)
      → build_folded (absorb_challenge (new (o ∷ os) n_vars) alpha)
        ≡ some (record { values = folded alpha (o ∷ os) n; n_vars = n_vars; alpha = alpha })
  unfolding build_folded absorb_challenge new
  build_folded-Columns alpha o os n_vars n (column h rest) =
      rw
        (
          h,
          fold_columns-add_columns n alpha f.one (replicate n f.zero) (length-replicate n f.zero)
              (column h rest),
        )
        refl
