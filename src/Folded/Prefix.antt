-- ===== src/Folded/Prefix.antt =====
-- `bind_prefix` and `test_commutation_law` of crates/oracle-layer/src/folded.rs.
use tscp_anchor.Prelude.{
  ℕ, zero, suc, ◌+◌, ◌^◌, ◌<◌, ◌≡◌, refl, sym, ap, ◌∙◌, true, Option, some, List, [], ◌∷◌, ◌++◌,
  map, length, length-append, length-replicate, get_elem?, get_or, set, replicate, ◌>>=◌, arith,
}
use mathlib.Core.List.{append_assoc}
use mathlib.Core.Path.{fun_ext}
use tscp_anchor.Prelude.Bits.{shl_one, shl_one-some, sub_usize, sub_usize-some}
use tscp_anchor.Field.{Field, ◌⊕◌, ◌⊗◌}
use tscp_anchor.Field.Laws.{beq_refl}
use tscp_anchor.Oracle.{evaluate_mle}
use tscp_anchor.Oracle.Mle.{bind_all, length-bind_all, evaluate_mle-mle, mle-append}
use tscp_anchor.Oracle.Cube.{corner, length-corner}
use tscp_anchor.Oracle.Corner.{mle-corner}
use tscp_anchor.Folded.{
  fold_column, fold_columns, bind_loop, bind_values, bind_prefix, bound_loop, bind_oracle,
  bind_columns, fold_bound_column, fold_bound, values_eq, test_commutation_law,
}
use tscp_anchor.Folded.Fold.{
  Columns, none_left, column, add_columns, folded, build_folded-Columns, fold_columns-add_columns,
  length-add_columns,
}
use tscp_anchor.Folded.Commute.{bind_all-add_columns, bind_all-replicate}

module _ {ℓ} {F : Type ℓ} ⦃f : Field F⦄ where
  -- The value at the first place behind the values before.
  get_or-append : (xs : List F) (y : F) (ys : List F) → get_or (xs ++ y ∷ ys) (length xs) f.zero ≡ y
  get_or-append [] y ys = refl
  get_or-append (x ∷ xs) y ys = get_or-append xs y ys

  module _ (values prefix : List F) (n k : ℕ) (small : n < 64) (size : length values ≡ 2 ^ n)
      (vars : n ≡ length prefix + k) where
    bound_size : length (bind_all prefix values) ≡ 2 ^ k
    bound_size = length-bind_all prefix values k (size ∙ ap (λ m. 2 ^ m) vars)

    point_size : (i : ℕ) → length (prefix ++ corner i 0 k) ≡ n
    point_size i = omega (arith, length-append prefix (corner i 0 k), length-corner F i 0 k)

    term :
        (i : ℕ)
        → i < 2 ^ k
        → evaluate_mle values (prefix ++ corner i 0 k)
          ≡ some (get_or (bind_all prefix values) i f.zero)
    term i h =
        evaluate_mle-mle values (prefix ++ corner i 0 k) (omega (arith, point_size i))
          (size ∙ ap (λ m. 2 ^ m) (sym (point_size i)))
        ∙ ap some (
            mle-append prefix (corner i 0 k) values
            ∙ mle-corner k i (bind_all prefix values) bound_size h)

    bind_loop-rest :
        (rest before : List F)
        → before ++ rest ≡ bind_all prefix values
        → bind_loop values prefix k (length before) (length rest) ≡ some rest
    unfolding bind_loop
    bind_loop-rest [] before h = refl
    bind_loop-rest (v ∷ rest) before h =
        rw
          (
            term (length before)
                (omega (arith, ap length h, length-append before (v ∷ rest), bound_size)),
            ap (λ t. get_or t (length before) f.zero) (sym h),
            get_or-append before v rest,
          )
          (ap (λ i. bind_loop values prefix k i (length rest) >>= λ vs. some (v ∷ vs))
              {x = suc (length before)} {y = length (before ++ v ∷ [])}
              (omega (arith, length-append before (v ∷ [])))
            ∙ rw (bind_loop-rest rest (before ++ v ∷ []) (append_assoc before (v ∷ []) rest ∙ h))
                refl)

    pub bind_values-bind_all : bind_values values n prefix ≡ some (bind_all prefix values)
    unfolding bind_values
    bind_values-bind_all =
        rw (sub_usize-some n (length prefix) k vars, shl_one-some k (omega (arith, vars)))
          (ap (bind_loop values prefix k 0) (sym bound_size)
            ∙ bind_loop-rest (bind_all prefix values) [] refl)

  -- The copies of the binding and of the fold in the law's test do what these do.
  bound_loop-bind_loop :
      (o prefix : List F) (remaining idx count : ℕ)
      → bound_loop o prefix remaining idx count ≡ bind_loop o prefix remaining idx count
  unfolding bound_loop bind_loop
  bound_loop-bind_loop o prefix remaining idx zero = refl
  bound_loop-bind_loop o prefix remaining idx (suc count) =
      rw (bound_loop-bind_loop o prefix remaining (suc idx) count) refl

  bind_oracle-bind_values :
      (o : List F) (n : ℕ) (prefix : List F) → bind_oracle o n prefix ≡ bind_values o n prefix
  unfolding bind_oracle bind_values
  bind_oracle-bind_values o n prefix =
      ap
        (λ (loop : ℕ → ℕ → Option (List F)). sub_usize n (length prefix) >>= λ remaining.
          shl_one remaining >>= λ size. loop remaining size)
        (fun_ext (λ remaining. fun_ext (λ size. bound_loop-bind_loop o prefix remaining 0 size)))

  fold_bound_column-fold_column :
      (coeff : F) (i : ℕ) (vs rhs : List F)
      → fold_bound_column coeff i vs rhs ≡ fold_column coeff i vs rhs
  unfolding fold_bound_column fold_column
  fold_bound_column-fold_column coeff i [] rhs = refl
  fold_bound_column-fold_column coeff i (v ∷ vs) rhs =
      ap (λ (k : F → Option (List F)). get_elem? rhs i >>= k)
        (fun_ext
          (λ old. fold_bound_column-fold_column coeff (suc i) vs (set rhs i (old ⊕ coeff ⊗ v))))

  fold_bound-fold_columns :
      (alpha coeff : F) (bs : List (List F)) (rhs : List F)
      → fold_bound alpha coeff bs rhs ≡ fold_columns alpha coeff bs rhs
  unfolding fold_bound fold_columns
  fold_bound-fold_columns alpha coeff [] rhs = refl
  fold_bound-fold_columns alpha coeff (b ∷ bs) rhs =
      rw (fold_bound_column-fold_column coeff 0 b rhs) (
        ap (λ (k : List F → Option (List F)). fold_column coeff 0 b rhs >>= k)
          (fun_ext (λ next. fold_bound-fold_columns alpha (coeff ⊗ alpha) bs next)))

  bind_columns-map :
      (prefix : List F) (n k : ℕ) {os : List (List F)}
      → n < 64
      → n ≡ length prefix + k
      → Columns (2 ^ n) os
      → bind_columns os n prefix ≡ some (map (bind_all prefix) os)
  unfolding bind_columns
  bind_columns-map prefix n k small vars none_left = refl
  bind_columns-map prefix n k small vars (column {o} {os} h rest) =
      rw
        (
          bind_oracle-bind_values o n prefix,
          bind_values-bind_all o prefix n k small h vars,
          bind_columns-map prefix n k small vars rest,
        )
        refl

  Columns-map :
      (prefix : List F) (n k : ℕ) {os : List (List F)}
      → n ≡ length prefix + k
      → Columns (2 ^ n) os
      → Columns (2 ^ k) (map (bind_all prefix) os)
  Columns-map prefix n k vars none_left = none_left
  Columns-map prefix n k vars (column {o} {os} h rest) =
      column (length-bind_all prefix o k (h ∙ ap (λ m. 2 ^ m) vars))
        (Columns-map prefix n k vars rest)

  values_eq_refl : (vs : List F) → values_eq vs vs ≡ true
  unfolding values_eq
  values_eq_refl [] = refl
  values_eq_refl (v ∷ vs) = rw (beq_refl {a = v} refl, values_eq_refl vs)

  -- The bound fold of columns is the fold of the bound columns.
  bind-folded :
      (alpha : F) (prefix : List F) (n k : ℕ) {os : List (List F)}
      → n ≡ length prefix + k
      → Columns (2 ^ n) os
      → bind_all prefix (folded alpha os (2 ^ n)) ≡ folded alpha (map (bind_all prefix) os) (2 ^ k)
  bind-folded alpha prefix n k {os} vars cs =
      bind_all-add_columns (2 ^ n) prefix alpha f.one (replicate (2 ^ n) f.zero)
        (length-replicate (2 ^ n) f.zero) cs
      ∙ ap (add_columns alpha f.one (map (bind_all prefix) os))
          (ap (λ m. bind_all prefix (replicate (2 ^ m) f.zero)) vars ∙ bind_all-replicate prefix k)

  -- On at least one column, all of 2^n values with n < 64, and a prefix of at most n coordinates,
  -- test_commutation_law returns true: to fold and bind gives what to bind and fold does.
  pub commutation_law :
      (alpha : F) (o : List F) (os : List (List F)) (prefix : List F) (n k : ℕ)
      → n < 64
      → n ≡ length prefix + k
      → Columns (2 ^ n) (o ∷ os)
      → test_commutation_law (o ∷ os) alpha prefix n ≡ some true
  unfolding test_commutation_law bind_prefix
  commutation_law alpha o os prefix n k small vars cs =
      rw
        (
          build_folded-Columns alpha o os n (2 ^ n) cs,
          bind_values-bind_all (folded alpha (o ∷ os) (2 ^ n)) prefix n k small
              (length-add_columns (2 ^ n) alpha f.one (replicate (2 ^ n) f.zero)
                (length-replicate (2 ^ n) f.zero) cs)
              vars,
          bind_columns-map prefix n k small vars cs,
          bind-folded alpha prefix n k vars cs,
          length-add_columns (2 ^ k) alpha f.one (replicate (2 ^ k) f.zero)
              (length-replicate (2 ^ k) f.zero) (Columns-map prefix n k vars cs),
          fold_bound-fold_columns alpha f.one (map (bind_all prefix) (o ∷ os))
              (replicate (2 ^ k) f.zero),
          fold_columns-add_columns (2 ^ k) alpha f.one (replicate (2 ^ k) f.zero)
              (length-replicate (2 ^ k) f.zero) (Columns-map prefix n k vars cs),
          values_eq_refl (folded alpha (map (bind_all prefix) (o ∷ os)) (2 ^ k)),
        )
        refl
