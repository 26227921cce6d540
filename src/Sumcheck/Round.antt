-- ===== src/Sumcheck/Round.antt =====
-- `sumcheck_round` of crates/oracle-layer/src/sumcheck.rs over the multilinear extension of a table.
use tscp_anchor.Prelude.{
  ℕ, suc, ◌+◌, ◌-◌, ◌^◌, ◌<◌, ◌≡◌, refl, sym, ap, ◌∙◌, lt→ltb, some, List, [], ◌∷◌, ◌++◌, length,
  length-append, arith,
}
use tscp_anchor.Prelude.Bits.{shl_one, shl_one-some, sub_usize-some}
use tscp_anchor.Field.{Field}
use tscp_anchor.Oracle.{MleOracle, evaluate_mle}
use tscp_anchor.Oracle.Mle.{
  evaluate_mle-mle, bind, bind_all, mle, mle-append, bind_all-snoc, length-bind_all,
  length-bind_pow,
}
use tscp_anchor.Oracle.Cube.{corner, sum_range, sum_range-total, total-mle, sum, length-corner}
use tscp_anchor.Sumcheck.{eval_at, sumcheck_round}

-- An oracle that answers with the multilinear extension of a table of 2^n values.
pub record Extends {ℓ} {F : Type ℓ} ⦃f : Field F⦄ (vs : List F) (n : ℕ) (oracle : MleOracle F)
    : Type ℓ where
  pub vars : oracle.n_vars ≡ n
  pub small : n < 64
  pub size : length vs ≡ 2 ^ n
  pub answers : (ps : List F) → length ps ≡ n → oracle.eval ps ≡ some (mle ps vs)

-- `evaluate_mle` on a table of 2^n values is an oracle of it.
pub evaluate_mle-Extends {ℓ} :
    {F : Type ℓ} ⦃f : Field F⦄ (vs : List F) (n : ℕ)
    → n < 64
    → length vs ≡ 2 ^ n
    → Extends vs n (record { n_vars = n; eval = evaluate_mle vs })
evaluate_mle-Extends vs n h size = record {
  vars = refl;
  small = h;
  size = size;
  answers = λ ps hp. evaluate_mle-mle vs ps (omega arith) (size ∙ ap (λ m. 2 ^ m) (sym hp));
}

module _ {ℓ} {F : Type ℓ} ⦃f : Field F⦄ {vs : List F} {n : ℕ} {oracle : MleOracle F}
    (ext : Extends vs n oracle) where
  -- The closure sums the table with the prefix and one more variable bound.
  eval_at-sum :
      (prefix : List F) (k : ℕ) (b : F)
      → length prefix + suc k ≡ n
      → eval_at oracle prefix (suc k) (2 ^ k) b ≡ some (sum (bind b (bind_all prefix vs)))
  unfolding eval_at
  eval_at-sum prefix k b h =
      ap (λ m. sum_range (2 ^ k) 0 f.zero (λ i. oracle.eval ((prefix ++ b ∷ []) ++ corner i 0 m)))
        {x = suc k - 1} {y = k} (omega arith)
      ∙ sum_range-total (2 ^ k) 0 f.zero _ (λ i. mle (corner i 0 k) w) term
      ∙ ap some (f.zero-add _ ∙ total-mle k w table)
    where
      w : List F
      w = bind b (bind_all prefix vs)

      table : length w ≡ 2 ^ k
      table =
          length-bind_pow b (bind_all prefix vs) k
            (length-bind_all prefix vs (suc k) (ext.size ∙ ap (λ m. 2 ^ m) (sym h)))

      point : (i : ℕ) → length ((prefix ++ b ∷ []) ++ corner i 0 k) ≡ n
      point i = omega (
        arith,
        length-append (prefix ++ b ∷ []) (corner i 0 k),
        length-append prefix (b ∷ []),
        length-corner F i 0 k,
        h,
      )

      term :
          (i : ℕ) → oracle.eval ((prefix ++ b ∷ []) ++ corner i 0 k) ≡ some (mle (corner i 0 k) w)
      term i =
          ext.answers _ (point i)
          ∙ ap some (mle-append (prefix ++ b ∷ []) _ vs ∙ ap (mle _) (bind_all-snoc prefix b vs))

  -- Over the oracle of a table, with at least one variable left, sumcheck_round returns the sums of
  -- the table bound to the prefix and to 0, and to the prefix and to 1.
  pub sumcheck_round-sums :
      (prefix : List F) (k : ℕ)
      → length prefix + suc k ≡ n
      → sumcheck_round oracle prefix
        ≡ some (sum (bind f.zero (bind_all prefix vs)), sum (bind f.one (bind_all prefix vs)))
  unfolding sumcheck_round
  sumcheck_round-sums prefix k h = rw (
    sub_usize-some oracle.n_vars (length prefix) (suc k) (ext.vars ∙ sym h),
    lt→ltb 0 (suc k) (omega arith),
    size,
    eval_at-sum prefix k f.zero h,
    eval_at-sum prefix k f.one h,
  )
    where
      size : shl_one (suc k - 1) ≡ some (2 ^ k)
      size =
          ap shl_one {x = suc k - 1} {y = k} (omega arith)
          ∙ shl_one-some k (omega (arith, ext.small, h))
