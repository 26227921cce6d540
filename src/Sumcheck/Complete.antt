-- ===== src/Sumcheck/Complete.antt =====
-- The honest prover, which the tests of crates/oracle-layer/src/sumcheck.rs drive, and the verifier on
-- its transcripts.
use tscp_anchor.Prelude.{
  ℕ, suc, ◌+◌, ◌^◌, ◌≡◌, refl, sym, ap, ap₂, ◌∙◌, ◌==◌, ==_iff, Option, some, List, [], ◌∷◌, ◌++◌,
  length, length-append, arith, ◌>>=◌, ◌>>◌, check,
}
use mathlib.Core.List.{append_assoc, append-nil}
use tscp_anchor.Prelude.Bits.{shl_one, shl_one-some, pow_two-suc}
use tscp_anchor.Field.{Field}
use tscp_anchor.Field.Laws.{add-zero, beq_refl}
use tscp_anchor.Oracle.{MleOracle}
use tscp_anchor.Oracle.Mle.{bind, bind_all, mle, head_or, bind_all-snoc, length-bind_pow}
use tscp_anchor.Oracle.Cube.{
  corner, sum_range, sum_range-total, total-mle, sum, sum-bind, sum-bind_corners, length-corner,
}
use tscp_anchor.Sumcheck.{
  SumcheckProof, ok, verify_sumcheck, verify_rounds, final_checks, sumcheck_round,
}
use tscp_anchor.Sumcheck.Round.{Extends, sumcheck_round-sums}

module _ {ℓ} {F : Type ℓ} ⦃f : Field F⦄ where
  -- `hypercube_sum`
  unfoldable pub hypercube_sum : MleOracle F → ℕ → Option F
  hypercube_sum oracle n = do
    size ← shl_one n
    sum_range size 0 f.zero (λ i. oracle.eval (corner i 0 n))

  unfoldable pub prove_rounds : MleOracle F → List F → List F → Option (List (F × F) × List F)
  prove_rounds oracle prefix [] = some ([], prefix)
  prove_rounds oracle prefix (ch ∷ chs) = do
    g ← sumcheck_round oracle prefix
    rest ← prove_rounds oracle (prefix ++ ch ∷ []) chs
    some (g ∷ rest.0, rest.1)

  unfoldable pub honest_prove : MleOracle F → List F → Option (SumcheckProof F)
  honest_prove oracle challenges = do
    check (length challenges == oracle.n_vars)
    transcript ← prove_rounds oracle [] challenges
    claimed ← hypercube_sum oracle oracle.n_vars
    final ← oracle.eval transcript.1
    some (record {
      claimed_sum = claimed;
      n_vars = oracle.n_vars;
      rounds = transcript.0;
      final_eval = final;
    })

  -- The transcript that a table determines.
  unfoldable pub sums_transcript : List F → List F → List (F × F)
  sums_transcript w [] = []
  sums_transcript w (r ∷ rs) =
      (sum (bind f.zero w), sum (bind f.one w)) ∷ sums_transcript (bind r w) rs

  length-sums_transcript : (w rs : List F) → length (sums_transcript w rs) ≡ length rs
  unfolding sums_transcript
  length-sums_transcript w [] = refl
  length-sums_transcript w (r ∷ rs) = ap suc (length-sums_transcript (bind r w) rs)

  pub sum_single : (vs : List F) → length vs ≡ 1 → sum vs ≡ head_or vs
  unfolding sum head_or
  sum_single [] h = absurd (omega arith)
  sum_single (v ∷ []) h = add-zero v
  sum_single (v ∷ w ∷ vs) h = absurd (omega arith)

  final_checks-ok :
      (proof : SumcheckProof F) (oracle : MleOracle F) (running : F) (point : List F)
      → oracle.eval point ≡ some running
      → running ≡ proof.final_eval
      → final_checks proof oracle running point ≡ ok
  unfolding final_checks
  final_checks-ok proof oracle running point e p = rw (beq_refl p, e, beq_refl p)

  -- The verifier follows the transcript of a table to the last check.
  verify_rounds-sums :
      (proof : SumcheckProof F) (oracle : MleOracle F) (round : ℕ) (point w rs : List F)
      → length w ≡ 2 ^ length rs
      → verify_rounds proof oracle round (sum w) point (sums_transcript w rs) rs
        ≡ final_checks proof oracle (mle rs w) (point ++ rs)
  unfolding verify_rounds sums_transcript
  verify_rounds-sums proof oracle round point w [] h =
      ap₂ (final_checks proof oracle) (sum_single w h ∙ unfold mle bind_all in refl)
        (sym (append-nil point))
  verify_rounds-sums proof oracle round point w (r ∷ rs) h =
      rw
        (
          beq_refl (sum-bind_corners w (2 ^ length rs) (h ∙ pow_two-suc (length rs))),
          ← sum-bind r w,
        )
        (verify_rounds-sums proof oracle (suc round) (point ++ r ∷ []) (bind r w) rs
            (length-bind_pow r w (length rs) h)
          ∙ ap₂ (final_checks proof oracle) (unfold mle bind_all in refl)
              (append_assoc point (r ∷ []) rs))

module _ {ℓ} {F : Type ℓ} ⦃f : Field F⦄ {vs : List F} {n : ℕ} {oracle : MleOracle F}
    (ext : Extends vs n oracle) where
  prove_rounds-sums :
      (prefix chs : List F)
      → length prefix + length chs ≡ n
      → prove_rounds oracle prefix chs
        ≡ some (sums_transcript (bind_all prefix vs) chs, prefix ++ chs)
  unfolding prove_rounds sums_transcript
  prove_rounds-sums prefix [] h = rw (append-nil prefix)
  prove_rounds-sums prefix (ch ∷ chs) h = rw (sumcheck_round-sums ext prefix (length chs) h) (
      rw (
        prove_rounds-sums (prefix ++ ch ∷ []) chs
            (omega (arith, h, length-append prefix (ch ∷ []))),
        bind_all-snoc prefix ch vs,
        append_assoc prefix (ch ∷ []) chs,
      ))

  pub hypercube_sum-sum : hypercube_sum oracle oracle.n_vars ≡ some (sum vs)
  unfolding hypercube_sum
  hypercube_sum-sum =
      ap (hypercube_sum oracle) ext.vars
      ∙ rw (shl_one-some n ext.small) (
          sum_range-total (2 ^ n) 0 f.zero _ (λ i. mle (corner i 0 n) vs)
            (λ i. ext.answers _ (length-corner F i 0 n))
          ∙ ap some (f.zero-add _ ∙ total-mle n vs ext.size))

  -- Over the oracle of a table and any challenges, one per variable, the honest prover returns a
  -- proof that claims the sum of the table, and verify_sumcheck accepts it.
  pub verify-honest_prove :
      (challenges : List F)
      → length challenges ≡ n
      → (proof : SumcheckProof F) × (honest_prove oracle challenges ≡ some proof)
        × (proof.claimed_sum ≡ sum vs)
        × (verify_sumcheck proof challenges oracle ≡ ok)
  unfolding honest_prove verify_sumcheck bind_all
  verify-honest_prove challenges h = (
    proof,
    rw (
      (==_iff _ _).1 (h ∙ sym ext.vars),
      prove_rounds-sums [] challenges (omega (arith, h)),
      hypercube_sum-sum,
      ext.answers challenges h,
      ext.vars,
    ),
    refl,
    rw ((==_iff _ _).1 (length-sums_transcript vs challenges ∙ h), (==_iff _ _).1 h)
        (verify_rounds-sums proof oracle 0 [] vs challenges (ext.size ∙ ap (λ k. 2 ^ k) (sym h))
          ∙ final_checks-ok proof oracle _ challenges (ext.answers challenges h) refl),
  )
    where
      proof : SumcheckProof F
      proof = record {
        claimed_sum = sum vs;
        n_vars = n;
        rounds = sums_transcript vs challenges;
        final_eval = mle challenges vs;
      }
