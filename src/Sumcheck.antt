-- ===== src/Sumcheck.antt =====
-- crates/oracle-layer/src/sumcheck.rs: the prover's round and the library verifier.
pub mod Round
pub mod Complete
pub mod Sound
pub mod Sources
use tscp_anchor.Prelude.{
  ℕ, zero, suc, ◌-◌, Bool, Option, none, some, List, [], ◌∷◌, ◌++◌, length, if◌then◌else◌, ◌==◌,
  ltb, check, ◌>>=◌, ◌>>◌,
}
use tscp_anchor.Prelude.Bits.{shl_one, sub_usize}
use tscp_anchor.Field.{Field, ◌⊕◌, ◌⊖◌, ◌⊗◌}
use tscp_anchor.Oracle.{MleOracle}
use tscp_anchor.Oracle.Cube.{corner, sum_range}

pub record SumcheckProof {ℓ} (F : Type ℓ) : Type ℓ where
  pub claimed_sum : F
  pub n_vars : ℕ
  pub rounds : List (F × F)
  pub final_eval : F

pub data SumcheckError : Type 0 where
  round_count challenge_count : ℕ → ℕ → SumcheckError  -- expected, received
  round_consistency : ℕ → SumcheckError
  transcript_binding final_eval_binding : SumcheckError

-- What a verification returns, or that it panics.
pub data Outcome : Type 0 where
  ok : Outcome
  err : SumcheckError → Outcome
  panic : Outcome

module _ {ℓ} {F : Type ℓ} ⦃f : Field F⦄ where
  -- The closure `eval_at`.
  unfoldable pub eval_at : MleOracle F → List F → ℕ → ℕ → F → Option F
  eval_at oracle prefix remaining sum_size b =
      sum_range sum_size 0 f.zero
        (λ idx. oracle.eval ((prefix ++ b ∷ []) ++ corner idx 0 (remaining - 1)))

  unfoldable pub sumcheck_round : MleOracle F → List F → Option (F × F)
  unfolding eval_at
  sumcheck_round oracle prefix = do
    remaining ← sub_usize oracle.n_vars (length prefix)
    check (ltb 0 remaining)
    sum_size ← shl_one (remaining - 1)
    g0 ← eval_at oracle prefix remaining sum_size f.zero
    g1 ← eval_at oracle prefix remaining sum_size f.one
    some (g0, g1)

  unfoldable pub oracle_check : F → Option F → Outcome
  oracle_check final none = panic
  oracle_check final (some e) = if f.beq e final then ok else err final_eval_binding

  -- The two checks after the last round.
  unfoldable pub final_checks : SumcheckProof F → MleOracle F → F → List F → Outcome
  unfolding oracle_check
  final_checks proof oracle running point =
      if f.beq running proof.final_eval
      then oracle_check proof.final_eval (oracle.eval point)
      else err transcript_binding

  -- `for (round, round_poly) in proof.rounds.iter().enumerate()`; a missing challenge panics.
  unfoldable pub verify_rounds :
      SumcheckProof F → MleOracle F → ℕ → F → List F → List (F × F) → List F → Outcome
  verify_rounds proof oracle round running point [] challenges =
      final_checks proof oracle running point
  verify_rounds proof oracle round running point (g ∷ gs) [] =
      if f.beq (g.0 ⊕ g.1) running then panic else err (round_consistency round)
  verify_rounds proof oracle round running point (g ∷ gs) (r ∷ rs) =
      if f.beq (g.0 ⊕ g.1) running
      then verify_rounds proof oracle (suc round) (g.0 ⊕ r ⊗ (g.1 ⊖ g.0)) (point ++ r ∷ []) gs rs
      else err (round_consistency round)

  unfoldable pub verify_sumcheck : SumcheckProof F → List F → MleOracle F → Outcome
  unfolding verify_rounds
  verify_sumcheck proof challenges oracle =
      if length proof.rounds == proof.n_vars
      then if length challenges == proof.n_vars
        then verify_rounds proof oracle 0 proof.claimed_sum [] proof.rounds challenges
        else err (challenge_count proof.n_vars (length challenges))
      else err (round_count proof.n_vars (length proof.rounds))
