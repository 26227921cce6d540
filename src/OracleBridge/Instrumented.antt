-- ===== src/OracleBridge/Instrumented.antt =====
-- crates/tscp-verifier/src/oracle_bridge.rs: `fri_prove`, `fri_verify` and a round of the sumcheck between
-- the readings of a clock. `readings k` is what the k-th `Instant::now` of a call reads, and `start` the
-- transcript of a new challenger.
use tscp_anchor.Prelude.{ℕ, Bool, Option, some, List, length, ◌==◌, not, if◌then◌else◌, ◌>>=◌}
use tscp_anchor.Prelude.Bits.{is_power_of_two}
use tscp_anchor.Prelude.Bytes.{Bytes}
use tscp_anchor.Field.{Field, PrimeField32}
use tscp_anchor.Oracle.{MleOracle}
use tscp_anchor.Sumcheck.{sumcheck_round}
use tscp_anchor.Merkle.{Mmcs}
use tscp_anchor.FriProtocol.{Challenger}
use tscp_anchor.FriQuery.{FriProof, fri_prove, fri_verify}
use tscp_anchor.Timing
use tscp_anchor.Timing.{Clock, PhaseTimer}
use tscp_anchor.OracleBridge.{
  Result, ok, err, invalid_input, evals_empty, not_power_of_two, domain_length, as_u32,
  serialize_run,
}

pub record ProveResult (Instant F64 : Type 0) : Type 0 where
  pub proof_bytes : Bytes
  pub transcript_bytes : Bytes
  pub timer : PhaseTimer Instant F64
  pub fiat_shamir_rounds : ℕ

pub record VerifyResult (Instant F64 : Type 0) : Type 0 where
  pub verification_ok : Bool
  pub timer : PhaseTimer Instant F64

pub record ProveResultInternal (F Instant F64 : Type 0) : Type 0 where
  pub proof_bytes : Bytes
  pub transcript_bytes : Bytes
  pub timer : PhaseTimer Instant F64
  pub fiat_shamir_rounds : ℕ
  pub proof : FriProof F (List (List F)) (List (List F))

module _ {Instant F64 : Type 0} (clock : Clock Instant F64) (readings : ℕ → Instant) where
  -- The timer as `fri_prove` is called, and as it returned.
  unfoldable pub timer_before_fri : Option (PhaseTimer Instant F64)
  timer_before_fri = do
    let total = Timing.start Timing.proving_total (readings 0) Timing.new
    let setup = Timing.start Timing.transcript_generation (readings 1) total
    ready ← Timing.stop clock (readings 2) setup
    some (Timing.start Timing.fri (readings 3) ready)

  unfoldable pub timer_after_fri : PhaseTimer Instant F64 → Option (PhaseTimer Instant F64)
  timer_after_fri t = do
    folded ← Timing.stop clock (readings 4) t
    Timing.stop clock (readings 5) folded

  module _ {F : Type 0} where
    -- What is made of the proof once the timer has stopped.
    unfoldable pub proved :
        ⦃p : PrimeField32 F⦄
        → FriProof F (List (List F)) (List (List F))
        → PhaseTimer Instant F64
        → Result (ProveResultInternal F Instant F64)
    proved proof timer = elim (serialize_run proof) [
      | err e ↦ err e
      | ok bytes ↦ ok (record {
        proof_bytes = bytes.0;
        transcript_bytes = bytes.1;
        timer = timer;
        fiat_shamir_rounds = as_u32 (length proof.commitment.roots);
        proof = proof;
      })
    ]

    unfoldable pub without_proof :
        Result (ProveResultInternal F Instant F64) → Result (ProveResult Instant F64)
    without_proof (err e) = err e
    without_proof (ok internal) = ok (record {
      proof_bytes = internal.proof_bytes;
      transcript_bytes = internal.transcript_bytes;
      timer = internal.timer;
      fiat_shamir_rounds = internal.fiat_shamir_rounds;
    })

    unfoldable pub sumcheck_instrumented :
        ⦃f : Field F⦄ → MleOracle F → List F → Option (Result ((F × F) × PhaseTimer Instant F64))
    sumcheck_instrumented oracle prefix = do
      let running = Timing.start Timing.sumcheck (readings 0) Timing.new
      result ← sumcheck_round oracle prefix
      timer ← Timing.stop clock (readings 1) running
      some (ok (result, timer))

  module _ {F S : Type 0} ⦃f : Field F⦄ ⦃p : PrimeField32 F⦄
      (m : Mmcs F (List (List F)) (List (List F))) (c : Challenger F (List (List F)) S)
      (start : S) where
    -- The run behind the checks of the input.
    unfoldable pub prove_timed :
        List F → List F → ℕ → Option (Result (ProveResultInternal F Instant F64))
    unfolding proved
    prove_timed evals domain num_queries = do
      before ← timer_before_fri
      run ← fri_prove m c evals domain start num_queries
      timer ← timer_after_fri before
      some (proved run.0 timer)

    unfoldable pub prove_instrumented_internal :
        List F → List F → ℕ → Option (Result (ProveResultInternal F Instant F64))
    unfolding prove_timed
    prove_instrumented_internal evals domain num_queries =
        if length evals == 0
        then some (err (invalid_input evals_empty))
        else if not (is_power_of_two (length evals))
        then some (err (invalid_input (not_power_of_two (length evals))))
        else if not (length domain == length evals)
        then some (err (invalid_input (domain_length (length domain) (length evals))))
        else prove_timed evals domain num_queries

    unfoldable pub prove_instrumented :
        List F → List F → ℕ → Option (Result (ProveResult Instant F64))
    unfolding without_proof
    prove_instrumented evals domain num_queries = do
      internal ← prove_instrumented_internal evals domain num_queries
      some (without_proof internal)

    unfoldable pub verify_instrumented_with_proof :
        List F
        → FriProof F (List (List F)) (List (List F))
        → ℕ
        → Option (Result (VerifyResult Instant F64))
    verify_instrumented_with_proof domain proof num_queries = do
      let running = Timing.start Timing.verification (readings 0) Timing.new
      accepted ← fri_verify m c domain proof start num_queries
      timer ← Timing.stop clock (readings 1) running
      some (ok (record { verification_ok = accepted; timer = timer }))
