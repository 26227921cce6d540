-- ===== src/Emitter/Runs.antt =====
-- The timed proof and its verification on honest inputs, as `prove_and_emit` of
-- crates/tscp-verifier/src/emitter.rs calls them.
use tscp_anchor.Prelude.{
  ℕ, suc, ◌^◌, ◌≡◌, refl, ap, ◌∙◌, true, false, some, List, [], ◌∷◌, length, ◌==◌, ==_iff, arith,
}
use tscp_anchor.Prelude.Bits.{is_power_of_two, is_power_of_two-pow, pow_two-pos}
use tscp_anchor.Prelude.Bytes.{Bytes, bytes_eq}
use tscp_anchor.Field.{Field, PrimeField32}
use tscp_anchor.Merkle.{Mmcs}
use tscp_anchor.FriProtocol.{Challenger}
use tscp_anchor.FriQuery.{FriProof, fri_prove, fri_verify}
use tscp_anchor.Timing
use tscp_anchor.Timing.{
  Clock, PhaseTimer, insert, lookup, merge_loop, new, start, stop, stop_on, merge, get, get_or_zero,
  unwrap_or,
}
use tscp_anchor.OracleBridge
use tscp_anchor.OracleBridge.{as_u32, serialize_run}
use tscp_anchor.OracleBridge.Instrumented.{
  ProveResultInternal, timer_before_fri, timer_after_fri, proved, prove_timed,
  prove_instrumented_internal, verify_instrumented_with_proof,
}

module _ {Instant F64 : Type 0} (clock : Clock Instant F64) (readings : ℕ → Instant) where
  -- The timer of a proof that returned.
  abbrev pub proving_timer : PhaseTimer Instant F64
  proving_timer = record {
    phases =
        (Timing.transcript_generation, clock.elapsed_ms (readings 1) (readings 2))
        ∷ (Timing.fri, clock.elapsed_ms (readings 3) (readings 4))
        ∷ (Timing.proving_total, clock.elapsed_ms (readings 0) (readings 5))
        ∷ [];
    active = [];
  }

  pub before_fri :
      timer_before_fri clock readings
      ≡ some (record {
        phases = (Timing.transcript_generation, clock.elapsed_ms (readings 1) (readings 2)) ∷ [];
        active = (Timing.fri, readings 3) ∷ (Timing.proving_total, readings 0) ∷ [];
      })
  unfolding timer_before_fri start stop stop_on new insert
  before_fri = refl

  pub after_fri :
      timer_after_fri clock readings (record {
        phases = (Timing.transcript_generation, clock.elapsed_ms (readings 1) (readings 2)) ∷ [];
        active = (Timing.fri, readings 3) ∷ (Timing.proving_total, readings 0) ∷ [];
      })
      ≡ some proving_timer
  unfolding timer_after_fri stop stop_on insert bytes_eq
  after_fri = refl

  abbrev pub verifying_timer : PhaseTimer Instant F64
  verifying_timer = record {
    phases = (Timing.verification, clock.elapsed_ms (readings 0) (readings 1)) ∷ [];
    active = [];
  }

  pub verifying :
      stop clock (readings 1) (start Timing.verification (readings 0) new) ≡ some verifying_timer
  unfolding start stop stop_on new insert
  verifying = refl

  module _ {F S : Type 0} ⦃f : Field F⦄ ⦃p : PrimeField32 F⦄
      (m : Mmcs F (List (List F)) (List (List F))) (c : Challenger F (List (List F)) S)
      (s : S) where
    abbrev pub proved_run :
        FriProof F (List (List F)) (List (List F))
        → Bytes × Bytes
        → ProveResultInternal F Instant F64
    proved_run proof bytes = record {
      proof_bytes = bytes.0;
      transcript_bytes = bytes.1;
      timer = proving_timer;
      fiat_shamir_rounds = as_u32 (length proof.commitment.roots);
      proof = proof;
    }

    proved_written :
        (proof : FriProof F (List (List F)) (List (List F))) (bytes : Bytes × Bytes)
        → serialize_run proof ≡ OracleBridge.ok bytes
        → proved clock readings proof proving_timer ≡ OracleBridge.ok (proved_run proof bytes)
    unfolding proved
    proved_written proof bytes written = rw (proved, written) refl

    pub prove_returns :
        (k : ℕ) (evals d : List F) (num_queries : ℕ)
        (proof : FriProof F (List (List F)) (List (List F))) (after : S) (bytes : Bytes × Bytes)
        → length evals ≡ 2 ^ suc k
        → length d ≡ 2 ^ suc k
        → fri_prove m c evals d s num_queries ≡ some (proof, after)
        → serialize_run proof ≡ OracleBridge.ok bytes
        → prove_instrumented_internal clock readings m c s evals d num_queries
          ≡ some (OracleBridge.ok (proved_run proof bytes))
    unfolding prove_instrumented_internal prove_timed
    prove_returns k evals d num_queries proof after bytes he hd made written =
        rw
          (
            filled,
            ap is_power_of_two he ∙ is_power_of_two-pow (suc k),
            (==_iff (length d) (length evals)).1 (omega (arith, he, hd)),
            before_fri,
            made,
            after_fri,
          )
          (ap some (proved_written proof bytes written))
      where
        filled : (length evals == 0) ≡ false
        filled = ground (arith, he, pow_two-pos (suc k))

    pub verify_returns :
        (d : List F) (proof : FriProof F (List (List F)) (List (List F))) (num_queries : ℕ)
        → fri_verify m c d proof s num_queries ≡ some true
        → verify_instrumented_with_proof clock readings m c s d proof num_queries
          ≡ some (OracleBridge.ok (record { verification_ok = true; timer = verifying_timer }))
    unfolding verify_instrumented_with_proof
    verify_returns d proof num_queries accepted = rw (accepted, verifying) refl
