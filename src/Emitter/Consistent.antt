-- ===== src/Emitter/Consistent.antt =====
-- The artifacts of `emit` of crates/tscp-verifier/src/emitter.rs.
use tscp_anchor.Prelude.{ℕ, ◌≡◌, Bool, true, false, Option, none, some, length}
use tscp_anchor.Prelude.Bytes.{Bytes}
use tscp_anchor.Prelude.Text.{Text, as_bytes}
use tscp_anchor.Timing
use tscp_anchor.Timing.{Clock, PhaseTimer, get, get_or_zero}
use tscp_anchor.Provenance.{sha256_hex, binary_digest}
use tscp_anchor.Artifact.{pass, fail, Benchmark, PulseArtifact}
use tscp_anchor.Emitter.{
  Services, EmitResult, serialization_error, provenance_error, no_binary_digest, bridge_error,
  Result, ok, err, integrity, performance,
}

module _ {Instant F64 : Type 0} (w : Services F64) (clock : Clock Instant F64) where
  -- The times of a benchmark, each at the place that the artifact has for it.
  pub record Times (b : Benchmark F64) (proving transcript sumcheck verifying total : F64)
      (fri : Option F64) : Type 0 where
    pub integrity_proving : (b.integrity).proving_ms ≡ proving
    pub integrity_verification : (b.integrity).verification_ms ≡ verifying
    pub integrity_total : (b.integrity).total_pipeline_ms ≡ total
    pub performance_proving : (b.performance).proving_ms ≡ proving
    pub performance_transcript : (b.performance).transcript_generation_ms ≡ transcript
    pub performance_sumcheck : (b.performance).sumcheck_ms ≡ sumcheck
    pub performance_fri : (b.performance).fri_ms ≡ fri

  -- The timer's time of a phase, zero when it has none.
  abbrev pub phase_time : PhaseTimer Instant F64 → Text → F64
  phase_time timer phase = get_or_zero clock timer phase

  -- What an artifact says of a run whose proof was accepted, and of one whose proof was not.
  abbrev pub Outcome : Bool → ℕ → PhaseTimer Instant F64 → PulseArtifact F64 → Type 0
  Outcome true rounds timer a =
      ((a.verification).status ≡ pass)
      × ((a.verification).correctness_gate_passed ≡ true)
      × ((a.verification).fiat_shamir_rounds ≡ rounds)
      × Times a.benchmark (phase_time timer Timing.proving_total)
          (phase_time timer Timing.transcript_generation) (phase_time timer Timing.sumcheck)
          (phase_time timer Timing.verification)
          (clock.add_ms (phase_time timer Timing.proving_total)
            (phase_time timer Timing.verification))
          (get timer Timing.fri)
  Outcome false rounds timer a =
      ((a.verification).status ≡ fail)
      × ((a.verification).correctness_gate_passed ≡ false)
      × ((a.verification).fiat_shamir_rounds ≡ 1)
      × Times a.benchmark clock.zero_ms clock.zero_ms clock.zero_ms clock.zero_ms clock.zero_ms none

  -- The artifact of a run, and its serialization.
  pub record Describes (proof_bytes transcript_bytes : Bytes) (accepted : Bool) (rounds : ℕ)
      (timer : PhaseTimer Instant F64) (a : PulseArtifact F64) : Type 0 where
    pub outcome : Outcome accepted rounds timer a
    pub untimed : ((a.benchmark).performance).verification_outside_timed_region ≡ true
    pub proof_digest : (a.provenance).proof_digest ≡ sha256_hex w.host proof_bytes
    pub transcript_digest : (a.provenance).transcript_digest ≡ sha256_hex w.host transcript_bytes
    pub executable : binary_digest w.host ≡ some (a.provenance).binary_digest
    pub proof_size : (a.telemetry).proof_size_bytes ≡ length proof_bytes
    pub transcript_size : (a.telemetry).transcript_size_bytes ≡ length transcript_bytes

  -- An answer of `emit`: an artifact of the run, or the cause of its absence.
  abbrev pub Answers :
      Bytes → Bytes → Bool → ℕ → PhaseTimer Instant F64 → Result EmitResult → Type 0
  Answers proof_bytes transcript_bytes accepted rounds timer (ok r) =
      (a : PulseArtifact F64) × Describes proof_bytes transcript_bytes accepted rounds timer a
      × (w.to_string a ≡ some r.json)
      × (r.artifact_digest ≡ sha256_hex w.host (as_bytes r.json))
  Answers proof_bytes transcript_bytes accepted rounds timer (err serialization_error) =
      (a : PulseArtifact F64) × Describes proof_bytes transcript_bytes accepted rounds timer a
      × (w.to_string a ≡ none)
  Answers proof_bytes transcript_bytes accepted rounds timer
        (err (provenance_error no_binary_digest)) =
      binary_digest w.host ≡ none
  Answers proof_bytes transcript_bytes accepted rounds timer
        (err (provenance_error (bridge_error e))) =
      ⊥
