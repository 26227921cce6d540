-- ===== src/Emitter/Pipeline.antt =====
-- `prove_and_emit` of crates/tscp-verifier/src/emitter.rs, from the table to the artifact.
use tscp_anchor.Prelude.{
  ℕ, suc, ◌+◌, ◌^◌, ◌≤◌, ◌≡◌, ◌≢◌, refl, ap, true, some, List, [], ◌∷◌, length,
}
use tscp_anchor.Prelude.Bytes.{Bytes, bytes_eq}
use tscp_anchor.Prelude.Text.{Text, as_bytes}
use tscp_anchor.Field.{Field, PrimeField32, from_u64}
use tscp_anchor.Merkle.{Mmcs}
use tscp_anchor.Fri.Fold.{NonZero}
use tscp_anchor.FriProtocol.{Challenger}
use tscp_anchor.FriQuery.{FriProof, fri_prove}
use tscp_anchor.FriQuery.Accept.{fri_verify-fri_prove}
use tscp_anchor.Timing
use tscp_anchor.Timing.{
  Clock, PhaseTimer, insert, lookup, merge_loop, new, start, stop, stop_on, merge, get, get_or_zero,
  unwrap_or,
}
use tscp_anchor.Provenance.{sha256_hex, binary_digest, peak_rss_kb}
use tscp_anchor.Artifact.{pass, Telemetry, PulseArtifact}
use tscp_anchor.OracleBridge
use tscp_anchor.OracleBridge.{as_u32, serialize_run}
use tscp_anchor.OracleBridge.Encodes.{serialize_run-fri_prove}
use tscp_anchor.Emitter.{
  Services, EmitResult, EmitterConfig, ok, seal, executable_size, build_provenance,
  build_verification, build_benchmark, integrity, performance, build_artifact, emit, emit_run,
  emit_verified, verify_and_emit, prove_and_emit,
}
use tscp_anchor.Emitter.Runs.{prove_returns, verify_returns, proving_timer, verifying_timer}

module _ {Instant F64 : Type 0} (w : Services F64) (clock : Clock Instant F64)
    (readings : ℕ → Instant) where
  -- Both timers in one.
  abbrev merged : PhaseTimer Instant F64
  merged = record {
    phases =
        (Timing.transcript_generation, clock.elapsed_ms (readings 1) (readings 2))
        ∷ (Timing.fri, clock.elapsed_ms (readings 3) (readings 4))
        ∷ (Timing.proving_total, clock.elapsed_ms (readings 0) (readings 5))
        ∷ (Timing.verification, clock.elapsed_ms (readings 6) (readings 7))
        ∷ [];
    active = [];
  }

  merging :
      merge (proving_timer clock readings) (verifying_timer clock (λ k. readings (6 + k))) ≡ merged
  unfolding merge merge_loop insert bytes_eq
  merging = refl

  -- The artifact of an accepted run: its verdict, the digest of its bytes, and its times between the
  -- readings of the clock.
  pub record Reports (fs_rounds : ℕ) (proof_bytes : Bytes) (a : PulseArtifact F64) : Type 0 where
    pub status : (a.verification).status ≡ pass
    pub gate : (a.verification).correctness_gate_passed ≡ true
    pub rounds : (a.verification).fiat_shamir_rounds ≡ fs_rounds
    pub proof_digest : (a.provenance).proof_digest ≡ sha256_hex w.host proof_bytes
    pub proving : ((a.benchmark).integrity).proving_ms ≡ clock.elapsed_ms (readings 0) (readings 5)
    pub verifying :
        ((a.benchmark).integrity).verification_ms ≡ clock.elapsed_ms (readings 6) (readings 7)
    pub total :
        ((a.benchmark).integrity).total_pipeline_ms
        ≡ clock.add_ms
            (clock.elapsed_ms (readings 0) (readings 5))
            (clock.elapsed_ms (readings 6) (readings 7))
    pub setup :
        ((a.benchmark).performance).transcript_generation_ms
        ≡ clock.elapsed_ms (readings 1) (readings 2)
    pub fri : ((a.benchmark).performance).fri_ms ≡ some (clock.elapsed_ms (readings 3) (readings 4))
    pub no_sumcheck : ((a.benchmark).performance).sumcheck_ms ≡ clock.zero_ms

  report :
      (config : EmitterConfig) (proof_bytes transcript_bytes : Bytes) (fs_rounds : ℕ)
      (telemetry : Telemetry) (digest : Text)
      → Reports fs_rounds proof_bytes (
          build_artifact w clock config proof_bytes transcript_bytes true fs_rounds merged telemetry
            digest)
  unfolding build_artifact build_provenance build_verification build_benchmark integrity performance
      get get_or_zero unwrap_or lookup bytes_eq
  report config proof_bytes transcript_bytes fs_rounds telemetry digest = record {
    status = refl;
    gate = refl;
    rounds = refl;
    proof_digest = refl;
    proving = refl;
    verifying = refl;
    total = refl;
    setup = refl;
    fri = refl;
    no_sumcheck = refl;
  }

  -- A result whose text is that of such an artifact, with its digest.
  pub record Emitted (fs_rounds : ℕ) (proof_bytes : Bytes) (r : EmitResult) : Type 0 where
    pub artifact : PulseArtifact F64
    pub reports : Reports fs_rounds proof_bytes artifact
    pub json : w.to_string artifact ≡ some r.json
    pub digest : r.artifact_digest ≡ sha256_hex w.host (as_bytes r.json)

  module _ (digest : Text) (running : binary_digest w.host ≡ some digest)
      (prints : (a : PulseArtifact F64) → (json : Text) × (w.to_string a ≡ some json)) where
    emits :
        (config : EmitterConfig) (proof_bytes transcript_bytes : Bytes) (fs_rounds : ℕ)
        (telemetry : Telemetry)
        → (r : EmitResult) × (emit w clock config proof_bytes transcript_bytes true fs_rounds merged
              telemetry
            ≡ ok r)
          × Emitted fs_rounds proof_bytes r
    unfolding emit seal
    emits config proof_bytes transcript_bytes fs_rounds telemetry =
        let a : PulseArtifact F64 =
          build_artifact w clock config proof_bytes transcript_bytes true fs_rounds merged telemetry
            digest in
        let (json, printed) = prints a in
        (
          record { json = json; artifact_digest = sha256_hex w.host (as_bytes json) },
          rw (emit, running, seal, printed) refl,
          record {
            artifact = a;
            reports = report config proof_bytes transcript_bytes fs_rounds telemetry digest;
            json = printed;
            digest = refl;
          },
        )

    -- Over every table of 2^(k+1) <= 2^64 evaluations and a domain of the same size without zero,
    -- where 2 is not zero, the executable can be read and every artifact has a text, prove_and_emit
    -- returns a text with its digest, of an artifact that says pass, counts the proof's roots,
    -- holds the digest of its encoding, and reports the times between the readings of the clock.
    pub prove_and_emit-Emitted :
        {F S : Type 0} ⦃f : Field F⦄ ⦃p : PrimeField32 F⦄
        (m : Mmcs F (List (List F)) (List (List F))) (c : Challenger F (List (List F)) S) (s : S)
        (config : EmitterConfig) (k : ℕ) (evals d : List F) (num_queries : ℕ)
        → from_u64 2 ≢ f.zero
        → NonZero d
        → length evals ≡ 2 ^ suc k
        → length d ≡ 2 ^ suc k
        → length evals ≤ 2 ^ 64
        → (proof : FriProof F (List (List F)) (List (List F))) × (after : S) × (fri_prove m c evals
              d s num_queries
            ≡ some (proof, after))
          × (bytes : Bytes × Bytes) × (serialize_run proof ≡ OracleBridge.ok bytes)
          × (r : EmitResult) × (prove_and_emit w clock readings m c s config evals d num_queries
              ≡ some (ok r))
          × Emitted (as_u32 (length proof.commitment.roots)) bytes.0 r
    unfolding prove_and_emit verify_and_emit emit_verified emit_run
    prove_and_emit-Emitted m c s config k evals d num_queries two nz he hd fits =
        let (proof, after, made, accepted) =
          fri_verify-fri_prove m c k evals d s num_queries two nz he hd in
        let (bytes, written) =
          serialize_run-fri_prove m c evals d s after num_queries proof fits made in
        let (r, sealed, emitted) =
          emits config bytes.0 bytes.1 (as_u32 (length proof.commitment.roots)) (record {
            peak_rss_kb = peak_rss_kb w.host;
            proof_size_bytes = length bytes.0;
            transcript_size_bytes = length bytes.1;
            binary_size_bytes = executable_size w;
          }) in
        (
          proof,
          after,
          made,
          bytes,
          written,
          r,
          rw
              (
                prove_returns clock readings m c s k evals d num_queries proof after bytes he hd
                    made written,
                verify_and_emit,
                verify_returns clock (λ k. readings (6 + k)) m c s d proof num_queries accepted,
                emit_verified,
                emit_run,
                merging,
              )
              (ap some sealed),
          emitted,
        )
