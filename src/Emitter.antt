-- ===== src/Emitter.antt =====
-- crates/tscp-verifier/src/emitter.rs: the artifact of a measured run, and the run from proof to artifact.
pub mod Consistent
pub mod Runs
pub mod Pipeline
use tscp_anchor.Prelude.{
  ℕ, ◌+◌, Bool, true, false, Option, none, some, List, length, ◌==◌, if◌then◌else◌, ◌>>=◌,
}
use tscp_anchor.Prelude.Bytes.{Bytes}
use tscp_anchor.Prelude.Text.{Text, codes, as_bytes}
use tscp_anchor.Field.{Field, PrimeField32}
use tscp_anchor.Merkle.{Mmcs}
use tscp_anchor.FriProtocol.{Challenger}
use tscp_anchor.Timing
use tscp_anchor.Timing.{Clock, PhaseTimer, get, get_or_zero}
use tscp_anchor.Provenance.{Host, sha256_hex, sha256_str, binary_digest, peak_rss_kb, repo_commit}
use tscp_anchor.Artifact.{
  Provenance, VerificationStatus, pass, fail, Verification, BenchmarkLayer, IntegrityMeasurement,
  PerformanceMeasurement, Benchmark, Telemetry, PulseArtifact,
}
use tscp_anchor.OracleBridge
use tscp_anchor.OracleBridge.{BridgeError}
use tscp_anchor.OracleBridge.Instrumented.{
  ProveResultInternal, VerifyResult, prove_instrumented_internal, verify_instrumented_with_proof,
}

-- What the emitter takes from outside: the host, a fresh identifier, the time of the day, and
-- `serde_json::to_string`, which refuses with `none`.
pub record Services (F64 : Type 0) : Type 0 where
  pub host : Host
  pub new_v4 : Text
  pub now : Text
  pub to_string : PulseArtifact F64 → Option Text

pub record EmitResult : Type 0 where
  pub json : Text
  pub artifact_digest : Text

pub record EmitterConfig : Type 0 where
  pub manifest_sha256 : Text
  pub repo_path : Text
  pub layer : BenchmarkLayer
  pub trace_size : ℕ

-- What the provenance error's message names.
pub data ProvenanceCause : Type 0 where
  no_binary_digest : ProvenanceCause
  bridge_error : BridgeError → ProvenanceCause

pub data EmitError : Type 0 where
  serialization_error : EmitError
  provenance_error : ProvenanceCause → EmitError

pub data Result {ℓ} (A : Type ℓ) : Type ℓ where
  ok : A → Result A
  err : EmitError → Result A

unfoldable pub some_or {ℓ} : {A : Type ℓ} → Option A → Option A → Option A
some_or (some a) o = some a
some_or none o = o

module _ {F64 : Type 0} (w : Services F64) where
  -- The size of the running executable.
  unfoldable pub executable_size : Option ℕ
  executable_size = do p ← (w.host).current_exe; (w.host).file_len p

  -- The telemetry as the artifact holds it.
  unfoldable pub completed : Telemetry → ℕ → ℕ → Telemetry
  unfolding some_or
  completed t proof_size transcript_size = record {
    peak_rss_kb = if t.peak_rss_kb == 0 then peak_rss_kb w.host else t.peak_rss_kb;
    proof_size_bytes = proof_size;
    transcript_size_bytes = transcript_size;
    binary_size_bytes = some_or t.binary_size_bytes executable_size;
  }

  unfoldable pub build_provenance : EmitterConfig → Text → Bytes → Bytes → Provenance
  build_provenance config digest proof_bytes transcript_bytes = record {
    manifest_sha256 = config.manifest_sha256;
    repo_commit = repo_commit w.host config.repo_path;
    binary_digest = digest;
    proof_digest = sha256_hex w.host proof_bytes;
    transcript_digest = sha256_hex w.host transcript_bytes;
  }

  unfoldable pub build_verification : Bool → ℕ → Verification
  build_verification verification_ok fiat_shamir_rounds = record {
    status = if verification_ok then pass else fail;
    verifier_unchanged = true;
    correctness_gate_passed = verification_ok;
    fiat_shamir_rounds = if verification_ok then fiat_shamir_rounds else 1;
    public_inputs_hash = sha256_str w.host (codes "public_inputs");
  }

  -- Serialization, then the digest of what was serialized.
  unfoldable pub seal : PulseArtifact F64 → Result EmitResult
  seal artifact = elim (w.to_string artifact) [
    | none ↦ err serialization_error
    | some json ↦ ok (record { json = json; artifact_digest = sha256_hex w.host (as_bytes json) })
  ]

  module _ {Instant : Type 0} (clock : Clock Instant F64) where
    unfoldable pub integrity : Bool → PhaseTimer Instant F64 → IntegrityMeasurement F64
    integrity false timer = record {
      proving_ms = clock.zero_ms;
      verification_ms = clock.zero_ms;
      total_pipeline_ms = clock.zero_ms;
    }
    integrity true timer =
        let proving = get_or_zero clock timer Timing.proving_total in
        let verifying = get_or_zero clock timer Timing.verification in
        record {
          proving_ms = proving;
          verification_ms = verifying;
          total_pipeline_ms = clock.add_ms proving verifying;
        }

    unfoldable pub performance : Bool → PhaseTimer Instant F64 → PerformanceMeasurement F64
    performance false timer = record {
      proving_ms = clock.zero_ms;
      transcript_generation_ms = clock.zero_ms;
      sumcheck_ms = clock.zero_ms;
      fri_ms = none;
      verification_outside_timed_region = true;
    }
    performance true timer = record {
      proving_ms = get_or_zero clock timer Timing.proving_total;
      transcript_generation_ms = get_or_zero clock timer Timing.transcript_generation;
      sumcheck_ms = get_or_zero clock timer Timing.sumcheck;
      fri_ms = get timer Timing.fri;
      verification_outside_timed_region = true;
    }

    unfoldable pub build_benchmark : EmitterConfig → Bool → PhaseTimer Instant F64 → Benchmark F64
    unfolding integrity performance
    build_benchmark config verification_ok timer = record {
      layer = config.layer;
      trace_size = config.trace_size;
      integrity = integrity verification_ok timer;
      performance = performance verification_ok timer;
      statistics = none;
    }

    -- The artifact, once the digest of the executable is known.
    unfoldable pub build_artifact :
        EmitterConfig
        → Bytes
        → Bytes
        → Bool
        → ℕ
        → PhaseTimer Instant F64
        → Telemetry
        → Text
        → PulseArtifact F64
    unfolding completed build_provenance build_verification build_benchmark
    build_artifact config proof_bytes transcript_bytes verification_ok rounds timer telemetry
          digest =
        record {
          schema_version = codes "tscp-pulse-artifact-v1";
          artifact_id = w.new_v4;
          created_at = w.now;
          provenance = build_provenance config digest proof_bytes transcript_bytes;
          verification = build_verification verification_ok rounds;
          benchmark = build_benchmark config verification_ok timer;
          telemetry = completed telemetry (length proof_bytes) (length transcript_bytes);
        }

    unfoldable pub emit :
        EmitterConfig
        → Bytes
        → Bytes
        → Bool
        → ℕ
        → PhaseTimer Instant F64
        → Telemetry
        → Result EmitResult
    unfolding build_artifact seal
    emit config proof_bytes transcript_bytes verification_ok rounds timer telemetry =
        elim (binary_digest w.host) [
          | none ↦ err (provenance_error no_binary_digest)
          | some digest ↦ seal (
              build_artifact config proof_bytes transcript_bytes verification_ok rounds timer
                telemetry digest)
        ]

    module _ {F : Type 0} where
      -- The artifact of a proof and of its verification, behind both.
      unfoldable pub emit_run :
          EmitterConfig
          → ProveResultInternal F Instant F64
          → VerifyResult Instant F64
          → Result EmitResult
      unfolding emit executable_size
      emit_run config proved verified =
          emit config proved.proof_bytes proved.transcript_bytes verified.verification_ok
            proved.fiat_shamir_rounds (Timing.merge proved.timer verified.timer)
            (record {
              peak_rss_kb = peak_rss_kb w.host;
              proof_size_bytes = length proved.proof_bytes;
              transcript_size_bytes = length proved.transcript_bytes;
              binary_size_bytes = executable_size;
            })

      unfoldable pub emit_verified :
          EmitterConfig
          → ProveResultInternal F Instant F64
          → OracleBridge.Result (VerifyResult Instant F64)
          → Result EmitResult
      unfolding emit_run
      emit_verified config proved (OracleBridge.err e) = err (provenance_error (bridge_error e))
      emit_verified config proved (OracleBridge.ok verified) = emit_run config proved verified

    -- The readings of the clock go on where the proof left them.
    module _ {F S : Type 0} ⦃f : Field F⦄ ⦃p : PrimeField32 F⦄ (readings : ℕ → Instant)
        (m : Mmcs F (List (List F)) (List (List F))) (c : Challenger F (List (List F)) S)
        (start : S) where
      unfoldable pub verify_and_emit :
          EmitterConfig
          → List F
          → ℕ
          → OracleBridge.Result (ProveResultInternal F Instant F64)
          → Option (Result EmitResult)
      unfolding emit_verified
      verify_and_emit config domain num_queries (OracleBridge.err e) =
          some (err (provenance_error (bridge_error e)))
      verify_and_emit config domain num_queries (OracleBridge.ok proved) = do
        verified ←
            verify_instrumented_with_proof clock (λ k. readings (6 + k)) m c start domain
              proved.proof num_queries
        some (emit_verified config proved verified)

      unfoldable pub prove_and_emit :
          EmitterConfig → List F → List F → ℕ → Option (Result EmitResult)
      unfolding verify_and_emit
      prove_and_emit config evals domain num_queries = do
        proved ← prove_instrumented_internal clock readings m c start evals domain num_queries
        verify_and_emit config domain num_queries proved
