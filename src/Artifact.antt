-- ===== src/Artifact.antt =====
-- crates/tscp-verifier/src/artifact.rs: the record of a measured proof. `F64` is the type of the times.
use tscp_anchor.Prelude.{ℕ, Bool, Option}
use tscp_anchor.Prelude.Text.{Text}

pub record Provenance : Type 0 where
  pub manifest_sha256 : Text
  pub repo_commit : Text
  pub binary_digest : Text
  pub proof_digest : Text
  pub transcript_digest : Text

pub data VerificationStatus : Type 0 where
  pass fail error : VerificationStatus

pub record Verification : Type 0 where
  pub status : VerificationStatus
  pub verifier_unchanged : Bool
  pub correctness_gate_passed : Bool
  pub fiat_shamir_rounds : ℕ
  pub public_inputs_hash : Text

pub data BenchmarkLayer : Type 0 where
  kernel primitive_integration end_to_end : BenchmarkLayer

pub record IntegrityMeasurement (F64 : Type 0) : Type 0 where
  pub proving_ms : F64
  pub verification_ms : F64
  pub total_pipeline_ms : F64

pub record PerformanceMeasurement (F64 : Type 0) : Type 0 where
  pub proving_ms : F64
  pub transcript_generation_ms : F64
  pub sumcheck_ms : F64
  pub fri_ms : Option F64
  pub verification_outside_timed_region : Bool

pub record Statistics (F64 : Type 0) : Type 0 where
  pub repetitions : ℕ
  pub median_ms : F64
  pub min_ms : F64
  pub max_ms : F64
  pub stddev_ms : F64

pub record Benchmark (F64 : Type 0) : Type 0 where
  pub layer : BenchmarkLayer
  pub trace_size : ℕ
  pub integrity : IntegrityMeasurement F64
  pub performance : PerformanceMeasurement F64
  pub statistics : Option (Statistics F64)

pub record Telemetry : Type 0 where
  pub peak_rss_kb : ℕ
  pub proof_size_bytes : ℕ
  pub transcript_size_bytes : ℕ
  pub binary_size_bytes : Option ℕ

pub record PulseArtifact (F64 : Type 0) : Type 0 where
  pub schema_version : Text
  pub artifact_id : Text
  pub created_at : Text
  pub provenance : Provenance
  pub verification : Verification
  pub benchmark : Benchmark F64
  pub telemetry : Telemetry
