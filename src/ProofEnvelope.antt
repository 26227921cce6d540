-- ===== src/ProofEnvelope.antt =====
-- crates/tscp-protocol/src/proof_envelope.rs: sealed proofs and the versions that open them.
use tscp_anchor.Prelude.{ℕ, ◌≡◌, refl, ◌≢◌, ◌↔◌, List, ◌==◌, if◌then◌else◌, not, arith}

pub data ProofVersion : Type 0 where
  v0_6_1 v0_6_2 : ProofVersion

abbrev pub current : ProofVersion
current = v0_6_1

pub record ProofEnvelope : Type 0 where
  pub version : ProofVersion
  pub plonky3_semver : ℕ × ℕ × ℕ
  pub claim : ℕ
  pub payload : List ℕ

pub data ProofError : Type 0 where
  unsupported_version : ProofVersion → ProofVersion → ProofError  -- got, expected
  golden_mismatch : ℕ → ℕ → ProofError  -- expected, got

pub data Result {ℓ} (A : Type ℓ) : Type ℓ where
  ok : A → Result A
  err : ProofError → Result A

unfoldable pub seal_061 : ℕ → List ℕ → ProofEnvelope
seal_061 claim payload = record {
  version = v0_6_1;
  plonky3_semver = (0, 6, 1);
  claim = claim;
  payload = payload;
}

unfoldable pub seal_062 : ℕ → List ℕ → ProofEnvelope
seal_062 claim payload = record {
  version = v0_6_2;
  plonky3_semver = (0, 6, 2);
  claim = claim;
  payload = payload;
}

open_versions : ProofVersion → ProofVersion → List ℕ → Result (List ℕ)
open_versions v0_6_1 v0_6_1 payload = ok payload
open_versions v0_6_2 v0_6_2 payload = ok payload
open_versions got expected payload = err (unsupported_version got expected)

unfoldable pub open_envelope : ProofEnvelope → ProofVersion → Result (List ℕ)
unfolding open_versions
open_envelope e verifier_version = open_versions e.version verifier_version e.payload

unfoldable pub verify_golden : ProofEnvelope → Result (Unit {0})
verify_golden e = if not (e.claim == 294373) then err (golden_mismatch 294373 e.claim) else ok tt

-- An envelope opens to its payload under its own version, and under any other the error names both.
pub open_envelope_exact :
    (e : ProofEnvelope) (v : ProofVersion)
    → (v ≡ e.version → open_envelope e v ≡ ok e.payload)
      × (v ≢ e.version → open_envelope e v ≡ err (unsupported_version e.version v))
unfolding open_envelope
open_envelope_exact e v = (λ h. same e.version v h, λ h. other e.version v h)
  where
    same : (got v : ProofVersion) → v ≡ got → open_versions got v e.payload ≡ ok e.payload
    same got v h = ground arith

    other :
        (got v : ProofVersion)
        → v ≢ got
        → open_versions got v e.payload ≡ err (unsupported_version got v)
    other got v h = ground arith

-- What one seal closes only the verifier of its version opens, whatever was sealed.
pub open_envelope-seal :
    (claim : ℕ) (payload : List ℕ)
    → (open_envelope (seal_061 claim payload) v0_6_1 ≡ ok payload)
      × (open_envelope (seal_062 claim payload) v0_6_2 ≡ ok payload)
      × (open_envelope (seal_061 claim payload) v0_6_2 ≡ err (unsupported_version v0_6_1 v0_6_2))
      × (open_envelope (seal_062 claim payload) v0_6_1 ≡ err (unsupported_version v0_6_2 v0_6_1))
unfolding open_envelope seal_061 seal_062
open_envelope-seal claim payload = (refl, refl, refl, refl)

-- The golden check passes exactly at the claim 294373.
pub verify_golden_iff : (e : ProofEnvelope) → (verify_golden e ≡ ok tt) ↔ (e.claim ≡ 294373)
unfolding verify_golden
verify_golden_iff e = ground arith
