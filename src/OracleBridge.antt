-- ===== src/OracleBridge.antt =====
-- crates/tscp-verifier/src/oracle_bridge.rs: the canonical bytes of a FRI proof, written here and read
-- in Decode. A commitment is the list of its digests, a Merkle proof the list of the siblings'.
pub mod Decode
pub mod Reads
pub mod WellFormed
pub mod Writes
pub mod RoundTrip
pub mod Instrumented
pub mod Indices
pub mod Encodes
use tscp_anchor.Prelude.{ℕ, zero, suc, ◌%◌, ◌^◌, List, [], ◌∷◌, ◌++◌, length, ltb, if◌then◌else◌}
use tscp_anchor.Prelude.Bytes.{Bytes, le_bytes}
use tscp_anchor.Field.{PrimeField32}
use tscp_anchor.Merkle.{MerkleOpening}
use tscp_anchor.FriProtocol.{FriCommitment}
use tscp_anchor.FriQuery.{FriQueryRound, FriProof}

-- Why bytes are refused, in place of the messages.
pub data SerializationCause : Type 0 where
  truncated bad_magic no_queries trailing_bytes : SerializationCause
  unsupported_version not_canonical too_few_roots digest_count : ℕ → SerializationCause
  length_prefix round_count : ℕ → ℕ → SerializationCause
  index_too_large : ℕ → SerializationCause

pub data InputCause : Type 0 where
  evals_empty : InputCause
  not_power_of_two : ℕ → InputCause
  domain_length : ℕ → ℕ → InputCause

pub data BridgeError : Type 0 where
  invalid_input : InputCause → BridgeError
  verification_failed : BridgeError
  serialization_error : SerializationCause → BridgeError

pub data Result {ℓ} (A : Type ℓ) : Type ℓ where
  ok : A → Result A
  err : BridgeError → Result A

infixl 5 ◌>>=◌
abbrev pub ◌>>=◌ {ℓ κ} : {A : Type ℓ} {B : Type κ} → Result A → (A → Result B) → Result B
ok a >>= g = g a
err e >>= g = err e

-- `*b"tscp-fri"` and `*b"tscp-fst"`
abbrev pub fri_proof_magic : Bytes
fri_proof_magic = 116 ∷ 115 ∷ 99 ∷ 112 ∷ 45 ∷ 102 ∷ 114 ∷ 105 ∷ []

abbrev pub fs_transcript_proxy_magic : Bytes
fs_transcript_proxy_magic = 116 ∷ 115 ∷ 99 ∷ 112 ∷ 45 ∷ 102 ∷ 115 ∷ 116 ∷ []

abbrev pub fri_proof_format_version : ℕ
fri_proof_format_version = 1

abbrev pub commitment_digest_elems : ℕ
commitment_digest_elems = 8

-- `v as u32`
abbrev pub as_u32 : ℕ → ℕ
as_u32 n = n % 2 ^ 32

-- `u64::try_from(*idx)` and `write_u64`
unfoldable pub encode_index : ℕ → Result Bytes
encode_index idx =
    if ltb idx (2 ^ 64)
    then ok (le_bytes 8 idx)
    else err (serialization_error (index_too_large idx))

unfoldable pub encode_indices : List ℕ → Result Bytes
encode_indices [] = ok []
encode_indices (i ∷ is) = do b ← encode_index i; bs ← encode_indices is; ok (b ++ bs)

module _ {F : Type 0} ⦃p : PrimeField32 F⦄ where
  unfoldable pub write_elem : F → Bytes
  write_elem e = le_bytes 4 (p.as_canonical_u32 e)

  unfoldable pub write_digest : List F → Bytes
  write_digest [] = []
  write_digest (e ∷ es) = write_elem e ++ write_digest es

  -- `for d in digests`
  unfoldable pub write_digests : List (List F) → Bytes
  write_digests [] = []
  write_digests (d ∷ ds) = write_digest d ++ write_digests ds

  -- `for cap in roots`
  unfoldable pub write_caps : List (List (List F)) → Bytes
  write_caps [] = []
  write_caps (cap ∷ caps) =
      le_bytes 4 (as_u32 (length cap)) ++ (write_digests cap ++ write_caps caps)

  unfoldable pub encode_commitment_roots : List (List (List F)) → F → Bytes
  encode_commitment_roots roots final_value =
      write_elem final_value ++ (le_bytes 4 (as_u32 (length roots)) ++ write_caps roots)

  unfoldable pub encode_opening : MerkleOpening F (List (List F)) → Result Bytes
  encode_opening o = do
    index ← encode_index o.leaf_index
    ok (
        index
        ++ (write_elem o.leaf_value
            ++ (le_bytes 4 (as_u32 (length o.proof)) ++ write_digests o.proof)))

  -- The three openings of a round.
  unfoldable pub encode_round : FriQueryRound F (List (List F)) → Result Bytes
  encode_round r = do
    x ← encode_opening r.opening_x
    neg_x ← encode_opening r.opening_neg_x
    folded ← encode_opening r.opening_folded
    ok (x ++ (neg_x ++ folded))

  -- `for round in query`
  unfoldable pub encode_rounds : List (FriQueryRound F (List (List F))) → Result Bytes
  encode_rounds [] = ok []
  encode_rounds (r ∷ rs) = do b ← encode_round r; bs ← encode_rounds rs; ok (b ++ bs)

  -- `for query in &proof.query_proofs`
  unfoldable pub encode_queries : List (List (FriQueryRound F (List (List F)))) → Result Bytes
  encode_queries [] = ok []
  encode_queries (q ∷ qs) = do
    b ← encode_rounds q
    bs ← encode_queries qs
    ok (le_bytes 4 (as_u32 (length q)) ++ (b ++ bs))

  unfoldable pub encode_fri_proof_v1 : FriProof F (List (List F)) (List (List F)) → Result Bytes
  encode_fri_proof_v1 proof = do
    indices ← encode_indices proof.query_indices
    queries ← encode_queries proof.query_proofs
    ok (
        fri_proof_magic
        ++ (le_bytes 2 fri_proof_format_version
            ++ (encode_commitment_roots proof.commitment.roots proof.commitment.final_value
                ++ (le_bytes 4 (as_u32 (length proof.query_indices)) ++ (indices ++ queries)))))

  unfoldable pub encode_fs_transcript_proxy_v1 :
      FriProof F (List (List F)) (List (List F)) → Result Bytes
  encode_fs_transcript_proxy_v1 proof = ok (
      fs_transcript_proxy_magic
      ++ (le_bytes 2 fri_proof_format_version
          ++ encode_commitment_roots proof.commitment.roots proof.commitment.final_value))

  -- The proof's bytes and the transcript's.
  unfoldable pub serialize_run : FriProof F (List (List F)) (List (List F)) → Result (Bytes × Bytes)
  serialize_run proof = do
    proof_bytes ← encode_fri_proof_v1 proof
    transcript_bytes ← encode_fs_transcript_proxy_v1 proof
    ok (proof_bytes, transcript_bytes)
