-- ===== src/OracleBridge/Decode.antt =====
-- `Reader` and `decode_fri_proof_v1` of crates/tscp-verifier/src/oracle_bridge.rs. The reader's state
-- is the bytes behind its position.
use tscp_anchor.Prelude.{
  ℕ, zero, suc, ◌*◌, ◌/◌, ◌-◌, Bool, true, false, ◌||◌, not, List, [], ◌∷◌, length,
  take as take_list, drop, ltb, leb, ◌==◌, if◌then◌else◌,
}
use tscp_anchor.Prelude.Bits.{is_power_of_two}
use tscp_anchor.Prelude.Bytes.{Bytes, bytes_eq, le_value}
use tscp_anchor.Field.{PrimeField32}
use tscp_anchor.Merkle.{MerkleOpening}
use tscp_anchor.FriQuery.{FriQueryRound, FriProof}
use tscp_anchor.OracleBridge.{
  BridgeError, serialization_error, truncated, bad_magic, no_queries, trailing_bytes,
  unsupported_version, not_canonical, too_few_roots, digest_count, length_prefix, round_count,
  Result, ok, err, fri_proof_magic, fri_proof_format_version, commitment_digest_elems,
}

abbrev pub Reader : Type 0 → Type 0
Reader A = Bytes → Result (A × Bytes)

abbrev pub after : {A B : Type 0} → Result (A × Bytes) → (A → Reader B) → Result (B × Bytes)
after (ok (a, rest)) g = g a rest
after (err e) g = err e

infixl 5 ◌>>=◌ ◌>>◌
abbrev pub ◌>>=◌ : {A B : Type 0} → Reader A → (A → Reader B) → Reader B
(r >>= g) bytes = after (r bytes) g

abbrev pub ◌>>◌ : {B : Type 0} → Reader (Unit {0}) → Reader B → Reader B
r >> k = r >>= λ _. k

abbrev pub pure : {A : Type 0} → A → Reader A
pure a rest = ok (a, rest)

-- An early return of an error.
abbrev pub require : Bool → BridgeError → Reader (Unit {0})
require true e rest = ok (tt, rest)
require false e rest = err e

unfoldable pub take : ℕ → Reader Bytes
take n bytes =
    if leb n (length bytes)
    then ok (take_list n bytes, drop n bytes)
    else err (serialization_error truncated)

-- `read_u16`, `read_u32` and `read_u64`, by their widths in bytes.
unfoldable pub read_uint : ℕ → Reader ℕ
unfolding take
read_uint width = do b ← take width; pure (le_value b)

-- The length prefix is checked against the bytes left.
unfoldable pub read_bounded_len : ℕ → Reader ℕ
unfolding read_uint
read_bounded_len item_width = do
  n ← read_uint 4
  λ rest.
      if ltb (length rest / item_width) n
      then err (serialization_error (length_prefix n (length rest)))
      else ok (n, rest)

-- On a 64-bit target every `u64` is a `usize`.
unfoldable pub read_usize_from_u64 : Reader ℕ
unfolding read_uint
read_usize_from_u64 = read_uint 8

-- `for _ in 0..n`, what is read pushed.
unfoldable pub repeat : {A : Type 0} → ℕ → Reader A → Reader (List A)
repeat zero r = pure []
repeat (suc n) r = do a ← r; as' ← repeat n r; pure (a ∷ as')

-- `if r.pos != bytes.len()`
unfoldable pub at_end : {A : Type 0} → Result (A × Bytes) → Result A
at_end (ok (a, [])) = ok a
at_end (ok (a, b ∷ rest)) = err (serialization_error trailing_bytes)
at_end (err e) = err e

module _ (F : Type 0) ⦃p : PrimeField32 F⦄ where
  unfoldable pub read_elem : Reader F
  unfolding read_uint
  read_elem = do
    v ← read_uint 4
    require (ltb v p.order) (serialization_error (not_canonical v))
    pure (p.of_u32 v)

  unfoldable pub read_digest : Reader (List F)
  unfolding read_elem repeat
  read_digest = repeat commitment_digest_elems read_elem

  unfoldable pub read_cap : Reader (List (List F))
  unfolding read_digest read_bounded_len repeat
  read_cap = do
    num_digests ← read_bounded_len (commitment_digest_elems * 4)
    require (not ((num_digests == 0) || not (is_power_of_two num_digests)))
        (serialization_error (digest_count num_digests))
    repeat num_digests read_digest

  -- The closure `read_opening`.
  unfoldable pub read_opening : Reader (MerkleOpening F (List (List F)))
  unfolding read_usize_from_u64 read_elem read_digest read_bounded_len repeat
  read_opening = do
    leaf_index ← read_usize_from_u64
    leaf_value ← read_elem
    auth_len ← read_bounded_len (commitment_digest_elems * 4)
    auth ← repeat auth_len read_digest
    pure (record { leaf_index = leaf_index; leaf_value = leaf_value; proof = auth })

  unfoldable pub read_round : Reader (FriQueryRound F (List (List F)))
  unfolding read_opening
  read_round = do
    x ← read_opening
    neg_x ← read_opening
    folded ← read_opening
    pure (record { opening_x = x; opening_neg_x = neg_x; opening_folded = folded })

  unfoldable pub read_query : ℕ → Reader (List (FriQueryRound F (List (List F))))
  unfolding read_round read_bounded_len repeat
  read_query expected_rounds = do
    num_rounds ← read_bounded_len 8
    require (num_rounds == expected_rounds)
        (serialization_error (round_count num_rounds expected_rounds))
    repeat num_rounds read_round

  -- `decode_fri_proof_v1` up to its check for trailing bytes.
  unfoldable pub read_proof : Reader (FriProof F (List (List F)) (List (List F)))
  unfolding take read_uint read_elem read_cap read_query read_usize_from_u64 read_bounded_len repeat
  read_proof = do
    magic ← take 8
    require (bytes_eq magic fri_proof_magic) (serialization_error bad_magic)
    version ← read_uint 2
    require (version == fri_proof_format_version)
        (serialization_error (unsupported_version version))
    final_value ← read_elem
    num_roots ← read_bounded_len 4
    require (not (ltb num_roots 2)) (serialization_error (too_few_roots num_roots))
    roots ← repeat num_roots read_cap
    num_queries ← read_bounded_len 8
    require (not (num_queries == 0)) (serialization_error no_queries)
    query_indices ← repeat num_queries read_usize_from_u64
    query_proofs ← repeat num_queries (read_query (num_roots - 1))
    pure (record {
      commitment = record { roots = roots; final_value = final_value };
      query_proofs = query_proofs;
      query_indices = query_indices;
    })

  unfoldable pub decode_fri_proof_v1 : Bytes → Result (FriProof F (List (List F)) (List (List F)))
  unfolding at_end read_proof
  decode_fri_proof_v1 bytes = at_end (read_proof bytes)
