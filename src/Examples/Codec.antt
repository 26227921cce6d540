-- ===== src/Examples/Codec.antt =====
-- A proof with two roots and one query, written and read.
use tscp_anchor.Prelude.{ℕ, ◌≡◌, refl, List, [], ◌∷◌, ◌++◌, arith}
use tscp_anchor.Prelude.Bits.{is_power_of_two}
use tscp_anchor.Prelude.Bytes.{Bytes}
use tscp_anchor.Field.Five.{Five, e0, e1, e2, e3, e4, five_prime}
use tscp_anchor.Merkle.{MerkleOpening}
use tscp_anchor.FriQuery.{FriQueryRound, FriProof}
use tscp_anchor.OracleBridge.{ok, err, serialization_error, trailing_bytes, encode_fri_proof_v1}
use tscp_anchor.OracleBridge.Decode.{decode_fri_proof_v1}
use tscp_anchor.OracleBridge.WellFormed.{none_left, each, IsCap, IsOpening, IsRound, IsProof}
use tscp_anchor.OracleBridge.RoundTrip.{decode-encode_fri_proof_v1}

abbrev digest : List Five
digest = e0 ∷ e1 ∷ e2 ∷ e3 ∷ e4 ∷ e0 ∷ e1 ∷ e2 ∷ []

abbrev opening : MerkleOpening Five (List (List Five))
opening = record { leaf_index = 3; leaf_value = e4; proof = digest ∷ [] }

abbrev round : FriQueryRound Five (List (List Five))
round = record { opening_x = opening; opening_neg_x = opening; opening_folded = opening }

abbrev fri_proof : FriProof Five (List (List Five)) (List (List Five))
fri_proof = record {
  commitment = record { roots = (digest ∷ []) ∷ (digest ∷ []) ∷ []; final_value = e2 };
  query_proofs = (round ∷ []) ∷ [];
  query_indices = 1 ∷ [];
}

one_digest-IsCap : IsCap (digest ∷ [])
unfolding is_power_of_two
one_digest-IsCap = record { digests = each refl none_left; power = refl; size = omega arith }

opening-IsOpening : IsOpening opening
opening-IsOpening = record {
  index = omega arith;
  digests = each refl none_left;
  size = omega arith;
}

round-IsRound : IsRound round
round-IsRound = record {
  x = opening-IsOpening;
  neg_x = opening-IsOpening;
  folded = opening-IsOpening;
}

fri_proof-IsProof : IsProof fri_proof
fri_proof-IsProof = record {
  caps = each one_digest-IsCap (each one_digest-IsCap none_left);
  folds = omega arith;
  size = omega arith;
  indices = each (omega arith) none_left;
  some_query = omega arith;
  query_size = omega arith;
  queries = each (record { rounds = each round-IsRound none_left; count = refl }) none_left;
  query_count = refl;
}

decode-encode_fri_proof_v1_example :
    (bytes : Bytes) × (encode_fri_proof_v1 fri_proof ≡ ok bytes)
    × (decode_fri_proof_v1 Five bytes ≡ ok fri_proof)
    × ((b : ℕ) (more : Bytes)
        → decode_fri_proof_v1 Five (bytes ++ b ∷ more) ≡ err (serialization_error trailing_bytes))
decode-encode_fri_proof_v1_example = decode-encode_fri_proof_v1 fri_proof fri_proof-IsProof
