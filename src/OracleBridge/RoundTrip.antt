-- ===== src/OracleBridge/RoundTrip.antt =====
-- `encode_fri_proof_v1` and `decode_fri_proof_v1` of crates/tscp-verifier/src/oracle_bridge.rs, one
-- behind the other.
use tscp_anchor.Prelude.{ℕ, ◌-◌, ◌≡◌, refl, sym, ap, ◌∙◌, List, [], ◌∷◌, ◌++◌, length, arith}
use mathlib.Core.List.{append-nil}
use tscp_anchor.Prelude.Bytes.{Bytes, bytes_eq_refl, le_bytes}
use tscp_anchor.Field.{PrimeField32}
use tscp_anchor.FriQuery.{FriQueryRound, FriProof}
use tscp_anchor.OracleBridge.{
  ok, err, serialization_error, unsupported_version, trailing_bytes, encode_indices, write_elem,
  write_caps, encode_commitment_roots, encode_queries, encode_fri_proof_v1, fri_proof_magic,
}
use tscp_anchor.OracleBridge.Decode.{
  read_usize_from_u64, repeat, read_cap, read_query, read_proof, at_end, decode_fri_proof_v1,
}
use tscp_anchor.OracleBridge.Reads.{
  Reads, Reads-bind, Reads-require, Reads-end, Reads-take, Reads-uint, Reads-bounded, Written,
  Written-length, Reads-repeat,
}
use tscp_anchor.OracleBridge.WellFormed.{IsProof, Reads-elem}
use tscp_anchor.OracleBridge.Writes.{
  Encoded, AllEncoded, u32_exact, encode_indices-Encoded, front, budget, nested, two_or_more,
  not_none, Written-caps, encode_queries-Encoded,
}

module _ {F : Type 0} ⦃p : PrimeField32 F⦄ where
  -- The queries and what they wrote, read as many times as there are indices.
  Reads-queries :
      (n m : ℕ) {qs : List (List (FriQueryRound F (List (List F))))} {bytes : Bytes}
      → length qs ≡ m
      → Written (read_query F n) 4 qs bytes
      → Reads (repeat m (read_query F n)) bytes qs
  Reads-queries n m h written = rw h at (Reads-repeat written)

  encode_fri_proof_v1-Encoded :
      (proof : FriProof F (List (List F)) (List (List F)))
      → IsProof proof
      → Encoded (encode_fri_proof_v1 proof) (read_proof F) 8 proof
  unfolding encode_fri_proof_v1 encode_commitment_roots read_proof
  encode_fri_proof_v1-Encoded proof h =
      let roots = proof.commitment.roots in
      let nr : ℕ = length roots in
      let nq : ℕ = length proof.query_indices in
      let v : F = proof.commitment.final_value in
      let is : AllEncoded (encode_indices proof.query_indices) read_usize_from_u64 8
          proof.query_indices =
        encode_indices-Encoded h.indices in
      let qs : AllEncoded (encode_queries proof.query_proofs) (read_query F (nr - 1)) 4
          proof.query_proofs =
        encode_queries-Encoded (nr - 1) (omega (arith, h.size)) h.queries in
      let caps : Written (read_cap F) 4 roots (write_caps roots) = Written-caps h.caps in
      let tail : Bytes = le_bytes 4 nq ++ (is.bytes ++ qs.bytes) in
      record {
        bytes =
            fri_proof_magic
            ++ (le_bytes 2 1 ++ ((write_elem v ++ (le_bytes 4 nr ++ write_caps roots)) ++ tail));
        made = rw (is.made, qs.made, u32_exact nr h.size, u32_exact nq h.query_size) refl;
        read =
            let rd : Reads (read_proof F)
                (fri_proof_magic
                  ++ (le_bytes 2 1
                      ++ (write_elem v ++ (le_bytes 4 nr ++ (write_caps roots ++ tail)))))
                proof =
              (Reads-bind _ (Reads-take fri_proof_magic 8 refl) (
                Reads-require _ (bytes_eq_refl fri_proof_magic) (
                  Reads-bind _ (Reads-uint 2 1 (omega arith)) (
                    Reads-require (serialization_error (unsupported_version 1)) refl (
                      Reads-bind _ (Reads-elem v) (
                        Reads-bounded _ 4 nr (omega arith) h.size
                          (budget nr 4 (write_caps roots) tail (Written-length 4 caps))
                          (Reads-require _ (two_or_more nr h.folds) (
                            Reads-bind _ (Reads-repeat caps) (
                              Reads-bounded _ 8 nq (omega arith) h.query_size
                                (budget nq 8 is.bytes qs.bytes (Written-length 8 is.read))
                                (Reads-require _ (not_none nq h.some_query) (
                                  Reads-bind _ (Reads-repeat is.read) (
                                    Reads-end _ (Reads-queries (nr - 1) nq h.query_count qs.read)
                                      (λ rest. refl))))))))))))) in
            rw
              (nested fri_proof_magic (le_bytes 2 1) (write_elem v) (le_bytes 4 nr)
                (write_caps roots) tail)
              at rd;
        width = front fri_proof_magic _ 8 (omega arith);
      }

  -- A well-formed proof, with at least one fold and one query and lengths and indices within their
  -- machine widths, has an encoding; decoding it returns the proof, and decoding it with anything
  -- behind it is refused.
  pub decode-encode_fri_proof_v1 :
      (proof : FriProof F (List (List F)) (List (List F)))
      → IsProof proof
      → (bytes : Bytes) × (encode_fri_proof_v1 proof ≡ ok bytes)
        × (decode_fri_proof_v1 F bytes ≡ ok proof)
        × ((b : ℕ) (more : Bytes)
            → decode_fri_proof_v1 F (bytes ++ b ∷ more) ≡ err (serialization_error trailing_bytes))
  unfolding decode_fri_proof_v1 at_end
  decode-encode_fri_proof_v1 proof h =
      let e = encode_fri_proof_v1-Encoded proof h in
      (
        e.bytes,
        e.made,
        ap at_end (ap (read_proof F) (sym (append-nil e.bytes)) ∙ e.read.reads []),
        λ b more. ap at_end (e.read.reads (b ∷ more)),
      )
