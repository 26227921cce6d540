-- ===== src/OracleBridge/Encodes.antt =====
-- The proofs that `fri_prove` returns have an encoding under crates/tscp-verifier/src/oracle_bridge.rs.
use tscp_anchor.Prelude.{
  ℕ, ◌^◌, ◌≤◌, ◌<◌, ◌≡◌, refl, some, List, [], ◌∷◌, ◌++◌, length, lt→ltb, arith,
}
use tscp_anchor.Prelude.Bytes.{le_bytes}
use tscp_anchor.Field.{Field, PrimeField32}
use tscp_anchor.Merkle.{Mmcs, MerkleOpening}
use tscp_anchor.FriProtocol.{Challenger}
use tscp_anchor.FriQuery.{FriQueryRound, FriProof, fri_prove}
use tscp_anchor.OracleBridge.{
  Result, ok, encode_index, encode_indices, encode_opening, encode_round, encode_rounds,
  encode_queries, encode_fri_proof_v1, encode_fs_transcript_proxy_v1, serialize_run,
}
use tscp_anchor.OracleBridge.WellFormed.{All, none_left, each}
use tscp_anchor.OracleBridge.Indices.{IsWithin, Asked, fri_prove-Asked}

-- There is a value.
abbrev pub Made {ℓ} : {A : Type ℓ} → Result A → Type ℓ
Made {A} r = (a : A) × (r ≡ ok a)

encode_index-Made : (n i : ℕ) → n ≤ 2 ^ 64 → i < n → Made (encode_index i)
unfolding encode_index
encode_index-Made n i fits h = (le_bytes 8 i, rw (lt→ltb i (2 ^ 64) (omega (arith, h, fits))) refl)

encode_indices-Made :
    (n : ℕ) (is : List ℕ) → n ≤ 2 ^ 64 → All (λ i. i < n) is → Made (encode_indices is)
unfolding encode_indices
encode_indices-Made n [] fits none_left = ([], refl)
encode_indices-Made n (i ∷ is) fits (each h hs) =
    let (b, e) = encode_index-Made n i fits h in
    let (bs, es) = encode_indices-Made n is fits hs in (b ++ bs, rw (e, es) refl)

module _ {F : Type 0} ⦃p : PrimeField32 F⦄ where
  encode_opening-Made :
      (n : ℕ) (o : MerkleOpening F (List (List F)))
      → n ≤ 2 ^ 64
      → o.leaf_index < n
      → Made (encode_opening o)
  unfolding encode_opening
  encode_opening-Made n o fits h =
      let (b, e) = encode_index-Made n o.leaf_index fits h in rw e (_, refl)

  encode_round-Made :
      (n : ℕ) (r : FriQueryRound F (List (List F)))
      → n ≤ 2 ^ 64
      → IsWithin n r
      → Made (encode_round r)
  unfolding encode_round
  encode_round-Made n r fits h =
      let (x, ex) = encode_opening-Made n r.opening_x fits h.x in
      let (neg, en) = encode_opening-Made n r.opening_neg_x fits h.neg_x in
      let (folded, ef) = encode_opening-Made n r.opening_folded fits h.folded in
      (x ++ (neg ++ folded), rw (ex, en, ef) refl)

  encode_rounds-Made :
      (n : ℕ) (rs : List (FriQueryRound F (List (List F))))
      → n ≤ 2 ^ 64
      → All (IsWithin n) rs
      → Made (encode_rounds rs)
  unfolding encode_rounds
  encode_rounds-Made n [] fits none_left = ([], refl)
  encode_rounds-Made n (r ∷ rs) fits (each h hs) =
      let (b, e) = encode_round-Made n r fits h in
      let (bs, es) = encode_rounds-Made n rs fits hs in (b ++ bs, rw (e, es) refl)

  encode_queries-Made :
      (n : ℕ) (qs : List (List (FriQueryRound F (List (List F)))))
      → n ≤ 2 ^ 64
      → All (All (IsWithin n)) qs
      → Made (encode_queries qs)
  unfolding encode_queries
  encode_queries-Made n [] fits none_left = ([], refl)
  encode_queries-Made n (q ∷ qs) fits (each h hs) =
      let (b, e) = encode_rounds-Made n q fits h in
      let (bs, es) = encode_queries-Made n qs fits hs in rw (e, es) (_, refl)

  -- A proof whose indices stand below 2^64 is written.
  serialize_run-Made :
      (n : ℕ) (proof : FriProof F (List (List F)) (List (List F)))
      → n ≤ 2 ^ 64
      → Asked n proof.query_indices proof.query_proofs
      → Made (serialize_run proof)
  unfolding serialize_run encode_fri_proof_v1 encode_fs_transcript_proxy_v1
  serialize_run-Made n proof fits h =
      let (indices, ei) = encode_indices-Made n proof.query_indices fits h.0 in
      let (queries, eq) = encode_queries-Made n proof.query_proofs fits h.1 in rw (ei, eq) (_, refl)

module _ {F S : Type 0} ⦃f : Field F⦄ ⦃p : PrimeField32 F⦄
    (m : Mmcs F (List (List F)) (List (List F))) (c : Challenger F (List (List F)) S) where
  -- Over at most 2^64 evaluations, a proof that fri_prove returns is written without an error.
  pub serialize_run-fri_prove :
      (evals d : List F) (s after : S) (num_queries : ℕ)
      (proof : FriProof F (List (List F)) (List (List F)))
      → length evals ≤ 2 ^ 64
      → fri_prove m c evals d s num_queries ≡ some (proof, after)
      → Made (serialize_run proof)
  serialize_run-fri_prove evals d s after num_queries proof fits h =
      serialize_run-Made (length evals) proof fits
        (fri_prove-Asked m c evals d s after num_queries proof h)
