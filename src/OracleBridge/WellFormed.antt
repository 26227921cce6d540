-- ===== src/OracleBridge/WellFormed.antt =====
-- Proofs within the machine widths of crates/tscp-verifier/src/oracle_bridge.rs, and the parts they are
-- written in.
use tscp_anchor.Prelude.{
  ℕ, ◌*◌, ◌-◌, ◌^◌, ◌<◌, ◌≤◌, ◌≡◌, refl, true, List, [], ◌∷◌, length, length-append, arith, lt→ltb,
}
use tscp_anchor.Prelude.Bits.{is_power_of_two}
use tscp_anchor.Prelude.Bytes.{length-le_bytes}
use tscp_anchor.Field.{PrimeField32}
use tscp_anchor.Merkle.{MerkleOpening}
use tscp_anchor.FriQuery.{FriQueryRound, FriProof}
use tscp_anchor.OracleBridge.{write_elem, write_digest, write_digests}
use tscp_anchor.OracleBridge.Decode.{read_elem, read_digest}
use tscp_anchor.OracleBridge.Reads.{
  Reads, Reads-end, Reads-uint, Written, nothing, item, Reads-repeat,
}

pub data All {A : Type 0} (P : A → Type 0) : List A → Type 0 where
  none_left : All P []
  each : {a : A} {as' : List A} → P a → All P as' → All P (a ∷ as')

module _ {F : Type 0} ⦃p : PrimeField32 F⦄ where
  abbrev pub IsDigest : List F → Type 0
  IsDigest d = length d ≡ 8

  pub record IsCap (cap : List (List F)) : Type 0 where
    pub digests : All IsDigest cap
    pub power : is_power_of_two (length cap) ≡ true
    pub size : length cap < 2 ^ 32

  pub record IsOpening (o : MerkleOpening F (List (List F))) : Type 0 where
    pub index : o.leaf_index < 2 ^ 64
    pub digests : All IsDigest o.proof
    pub size : length o.proof < 2 ^ 32

  pub record IsRound (r : FriQueryRound F (List (List F))) : Type 0 where
    pub x : IsOpening r.opening_x
    pub neg_x : IsOpening r.opening_neg_x
    pub folded : IsOpening r.opening_folded

  pub record IsQuery (n : ℕ) (rs : List (FriQueryRound F (List (List F)))) : Type 0 where
    pub rounds : All IsRound rs
    pub count : length rs ≡ n

  pub record IsProof (proof : FriProof F (List (List F)) (List (List F))) : Type 0 where
    pub caps : All IsCap proof.commitment.roots
    pub folds : 2 ≤ length proof.commitment.roots
    pub size : length proof.commitment.roots < 2 ^ 32
    pub indices : All (λ i. i < 2 ^ 64) proof.query_indices
    pub some_query : 0 < length proof.query_indices
    pub query_size : length proof.query_indices < 2 ^ 32
    pub queries : All (IsQuery (length proof.commitment.roots - 1)) proof.query_proofs
    pub query_count : length proof.query_proofs ≡ length proof.query_indices

  pub Reads-elem : (e : F) → Reads (read_elem F) (write_elem e) e
  unfolding read_elem write_elem
  Reads-elem e =
      Reads-end _
        (Reads-uint 4 (p.as_canonical_u32 e) (omega (arith, p.canonical-lt e, p.order-lt)))
        (λ rest. rw (lt→ltb _ _ (p.canonical-lt e), p.of_u32-canonical e) refl)

  pub length-write_elem : (e : F) → length (write_elem e) ≡ 4
  unfolding write_elem
  length-write_elem e = length-le_bytes 4 (p.as_canonical_u32 e)

  digest_elems : (d : List F) → Written (read_elem F) 4 d (write_digest d)
  unfolding write_digest
  digest_elems [] = nothing
  digest_elems (e ∷ d) = item (Reads-elem e) (omega (arith, length-write_elem e)) (digest_elems d)

  pub length-write_digest : (d : List F) → length (write_digest d) ≡ 4 * length d
  unfolding write_digest
  length-write_digest [] = refl
  length-write_digest (e ∷ d) = omega (
    arith,
    length-append (write_elem e) (write_digest d),
    length-write_elem e,
    length-write_digest d,
  )

  Reads-digest : (d : List F) → IsDigest d → Reads (read_digest F) (write_digest d) d
  unfolding read_digest
  Reads-digest d h = rw h at (Reads-repeat (digest_elems d))

  pub Written-digests :
      {ds : List (List F)} → All IsDigest ds → Written (read_digest F) 32 ds (write_digests ds)
  unfolding write_digests
  Written-digests none_left = nothing
  Written-digests (each {a = d} h hs) =
      item (Reads-digest d h) (omega (arith, length-write_digest d, h)) (Written-digests hs)
