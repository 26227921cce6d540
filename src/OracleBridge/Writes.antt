-- ===== src/OracleBridge/Writes.antt =====
-- The parts of a proof written and read back, under crates/tscp-verifier/src/oracle_bridge.rs.
use tscp_anchor.Prelude.{
  ℕ, zero, suc, ◌*◌, ◌^◌, ◌<◌, ◌≤◌, ◌≡◌, refl, sym, ap, ◌∙◌, true, List, [], ◌++◌, length,
  length-append, arith, lt→ltb, ltb, ◌==◌, ==_iff, not, ◌||◌,
}
use mathlib.Core.List.{append_assoc}
use tscp_anchor.Prelude.Bits.{is_power_of_two}
use tscp_anchor.Prelude.Bytes.{Bytes, le_bytes, length-le_bytes}
use tscp_anchor.Field.{PrimeField32}
use tscp_anchor.Merkle.{MerkleOpening}
use tscp_anchor.FriQuery.{FriQueryRound}
use tscp_anchor.OracleBridge.{
  Result, ok, encode_index, encode_indices, write_elem, write_digests, write_caps, encode_opening,
  encode_round, encode_rounds, encode_queries, as_u32,
}
use tscp_anchor.OracleBridge.Decode.{
  Reader, read_usize_from_u64, read_cap, read_opening, read_round, read_query,
}
use tscp_anchor.OracleBridge.Reads.{
  Reads, Reads-bind, Reads-require, Reads-end, Reads-uint, Reads-bounded, Written, nothing, item,
  Written-length, Reads-repeat,
}
use tscp_anchor.OracleBridge.WellFormed.{
  All, none_left, each, IsCap, IsOpening, IsRound, IsQuery, Reads-elem, Written-digests,
}

-- What a fallible writer wrote, and that a reader reads it.
pub record Encoded {A : Type 0} (written : Result Bytes) (r : Reader A) (w : ℕ) (a : A)
    : Type 0 where
  pub bytes : Bytes
  pub made : written ≡ ok bytes
  pub read : Reads r bytes a
  pub width : w ≤ length bytes

pub record AllEncoded {A : Type 0} (written : Result Bytes) (r : Reader A) (w : ℕ) (as' : List A)
    : Type 0 where
  pub bytes : Bytes
  pub made : written ≡ ok bytes
  pub read : Written r w as' bytes

pub u32_exact : (n : ℕ) → n < 2 ^ 32 → as_u32 n ≡ n
u32_exact n h = omega arith

pub encode_index-Encoded : (i : ℕ) → i < 2 ^ 64 → Encoded (encode_index i) read_usize_from_u64 8 i
unfolding encode_index read_usize_from_u64
encode_index-Encoded i h = record {
  bytes = le_bytes 8 i;
  made = rw (lt→ltb i (2 ^ 64) h) refl;
  read = Reads-uint 8 i (omega arith);
  width = omega (arith, length-le_bytes 8 i);
}

pub encode_indices-Encoded :
    {is : List ℕ}
    → All (λ i. i < 2 ^ 64) is
    → AllEncoded (encode_indices is) read_usize_from_u64 8 is
unfolding encode_indices
encode_indices-Encoded none_left = record { bytes = []; made = refl; read = nothing }
encode_indices-Encoded (each {a = i} {as' = is} h hs) =
    let e = encode_index-Encoded i h in
    let es : AllEncoded (encode_indices is) read_usize_from_u64 8 is = encode_indices-Encoded hs in
    record {
      bytes = e.bytes ++ es.bytes;
      made = rw (e.made, es.made) refl;
      read = item e.read e.width es.read;
    }

pub positive_power :
    (n : ℕ) → is_power_of_two n ≡ true → not ((n == 0) || not (is_power_of_two n)) ≡ true
positive_power zero h = absurd (unfold is_power_of_two in cc)
positive_power (suc n) h = rw h (ground arith)

pub front : (xs ys : Bytes) (w : ℕ) → w ≤ length xs → w ≤ length (xs ++ ys)
front xs ys w h = omega (arith, length-append xs ys)

pub budget : (n w : ℕ) (xs ys : Bytes) → n * w ≤ length xs → n * w ≤ length (xs ++ ys)
budget n w xs ys h = omega (arith, length-append xs ys)

pub nested :
    (magic version elem len caps tail : Bytes)
    → magic ++ (version ++ (elem ++ (len ++ (caps ++ tail))))
      ≡ magic ++ (version ++ ((elem ++ (len ++ caps)) ++ tail))
nested magic version elem len caps tail =
    ap (λ t. magic ++ (version ++ t))
      (ap (λ t. elem ++ t) (sym (append_assoc len caps tail))
        ∙ sym (append_assoc elem (len ++ caps) tail))

pub two_or_more : (n : ℕ) → 2 ≤ n → not (ltb n 2) ≡ true
two_or_more n h = ground arith

pub not_none : (n : ℕ) → 0 < n → not (n == 0) ≡ true
not_none n h = ground arith

module _ {F : Type 0} ⦃p : PrimeField32 F⦄ where
  pub Reads-cap :
      (cap : List (List F))
      → IsCap cap
      → Reads (read_cap F) (le_bytes 4 (as_u32 (length cap)) ++ write_digests cap) cap
  unfolding read_cap
  Reads-cap cap h = rw (u32_exact (length cap) h.size) (
      Reads-bounded _ 32 (length cap) (omega arith) h.size
        (Written-length 32 (Written-digests h.digests))
        (Reads-require _ (positive_power (length cap) h.power)
          (Reads-repeat (Written-digests h.digests))))

  pub Written-caps :
      {caps : List (List (List F))} → All IsCap caps → Written (read_cap F) 4 caps (write_caps caps)
  unfolding write_caps
  Written-caps none_left = nothing
  Written-caps (each {a = cap} {as' = caps} h hs) =
      let rest : Written (read_cap F) 4 caps (write_caps caps) = Written-caps hs in
      rw (append_assoc (le_bytes 4 (as_u32 (length cap))) (write_digests cap) (write_caps caps)) at
        (item (Reads-cap cap h)
          (front _ (write_digests cap) 4 (omega (arith, length-le_bytes 4 (as_u32 (length cap)))))
          rest)

  pub encode_opening-Encoded :
      (o : MerkleOpening F (List (List F)))
      → IsOpening o
      → Encoded (encode_opening o) (read_opening F) 8 o
  unfolding encode_opening read_opening
  encode_opening-Encoded o h =
      let e = encode_index-Encoded o.leaf_index h.index in
      record {
        bytes =
            e.bytes
            ++ (write_elem o.leaf_value ++ (le_bytes 4 (length o.proof) ++ write_digests o.proof));
        made = rw (e.made, u32_exact (length o.proof) h.size) refl;
        read = Reads-bind _ e.read (
            Reads-bind _ (Reads-elem o.leaf_value) (
              Reads-bounded _ 32 (length o.proof) (omega arith) h.size
                (Written-length 32 (Written-digests h.digests))
                (Reads-end _ (Reads-repeat (Written-digests h.digests)) (λ rest. refl))));
        width = front e.bytes _ 8 e.width;
      }

  pub encode_round-Encoded :
      (r : FriQueryRound F (List (List F)))
      → IsRound r
      → Encoded (encode_round r) (read_round F) 8 r
  unfolding encode_round read_round
  encode_round-Encoded r h =
      let x = encode_opening-Encoded r.opening_x h.x in
      let neg_x = encode_opening-Encoded r.opening_neg_x h.neg_x in
      let folded = encode_opening-Encoded r.opening_folded h.folded in
      record {
        bytes = x.bytes ++ (neg_x.bytes ++ folded.bytes);
        made = rw (x.made, neg_x.made, folded.made) refl;
        read =
            Reads-bind _ x.read (Reads-bind _ neg_x.read (Reads-end _ folded.read (λ rest. refl)));
        width = front x.bytes _ 8 x.width;
      }

  pub encode_rounds-Encoded :
      {rs : List (FriQueryRound F (List (List F)))}
      → All IsRound rs
      → AllEncoded (encode_rounds rs) (read_round F) 8 rs
  unfolding encode_rounds
  encode_rounds-Encoded none_left = record { bytes = []; made = refl; read = nothing }
  encode_rounds-Encoded (each {a = r} {as' = rs} h hs) =
      let e = encode_round-Encoded r h in
      let es : AllEncoded (encode_rounds rs) (read_round F) 8 rs = encode_rounds-Encoded hs in
      record {
        bytes = e.bytes ++ es.bytes;
        made = rw (e.made, es.made) refl;
        read = item e.read e.width es.read;
      }

  pub Reads-query :
      (n : ℕ) (rs : List (FriQueryRound F (List (List F)))) (bytes : Bytes)
      → n < 2 ^ 32
      → length rs ≡ n
      → Written (read_round F) 8 rs bytes
      → Reads (read_query F n) (le_bytes 4 (as_u32 (length rs)) ++ bytes) rs
  unfolding read_query
  Reads-query n rs bytes small count written = rw (u32_exact (length rs) (omega arith)) (
      Reads-bounded _ 8 (length rs) (omega arith) (omega arith) (Written-length 8 written)
        (Reads-require _ ((==_iff _ _).1 count) (Reads-repeat written)))

  pub encode_queries-Encoded :
      (n : ℕ) {qs : List (List (FriQueryRound F (List (List F))))}
      → n < 2 ^ 32
      → All (IsQuery n) qs
      → AllEncoded (encode_queries qs) (read_query F n) 4 qs
  unfolding encode_queries
  encode_queries-Encoded n small none_left = record { bytes = []; made = refl; read = nothing }
  encode_queries-Encoded n small (each {a = q} {as' = qs} h hs) =
      let e = encode_rounds-Encoded h.rounds in
      let es : AllEncoded (encode_queries qs) (read_query F n) 4 qs =
        encode_queries-Encoded n small hs in
      let len : Bytes = le_bytes 4 (as_u32 (length q)) in
      record {
        bytes = len ++ (e.bytes ++ es.bytes);
        made = rw (e.made, es.made) refl;
        read = rw (append_assoc len e.bytes es.bytes) at (
            item (Reads-query n q e.bytes small h.count e.read)
              (front len e.bytes 4 (omega (arith, length-le_bytes 4 (as_u32 (length q))))) es.read);
      }
