-- ===== src/FriQuery/Forgery.antt =====
-- Openings of one leaf under `fri_verify` of crates/oracle-layer/src/fri_query.rs, which does not compare
-- an opening's leaf index with the query.
use tscp_anchor.Prelude.{
  ℕ, zero, suc, ◌%◌, ◌^◌, ◌≡◌, ◌≢◌, refl, sym, ap, ◌∙◌, true, some, List, [], ◌∷◌, length,
  get_elem?, arith,
}
use tscp_anchor.Prelude.Bits.{pow_two-pos}
use tscp_anchor.Field.{Field, PrimeField32, from_u64}
use tscp_anchor.Merkle.{Mmcs}
use tscp_anchor.Fri.Fold.{NonZero}
use tscp_anchor.FriProtocol.{Challenger, FriCommitment}
use tscp_anchor.FriQuery.{
  FriQueryRound, FriProof, sample_index, derive_betas, verify_queries, fri_verify,
}
use tscp_anchor.FriQuery.Chain.{rem_usize-some}
use tscp_anchor.FriQuery.Accept.{verify_query-accepts, verify_from_accepts}
use tscp_anchor.FriQuery.Forged.{
  AllOpenTwice, none_left, query, forged_layers, forged_roots, forged_query,
}

module _ {ℓ} {F : Type ℓ} {C P : Type 0} ⦃f : Field F⦄ (m : Mmcs F C P) where
  length-forged_roots : (k : ℕ) (a : F) → length (forged_roots m k a) ≡ k
  unfolding forged_layers
  length-forged_roots zero a = refl
  length-forged_roots (suc k) a = ap suc (length-forged_roots k a)

  module _ {S : Type 0} ⦃p : PrimeField32 F⦄ (c : Challenger F C S) where
    length-derive_betas :
        (roots : List C) (s : S) → length (derive_betas c roots s).0 ≡ length roots
    unfolding derive_betas
    length-derive_betas [] s = refl
    length-derive_betas (r ∷ roots) s = ap suc (length-derive_betas roots _)

    record ForgedQueries (e d betas : List F) (k : ℕ) (a : F) (commitment : FriCommitment F C)
        (n j : ℕ) (s : S) : Type ℓ where
      indices : List ℕ
      proofs : List (List (FriQueryRound F P))
      accepted :
          verify_queries m c n commitment
            (m.commit_vec e)
            (forged_roots m k a)
            d
            betas
            indices
            proofs
            s
          ≡ some true
      index_count : length indices ≡ n
      proof_count : length proofs ≡ n
      opens : AllOpenTwice j proofs

    forged_queries :
        (k : ℕ) (e d betas : List F) (a : F) (roots : List C) (n j : ℕ) (s : S)
        → from_u64 2 ≢ f.zero
        → NonZero d
        → length e ≡ 2 ^ suc k
        → length d ≡ 2 ^ suc k
        → length betas ≡ suc k
        → get_elem? e j ≡ some a
        → ForgedQueries e d betas (suc k) a (record { roots = roots; final_value = a }) n j s
    unfolding verify_queries sample_index
    forged_queries k e d betas a roots zero j s two nz he hd hb g = record {
      indices = [];
      proofs = [];
      accepted = refl;
      index_count = refl;
      proof_count = refl;
      opens = none_left;
    }
    forged_queries k e d betas a roots (suc n) j s two nz he hd hb g =
        let raw : ℕ = p.as_canonical_u32 (c.sample s).0 in
        let q = forged_query m k e d betas a (raw % length d) j two nz he hd hb g in
        let rest = forged_queries k e d betas a roots n j (c.sample s).1 two nz he hd hb g in
        record {
          indices = raw % length d ∷ rest.indices;
          proofs = q.queries ∷ rest.proofs;
          accepted =
              rw
                (
                  rem_usize-some raw (length d) (omega (arith, hd, pow_two-pos (suc k))),
                  verify_query-accepts m (record { roots = roots; final_value = a })
                      (m.commit_vec e) (forged_roots m (suc k) a) d betas (raw % length d) q.queries
                      q.last (q.count ∙ sym (length-forged_roots (suc k) a)) q.accepted q.found
                      q.value,
                )
                rest.accepted;
          index_count = ap suc rest.index_count;
          proof_count = ap suc rest.proof_count;
          opens = query q.queries rest.proofs q.opens rest.opens;
        }

    -- Whatever 2^(k+1) evaluations are committed to first, and whichever of them is claimed to be
    -- the final value, fri_verify accepts a proof with that first root and that final value all of
    -- whose queries, wherever they were drawn, open that one entry's leaf both for x and for -x:
    -- from any transcript, with any number of queries, over any domain of the same size without
    -- zero, where 2 is not zero.
    pub fri_verify_forged :
        (k : ℕ) (evals d : List F) (s : S) (num_queries j : ℕ) (a : F)
        → from_u64 2 ≢ f.zero
        → NonZero d
        → length evals ≡ 2 ^ suc k
        → length d ≡ 2 ^ suc k
        → get_elem? evals j ≡ some a
        → (proof : FriProof F C P) × (get_elem? proof.commitment.roots 0
            ≡ some (m.commit_vec evals))
          × (proof.commitment.final_value ≡ a)
          × AllOpenTwice j proof.query_proofs
          × (fri_verify m c d proof s num_queries ≡ some true)
    unfolding fri_verify
    fri_verify_forged k evals d s num_queries j a two nz he hd g =
        let roots : List C = forged_roots m (suc k) a in
        let derived : List F × S =
          derive_betas c roots (c.observe_commitment s (m.commit_vec evals)) in
        let q =
          forged_queries k evals d derived.0 a (m.commit_vec evals ∷ roots) num_queries j derived.1
            two nz he hd (length-derive_betas roots _ ∙ length-forged_roots (suc k) a) g in
        (
          record {
            commitment = record { roots = m.commit_vec evals ∷ roots; final_value = a };
            query_proofs = q.proofs;
            query_indices = q.indices;
          },
          refl,
          refl,
          q.opens,
          verify_from_accepts m c d _ s derived.1 num_queries (m.commit_vec evals) roots derived.0
              (omega (arith, length-forged_roots (suc k) a)) refl q.index_count q.proof_count
              q.accepted,
        )
