-- ===== src/FriQuery/Accept.antt =====
-- `fri_verify` on what `fri_prove` of crates/oracle-layer/src/fri_query.rs returns.
use tscp_anchor.Prelude.{
  ℕ, zero, suc, ◌%◌, ◌^◌, ◌<◌, ◌≡◌, ◌≢◌, refl, sym, ap, ◌∙◌, true, some, List, [], ◌∷◌, map, length,
  length-map, get_elem?, get_elem?-some, ==_iff, ==_refl, arith,
}
use tscp_anchor.Prelude.Bits.{
  is_power_of_two, is_power_of_two-pow, trailing_zeros, trailing_zeros-pow, pow_two-pos,
}
use tscp_anchor.Field.{Field, PrimeField32, from_u64}
use tscp_anchor.Field.Laws.{beq_refl}
use tscp_anchor.Merkle.{Mmcs, root}
use tscp_anchor.Fri.Fold.{NonZero}
use tscp_anchor.FriProtocol.{Challenger, FriCommitment}
use tscp_anchor.FriQuery.{
  FriQueryRound, FriProof, verify_query_rounds, last_round, sample_index, query_loop, fri_prove,
  derive_betas, verify_query, verify_queries, verify_from, fri_verify,
}
use tscp_anchor.FriQuery.Chain.{tree_of, build_power, rem_usize-some}
use tscp_anchor.FriQuery.Complete.{
  Layers, last_layer, length-last_layer, roots_of, HonestQuery, honest_query, last_opening, Run,
  run,
}

module _ {ℓ} {F : Type ℓ} {C P : Type 0} ⦃f : Field F⦄ (m : Mmcs F C P) where
  -- One query's checks pass.
  pub verify_query-accepts :
      (commitment : FriCommitment F C) (first : C) (roots : List C) (d betas : List F) (index : ℕ)
      (qs : List (FriQueryRound F P)) (last : FriQueryRound F P)
      → length qs ≡ length roots
      → verify_query_rounds m first roots d betas index qs ≡ some true
      → last_round qs ≡ some last
      → last.opening_folded.leaf_value ≡ commitment.final_value
      → verify_query m commitment first roots d betas index index qs ≡ some true
  unfolding verify_query
  verify_query-accepts commitment first roots d betas index qs last count rounds found value =
      rw (==_refl index, (==_iff _ _).1 count, rounds, found, beq_refl value)

  length-roots_of : (ls : List (List F)) → length (roots_of m ls) ≡ length ls
  length-roots_of ls = length-map (map (tree_of m) ls) root ∙ length-map ls (tree_of m)

  module _ {S : Type 0} ⦃p : PrimeField32 F⦄ (c : Challenger F C S) where
    -- The query loops of prover and verifier, side by side.
    record Queries (e d betas : List F) (ls : List (List F)) (commitment : FriCommitment F C)
        (n : ℕ) (s : S) : Type ℓ where
      indices : List ℕ
      proofs : List (List (FriQueryRound F P))
      after : S
      made : query_loop m c n (tree_of m e) (map (tree_of m) ls) s ≡ some (indices, proofs, after)
      accepted :
          verify_queries m c n commitment (m.commit_vec e) (roots_of m ls) d betas indices proofs s
          ≡ some true
      index_count : length indices ≡ n
      proof_count : length proofs ≡ n

    queries :
        {e d betas : List F} {ls : List (List F)} (commitment : FriCommitment F C) (n : ℕ) (s : S)
        → Layers e d betas ls
        → 0 < length ls
        → 0 < length e
        → length d ≡ length e
        → get_elem? (last_layer e ls) 0 ≡ some commitment.final_value
        → Queries e d betas ls commitment n s
    unfolding query_loop verify_queries sample_index
    queries commitment zero s layers more full same g = record {
      indices = [];
      proofs = [];
      after = s;
      made = refl;
      accepted = refl;
      index_count = refl;
      proof_count = refl;
    }
    queries {e} {d} {betas} {ls} commitment (suc n) s layers more full same g =
        let raw : ℕ = p.as_canonical_u32 (c.sample s).0 in
        let q : HonestQuery m e d betas ls (raw % length e) =
          honest_query m (raw % length e) layers in
        let l = last_opening m (raw % length e) commitment.final_value layers more g in
        let rest = queries commitment n (c.sample s).1 layers more full same g in
        record {
          indices = raw % length e ∷ rest.indices;
          proofs = q.queries ∷ rest.proofs;
          after = rest.after;
          made = rw (rem_usize-some raw (length e) full, q.made, rest.made);
          accepted =
              rw
                (
                  same,
                  rem_usize-some raw (length e) full,
                  verify_query-accepts commitment (m.commit_vec e) (roots_of m ls) d betas
                      (raw % length e) q.queries l.last (q.count ∙ sym (length-roots_of ls))
                      q.accepted l.found l.value,
                )
                rest.accepted;
          index_count = ap suc rest.index_count;
          proof_count = ap suc rest.proof_count;
        }

    -- The verifier, once the roots are those of at least one fold.
    pub verify_from_accepts :
        (d : List F) (proof : FriProof F C P) (s after : S) (n : ℕ) (first : C) (roots : List C)
        (betas : List F)
        → 0 < length roots
        → derive_betas c roots (c.observe_commitment s first) ≡ (betas, after)
        → length proof.query_indices ≡ n
        → length proof.query_proofs ≡ n
        → verify_queries m c n proof.commitment first roots d betas proof.query_indices
            proof.query_proofs after
          ≡ some true
        → verify_from m c d proof s n (first ∷ roots) ≡ some true
    unfolding verify_from
    verify_from_accepts d proof s after n first [] betas more derived indices proofs accepted =
        absurd (omega arith)
    verify_from_accepts d proof s after n first (r ∷ roots) betas more derived indices proofs
          accepted =
        rw (derived, (==_iff _ _).1 indices, (==_iff _ _).1 proofs) accepted

    -- Over every table of 2^(k+1) evaluations and a domain of the same size without zero, where 2
    -- is not zero, fri_prove returns a proof and fri_verify accepts it from the same transcript.
    pub fri_verify-fri_prove :
        (k : ℕ) (evals d : List F) (s : S) (num_queries : ℕ)
        → from_u64 2 ≢ f.zero
        → NonZero d
        → length evals ≡ 2 ^ suc k
        → length d ≡ 2 ^ suc k
        → (proof : FriProof F C P) × (after : S) × (fri_prove m c evals d s num_queries
            ≡ some (proof, after))
          × (fri_verify m c d proof s num_queries ≡ some true)
    unfolding fri_prove fri_verify root
    fri_verify-fri_prove k evals d s num_queries two nz he hd =
        let s0 : S = c.observe_commitment s (m.commit_vec evals) in
        let r : Run m c (suc k) evals d s0 = run m c (suc k) evals d s0 two nz he hd in
        let (v, gv) =
          get_elem?-some (last_layer evals r.layers) 0 (omega (arith, length-last_layer r.chain)) in
        let commitment : FriCommitment F C = record {
          roots = m.commit_vec evals ∷ roots_of m r.layers;
          final_value = v;
        } in
        let q : Queries evals d r.betas r.layers commitment num_queries r.after =
          queries commitment num_queries r.after r.chain (omega (arith, r.count))
            (omega (arith, he, pow_two-pos (suc k))) (hd ∙ sym he) gv in
        let proof : FriProof F C P = record {
          commitment = commitment;
          query_proofs = q.proofs;
          query_indices = q.indices;
        } in
        (
          proof,
          q.after,
          rw (
            ap is_power_of_two he ∙ is_power_of_two-pow (suc k),
            build_power m evals (suc k) he,
            ap trailing_zeros he ∙ trailing_zeros-pow (suc k),
            r.made,
            (==_iff _ 1).1 (length-last_layer r.chain),
            gv,
            q.made,
          ),
          verify_from_accepts d proof s r.after num_queries (m.commit_vec evals)
              (roots_of m r.layers) r.betas (omega (arith, length-roots_of r.layers, r.count))
              r.derived q.index_count q.proof_count q.accepted,
        )
