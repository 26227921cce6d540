-- ===== src/FriProtocol/Agree.antt =====
-- The two variants of the commit phase of crates/oracle-layer/src/fri_protocol.rs and the prover of
-- fri_query.rs, compared.
use tscp_anchor.Prelude.{
  ℕ, zero, suc, ◌≡◌, refl, ap, true, inl, inr, Option, none, some, Option-cases, List, [], ◌∷◌, map,
  length, get_elem?, ◌==◌, check, ◌>>=◌, >>=-eq-some, eq_of_some,
}
use tscp_anchor.Prelude.Bits.{is_power_of_two, trailing_zeros}
use tscp_anchor.Field.{Field, PrimeField32}
use tscp_anchor.Field.Laws.{beq_refl}
use tscp_anchor.Merkle.{Mmcs, MerkleTree, build, root}
use tscp_anchor.Fri.{fri_fold_step, fold_domain}
use tscp_anchor.FriProtocol.{
  Challenger, FriCommitment, roots_eq, fri_commit, same_commitment, fri_verify_commitment,
  transcript_loop, fri_commit_transcript,
}
use tscp_anchor.FriQuery.{FriProof, prove_loop, query_loop, fri_prove}

module _ {ℓ} {F : Type ℓ} {C P : Type 0} ⦃f : Field F⦄ (m : Mmcs F C P) where
  roots_eq_refl : (roots : List C) → roots_eq m.commitment_eq roots roots ≡ true
  unfolding roots_eq
  roots_eq_refl [] = refl
  roots_eq_refl (r ∷ roots) = rw (m.commitment_eq_refl r, roots_eq_refl roots) refl

  same_commitment_refl : (a : FriCommitment F C) → same_commitment m a a ≡ true
  unfolding same_commitment
  same_commitment_refl a = rw (roots_eq_refl a.roots, beq_refl {a = a.final_value} refl) refl

  -- A commitment that the commit phase made is accepted for the same evaluations, domain and
  -- challenges.
  pub fri_verify_commitment-fri_commit :
      (evals d betas : List F) (commitment : FriCommitment F C)
      → fri_commit m evals d betas ≡ some commitment
      → fri_verify_commitment m evals d betas commitment ≡ some true
  unfolding fri_verify_commitment
  fri_verify_commitment-fri_commit evals d betas commitment h =
      rw h (ap some (same_commitment_refl commitment))

  module _ {S : Type 0} (c : Challenger F C S) where
    abbrev to_roots : List (MerkleTree F C) × List F × S → List C × List F × S
    to_roots r = (map root r.0, r.1, r.2)

    abbrev push_root : C → List C × List F × S → List C × List F × S
    push_root a r = (a ∷ r.0, r.1, r.2)

    abbrev push_tree :
        MerkleTree F C → List (MerkleTree F C) × List F × S → List (MerkleTree F C) × List F × S
    push_tree tree r = (tree ∷ r.0, r.1, r.2)

    pushed :
        (tree : MerkleTree F C) (o : Option (List (MerkleTree F C) × List F × S))
        → ((o >>= λ r. some (to_roots r)) >>= λ rest. some (push_root (root tree) rest))
          ≡ ((o >>= λ rest. some (push_tree tree rest)) >>= λ r. some (to_roots r))
    pushed tree none = refl
    pushed tree (some r) = refl

    -- The two loops make the same trees.
    transcript_loop-prove_loop :
        (k : ℕ) (e d : List F) (s : S)
        → transcript_loop m c k e d s ≡ (prove_loop m c k e d s >>= λ r. some (to_roots r))
    unfolding transcript_loop prove_loop
    transcript_loop-prove_loop zero e d s = refl
    transcript_loop-prove_loop (suc k) e d s =
        elim (Option-cases (fri_fold_step e d (c.sample s).0)) [
          | inl no_fold ↦ rw no_fold refl
          | inr (folded, hf) ↦ elim (Option-cases (build m folded)) [
            | inl no_tree ↦ rw (hf, no_tree) refl
            | inr (tree, ht) ↦
                let s1 : S = c.observe_commitment (c.sample s).1 (root tree) in
                rw (hf, ht, transcript_loop-prove_loop k folded (fold_domain d) s1)
                  (pushed tree (prove_loop m c k folded (fold_domain d) s1))
          ]
        ]

    -- When fri_prove returns a proof, fri_commit_transcript from the same transcript returns its
    -- commitment.
    pub fri_prove-fri_commit_transcript :
        ⦃p : PrimeField32 F⦄
        → (evals d : List F) (s : S) (n : ℕ) (proof : FriProof F C P) (after : S)
        → fri_prove m c evals d s n ≡ some (proof, after)
        → (between : S) × (fri_commit_transcript m c evals d s ≡ some (proof.commitment, between))
    unfolding fri_prove fri_commit_transcript
    fri_prove-fri_commit_transcript evals d s n proof after h =
        let (u1, power, h1) = >>=-eq-some (check (is_power_of_two (length evals))) _ h in
        let (tree, built, h2) = >>=-eq-some (build m evals) _ h1 in
        let (r, looped, h3) =
          >>=-eq-some
            (prove_loop m c (trailing_zeros (length evals)) evals d
              (c.observe_commitment s (root tree)))
            _ h2 in
        let (u2, one, h4) = >>=-eq-some (check (length r.1 == 1)) _ h3 in
        let (v, final, h5) = >>=-eq-some (get_elem? r.1 0) _ h4 in
        let (q, queried, h6) = >>=-eq-some (query_loop m c n tree r.0 r.2) _ h5 in
        (
          r.2,
          rw
              (
                power,
                built,
                transcript_loop-prove_loop (trailing_zeros (length evals)) evals d
                    (c.observe_commitment s (root tree)),
                looped,
                one,
                final,
              )
              (ap (λ t. some (t, r.2)) (ap (λ t. t.0.commitment) (eq_of_some h6))),
        )
