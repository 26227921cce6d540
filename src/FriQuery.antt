-- ===== src/FriQuery.antt =====
-- crates/oracle-layer/src/fri_query.rs: the prover and the verifier with query openings.
pub mod Chain
pub mod Complete
pub mod Accept
pub mod Forged
pub mod Forgery
pub mod Folds
use tscp_anchor.Prelude.{
  ℕ, zero, suc, ◌+◌, ◌-◌, ◌/◌, ◌%◌, Bool, true, false, ◌&&◌, ◌||◌, not, Option, none, some, List,
  [], ◌∷◌, length, get_elem?, map, ◌==◌, if◌then◌else◌, check, ◌>>=◌, ◌>>◌,
}
use tscp_anchor.Prelude.Bits.{is_power_of_two, trailing_zeros}
use tscp_anchor.Field.{Field, PrimeField32, ◌⊕◌, ◌⊖◌, ◌⊗◌, from_u64}
use tscp_anchor.Merkle.{Mmcs, MerkleTree, MerkleOpening, build, root, open_leaf, verify_opening}
use tscp_anchor.Fri.{fri_fold_step, fold_domain, folded_value}
use tscp_anchor.FriProtocol.{Challenger, FriCommitment}

pub record FriQueryRound {ℓ} (F : Type ℓ) (P : Type 0) : Type ℓ where
  pub opening_x : MerkleOpening F P
  pub opening_neg_x : MerkleOpening F P
  pub opening_folded : MerkleOpening F P

pub record FriProof {ℓ} (F : Type ℓ) (C P : Type 0) : Type ℓ where
  pub commitment : FriCommitment F C
  pub query_proofs : List (List (FriQueryRound F P))
  pub query_indices : List ℕ

-- `a % b`, which panics at a zero divisor.
unfoldable pub rem_usize : ℕ → ℕ → Option ℕ
rem_usize a b = if b == 0 then none else some (a % b)

module _ {ℓ} {F : Type ℓ} {P : Type 0} where
  -- `proof.query_proofs[q][expected_rounds - 1]`
  unfoldable pub last_round : List (FriQueryRound F P) → Option (FriQueryRound F P)
  last_round [] = none
  last_round (q ∷ []) = some q
  last_round (q ∷ q' ∷ qs) = last_round (q' ∷ qs)

module _ {ℓ} {F : Type ℓ} {P : Type 0} ⦃f : Field F⦄ where
  -- The fold check, behind the three opening checks.
  unfoldable pub fold_check : F → F → FriQueryRound F P → Option Bool
  fold_check x beta query = do
    two_inv ← f.inverse (from_u64 2)
    x_inv ← f.inverse x
    some (
        f.beq query.opening_folded.leaf_value (
          folded_value two_inv x_inv beta query.opening_x.leaf_value
            query.opening_neg_x.leaf_value))

module _ {ℓ} {F : Type ℓ} {C S : Type 0} (c : Challenger F C S) where
  -- The betas that the verifier derives from the roots after the first.
  unfoldable pub derive_betas : List C → S → List F × S
  derive_betas [] s = ([], s)
  derive_betas (r ∷ roots) s =
      let (beta, s1) = c.sample s in
      let rest = derive_betas roots (c.observe_commitment s1 r) in (beta ∷ rest.0, rest.1)

  -- A query index: `(raw.as_canonical_u32() as usize) % initial_leaf_count`.
  unfoldable pub sample_index : ⦃p : PrimeField32 F⦄ → ℕ → S → Option (ℕ × S)
  sample_index ⦃p⦄ leaf_count s = do
    let (raw, s1) = c.sample s
    index ← rem_usize (p.as_canonical_u32 raw) leaf_count
    some (index, s1)

module _ {ℓ} {F : Type ℓ} {C P : Type 0} ⦃f : Field F⦄ (m : Mmcs F C P) where
  unfoldable pub fri_query_round : MerkleTree F C → MerkleTree F C → ℕ → Option (FriQueryRound F P)
  fri_query_round current_tree next_tree query_index = do
    let half = length current_tree.leaves / 2
    idx ← rem_usize query_index half
    x ← open_leaf m current_tree idx
    neg_x ← open_leaf m current_tree (idx + half)
    folded ← open_leaf m next_tree idx
    some (record { opening_x = x; opening_neg_x = neg_x; opening_folded = folded })

  unfoldable pub verify_fri_query_round : C → C → ℕ → ℕ → F → F → FriQueryRound F P → Option Bool
  unfolding fold_check
  verify_fri_query_round root_current root_next current_leaf_count next_leaf_count x beta query =
      if not (verify_opening m root_current current_leaf_count query.opening_x)
      then some false
      else if not (verify_opening m root_current current_leaf_count query.opening_neg_x)
      then some false
      else if not (verify_opening m root_next next_leaf_count query.opening_folded)
      then some false
      else fold_check x beta query

  -- `for r in 0..expected_rounds` of the prover: one opening per pair of neighbouring trees.
  unfoldable pub query_rounds :
      MerkleTree F C → List (MerkleTree F C) → ℕ → Option (List (FriQueryRound F P))
  query_rounds tree [] index = some []
  query_rounds tree (next ∷ trees) index = do
    q ← fri_query_round tree next index
    qs ← query_rounds next trees index
    some (q ∷ qs)

  -- `for r in 0..expected_rounds` of the verifier, over the roots, the domains, the betas and the
  -- openings of the rounds.
  unfoldable pub verify_query_rounds :
      C → List C → List F → List F → ℕ → List (FriQueryRound F P) → Option Bool
  verify_query_rounds root_current [] domain betas index qs = some true
  verify_query_rounds root_current (root_next ∷ roots) domain [] index qs = none
  verify_query_rounds root_current (root_next ∷ roots) domain (beta ∷ betas) index [] = none
  verify_query_rounds root_current (root_next ∷ roots) domain (beta ∷ betas) index (q ∷ qs) = do
    let next_domain = fold_domain domain
    idx ← rem_usize index (length domain / 2)
    x ← get_elem? domain idx
    accepted ←
        verify_fri_query_round root_current root_next (length domain) (length next_domain) x beta q
    let rest = verify_query_rounds root_next roots next_domain betas index qs
    if accepted then rest else some false

  -- The checks of one query.
  unfoldable pub verify_query :
      FriCommitment F C
      → C
      → List C
      → List F
      → List F
      → ℕ
      → ℕ
      → List (FriQueryRound F P)
      → Option Bool
  verify_query commitment first roots domain betas claimed expected qs =
      if not (claimed == expected)
      then some false
      else if not (length qs == length roots)
      then some false
      else do
        accepted ← verify_query_rounds first roots domain betas claimed qs
        let last_check = do
          last ← last_round qs
          some (f.beq last.opening_folded.leaf_value commitment.final_value)
        if accepted then last_check else some false

  module _ {S : Type 0} (c : Challenger F C S) where
    -- The fold rounds of `fri_prove`: roots, trees, the last evaluations, the transcript.
    unfoldable pub prove_loop :
        ℕ → List F → List F → S → Option (List (MerkleTree F C) × List F × S)
    prove_loop zero evals domain s = some ([], evals, s)
    prove_loop (suc rounds) evals domain s = do
      let (beta, s1) = c.sample s
      folded ← fri_fold_step evals domain beta
      tree ← build m folded
      rest ← prove_loop rounds folded (fold_domain domain) (c.observe_commitment s1 (root tree))
      some (tree ∷ rest.0, rest.1, rest.2)

  module _ {S : Type 0} ⦃p : PrimeField32 F⦄ (c : Challenger F C S) where
    -- `for _ in 0..num_queries` of the prover.
    unfoldable pub query_loop :
        ℕ
        → MerkleTree F C
        → List (MerkleTree F C)
        → S
        → Option (List ℕ × List (List (FriQueryRound F P)) × S)
    query_loop zero tree trees s = some ([], [], s)
    query_loop (suc n) tree trees s = do
      drawn ← sample_index c (length tree.leaves) s
      qs ← query_rounds tree trees drawn.0
      rest ← query_loop n tree trees drawn.1
      some (drawn.0 ∷ rest.0, qs ∷ rest.1, rest.2)

    unfoldable pub fri_prove : List F → List F → S → ℕ → Option (FriProof F C P × S)
    fri_prove evals domain s num_queries = do
      check (is_power_of_two (length evals))
      initial_tree ← build m evals
      rest ←
          prove_loop c (trailing_zeros (length evals)) evals domain
            (c.observe_commitment s (root initial_tree))
      check (length rest.1 == 1)
      final ← get_elem? rest.1 0
      queries ← query_loop num_queries initial_tree rest.0 rest.2
      some (
        record {
          commitment = record { roots = root initial_tree ∷ map root rest.0; final_value = final };
          query_proofs = queries.1;
          query_indices = queries.0;
        },
        queries.2,
      )

    -- `for q in 0..num_queries` of the verifier.
    unfoldable pub verify_queries :
        ℕ
        → FriCommitment F C
        → C
        → List C
        → List F
        → List F
        → List ℕ
        → List (List (FriQueryRound F P))
        → S
        → Option Bool
    verify_queries zero commitment first roots domain betas indices proofs s = some true
    verify_queries (suc n) commitment first roots domain betas [] proofs s = none
    verify_queries (suc n) commitment first roots domain betas (i ∷ indices) [] s = none
    verify_queries (suc n) commitment first roots domain betas (i ∷ indices) (qs ∷ proofs) s = do
      drawn ← sample_index c (length domain) s
      accepted ← verify_query commitment first roots domain betas i drawn.0 qs
      let rest = verify_queries n commitment first roots domain betas indices proofs drawn.1
      if accepted then rest else some false

    -- The verifier behind its first guard: at least one fold round.
    unfoldable pub verify_from : List F → FriProof F C P → S → ℕ → List C → Option Bool
    verify_from domain proof s num_queries [] = some false
    verify_from domain proof s num_queries (first ∷ []) = some false
    verify_from domain proof s num_queries (first ∷ next ∷ roots) =
        let derived = derive_betas c (next ∷ roots) (c.observe_commitment s first) in
        if not (length proof.query_indices == num_queries)
          || not (length proof.query_proofs == num_queries)
        then some false
        else verify_queries num_queries proof.commitment first (next ∷ roots) domain derived.0
            proof.query_indices proof.query_proofs derived.1

    unfoldable pub fri_verify : List F → FriProof F C P → S → ℕ → Option Bool
    unfolding verify_from
    fri_verify domain proof s num_queries =
        verify_from domain proof s num_queries proof.commitment.roots
