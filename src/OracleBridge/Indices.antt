-- ===== src/OracleBridge/Indices.antt =====
-- The indices that `fri_prove` of crates/oracle-layer/src/fri_query.rs puts into a proof, which the
-- bridge writes in 64 bits.
use tscp_anchor.Prelude.{
  ℕ, zero, suc, ◌+◌, ◌/◌, ◌≤◌, ◌<◌, ◌≡◌, sym, ap, not, some, List, [], ◌∷◌, length, get_elem?, ltb,
  ltb→lt, ◌==◌, check, check-eq-some, >>=-eq-some, eq_of_some, arith,
}
use mathlib.Core.Path.{subst}
use tscp_anchor.Prelude.Bits.{is_power_of_two, trailing_zeros}
use tscp_anchor.Field.{Field, PrimeField32}
use tscp_anchor.Merkle.{Mmcs, MerkleTree, MerkleOpening, build, root, open_leaf}
use tscp_anchor.Fri.{fri_fold_step, fold_domain}
use tscp_anchor.Fri.Fold.{fri_fold_step-IsFold}
use tscp_anchor.FriProtocol.{Challenger}
use tscp_anchor.FriQuery.{
  FriQueryRound, FriProof, rem_usize, sample_index, fri_query_round, query_rounds, prove_loop,
  query_loop, fri_prove,
}
use tscp_anchor.OracleBridge.WellFormed.{All, none_left, each}

rem_usize-lt : (a b i : ℕ) → rem_usize a b ≡ some i → i < b
unfolding rem_usize
rem_usize-lt a b i h = ground arith

module _ {F P : Type 0} where
  -- The three leaves of a round stand below the bound.
  pub record IsWithin (n : ℕ) (r : FriQueryRound F P) : Type 0 where
    pub x : (r.opening_x).leaf_index < n
    pub neg_x : (r.opening_neg_x).leaf_index < n
    pub folded : (r.opening_folded).leaf_index < n

  -- The indices and the rounds of the queries stand below the bound.
  abbrev pub Asked : ℕ → List ℕ → List (List (FriQueryRound F P)) → Type 0
  Asked n indices proofs = All (λ i. i < n) indices × All (All (IsWithin n)) proofs

module _ {F C P S : Type 0} ⦃f : Field F⦄ ⦃p : PrimeField32 F⦄ (m : Mmcs F C P)
    (c : Challenger F C S) where
  open_leaf_index :
      (t : MerkleTree F C) (i n : ℕ) (o : MerkleOpening F P)
      → open_leaf m t i ≡ some o
      → length t.leaves ≤ n
      → o.leaf_index < n
  unfolding open_leaf
  open_leaf_index t i n o h size =
      let (u, within, h1) = >>=-eq-some (check (ltb i (length t.leaves))) _ h in
      let less : i < length t.leaves = ltb→lt _ _ (check-eq-some _ within) in
      rw (← eq_of_some h1) (omega (arith, less, size))

  fri_query_round-IsWithin :
      (t next : MerkleTree F C) (index n : ℕ) (r : FriQueryRound F P)
      → fri_query_round m t next index ≡ some r
      → length t.leaves ≤ n
      → length next.leaves ≤ n
      → IsWithin n r
  unfolding fri_query_round
  fri_query_round-IsWithin t next index n r h size size' =
      let (i, reduced, h1) = >>=-eq-some (rem_usize index (length t.leaves / 2)) _ h in
      let (x, got, h2) = >>=-eq-some (open_leaf m t i) _ h1 in
      let (neg, got', h3) = >>=-eq-some (open_leaf m t (i + length t.leaves / 2)) _ h2 in
      let (folded, got'', h4) = >>=-eq-some (open_leaf m next i) _ h3 in
      rw (← eq_of_some h4) (record {
        x = open_leaf_index t i n x got size;
        neg_x = open_leaf_index t _ n neg got' size;
        folded = open_leaf_index next i n folded got'' size';
      })

  abbrev Small : ℕ → MerkleTree F C → Type 0
  Small n t = length t.leaves ≤ n

  query_rounds-IsWithin :
      (t : MerkleTree F C) (trees : List (MerkleTree F C)) (index n : ℕ)
      (rs : List (FriQueryRound F P))
      → query_rounds m t trees index ≡ some rs
      → Small n t
      → All (Small n) trees
      → All (IsWithin n) rs
  unfolding query_rounds
  query_rounds-IsWithin t [] index n rs h small none_left = rw (← eq_of_some h) none_left
  query_rounds-IsWithin t (next ∷ trees) index n rs h small (each small' smalls) =
      let (q, first, h1) = >>=-eq-some (fri_query_round m t next index) _ h in
      let (qs, others, h2) = >>=-eq-some (query_rounds m next trees index) _ h1 in
      rw (← eq_of_some h2) (
        each (fri_query_round-IsWithin t next index n q first small small')
          (query_rounds-IsWithin next trees index n qs others small' smalls))

  query_loop-Asked :
      (count n : ℕ) (t : MerkleTree F C) (trees : List (MerkleTree F C)) (s : S)
      (result : List ℕ × List (List (FriQueryRound F P)) × S)
      → query_loop m c count t trees s ≡ some result
      → Small n t
      → All (Small n) trees
      → Asked n result.0 result.1
  unfolding query_loop sample_index
  query_loop-Asked zero n t trees s result h small smalls =
      rw (← eq_of_some h) (none_left, none_left)
  query_loop-Asked (suc count) n t trees s result h small smalls =
      let (drawn, sampled, h1) = >>=-eq-some (sample_index c (length t.leaves) s) _ h in
      let (i, reduced, h1') =
        >>=-eq-some (rem_usize (p.as_canonical_u32 (c.sample s).0) (length t.leaves)) _ sampled in
      let below : drawn.0 < length t.leaves = rw (← eq_of_some h1') (rem_usize-lt _ _ i reduced) in
      let (qs, opened, h2) = >>=-eq-some (query_rounds m t trees drawn.0) _ h1 in
      let (rest, others, h3) = >>=-eq-some (query_loop m c count t trees drawn.1) _ h2 in
      let ih = query_loop-Asked count n t trees drawn.1 rest others small smalls in
      rw (← eq_of_some h3) (
        each (omega (arith, below, small)) ih.0,
        each (query_rounds-IsWithin t trees drawn.0 n qs opened small smalls) ih.1,
      )

  build_leaves :
      (leaves : List F) (t : MerkleTree F C) → build m leaves ≡ some t → t.leaves ≡ leaves
  unfolding build
  build_leaves leaves t h =
      let (u, power, h1) = >>=-eq-some (check (is_power_of_two (length leaves))) _ h in
      let (u', filled, h2) = >>=-eq-some (check (not (length leaves == 0))) _ h1 in
      ap (λ t. MerkleTree.leaves t) (sym (eq_of_some h2))

  prove_loop-Small :
      (rounds n : ℕ) (evals d : List F) (s : S) (result : List (MerkleTree F C) × List F × S)
      → prove_loop m c rounds evals d s ≡ some result
      → length evals ≤ n
      → All (Small n) result.0
  unfolding prove_loop
  prove_loop-Small zero n evals d s result h size = rw (← eq_of_some h) none_left
  prove_loop-Small (suc rounds) n evals d s result h size =
      let beta : F = (c.sample s).0 in
      let (folded, step, h1) = >>=-eq-some (fri_fold_step evals d beta) _ h in
      let (t, built, h2) = >>=-eq-some (build m folded) _ h1 in
      let (rest, others, h3) =
        >>=-eq-some
          (prove_loop m c rounds folded (fold_domain d)
            (c.observe_commitment (c.sample s).1 (root t)))
          _ h2 in
      let half = (fri_fold_step-IsFold evals d beta folded step).size in
      let small : length folded ≤ n = omega (arith, half, size) in
      rw (← eq_of_some h3) (
        each (rw (build_leaves folded t built) small)
          (prove_loop-Small rounds n folded (fold_domain d) _ rest others small))

  -- Whenever fri_prove returns, the query indices and the leaf indices of all openings are below
  -- the number of evaluations.
  pub fri_prove-Asked :
      (evals d : List F) (s after : S) (num_queries : ℕ) (proof : FriProof F C P)
      → fri_prove m c evals d s num_queries ≡ some (proof, after)
      → Asked (length evals) proof.query_indices proof.query_proofs
  unfolding fri_prove
  fri_prove-Asked evals d s after num_queries proof h =
      let (u, power, h1) = >>=-eq-some (check (is_power_of_two (length evals))) _ h in
      let (t, built, h2) = >>=-eq-some (build m evals) _ h1 in
      let (rest, ran, h3) =
        >>=-eq-some
          (prove_loop m c (trailing_zeros (length evals)) evals d (c.observe_commitment s (root t)))
          _ h2 in
      let (u', single, h4) = >>=-eq-some (check (length rest.1 == 1)) _ h3 in
      let (final, got, h5) = >>=-eq-some (get_elem? rest.1 0) _ h4 in
      let (queries, asked, h6) = >>=-eq-some (query_loop m c num_queries t rest.0 rest.2) _ h5 in
      let size : Small (length evals) t = rw (build_leaves evals t built) (omega arith) in
      let answer : Asked (length evals) queries.0 queries.1 =
        query_loop-Asked num_queries (length evals) t rest.0 rest.2 queries asked size (
          prove_loop-Small (trailing_zeros (length evals)) (length evals) evals d _ rest ran
            (omega arith)) in
      subst
        (λ (r : FriProof F C P × S). Asked (length evals) (r.0).query_indices (r.0).query_proofs)
        (eq_of_some h6) answer
