-- ===== src/FriQuery/Complete.antt =====
-- The layers and the query openings of an honest prover of crates/oracle-layer/src/fri_query.rs.
use tscp_anchor.Prelude.{
  ℕ, zero, suc, ◌/◌, ◌%◌, ◌^◌, ◌<◌, ◌≡◌, ◌≢◌, refl, ap, ◌∙◌, true, some, List, [], ◌∷◌, map, length,
  get_elem?, arith,
}
use tscp_anchor.Prelude.Bits.{pow_two-suc}
use tscp_anchor.Field.{Field, from_u64}
use tscp_anchor.Merkle.{Mmcs, root}
use tscp_anchor.Fri.{fold_domain}
use tscp_anchor.Fri.Fold.{
  NonZero, IsFold, fri_fold_step-IsFold, fri_fold_step_total, length-fold_domain,
  fold_domain-NonZero,
}
use tscp_anchor.FriProtocol.{Challenger}
use tscp_anchor.FriQuery.{
  FriQueryRound, query_rounds, verify_query_rounds, last_round, prove_loop, derive_betas,
}
use tscp_anchor.FriQuery.Chain.{tree_of, build_power, HonestRound, honest_round}

-- The layers below `e` are successive folds, down to one value.
pub data Layers {ℓ} {F : Type ℓ} ⦃f : Field F⦄
    : List F → List F → List F → List (List F) → Type ℓ where
  bottom : {e d : List F} → length e ≡ 1 → Layers e d [] []
  fold :
      {e d : List F} {beta : F} {betas e' : List F} {ls : List (List F)} (k : ℕ)
      → length e ≡ 2 ^ suc k
      → IsFold e d beta e'
      → Layers e' (fold_domain d) betas ls
      → Layers e d (beta ∷ betas) (e' ∷ ls)

abbrev pub last_layer {ℓ} : {F : Type ℓ} → List F → List (List F) → List F
last_layer e [] = e
last_layer e (e' ∷ ls) = last_layer e' ls

module _ {ℓ} {F : Type ℓ} ⦃f : Field F⦄ where
  pub length-last_layer :
      {e d betas : List F} {ls : List (List F)} → Layers e d betas ls → length (last_layer e ls) ≡ 1
  length-last_layer (bottom h) = h
  length-last_layer (fold k size step rest) = length-last_layer rest

module _ {ℓ} {F : Type ℓ} {C P : Type 0} ⦃f : Field F⦄ (m : Mmcs F C P) where
  abbrev pub roots_of : List (List F) → List C
  roots_of ls = map root (map (tree_of m) ls)

  -- The openings of one query, and that they pass.
  pub record HonestQuery (e d betas : List F) (ls : List (List F)) (index : ℕ) : Type ℓ where
    pub queries : List (FriQueryRound F P)
    pub made : query_rounds m (tree_of m e) (map (tree_of m) ls) index ≡ some queries
    pub accepted :
        verify_query_rounds m (m.commit_vec e) (roots_of ls) d betas index queries ≡ some true
    pub count : length queries ≡ length ls

  pub honest_query :
      {e d betas : List F} {ls : List (List F)} (index : ℕ)
      → Layers e d betas ls
      → HonestQuery e d betas ls index
  unfolding query_rounds verify_query_rounds root
  honest_query index (bottom h) = record {
    queries = [];
    made = refl;
    accepted = refl;
    count = refl;
  }
  honest_query {e} {d} index (fold {beta = beta} {e' = e'} k size step rest) =
      let r : HonestRound m e d beta e' index = honest_round m e d beta e' index k step size in
      let q = honest_query index rest in
      record {
        queries = r.round ∷ q.queries;
        made = rw (r.made, q.made);
        accepted = rw (r.idx, r.domain_x, r.accepted) q.accepted;
        count = ap suc q.count;
      }

  pub last_round-cons :
      (r : FriQueryRound F P) (qs : List (FriQueryRound F P)) {last : FriQueryRound F P}
      → last_round qs ≡ some last
      → last_round (r ∷ qs) ≡ some last
  unfolding last_round
  last_round-cons r [] h = cc
  last_round-cons r (q ∷ qs) h = h

  -- The last opening of a query over at least one fold is the one value of the last layer.
  pub record LastOpening (v : F) (qs : List (FriQueryRound F P)) : Type ℓ where
    pub last : FriQueryRound F P
    pub found : last_round qs ≡ some last
    pub value : last.opening_folded.leaf_value ≡ v

  pub last_opening :
      {e d betas : List F} {ls : List (List F)} (index : ℕ) (v : F) (layers : Layers e d betas ls)
      → 0 < length ls
      → get_elem? (last_layer e ls) 0 ≡ some v
      → LastOpening v (honest_query index layers).queries
  unfolding honest_query last_round
  last_opening index v (bottom h) more g = absurd (omega arith)
  last_opening {e} {d} index v (fold {beta = beta} {e' = e'} k size step (bottom h)) more g =
      let r : HonestRound m e d beta e' index = honest_round m e d beta e' index k step size in
      let half : length d / 2 ≡ 1 = omega (arith, step.size, step.same_size, h) in
      let first : index % (length d / 2) ≡ 0 = ap (λ n. index % n) half ∙ omega arith in
      record { last = r.round; found = refl; value = cc (r.folded, g, ap (get_elem? e') first) }
  last_opening {e} {d} index v (fold {beta = beta} {e' = e'} k size step (fold k' size' step' rest))
        more g =
      let r : HonestRound m e d beta e' index = honest_round m e d beta e' index k step size in
      let l = last_opening index v (fold k' size' step' rest) (omega arith) g in
      record {
        last = l.last;
        found =
            last_round-cons r.round (honest_query index (fold k' size' step' rest)).queries l.found;
        value = l.value;
      }

  module _ {S : Type 0} (c : Challenger F C S) where
    -- What the fold loop of the prover leaves.
    pub record Run (rounds : ℕ) (e d : List F) (s : S) : Type ℓ where
      pub layers : List (List F)
      pub betas : List F
      pub after : S
      pub made :
          prove_loop m c rounds e d s ≡ some (map (tree_of m) layers, last_layer e layers, after)
      pub derived : derive_betas c (roots_of layers) s ≡ (betas, after)
      pub chain : Layers e d betas layers
      pub count : length layers ≡ rounds

    pub run :
        (rounds : ℕ) (e d : List F) (s : S)
        → from_u64 2 ≢ f.zero
        → NonZero d
        → length e ≡ 2 ^ rounds
        → length d ≡ 2 ^ rounds
        → Run rounds e d s
    unfolding prove_loop derive_betas root
    run zero e d s two nz he hd = record {
      layers = [];
      betas = [];
      after = s;
      made = refl;
      derived = refl;
      chain = bottom he;
      count = refl;
    }
    run (suc k) e d s two nz he hd =
        let beta : F = (c.sample s).0 in
        let (e', ge) = fri_fold_step_total e d beta k two nz he hd in
        let step = fri_fold_step-IsFold e d beta e' ge in
        let he' : length e' ≡ 2 ^ k = omega (arith, step.size, he, pow_two-suc k) in
        let next : S = c.observe_commitment (c.sample s).1 (m.commit_vec e') in
        let r =
          run k e' (fold_domain d) next two (fold_domain-NonZero d nz) he'
            (omega (arith, length-fold_domain d, hd, pow_two-suc k)) in
        record {
          layers = e' ∷ r.layers;
          betas = beta ∷ r.betas;
          after = r.after;
          made = rw (ge, build_power m e' k he', r.made);
          derived = ap (λ (x : List F × S). (beta ∷ x.0, x.1)) r.derived;
          chain = fold k he step r.chain;
          count = ap suc r.count;
        }
