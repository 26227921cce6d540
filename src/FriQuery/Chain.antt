-- ===== src/FriQuery/Chain.antt =====
-- One query round of crates/oracle-layer/src/fri_query.rs, between a layer and its fold.
use tscp_anchor.Prelude.{
  ℕ, suc, ◌+◌, ◌/◌, ◌%◌, ◌^◌, ◌<◌, ◌≡◌, refl, sym, ap, ap₂, ◌∙◌, true, not, some, List, length,
  get_elem?, get_elem?-some, lt→ltb, check, ◌==◌, >>=-eq-some, arith, eq_of_some,
}
use native.Mathlib.Nat.{mod-lt}
use tscp_anchor.Prelude.Bits.{is_power_of_two, is_power_of_two-pow, pow_two-suc, pow_two-pos}
use tscp_anchor.Field.{Field, from_u64}
use tscp_anchor.Field.Laws.{beq_refl}
use tscp_anchor.Merkle.{Mmcs, MerkleTree, MerkleOpening, build, root, open_leaf, verify_opening}
use tscp_anchor.Fri.{folded_value, fold_at, fold_domain}
use tscp_anchor.Fri.Fold.{IsFold, length-fold_domain}
use tscp_anchor.FriQuery.{
  FriQueryRound, rem_usize, fri_query_round, fold_check, verify_fri_query_round,
}

pub rem_usize-some : (a b : ℕ) → 0 < b → rem_usize a b ≡ some (a % b)
unfolding rem_usize
rem_usize-some a b h = ground arith

module _ {ℓ} {F : Type ℓ} {C P : Type 0} ⦃f : Field F⦄ (m : Mmcs F C P) where
  abbrev pub tree_of : List F → MerkleTree F C
  tree_of e = record { leaves = e; commitment = m.commit_vec e }

  pub build_power : (e : List F) (k : ℕ) → length e ≡ 2 ^ k → build m e ≡ some (tree_of e)
  unfolding build
  build_power e k h = rw (ap is_power_of_two h ∙ is_power_of_two-pow k, filled)
    where
      filled : not (length e == 0) ≡ true
      filled = ground (arith, h, pow_two-pos k)

  pub build_root :
      (leaves : List F) (tree : MerkleTree F C)
      → build m leaves ≡ some tree
      → root tree ≡ m.commit_vec leaves
  unfolding build root
  build_root leaves tree h =
      let (u, power, h1) = >>=-eq-some (check (is_power_of_two (length leaves))) _ h in
      let (u', some_leaf, h2) = >>=-eq-some (check (not (length leaves == 0))) _ h1 in
      ap (λ t. MerkleTree.commitment t) (sym (eq_of_some h2))

  -- An opening within the bounds carries the leaf and verifies.
  pub record Opened (e : List F) (i : ℕ) (a : F) : Type ℓ where
    pub opening : MerkleOpening F P
    pub made : open_leaf m (tree_of e) i ≡ some opening
    pub index : opening.leaf_index ≡ i
    pub leaf : opening.leaf_value ≡ a
    pub verifies : verify_opening m (m.commit_vec e) (length e) opening ≡ true

  pub open_leaf-Opened :
      (e : List F) (i : ℕ) (a : F) → i < length e → get_elem? e i ≡ some a → Opened e i a
  unfolding open_leaf verify_opening
  open_leaf-Opened e i a h g = record {
    opening = record {
      leaf_index = i;
      leaf_value = (m.open_batch i e).0;
      proof = (m.open_batch i e).1;
    };
    made = rw (lt→ltb i (length e) h);
    index = refl;
    leaf = m.open_batch-value e i a g;
    verifies = m.verify-open_batch e i h;
  }

  -- What one honest round gives.
  pub record HonestRound (e d : List F) (beta : F) (e' : List F) (index : ℕ) : Type ℓ where
    pub round : FriQueryRound F P
    pub x : F
    pub made : fri_query_round m (tree_of e) (tree_of e') index ≡ some round
    pub idx : rem_usize index (length d / 2) ≡ some (index % (length d / 2))
    pub domain_x : get_elem? d (index % (length d / 2)) ≡ some x
    pub accepted :
        verify_fri_query_round m
          (m.commit_vec e)
          (m.commit_vec e')
          (length d)
          (length (fold_domain d))
          x
          beta
          round
        ≡ some true
    pub folded : get_elem? e' (index % (length d / 2)) ≡ some round.opening_folded.leaf_value

  fold_at-parts :
      (e d : List F) (beta t : F) (half i : ℕ) (v : F)
      → fold_at e d beta t half i ≡ some v
      → (x : F) × (a : F) × (b : F) × (y : F) × (get_elem? d i ≡ some x)
        × (get_elem? e i ≡ some a)
        × (get_elem? e (i + half) ≡ some b)
        × (f.inverse x ≡ some y)
        × (v ≡ folded_value t y beta a b)
  unfolding fold_at
  fold_at-parts e d beta t half i v h =
      let (x, gx, h1) = >>=-eq-some (get_elem? d i) _ h in
      let (a, ga, h2) = >>=-eq-some (get_elem? e i) _ h1 in
      let (b, gb, h3) = >>=-eq-some (get_elem? e (i + half)) _ h2 in
      let (y, gy, h4) = >>=-eq-some (f.inverse x) _ h3 in
      (x, a, b, y, gx, ga, gb, gy, sym (eq_of_some h4))

  -- A round is accepted when its openings verify and its values fold.
  pub verify_round_accepts :
      (root_current root_next : C) (current_count next_count : ℕ) (x beta t y : F)
      (q : FriQueryRound F P)
      → verify_opening m root_current current_count q.opening_x ≡ true
      → verify_opening m root_current current_count q.opening_neg_x ≡ true
      → verify_opening m root_next next_count q.opening_folded ≡ true
      → f.inverse (from_u64 2) ≡ some t
      → f.inverse x ≡ some y
      → q.opening_folded.leaf_value
        ≡ folded_value t y beta q.opening_x.leaf_value q.opening_neg_x.leaf_value
      → verify_fri_query_round m root_current root_next current_count next_count x beta q
        ≡ some true
  unfolding verify_fri_query_round fold_check
  verify_round_accepts root_current root_next current_count next_count x beta t y q v1 v2 v3 two inv
        e =
      rw (v1, v2, v3, two, inv, beq_refl e)

  -- The round from the values at the query's position.
  honest_round_from :
      (e d : List F) (beta : F) (e' : List F) (index : ℕ) (fold : IsFold e d beta e')
      → index % (length e / 2) < length e / 2
      → (v x a b y : F) → get_elem? e' (index % (length e / 2)) ≡ some v
      → get_elem? d (index % (length e / 2)) ≡ some x
      → get_elem? e (index % (length e / 2)) ≡ some a
      → get_elem? e (index % (length e / 2) + length e / 2) ≡ some b
      → f.inverse x ≡ some y
      → v ≡ folded_value fold.two_inv y beta a b
      → HonestRound e d beta e' index
  unfolding fri_query_round
  honest_round_from e d beta e' index fold i_lt v x a b y gv gx ga gb gy ev = record {
    round = query;
    x = x;
    made =
        rw (rem_usize-some index (length e / 2) (omega (arith, i_lt)), ox.made, on.made, of.made);
    idx = rem_usize-some index (length d / 2) (omega (arith, i_lt, fold.same_size));
    domain_x = ap (λ n. get_elem? d (index % (n / 2))) fold.same_size ∙ gx;
    accepted =
        ap₂ (λ n k. verify_fri_query_round m (m.commit_vec e) (m.commit_vec e') n k x beta query)
          fold.same_size (length-fold_domain d ∙ ap (λ n. n / 2) fold.same_size ∙ sym fold.size)
        ∙ verify_round_accepts _ _ (length e) (length e') x beta fold.two_inv y query ox.verifies
            on.verifies of.verifies fold.two_inverse gy
            (of.leaf ∙ ev ∙ ap₂ (folded_value fold.two_inv y beta) (sym ox.leaf) (sym on.leaf));
    folded = ap (λ n. get_elem? e' (index % (n / 2))) fold.same_size ∙ gv ∙ ap some (sym of.leaf);
  }
    where
      ox : Opened e (index % (length e / 2)) a
      ox = open_leaf-Opened e (index % (length e / 2)) a (omega (arith, i_lt)) ga

      on : Opened e (index % (length e / 2) + length e / 2) b
      on = open_leaf-Opened e (index % (length e / 2) + length e / 2) b (omega (arith, i_lt)) gb

      of : Opened e' (index % (length e / 2)) v
      of = open_leaf-Opened e' (index % (length e / 2)) v (omega (arith, i_lt, fold.size)) gv

      query : FriQueryRound F P
      query = record {
        opening_x = ox.opening;
        opening_neg_x = on.opening;
        opening_folded = of.opening;
      }

  pub honest_round :
      (e d : List F) (beta : F) (e' : List F) (index k : ℕ)
      → IsFold e d beta e'
      → length e ≡ 2 ^ suc k
      → HonestRound e d beta e' index
  honest_round e d beta e' index k fold he =
      let i_lt : index % (length e / 2) < length e / 2 =
        mod-lt index {m = length e / 2} (omega (arith, he, pow_two-suc k, pow_two-pos k)) in
      let (v, gv) = get_elem?-some e' (index % (length e / 2)) (omega (arith, fold.size, i_lt)) in
      let (x, a, b, y, gx, ga, gb, gy, ev) =
        fold_at-parts e d beta fold.two_inv (length e / 2) (index % (length e / 2)) v
          (fold.values (index % (length e / 2)) v gv) in
      honest_round_from e d beta e' index fold i_lt v x a b y gv gx ga gb gy ev
