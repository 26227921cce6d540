-- ===== src/FriQuery/Forged.antt =====
-- One query that opens one leaf at both points, under the verifier of crates/oracle-layer/src/fri_query.rs.
use tscp_anchor.Prelude.{
  ℕ, zero, suc, ◌/◌, ◌%◌, ◌^◌, ◌<◌, ◌≡◌, ◌≢◌, refl, sym, ap, ap₂, ◌∙◌, true, some, List, [], ◌∷◌,
  map, length, length-replicate, replicate, get_elem?, get_elem?-some, arith,
}
use native.Mathlib.Nat.{mod-lt}
use tscp_anchor.Prelude.Bits.{pow_two-suc, pow_two-pos}
use tscp_anchor.Field.{Field, from_u64}
use tscp_anchor.Field.Laws.{inverse-mul, mul-one}
use tscp_anchor.Field.Ring.{ring, normal, x0, x1, x2, x3, plus, minus, times, unit, nought}
use tscp_anchor.Merkle.{Mmcs}
use tscp_anchor.Fri.Poly.{get_elem?-lt}
use tscp_anchor.Fri.{folded_value, fold_domain}
use tscp_anchor.Fri.Fold.{NonZero, length-fold_domain, fold_domain-NonZero}
use tscp_anchor.FriQuery.{
  FriQueryRound, rem_usize, verify_fri_query_round, verify_query_rounds, last_round,
}
use tscp_anchor.FriQuery.Chain.{Opened, open_leaf-Opened, verify_round_accepts, rem_usize-some}
use tscp_anchor.FriQuery.Complete.{last_round-cons}

module _ {ℓ} {F : Type ℓ} {P : Type 0} where
  -- The first round of a query opens the leaf `j` at x and at -x.
  pub data OpensTwice (j : ℕ) : List (FriQueryRound F P) → Type ℓ where
    twice :
        (q : FriQueryRound F P) (qs : List (FriQueryRound F P))
        → (q.opening_x).leaf_index ≡ j
        → (q.opening_neg_x).leaf_index ≡ j
        → OpensTwice j (q ∷ qs)

  -- So does that of every query.
  pub data AllOpenTwice (j : ℕ) : List (List (FriQueryRound F P)) → Type ℓ where
    none_left : AllOpenTwice j []
    query :
        (qs : List (FriQueryRound F P)) (more : List (List (FriQueryRound F P)))
        → OpensTwice j qs
        → AllOpenTwice j more
        → AllOpenTwice j (qs ∷ more)

module _ {ℓ} {F : Type ℓ} ⦃f : Field F⦄ where
  -- A value beside itself folds to itself, whatever the point and the challenge.
  pub folded_value_same :
      (t y beta a : F) → f.inverse (from_u64 2) ≡ some t → folded_value t y beta a a ≡ a
  unfolding folded_value from_u64 normal
  folded_value_same t y beta a two =
      ring (t ∷ y ∷ beta ∷ a ∷ [])
        (plus (times (plus x3 x3) x0) (times x2 (times (times (minus x3 x3) x0) x1)))
        (times x3 (times (plus (plus nought unit) unit) x0)) refl
      ∙ ap (f.mul a) (inverse-mul two)
      ∙ mul-one a

  -- The layers below the committed table: one value throughout.
  unfoldable pub forged_layers : ℕ → F → List (List F)
  forged_layers zero a = []
  forged_layers (suc k) a = replicate (2 ^ k) a ∷ forged_layers k a

module _ {ℓ} {F : Type ℓ} {C P : Type 0} ⦃f : Field F⦄ (m : Mmcs F C P) where
  abbrev pub forged_roots : ℕ → F → List C
  forged_roots k a = map m.commit_vec (forged_layers k a)

  pub first_leaf : (n : ℕ) (a : F) → 0 < n → get_elem? (replicate n a) 0 ≡ some a
  first_leaf zero a h = absurd (omega arith)
  first_leaf (suc n) a h = refl

  -- One round answered at the leaf `j`.
  pub record ForgedRound (e d : List F) (k : ℕ) (beta a : F) (index j : ℕ) : Type ℓ where
    pub round : FriQueryRound F P
    pub x : F
    pub idx : rem_usize index (length d / 2) ≡ some (index % (length d / 2))
    pub domain_x : get_elem? d (index % (length d / 2)) ≡ some x
    pub accepted :
        verify_fri_query_round m
          (m.commit_vec e)
          (m.commit_vec (replicate (2 ^ k) a))
          (length d)
          (length (fold_domain d))
          x
          beta
          round
        ≡ some true
    pub value : round.opening_folded.leaf_value ≡ a
    pub at_x : (round.opening_x).leaf_index ≡ j
    pub at_neg_x : (round.opening_neg_x).leaf_index ≡ j

  module _ (k : ℕ) (e d : List F) (beta a : F) (index j : ℕ) (two : from_u64 2 ≢ f.zero)
      (nz : NonZero d) (he : length e ≡ 2 ^ suc k) (hd : length d ≡ 2 ^ suc k)
      (g : get_elem? e j ≡ some a) where
    half_pos : 0 < length d / 2
    half_pos = omega (arith, hd, pow_two-suc k, pow_two-pos k)

    forged_round : ForgedRound e d k beta a index j
    forged_round =
        let (x, gx) =
          get_elem?-some d (index % (length d / 2))
            (omega (arith, mod-lt index {m = length d / 2} half_pos)) in
        let (t, gt, _) = f.inverse-some (from_u64 2) two in
        let (y, gy, _) = f.inverse-some x (nz (index % (length d / 2)) x gx) in
        record {
          round = query;
          x = x;
          idx = rem_usize-some index (length d / 2) half_pos;
          domain_x = gx;
          accepted =
              ap₂
                (λ n n'.
                  verify_fri_query_round m (m.commit_vec e) (m.commit_vec (replicate (2 ^ k) a)) n
                    n' x beta query)
                (hd ∙ sym he) next_size
              ∙ verify_round_accepts m _ _ (length e) (length (replicate (2 ^ k) a)) x beta t y
                  query o.verifies o.verifies o'.verifies gt gy
                  (o'.leaf
                    ∙ sym (folded_value_same t y beta a gt)
                    ∙ ap (λ v. folded_value t y beta v v) (sym o.leaf));
          value = o'.leaf;
          at_x = o.index;
          at_neg_x = o.index;
        }
      where
        next_size : length (fold_domain d) ≡ length (replicate (2 ^ k) a)
        next_size =
            omega (arith, length-fold_domain d, hd, pow_two-suc k, length-replicate (2 ^ k) a)

        o : Opened m e j a
        o = open_leaf-Opened m e j a (get_elem?-lt e j g) g

        o' : Opened m (replicate (2 ^ k) a) 0 a
        o' =
            open_leaf-Opened m (replicate (2 ^ k) a) 0 a
              (omega (arith, length-replicate (2 ^ k) a, pow_two-pos k))
              (first_leaf (2 ^ k) a (pow_two-pos k))

        query : FriQueryRound F P
        query = record {
          opening_x = o.opening;
          opening_neg_x = o.opening;
          opening_folded = o'.opening;
        }

  -- The openings of one forged query.
  pub record ForgedQuery (e d betas : List F) (k : ℕ) (a : F) (index j : ℕ) : Type ℓ where
    pub queries : List (FriQueryRound F P)
    pub last : FriQueryRound F P
    pub accepted :
        verify_query_rounds m (m.commit_vec e) (forged_roots k a) d betas index queries ≡ some true
    pub count : length queries ≡ k
    pub found : last_round queries ≡ some last
    pub value : last.opening_folded.leaf_value ≡ a
    pub opens : OpensTwice j queries

  pub forged_query :
      (k : ℕ) (e d betas : List F) (a : F) (index j : ℕ)
      → from_u64 2 ≢ f.zero
      → NonZero d
      → length e ≡ 2 ^ suc k
      → length d ≡ 2 ^ suc k
      → length betas ≡ suc k
      → get_elem? e j ≡ some a
      → ForgedQuery e d betas (suc k) a index j
  unfolding verify_query_rounds last_round forged_layers
  forged_query k e d [] a index j two nz he hd hb g = absurd (omega arith)
  forged_query zero e d (beta ∷ betas) a index j two nz he hd hb g =
      let r = forged_round 0 e d beta a index j two nz he hd g in
      record {
        queries = r.round ∷ [];
        last = r.round;
        accepted = rw (r.idx, r.domain_x, r.accepted);
        count = refl;
        found = refl;
        value = r.value;
        opens = twice r.round [] r.at_x r.at_neg_x;
      }
  forged_query (suc k) e d (beta ∷ betas) a index j two nz he hd hb g =
      let r = forged_round (suc k) e d beta a index j two nz he hd g in
      let q =
        forged_query k (replicate (2 ^ suc k) a) (fold_domain d) betas a index 0 two
          (fold_domain-NonZero d nz) (length-replicate (2 ^ suc k) a)
          (omega (arith, length-fold_domain d, hd, pow_two-suc (suc k))) (omega (arith, hb))
          (first_leaf (2 ^ suc k) a (pow_two-pos (suc k))) in
      record {
        queries = r.round ∷ q.queries;
        last = q.last;
        accepted = rw (r.idx, r.domain_x, r.accepted) q.accepted;
        count = ap suc q.count;
        found = last_round-cons m r.round q.queries q.found;
        value = q.value;
        opens = twice r.round q.queries r.at_x r.at_neg_x;
      }
