-- ===== src/DeepVerify/Batch.antt =====
-- What `verify_deep_batch` of crates/prover-server/src/deep_ali.rs accepts.
use tscp_anchor.Prelude.{
  ℕ, ◌*◌, ◌/◌, ◌≤◌, ◌<◌, ◌≡◌, refl, ap, ◌∙◌, Bool, true, false, some, List, [], ◌∷◌, length, ltb,
  leb, Bool-cases, inl, inr, if◌then◌else◌, >>=-eq-some, eq_of_some, arith,
}
use tscp_anchor.Field.{Field, PrimeField32}
use tscp_anchor.Oracle.{RowMajorMatrix}
use tscp_anchor.FriProtocol.{Challenger}
use tscp_anchor.OracleBridge.WellFormed.{All, none_left, each}
use tscp_anchor.DeepAli.{
  SoundnessAccumulator, Result, ok, err, owsl_halt, soundness_depleted, ◌>>?◌, consume,
  bind_consumed, consume_and_bind,
}
use tscp_anchor.DeepAliFri.{max_usize}
use tscp_anchor.DeepQuotient.{BabyBearDeepAli}
use tscp_anchor.DeepQuotient.Single.{IsFull}
use tscp_anchor.DeepVerify.{
  deep_ali_lambda, DeepResponse, AlgebraicLink, links_loop, gated, observe_responses, check_links,
  check_budgeted, verify_deep_batch,
}
use tscp_anchor.DeepVerify.Rows.{Adds}
use tscp_anchor.DeepVerify.Links.{>>?-eq-ok, Zero, links_loop-zero, links-Zero}

module _ {F : Type 0} ⦃f : Field F⦄ ⦃p : PrimeField32 F⦄ (trace : RowMajorMatrix F)
    (full : IsFull trace) (some_row : 0 < trace.height) (small : trace.height ≤ p.order)
    (adds : Adds F) {C S : Type 0} (c : Challenger F C S) where
  observe_responses-below :
      (n : ℕ) (queries : List (DeepResponse F)) (s : S)
      → (observe_responses c n queries s).0 ≡ ok tt
      → All (λ (r : DeepResponse F). (r.query).column_index < n) queries
  unfolding observe_responses
  observe_responses-below n [] s h = none_left
  observe_responses-below n (r ∷ rs) s h = elim (Bool-cases (leb n (r.query).column_index)) [
    | inl b ↦ cc
    | inr b ↦ each (not_leb _ _ b) (observe_responses-below n rs (c.observe s r.value) cc)
  ]
    where
      not_leb : (n col : ℕ) → leb n col ≡ false → col < n
      not_leb n col h = ground arith

  check_links-ok :
      (self : BabyBearDeepAli) (links : List (AlgebraicLink F)) (r : Result (Unit {0}) × S)
      (after : S)
      → check_links c self trace links r ≡ some (ok tt, after)
      → (r.0 ≡ ok tt) × (links_loop self trace links ≡ some (ok tt)) × (self.owsl_permits ≡ true)
  unfolding check_links gated
  check_links-ok self links (err e, s) after h = cc
  check_links-ok self links (ok tt, s) after h =
      let (r, ran, h1) = >>=-eq-some (links_loop self trace links >>? λ u. some (gated self)) _ h in
      let accepted : r ≡ ok tt = cc in
      let (u, zeros, h2) =
        >>?-eq-ok (links_loop self trace links) (λ u. some (gated self)) (ran ∙ ap some accepted) in
      (refl, zeros, open_gate self.owsl_permits (eq_of_some h2))
    where
      open_gate : (b : Bool) → (if b then ok tt else err owsl_halt) ≡ ok tt → b ≡ true
      open_gate true h = refl
      open_gate false h = cc

  check_budgeted-ok :
      (self : BabyBearDeepAli) (queries : List (DeepResponse F)) (links : List (AlgebraicLink F))
      (r : Result (Unit {0}) × SoundnessAccumulator × S) (a : SoundnessAccumulator) (after : S)
      → check_budgeted c self trace queries links r ≡ some (ok tt, a, after)
      → (r.0 ≡ ok tt)
        × (check_links c self trace links (observe_responses c self.num_columns queries r.2)
            ≡ some (ok tt, after))
  unfolding check_budgeted
  check_budgeted-ok self queries links (err e, b, s) a after h = cc
  check_budgeted-ok self queries links (ok tt, b, s) a after h =
      let (r, ran, h1) =
        >>=-eq-some
          (check_links c self trace links (observe_responses c self.num_columns queries s)) _ h in
      (refl, cc)

  consume_and_bind-ok :
      (bits : ℕ) (a : SoundnessAccumulator) (s : S)
      → (consume_and_bind c bits a s).0 ≡ ok tt
      → bits ≤ a.bits_remaining
  unfolding consume_and_bind consume bind_consumed
  consume_and_bind-ok bits a s h = elim (Bool-cases (ltb a.bits_remaining bits)) [
    | inl b ↦
        let e : (consume_and_bind c bits a s).0 ≡ err (soundness_depleted bits a.bits_remaining) =
          rw (consume_and_bind, consume, b, bind_consumed) refl in
        absurd cc
    | inr b ↦ not_ltb _ _ b
  ]
    where
      not_ltb : (m n : ℕ) → ltb m n ≡ false → n ≤ m
      not_ltb m n h = ground arith

  -- What acceptance says.
  pub record Accepted (self : BabyBearDeepAli) (queries : List (DeepResponse F))
      (links : List (AlgebraicLink F)) (a : SoundnessAccumulator) : Type 0 where
    pub permitted : self.owsl_permits ≡ true
    pub budget :
        (deep_ali_lambda / max_usize (length queries) 1) * length queries ≤ a.bits_remaining
    pub columns : All (λ (r : DeepResponse F). (r.query).column_index < self.num_columns) queries
    pub rows : All (Zero trace full some_row small adds) links

  -- On a full trace of as many rows as fit the field, at least one, where BabyBear::new takes sums
  -- below the order to sums, a batch that verify_deep_batch accepts had the gate's consent, asked
  -- for no more bits than the budget held and for columns below the limit, and every link without a
  -- numerator that stands at a row reads, within the trace, cells that sum to zero.
  pub verify_deep_batch-Accepted :
      (self : BabyBearDeepAli) (queries : List (DeepResponse F)) (links : List (AlgebraicLink F))
      (a a' : SoundnessAccumulator) (s s' : S)
      → verify_deep_batch c self trace queries links a s ≡ some (ok tt, a', s')
      → Accepted self queries links a
  unfolding verify_deep_batch
  verify_deep_batch-Accepted self queries links a a' s s' h =
      let bits : ℕ = (deep_ali_lambda / max_usize (length queries) 1) * length queries in
      let bound : Result (Unit {0}) × SoundnessAccumulator × S = consume_and_bind c bits a s in
      let (granted, h1) = check_budgeted-ok self queries links bound a' s' h in
      let (observed, zeros, permitted) =
        check_links-ok self links (observe_responses c self.num_columns queries bound.2) s' h1 in
      record {
        permitted = permitted;
        budget = consume_and_bind-ok bits a s granted;
        columns = observe_responses-below self.num_columns queries bound.2 observed;
        rows =
            links-Zero trace full some_row small adds self links
              (links_loop-zero trace full some_row small adds self links zeros);
      }
