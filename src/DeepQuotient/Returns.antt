-- ===== src/DeepQuotient/Returns.antt =====
-- What `compute_deep_quotient` of crates/prover-server/src/deep_ali.rs returns.
use mathlib.Core.Path.{subst}
use tscp_anchor.Prelude.{
  ℕ, suc, ◌-◌, ◌^◌, ◌≤◌, ◌<◌, ◌≡◌, ◌≢◌, refl, sym, ap, ◌∙◌, true, false, some, List, [], ◌∷◌,
  length, get_or-replicate, length-replicate, replicate, leb, if◌then◌else◌, Bool-cases, inl, inr,
  arith,
}
use tscp_anchor.Field.{Field, PrimeField32, ◌⊕◌, from_u64}
use tscp_anchor.Quotient.{eval_poly_horner}
use tscp_anchor.Quotient.Horner.{horner-zeros}
use tscp_anchor.Oracle.{RowMajorMatrix}
use tscp_anchor.FriProtocol.{Challenger}
use tscp_anchor.DeepAli.{ok, err, degree_exceeded}
use tscp_anchor.DeepAliFri.{max_usize}
use tscp_anchor.DeepAliFri.Domain.{TwoAdic}
use tscp_anchor.DeepQuotient.{
  DeepQuery, BabyBearDeepAli, quotients_loop, trim, observe_trace, bounded, combine,
  compute_deep_quotient,
}
use tscp_anchor.DeepQuotient.Single.{IsFull, IsQuotient, compute_single_quotient-IsQuotient}
use tscp_anchor.DeepQuotient.Combined.{
  horner-trim, IsTrimmed, trim-IsTrimmed, Fits, weighted, combine_loop_value, observe_trace-some,
}

max_usize-le : (a b : ℕ) → (a ≤ max_usize a b) × (b ≤ max_usize a b)
unfolding max_usize
max_usize-le a b = ground arith

module _ {ℓ} {F : Type ℓ} ⦃f : Field F⦄ where
  Fits-mono : (qs : List (List F)) (m n : ℕ) → m ≤ n → Fits qs m → Fits qs n
  Fits-mono [] m n le h = tt
  Fits-mono (q ∷ qs) m n le (here, h) = (omega arith, Fits-mono qs m n le h)

module _ {ℓ} {F : Type ℓ} ⦃f : Field F⦄ ⦃p : PrimeField32 F⦄ where
  -- A quotient for each query.
  abbrev pub AreQuotients : RowMajorMatrix F → List (DeepQuery F) → List (List F) → Type ℓ
  AreQuotients trace [] [] = Unit
  AreQuotients trace (query ∷ queries) (q ∷ qs) =
      IsQuotient trace query q × AreQuotients trace queries qs
  AreQuotients trace _ _ = (f.one ≡ f.zero)

  -- Each query names a column.
  abbrev pub AreInRange : ℕ → RowMajorMatrix F → List (DeepQuery F) → Type 0
  AreInRange num_columns trace [] = Unit
  AreInRange num_columns trace (query ∷ queries) =
      (query.column_index < num_columns)
      × (query.column_index < trace.width)
      × AreInRange num_columns trace queries

  module _ (t : TwoAdic F) (trace : RowMajorMatrix F) (k : ℕ) (deep : k ≤ t.depth)
      (two : from_u64 2 ≢ f.zero) (height : trace.height ≡ 2 ^ suc k) (full : IsFull trace) where
    quotients_loop-AreQuotients :
        (num_columns : ℕ) (queries : List (DeepQuery F)) (longest : ℕ)
        → AreInRange num_columns trace queries
        → (qs : List (List F)) × (n : ℕ) × (quotients_loop num_columns trace queries longest
            ≡ some (ok (qs, n)))
          × AreQuotients trace queries qs
          × (longest ≤ n)
          × Fits qs n
    unfolding quotients_loop
    quotients_loop-AreQuotients num_columns [] longest h = ([], longest, refl, tt, omega arith, tt)
    quotients_loop-AreQuotients num_columns (query ∷ queries) longest (known, inside, h) =
        let (q, made, is_quotient) =
          compute_single_quotient-IsQuotient t trace query k deep two height full inside in
        let (qs, n, rest, are, le, fits) =
          quotients_loop-AreQuotients num_columns queries (max_usize longest (length q)) h in
        (
          q ∷ qs,
          n,
          rw (in_range num_columns query.column_index known, made, rest) refl,
          (is_quotient, are),
          omega (arith, max_usize-le longest (length q)),
          (omega (arith, max_usize-le longest (length q)), fits),
        )
      where
        in_range : (n i : ℕ) → i < n → leb n i ≡ false
        in_range n i lt = ground arith

    module _ {C S : Type 0} (c : Challenger F C S) where
      -- The combination of quotients of all queries, as `self` reports it.
      pub record DeepCombination (self : BabyBearDeepAli) (queries : List (DeepQuery F)) (s : S)
          : Type ℓ where
        pub quotients : List (List F)
        pub are_quotients : AreQuotients trace queries quotients
        pub observed : S
        pub observes : observe_trace c trace 0 trace.height s ≡ some observed
        pub combined : List F
        pub after : S
        pub value : (x : F) → eval_poly_horner combined x ≡ weighted c quotients observed x
        pub trimmed : IsTrimmed combined
        pub returned :
            compute_deep_quotient c self trace queries s
            ≡ some (
              if leb self.max_degree (length combined - 1)
                  then err degree_exceeded
                  else ok combined,
              after,
            )

      zeros_value : (n : ℕ) (y x : F) → eval_poly_horner (replicate n f.zero) x ⊕ y ≡ y
      zeros_value n y x =
          ap (λ t. t ⊕ y) (horner-zeros (replicate n f.zero) x (λ j. get_or-replicate n j f.zero))
          ∙ f.zero-add y

      bounded_lem :
          (max_degree : ℕ) (r : List F) (s : S)
          → bounded c max_degree (r, s)
            ≡ (if leb max_degree (length (trim r) - 1) then err degree_exceeded else ok (trim r), s)
      unfolding bounded
      bounded_lem max_degree r s = elim (Bool-cases (leb max_degree (length (trim r) - 1))) [
        | inl over ↦ rw over refl
        | inr under ↦ rw under refl
      ]

      -- Behind an open gate, on a full trace of 2^(k+1) rows within the depth of the field's roots,
      -- where 2 is not zero, and queries of its columns, at least one, there are quotients of the
      -- queries whose sum under the weights that the transcript gives has the values of a
      -- polynomial without a zero leading coefficient, which is returned when its degree is below
      -- the bound, and is refused otherwise.
      pub compute_deep_quotient-DeepCombination :
          (self : BabyBearDeepAli) (query : DeepQuery F) (queries : List (DeepQuery F)) (s : S)
          → self.owsl_permits ≡ true
          → AreInRange self.num_columns trace (query ∷ queries)
          → DeepCombination self (query ∷ queries) s
      unfolding compute_deep_quotient combine
      compute_deep_quotient-DeepCombination self query queries s permits h =
          let (observed, observes) =
            observe_trace-some c trace 0 trace.height s full (omega arith) in
          let (qs, n, made, are, le, fits) =
            quotients_loop-AreQuotients self.num_columns (query ∷ queries) 0 h in
          let (r, after, combines, value) =
            combine_loop_value c qs (replicate n f.zero) observed
              (subst (λ m. Fits qs m) (sym (length-replicate n f.zero)) fits) in
          record {
            quotients = qs;
            are_quotients = are;
            observed = observed;
            observes = observes;
            combined = trim r;
            after = after;
            value = λ x. horner-trim r x ∙ value x ∙ zeros_value n (weighted c qs observed x) x;
            trimmed = trim-IsTrimmed r;
            returned =
                rw (permits, observes, made, combines)
                  (ap some (bounded_lem self.max_degree r after));
          }
