-- ===== src/ProverServer/SelfCheck.antt =====
-- The rounds and the self-check of crates/prover-server/src/main.rs over the oracle of a table.
use tscp_anchor.Prelude.{
  ℕ, zero, suc, ◌+◌, ◌-◌, ◌^◌, ◌≡◌, refl, sym, ap, ◌∙◌, true, Option, none, some, List, [], ◌∷◌,
  ◌++◌, length, length-append, check, ltb, lt→ltb, ◌>>=◌, ◌>>◌, arith,
}
use tscp_anchor.Prelude.Bits.{shl_one, sub_usize, sub_usize-some, pow_two-suc}
use tscp_anchor.Field.{Field}
use tscp_anchor.Field.Laws.{beq_refl}
use tscp_anchor.Oracle.{MleOracle}
use tscp_anchor.Oracle.Mle.{bind, bind_all, mle, head_or, bind_all-snoc, length-bind_all}
use tscp_anchor.Oracle.Cube.{sum, sum-bind, sum-bind_corners}
use tscp_anchor.Sumcheck.{sumcheck_round, eval_at}
use tscp_anchor.Sumcheck.Round.{Extends, sumcheck_round-sums}
use tscp_anchor.Sumcheck.Complete.{sum_single, hypercube_sum, hypercube_sum-sum}
use tscp_anchor.FriProtocol.{Challenger}
use tscp_anchor.ProverServer.{
  SumcheckProof, prover_round, sum_bit, absorb_round, verify_loop, sumcheck_verify, prove_rounds,
  claim_of,
}

>>=-ext {ℓ κ} :
    {A : Type ℓ} {B : Type κ} (m : Option A) {g h : A → Option B}
    → ((a : A) → g a ≡ h a)
    → (m >>= g) ≡ (m >>= h)
>>=-ext none e = refl
>>=-ext (some a) e = e a

module _ {ℓ} {F : Type ℓ} ⦃f : Field F⦄ where
  head_or-mle : (ps vs : List F) → head_or (bind_all ps vs) ≡ mle ps vs
  unfolding mle
  head_or-mle ps vs = refl

  -- The server's round is the library's, on every oracle and prefix, panics included.
  pub prover_round-sumcheck_round :
      (oracle : MleOracle F) (prefix : List F)
      → prover_round oracle prefix ≡ sumcheck_round oracle prefix
  unfolding prover_round sumcheck_round sum_bit eval_at
  prover_round-sumcheck_round oracle prefix =
      >>=-ext (sub_usize oracle.n_vars (length prefix)) round
    where
      less_one : (k : ℕ) → suc k - 1 ≡ k
      less_one k = omega arith

      server : ℕ → Option (F × F)
      server unbound = do
        remaining ← sub_usize unbound 1
        half ← shl_one remaining
        g0 ← sum_bit oracle prefix remaining half f.zero
        g1 ← sum_bit oracle prefix remaining half f.one
        some (g0, g1)

      library : ℕ → Option (F × F)
      library unbound = do
        check (ltb 0 unbound)
        size ← shl_one (unbound - 1)
        g0 ← eval_at oracle prefix unbound size f.zero
        g1 ← eval_at oracle prefix unbound size f.one
        some (g0, g1)

      round : (unbound : ℕ) → server unbound ≡ library unbound
      round zero = unfold sub_usize in refl
      round (suc k) =
          rw (sub_usize-some (suc k) 1 k (omega arith), less_one k, lt→ltb 0 (suc k) (omega arith))
            refl

module _ {ℓ} {F : Type ℓ} {C S : Type 0} ⦃f : Field F⦄ (c : Challenger F C S) where
  abbrev pub table_round : List F → F × F
  table_round w = (sum (bind f.zero w), sum (bind f.one w))

  -- The rounds that a table and a transcript determine.
  unfoldable pub table_rounds : ℕ → S → List F → List (F × F)
  table_rounds zero s w = []
  table_rounds (suc k) s w =
      table_round w
      ∷ table_rounds k (absorb_round c s (table_round w)).1
          (bind (absorb_round c s (table_round w)).0 w)

  module _ {vs : List F} {n : ℕ} {oracle : MleOracle F} (ext : Extends vs n oracle) where
    prove_rounds-table_rounds :
        (k : ℕ) (s : S) (prefix : List F)
        → length prefix + k ≡ n
        → prove_rounds c k oracle s prefix ≡ some (table_rounds k s (bind_all prefix vs))
    unfolding prove_rounds table_rounds
    prove_rounds-table_rounds zero s prefix h = refl
    prove_rounds-table_rounds (suc k) s prefix h =
        let w = bind_all prefix vs in
        let g : F × F = table_round w in
        let r : F = (absorb_round c s g).0 in
        rw (prover_round-sumcheck_round oracle prefix, sumcheck_round-sums ext prefix k h)
          (rw
            (
              prove_rounds-table_rounds k (absorb_round c s g).1 (prefix ++ r ∷ [])
                  (omega (arith, h, length-append prefix (r ∷ []))),
              bind_all-snoc prefix r vs,
            )
            refl)

    verify_loop-table_rounds :
        (k : ℕ) (s : S) (prefix : List F)
        → length prefix + k ≡ n
        → verify_loop c oracle
            (sum (bind_all prefix vs))
            prefix
            (table_rounds k s (bind_all prefix vs))
            s
          ≡ some true
    unfolding verify_loop table_rounds
    verify_loop-table_rounds zero s prefix h = rw (ext.answers prefix (omega arith)) (
        ap some (
          beq_refl (
            sum_single (bind_all prefix vs)
              (length-bind_all prefix vs 0 (ext.size ∙ ap (λ m. 2 ^ m) (sym h)))
            ∙ head_or-mle prefix vs)))
    verify_loop-table_rounds (suc k) s prefix h =
        let w = bind_all prefix vs in
        let g : F × F = table_round w in
        let r : F = (absorb_round c s g).0 in
        let size : length w ≡ 2 ^ suc k =
          length-bind_all prefix vs (suc k) (ext.size ∙ ap (λ m. 2 ^ m) (sym h)) in
        rw
          (
            beq_refl (sum-bind_corners w (2 ^ k) (size ∙ pow_two-suc k)),
            ← sum-bind r w,
            ← bind_all-snoc prefix r vs,
          )
          (verify_loop-table_rounds k (absorb_round c s g).1 (prefix ++ r ∷ [])
            (omega (arith, h, length-append prefix (r ∷ []))))

    claim_of-sum : claim_of oracle n ≡ some (sum vs)
    unfolding claim_of hypercube_sum
    claim_of-sum = ap (hypercube_sum oracle) (sym ext.vars) ∙ hypercube_sum-sum ext

    abbrev pub table_proof : S → SumcheckProof F
    table_proof s = record { claimed_sum = sum vs; rounds = table_rounds n s vs }

    -- Over the oracle of a table, the claim and the rounds that the server computes are those of
    -- the table, and sumcheck_verify, from the same transcript, accepts them.
    pub self_check :
        (s : S)
        → (claim_of oracle n ≡ some (sum vs))
          × (prove_rounds c n oracle s [] ≡ some (table_rounds n s vs))
          × (sumcheck_verify c (table_proof s) s oracle ≡ some true)
    unfolding sumcheck_verify bind_all
    self_check s = (
      claim_of-sum,
      prove_rounds-table_rounds n s [] (omega arith),
      verify_loop-table_rounds n s [] (omega arith),
    )
