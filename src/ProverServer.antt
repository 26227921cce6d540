-- ===== src/ProverServer.antt =====
-- crates/prover-server/src/main.rs: the handler of a proof request. The transcript of Plonky3, the
-- JSON encoder and the verdict of the entropy gate are parameters.
pub mod SelfCheck
pub mod Handler
pub mod Shipped
use tscp_anchor.Prelude.{
  ℕ, zero, suc, Bool, true, false, ◌||◌, not, Option, none, some, List, [], ◌∷◌, ◌++◌, map, length,
  ◌⊎◌, inl, inr, ◌==◌, if◌then◌else◌, ◌>>=◌,
}
use tscp_anchor.Prelude.Bits.{shl_one, sub_usize, is_power_of_two, ilog2}
use tscp_anchor.Prelude.Text.{Text, codes}
use tscp_anchor.Field.{Field, PrimeField32, ◌⊕◌, ◌⊖◌, ◌⊗◌}
use tscp_anchor.Oracle.{MleOracle}
use tscp_anchor.Oracle.Cube.{corner, sum_range}
use tscp_anchor.FriProtocol.{Challenger}
use tscp_anchor.Folded.{FoldedOracle, new, absorb_challenge, build_folded, folded_oracle}
use tscp_anchor.ProofEnvelope.{ProofEnvelope, seal_061}

pub record ProofRequest : Type 0 where
  pub job_id : Text
  pub col0 : List ℕ
  pub col1 : List ℕ
  pub alpha : ℕ

pub record SumcheckProof {ℓ} (F : Type ℓ) : Type ℓ where
  pub claimed_sum : F
  pub rounds : List (F × F)

pub record SealedProofResponse : Type 0 where
  pub job_id : Text
  pub envelope : ProofEnvelope
  pub status : Text

-- The responses, by their status and their cause.
pub data Response : Type 0 where
  at_capacity owsl_denied empty_columns : Response
  length_mismatch : ℕ → ℕ → Response
  not_power_of_two : ℕ → Response
  self_check_failed : Response
  serialization_failed : List ℕ → Response
  success : SealedProofResponse → Response

-- The HTTP status of a response.
unfoldable pub status_code : Response → ℕ
status_code at_capacity = 503
status_code owsl_denied = 403
status_code empty_columns = 400
status_code (length_mismatch a b) = 400
status_code (not_power_of_two n) = 400
status_code self_check_failed = 500
status_code (serialization_failed e) = 500
status_code (success r) = 200

module _ {ℓ} {F : Type ℓ} ⦃f : Field F⦄ where
  -- The closure `sum_bit`.
  unfoldable pub sum_bit : MleOracle F → List F → ℕ → ℕ → F → Option F
  sum_bit oracle prefix remaining half b =
      sum_range half 0 f.zero (λ i. oracle.eval ((prefix ++ b ∷ []) ++ corner i 0 remaining))

  unfoldable pub prover_round : MleOracle F → List F → Option (F × F)
  unfolding sum_bit
  prover_round oracle prefix = do
    unbound ← sub_usize oracle.n_vars (length prefix)
    remaining ← sub_usize unbound 1
    half ← shl_one remaining
    g0 ← sum_bit oracle prefix remaining half f.zero
    g1 ← sum_bit oracle prefix remaining half f.one
    some (g0, g1)

  -- The sum over all corners.
  unfoldable pub claim_of : MleOracle F → ℕ → Option F
  claim_of oracle n_vars = do
    size ← shl_one n_vars
    sum_range size 0 f.zero (λ idx. oracle.eval (corner idx 0 n_vars))

module _ {ℓ} {F : Type ℓ} {C S : Type 0} ⦃f : Field F⦄ (c : Challenger F C S) where
  -- The challenge after a round's two values, and the transcript behind it.
  abbrev pub absorb_round : S → F × F → F × S
  absorb_round s g = c.sample (c.observe (c.observe s g.0) g.1)

  -- `for &(g0, g1) in &proof.rounds`, then the final binding check.
  unfoldable pub verify_loop : MleOracle F → F → List F → List (F × F) → S → Option Bool
  verify_loop oracle running challenges [] s = do
    oracle_eval ← oracle.eval challenges
    some (f.beq running oracle_eval)
  verify_loop oracle running challenges (g ∷ gs) s =
      let (r, s1) = absorb_round s g in
      let rest = verify_loop oracle (g.0 ⊕ r ⊗ (g.1 ⊖ g.0)) (challenges ++ r ∷ []) gs s1 in
      if f.beq (g.0 ⊕ g.1) running then rest else some false

  unfoldable pub sumcheck_verify : SumcheckProof F → S → MleOracle F → Option Bool
  unfolding verify_loop
  sumcheck_verify proof s oracle = verify_loop oracle proof.claimed_sum [] proof.rounds s

  unfoldable pub observe_all : S → List F → S
  observe_all s [] = s
  observe_all s (v ∷ vs) = observe_all (c.observe s v) vs

  -- `for _ in 0..n_vars`
  unfoldable pub prove_rounds : ℕ → MleOracle F → S → List F → Option (List (F × F))
  prove_rounds zero oracle s prefix = some []
  prove_rounds (suc n) oracle s prefix = do
    g ← prover_round oracle prefix
    let (r, s1) = absorb_round s g
    rest ← prove_rounds n oracle s1 (prefix ++ r ∷ [])
    some (g ∷ rest)

  module _ ⦃p : PrimeField32 F⦄ (start : S) (to_vec : SumcheckProof F → List ℕ ⊎ List ℕ) where
    -- The response to a proof that passed the self-check.
    unfoldable pub ship : ProofRequest → SumcheckProof F → List ℕ ⊎ List ℕ → Response
    ship req proof (inl payload) = success (record {
      job_id = req.job_id;
      envelope = seal_061 (p.as_canonical_u32 proof.claimed_sum) payload;
      status = codes "success";
    })
    ship req proof (inr e) = serialization_failed e

    -- The proof that the handler builds, its self-check and the response, over the folded oracle.
    unfoldable pub prove_folded : ProofRequest → FoldedOracle F → S → S → ℕ → Option Response
    unfolding ship
    prove_folded req folded s s' n_vars = do
      let oracle = folded_oracle folded
      claimed ← claim_of oracle n_vars
      rounds ← prove_rounds n_vars oracle s []
      let proof : SumcheckProof F = record { claimed_sum = claimed; rounds = rounds }
      verified ← sumcheck_verify proof s' oracle
      some (if verified then ship req proof (to_vec proof) else self_check_failed)

    -- Behind the guards on the columns.
    unfoldable pub prove_columns : ProofRequest → Option Response
    unfolding prove_folded
    prove_columns req = do
      n_vars ← ilog2 (length req.col0)
      let col0 = map p.of_u32 req.col0
      let col1 = map p.of_u32 req.col1
      let s = observe_all (observe_all start col0) col1
      folded ← build_folded (absorb_challenge (new (col0 ∷ col1 ∷ []) n_vars) (p.of_u32 req.alpha))
      prove_folded req folded s s n_vars

    -- `prove_handler`, from the result of `try_acquire` and the verdict of the gate.
    unfoldable pub prove_handler : Bool → Bool → ProofRequest → Option Response
    prove_handler permit owsl_permits req =
        if not permit
        then some at_capacity
        else if not owsl_permits
        then some owsl_denied
        else if (length req.col0 == 0) || (length req.col1 == 0)
        then some empty_columns
        else if not (length req.col0 == length req.col1)
        then some (length_mismatch (length req.col0) (length req.col1))
        else if not (is_power_of_two (length req.col0))
        then some (not_power_of_two (length req.col0))
        else prove_columns req
