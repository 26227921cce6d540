-- ===== src/Examples.antt =====
-- The theorems at concrete inputs, over the field of five elements, with a commitment that is the
-- committed column itself and a transcript that counts.
mod Receipts
mod Server
mod Polynomials
mod Division
mod Status
mod Publication
mod Transforms
mod Codec
mod Emission
mod Verifier
use tscp_anchor.Prelude.{
  ℕ, ◌+◌, ◌*◌, ◌%◌, ◌≡◌, ◌≢◌, ◌↔◌, ◌<◌, ◌^◌, zero, suc, refl, replicate, Bool, true, false, ◌&&◌,
  some, none, List, [], ◌∷◌, length, get_elem?, get_or, ◌==◌, ==_refl, inl, inr, arith,
}
use tscp_anchor.Prelude.Bits.{shl_one, bit, shr, is_power_of_two}
use tscp_anchor.Field.{Field, from_u64}
use tscp_anchor.Field.Five.{
  Five, e0, e1, e2, e3, e4, val, of_residue, same, same_iff, five, five_prime,
}
use tscp_anchor.Oracle.{MleOracle, evaluate_mle, mle_loop, basis_loop}
use tscp_anchor.Oracle.Mle.{evaluate_mle-mle, mle, bind, bind_all}
use tscp_anchor.Oracle.Cube.{sum}
use tscp_anchor.Sumcheck.{SumcheckProof, verify_sumcheck, sumcheck_round, final_checks, ok}
use tscp_anchor.Sumcheck.Round.{Extends, evaluate_mle-Extends}
use tscp_anchor.Sumcheck.Complete.{verify-honest_prove, honest_prove}
use tscp_anchor.Sumcheck.Sound.{Lucky, verify_sumcheck-Lucky}
use tscp_anchor.Constraint.{lww_booleanity, lww_value, lww_timestamp, lww_constraints}
use tscp_anchor.Constraint.Lww.{IsLww, row, rules-IsLww, composite_forged}
use tscp_anchor.Merkle.{Mmcs}
use tscp_anchor.Fri.{fri_fold_step, fold_loop, fold_at, folded_value}
use tscp_anchor.FriQuery.{FriProof, fri_prove, fri_verify}
use tscp_anchor.FriQuery.Accept.{fri_verify-fri_prove}
use tscp_anchor.FriQuery.Forged.{AllOpenTwice}
use tscp_anchor.FriQuery.Forgery.{fri_verify_forged}
use tscp_anchor.Fri.Fold.{IsFold, fri_fold_step-IsFold, fri_fold_step_total}
use tscp_anchor.Fri.Fold.{NonZero}
use tscp_anchor.FriProtocol.{Challenger}

abbrev pub table : List Five
table = e1 ∷ e2 ∷ e3 ∷ e3 ∷ []

abbrev oracle : MleOracle Five
oracle = record { n_vars = 2; eval = evaluate_mle table }

oracle-Extends : Extends table 2 oracle
oracle-Extends = evaluate_mle-Extends table 2 (omega arith) refl

evaluate_mle-mle_example : evaluate_mle table (e2 ∷ e4 ∷ []) ≡ some (mle (e2 ∷ e4 ∷ []) table)
evaluate_mle-mle_example = evaluate_mle-mle table (e2 ∷ e4 ∷ []) (omega arith) refl

verify-honest_prove_example :
    (proof : SumcheckProof Five) × (honest_prove oracle (e3 ∷ e2 ∷ []) ≡ some proof)
    × (proof.claimed_sum ≡ sum table)
    × (verify_sumcheck proof (e3 ∷ e2 ∷ []) oracle ≡ ok)
verify-honest_prove_example = verify-honest_prove oracle-Extends (e3 ∷ e2 ∷ []) refl

-- A transcript of a false claim that the challenge 1 lets through.
abbrev false_proof : SumcheckProof Five
false_proof = record { claimed_sum = e0; n_vars = 1; rounds = (e3, e2) ∷ []; final_eval = e2 }

abbrev short_table : List Five
short_table = e1 ∷ e2 ∷ []

abbrev short_oracle : MleOracle Five
short_oracle = record { n_vars = 1; eval = evaluate_mle short_table }

false_claim : false_proof.claimed_sum ≢ sum short_table
unfolding sum
false_claim h = cc

false_proof_accepted : verify_sumcheck false_proof (e1 ∷ []) short_oracle ≡ ok
unfolding verify_sumcheck final_checks evaluate_mle shl_one mle_loop basis_loop bit shr
false_proof_accepted = refl

Lucky_example : Lucky short_table ((e3, e2) ∷ []) (e1 ∷ [])
Lucky_example =
    verify_sumcheck-Lucky (evaluate_mle-Extends short_table 1 (omega arith) refl) false_proof
      (e1 ∷ []) refl false_claim false_proof_accepted

-- Rows of the last-writer-wins trace: v_curr 3, ts_curr 1, v_event 2, ts_event 4.
rules-IsLww_example :
    ((lww_booleanity.evaluate (row e3 e1 e2 e4 e2 e4 e1) ≡ some e0)
      × (lww_value.evaluate (row e3 e1 e2 e4 e2 e4 e1) ≡ some e0)
      × (lww_timestamp.evaluate (row e3 e1 e2 e4 e2 e4 e1) ≡ some e0))
    ↔ IsLww e3 e1 e2 e4 e2 e4 e1
rules-IsLww_example = rules-IsLww e3 e1 e2 e4 e2 e4 e1

composite_forged_example :
    (lww_constraints.evaluate (row e3 e1 e2 e4 e4 e3 e0) ≡ some e0)
    × (lww_value.evaluate (row e3 e1 e2 e4 e4 e3 e0) ≡ some e1)
    × ¬ IsLww e3 e1 e2 e4 e4 e3 e0
composite_forged_example = composite_forged e3 e1 e2 e4 e2 refl

abbrev pub same_column : List Five → List Five → Bool
same_column [] [] = true
same_column (a ∷ as') (b ∷ bs) = same a b && same_column as' bs
same_column _ _ = false

pub same_refl : (a : Five) → same a a ≡ true
same_refl a = (same_iff a a).1 refl

pub same_column_refl : (c : List Five) → same_column c c ≡ true
same_column_refl [] = refl
same_column_refl (a ∷ c) = rw (same_refl a, same_column_refl c)

pub get_or-some : (xs : List Five) (i : ℕ) (a : Five) → get_elem? xs i ≡ some a → get_or xs i e0 ≡ a
get_or-some [] i a h = cc
get_or-some (x ∷ xs) zero a h = cc
get_or-some (x ∷ xs) (suc i) a h = get_or-some xs i a h

abbrev mmcs : Mmcs Five (List Five) (Unit {0})
mmcs = record {
  commit_vec = λ leaves. leaves;
  open_batch = λ i leaves. (get_or leaves i e0, tt);
  verify_batch = λ c height i v _. (length c == height) && same (get_or c i e0) v;
  commitment_eq = same_column;
  open_batch-value = get_or-some;
  verify-open_batch = λ leaves i h. rw (==_refl (length leaves), same_refl (get_or leaves i e0));
  commitment_eq_refl = same_column_refl;
}

abbrev challenger : Challenger Five (List Five) ℕ
challenger = record {
  observe = λ s a. 5 * s + val a;
  observe_commitment = λ s c. s + length c;
  sample = λ s. (of_residue (s % 5), s + 1);
}

-- The powers of 2, a fourth root of unity, and a table over them.
abbrev pub roots_of_unity : List Five
roots_of_unity = e1 ∷ e2 ∷ e4 ∷ e3 ∷ []

pub two_ne_zero : from_u64 {F = Five} 2 ≢ e0
unfolding from_u64
two_ne_zero h = cc

pub roots_of_unity-NonZero : NonZero roots_of_unity
roots_of_unity-NonZero zero x h = cc
roots_of_unity-NonZero (suc zero) x h = cc
roots_of_unity-NonZero (suc (suc zero)) x h = cc
roots_of_unity-NonZero (suc (suc (suc zero))) x h = cc
roots_of_unity-NonZero (suc (suc (suc (suc i)))) x h = cc

fold_returned : fri_fold_step table roots_of_unity e3 ≡ some (e4 ∷ e3 ∷ [])
unfolding fri_fold_step is_power_of_two from_u64 fold_loop fold_at folded_value
fold_returned = refl

fri_verify-fri_prove_example :
    (proof : FriProof Five (List Five) (Unit {0})) × (after : ℕ) × (fri_prove mmcs challenger table
        roots_of_unity 0 3
      ≡ some (proof, after))
    × (fri_verify mmcs challenger roots_of_unity proof 0 3 ≡ some true)
fri_verify-fri_prove_example =
    fri_verify-fri_prove mmcs challenger 1 table roots_of_unity 0 3 two_ne_zero
      roots_of_unity-NonZero refl refl

-- The third value of the table as the final value.
fri_verify_forged_example :
    (proof : FriProof Five (List Five) (Unit {0})) × (get_elem? proof.commitment.roots 0
      ≡ some table)
    × (proof.commitment.final_value ≡ e3)
    × AllOpenTwice 2 proof.query_proofs
    × (fri_verify mmcs challenger roots_of_unity proof 0 3 ≡ some true)
fri_verify_forged_example =
    fri_verify_forged mmcs challenger 1 table roots_of_unity 0 3 2 e3 two_ne_zero
      roots_of_unity-NonZero refl refl refl
