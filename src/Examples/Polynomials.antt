-- ===== src/Examples/Polynomials.antt =====
-- Divisions, the soundness budget, the commit phase and the oracles' sources at concrete inputs.
use tscp_anchor.Prelude.{ℕ, ◌≤◌, ◌≡◌, refl, true, some, List, [], ◌∷◌, length, arith}
use tscp_anchor.Field.{◌⊕◌, ◌⊖◌, ◌⊗◌, exp}
use tscp_anchor.Field.Five.{Five, e0, e1, e2, e3, e4, five, five_prime}
use tscp_anchor.Quotient.{QuotientResult, eval_poly_horner, divide_by_vanishing}
use tscp_anchor.Quotient.Divide.{divide_by_vanishing-exact}
use tscp_anchor.DeepAli.{new}
use tscp_anchor.DeepAli.Ledger.{granted, total, requested, after, requested-after}
use tscp_anchor.FriProtocol.{fri_commit_transcript}
use tscp_anchor.FriProtocol.Agree.{fri_prove-fri_commit_transcript}
use tscp_anchor.FriQuery.{FriProof, fri_prove, fri_verify}
use tscp_anchor.FriQuery.Accept.{fri_verify-fri_prove}
use tscp_anchor.Oracle.{MleOracle}
use tscp_anchor.Constraint.{
  lww_constraints, constraint_evals, constraint_oracle, composite, sum_squares, lww_booleanity,
  lww_value, lww_timestamp, booleanity_at, value_at, timestamp_at,
}
use tscp_anchor.Constraint.Lww.{row}
use tscp_anchor.Sumcheck.Round.{Extends}
use tscp_anchor.Sumcheck.Sources.{constraint_oracle-Extends}
use tscp_anchor.Examples.{
  table, mmcs, challenger, roots_of_unity, two_ne_zero, roots_of_unity-NonZero,
}

-- (x^2 - 1) * (2 + 3 x)
abbrev pub multiple : List Five
multiple = e3 ∷ e2 ∷ e2 ∷ e3 ∷ []

divide_by_vanishing-exact_example :
    (r : QuotientResult Five) × (divide_by_vanishing multiple 2 ≡ some r)
    × (length r.remainder ≤ 2)
    × ((x : Five)
        → eval_poly_horner multiple x
          ≡ eval_poly_horner r.quotient x ⊗ (exp x 2 ⊖ e1) ⊕ eval_poly_horner r.remainder x)
divide_by_vanishing-exact_example = divide_by_vanishing-exact multiple 2 (omega arith)

requested-after_example :
    (requested challenger (5 ∷ 4 ∷ 3 ∷ []) (new 8) 0
      ≡ after challenger (granted 8 (5 ∷ 4 ∷ 3 ∷ [])) 0 0 8 0)
    × (total (granted 8 (5 ∷ 4 ∷ 3 ∷ [])) ≤ 8)
requested-after_example =
    requested-after challenger 8 (5 ∷ 4 ∷ 3 ∷ []) 0 (omega arith) (omega arith)

-- The second request is over what the first has left.
second_refused : granted 8 (5 ∷ 4 ∷ 3 ∷ []) ≡ 5 ∷ 3 ∷ []
second_refused = refl

-- What the prover made of the table, with two queries.
abbrev produced :
    (proof : FriProof Five (List Five) (Unit {0})) × (after : ℕ) × (fri_prove mmcs challenger table
        roots_of_unity 0 2
      ≡ some (proof, after))
    × (fri_verify mmcs challenger roots_of_unity proof 0 2 ≡ some true)
produced =
    fri_verify-fri_prove mmcs challenger 1 table roots_of_unity 0 2 two_ne_zero
      roots_of_unity-NonZero refl refl

fri_prove-fri_commit_transcript_example :
    (between : ℕ) × (fri_commit_transcript mmcs challenger table roots_of_unity 0
      ≡ some (produced.0.commitment, between))
fri_prove-fri_commit_transcript_example =
    fri_prove-fri_commit_transcript mmcs challenger table roots_of_unity 0 2 produced.0 produced.1
      produced.2

-- A trace of two rows that follow the last-writer-wins rules.
abbrev trace : List (List Five)
trace = row e3 e1 e2 e4 e2 e4 e1 ∷ row e2 e4 e1 e0 e2 e4 e0 ∷ []

trace_evals : constraint_evals lww_constraints trace ≡ some (e0 ∷ e0 ∷ [])
unfolding constraint_evals lww_constraints composite sum_squares lww_booleanity lww_value
    lww_timestamp booleanity_at value_at timestamp_at
trace_evals = refl

constraint_oracle-Extends_example :
    (oracle : MleOracle Five) × (constraint_oracle trace lww_constraints ≡ some oracle)
    × Extends (e0 ∷ e0 ∷ []) 1 oracle
constraint_oracle-Extends_example =
    constraint_oracle-Extends lww_constraints trace (e0 ∷ e0 ∷ []) 1 (omega arith) refl trace_evals
