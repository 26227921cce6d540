-- ===== src/Examples/Server.antt =====
-- The prover server, the folded columns and the admission at concrete inputs.
use tscp_anchor.Prelude.{ℕ, ◌+◌, ◌≤◌, ◌≡◌, refl, true, some, List, [], ◌∷◌, ◌⊎◌, inl, arith}
use tscp_anchor.Field.Five.{Five, e0, e1, e2, e3, e4, five, five_prime}
use tscp_anchor.Oracle.Cube.{sum}
use tscp_anchor.Folded.{test_commutation_law}
use tscp_anchor.Folded.Fold.{none_left, column, add_columns, add_scaled}
use tscp_anchor.Folded.Prefix.{commutation_law}
use tscp_anchor.ProverServer.{
  ProofRequest, SumcheckProof, SealedProofResponse, success, ship, prove_rounds, claim_of,
  sumcheck_verify, prove_handler,
}
use tscp_anchor.ProverServer.SelfCheck.{table_rounds, table_proof, self_check}
use tscp_anchor.ProverServer.Shipped.{Genuine, prove_handler-Genuine}
use tscp_anchor.ProofEnvelope.{seal_061}
use tscp_anchor.Prelude.Text.{codes}
use tscp_anchor.ProverServer.Handler.{prove_handler-proof}
use tscp_anchor.Admission.{
  EdiaAgent, Server, start, guarded, admitted, lock_holders, Reachable, begin, next, try_acquire,
  lock_agent, unlock_agent, take_guard, cancel_waiting, guard_acquire, guard_drop,
}
use tscp_anchor.Admission.Finish.{finishes, Finishing, none, more, work, Rests, Finishing-Rests}
use tscp_anchor.Admission.Inflight.{steps, steps-drain, Reachable-IsBalanced}
use tscp_anchor.Examples.{table, oracle, oracle-Extends, challenger}

abbrev second : List Five
second = e4 ∷ e0 ∷ e1 ∷ e1 ∷ []

commutation_law_example : test_commutation_law (table ∷ second ∷ []) e3 (e2 ∷ []) 2 ≡ some true
commutation_law_example =
    commutation_law e3 table (second ∷ []) (e2 ∷ []) 2 1 (omega arith) refl
      (column refl (column refl none_left))

self_check_example :
    (claim_of oracle 2 ≡ some (sum table))
    × (prove_rounds challenger 2 oracle 7 [] ≡ some (table_rounds challenger 2 7 table))
    × (sumcheck_verify challenger (table_proof challenger oracle-Extends 7) 7 oracle ≡ some true)
self_check_example = self_check challenger oracle-Extends 7

abbrev request : ProofRequest
request = record {
  job_id = 1 ∷ [];
  col0 = 1 ∷ 2 ∷ 3 ∷ 4 ∷ [];
  col1 = 4 ∷ 0 ∷ 1 ∷ 1 ∷ [];
  alpha = 3;
}

-- An encoder that writes one byte.
abbrev to_vec : SumcheckProof Five → List ℕ ⊎ List ℕ
to_vec proof = inl (0 ∷ [])

-- What the server ships for the request: 10 + 3 * 6 is 3 in the field.
abbrev shipped : SealedProofResponse
shipped = record { job_id = 1 ∷ []; envelope = seal_061 3 (0 ∷ []); status = codes "success" }

request-shipped : prove_handler challenger 0 to_vec true true request ≡ some (success shipped)
unfolding ship sum add_columns add_scaled
request-shipped = prove_handler-proof challenger 0 to_vec request 2 (omega arith) refl refl

prove_handler-Genuine_example : Genuine challenger 0 to_vec request true true shipped
prove_handler-Genuine_example =
    prove_handler-Genuine challenger 0 to_vec true true request shipped (omega arith)
      request-shipped

-- One request waits for the agent's lock with its guard, and another holds the lock.
abbrev two_inside : Server
two_inside = record {
  permits = 2;
  pending_requests = 1;
  agent_locked = true;
  entering = 0;
  cloning = 1;
  counting = 0;
  waiting = 1;
  reading = 0;
  running = 0;
  leaving = 0;
}

two_inside-Reachable : Reachable two_inside
unfolding start guard_acquire
two_inside-Reachable =
    next
      (next
        (next
          (next (next (next begin (try_acquire (omega arith))) (lock_agent (omega arith) refl))
            (unlock_agent (omega arith)))
          (take_guard (omega arith)))
        (try_acquire (omega arith)))
      (lock_agent (omega arith) refl)

Reachable-IsBalanced_example :
    (2 + admitted two_inside ≡ 4)
    × (two_inside.pending_requests ≡ guarded two_inside)
    × (two_inside.pending_requests ≤ 4)
    × (lock_holders two_inside ≡ 1)
Reachable-IsBalanced_example = Reachable-IsBalanced two_inside two_inside-Reachable

-- The client of the request that waits has gone away.
abbrev one_gone : Server
one_gone = record {
  permits = 2;
  pending_requests = 0;
  agent_locked = true;
  entering = 0;
  cloning = 1;
  counting = 0;
  waiting = 0;
  reading = 0;
  running = 0;
  leaving = 1;
}

one_gone-Finishing : Finishing two_inside 1 one_gone
unfolding guard_drop finishes
one_gone-Finishing = more none (cancel_waiting (omega arith)) refl

Finishing-Rests_example : (1 + work one_gone ≤ work two_inside) × Rests one_gone
Finishing-Rests_example =
    Finishing-Rests two_inside two_inside-Reachable 1 one_gone one_gone-Finishing

abbrev agent : EdiaAgent
agent = record { ring_buffer = 5 ∷ 6 ∷ 7 ∷ []; drain_rate_tps = 2; pending_requests = 1 }

steps-drain_example : ((steps 3 agent).ring_buffer ≡ []) × ((steps 3 agent).pending_requests ≡ 1)
steps-drain_example = steps-drain 3 agent (omega arith) (omega arith)
