-- ===== src/Admission/Finish.antt =====
-- How the requests in flight of crates/prover-server/src/main.rs end.
use native.Mathlib.Decide.{dec_lt}
use tscp_anchor.Prelude.{ℕ, suc, ◌+◌, ◌*◌, ◌≤◌, ◌≡◌, refl, Bool, true, false, if◌then◌else◌, arith}
use tscp_anchor.Admission.{
  Server, start, guarded, admitted, lock_holders, Step, try_acquire, refused, lock_agent,
  unlock_agent, take_guard, lock_again, unlock_again, drop_guard, drop_permit, cancel_entering,
  cancel_waiting, Reachable, next,
}
use tscp_anchor.Admission.Inflight.{Reachable-IsBalanced}

-- A step of a request that has been admitted.
unfoldable pub finishes : {s t : Server} → Step s t → Bool
finishes (try_acquire h) = false
finishes (refused e) = false
finishes _ = true

-- One by which the handler itself goes on: its client has not gone away.
unfoldable pub proceeds : {s t : Server} → Step s t → Bool
proceeds (try_acquire h) = false
proceeds (refused e) = false
proceeds (cancel_entering h) = false
proceeds (cancel_waiting h) = false
proceeds _ = true

-- So many steps of admitted requests.
pub data Finishing (s : Server) : ℕ → Server → Type 0 where
  none : Finishing s 0 s
  more :
      {n : ℕ} {t u : Server}
      → Finishing s n t
      → (st : Step t u) → finishes st ≡ true
      → Finishing s (suc n) u

-- The steps that the requests in flight have left when no client goes away.
abbrev pub work : Server → ℕ
work s =
    7 * s.entering
    + 6 * s.cloning
    + 5 * s.counting
    + 4 * s.waiting
    + 3 * s.reading
    + 2 * s.running
    + s.leaving

Step-work : {s t : Server} (st : Step s t) → finishes st ≡ true → suc (work t) ≤ work s
unfolding finishes
Step-work (try_acquire h) f = absurd cc
Step-work (refused e) f = absurd cc
Step-work (lock_agent h free) f = omega arith
Step-work (unlock_agent h) f = omega arith
Step-work (take_guard h) f = omega arith
Step-work (lock_again h free) f = omega arith
Step-work (unlock_again h) f = omega arith
Step-work (drop_guard h) f = omega arith
Step-work (drop_permit h) f = omega arith
Step-work (cancel_entering h) f = omega arith
Step-work (cancel_waiting h) f = omega arith

Finishing-work : {s t : Server} {n : ℕ} → Finishing s n t → n + work t ≤ work s
Finishing-work none = omega arith
Finishing-work (more r st h) = omega (arith, Finishing-work r, Step-work st h)

Finishing-Reachable : {s t : Server} {n : ℕ} → Reachable s → Finishing s n t → Reachable t
Finishing-Reachable r none = r
Finishing-Reachable r (more f st h) = next (Finishing-Reachable r f) st

-- A server at rest is the one at the start, or some admitted request's handler has a step.
pub data Rests (s : Server) : Type 0 where
  at_start : s ≡ start → Rests s
  goes_on : {t : Server} (st : Step s t) → proceeds st ≡ true → Rests s

free_lock : {b : Bool} {n : ℕ} → n ≡ (if b then 1 else 0) → n ≡ 0 → b ≡ false
free_lock e h = ground arith

idle-Rests :
    (s : Server)
    → s.permits ≡ 4
    → s.pending_requests ≡ 0
    → s.agent_locked ≡ false
    → s.entering ≡ 0
    → s.cloning ≡ 0
    → s.counting ≡ 0
    → s.waiting ≡ 0
    → s.reading ≡ 0
    → s.running ≡ 0
    → s.leaving ≡ 0
    → s ≡ start
unfolding start
idle-Rests s h1 h2 h3 h4 h5 h6 h7 h8 h9 h10 = cc

rests :
    (s : Server)
    → s.permits + admitted s ≡ 4
    → s.pending_requests ≡ guarded s
    → lock_holders s ≡ (if s.agent_locked then 1 else 0)
    → Rests s
unfolding proceeds
rests s balanced counted locked = elim (dec_lt 0 s.cloning) [
  | yes h ↦ goes_on (unlock_agent h) refl
  | no cloning ↦ elim (dec_lt 0 s.reading) [
    | yes h ↦ goes_on (unlock_again h) refl
    | no reading ↦
        let free : s.agent_locked ≡ false = free_lock locked (omega arith) in
        elim (dec_lt 0 s.entering) [
          | yes h ↦ goes_on (lock_agent h free) refl
          | no entering ↦ elim (dec_lt 0 s.counting) [
            | yes h ↦ goes_on (take_guard h) refl
            | no counting ↦ elim (dec_lt 0 s.waiting) [
              | yes h ↦ goes_on (lock_again h free) refl
              | no waiting ↦ elim (dec_lt 0 s.running) [
                | yes h ↦ goes_on (drop_guard h) refl
                | no running ↦ elim (dec_lt 0 s.leaving) [
                  | yes h ↦ goes_on (drop_permit h) refl
                  | no leaving ↦ at_start (
                      idle-Rests s (omega arith) (omega arith) free (omega arith) (omega arith)
                        (omega arith) (omega arith) (omega arith) (omega arith) (omega arith))
                ]
              ]
            ]
          ]
        ]
  ]
]

-- From every state that the concurrent requests reach, the steps of the admitted requests,
-- cancellations included, come to an end whatever their order: their number and the work left then
-- are at most the work at first; and as long as the server is not as at its start, with all permits
-- back, the counter at zero and the mutex free, some admitted request can go on without being
-- cancelled.
pub Finishing-Rests :
    (s : Server)
    → Reachable s
    → (n : ℕ) (t : Server) → Finishing s n t
    → (n + work t ≤ work s) × Rests t
Finishing-Rests s r n t f =
    let (a, b, c, d) = Reachable-IsBalanced t (Finishing-Reachable r f) in
    (Finishing-work f, rests t a b d)
