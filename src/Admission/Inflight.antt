-- ===== src/Admission/Inflight.antt =====
-- The invariant of the admission, and the control loop of crates/prover-server/src/edia/mod.rs.
use tscp_anchor.Prelude.{
  ℕ, zero, suc, ◌+◌, ◌-◌, ◌≤◌, ◌<◌, ◌≡◌, refl, ◌∙◌, List, [], ◌∷◌, length, drop, ltb, if◌then◌else◌,
  arith,
}
use tscp_anchor.Admission.{
  EdiaAgent, rate_after, step, Server, start, guarded, admitted, lock_holders, Step, try_acquire,
  refused, lock_agent, unlock_agent, take_guard, lock_again, unlock_again, drop_guard, drop_permit,
  cancel_entering, cancel_waiting, Reachable, begin, next, guard_acquire, guard_drop,
}

-- The permits left and those held add up, the counter counts the guards, and the mutex is taken
-- exactly while one request holds it.
pub record IsBalanced (s : Server) : Type 0 where
  pub permits : s.permits + admitted s ≡ 4
  pub counted : s.pending_requests ≡ guarded s
  pub locked : lock_holders s ≡ (if s.agent_locked then 1 else 0)

Step-IsBalanced : {s t : Server} → IsBalanced s → Step s t → IsBalanced t
unfolding guard_acquire guard_drop
Step-IsBalanced b (try_acquire h) = ground arith
Step-IsBalanced b (refused e) = b
Step-IsBalanced b (lock_agent h free) = ground arith
Step-IsBalanced b (unlock_agent h) = ground arith
Step-IsBalanced b (take_guard h) = ground arith
Step-IsBalanced b (lock_again h free) = ground arith
Step-IsBalanced b (unlock_again h) = ground arith
Step-IsBalanced b (drop_guard h) = ground arith
Step-IsBalanced b (drop_permit h) = ground arith
Step-IsBalanced b (cancel_entering h) = ground arith
Step-IsBalanced b (cancel_waiting h) = ground arith

-- In every state that the concurrent requests reach, the permits left and those held are 4, the
-- counter is the number of guards alive, at most 4, and the agent's mutex is taken exactly while
-- one request holds it.
pub Reachable-IsBalanced :
    (s : Server)
    → Reachable s
    → (s.permits + admitted s ≡ 4)
      × (s.pending_requests ≡ guarded s)
      × (s.pending_requests ≤ 4)
      × (lock_holders s ≡ (if s.agent_locked then 1 else 0))
Reachable-IsBalanced s r =
    let b = balanced r in (b.permits, b.counted, omega (arith, b.permits, b.counted), b.locked)
  where
    balanced : {s : Server} → Reachable s → IsBalanced s
    balanced begin = unfold start in record { permits = refl; counted = refl; locked = refl }
    balanced (next r st) = Step-IsBalanced (balanced r) st

length-drop {ℓ} : {A : Type ℓ} (n : ℕ) (xs : List A) → length (drop n xs) ≡ length xs - n
length-drop zero xs = omega arith
length-drop (suc n) [] = omega arith
length-drop (suc n) (x ∷ xs) = omega (arith, length-drop n xs)

-- Steps of the control loop.
abbrev pub steps : ℕ → EdiaAgent → EdiaAgent
steps zero agent = agent
steps (suc k) agent = steps k (step agent)

drained :
    (rate size k : ℕ) → 0 < rate → size ≤ suc k → size - (if ltb rate size then rate else size) ≤ k
drained rate size k hr hs = ground arith

nothing_left : (xs : List ℕ) → length xs ≡ 0 → xs ≡ []
nothing_left [] h = refl
nothing_left (x ∷ xs) h = absurd (omega arith)

rate_after-pos : (xs : List ℕ) (rate : ℕ) → 0 < rate → 0 < rate_after xs rate
unfolding rate_after
rate_after-pos [] rate h = omega arith
rate_after-pos (x ∷ xs) rate h = h

-- With a positive drain rate, as many steps as the buffer holds time stamps empty it, from any
-- agent on, and leave the counter of requests as it was.
pub steps-drain :
    (k : ℕ) (agent : EdiaAgent)
    → 0 < agent.drain_rate_tps
    → length agent.ring_buffer ≤ k
    → ((steps k agent).ring_buffer ≡ [])
      × ((steps k agent).pending_requests ≡ agent.pending_requests)
steps-drain zero agent hr h = (nothing_left agent.ring_buffer (omega arith), refl)
steps-drain (suc k) agent hr h =
    let (empty, kept) = steps-drain k (step agent) (rate agent hr) (shorter agent hr h) in
    (empty, kept ∙ unfold step in refl)
  where
    rate : (agent : EdiaAgent) → 0 < agent.drain_rate_tps → 0 < (step agent).drain_rate_tps
    rate agent hr = unfold step in rate_after-pos _ agent.drain_rate_tps hr

    shorter :
        (agent : EdiaAgent)
        → 0 < agent.drain_rate_tps
        → length agent.ring_buffer ≤ suc k
        → length (step agent).ring_buffer ≤ k
    shorter agent hr h =
        unfold step in
        (rw
          (length-drop
            (if ltb agent.drain_rate_tps (length agent.ring_buffer)
              then agent.drain_rate_tps
              else length agent.ring_buffer)
            agent.ring_buffer)
          (drained agent.drain_rate_tps (length agent.ring_buffer) k hr h))
