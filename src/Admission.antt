-- ===== src/Admission.antt =====
-- crates/prover-server/src/edia/mod.rs and the admission of crates/prover-server/src/main.rs: the
-- agent, the guard that counts requests in flight, and the semaphore of proving permits.
pub mod Inflight
pub mod Finish
use tscp_anchor.Prelude.{
  ℕ, ◌+◌, ◌-◌, ◌%◌, ◌^◌, ◌<◌, ◌≡◌, Bool, true, false, List, [], ◌∷◌, ◌++◌, length, drop, ltb,
  if◌then◌else◌,
}

pub record EdiaAgent : Type 0 where
  pub ring_buffer : List ℕ
  pub drain_rate_tps : ℕ
  pub pending_requests : ℕ

unfoldable pub new : ℕ → EdiaAgent
new capacity = record { ring_buffer = []; drain_rate_tps = 1; pending_requests = 0 }

-- The clock's reading is an argument.
unfoldable pub ingest_telemetry : ℕ → EdiaAgent → EdiaAgent
ingest_telemetry timestamp agent = record {
  ring_buffer = agent.ring_buffer ++ timestamp ∷ [];
  drain_rate_tps = agent.drain_rate_tps;
  pending_requests = agent.pending_requests;
}

rate_after : List ℕ → ℕ → ℕ
rate_after [] rate = 1
rate_after (t ∷ ts) rate = rate

-- `drain(..n.min(len))`
unfoldable pub step : EdiaAgent → EdiaAgent
unfolding rate_after
step agent =
    let n =
      if ltb agent.drain_rate_tps (length agent.ring_buffer)
      then agent.drain_rate_tps
      else length agent.ring_buffer in
    let rest = drop n agent.ring_buffer in
    record {
      ring_buffer = rest;
      drain_rate_tps = rate_after rest agent.drain_rate_tps;
      pending_requests = agent.pending_requests;
    }

-- `fetch_add(1)` on the 64-bit counter
unfoldable pub guard_acquire : ℕ → ℕ
guard_acquire pending = (pending + 1) % 2 ^ 64

-- `v.saturating_sub(1)`
unfoldable pub guard_drop : ℕ → ℕ
guard_drop pending = pending - 1

-- The server's admission: the permits left, the counter, whether the agent's mutex is taken, and how
-- many requests stand at each point of the handler.
pub record Server : Type 0 where
  pub permits : ℕ
  pub pending_requests : ℕ
  pub agent_locked : Bool
  pub entering : ℕ  -- with a permit, at the `lock().await` of `EdiaGuard::acquire`
  pub cloning : ℕ  -- with the lock, at `pending_requests.clone()`
  pub counting : ℕ  -- at `fetch_add`
  pub waiting : ℕ  -- with a guard, at the handler's own `lock().await`
  pub reading : ℕ  -- with a guard and the lock, at `load`
  pub running : ℕ  -- with a guard, behind it
  pub leaving : ℕ  -- without the guard, and with the permit

-- `Semaphore::new(4)`
unfoldable pub start : Server
start = record {
  permits = 4;
  pending_requests = 0;
  agent_locked = false;
  entering = 0;
  cloning = 0;
  counting = 0;
  waiting = 0;
  reading = 0;
  running = 0;
  leaving = 0;
}

-- One step of one of the concurrent requests. A handler that returns drops its guard, then its
-- permit; one whose client goes away is dropped where it awaits the lock.
pub data Step (s : Server) : Server → Type 0 where
  try_acquire :
      0 < s.permits → Step s (record s { permits = s.permits - 1; entering = s.entering + 1 })
  refused : s.permits ≡ 0 → Step s s
  lock_agent :
      0 < s.entering
      → s.agent_locked ≡ false
      → Step s
          (record s { agent_locked = true; entering = s.entering - 1; cloning = s.cloning + 1 })
  unlock_agent :
      0 < s.cloning
      → Step s
          (record s { agent_locked = false; cloning = s.cloning - 1; counting = s.counting + 1 })
  take_guard :
      0 < s.counting
      → Step s (record s {
        pending_requests = guard_acquire s.pending_requests;
        counting = s.counting - 1;
        waiting = s.waiting + 1;
      })
  lock_again :
      0 < s.waiting
      → s.agent_locked ≡ false
      → Step s (record s { agent_locked = true; waiting = s.waiting - 1; reading = s.reading + 1 })
  unlock_again :
      0 < s.reading
      → Step s (record s { agent_locked = false; reading = s.reading - 1; running = s.running + 1 })
  drop_guard :
      0 < s.running
      → Step s (record s {
        pending_requests = guard_drop s.pending_requests;
        running = s.running - 1;
        leaving = s.leaving + 1;
      })
  drop_permit :
      0 < s.leaving → Step s (record s { permits = s.permits + 1; leaving = s.leaving - 1 })
  cancel_entering :
      0 < s.entering → Step s (record s { entering = s.entering - 1; leaving = s.leaving + 1 })
  cancel_waiting :
      0 < s.waiting
      → Step s (record s {
        pending_requests = guard_drop s.pending_requests;
        waiting = s.waiting - 1;
        leaving = s.leaving + 1;
      })

pub data Reachable : Server → Type 0 where
  begin : Reachable start
  next : {s t : Server} → Reachable s → Step s t → Reachable t

-- The requests with a guard, those with a permit, and those with the lock.
abbrev pub guarded : Server → ℕ
guarded s = s.waiting + s.reading + s.running

abbrev pub admitted : Server → ℕ
admitted s = s.entering + s.cloning + s.counting + guarded s + s.leaving

abbrev pub lock_holders : Server → ℕ
lock_holders s = s.cloning + s.reading
