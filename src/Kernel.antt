-- ===== src/Kernel.antt =====
-- crates/tscp-kernel/src: events, the transition and the replay engine, and the producer of
-- crates/tscp-cli/src/main.rs. BLAKE3 is a parameter, a function from bytes to the 32 bytes of a
-- digest.
pub mod Replay
pub mod Produce
pub mod Cli
use tscp_anchor.Prelude.Bytes.{Bytes, bytes_eq, le_bytes}
use tscp_anchor.Prelude.{
  ℕ, zero, suc, ◌+◌, ◌%◌, ◌/◌, ◌^◌, ◌≡◌, refl, Bool, true, false, List, [], ◌∷◌, ◌++◌, ◌==◌, ◌&&◌,
  ltb, replicate, if◌then◌else◌,
}

abbrev pub genesis_state : Bytes
genesis_state = replicate 32 0

pub record EventEnvelope : Type 0 where
  pub event_id : Bytes
  pub parent_state_hash : Bytes
  pub payload_hash : Bytes
  pub logical_time : ℕ

pub record State : Type 0 where
  pub counter : ℕ

pub record ExecutionContext : Type 0 where
  pub ruleset_version : ℕ
  pub logical_time : ℕ

pub data TransitionKind : Type 0 where
  claim_created claim_verified : TransitionKind

-- `self.kind as u16`
unfoldable pub kind_code : TransitionKind → ℕ
kind_code claim_created = 1
kind_code claim_verified = 2

pub record TransitionReceipt : Type 0 where
  pub parent_state_hash : Bytes
  pub event_hash : Bytes
  pub child_state_hash : Bytes
  pub kernel_version : ℕ
  pub kind : TransitionKind

pub data TransitionError : Type 0 where
  invalid_parent : TransitionError
  precondition_failed : Bytes → TransitionError

-- A `Result`, or the panic of an overflowing `u64`.
pub data Result {ℓ} (A : Type ℓ) : Type ℓ where
  ok : A → Result A
  err : TransitionError → Result A
  panic : Result A

infixl 5 ◌>>=◌
abbrev pub ◌>>=◌ {ℓ κ} : {A : Type ℓ} {B : Type κ} → Result A → (A → Result B) → Result B
ok a >>= g = g a
err e >>= g = err e
panic >>= g = panic

pub >>=-eq-ok {ℓ κ} :
    {A : Type ℓ} {B : Type κ} (m : Result A) (g : A → Result B) {b : B}
    → (m >>= g) ≡ ok b
    → (a : A) × (m ≡ ok a) × (g a ≡ ok b)
>>=-eq-ok (ok a) g h = (a, refl, h)
>>=-eq-ok (err e) g h = cc
>>=-eq-ok panic g h = cc

-- `n += 1` on `u64`
unfoldable pub increment : ℕ → Result ℕ
increment n = if ltb (n + 1) (2 ^ 64) then ok (n + 1) else panic

pub record ReplayEngine : Type 0 where
  pub state : State
  pub state_hash : Bytes
  pub context : ExecutionContext
  pub receipts : List TransitionReceipt

-- `b"TSCP_TRANSITION_RECEIPT_V1"`
abbrev pub receipt_tag : Bytes
receipt_tag =
    b'T' ∷ b'S' ∷ b'C' ∷ b'P' ∷ b'_' ∷ b'T' ∷ b'R' ∷ b'A' ∷ b'N' ∷ b'S' ∷ b'I' ∷ b'T' ∷ b'I' ∷ b'O'
    ∷ b'N' ∷ b'_' ∷ b'R' ∷ b'E' ∷ b'C' ∷ b'E' ∷ b'I' ∷ b'P' ∷ b'T' ∷ b'_' ∷ b'V' ∷ b'1' ∷ []

module _ (blake3 : Bytes → Bytes) where
  unfoldable pub event_hash : EventEnvelope → Bytes
  event_hash e =
      blake3 (e.event_id ++ (e.parent_state_hash ++ (e.payload_hash ++ le_bytes 8 e.logical_time)))

  -- The digest of a receipt, behind its domain tag.
  unfoldable pub receipt_hash : TransitionReceipt → Bytes
  receipt_hash r = blake3 (
      receipt_tag
      ++ (le_bytes 2 r.kernel_version
          ++ (le_bytes 2 (kind_code r.kind)
              ++ (r.parent_state_hash ++ (r.event_hash ++ r.child_state_hash)))))

  unfoldable pub child_hash : Bytes → EventEnvelope → ℕ → Bytes
  child_hash state_hash event counter =
      blake3 (state_hash ++ (event_hash event ++ le_bytes 8 counter))

  unfoldable pub dispatch_event :
      State → Bytes → EventEnvelope → ExecutionContext → Result (State × TransitionReceipt)
  dispatch_event state state_hash event context =
      if bytes_eq event.parent_state_hash state_hash
      then (do
        counter ← increment state.counter
        ok (
          record { counter = counter },
          record {
            parent_state_hash = state_hash;
            event_hash = event_hash event;
            child_state_hash = child_hash state_hash event counter;
            kernel_version = context.ruleset_version;
            kind = if counter % 2 == 1 then claim_created else claim_verified;
          },
        ))
      else err invalid_parent

  unfoldable pub new : ℕ → ReplayEngine
  new ruleset_version = record {
    state = record { counter = 0 };
    state_hash = genesis_state;
    context = record { ruleset_version = ruleset_version; logical_time = 0 };
    receipts = [];
  }

  -- An error leaves the engine as it was: the caller keeps its own.
  unfoldable pub apply : ReplayEngine → EventEnvelope → Result ReplayEngine
  apply engine event = do
    result ← dispatch_event engine.state engine.state_hash event engine.context
    time ← increment engine.context.logical_time
    ok (record {
      state = result.0;
      state_hash = result.1.child_state_hash;
      context = record { ruleset_version = engine.context.ruleset_version; logical_time = time };
      receipts = engine.receipts ++ result.1 ∷ [];
    })

  -- `for ev in events`
  unfoldable pub replay_loop : ReplayEngine → List EventEnvelope → Result ReplayEngine
  replay_loop engine [] = ok engine
  replay_loop engine (e ∷ es) = do next ← apply engine e; replay_loop next es

  unfoldable pub replay : List EventEnvelope → ℕ → Result (List TransitionReceipt)
  replay events ruleset_version = do
    engine ← replay_loop (new ruleset_version) events
    ok engine.receipts
