-- ===== src/Kernel/Replay.antt =====
-- Replays of crates/tscp-kernel/src/replay.rs as chains of events.
use mathlib.Core.List.{append_assoc, append-nil}
use tscp_anchor.Prelude.{
  ℕ, ◌+◌, ◌%◌, ◌^◌, ◌<◌, ◌≡◌, refl, sym, ap, ◌∙◌, List, [], ◌∷◌, ◌++◌, ◌==◌, ltb, lt→ltb, ltb→lt,
  if◌then◌else◌, Bool-cases, ◌↔◌, inl, inr,
}
use tscp_anchor.Prelude.Bytes.{Bytes, bytes_eq, bytes_eq_sound, bytes_eq_refl}
use tscp_anchor.Kernel.{
  EventEnvelope, TransitionKind, claim_created, claim_verified, TransitionReceipt, Result, ok,
  ◌>>=◌, >>=-eq-ok, increment, ReplayEngine, event_hash, child_hash, dispatch_event, new, apply,
  replay_loop, replay, genesis_state,
}

-- The kind that the n-th transition gets: they alternate.
abbrev pub kind_at : ℕ → TransitionKind
kind_at n = if n % 2 == 1 then claim_created else claim_verified

receipts_of : Result ReplayEngine → List TransitionReceipt
receipts_of (ok e) = e.receipts
receipts_of _ = []

eq_of_ok {ℓ} : {A : Type ℓ} {a b : A} → ok a ≡ ok b → a ≡ b
eq_of_ok h = cc

module _ (blake3 : Bytes → Bytes) (version : ℕ) where
  -- The receipts of a chain of events from a state hash on, `n` transitions having been made.
  pub data Chained : Bytes → ℕ → List EventEnvelope → List TransitionReceipt → Type 0 where
    done : {h : Bytes} {n : ℕ} → Chained h n [] []
    link :
        {h : Bytes} {n : ℕ} {e : EventEnvelope} {es : List EventEnvelope}
        {rs : List TransitionReceipt}
        → e.parent_state_hash ≡ h
        → n + 1 < 2 ^ 64
        → Chained (child_hash blake3 h e (n + 1)) (n + 1) es rs
        → Chained h n (e ∷ es) (
            record {
              parent_state_hash = h;
              event_hash = event_hash blake3 e;
              child_state_hash = child_hash blake3 h e (n + 1);
              kernel_version = version;
              kind = kind_at (n + 1);
            }
            ∷ rs)

  -- An engine after `n` transitions.
  abbrev pub engine_at : Bytes → ℕ → List TransitionReceipt → ReplayEngine
  engine_at h n before = record {
    state = record { counter = n };
    state_hash = h;
    context = record { ruleset_version = version; logical_time = n };
    receipts = before;
  }

  abbrev pub receipt_at : Bytes → ℕ → EventEnvelope → TransitionReceipt
  receipt_at h n e = record {
    parent_state_hash = h;
    event_hash = event_hash blake3 e;
    child_state_hash = child_hash blake3 h e (n + 1);
    kernel_version = version;
    kind = kind_at (n + 1);
  }

  pub apply-engine_at :
      (h : Bytes) (n : ℕ) (before : List TransitionReceipt) (e : EventEnvelope)
      → e.parent_state_hash ≡ h
      → n + 1 < 2 ^ 64
      → apply blake3 (engine_at h n before) e
        ≡ ok (engine_at (child_hash blake3 h e (n + 1)) (n + 1) (before ++ receipt_at h n e ∷ []))
  unfolding apply dispatch_event increment
  apply-engine_at h n before e p small =
      rw (ap (λ x. bytes_eq x h) p ∙ bytes_eq_refl h, lt→ltb (n + 1) (2 ^ 64) small)

  apply-ok :
      (h : Bytes) (n : ℕ) (before : List TransitionReceipt) (e : EventEnvelope)
      {next : ReplayEngine}
      → apply blake3 (engine_at h n before) e ≡ ok next
      → (e.parent_state_hash ≡ h) × (n + 1 < 2 ^ 64)
  unfolding apply dispatch_event increment
  apply-ok h n before e r = elim (Bool-cases (bytes_eq e.parent_state_hash h)) [
    | inr other ↦ cc (rw other at r)
    | inl same ↦ elim (Bool-cases (ltb (n + 1) (2 ^ 64))) [
      | inr over ↦ cc (rw (same, over) at r)
      | inl small ↦ (bytes_eq_sound _ _ same, ltb→lt _ _ small)
    ]
  ]

  replay_loop-Chained :
      (h : Bytes) (n : ℕ) (before : List TransitionReceipt) (es : List EventEnvelope)
      {last : ReplayEngine}
      → replay_loop blake3 (engine_at h n before) es ≡ ok last
      → (rs : List TransitionReceipt) × (last.receipts ≡ before ++ rs) × Chained h n es rs
  unfolding replay_loop receipts_of
  replay_loop-Chained h n before [] r = (
    [],
    let e : ◌≡◌ {A = Result ReplayEngine} (ok (engine_at h n before)) (ok _) = r in
        ap receipts_of (sym e) ∙ sym (append-nil before),
    done,
  )
  replay_loop-Chained h n before (e ∷ es) r =
      let (next, made, r') = >>=-eq-ok (apply blake3 (engine_at h n before) e) _ r in
      let (p, small) = apply-ok h n before e made in
      let same = sym made ∙ apply-engine_at h n before e p small in
      let (rs, eq, chain) =
        replay_loop-Chained (child_hash blake3 h e (n + 1)) (n + 1)
          (before ++ receipt_at h n e ∷ []) es
          (ap (λ (x : Result ReplayEngine). x >>= λ engine. replay_loop blake3 engine es) (sym same)
            ∙ r') in
      (
        receipt_at h n e ∷ rs,
        eq ∙ append_assoc before (receipt_at h n e ∷ []) rs,
        link p small chain,
      )

  Chained-replay_loop :
      {h : Bytes} {n : ℕ} (before : List TransitionReceipt) {es : List EventEnvelope}
      {rs : List TransitionReceipt}
      → Chained h n es rs
      → (last : ReplayEngine) × (replay_loop blake3 (engine_at h n before) es ≡ ok last)
        × (last.receipts ≡ before ++ rs)
  unfolding replay_loop
  Chained-replay_loop {h} {n} before done = (engine_at h n before, refl, sym (append-nil before))
  Chained-replay_loop {h} {n} before (link {e = e} {rs = rs} p small chain) =
      let (last, made, eq) = Chained-replay_loop (before ++ receipt_at h n e ∷ []) chain in
      (
        last,
        rw (apply-engine_at h n before e p small) made,
        eq ∙ append_assoc before (receipt_at h n e ∷ []) rs,
      )

  -- A replay returns the receipts exactly when the events are chained from the genesis state: each
  -- names the state hash the one before it left, the count stays below 2^64, and the receipts are
  -- those of the chain.
  pub replay_iff :
      (events : List EventEnvelope) (receipts : List TransitionReceipt)
      → (replay blake3 events version ≡ ok receipts) ↔ Chained genesis_state 0 events receipts
  unfolding replay new
  replay_iff events receipts = (from, to)
    where
      from :
          (replay_loop blake3 (engine_at genesis_state 0 []) events >>= λ engine.
          ok engine.receipts)
            ≡ ok receipts
          → Chained genesis_state 0 events receipts
      from r =
          let (last, made, e) =
            >>=-eq-ok (replay_loop blake3 (engine_at genesis_state 0 []) events) _ r in
          let (rs, eq, chain) = replay_loop-Chained genesis_state 0 [] events made in
          rw (eq_of_ok (sym e) ∙ eq) chain

      to :
          Chained genesis_state 0 events receipts
          → (replay_loop blake3 (engine_at genesis_state 0 []) events >>= λ engine.
              ok engine.receipts)
            ≡ ok receipts
      to chain = let (last, made, eq) = Chained-replay_loop [] chain in rw made (ap ok eq)
