-- ===== src/Kernel/Produce.antt =====
-- `produce` of crates/tscp-cli/src/main.rs behind its arguments.
use tscp_anchor.Prelude.{
  ℕ, zero, suc, ◌+◌, ◌%◌, ◌^◌, ◌<◌, ◌≡◌, refl, ap, List, [], ◌∷◌, ◌++◌, length, replicate, arith,
}
use tscp_anchor.Prelude.Bytes.{Bytes}
use tscp_anchor.Kernel.{
  EventEnvelope, TransitionReceipt, ReplayEngine, Result, ok, ◌>>=◌, child_hash, new, apply,
  replay_loop, replay, genesis_state,
}
use tscp_anchor.Kernel.Replay.{apply-engine_at, engine_at, receipt_at}

-- `seed.wrapping_add(i as u8)` fills the id and the payload hash.
unfoldable pub produced_event : ℕ → ℕ → Bytes → EventEnvelope
produced_event seed i current_hash = record {
  event_id = replicate 16 ((seed + i % 256) % 256);
  parent_state_hash = current_hash;
  payload_hash = replicate 32 ((seed + i % 256) % 256);
  logical_time = i;
}

module _ (blake3 : Bytes → Bytes) where
  -- `for i in 0..count`: the engine and the events pushed.
  unfoldable pub produce_loop :
      ℕ → ℕ → ℕ → ReplayEngine → Result (ReplayEngine × List EventEnvelope)
  unfolding produced_event
  produce_loop seed i zero engine = ok (engine, [])
  produce_loop seed i (suc count) engine = do
    let event = produced_event seed i engine.state_hash
    next ← apply blake3 engine event
    rest ← produce_loop seed (suc i) count next
    ok (rest.0, event ∷ rest.1)

  unfoldable pub produce : ℕ → ℕ → Result (ReplayEngine × List EventEnvelope)
  produce count seed = produce_loop seed 0 count (new blake3 1)

  produce_loop-replay :
      (seed i count : ℕ) (h : Bytes) (n : ℕ) (before : List TransitionReceipt)
      → n + count < 2 ^ 64
      → (engine : ReplayEngine) × (events : List EventEnvelope) × (produce_loop seed i count
            (engine_at blake3 1 h n before)
          ≡ ok (engine, events))
        × (replay_loop blake3 (engine_at blake3 1 h n before) events ≡ ok engine)
        × (length events ≡ count)
  unfolding produce_loop replay_loop
  produce_loop-replay seed i zero h n before small =
      (engine_at blake3 1 h n before, [], refl, refl, refl)
  produce_loop-replay seed i (suc count) h n before small =
      let event = produced_event seed i h in
      let step = apply-engine_at blake3 1 h n before event refl (omega (arith, small)) in
      let (engine, events, made, replayed, size) =
        produce_loop-replay seed (suc i) count (child_hash blake3 h event (n + 1)) (n + 1)
          (before ++ receipt_at blake3 1 h n event ∷ []) (omega (arith, small)) in
      (engine, event ∷ events, rw (step, made), rw step replayed, ap suc size)

  -- Below 2^64 events, production succeeds, writes as many events as asked for, and their replay
  -- under ruleset 1 returns the receipts of the producing engine.
  pub replay-produce :
      (count seed : ℕ)
      → count < 2 ^ 64
      → (engine : ReplayEngine) × (events : List EventEnvelope) × (produce count seed
          ≡ ok (engine, events))
        × (replay blake3 events 1 ≡ ok engine.receipts)
        × (length events ≡ count)
  unfolding produce replay new
  replay-produce count seed small =
      let (engine, events, made, replayed, size) =
        produce_loop-replay seed 0 count genesis_state 0 [] (omega (arith, small)) in
      (engine, events, made, rw replayed, size)
