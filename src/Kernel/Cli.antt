-- ===== src/Kernel/Cli.antt =====
-- The commands of crates/tscp-cli/src/main.rs, from the arguments to what is written and printed. The
-- CBOR codec and the file system are parameters; a panic is `none`.
use tscp_anchor.Prelude.{
  ℕ, suc, ◌+◌, ◌*◌, ◌-◌, ◌^◌, ◌<◌, ◌≡◌, refl, ap, ◌∙◌, ◌&&◌, inl, inr, Option, none, some, List, [],
  ◌∷◌, length, get_elem?, leb, ltb, ◌==◌, if◌then◌else◌, Bool-cases, check, ◌>>=◌, ◌>>◌, eq_of_some,
  arith,
}
use tscp_anchor.Prelude.Bytes.{Bytes, bytes_eq}
use tscp_anchor.Prelude.Text.{Text, codes, text_eq, parse_digits, parse_usize}
use tscp_anchor.Kernel.{
  EventEnvelope, TransitionReceipt, ReplayEngine, Result, ok, err, panic, replay,
}
use tscp_anchor.Kernel.Replay.{Chained, done, link, replay_iff}
use tscp_anchor.Kernel.Produce.{produce, replay-produce}

-- `args.iter().position(|a| a == flag)`, and the argument behind it.
unfoldable pub arg_value : List Text → Text → Option Text
arg_value [] flag = none
arg_value (a ∷ args) flag =
    let rest = arg_value args flag in if text_eq a flag then get_elem? args 0 else rest

unfoldable pub unwrap_or : Option Text → Text → Text
unwrap_or none t = t
unwrap_or (some s) t = s

-- `str::parse::<u8>`
unfoldable pub parse_u8 : Text → Option ℕ
parse_u8 s = do n ← parse_usize s; check (ltb n 256); some n

unfoldable pub count_of : List Text → Option ℕ
count_of args = parse_usize (unwrap_or (arg_value args (codes "--count")) (codes "10"))

unfoldable pub seed_of : List Text → Option ℕ
seed_of args = parse_u8 (unwrap_or (arg_value args (codes "--seed")) (codes "1"))

-- `expect` on a result
unfoldable pub expect {ℓ} : {A : Type ℓ} → Result A → Option A
expect (ok a) = some a
expect (err e) = none
expect panic = none

-- The state after the last receipt.
unfoldable pub final_state : List TransitionReceipt → Option Bytes
final_state [] = none
final_state (r ∷ []) = some r.child_state_hash
final_state (r ∷ r' ∷ rs) = final_state (r' ∷ rs)

-- What a run leaves: the contents of events.cbor with the number that it prints, or the path, the
-- number of receipts and the final state that it prints, or the usage.
pub data Output : Type 0 where
  wrote : Bytes → ℕ → Output
  replayed : Text → ℕ → Option Bytes → Output
  usage : Output

-- ciborium: what is encoded decodes to itself.
pub record Cbor : Type 0 where
  pub into_writer : List EventEnvelope → Option Bytes
  pub from_reader : Bytes → Option (List EventEnvelope)
  pub from_reader-into_writer :
      (events : List EventEnvelope)
      → (bytes : Bytes) × (into_writer events ≡ some bytes) × (from_reader bytes ≡ some events)

pub record Disk : Type 0 where
  pub read : Text → Option Bytes
  pub write : Bytes → Option (Unit {0})

module _ (blake3 : Bytes → Bytes) (cbor : Cbor) (disk : Disk) where
  unfoldable pub produce_command : List Text → Option Output
  unfolding count_of seed_of
  produce_command args = do
    count ← count_of args
    seed ← seed_of args
    run ← expect (produce blake3 count seed)
    bytes ← cbor.into_writer run.1
    disk.write bytes
    some (wrote bytes count)

  unfoldable pub replay_command : List Text → Option Output
  replay_command args = do
    path ← get_elem? args 2
    bytes ← disk.read path
    events ← cbor.from_reader bytes
    receipts ← expect (replay blake3 events 1)
    some (replayed path (length receipts) (final_state receipts))

  -- The command that the first argument names.
  unfoldable pub dispatch : List Text → Option Text → Option Output
  unfolding produce_command replay_command
  dispatch args none = some usage
  dispatch args (some command) =
      if text_eq command (codes "produce")
      then produce_command args
      else if text_eq command (codes "replay")
      then replay_command args
      else some usage

  unfoldable pub main : List Text → Option Output
  unfolding dispatch
  main args = dispatch args (get_elem? args 1)

parse_digits-bound :
    (value : ℕ) (s : Text) (n : ℕ) → value < 2 ^ 64 → parse_digits value s ≡ some n → n < 2 ^ 64
unfolding parse_digits
parse_digits-bound value [] n h e = omega (arith, h, eq_of_some e)
parse_digits-bound value (c ∷ s) n h e =
    elim (Bool-cases (leb 48 c && leb c 57 && ltb (10 * value + (c - 48)) (2 ^ 64))) [
      | inl digit ↦
          parse_digits-bound (10 * value + (c - 48)) s n (ground (arith, digit))
            (let k : parse_digits (10 * value + (c - 48)) s ≡ some n = rw digit at e in k)
      | inr other ↦ absurd (let k : none ≡ some n = rw other at e in cc)
    ]

parse_usize-bound : (s : Text) (n : ℕ) → parse_usize s ≡ some n → n < 2 ^ 64
unfolding parse_usize
parse_usize-bound [] n e = absurd cc
parse_usize-bound (c ∷ []) n e = parse_digits-bound 0 (c ∷ []) n (omega arith) e
parse_usize-bound (c ∷ d ∷ s) n e = elim (Bool-cases (c == 43)) [
  | inl plus ↦
      parse_digits-bound 0 (d ∷ s) n (omega arith)
        (let k : parse_digits 0 (d ∷ s) ≡ some n = rw plus at e in k)
  | inr other ↦
      parse_digits-bound 0 (c ∷ d ∷ s) n (omega arith)
        (let k : parse_digits 0 (c ∷ d ∷ s) ≡ some n = rw other at e in k)
]

length-Chained :
    (blake3 : Bytes → Bytes) (version : ℕ) {h : Bytes} {n : ℕ} {es : List EventEnvelope}
    {rs : List TransitionReceipt}
    → Chained blake3 version h n es rs
    → length rs ≡ length es
length-Chained blake3 version done = refl
length-Chained blake3 version (link p small chain) = ap suc (length-Chained blake3 version chain)

module _ (blake3 : Bytes → Bytes) (cbor : Cbor) where
  replay_command-replayed :
      (disk : Disk) (args : List Text) (path : Text) (bytes : Bytes) (events : List EventEnvelope)
      (receipts : List TransitionReceipt)
      → get_elem? args 1 ≡ some (codes "replay")
      → get_elem? args 2 ≡ some path
      → disk.read path ≡ some bytes
      → cbor.from_reader bytes ≡ some events
      → replay blake3 events 1 ≡ ok receipts
      → main blake3 cbor disk args ≡ some (replayed path (length receipts) (final_state receipts))
  unfolding main dispatch replay_command expect bytes_eq
  replay_command-replayed disk args path bytes events receipts command named there decoded made =
      rw (command, named, there, decoded, made) refl

  produce_command-wrote :
      (disk : Disk) (args : List Text) (count seed : ℕ) (bytes : Bytes) (engine : ReplayEngine)
      (events : List EventEnvelope)
      → get_elem? args 1 ≡ some (codes "produce")
      → count_of args ≡ some count
      → seed_of args ≡ some seed
      → disk.write bytes ≡ some tt
      → produce blake3 count seed ≡ ok (engine, events)
      → cbor.into_writer events ≡ some bytes
      → main blake3 cbor disk args ≡ some (wrote bytes count)
  unfolding main dispatch produce_command expect bytes_eq
  produce_command-wrote disk args count seed bytes engine events command counted seeded written made
        encoded =
      rw (command, counted, seeded, made, encoded, written) refl

  -- The file that a produce command writes, and the receipts of its engine.
  pub record Produced (disk : Disk) (args : List Text) (count seed : ℕ) : Type 0 where
    pub bytes : Bytes
    pub engine : ReplayEngine
    pub events : List EventEnvelope
    pub made : produce blake3 count seed ≡ ok (engine, events)
    pub written : main blake3 cbor disk args ≡ some (wrote bytes count)
    pub replays :
        (later : Disk) (args' : List Text) (path : Text)
        → get_elem? args' 1 ≡ some (codes "replay")
        → get_elem? args' 2 ≡ some path
        → later.read path ≡ some bytes
        → main blake3 cbor later args' ≡ some (replayed path count (final_state engine.receipts))

  -- A produce command whose count and seed parse, missing ones being 10 and 1, on a disk that can
  -- be written, writes a file and prints the count; a later replay command on a path with these
  -- bytes prints the path, the same number of receipts and the final state of the producing engine.
  pub main-Produced :
      (disk : Disk) (args : List Text) (count seed : ℕ)
      → get_elem? args 1 ≡ some (codes "produce")
      → count_of args ≡ some count
      → seed_of args ≡ some seed
      → ((bytes : Bytes) → disk.write bytes ≡ some tt)
      → Produced disk args count seed
  main-Produced disk args count seed command counted seeded writes =
      let (engine, events, made, replayed_all, size) = replay-produce blake3 count seed (
        unfold count_of in
        parse_usize-bound (unwrap_or (arg_value args (codes "--count")) (codes "10")) count
          counted) in
      let (bytes, encoded, decoded) = cbor.from_reader-into_writer events in
      let many : length engine.receipts ≡ count =
        length-Chained blake3 1 ((replay_iff blake3 1 events engine.receipts).0 replayed_all)
        ∙ size in
      record {
        bytes = bytes;
        engine = engine;
        events = events;
        made = made;
        written =
            produce_command-wrote disk args count seed bytes engine events command counted seeded
              (writes bytes) made encoded;
        replays = λ later args' path command' named there.
            replay_command-replayed later args' path bytes events engine.receipts command' named
              there decoded replayed_all
            ∙ ap (λ n. some (replayed path n (final_state engine.receipts))) many;
      }
