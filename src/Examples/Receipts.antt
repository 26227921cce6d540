-- ===== src/Examples/Receipts.antt =====
-- The replay and the envelope at concrete inputs. The digest of the examples keeps 32 bytes.
use tscp_anchor.Prelude.{
  ℕ, zero, suc, refl, Option, none, some, drop, take-append, drop-append, ◌>>=◌, ◌≡◌, ◌↔◌, List, [],
  ◌∷◌, ◌++◌, length, take, replicate,
}
use tscp_anchor.Prelude.Bytes.{Bytes, bytes_eq}
use tscp_anchor.Prelude.Text.{Text, codes, parse_digits, parse_usize}
use tscp_anchor.Kernel.{
  EventEnvelope, TransitionReceipt, claim_created, ok, replay, event_hash, child_hash,
  genesis_state,
}
use tscp_anchor.Kernel.Replay.{Chained, replay_iff}
use tscp_anchor.Kernel.Cli.{
  arg_value, unwrap_or, parse_u8, count_of, seed_of, Cbor, Disk, Produced, main-Produced,
}

abbrev digest : Bytes → Bytes
digest bytes = take 32 (bytes ++ replicate 32 0)

abbrev event : EventEnvelope
event = record {
  event_id = replicate 16 1;
  parent_state_hash = genesis_state;
  payload_hash = replicate 32 7;
  logical_time = 1;
}

abbrev receipt : TransitionReceipt
receipt = record {
  parent_state_hash = genesis_state;
  event_hash = event_hash digest event;
  child_state_hash = child_hash digest genesis_state event 1;
  kernel_version = 3;
  kind = claim_created;
}

replay_iff_example :
    (replay digest (event ∷ []) 3 ≡ ok (receipt ∷ []))
    ↔ Chained digest 3 genesis_state 0 (event ∷ []) (receipt ∷ [])
replay_iff_example = replay_iff digest 3 (event ∷ []) (receipt ∷ [])

-- A codec that writes each list behind its length.
put : Bytes → Bytes → Bytes
put xs rest = length xs ∷ xs ++ rest

got : Bytes → Option (Bytes × Bytes)
got [] = none
got (n ∷ bytes) = some (take n bytes, drop n bytes)

got-put : (xs rest : Bytes) → got (put xs rest) ≡ some (xs, rest)
unfolding got put
got-put xs rest = rw (take-append xs rest, drop-append xs rest) refl

first_of : Bytes → ℕ
first_of [] = 0
first_of (n ∷ bytes) = n

write_events : List EventEnvelope → Bytes
write_events [] = []
write_events (e ∷ es) =
    put e.event_id
      (put e.parent_state_hash (put e.payload_hash (put (e.logical_time ∷ []) (write_events es))))

read_events : ℕ → Bytes → Option (List EventEnvelope)
read_events zero bytes = some []
read_events (suc n) bytes = do
  a ← got bytes
  b ← got a.1
  c ← got b.1
  d ← got c.1
  es ← read_events n d.1
  some (
      record {
        event_id = a.0;
        parent_state_hash = b.0;
        payload_hash = c.0;
        logical_time = first_of d.0;
      }
      ∷ es)

read_events-write_events :
    (es : List EventEnvelope) → read_events (length es) (write_events es) ≡ some es
unfolding read_events write_events first_of
read_events-write_events [] = refl
read_events-write_events (e ∷ es) =
    rw
      (
        got-put e.event_id _,
        got-put e.parent_state_hash _,
        got-put e.payload_hash _,
        got-put (e.logical_time ∷ []) _,
        read_events-write_events es,
      )
      refl

read_counted : Bytes → Option (List EventEnvelope)
read_counted [] = none
read_counted (n ∷ bytes) = read_events n bytes

abbrev codec : Cbor
unfolding read_counted
codec = record {
  into_writer = λ es. some (length es ∷ write_events es);
  from_reader = read_counted;
  from_reader-into_writer = λ es. (length es ∷ write_events es, refl, read_events-write_events es);
}

abbrev disk : Disk
disk = record { read = λ path. none; write = λ bytes. some tt }

-- tscp-cli produce --count 3 --seed 200
abbrev arguments : List Text
arguments =
    codes "tscp-cli"
    ∷ codes "produce"
    ∷ codes "--count"
    ∷ codes "3"
    ∷ codes "--seed"
    ∷ codes "200"
    ∷ []

counted : count_of arguments ≡ some 3
unfolding count_of arg_value unwrap_or parse_usize parse_digits bytes_eq
counted = refl

seeded : seed_of arguments ≡ some 200
unfolding seed_of arg_value unwrap_or parse_u8 parse_usize parse_digits bytes_eq
seeded = refl

seed_refused : parse_u8 (codes "256") ≡ none
unfolding parse_u8 parse_usize parse_digits
seed_refused = refl

count_default : count_of (codes "tscp-cli" ∷ codes "produce" ∷ []) ≡ some 10
unfolding count_of arg_value unwrap_or parse_usize parse_digits bytes_eq
count_default = refl

main-Produced_example : Produced digest codec disk arguments 3 200
main-Produced_example =
    main-Produced digest codec disk arguments 3 200 refl counted seeded (λ bytes. refl)
