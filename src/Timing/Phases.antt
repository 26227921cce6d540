-- ===== src/Timing/Phases.antt =====
-- The phases that a timer of crates/tscp-verifier/src/timing.rs holds, after `set`, `stop` and `merge`.
use tscp_anchor.Prelude.{
  ◌≡◌, refl, sym, eq_of_some, Option, none, some, List, [], ◌∷◌, if◌then◌else◌, arith,
}
use tscp_anchor.Prelude.Text.{Text, text_eq, text_eq_iff}
use tscp_anchor.Timing.{
  PhaseTimer, Clock, PhaseTimer, lookup, insert, merge_loop, new, start, stop, stop_on, set, merge,
  get,
}

-- The entries of a `HashMap`: no name stands twice.
abbrev pub Distinct {ℓ} : {V : Type ℓ} → List (Text × V) → Type ℓ
Distinct [] = Unit
Distinct ((k, _) ∷ m) = (lookup k m ≡ none) × Distinct m

module _ {V : Type 0} where
  pub lookup-insert :
      (j k : Text) (v : V) (m : List (Text × V))
      → lookup j (insert k v m) ≡ (if text_eq j k then some v else lookup j m)
  unfolding lookup insert
  lookup-insert j k v [] = refl
  lookup-insert j k v ((i, w) ∷ m) =
      ground (arith, text_eq_iff j k, text_eq_iff k i, text_eq_iff j i, lookup-insert j k v m)

  pub insert-Distinct :
      (k : Text) (v : V) (m : List (Text × V)) → Distinct m → Distinct (insert k v m)
  unfolding lookup insert
  insert-Distinct k v [] d = (refl, tt)
  insert-Distinct k v ((i, w) ∷ m) (fresh, d) =
      ground
        (arith, text_eq_iff k i, text_eq_iff i k, insert-Distinct k v m d, lookup-insert i k v m)

abbrev pub or_else {ℓ} : {V : Type ℓ} → Option V → Option V → Option V
or_else (some v) o = some v
or_else none o = o

module _ {V : Type 0} where
  pub lookup-merge_loop :
      (p : Text) (other m : List (Text × V))
      → Distinct other
      → lookup p (merge_loop other m) ≡ or_else (lookup p other) (lookup p m)
  unfolding lookup merge_loop
  lookup-merge_loop p [] m d = refl
  lookup-merge_loop p ((k, v) ∷ other) m (fresh, d) =
      ground
        (arith, text_eq_iff p k, lookup-merge_loop p other (insert k v m) d, lookup-insert p k v m)

  pub merge_loop-Distinct : (other m : List (Text × V)) → Distinct m → Distinct (merge_loop other m)
  unfolding merge_loop
  merge_loop-Distinct [] m d = d
  merge_loop-Distinct ((k, v) ∷ other) m d =
      merge_loop-Distinct other (insert k v m) (insert-Distinct k v m d)

module _ {Instant F64 : Type 0} where
  -- Timers that the operations make.
  pub data Made (clock : Clock Instant F64) : PhaseTimer Instant F64 → Type 0 where
    created : Made clock new
    started :
        {t : PhaseTimer Instant F64} (phase : Text) (now : Instant)
        → Made clock t
        → Made clock (start phase now t)
    stopped :
        {t after : PhaseTimer Instant F64} (now : Instant)
        → Made clock t
        → stop clock now t ≡ some after
        → Made clock after
    was_set :
        {t : PhaseTimer Instant F64} (phase : Text) (ms : F64)
        → Made clock t
        → Made clock (set phase ms t)
    merged :
        {t other : PhaseTimer Instant F64}
        → Made clock t
        → Made clock other
        → Made clock (merge t other)

  stop_on-Distinct :
      (clock : Clock Instant F64) (now : Instant) (phases : List (Text × F64))
      (active : List (Text × Instant)) (after : PhaseTimer Instant F64)
      → stop_on clock now phases active ≡ some after
      → Distinct phases
      → Distinct after.phases
  unfolding stop_on
  stop_on-Distinct clock now phases [] after h d = cc
  stop_on-Distinct clock now phases ((phase, began) ∷ active) after h d =
      rw (sym (eq_of_some h)) (insert-Distinct phase (clock.elapsed_ms began now) phases d)

  Made-Distinct :
      {clock : Clock Instant F64} {t : PhaseTimer Instant F64} → Made clock t → Distinct t.phases
  unfolding new start stop set merge
  Made-Distinct created = tt
  Made-Distinct (started phase now m) = Made-Distinct m
  Made-Distinct {clock} (stopped {t = t} {after = after} now m h) =
      stop_on-Distinct clock now t.phases t.active after h (Made-Distinct m)
  Made-Distinct (was_set {t = t} phase ms m) = insert-Distinct phase ms t.phases (Made-Distinct m)
  Made-Distinct (merged {t = t} {other = other} m m') =
      merge_loop-Distinct other.phases t.phases (Made-Distinct m)

  -- On timers that the operations make, merge is the union of maps in which the other timer's time
  -- of a phase stands before one's own.
  pub get-merge :
      {clock : Clock Instant F64} (t other : PhaseTimer Instant F64)
      → Made clock other
      → (phase : Text) → get (merge t other) phase ≡ or_else (get other phase) (get t phase)
  unfolding merge get
  get-merge t other m phase = lookup-merge_loop phase other.phases t.phases (Made-Distinct m)
