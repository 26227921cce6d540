-- ===== src/Timing.antt =====
-- crates/tscp-verifier/src/timing.rs: the wall-clock times of named phases. An `Instant` is what the
-- caller's clock reads; `none` is the panic of a stop without a start.
pub mod Phases
pub mod Nested
use tscp_anchor.Prelude.{Option, none, some, List, [], ◌∷◌, if◌then◌else◌}
use tscp_anchor.Prelude.Text.{Text, codes, text_eq}

-- What the timer takes from outside: `start.elapsed().as_secs_f64() * 1000.0` at a start and a
-- later reading, and the numbers `0.0` and `+` of `f64`.
pub record Clock (Instant F64 : Type 0) : Type 0 where
  pub elapsed_ms : Instant → Instant → F64
  pub zero_ms : F64
  pub add_ms : F64 → F64 → F64

pub record PhaseTimer (Instant F64 : Type 0) : Type 0 where
  pub phases : List (Text × F64)
  pub active : List (Text × Instant)

abbrev pub transcript_generation : Text
transcript_generation = codes "transcript_generation"

abbrev pub sumcheck : Text
sumcheck = codes "sumcheck"

abbrev pub fri : Text
fri = codes "fri"

abbrev pub proving_total : Text
proving_total = codes "proving_total"

abbrev pub verification : Text
verification = codes "verification"

-- `HashMap::get` and `HashMap::insert`, on the entries in some order.
unfoldable pub lookup {ℓ} : {V : Type ℓ} → Text → List (Text × V) → Option V
lookup k [] = none
lookup k ((j, v) ∷ m) = if text_eq k j then some v else lookup k m

unfoldable pub insert {ℓ} : {V : Type ℓ} → Text → V → List (Text × V) → List (Text × V)
insert k v [] = (k, v) ∷ []
insert k v ((j, w) ∷ m) = if text_eq k j then (k, v) ∷ m else (j, w) ∷ insert k v m

-- `for (phase, ms) in &other.phases`
unfoldable pub merge_loop {ℓ} : {V : Type ℓ} → List (Text × V) → List (Text × V) → List (Text × V)
merge_loop [] m = m
merge_loop ((k, v) ∷ other) m = merge_loop other (insert k v m)

unfoldable pub unwrap_or {ℓ} : {A : Type ℓ} → A → Option A → A
unwrap_or d none = d
unwrap_or d (some a) = a

module _ {Instant F64 : Type 0} where
  unfoldable pub new : PhaseTimer Instant F64
  new = record { phases = []; active = [] }

  unfoldable pub start : Text → Instant → PhaseTimer Instant F64 → PhaseTimer Instant F64
  start phase now t = record { phases = t.phases; active = (phase, now) ∷ t.active }

  unfoldable pub stop_on :
      Clock Instant F64
      → Instant
      → List (Text × F64)
      → List (Text × Instant)
      → Option (PhaseTimer Instant F64)
  stop_on clock now phases [] = none
  stop_on clock now phases ((phase, began) ∷ active) =
      some (record { phases = insert phase (clock.elapsed_ms began now) phases; active = active })

  unfoldable pub stop :
      Clock Instant F64 → Instant → PhaseTimer Instant F64 → Option (PhaseTimer Instant F64)
  unfolding stop_on
  stop clock now t = stop_on clock now t.phases t.active

  unfoldable pub set : Text → F64 → PhaseTimer Instant F64 → PhaseTimer Instant F64
  set phase ms t = record { phases = insert phase ms t.phases; active = t.active }

  unfoldable pub merge : PhaseTimer Instant F64 → PhaseTimer Instant F64 → PhaseTimer Instant F64
  merge t other = record { phases = merge_loop other.phases t.phases; active = t.active }

  unfoldable pub get : PhaseTimer Instant F64 → Text → Option F64
  get t phase = lookup phase t.phases

  unfoldable pub get_or_zero : Clock Instant F64 → PhaseTimer Instant F64 → Text → F64
  unfolding get unwrap_or
  get_or_zero clock t phase = unwrap_or clock.zero_ms (get t phase)
