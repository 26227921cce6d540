-- ===== src/Timing/Nested.antt =====
-- Nested phases under the timer of crates/tscp-verifier/src/timing.rs.
use tscp_anchor.Prelude.{◌≡◌, refl, ◌∙◌, Option, none, some, List, [], ◌∷◌, ◌++◌, ◌>>=◌}
use tscp_anchor.Prelude.Text.{Text, text_eq_iff}
use tscp_anchor.Timing.{Clock, PhaseTimer, insert, start, stop, stop_on, get}
use tscp_anchor.Timing.Phases.{lookup-insert}

pub data Event (Instant : Type 0) : Type 0 where
  starts : Text → Instant → Event Instant
  stops : Instant → Event Instant

-- Each start with its stop behind it, and between them only such.
pub data Nested {Instant : Type 0} : List (Event Instant) → Type 0 where
  nothing : Nested []
  phase :
      {inner rest : List (Event Instant)} (name : Text) (began ended : Instant)
      → Nested inner
      → Nested rest
      → Nested (starts name began ∷ (inner ++ (stops ended ∷ rest)))

bind_append {ℓ} :
    {A : Type ℓ} (o : Option A) (f g h : A → Option A)
    → ((a : A) → f a ≡ (g a >>= h))
    → (o >>= f) ≡ ((o >>= g) >>= h)
bind_append none f g h e = refl
bind_append (some a) f g h e = e a

module _ {Instant F64 : Type 0} (clock : Clock Instant F64) where
  unfoldable pub run :
      List (Event Instant) → PhaseTimer Instant F64 → Option (PhaseTimer Instant F64)
  run [] t = some t
  run (starts name now ∷ es) t = run es (start name now t)
  run (stops now ∷ es) t = stop clock now t >>= run es

  run_append :
      (es es' : List (Event Instant)) (t : PhaseTimer Instant F64)
      → run (es ++ es') t ≡ (run es t >>= run es')
  unfolding run
  run_append [] es' t = refl
  run_append (starts name now ∷ es) es' t = run_append es es' (start name now t)
  run_append (stops now ∷ es) es' t =
      bind_append (stop clock now t) (run (es ++ es')) (run es) (run es') (run_append es es')

  -- A run that returned with the phases still active that were so before.
  pub record Returned (es : List (Event Instant)) (t : PhaseTimer Instant F64) : Type 0 where
    pub after : PhaseTimer Instant F64
    pub ran : run es t ≡ some after
    pub active : after.active ≡ t.active

  closed :
      (name : Text) (began ended : Instant) (t inside : PhaseTimer Instant F64)
      → inside.active ≡ (start name began t).active
      → stop clock ended inside
        ≡ some (record {
          phases = insert name (clock.elapsed_ms began ended) inside.phases;
          active = t.active;
        })
  unfolding start stop stop_on
  closed name began ended t inside h = rw h refl

  Nested-Returned :
      {es : List (Event Instant)} → Nested es → (t : PhaseTimer Instant F64) → Returned es t
  unfolding run
  Nested-Returned nothing t = record { after = t; ran = refl; active = refl }
  Nested-Returned (phase {inner = inner} {rest = rest} name began ended n n') t =
      let i : Returned inner (start name began t) = Nested-Returned n (start name began t) in
      let t' : PhaseTimer Instant F64 = record {
        phases = insert name (clock.elapsed_ms began ended) (i.after).phases;
        active = t.active;
      } in
      let r : Returned rest t' = Nested-Returned n' t' in
      record {
        after = r.after;
        ran =
            run_append inner (stops ended ∷ rest) (start name began t)
            ∙ rw (i.ran, closed name began ended t i.after i.active) r.ran;
        active = r.active;
      }

  -- A phase with phases nested in it runs without a panic, leaves what was active before, and records
  -- the time between its own start and stop.
  pub run_phase :
      {inner : List (Event Instant)} (name : Text) (began ended : Instant)
      → Nested inner
      → (t : PhaseTimer Instant F64)
      → (after : PhaseTimer Instant F64) × (run
            (starts name began ∷ (inner ++ (stops ended ∷ [])))
            t
          ≡ some after)
        × (after.active ≡ t.active)
        × (get after name ≡ some (clock.elapsed_ms began ended))
  unfolding run get
  run_phase {inner} name began ended n t =
      let i : Returned inner (start name began t) = Nested-Returned n (start name began t) in
      (
        record {
          phases = insert name (clock.elapsed_ms began ended) (i.after).phases;
          active = t.active;
        },
        run_append inner (stops ended ∷ []) (start name began t)
            ∙ rw (i.ran, closed name began ended t i.after i.active) refl,
        refl,
        lookup-insert name name (clock.elapsed_ms began ended) (i.after).phases
            ∙ rw ((text_eq_iff name name).1 refl) refl,
      )
