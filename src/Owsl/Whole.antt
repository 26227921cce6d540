-- ===== src/Owsl/Whole.antt =====
-- Temporary files of `publish_status_atomic`, crates/prover-server/src/owsl_bridge.rs, that no other
-- call touches.
use mathlib.Core.Path.{subst}
use tscp_anchor.Prelude.{
  ℕ, ◌^◌, ◌<◌, ◌≤◌, ◌≡◌, ◌≢◌, refl, sym, ap, ◌∙◌, false, ◌⊎◌, inl, inr, Option, none, some, ◌++◌,
  ◌==◌, ==_iff, ==_refl, Bool-cases, eq_of_some, arith,
}
use tscp_anchor.Prelude.Bytes.{Bytes}
use tscp_anchor.Prelude.Decimal.{
  display_u64, display_u64-injective, display_u64-HasNoPoint, behind_last_point,
}
use tscp_anchor.Owsl.{StatusFile, contents}
use tscp_anchor.Owsl.Publish.{
  Publication, Phase, writing, renaming, Shared, dot_tmp, tmp_name, Process, set_call,
}

pub tmp_name-injective :
    (id : ℕ) (a b : Bytes) (n m : ℕ)
    → n < 2 ^ 64
    → m < 2 ^ 64
    → tmp_name id a n ≡ tmp_name id b m
    → n ≡ m
unfolding tmp_name
tmp_name-injective id a b n m hn hm e = display_u64-injective n m hn hm (
    behind_last_point (a ++ dot_tmp ++ display_u64 id) (b ++ dot_tmp ++ display_u64 id)
      (display_u64 n) (display_u64 m) (display_u64-HasNoPoint n) (display_u64-HasNoPoint m) e)

set_call-split :
    (calls : ℕ → Option (Publication × Phase)) (i : ℕ) (c : Publication × Phase) (j : ℕ)
    (c' : Publication × Phase)
    → set_call calls i c j ≡ some c'
    → ((j ≡ i) × (c ≡ c')) ⊎ ((j ≢ i) × (calls j ≡ some c'))
set_call-split calls i c j c' h = elim (Bool-cases (j == i)) [
  | inl same ↦ inl ((==_iff j i).0 same, eq_of_some (let k : some c ≡ some c' = rw same at h in k))
  | inr other ↦ inr (
    λ e. absurd (let k : (i == i) ≡ false = rw e at other in ground (arith, k, ==_refl i)),
    (let k : calls j ≡ some c' = rw other at h in k),
  )
]

-- A path that is no temporary name.
abbrev pub IsTarget : ℕ → Bytes → Type 0
IsTarget id q = (path : Bytes) (n : ℕ) → q ≢ tmp_name id path n

-- The number that a call holds.
abbrev pub suffix_of : Phase → Option ℕ
suffix_of (writing n) = some n
suffix_of (renaming n) = some n
suffix_of _ = none

module _ (id : ℕ) (IsAllowed : Publication → Type 0) (files : Bytes → StatusFile) where
  -- A file as it was at first, or the whole of an allowed publication to its path.
  abbrev pub Published : Bytes → StatusFile → Type 0
  Published q file =
      (file ≡ files q)
      ⊎ ((call : Publication) × IsAllowed call × (call.path ≡ q) × (file ≡ contents call.json))

  pub record IsWhole (n : ℕ) (p : Process) : Type 0 where
    pub counter : p.shared.tmp_counter ≡ n
    pub allowed :
        (i : ℕ) (call : Publication) (phase : Phase)
        → p.calls i ≡ some (call, phase)
        → IsAllowed call
    pub below :
        (i : ℕ) (call : Publication) (phase : Phase) (k : ℕ)
        → p.calls i ≡ some (call, phase)
        → suffix_of phase ≡ some k
        → k < n
    pub apart :
        (i j k : ℕ) (call call' : Publication) (phase phase' : Phase)
        → p.calls i ≡ some (call, phase)
        → p.calls j ≡ some (call', phase')
        → suffix_of phase ≡ some k
        → suffix_of phase' ≡ some k
        → i ≡ j
    pub ready :
        (i k : ℕ) (call : Publication)
        → p.calls i ≡ some (call, renaming k)
        → p.shared.files (tmp_name id call.path k) ≡ contents call.json
    pub whole : (q : Bytes) → IsTarget id q → Published q (p.shared.files q)

  -- What a step of the call numbered `i`, which held the number `old`, may do.
  pub record Fits (n n' : ℕ) (p : Process) (i : ℕ) (old : Option ℕ) (call : Publication)
      (sh : Shared) (phase : Phase) : Type 0 where
    pub counts : sh.tmp_counter ≡ n'
    pub grows : n ≤ n'
    pub is_allowed : IsAllowed call
    pub holder :
        (j k : ℕ) (call' : Publication) (phase' : Phase)
        → j ≢ i
        → p.calls j ≡ some (call', phase')
        → old ≡ some k
        → suffix_of phase' ≢ some k
    pub number :
        (k : ℕ) → suffix_of phase ≡ some k → (old ≡ some k × (k < n)) ⊎ ((k ≡ n) × (n < n'))
    pub written :
        (k : ℕ) → phase ≡ renaming k → sh.files (tmp_name id call.path k) ≡ contents call.json
    pub others :
        (k : ℕ) (path : Bytes)
        → k < n
        → old ≢ some k
        → sh.files (tmp_name id path k) ≡ p.shared.files (tmp_name id path k)
    pub still : (q : Bytes) → IsTarget id q → Published q (sh.files q)

  abbrev pub with_call : Process → ℕ → Shared → Publication → Phase → Process
  with_call p i sh call phase = record { shared = sh; calls = set_call p.calls i (call, phase) }

  -- What a call of the process after the step was before it.
  data Before (p : Process) (i : ℕ) (call : Publication) (phase : Phase) (j : ℕ)
      : Publication → Phase → Type 0 where
    this : j ≡ i → Before p i call phase j call phase
    other :
        {call' : Publication} {phase' : Phase}
        → j ≢ i
        → p.calls j ≡ some (call', phase')
        → Before p i call phase j call' phase'

  before :
      (p : Process) (i : ℕ) (call : Publication) (phase : Phase) (j : ℕ) (call' : Publication)
      (phase' : Phase)
      → set_call p.calls i (call, phase) j ≡ some (call', phase')
      → Before p i call phase j call' phase'
  before p i call phase j call' phase' h =
      elim (set_call-split p.calls i (call, phase) j (call', phase') h) [
        | inl (same, e) ↦
            subst (λ c. Before p i call phase j c.0 c.1) {x = (call, phase)} {y = (call', phase')} e
              (this same)
        | inr (ne, e) ↦ other ne e
      ]

  pub Fits-IsWhole :
      (n n' : ℕ) (p : Process) (i : ℕ) (old : Option ℕ) (call : Publication) (sh : Shared)
      (phase : Phase)
      → IsWhole n p
      → Fits n n' p i old call sh phase
      → IsWhole n' (with_call p i sh call phase)
  Fits-IsWhole n n' p i old call sh phase w f = record {
    counter = f.counts;
    allowed =
        λ j call' phase' h. is_allowed j call' phase' (before p i call phase j call' phase' h);
    below =
        λ j call' phase' k h. is_below j k call' phase' (before p i call phase j call' phase' h);
    apart = λ j1 j2 k c1 c2 ph1 ph2 h1 h2.
        is_apart j1 j2 k c1 c2 ph1 ph2 (before p i call phase j1 c1 ph1 h1)
          (before p i call phase j2 c2 ph2 h2);
    ready = λ j k call' h.
        is_ready j k call' (renaming k) (before p i call phase j call' (renaming k) h) refl;
    whole = f.still;
  }
    where
      is_allowed :
          (j : ℕ) (call' : Publication) (phase' : Phase)
          → Before p i call phase j call' phase'
          → IsAllowed call'
      is_allowed j call' phase' (this e) = f.is_allowed
      is_allowed j call' phase' (other ne h) = w.allowed j call' phase' h

      is_below :
          (j k : ℕ) (call' : Publication) (phase' : Phase)
          → Before p i call phase j call' phase'
          → suffix_of phase' ≡ some k
          → k < n'
      is_below j k call' phase' (this e) s = elim (f.number k s) [
        | inl (held, less) ↦ omega (arith, less, f.grows)
        | inr (new, more) ↦ omega (arith, new, more)
      ]
      is_below j k call' phase' (other ne h) s =
          omega (arith, w.below j call' phase' k h s, f.grows)

      not_other :
          (j k : ℕ) (call' : Publication) (phase' : Phase)
          → j ≢ i
          → p.calls j ≡ some (call', phase')
          → suffix_of phase ≡ some k
          → suffix_of phase' ≢ some k
      not_other j k call' phase' ne h s s' = elim (f.number k s) [
        | inl (held, less) ↦ f.holder j k call' phase' ne h held s'
        | inr (new, more) ↦ omega (arith, new, w.below j call' phase' k h s')
      ]

      is_apart :
          (j1 j2 k : ℕ) (c1 c2 : Publication) (ph1 ph2 : Phase)
          → Before p i call phase j1 c1 ph1
          → Before p i call phase j2 c2 ph2
          → suffix_of ph1 ≡ some k
          → suffix_of ph2 ≡ some k
          → j1 ≡ j2
      is_apart j1 j2 k c1 c2 ph1 ph2 (this e1) (this e2) s1 s2 = e1 ∙ sym e2
      is_apart j1 j2 k c1 c2 ph1 ph2 (this e1) (other ne h) s1 s2 =
          absurd (not_other j2 k c2 ph2 ne h s1 s2)
      is_apart j1 j2 k c1 c2 ph1 ph2 (other ne h) (this e2) s1 s2 =
          absurd (not_other j1 k c1 ph1 ne h s2 s1)
      is_apart j1 j2 k c1 c2 ph1 ph2 (other ne1 h1) (other ne2 h2) s1 s2 =
          w.apart j1 j2 k c1 c2 ph1 ph2 h1 h2 s1 s2

      is_ready :
          (j k : ℕ) (call' : Publication) (phase' : Phase)
          → Before p i call phase j call' phase'
          → phase' ≡ renaming k
          → sh.files (tmp_name id call'.path k) ≡ contents call'.json
      is_ready j k call' phase' (this e) r = f.written k r
      is_ready j k call' phase' (other ne h) r =
          f.others k call'.path (w.below j call' phase' k h (ap suffix_of r))
            (λ held. f.holder j k call' phase' ne h held (ap suffix_of r))
          ∙ w.ready j k call' (h ∙ ap (λ t. some (call', t)) r)
