-- ===== src/Owsl/Alone.antt =====
-- A call of `publish_status_atomic` of crates/prover-server/src/owsl_bridge.rs on its own.
use tscp_anchor.Prelude.{
  ℕ, ◌≡◌, ◌≢◌, refl, ap, ◌∙◌, Bool, inl, inr, List, [], ◌∷◌, ◌++◌, length, length-append, take,
  Bool-cases, arith,
}
use tscp_anchor.Prelude.Bytes.{Bytes, bytes_eq, bytes_eq_sound, bytes_eq_refl}
use tscp_anchor.Prelude.Decimal.{display_u64}
use tscp_anchor.Owsl.{StatusFile, missing, contents}
use tscp_anchor.Owsl.Publish.{
  Publication, ok, err, Phase, creating, numbering, writing, renaming, returned, Answer, done,
  failed, partial, Shared, set_file, dot_tmp, tmp_name, rename, enter, advance, run,
  publish_status_atomic,
}

pub set_file-same :
    (files : Bytes → StatusFile) (path : Bytes) (file : StatusFile)
    → set_file files path file path ≡ file
set_file-same files path file = rw (bytes_eq_refl path) refl

pub set_file-other :
    (files : Bytes → StatusFile) (path q : Bytes) (file : StatusFile)
    → q ≢ path
    → set_file files path file q ≡ files q
set_file-other files path q file ne = elim (Bool-cases (bytes_eq q path)) [
  | inl same ↦ absurd (ne (bytes_eq_sound q path same))
  | inr other ↦ rw other refl
]

pub path-tmp_name : (id : ℕ) (path : Bytes) (n : ℕ) → path ≢ tmp_name id path n
unfolding tmp_name
path-tmp_name id path n e = omega (
  arith,
  ap length e,
  length-append (path ++ dot_tmp ++ display_u64 id) (46 ∷ display_u64 n),
  length-append (path ++ dot_tmp) (display_u64 id),
  length-append path dot_tmp,
)

-- What a call that stands at a phase has done to the file at its path, and to its temporary one.
abbrev pub Progress : ℕ → (Bytes → StatusFile) → Publication → Shared → Phase → Type 0
Progress id files call sh (renaming n) =
    (sh.files call.path ≡ files call.path)
    × (sh.files (tmp_name id call.path n) ≡ contents call.json)
Progress id files call sh (returned ok) = sh.files call.path ≡ contents call.json
Progress id files call sh creating = sh.files call.path ≡ files call.path
Progress id files call sh numbering = sh.files call.path ≡ files call.path
Progress id files call sh (writing n) = sh.files call.path ≡ files call.path
Progress id files call sh (returned (err e)) = sh.files call.path ≡ files call.path

module _ (id : ℕ) (files : Bytes → StatusFile) (call : Publication) where
  set_tmp :
      (sh : Shared) (n : ℕ) (file : StatusFile)
      → set_file sh.files (tmp_name id call.path n) file call.path ≡ sh.files call.path
  set_tmp sh n file =
      set_file-other sh.files (tmp_name id call.path n) call.path file
        (path-tmp_name id call.path n)

  advance-Progress :
      (phase : Phase) (answer : Answer) (sh : Shared)
      → Progress id files call sh phase
      → Progress id files call
          (advance id call phase answer sh).0
          (advance id call phase answer sh).1
  unfolding advance
  advance-Progress creating done sh h = h
  advance-Progress creating failed sh h = h
  advance-Progress creating (partial k) sh h = h
  advance-Progress numbering answer sh h = h
  advance-Progress (writing n) done sh h = (
    set_tmp sh n (contents call.json) ∙ h,
    set_file-same sh.files (tmp_name id call.path n) (contents call.json),
  )
  advance-Progress (writing n) failed sh h = h
  advance-Progress (writing n) (partial k) sh h = set_tmp sh n (contents (take k call.json)) ∙ h
  advance-Progress (renaming n) done sh (kept, whole) =
      unfold rename in
      rw whole (
        set_file-same (set_file sh.files (tmp_name id call.path n) missing) call.path
          (contents call.json))
  advance-Progress (renaming n) failed sh (kept, whole) = kept
  advance-Progress (renaming n) (partial k) sh h = h
  advance-Progress (returned ok) answer sh h = h
  advance-Progress (returned (err e)) answer sh h = h

  run-Progress :
      (answers : List Answer) (sh : Shared) (phase : Phase)
      → Progress id files call sh phase
      → Progress id files call
          (run id call answers (sh, phase)).0
          (run id call answers (sh, phase)).1
  unfolding run
  run-Progress [] sh phase h = h
  run-Progress (a ∷ answers) sh phase h =
      run-Progress answers (advance id call phase a sh).0 (advance id call phase a sh).1
        (advance-Progress phase a sh h)

module _ (id : ℕ) (call : Publication) where
  numbering-ok :
      (sh : Shared)
      → ((run id call (done ∷ done ∷ done ∷ []) (sh, numbering)).1 ≡ returned ok)
        × ((run id call (done ∷ done ∷ done ∷ done ∷ []) (sh, numbering)).1 ≡ returned ok)
  unfolding run advance rename
  numbering-ok sh =
      rw (set_file-same sh.files (tmp_name id call.path sh.tmp_counter) (contents call.json))
        (refl, refl)

-- Whatever the system answers to a call on its own, the file at its path is the JSON when it has
-- returned Ok, and is as it was when it has returned an error or has not returned; when the system
-- completes each of the calls, four at most, that it makes, it returns Ok.
pub publish_status_atomic-Progress :
    (has_parent : Bytes → Bool) (id : ℕ) (call : Publication) (sh : Shared)
    → ((answers : List Answer)
        → Progress id sh.files call
            (publish_status_atomic has_parent id call answers sh).0
            (publish_status_atomic has_parent id call answers sh).1)
      × ((publish_status_atomic has_parent id call (done ∷ done ∷ done ∷ done ∷ []) sh).1
          ≡ returned ok)
unfolding publish_status_atomic enter
publish_status_atomic-Progress has_parent id call sh = elim (Bool-cases (has_parent call.path)) [
  | inl parent ↦ rw parent (
    λ answers. run-Progress id sh.files call answers sh creating refl,
    unfold run advance in (numbering-ok id call sh).0,
  )
  | inr bare ↦ rw bare (
    λ answers. run-Progress id sh.files call answers sh numbering refl,
    (numbering-ok id call sh).1,
  )
]
