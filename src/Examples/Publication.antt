-- ===== src/Examples/Publication.antt =====
-- Publications of the entropy status at concrete inputs, on the platform of Examples/Status.
use mathlib.Core.Path.{subst}
use tscp_anchor.Prelude.{
  ℕ, ◌≡◌, refl, sym, ap, Bool, false, [], ◌∷◌, ◌++◌, length, length-append, arith,
}
use tscp_anchor.Prelude.Bytes.{Bytes, bytes_eq}
use tscp_anchor.Prelude.Decimal.{display_u64, digits}
use tscp_anchor.Owsl.{StatusFile, missing, contents}
use tscp_anchor.Owsl.Publish.{
  Publication, ok, numbering, writing, renaming, returned, done, failed, partial, Shared, dot_tmp,
  tmp_name, rename, enter, advance, run, publish_status_atomic, Process, taken, begin, go_on, Reach,
  first, next,
}
use tscp_anchor.Owsl.Alone.{Progress, publish_status_atomic-Progress}
use tscp_anchor.Owsl.Whole.{IsTarget}
use tscp_anchor.Owsl.Publishers.{Meets, Reach-Meets}
use tscp_anchor.Examples.Status.{platform, path}

abbrev no_parent : Bytes → Bool
no_parent q = false

abbrev no_files : Bytes → StatusFile
no_files q = missing

abbrev one : Publication
one = record { path = path; json = 1 ∷ 2 ∷ [] }

abbrev two : Publication
two = record { path = path; json = 3 ∷ 4 ∷ 5 ∷ [] }

abbrev no_publication : Shared
no_publication = record { files = no_files; tmp_counter = 0 }

-- "OK.tmp12.7"
named : tmp_name 12 path 7 ≡ 79 ∷ 75 ∷ 46 ∷ 116 ∷ 109 ∷ 112 ∷ 49 ∷ 50 ∷ 46 ∷ 55 ∷ []
unfolding tmp_name display_u64 digits
named = refl

written :
    (publish_status_atomic no_parent 12 one (done ∷ partial 1 ∷ done ∷ done ∷ []) no_publication).1
    ≡ returned ok
unfolding publish_status_atomic run enter advance rename tmp_name display_u64 digits bytes_eq
written = refl

publish_status_atomic-Progress_example :
    ((answers : _)
      → Progress 12 no_files one
          (publish_status_atomic no_parent 12 one answers no_publication).0
          (publish_status_atomic no_parent 12 one answers no_publication).1)
    × ((publish_status_atomic no_parent 12 one (done ∷ done ∷ done ∷ done ∷ []) no_publication).1
        ≡ returned ok)
publish_status_atomic-Progress_example =
    publish_status_atomic-Progress no_parent 12 one no_publication

ToPath : Publication → Type 0
ToPath call = call.path ≡ path

path-IsTarget : (id : ℕ) → IsTarget id path
unfolding tmp_name
path-IsTarget id q n e = omega (
  arith,
  ap length e,
  length-append (q ++ dot_tmp ++ display_u64 id) (46 ∷ display_u64 n),
  length-append (q ++ dot_tmp) (display_u64 id),
  length-append q dot_tmp,
)

ToPath-IsTarget : (call : Publication) → ToPath call → IsTarget 12 call.path
unfolding ToPath
ToPath-IsTarget call e = subst (IsTarget 12) (sym e) (path-IsTarget 12)

-- Two calls: the second publishes while the first has half of its temporary file.
unfoldable overtaken : (n : ℕ) × (p : Process) × Reach no_parent 12 ToPath no_files n p
unfolding ToPath enter advance rename tmp_name display_u64 digits bytes_eq
overtaken = (
  _,
  _,
  next
      (next
        (next
          (next
            (next
              (next (next (next first (begin 0 one refl refl)) (begin 1 two refl refl))
                (go_on 0 one numbering done refl))
              (go_on 1 two numbering done refl))
            (go_on 0 one (writing 0) (partial 1) refl))
          (go_on 1 two (writing 1) done refl))
        (go_on 1 two (renaming 1) done refl))
      (go_on 0 one (writing 0) failed refl),
)

overtaken_file : (overtaken.1).shared.files path ≡ contents (3 ∷ 4 ∷ 5 ∷ [])
unfolding overtaken enter advance rename tmp_name display_u64 digits bytes_eq
overtaken_file = refl

Reach-Meets_example : Meets 12 ToPath no_files platform overtaken.1 150 path
unfolding ToPath taken overtaken
Reach-Meets_example =
    Reach-Meets 12 ToPath no_files platform no_parent overtaken.0 overtaken.1 150 path
      ToPath-IsTarget (omega arith) (path-IsTarget 12) overtaken.2
