-- ===== src/Owsl/Publish.antt =====
-- `publish_status_atomic` of crates/prover-server/src/owsl_bridge.rs, one call of the file system at
-- a time, and the calls of one process, interleaved in any order. Paths that name one file are
-- spelled in one way.
use tscp_anchor.Prelude.{
  ℕ, ◌+◌, ◌%◌, ◌^◌, ◌≡◌, Bool, Option, none, some, List, [], ◌∷◌, ◌++◌, take, ◌==◌, if◌then◌else◌,
}
use tscp_anchor.Prelude.Bytes.{Bytes, bytes_eq}
use tscp_anchor.Prelude.Decimal.{display_u64}
use tscp_anchor.Owsl.{StatusFile, missing, contents}

pub record Publication : Type 0 where
  pub path : Bytes
  pub json : Bytes

-- The three errors, without the system's message behind them.
pub data PublishError : Type 0 where
  create_status_dir write_temp_file atomically_publish : PublishError

pub data PublishResult : Type 0 where
  ok : PublishResult
  err : PublishError → PublishResult

-- Where a call stands: before `create_dir_all`, `fetch_add`, the end of `fs::write`, `fs::rename`.
pub data Phase : Type 0 where
  creating numbering : Phase
  writing renaming : (suffix : ℕ) → Phase
  returned : PublishResult → Phase

-- What the system does next: it completes the call, it fails, or it has written so many bytes.
pub data Answer : Type 0 where
  done failed : Answer
  partial : ℕ → Answer

-- What the calls share: the files and `TMP_COUNTER`.
pub record Shared : Type 0 where
  pub files : Bytes → StatusFile
  pub tmp_counter : ℕ

abbrev pub set_file : (Bytes → StatusFile) → Bytes → StatusFile → Bytes → StatusFile
set_file files path file q = if bytes_eq q path then file else files q

-- ".tmp"
abbrev pub dot_tmp : Bytes
dot_tmp = 46 ∷ 116 ∷ 109 ∷ 112 ∷ []

-- `format!("{}.tmp{}.{}", target.display(), std::process::id(), suffix)`
unfoldable pub tmp_name : ℕ → Bytes → ℕ → Bytes
tmp_name id path suffix = (path ++ dot_tmp ++ display_u64 id) ++ 46 ∷ display_u64 suffix

-- `fs::rename`: the target holds what the temporary file held, which is gone.
unfoldable pub rename : Bytes → Bytes → Shared → StatusFile → Shared × Phase
rename tmp path sh missing = (sh, returned (err atomically_publish))
rename tmp path sh file = (
  record {
    files = set_file (set_file sh.files tmp missing) path file;
    tmp_counter = sh.tmp_counter;
  },
  returned ok,
)

-- Whether the path has a parent that is not empty is the library's answer.
unfoldable pub enter : (Bytes → Bool) → Publication → Phase
enter has_parent call = if has_parent call.path then creating else numbering

abbrev write_file : Shared → Bytes → Bytes → Shared
write_file sh tmp text = record {
  files = set_file sh.files tmp (contents text);
  tmp_counter = sh.tmp_counter;
}

unfoldable pub advance : ℕ → Publication → Phase → Answer → Shared → Shared × Phase
advance id call creating done sh = (sh, numbering)
advance id call creating failed sh = (sh, returned (err create_status_dir))
advance id call creating (partial k) sh = (sh, creating)
advance id call numbering answer sh = (
  record { files = sh.files; tmp_counter = (sh.tmp_counter + 1) % 2 ^ 64 },
  writing sh.tmp_counter,
)
advance id call (writing n) done sh =
    (write_file sh (tmp_name id call.path n) call.json, renaming n)
advance id call (writing n) failed sh = (sh, returned (err write_temp_file))
advance id call (writing n) (partial k) sh =
    (write_file sh (tmp_name id call.path n) (take k call.json), writing n)
advance id call (renaming n) done sh =
    let tmp = tmp_name id call.path n in rename tmp call.path sh (sh.files tmp)
advance id call (renaming n) failed sh = (sh, returned (err atomically_publish))
advance id call (renaming n) (partial k) sh = (sh, renaming n)
advance id call (returned r) answer sh = (sh, returned r)

-- A call on its own, under the system's answers.
unfoldable pub run : ℕ → Publication → List Answer → Shared × Phase → Shared × Phase
run id call [] s = s
run id call (a ∷ answers) s = run id call answers (advance id call s.1 a s.0)

unfoldable pub publish_status_atomic :
    (Bytes → Bool) → ℕ → Publication → List Answer → Shared → Shared × Phase
publish_status_atomic has_parent id call answers sh =
    run id call answers (sh, enter has_parent call)

-- The calls of a process, each with its number and where it stands.
pub record Process : Type 0 where
  pub shared : Shared
  pub calls : ℕ → Option (Publication × Phase)

abbrev pub set_call :
    (ℕ → Option (Publication × Phase)) → ℕ → Publication × Phase → ℕ → Option (Publication × Phase)
set_call calls i c j = if j == i then some c else calls j

-- How many numbers a step takes from the counter.
unfoldable pub taken : Phase → ℕ
taken numbering = 1
taken _ = 0

-- One call begins, or goes one step further. The callers publish what is allowed.
pub data Step (has_parent : Bytes → Bool) (id : ℕ) (IsAllowed : Publication → Type 0) (p : Process)
    : ℕ → Process → Type 0 where
  begin :
      (i : ℕ) (call : Publication)
      → p.calls i ≡ none
      → IsAllowed call
      → Step has_parent id IsAllowed p 0
          (record { shared = p.shared; calls = set_call p.calls i (call, enter has_parent call) })
  go_on :
      (i : ℕ) (call : Publication) (phase : Phase) (answer : Answer)
      → p.calls i ≡ some (call, phase)
      → Step has_parent id IsAllowed p (taken phase) (record {
        shared = (advance id call phase answer p.shared).0;
        calls = set_call p.calls i (call, (advance id call phase answer p.shared).1);
      })

abbrev pub start : (Bytes → StatusFile) → Process
start files = record { shared = record { files = files; tmp_counter = 0 }; calls = λ i. none }

-- The processes that steps lead to from the first files, with the numbers taken.
pub data Reach (has_parent : Bytes → Bool) (id : ℕ) (IsAllowed : Publication → Type 0)
    (files : Bytes → StatusFile) : ℕ → Process → Type 0 where
  first : Reach has_parent id IsAllowed files 0 (start files)
  next :
      {n k : ℕ} {p q : Process}
      → Reach has_parent id IsAllowed files n p
      → Step has_parent id IsAllowed p k q
      → Reach has_parent id IsAllowed files (k + n) q
