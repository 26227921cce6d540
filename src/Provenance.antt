-- ===== src/Provenance.antt =====
-- crates/tscp-verifier/src/provenance.rs: digests, the peak memory of the process, and the commit that a
-- repository's HEAD names. The file system and SHA-256 are parameters.
pub mod Commit
use tscp_anchor.Prelude.{
  ℕ, Bool, true, false, ◌&&◌, Option, none, some, List, [], ◌∷◌, ◌++◌, ◌==◌, if◌then◌else◌, ◌>>=◌,
}
use tscp_anchor.Prelude.Bytes.{Bytes}
use tscp_anchor.Prelude.Text.{
  Text, codes, text_eq, as_bytes, len, trim, strip_prefix, lines, split_whitespace, parse_usize,
}
use tscp_anchor.Timing.{unwrap_or}

-- What the process reads: `none` is a file that cannot be read. `sha256` is the digest in lower case
-- hexadecimal.
pub record Host : Type 0 where
  pub sha256 : Bytes → Text
  pub read_to_string : Text → Option Text
  pub read : Text → Option Bytes
  pub current_exe : Option Text
  pub file_len : Text → Option ℕ

abbrev pub unknown : Text
unknown = codes "unknown"

-- A path with a separator behind it, unless it is empty or ends with one.
unfoldable pub with_separator : Text → Text
with_separator [] = []
with_separator (b ∷ []) = if b == 47 then b ∷ [] else b ∷ 47 ∷ []
with_separator (b ∷ c ∷ base) = b ∷ with_separator (c ∷ base)

-- `Path::join`: an absolute path replaces the base.
unfoldable pub join : Text → Text → Text
unfolding with_separator
join base [] = with_separator base
join base (c ∷ rel) = if c == 47 then c ∷ rel else with_separator base ++ (c ∷ rel)

unfoldable pub git_dir : Text → Text
git_dir repo_path = join repo_path (codes ".git")

-- The entry of packed-refs in the fields of a line.
unfoldable pub packed_ref : Text → List Text → Option Text
packed_ref name (sha ∷ ref ∷ []) = if text_eq ref name && (len sha == 40) then some sha else none
packed_ref name _ = none

-- `for line in packed_content.lines()`
unfoldable pub packed_loop : Text → List Text → Option Text
packed_loop name [] = none
packed_loop name (line ∷ rest) = elim (packed_ref name (split_whitespace line)) [
  | some sha ↦ some sha
  | none ↦ packed_loop name rest
]

-- The second field of a line of /proc/self/status.
unfoldable pub second_field : List Text → Option ℕ
second_field (name ∷ kb ∷ more) = parse_usize kb
second_field _ = none

unfoldable pub is_peak_line : Text → Bool
is_peak_line line = elim (strip_prefix (codes "VmHWM:") line) [ some rest ↦ true | none ↦ false ]

-- `for line in status.lines()`
unfoldable pub peak_loop : List Text → Option ℕ
peak_loop [] = none
peak_loop (line ∷ rest) =
    let kb = if is_peak_line line then second_field (split_whitespace line) else none in
    elim kb [ some n ↦ some n | none ↦ peak_loop rest ]

module _ (h : Host) where
  unfoldable pub sha256_hex : Bytes → Text
  sha256_hex bytes = h.sha256 bytes

  unfoldable pub sha256_str : Text → Text
  unfolding sha256_hex
  sha256_str s = sha256_hex (as_bytes s)

  unfoldable pub binary_digest : Option Text
  binary_digest = do p ← h.current_exe; b ← h.read p; some (sha256_hex b)

  -- On Linux.
  unfoldable pub peak_rss_kb : ℕ
  peak_rss_kb =
      unwrap_or 0
        (do status ← h.read_to_string (codes "/proc/self/status"); peak_loop (lines status))

  -- A commit behind a symbolic reference: the loose file, or packed-refs when there is none.
  unfoldable pub resolve_ref : Text → Text → Text
  unfolding packed_loop unwrap_or
  resolve_ref repo_path name = elim (h.read_to_string (join (git_dir repo_path) name)) [
    | some sha ↦ if len (trim sha) == 40 then trim sha else unknown
    | none ↦ unwrap_or unknown (do
      packed ← h.read_to_string (join (git_dir repo_path) (codes "packed-refs"))
      packed_loop name (lines packed))
  ]

  unfoldable pub resolve_head : Text → Text → Text
  unfolding resolve_ref
  resolve_head repo_path head = elim (strip_prefix (codes "ref:") head) [
    | some name ↦ resolve_ref repo_path (trim name)
    | none ↦ if len head == 40 then head else unknown
  ]

  unfoldable pub repo_commit : Text → Text
  unfolding resolve_head
  repo_commit repo_path = elim (h.read_to_string (join (git_dir repo_path) (codes "HEAD"))) [
    | some content ↦ resolve_head repo_path (trim content)
    | none ↦ unknown
  ]
