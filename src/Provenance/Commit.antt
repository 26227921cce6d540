-- ===== src/Provenance/Commit.antt =====
-- What `repo_commit` of crates/tscp-verifier/src/provenance.rs returns.
use tscp_anchor.Prelude.{
  ℕ, ◌≡◌, ◌≢◌, refl, ap, ◌∙◌, ◌⊎◌, inl, inr, Bool, true, false, ◌&&◌, not, Option, none, some, List,
  [], ◌∷◌, ◌++◌, ◌==◌, ==_iff, if◌then◌else◌, ◌<◌, length, Option-cases, arith,
}
use tscp_anchor.Prelude.Text.{
  Text, codes, as_bytes, len, is_whitespace, before_trimmed, trim, trim_start, trim_end,
  strip_prefix, lines, split_whitespace,
}
use tscp_anchor.Timing.{unwrap_or}
use tscp_anchor.Provenance.{
  Host, unknown, join, git_dir, packed_ref, packed_loop, resolve_ref, resolve_head, repo_commit,
}

-- A commit of forty bytes, or "unknown".
abbrev pub IsCommit : Text → Type 0
IsCommit t = (t ≡ unknown) ⊎ (len t ≡ 40)

checked : (t : Text) → IsCommit (if len t == 40 then t else unknown)
checked t = ground (arith, ==_iff (len t) 40)

packed_ref_size :
    (name : Text) (fields : List Text) (sha : Text)
    → packed_ref name fields ≡ some sha
    → len sha ≡ 40
unfolding packed_ref
packed_ref_size name [] sha h = cc
packed_ref_size name (a ∷ []) sha h = cc
packed_ref_size name (a ∷ b ∷ []) sha h = ground (arith, ==_iff (len a) 40)
packed_ref_size name (a ∷ b ∷ c ∷ rest) sha h = cc

packed_loop-IsCommit :
    (name : Text) (ls : List Text) → IsCommit (unwrap_or unknown (packed_loop name ls))
unfolding packed_loop unwrap_or
packed_loop-IsCommit name [] = inl refl
packed_loop-IsCommit name (line ∷ rest) =
    found (packed_ref name (split_whitespace line)) refl (packed_loop-IsCommit name rest)
  where
    found :
        (o : Option Text)
        → packed_ref name (split_whitespace line) ≡ o
        → IsCommit (unwrap_or unknown (packed_loop name rest))
        → IsCommit
            (unwrap_or unknown (elim o [ some sha ↦ some sha | none ↦ packed_loop name rest ]))
    found none e r = r
    found (some sha) e r = inr (packed_ref_size name (split_whitespace line) sha e)

module _ (h : Host) where
  packed-IsCommit :
      (repo name : Text)
      → h.read_to_string (join (git_dir repo) name) ≡ none
      → IsCommit (resolve_ref h repo name)
  unfolding resolve_ref
  packed-IsCommit repo name e =
      elim (Option-cases (h.read_to_string (join (git_dir repo) (codes "packed-refs")))) [
        | inl e' ↦ inl (rw (resolve_ref, e, e', unwrap_or) refl)
        | inr (packed, e') ↦ rw (resolve_ref, e, e') (packed_loop-IsCommit name (lines packed))
      ]

  resolve_ref-IsCommit : (repo name : Text) → IsCommit (resolve_ref h repo name)
  unfolding resolve_ref
  resolve_ref-IsCommit repo name =
      elim (Option-cases (h.read_to_string (join (git_dir repo) name))) [
        | inl e ↦ packed-IsCommit repo name e
        | inr (sha, e) ↦ rw (resolve_ref, e) (checked (trim sha))
      ]

  resolve_head-IsCommit : (repo head : Text) → IsCommit (resolve_head h repo head)
  unfolding resolve_head
  resolve_head-IsCommit repo head = elim (Option-cases (strip_prefix (codes "ref:") head)) [
    | inl e ↦ rw (resolve_head, e) (checked head)
    | inr (name, e) ↦ rw (resolve_head, e) (resolve_ref-IsCommit repo (trim name))
  ]

  -- repo_commit returns forty bytes, or "unknown".
  pub repo_commit-IsCommit : (repo : Text) → IsCommit (repo_commit h repo)
  unfolding repo_commit
  repo_commit-IsCommit repo =
      elim (Option-cases (h.read_to_string (join (git_dir repo) (codes "HEAD")))) [
        | inl e ↦ inl (rw (repo_commit, e) refl)
        | inr (content, e) ↦ rw (repo_commit, e) (resolve_head-IsCommit repo (trim content))
      ]

empty_size : len [] ≢ 40
unfolding len as_bytes
empty_size e = omega (arith, e)

-- No character of white space.
abbrev pub Solid : Text → Type 0
Solid [] = Unit
Solid (c ∷ s) = (is_whitespace c ≡ false) × Solid s

-- The same as a test.
abbrev pub is_solid : Text → Bool
is_solid [] = true
is_solid (c ∷ s) = not (is_whitespace c) && is_solid s

pub is_solid_sound : (s : Text) → is_solid s ≡ true → Solid s
is_solid_sound [] h = tt
is_solid_sound (c ∷ s) h = ground (arith, is_solid_sound s)

trim_end_line : (s : Text) → Solid s → trim_end (s ++ codes "\n") ≡ s
unfolding trim_end before_trimmed is_whitespace
trim_end_line [] solid = refl
trim_end_line (c ∷ []) (h, solid) = rw h refl
trim_end_line (c ∷ d ∷ s) (h, solid) = rw (trim_end_line (d ∷ s) solid) refl

trim_start-Solid : (c : ℕ) (s : Text) → is_whitespace c ≡ false → trim_start (c ∷ s) ≡ c ∷ s
unfolding trim_start
trim_start-Solid c s h = rw (trim_start, h) refl

trim_line : (c : ℕ) (s : Text) → Solid (c ∷ s) → trim ((c ∷ s) ++ codes "\n") ≡ c ∷ s
unfolding trim
trim_line c s solid =
    ap trim_end (trim_start-Solid c (s ++ codes "\n") solid.0) ∙ trim_end_line (c ∷ s) solid

trim_end-Solid : (s : Text) → Solid s → trim_end s ≡ s
unfolding trim_end before_trimmed
trim_end-Solid [] solid = refl
trim_end-Solid (c ∷ []) (h, solid) = rw h refl
trim_end-Solid (c ∷ d ∷ s) (h, solid) = rw (trim_end-Solid (d ∷ s) solid) refl

trim_name : (c : ℕ) (s : Text) → Solid (c ∷ s) → trim (32 ∷ c ∷ s) ≡ c ∷ s
unfolding trim trim_start is_whitespace
trim_name c s solid = ap trim_end (trim_start-Solid c s solid.0) ∙ trim_end-Solid (c ∷ s) solid

-- `ref: ` and a name, on a line.
abbrev pub head_line : Text → Text
head_line name = codes "ref: " ++ (name ++ codes "\n")

trim_head : (c : ℕ) (s : Text) → Solid (c ∷ s) → trim (head_line (c ∷ s)) ≡ codes "ref: " ++ (c ∷ s)
unfolding trim is_whitespace trim_end before_trimmed
trim_head c s solid =
    ap (λ t. trim_end t) {x = trim_start (head_line (c ∷ s))} (trim_start-Solid 114 _ refl)
    ∙ rw (trim_end_line (c ∷ s) solid) refl

module _ (h : Host) where
  -- When HEAD names, on a line, a branch whose name is not empty and has no white space, and the
  -- branch's file holds 40 bytes without white space on a line, repo_commit returns these.
  pub repo_commit_loose :
      (repo name sha : Text)
      → 0 < length name
      → Solid name
      → Solid sha
      → len sha ≡ 40
      → h.read_to_string (join (git_dir repo) (codes "HEAD")) ≡ some (head_line name)
      → h.read_to_string (join (git_dir repo) name) ≡ some (sha ++ codes "\n")
      → repo_commit h repo ≡ sha
  unfolding strip_prefix repo_commit
  repo_commit_loose repo [] sha some_name solid solid' size head loose = absurd (omega arith)
  repo_commit_loose repo (c ∷ s) [] some_name solid solid' size head loose =
      absurd (empty_size size)
  repo_commit_loose repo (c ∷ s) (d ∷ sha) some_name solid solid' size head loose =
      rw
        (
          repo_commit,
          head,
          trim_head c s solid,
          resolve_head,
          trim_name c s solid,
          resolve_ref,
          loose,
          trim_line d sha solid',
          (==_iff _ 40).1 size,
        )
        refl
