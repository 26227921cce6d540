-- ===== src/Owsl/History.antt =====
-- The process-wide gate of crates/prover-server/src/owsl_bridge.rs after any of its operations.
use tscp_anchor.Prelude.{
  ◌≡◌, refl, sym, ap, ◌∙◌, inl, inr, Option, none, some, List, [], ◌∷◌, Bool-cases,
}
use tscp_anchor.Prelude.Bytes.{Bytes}
use tscp_anchor.Owsl.{
  OwslStatus, Platform, StatusFile, missing, unreadable, contents, Reader, Lock, held, with_path,
  is_fresh, read_decoded, read_parsed, get_anomalies, get_owsl_anomalies, get_owsl_status,
  read_file, read_status, permits_result, permits_verification, owsl_permits_verification,
  owsl_permits_verification_at_path,
}

module _ {F64 : Type 0} (p : Platform F64) where
  -- The bridge's operations, each at the files and the time it meets.
  pub data Access : Type 0 where
    gate anomalies status : (Bytes → StatusFile) → F64 → Access

  unfoldable pub access : Lock F64 → Access → Lock F64
  access lock (gate files now) = (owsl_permits_verification p files now lock).0
  access lock (anomalies files now) = (get_owsl_anomalies p files now lock).0
  access lock (status files now) = (get_owsl_status p files now lock).0

  unfoldable pub accesses : Lock F64 → List Access → Lock F64
  accesses lock [] = lock
  accesses lock (a ∷ as') = accesses (access lock a) as'

  -- A reader but for the status it has read last.
  record SameGate (path : Bytes) (lock : Lock F64) : Type 0 where
    reader : Reader F64
    is_held : lock ≡ held reader
    same_path : reader.status_path ≡ path
    same_age : reader.max_age_seconds ≡ 60

  read_parsed_keeps :
      (now : F64) (reader : Reader F64) (o : Option (OwslStatus F64))
      → (((read_parsed p now reader o).0).status_path ≡ reader.status_path)
        × (((read_parsed p now reader o).0).max_age_seconds ≡ reader.max_age_seconds)
  unfolding read_parsed read_decoded
  read_parsed_keeps now reader none = (refl, refl)
  read_parsed_keeps now reader (some s) =
      elim (Bool-cases (is_fresh p now s reader.max_age_seconds)) [
        | inl fresh ↦ rw fresh (refl, refl)
        | inr old ↦ rw old (refl, refl)
      ]

  read_file_keeps :
      (now : F64) (reader : Reader F64) (file : StatusFile)
      → (((read_file p now reader file).0).status_path ≡ reader.status_path)
        × (((read_file p now reader file).0).max_age_seconds ≡ reader.max_age_seconds)
  unfolding read_file
  read_file_keeps now reader missing = (refl, refl)
  read_file_keeps now reader unreadable = (refl, refl)
  read_file_keeps now reader (contents text) = read_parsed_keeps now reader (p.from_str text)

  after_read :
      (path : Bytes) (lock : Lock F64) (g : SameGate path lock) (files : Bytes → StatusFile)
      (now : F64)
      → SameGate path (held (read_status p files now g.reader).0)
  unfolding read_status
  after_read path lock g files now =
      let (kept_path, kept_age) = read_file_keeps now g.reader (files (g.reader).status_path) in
      record {
        reader = (read_file p now g.reader (files (g.reader).status_path)).0;
        is_held = refl;
        same_path = kept_path ∙ g.same_path;
        same_age = kept_age ∙ g.same_age;
      }

  access-SameGate :
      (path : Bytes) (lock : Lock F64) (a : Access)
      → SameGate path lock
      → SameGate path (access lock a)
  unfolding access owsl_permits_verification permits_verification get_owsl_anomalies get_anomalies
      get_owsl_status
  access-SameGate path lock (gate files now) g = rw g.is_held (after_read path lock g files now)
  access-SameGate path lock (anomalies files now) g =
      rw g.is_held (after_read path lock g files now)
  access-SameGate path lock (status files now) g = rw g.is_held (after_read path lock g files now)

  accesses-SameGate :
      (path : Bytes) (lock : Lock F64) (as' : List Access)
      → SameGate path lock
      → SameGate path (accesses lock as')
  unfolding accesses
  accesses-SameGate path lock [] g = g
  accesses-SameGate path lock (a ∷ as') g =
      accesses-SameGate path (access lock a) as' (access-SameGate path lock a g)

  read_parsed_same :
      (now : F64) (r1 r2 : Reader F64) (o : Option (OwslStatus F64))
      → r1.max_age_seconds ≡ r2.max_age_seconds
      → (read_parsed p now r1 o).1 ≡ (read_parsed p now r2 o).1
  unfolding read_parsed read_decoded
  read_parsed_same now r1 r2 none h = refl
  read_parsed_same now r1 r2 (some s) h = elim (Bool-cases (is_fresh p now s r1.max_age_seconds)) [
    | inl fresh ↦ rw (fresh, sym (ap (is_fresh p now s) h) ∙ fresh) refl
    | inr old ↦ rw (old, sym (ap (is_fresh p now s) h) ∙ old) refl
  ]

  read_file_same :
      (now : F64) (r1 r2 : Reader F64) (file : StatusFile)
      → r1.max_age_seconds ≡ r2.max_age_seconds
      → (read_file p now r1 file).1 ≡ (read_file p now r2 file).1
  unfolding read_file
  read_file_same now r1 r2 missing h = refl
  read_file_same now r1 r2 unreadable h = refl
  read_file_same now r1 r2 (contents text) h = read_parsed_same now r1 r2 (p.from_str text) h

  -- The process's gate, whatever its bridge has been asked before, decides as a fresh one at its
  -- path does on the same files at the same time.
  pub owsl_permits_verification_history :
      (files : Bytes → StatusFile) (now : F64) (path : Bytes) (as' : List Access)
      → (owsl_permits_verification p files now (accesses (held (with_path path)) as')).1
        ≡ owsl_permits_verification_at_path p files now path
  unfolding owsl_permits_verification owsl_permits_verification_at_path permits_verification
      read_status with_path
  owsl_permits_verification_history files now path as' =
      let g : SameGate path (accesses (held (with_path path)) as') =
        accesses-SameGate path (held (with_path path)) as'
          (record { reader = with_path path; is_held = refl; same_path = refl; same_age = refl }) in
      ap (λ lock. (owsl_permits_verification p files now lock).1) g.is_held
      ∙ ap (λ q. permits_result p (read_file p now g.reader (files q)).1) g.same_path
      ∙ ap (permits_result p) (read_file_same now g.reader (with_path path) (files path) g.same_age)
