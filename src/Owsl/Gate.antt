-- ===== src/Owsl/Gate.antt =====
-- The gate of crates/prover-server/src/owsl_bridge.rs.
use tscp_anchor.Prelude.{
  ◌<◌, ◌≡◌, ◌≢◌, refl, sym, ap, ◌∙◌, ◌↔◌, Bool, true, false, ◌&&◌, not, inl, inr, Option, none,
  some, [], ltb, ltb→lt, lt→ltb, if◌then◌else◌, Bool-cases, arith,
}
use tscp_anchor.Prelude.Bytes.{Bytes, bytes_eq, bytes_eq_sound, bytes_eq_refl}
use tscp_anchor.Owsl.{
  OwslStatus, Platform, StatusFile, missing, unreadable, contents, ReadResult, ok, err, stale,
  Reader, critical, halt, status_permits, with_path, hashed_content, verify_content_hash, is_fresh,
  read_decoded, read_parsed, read_file, read_status, permits_result, permits_verification,
  owsl_permits_verification_at_path,
}

bytes_ne : (a b : Bytes) → (bytes_eq a b ≡ false) ↔ (a ≢ b)
bytes_ne a b = (
  λ h e. absurd (contradiction h (ap (λ x. bytes_eq x b) e ∙ bytes_eq_refl b)),
  λ ne. elim (Bool-cases (bytes_eq a b)) [
    | inl same ↦ absurd (ne (bytes_eq_sound a b same))
    | inr other ↦ other
  ],
)
  where
    contradiction : {x : Bool} → x ≡ false → x ≡ true → ⊥
    contradiction h k = cc

gate_tests :
    (a b c d e : Bool)
    → (((not a && not b) && (if c then false else d) && e) ≡ true)
      ↔ ((a ≡ false) × (b ≡ false) × (c ≡ false) × (d ≡ true) × (e ≡ true))
gate_tests a b c d e = ground arith

module _ {F64 : Type 0} (p : Platform F64) where
  -- A status that opens the gate.
  pub record Permitting (s : OwslStatus F64) : Type 0 where
    pub not_critical : s.status ≢ critical
    pub not_halted : s.action ≢ halt
    pub hash_present : s.content_hash ≢ []
    pub hash_matches : p.sha256_hex (hashed_content p s) ≡ s.content_hash
    pub bits_left : 0 < s.bits_remaining

  permits_result-Permitting : (s : OwslStatus F64) → (permits_result p (ok s) ≡ true) ↔ Permitting s
  unfolding permits_result status_permits verify_content_hash
  permits_result-Permitting s = (
    λ h.
        let (a, b, c, d, e) =
          (gate_tests (bytes_eq s.status critical) (bytes_eq s.action halt)
              (bytes_eq s.content_hash [])
              (bytes_eq (p.sha256_hex (hashed_content p s)) s.content_hash)
              (ltb 0 s.bits_remaining)).0
            h in
        record {
          not_critical = (bytes_ne s.status critical).0 a;
          not_halted = (bytes_ne s.action halt).0 b;
          hash_present = (bytes_ne s.content_hash []).0 c;
          hash_matches = bytes_eq_sound _ _ d;
          bits_left = ltb→lt 0 s.bits_remaining e;
        },
    λ o.
        (gate_tests (bytes_eq s.status critical) (bytes_eq s.action halt)
            (bytes_eq s.content_hash [])
            (bytes_eq (p.sha256_hex (hashed_content p s)) s.content_hash)
            (ltb 0 s.bits_remaining)).1
          (
            (bytes_ne s.status critical).1 o.not_critical,
            (bytes_ne s.action halt).1 o.not_halted,
            (bytes_ne s.content_hash []).1 o.hash_present,
            ap (λ h. bytes_eq h s.content_hash) o.hash_matches ∙ bytes_eq_refl s.content_hash,
            lt→ltb 0 s.bits_remaining o.bits_left,
          ),
  )

  -- What the gate opens on.
  pub record Opens (files : Bytes → StatusFile) (now : F64) (path : Bytes) : Type 0 where
    pub text : Bytes
    pub status : OwslStatus F64
    pub there : files path ≡ contents text
    pub decoded : p.from_str text ≡ some status
    pub fresh : p.age_below now status.timestamp 60 ≡ true
    pub permits : Permitting status

  result_ok :
      (r : ReadResult F64)
      → permits_result p r ≡ true
      → (s : OwslStatus F64) × (r ≡ ok s) × (permits_result p (ok s) ≡ true)
  unfolding permits_result
  result_ok (ok s) h = (s, refl, h)
  result_ok (err e) h = absurd cc

  read_decoded_ok :
      (now : F64) (reader : Reader F64) (s s' : OwslStatus F64)
      → (read_decoded p now reader s).1 ≡ ok s'
      → (s ≡ s') × (p.age_below now s.timestamp reader.max_age_seconds ≡ true)
  unfolding read_decoded is_fresh
  read_decoded_ok now reader s s' h =
      elim (Bool-cases (p.age_below now s.timestamp reader.max_age_seconds)) [
        | inl fresh ↦ (let k : ok s ≡ ok s' = rw fresh at h in cc, fresh)
        | inr old ↦ absurd (let k : err stale ≡ ok s' = rw old at h in cc)
      ]

  read_parsed_ok :
      (now : F64) (reader : Reader F64) (o : Option (OwslStatus F64)) (s : OwslStatus F64)
      → (read_parsed p now reader o).1 ≡ ok s
      → (o ≡ some s) × (p.age_below now s.timestamp reader.max_age_seconds ≡ true)
  unfolding read_parsed
  read_parsed_ok now reader none s h = absurd cc
  read_parsed_ok now reader (some s') s h =
      let (same, fresh) = read_decoded_ok now reader s' s h in
      (
        ap some same,
        ap (λ t. p.age_below now (OwslStatus.timestamp t) reader.max_age_seconds) (sym same)
            ∙ fresh,
      )

  read_file_ok :
      (now : F64) (reader : Reader F64) (file : StatusFile) (s : OwslStatus F64)
      → (read_file p now reader file).1 ≡ ok s
      → (text : Bytes) × (file ≡ contents text)
        × (p.from_str text ≡ some s)
        × (p.age_below now s.timestamp reader.max_age_seconds ≡ true)
  unfolding read_file
  read_file_ok now reader missing s h = absurd cc
  read_file_ok now reader unreadable s h = absurd cc
  read_file_ok now reader (contents text) s h =
      let (decoded, fresh) = read_parsed_ok now reader (p.from_str text) s h in
      (text, refl, decoded, fresh)

  -- The gate at a path permits exactly when a file is there whose text decodes to a status that is
  -- fresher than 60 seconds, not CRITICAL, not HALT, whose content hash is there and is the hash of
  -- its content, and that has bits left.
  pub owsl_permits_verification_at_path_iff :
      (files : Bytes → StatusFile) (now : F64) (path : Bytes)
      → (owsl_permits_verification_at_path p files now path ≡ true) ↔ Opens files now path
  unfolding owsl_permits_verification_at_path permits_verification read_status with_path
  owsl_permits_verification_at_path_iff files now path = (
    λ h.
        let (s, read, permits) = result_ok _ h in
        let (text, there, decoded, fresh) = read_file_ok now (with_path path) (files path) s read in
        record {
          text = text;
          status = s;
          there = there;
          decoded = decoded;
          fresh = fresh;
          permits = (permits_result-Permitting s).0 permits;
        },
    λ o.
        opened o.text o.status o.there o.decoded o.fresh
          ((permits_result-Permitting o.status).1 o.permits),
  )
    where
      opened :
          (text : Bytes) (s : OwslStatus F64)
          → files path ≡ contents text
          → p.from_str text ≡ some s
          → p.age_below now s.timestamp 60 ≡ true
          → permits_result p (ok s) ≡ true
          → permits_result p (read_file p now (with_path path) (files path)).1 ≡ true
      opened text s there decoded fresh permits =
          unfold read_file read_parsed read_decoded is_fresh in rw (there, decoded, fresh) permits
