-- ===== src/Examples/Status.antt =====
-- The entropy gate at concrete inputs, on a platform whose hash is its input.
use tscp_anchor.Prelude.{ℕ, ◌-◌, ◌≡◌, ◌↔◌, refl, true, false, some, [], ◌∷◌, ◌++◌, ltb}
use tscp_anchor.Prelude.Bytes.{Bytes, bytes_eq}
use tscp_anchor.Owsl.{
  OwslStatus, Platform, StatusFile, missing, contents, held, critical, with_path, status_permits,
  hashed_content, join, verify_content_hash, is_fresh, read_decoded, read_parsed, read_file,
  read_status, permits_result, permits_verification, owsl_permits_verification,
  owsl_permits_verification_at_path,
}
use tscp_anchor.Owsl.Gate.{Opens, owsl_permits_verification_at_path_iff}
use tscp_anchor.Owsl.History.{gate, anomalies, accesses, owsl_permits_verification_history}

abbrev sealed : Bytes → OwslStatus ℕ
sealed state = record {
  timestamp = 100;
  status = state;
  action = [];
  round = 1;
  bits_consumed = 2;
  bits_remaining = 3;
  anomalies = [];
  frame_count = 4;
  window_start = 5;
  window_end = 6;
  checksum_valid = true;
  content_hash =
      100
      ∷ 124
      ∷ (state ++ 124 ∷ 124 ∷ 1 ∷ 124 ∷ 2 ∷ 124 ∷ 3 ∷ 124 ∷ 124 ∷ 4 ∷ 124 ∷ 5 ∷ 124 ∷ 6 ∷ []);
}

abbrev pub platform : Platform ℕ
platform = record {
  display_f64 = λ t. t ∷ [];
  display_u64 = λ n. n ∷ [];
  sha256_hex = λ content. content;
  from_str = λ text. some (sealed text);
  age_below = λ now t max. ltb (now - t) max;
}

abbrev files : Bytes → StatusFile
files [] = missing
files (x ∷ path) = contents (x ∷ path)

-- "OK"
abbrev pub path : Bytes
path = 79 ∷ 75 ∷ []

gate_opens : owsl_permits_verification_at_path platform files 150 path ≡ true
unfolding owsl_permits_verification_at_path permits_verification read_status read_file read_parsed
    read_decoded is_fresh with_path permits_result status_permits verify_content_hash hashed_content
    join bytes_eq
gate_opens = refl

gate_stale : owsl_permits_verification_at_path platform files 160 path ≡ false
unfolding owsl_permits_verification_at_path permits_verification read_status read_file read_parsed
    read_decoded is_fresh with_path permits_result status_permits verify_content_hash hashed_content
    join bytes_eq
gate_stale = refl

gate_critical : owsl_permits_verification_at_path platform files 150 critical ≡ false
unfolding owsl_permits_verification_at_path permits_verification read_status read_file read_parsed
    read_decoded is_fresh with_path permits_result status_permits verify_content_hash hashed_content
    join bytes_eq
gate_critical = refl

owsl_permits_verification_at_path_iff_example :
    (owsl_permits_verification_at_path platform files 150 path ≡ true)
    ↔ Opens platform files 150 path
owsl_permits_verification_at_path_iff_example =
    owsl_permits_verification_at_path_iff platform files 150 path

owsl_permits_verification_history_example :
    (owsl_permits_verification platform files 150
      (accesses platform (held (with_path path)) (gate files 120 ∷ anomalies files 200 ∷ []))).1
    ≡ owsl_permits_verification_at_path platform files 150 path
owsl_permits_verification_history_example =
    owsl_permits_verification_history platform files 150 path
      (gate files 120 ∷ anomalies files 200 ∷ [])
