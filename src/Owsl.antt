-- ===== src/Owsl.antt =====
-- crates/prover-server/src/owsl_bridge.rs: the status that the entropy monitor publishes, and the
-- gate that reads it before a proof.
pub mod Gate
pub mod History
pub mod Publish
pub mod Alone
pub mod Whole
pub mod Published
pub mod Publishers
use tscp_anchor.Prelude.{
  ℕ, ◌≡◌, Bool, true, false, ◌&&◌, not, Option, none, some, List, [], ◌∷◌, ◌++◌, ltb, if◌then◌else◌,
}
use tscp_anchor.Prelude.Bytes.{Bytes, bytes_eq}

-- A string is its bytes; `F64` is the type of the time stamps.
pub record OwslStatus (F64 : Type 0) : Type 0 where
  pub timestamp : F64
  pub status : Bytes
  pub action : Bytes
  pub round : ℕ
  pub bits_consumed : ℕ
  pub bits_remaining : ℕ
  pub anomalies : List Bytes
  pub frame_count : ℕ
  pub window_start : F64
  pub window_end : F64
  pub checksum_valid : Bool
  pub content_hash : Bytes

-- What the bridge takes from outside the repository: the formatting of numbers, SHA-256 in
-- hexadecimal, the JSON decoder and the comparison `(now - timestamp) < max_age as f64`.
pub record Platform (F64 : Type 0) : Type 0 where
  pub display_f64 : F64 → Bytes
  pub display_u64 : ℕ → Bytes
  pub sha256_hex : Bytes → Bytes
  pub from_str : Bytes → Option (OwslStatus F64)
  pub age_below : F64 → F64 → ℕ → Bool

-- What stands at a path.
pub data StatusFile : Type 0 where
  missing unreadable : StatusFile
  contents : Bytes → StatusFile

pub data ReadError : Type 0 where
  not_found failed_to_read json_error stale lock_poisoned : ReadError

pub data ReadResult (F64 : Type 0) : Type 0 where
  ok : OwslStatus F64 → ReadResult F64
  err : ReadError → ReadResult F64

-- "CRITICAL"
abbrev pub critical : Bytes
critical = 67 ∷ 82 ∷ 73 ∷ 84 ∷ 73 ∷ 67 ∷ 65 ∷ 76 ∷ []

-- "HALT"
abbrev pub halt : Bytes
halt = 72 ∷ 65 ∷ 76 ∷ 84 ∷ []

-- "OWSL status unreadable"
abbrev pub status_unreadable : Bytes
status_unreadable =
    79 ∷ 87 ∷ 83 ∷ 76 ∷ 32 ∷ 115 ∷ 116 ∷ 97 ∷ 116 ∷ 117 ∷ 115 ∷ 32 ∷ 117 ∷ 110 ∷ 114 ∷ 101 ∷ 97
    ∷ 100 ∷ 97 ∷ 98 ∷ 108 ∷ 101 ∷ []

-- "OWSL bridge mutex poisoned"
abbrev pub mutex_poisoned : Bytes
mutex_poisoned =
    79 ∷ 87 ∷ 83 ∷ 76 ∷ 32 ∷ 98 ∷ 114 ∷ 105 ∷ 100 ∷ 103 ∷ 101 ∷ 32 ∷ 109 ∷ 117 ∷ 116 ∷ 101 ∷ 120
    ∷ 32 ∷ 112 ∷ 111 ∷ 105 ∷ 115 ∷ 111 ∷ 110 ∷ 101 ∷ 100 ∷ []

abbrev pub status_max_age_seconds : ℕ
status_max_age_seconds = 60

-- `anomalies.join(",")`
unfoldable pub join : List Bytes → Bytes
join [] = []
join (a ∷ []) = a
join (a ∷ b ∷ rest) = a ++ 44 ∷ join (b ∷ rest)

pub record Reader (F64 : Type 0) : Type 0 where
  pub status_path : Bytes
  pub max_age_seconds : ℕ
  pub last_read_status : Option (OwslStatus F64)

-- `OWSL_BRIDGE.lock()`
pub data Lock (F64 : Type 0) : Type 0 where
  held : Reader F64 → Lock F64
  poisoned : Lock F64

module _ {F64 : Type 0} where
  unfoldable pub status_permits : OwslStatus F64 → Bool
  status_permits s = not (bytes_eq s.status critical) && not (bytes_eq s.action halt)

  unfoldable pub with_path : Bytes → Reader F64
  with_path path = record {
    status_path = path;
    max_age_seconds = status_max_age_seconds;
    last_read_status = none;
  }

  -- `new`: the environment's path, or the default one with its tilde expanded.
  unfoldable pub new : Option Bytes → Bytes → Reader F64
  new (some path) default_path = with_path path
  new none default_path = with_path default_path

  module _ (p : Platform F64) where
    -- The bytes under the content hash.
    unfoldable pub hashed_content : OwslStatus F64 → Bytes
    hashed_content s =
        p.display_f64 s.timestamp
        ++ 124 ∷ s.status
        ++ 124 ∷ s.action
        ++ 124 ∷ p.display_u64 s.round
        ++ 124 ∷ p.display_u64 s.bits_consumed
        ++ 124 ∷ p.display_u64 s.bits_remaining
        ++ 124 ∷ join s.anomalies
        ++ 124 ∷ p.display_u64 s.frame_count
        ++ 124 ∷ p.display_f64 s.window_start
        ++ 124 ∷ p.display_f64 s.window_end

    unfoldable pub verify_content_hash : OwslStatus F64 → Bool
    verify_content_hash s =
        if bytes_eq s.content_hash []
        then false
        else bytes_eq (p.sha256_hex (hashed_content s)) s.content_hash

    unfoldable pub is_fresh : F64 → OwslStatus F64 → ℕ → Bool
    is_fresh now s max_age_seconds = p.age_below now s.timestamp max_age_seconds

    unfoldable pub is_healthy : OwslStatus F64 → Bool
    is_healthy s =
        status_permits s && verify_content_hash s && ltb 0 s.bits_remaining && ltb 0 s.frame_count

    -- A status that was decoded, against the clock.
    unfoldable pub read_decoded : F64 → Reader F64 → OwslStatus F64 → Reader F64 × ReadResult F64
    read_decoded now reader s =
        if not (is_fresh now s reader.max_age_seconds) then (reader, err stale) else (
          record {
            status_path = reader.status_path;
            max_age_seconds = reader.max_age_seconds;
            last_read_status = some s;
          },
          ok s,
        )

    unfoldable pub read_parsed :
        F64 → Reader F64 → Option (OwslStatus F64) → Reader F64 × ReadResult F64
    read_parsed now reader none = (reader, err json_error)
    read_parsed now reader (some s) = read_decoded now reader s

    unfoldable pub read_file : F64 → Reader F64 → StatusFile → Reader F64 × ReadResult F64
    read_file now reader missing = (reader, err not_found)
    read_file now reader unreadable = (reader, err failed_to_read)
    read_file now reader (contents text) = read_parsed now reader (p.from_str text)

    unfoldable pub read_status :
        (Bytes → StatusFile) → F64 → Reader F64 → Reader F64 × ReadResult F64
    read_status files now reader = read_file now reader (files reader.status_path)

    unfoldable pub permits_result : ReadResult F64 → Bool
    permits_result (ok s) = status_permits s && verify_content_hash s && ltb 0 s.bits_remaining
    permits_result (err e) = false

    unfoldable pub permits_verification :
        (Bytes → StatusFile) → F64 → Reader F64 → Reader F64 × Bool
    permits_verification files now reader =
        let r = read_status files now reader in (r.0, permits_result r.1)

    unfoldable pub owsl_permits_verification :
        (Bytes → StatusFile) → F64 → Lock F64 → Lock F64 × Bool
    owsl_permits_verification files now (held bridge) =
        let r = permits_verification files now bridge in (held r.0, r.1)
    owsl_permits_verification files now poisoned = (poisoned, false)

    unfoldable pub owsl_permits_verification_at_path : (Bytes → StatusFile) → F64 → Bytes → Bool
    owsl_permits_verification_at_path files now path =
        (permits_verification files now (with_path path)).1

    unfoldable pub anomalies_result : ReadResult F64 → List Bytes
    anomalies_result (ok s) = s.anomalies
    anomalies_result (err e) = status_unreadable ∷ []

    unfoldable pub get_anomalies : (Bytes → StatusFile) → F64 → Reader F64 → Reader F64 × List Bytes
    get_anomalies files now reader =
        let r = read_status files now reader in (r.0, anomalies_result r.1)

    unfoldable pub get_owsl_anomalies :
        (Bytes → StatusFile) → F64 → Lock F64 → Lock F64 × List Bytes
    get_owsl_anomalies files now (held bridge) =
        let r = get_anomalies files now bridge in (held r.0, r.1)
    get_owsl_anomalies files now poisoned = (poisoned, mutex_poisoned ∷ [])

    unfoldable pub get_owsl_status :
        (Bytes → StatusFile) → F64 → Lock F64 → Lock F64 × ReadResult F64
    get_owsl_status files now (held bridge) =
        let r = read_status files now bridge in (held r.0, r.1)
    get_owsl_status files now poisoned = (poisoned, err lock_poisoned)
