-- ===== src/Prelude/Text.antt =====
-- Strings of the standard library as the list of their code points.
use Prim.Native.Nat.{ℕ, ◌+◌, ◌-◌, ◌*◌, ◌/◌, ◌%◌, ◌^◌}
use Prim.Native.Char.{code}
use Prim.Native.String.{String}
use mathlib.Core.Path.{◌≡◌, refl}
use mathlib.Core.Logic.{◌↔◌}
use mathlib.Core.Bool.{Bool, true, false, ◌&&◌, ◌||◌}
use mathlib.Core.Option.{Option, none, some}
use mathlib.Core.List.{List, [], ◌∷◌, ◌++◌}
use tscp_anchor.Prelude.Tests.{ltb, leb, ◌==◌, if◌then◌else◌}
use tscp_anchor.Prelude.Lists.{length}
use tscp_anchor.Prelude.Bytes.{Bytes, bytes_eq, bytes_eq_sound, bytes_eq_refl}

abbrev pub Text : Type 0
Text = List ℕ

abbrev pub codes : String → Text
codes String.[] = []
codes (String.◌∷◌ c s) = code c ∷ codes s

abbrev pub text_eq : Text → Text → Bool
text_eq a b = bytes_eq a b

pub text_eq_iff : (a b : Text) → (text_eq a b ≡ true) ↔ (a ≡ b)
text_eq_iff a b = (bytes_eq_sound a b, λ e. rw (e, bytes_eq_refl b) refl)

-- `char::encode_utf8`
unfoldable pub encode_utf8 : ℕ → Bytes
encode_utf8 c =
    if ltb c 128
    then c ∷ []
    else if ltb c 2048
    then (192 + c / 64) ∷ (128 + c % 64) ∷ []
    else if ltb c 65536
    then (224 + c / 4096) ∷ (128 + (c / 64) % 64) ∷ (128 + c % 64) ∷ []
    else (240 + c / 262144) ∷ (128 + (c / 4096) % 64) ∷ (128 + (c / 64) % 64) ∷ (128 + c % 64) ∷ []

-- `str::as_bytes`
unfoldable pub as_bytes : Text → Bytes
as_bytes [] = []
as_bytes (c ∷ s) = encode_utf8 c ++ as_bytes s

-- `str::len`
unfoldable pub len : Text → ℕ
len s = length (as_bytes s)

-- `char::is_whitespace`
unfoldable pub is_whitespace : ℕ → Bool
is_whitespace c =
    (leb 9 c && leb c 13)
    || (c == 32)
    || (c == 133)
    || (c == 160)
    || (c == 5760)
    || (leb 8192 c && leb c 8202)
    || (c == 8232)
    || (c == 8233)
    || (c == 8239)
    || (c == 8287)
    || (c == 12288)

unfoldable pub trim_start : Text → Text
trim_start [] = []
trim_start (c ∷ s) = elim (is_whitespace c) [ true ↦ trim_start s | false ↦ c ∷ s ]

-- A character before what is left of its successors.
unfoldable pub before_trimmed : ℕ → Text → Text
before_trimmed c [] = if is_whitespace c then [] else c ∷ []
before_trimmed c (d ∷ s) = c ∷ d ∷ s

unfoldable pub trim_end : Text → Text
trim_end [] = []
trim_end (c ∷ s) = before_trimmed c (trim_end s)

unfoldable pub trim : Text → Text
trim s = trim_end (trim_start s)

-- `str::strip_prefix`
unfoldable pub strip_prefix : Text → Text → Option Text
strip_prefix [] s = some s
strip_prefix (p ∷ ps) [] = none
strip_prefix (p ∷ ps) (c ∷ s) = if p == c then strip_prefix ps s else none

unfoldable pub onto_first : ℕ → List Text → List Text
onto_first c [] = (c ∷ []) ∷ []
onto_first c (l ∷ ls) = (c ∷ l) ∷ ls

-- `str::lines`: an end of line is "\n" or "\r\n".
unfoldable pub lines : Text → List Text
lines [] = []
lines (c ∷ []) = if c == 10 then [] ∷ [] else (c ∷ []) ∷ []
lines (c ∷ d ∷ s) =
    let rest = lines (d ∷ s) in
    let after = lines s in
    if (c == 13) && (d == 10) then [] ∷ after else if c == 10 then [] ∷ rest else onto_first c rest

-- The pieces between characters of white space, empty ones included.
unfoldable pub pieces : Text → List Text
pieces [] = [] ∷ []
pieces (c ∷ s) = let rest = pieces s in if is_whitespace c then [] ∷ rest else onto_first c rest

unfoldable pub not_empty : List Text → List Text
not_empty [] = []
not_empty ([] ∷ ls) = not_empty ls
not_empty ((c ∷ l) ∷ ls) = (c ∷ l) ∷ not_empty ls

unfoldable pub split_whitespace : Text → List Text
unfolding pieces not_empty
split_whitespace s = not_empty (pieces s)

-- The digits of `str::parse::<usize>`, behind the value read so far.
unfoldable pub parse_digits : ℕ → Text → Option ℕ
parse_digits value [] = some value
parse_digits value (c ∷ s) =
    let next = 10 * value + (c - 48) in
    let rest = parse_digits next s in
    if leb 48 c && leb c 57 && ltb next (2 ^ 64) then rest else none

unfoldable pub parse_usize : Text → Option ℕ
unfolding parse_digits
parse_usize [] = none
parse_usize (c ∷ []) = parse_digits 0 (c ∷ [])
parse_usize (c ∷ d ∷ s) = if c == 43 then parse_digits 0 (d ∷ s) else parse_digits 0 (c ∷ d ∷ s)
