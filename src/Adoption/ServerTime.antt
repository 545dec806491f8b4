-- ===== src/Adoption/ServerTime.antt =====
-- internal/adoption/content_blocks.go: `jsonStringInt64Prefix`, which reads a number as `strtoll`.
pub mod Clamp
use unifi_stubd.Prelude.{
  ℕ, ◌+◌, ◌-◌, ◌*◌, ◌^◌, Bool, true, false, ◌&&◌, ◌||◌, Option, none, some, List, [], ◌∷◌, length,
  ltb, leb, ◌==◌, if◌then◌else◌,
}
use unifi_stubd.Prelude.Int.{ℤ, pos, negsuc}
use unifi_stubd.Prelude.Text.{Bytes}
use unifi_stubd.Adoption.Json.{Json}

-- `isASCIISpace`.
abbrev pub is_ascii_space : ℕ → Bool
is_ascii_space c = c == 32 || (leb 9 c && leb c 13)

abbrev pub is_digit : ℕ → Bool
is_digit c = leb b'0' c && leb c b'9'

-- The text behind its white space.
unfoldable pub skip_space : Bytes → Bytes
skip_space [] = []
skip_space (c ∷ s) = let rest = skip_space s in if is_ascii_space c then rest else c ∷ s

-- The digits that a text begins with.
unfoldable pub digits : Bytes → Bytes
digits [] = []
digits (c ∷ s) = let rest = digits s in if is_digit c then c ∷ rest else []

-- The value of digits.
unfoldable pub digits_value : ℕ → Bytes → ℕ
digits_value n [] = n
digits_value n (c ∷ s) = digits_value (n * 10 + (c - b'0')) s

-- `-n`.
abbrev pub negated : ℕ → ℤ
negated n = if n == 0 then pos 0 else negsuc (n - 1)

-- `strconv.ParseInt` of a sign and digits, whose error leaves the bound of int64.
unfoldable pub saturated : Bool → ℕ → ℤ
saturated negative n =
    if negative
    then (if ltb (2 ^ 63) n then negsuc (2 ^ 63 - 1) else negated n)
    else (if leb (2 ^ 63) n then pos (2 ^ 63 - 1) else pos n)

-- The number behind a sign.
unfoldable pub signed_prefix : Bool → Bytes → ℤ
signed_prefix negative s =
    if length (digits s) == 0 then pos 0 else saturated negative (digits_value 0 (digits s))

unfoldable pub int64_prefix : Bytes → ℤ
int64_prefix [] = signed_prefix false []
int64_prefix (c ∷ s) =
    if c == b'-'
    then signed_prefix true s
    else if c == b'+'
    then signed_prefix false s
    else signed_prefix false (c ∷ s)

-- `jsonStringInt64Prefix`.
unfoldable pub json_string_int64_prefix : Json → Bytes → ℤ × Bool
json_string_int64_prefix json raw = elim (json.string_value raw) [
  | none ↦ (pos 0, false)
  | some none ↦ (pos 0, false)
  | some (some text) ↦ (int64_prefix (skip_space text), true)
]
