-- ===== src/Prelude/Text.antt =====
-- Go strings as lists of bytes, and what the program uses of the packages `strings` and `bytes`.
mod Space
pub mod Lines
pub mod Hex
pub mod Utf8
pub mod Decimal
use Prim.Native.Char.{code}
use Prim.Native.String.{String}
use unifi_stubd.Prelude.{
  ℕ, ◌-◌, ◌≡◌, refl, ◌↔◌, Bool, true, false, ◌&&◌, ◌||◌, Option, none, some, List, [], ◌∷◌, ◌++◌,
  arith, leb, ltb, ◌==◌, ◌+◌, ◌<◌, length, if◌then◌else◌,
}
unfoldable pub use Space.{trim_space}
pub use Space.{
  Bytes, lead, trail, trim_space_fixed, lead-of_fixed, trail-of_fixed, trail-append, lead_visible,
  trail_visible, trim_space_nil, length-trim_space_le,
}

-- The bytes of an ASCII literal.
abbrev pub codes : String → Bytes
codes String.[] = []
codes (String.◌∷◌ c s) = code c ∷ codes s

-- `==` on strings.
unfoldable pub same : Bytes → Bytes → Bool
same [] [] = true
same (x ∷ xs) (y ∷ ys) = x == y && same xs ys
same _ _ = false

pub same_iff : (a b : Bytes) → (same a b ≡ true) ↔ (a ≡ b)
unfolding same
same_iff (x ∷ a) (y ∷ b) = ground (arith, same_iff a b)
same_iff _ _ = ground arith

pub same_refl : (a : Bytes) → same a a ≡ true
same_refl a = (same_iff a a).1 refl

abbrev pub is_empty : Bytes → Bool
is_empty [] = true
is_empty (c ∷ s) = false

pub is_empty_of_pos : (s : Bytes) → 0 < length s → is_empty s ≡ false
is_empty_of_pos [] h = absurd (omega arith)
is_empty_of_pos (c ∷ s) h = refl

-- `strings.HasPrefix(s, prefix)`.
unfoldable pub has_prefix : Bytes → Bytes → Bool
has_prefix s [] = true
has_prefix [] (p ∷ ps) = false
has_prefix (c ∷ s) (p ∷ ps) = c == p && has_prefix s ps

-- `strings.Contains(s, sub)`.
unfoldable pub contains : Bytes → Bytes → Bool
unfolding has_prefix
contains [] sub = has_prefix [] sub
contains (c ∷ s) sub = has_prefix (c ∷ s) sub || contains s sub

-- `strings.Join(parts, sep)`.
unfoldable pub join : Bytes → List Bytes → Bytes
join sep [] = []
join sep (p ∷ []) = p
join sep (p ∷ q ∷ ps) = p ++ (sep ++ join sep (q ∷ ps))

-- `<` on strings.
abbrev pub text_less : Bytes → Bytes → Bool
text_less a [] = false
text_less [] (d ∷ b) = true
text_less (c ∷ a) (d ∷ b) =
    let rest = text_less a b in if ltb c d then true else if ltb d c then false else rest

-- `strings.ToLower` on ASCII text.
abbrev pub lower_byte : ℕ → ℕ
lower_byte c = if leb b'A' c && leb c b'Z' then c + 32 else c

one_of : List Bytes → Bytes → Bool
one_of [] s = false
one_of (w ∷ ws) s = same s w || one_of ws s

-- `strconv.ParseBool`.
unfoldable pub parse_bool : Bytes → Option Bool
unfolding one_of same
parse_bool s =
    if one_of (codes "1" ∷ codes "t" ∷ codes "T" ∷ codes "TRUE" ∷ codes "true" ∷ codes "True" ∷ [])
      s
    then some true
    else if one_of
        (codes "0" ∷ codes "f" ∷ codes "F" ∷ codes "FALSE" ∷ codes "false" ∷ codes "False" ∷ []) s
    then some false
    else none
