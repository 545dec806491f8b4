-- ===== src/Prelude/Text/Utf8.antt =====
-- `utf8.ValidString` and the runes of a text: `none` where the text is no UTF-8.
use Prim.Native.Nat.{ℕ, zero, suc, ◌+◌, ◌-◌, ◌*◌}
use mathlib.Core.Bool.{Bool, false, ◌&&◌, ◌||◌}
use mathlib.Core.List.{List, [], ◌∷◌}
use mathlib.Core.Option.{Option, none, some}
use unifi_stubd.Prelude.{leb, ltb, ◌==◌, if◌then◌else◌}

abbrev between : ℕ → ℕ → ℕ → Bool
between lo hi c = leb lo c && leb c hi

-- What is still to come of a rune: how many bytes, the range of the next one, and the bits so far.
record Pending : Type 0 where
  need : ℕ
  lo : ℕ
  hi : ℕ
  bits : ℕ

-- The meaning of a first byte: an ASCII rune has no bytes to come.
first : ℕ → Option Pending
first c =
    if ltb c 0x80
    then some (record { need = 0; lo = 0; hi = 0; bits = c })
    else if between 0xc2 0xdf c
    then some (record { need = 1; lo = 0x80; hi = 0xbf; bits = c - 0xc0 })
    else if c == 0xe0
    then some (record { need = 2; lo = 0xa0; hi = 0xbf; bits = 0 })
    else if c == 0xed
    then some (record { need = 2; lo = 0x80; hi = 0x9f; bits = 0xd })
    else if between 0xe1 0xef c
    then some (record { need = 2; lo = 0x80; hi = 0xbf; bits = c - 0xe0 })
    else if c == 0xf0
    then some (record { need = 3; lo = 0x90; hi = 0xbf; bits = 0 })
    else if between 0xf1 0xf3 c
    then some (record { need = 3; lo = 0x80; hi = 0xbf; bits = c - 0xf0 })
    else if c == 0xf4
    then some (record { need = 3; lo = 0x80; hi = 0x8f; bits = 4 })
    else none

abbrev emit : ℕ → Option (List ℕ) → Option (List ℕ)
emit r none = none
emit r (some rs) = some (r ∷ rs)

-- The runes from a position inside a rune, with `need` bytes to come, or at its start.
runes_from : ℕ → ℕ → ℕ → ℕ → List ℕ → Option (List ℕ)
unfolding first
runes_from zero lo hi bits [] = some []
runes_from (suc need) lo hi bits [] = none
runes_from zero lo hi bits (c ∷ s) = elim (first c) [
  | none ↦ none
  | some p ↦
      let rest = runes_from p.need p.lo p.hi p.bits s in
      if p.need == 0 then emit p.bits rest else rest
]
runes_from (suc need) lo hi bits (c ∷ s) =
    let value = bits * 64 + (c - 0x80) in
    let rest = runes_from need 0x80 0xbf value s in
    if between lo hi c then (if need == 0 then emit value rest else rest) else none

unfoldable pub runes : List ℕ → Option (List ℕ)
unfolding runes_from
runes s = runes_from 0 0 0 0 s

-- `unicode.IsControl`.
abbrev pub is_control : ℕ → Bool
is_control r = ltb r 0x20 || between 0x7f 0x9f r

abbrev pub any_control : List ℕ → Bool
any_control [] = false
any_control (r ∷ rs) = is_control r || any_control rs
