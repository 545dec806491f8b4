-- ===== src/Prelude/Text/Decimal.antt =====
-- `strconv.Itoa` and `strconv.Atoi`.
use Prim.Native.Nat.{ℕ, zero, suc, ◌+◌, ◌-◌, ◌*◌, ◌/◌, ◌%◌}
use mathlib.Core.Bool.{Bool, true, false, ◌&&◌}
use mathlib.Core.List.{List, [], ◌∷◌}
use mathlib.Core.Option.{Option, none, some}
use unifi_stubd.Prelude.{leb, ltb, ◌==◌, if◌then◌else◌}
use unifi_stubd.Prelude.Int.{ℤ, pos, negsuc, leb_ℤ, max_int64, min_int64}

-- The digits of a number before others; the fuel is above the number.
decimal_digits : ℕ → ℕ → List ℕ → List ℕ
decimal_digits zero n s = s
decimal_digits (suc f) n s =
    let rest = decimal_digits f (n / 10) ((b'0' + n % 10) ∷ s) in
    if ltb n 10 then (b'0' + n) ∷ s else rest

-- `strconv.Itoa` of a number that is not negative.
unfoldable pub itoa : ℕ → List ℕ
unfolding decimal_digits
itoa n = decimal_digits (suc n) n []

abbrev is_digit : ℕ → Bool
is_digit c = leb b'0' c && leb c b'9'

abbrev one_digit : Bool → Option ℕ → Option ℕ
one_digit true rest = rest
one_digit false rest = none

-- The value of a text of digits after a first part.
decimal_value : ℕ → List ℕ → Option ℕ
decimal_value n [] = some n
decimal_value n (c ∷ s) = one_digit (is_digit c) (decimal_value (n * 10 + (c - b'0')) s)

abbrev unsigned : List ℕ → Option ℕ
unsigned [] = none
unsigned (c ∷ s) = decimal_value 0 (c ∷ s)

abbrev negated : ℕ → ℤ
negated zero = pos 0
negated (suc n) = negsuc n

abbrev plus_sign : Option ℕ → Option ℤ
plus_sign none = none
plus_sign (some n) = if leb_ℤ (pos n) max_int64 then some (pos n) else none

abbrev minus_sign : Option ℕ → Option ℤ
minus_sign none = none
minus_sign (some n) = if leb_ℤ min_int64 (negated n) then some (negated n) else none

-- `strconv.Atoi`: an optional sign, then at least one digit, and a value of 64 bits.
unfoldable pub atoi : List ℕ → Option ℤ
unfolding decimal_value
atoi [] = none
atoi (c ∷ s) =
    if c == b'-'
    then minus_sign (unsigned s)
    else if c == b'+'
    then plus_sign (unsigned s)
    else plus_sign (unsigned (c ∷ s))
