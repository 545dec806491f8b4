-- ===== src/Adoption/ServerTime/Clamp.antt =====
-- The number that `jsonStringInt64Prefix` reads is the one that is written, cut off at the bounds of
-- int64.
use unifi_stubd.Prelude.{
  ℕ, ◌-◌, ◌^◌, ◌≡◌, refl, arith, Bool, true, false, [], ◌∷◌, ◌++◌, ap, length, ◌==◌, if◌then◌else◌,
}
use unifi_stubd.Prelude.Int.{ℤ, pos, negsuc, leb_ℤ}
use unifi_stubd.Prelude.Text.{Bytes}
use unifi_stubd.Adoption.ServerTime.{
  is_ascii_space, is_digit, digits, digits_value, negated, saturated, signed_prefix, int64_prefix,
  skip_space,
}

abbrev pub clamp_int64 : ℤ → ℤ
clamp_int64 n =
    if leb_ℤ n (negsuc (2 ^ 63 - 1))
    then negsuc (2 ^ 63 - 1)
    else if leb_ℤ (pos (2 ^ 63 - 1)) n
    then pos (2 ^ 63 - 1)
    else n

saturated_lem :
    (negative : Bool) (n : ℕ)
    → saturated negative n ≡ clamp_int64 (if negative then negated n else pos n)
unfolding saturated
saturated_lem true n = ground arith
saturated_lem false n = ground arith

abbrev pub AllSpace : Bytes → Type 0
AllSpace [] = Unit
AllSpace (c ∷ s) = (is_ascii_space c ≡ true) × AllSpace s

abbrev pub AllDigits : Bytes → Type 0
AllDigits [] = Unit
AllDigits (c ∷ s) = (is_digit c ≡ true) × AllDigits s

-- The text does not begin with a digit.
abbrev pub Stops : Bytes → Type 0
Stops [] = Unit
Stops (c ∷ s) = is_digit c ≡ false

-- The three ways to begin a number.
pub data Sign : Type 0 where
  plain : Sign
  plus : Sign
  minus : Sign

abbrev pub sign_text : Sign → Bytes
sign_text Sign.plain = []
sign_text Sign.plus = b'+' ∷ []
sign_text Sign.minus = b'-' ∷ []

abbrev pub signed : Sign → ℕ → ℤ
signed Sign.minus n = negated n
signed _ n = pos n

skip_space-append :
    (space s : Bytes) (c : ℕ)
    → AllSpace space
    → is_ascii_space c ≡ false
    → skip_space (space ++ c ∷ s) ≡ c ∷ s
unfolding skip_space
skip_space-append [] s c h k = rw k
skip_space-append (d ∷ space) s c h k = rw h.0 (skip_space-append space s c h.1 k)

digits_stop : (rest : Bytes) → Stops rest → digits rest ≡ []
unfolding digits
digits_stop [] h = refl
digits_stop (c ∷ rest) h = rw h

digits-append : (ds rest : Bytes) → AllDigits ds → Stops rest → digits (ds ++ rest) ≡ ds
unfolding digits
digits-append [] rest h k = digits_stop rest k
digits-append (c ∷ ds) rest h k = rw h.0 (ap (◌∷◌ c) (digits-append ds rest h.1 k))

digits_read :
    (negative : Bool) (c : ℕ) (ds rest : Bytes)
    → AllDigits (c ∷ ds)
    → Stops rest
    → signed_prefix negative (c ∷ ds ++ rest)
      ≡ clamp_int64
          (if negative then negated (digits_value 0 (c ∷ ds)) else pos (digits_value 0 (c ∷ ds)))
unfolding signed_prefix
digits_read negative c ds rest h k =
    let some_digit : (length (c ∷ ds) == 0) ≡ false = ground arith in
    rw (digits-append (c ∷ ds) rest h k, some_digit)
      (saturated_lem negative (digits_value 0 (c ∷ ds)))

-- White space, an optional sign, at least one digit, and anything that does not begin with a digit:
-- the number read is the one written, cut off at the bounds of int64.
pub int64_prefix_lem :
    (space : Bytes) (sign : Sign) (c : ℕ) (ds rest : Bytes)
    → AllSpace space
    → AllDigits (c ∷ ds)
    → Stops rest
    → int64_prefix (skip_space (space ++ (sign_text sign ++ (c ∷ ds ++ rest))))
      ≡ clamp_int64 (signed sign (digits_value 0 (c ∷ ds)))
unfolding int64_prefix
int64_prefix_lem space Sign.plain c ds rest h k l =
    let plain : (c == b'-') ≡ false = ground arith in
    let unsigned : (c == b'+') ≡ false = ground arith in
    rw (skip_space-append space (ds ++ rest) c h (ground arith), plain, unsigned)
      (digits_read false c ds rest k l)
int64_prefix_lem space Sign.plus c ds rest h k l =
    rw (skip_space-append space (c ∷ ds ++ rest) b'+' h refl) (digits_read false c ds rest k l)
int64_prefix_lem space Sign.minus c ds rest h k l =
    rw (skip_space-append space (c ∷ ds ++ rest) b'-' h refl) (digits_read true c ds rest k l)
