-- ===== src/Prelude/Text/Hex.antt =====
-- `encoding/hex` and `strconv.ParseBool`.
use Prim.Native.Nat.{ℕ, ◌+◌, ◌-◌, ◌*◌, ◌/◌, ◌%◌, ◌<◌}
use mathlib.Core.Path.{◌≡◌, refl, ap}
use mathlib.Core.Bool.{◌&&◌}
use mathlib.Core.List.{List, [], ◌∷◌}
use mathlib.Core.Option.{Option, none, some}
use native.Mathlib.Omega.{arith}
use unifi_stubd.Prelude.{leb, ltb, if◌then◌else◌, length}

-- The value of a hexadecimal digit of either case.
unfoldable pub hex_value : ℕ → Option ℕ
hex_value c =
    if leb b'0' c && leb c b'9'
    then some (c - b'0')
    else if leb b'a' c && leb c b'f'
    then some (c - 87)
    else if leb b'A' c && leb c b'F'
    then some (c - 55)
    else none

abbrev pub hex_digit : ℕ → ℕ
hex_digit v = if ltb v 10 then b'0' + v else 87 + v

-- `hex.EncodeToString`.
unfoldable pub encode_hex : List ℕ → List ℕ
encode_hex [] = []
encode_hex (b ∷ bs) = hex_digit (b / 16) ∷ hex_digit (b % 16) ∷ encode_hex bs

abbrev pub pair : Option ℕ → Option ℕ → Option (List ℕ) → Option (List ℕ)
pair (some h) (some l) (some bs) = some ((h * 16 + l) ∷ bs)
pair _ _ _ = none

-- `hex.DecodeString`: an error for a byte that is no digit and for an odd length.
unfoldable pub decode_hex : List ℕ → Option (List ℕ)
decode_hex [] = some []
decode_hex (c ∷ []) = none
decode_hex (c ∷ d ∷ s) = pair (hex_value c) (hex_value d) (decode_hex s)

-- The values are bytes.
abbrev pub AreBytes : List ℕ → Type 0
AreBytes [] = Unit
AreBytes (b ∷ bs) = (b < 256) × AreBytes bs

pub hex_value-hex_digit : (v : ℕ) → v < 16 → hex_value (hex_digit v) ≡ some v
unfolding hex_value
hex_value-hex_digit v h = ground arith

pub decode_hex-encode_hex : (bs : List ℕ) → AreBytes bs → decode_hex (encode_hex bs) ≡ some bs
unfolding decode_hex encode_hex
decode_hex-encode_hex [] h = refl
decode_hex-encode_hex (b ∷ bs) h =
    let whole : b / 16 * 16 + b % 16 ≡ b = omega arith in
    rw
      (
        hex_value-hex_digit (b / 16) (omega arith),
        hex_value-hex_digit (b % 16) (omega arith),
        decode_hex-encode_hex bs h.1,
      )
      (ap (λ (v : ℕ). some (v ∷ bs)) whole)

pub length-encode_hex : (bs : List ℕ) → length (encode_hex bs) ≡ length bs + length bs
unfolding encode_hex
length-encode_hex [] = omega arith
length-encode_hex (b ∷ bs) = omega (arith, length-encode_hex bs)

pub hex_value_bound : (c v : ℕ) → hex_value c ≡ some v → v < 16
unfolding hex_value
hex_value_bound c v h = ground arith

pub pair-AreBytes :
    (h l : Option ℕ) (rest : Option (List ℕ)) (bs : List ℕ)
    → ((v : ℕ) → h ≡ some v → v < 16)
    → ((v : ℕ) → l ≡ some v → v < 16)
    → ((r : List ℕ) → rest ≡ some r → AreBytes r)
    → pair h l rest ≡ some bs
    → AreBytes bs
pair-AreBytes (some h) (some l) (some r) [] hb lb rb e = cc
pair-AreBytes (some h) (some l) (some r) (b ∷ bs) hb lb rb e =
    let high = hb h refl in
    let low = lb l refl in let tail : r ≡ bs = cc in (ground arith, rb bs (ap some tail))
pair-AreBytes none l rest bs hb lb rb e = cc
pair-AreBytes (some h) none rest bs hb lb rb e = cc
pair-AreBytes (some h) (some l) none bs hb lb rb e = cc

-- What is decoded are bytes.
pub decode_hex-AreBytes : (s bs : List ℕ) → decode_hex s ≡ some bs → AreBytes bs
unfolding decode_hex
decode_hex-AreBytes [] [] h = tt
decode_hex-AreBytes [] (b ∷ bs) h = cc
decode_hex-AreBytes (c ∷ []) bs h = cc
decode_hex-AreBytes (c ∷ d ∷ s) bs h =
    pair-AreBytes (hex_value c) (hex_value d) (decode_hex s) bs (hex_value_bound c)
      (hex_value_bound d) (decode_hex-AreBytes s) h

-- And texts of two keys are the same only if the keys are.
pub encode_hex_injective :
    (a b : List ℕ) → AreBytes a → AreBytes b → encode_hex a ≡ encode_hex b → a ≡ b
encode_hex_injective a b h k e =
    let left = decode_hex-encode_hex a h in let right = decode_hex-encode_hex b k in cc
