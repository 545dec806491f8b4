-- ===== src/Adoption/Merge/Keys.antt =====
-- `authKeysEqual` compares the bytes of two keys.
use unifi_stubd.Prelude.{some-injective}
use unifi_stubd.Prelude.{
  ◌≡◌, refl, sym, ap, ◌∙◌, ◌⊎◌, ◌↔◌, inl, inr, arith, Bool, true, false, ◌||◌, Option, none, some,
  length, ◌==◌, if◌then◌else◌, Bool-cases,
}
use mathlib.Core.Path.{subst}
use unifi_stubd.Prelude.Text.{Bytes, same, same_iff}
use unifi_stubd.Prelude.Text.Hex.{
  AreBytes, encode_hex, decode_hex, decode_hex-AreBytes, encode_hex_injective,
}
use unifi_stubd.Adoption.Merge.{lower_case, same_keys, normalized_auth_key, auth_keys_equal}

-- The bytes of a key that is written raw or in hexadecimal digits.
abbrev pub key_bytes : Bytes → Option Bytes
key_bytes value =
    if length value == 16 then some value else if length value == 32 then decode_hex value else none

-- Two texts of one key.
abbrev pub SameKey : Bytes → Bytes → Type 0
SameKey left right =
    (left ≡ right) ⊎ ((key : Bytes) × (key_bytes left ≡ some key) × (key_bytes right ≡ some key))

form-AreBytes :
    (raw digits : Bool) (value key : Bytes)
    → AreBytes value
    → (if raw then some value else if digits then decode_hex value else none) ≡ some key
    → AreBytes key
form-AreBytes true digits value key h e = subst (λ k. AreBytes k) (some-injective e) h
form-AreBytes false true value key h e = decode_hex-AreBytes value key e
form-AreBytes false false value key h e = cc

form_lem :
    (raw digits : Bool) (value : Bytes)
    → (if raw
        then some (encode_hex value)
        else if digits
        then lower_case (decode_hex value)
        else none)
      ≡ lower_case (if raw then some value else if digits then decode_hex value else none)
form_lem true digits value = refl
form_lem false true value = refl
form_lem false false value = refl

normalized_auth_key_lem : (value : Bytes) → normalized_auth_key value ≡ lower_case (key_bytes value)
unfolding normalized_auth_key
normalized_auth_key_lem value = form_lem (length value == 16) (length value == 32) value

-- The comparison of the digits, by the keys.
same_keys_iff :
    (l r : Option Bytes)
    → ((k : Bytes) → l ≡ some k → AreBytes k)
    → ((k : Bytes) → r ≡ some k → AreBytes k)
    → (same_keys (lower_case l) (lower_case r) ≡ true) ↔ ((k : Bytes) × (l ≡ some k) × (r ≡ some k))
same_keys_iff none r h k = (λ e. cc, λ (_, e, _). cc)
same_keys_iff (some a) none h k = (λ e. cc, λ (_, _, e). cc)
same_keys_iff (some a) (some b) h k = (
  λ e.
      let equal =
        encode_hex_injective a b (h a refl) (k b refl)
          ((same_iff (encode_hex a) (encode_hex b)).0 e) in
      (a, refl, ap some (sym equal)),
  λ (c, e, d).
      let one : a ≡ b = some-injective (e ∙ sym d) in
      (same_iff (encode_hex a) (encode_hex b)).1 (ap encode_hex one),
)

or_true : (b : Bool) → (b || true) ≡ true
or_true true = refl
or_true false = refl

-- Whichever of the two forms the keys are written in, they are taken for equal exactly if the texts
-- are the same or both stand for the same sixteen bytes.
pub auth_keys_equal_iff :
    (left right : Bytes)
    → AreBytes left
    → AreBytes right
    → (auth_keys_equal left right ≡ true) ↔ SameKey left right
unfolding auth_keys_equal
auth_keys_equal_iff left right h k =
    let keys =
      same_keys_iff (key_bytes left) (key_bytes right) (λ key. form-AreBytes _ _ left key h)
        (λ key. form-AreBytes _ _ right key k) in
    rw (normalized_auth_key_lem left, normalized_auth_key_lem right)
      (
        λ e. elim (Bool-cases (same left right)) [
          | inl t ↦ inl ((same_iff left right).0 t)
          | inr f ↦ inr (keys.0 (ground arith))
        ],
        λ s. elim s [
          | inl t ↦ rw ((same_iff left right).1 t)
          | inr t ↦ rw (keys.1 t) (or_true (same left right))
        ],
      )
