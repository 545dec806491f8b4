-- ===== src/Device/Mac/RoundTrip.antt =====
-- A hardware address is read back from its text.
use mathlib.Core.Path.{subst}
use unifi_stubd.Prelude.{
  then_branch, else_branch, ℕ, ◌+◌, ◌*◌, ◌/◌, ◌%◌, ◌≡◌, refl, ap, arith, Bool, true, false, ◌||◌,
  ◌==◌, List, [], ◌∷◌, Option, none, some, length, get_or, ltb, inl, inr, Bool-cases,
}
use unifi_stubd.Prelude.Text.{Bytes}
use unifi_stubd.Prelude.Text.Hex.{
  hex_value, AreBytes, hex_value-hex_digit, hex_value_bound, pair-AreBytes,
}
use unifi_stubd.Device.Mac.{
  behind, sized, mac_groups, dot_groups, is_mac_length, parse_mac, mac_string,
}

mac_groups-mac_string :
    (b : ℕ) (bs : List ℕ)
    → AreBytes (b ∷ bs)
    → mac_groups b':' (mac_string (b ∷ bs)) ≡ some (b ∷ bs)
unfolding mac_groups mac_string
mac_groups-mac_string b [] h =
    let whole : b / 16 * 16 + b % 16 ≡ b = omega arith in
    rw (hex_value-hex_digit (b / 16) (omega arith), hex_value-hex_digit (b % 16) (omega arith))
      (ap (λ (v : ℕ). some (v ∷ [])) whole)
mac_groups-mac_string b (c ∷ bs) h =
    let whole : b / 16 * 16 + b % 16 ≡ b = omega arith in
    rw
      (
        hex_value-hex_digit (b / 16) (omega arith),
        hex_value-hex_digit (b % 16) (omega arith),
        mac_groups-mac_string c bs h.1,
      )
      (ap (λ (v : ℕ). some (v ∷ c ∷ bs)) whole)

length-mac_string : (b : ℕ) (bs : List ℕ) → length (mac_string (b ∷ bs)) ≡ 3 * length bs + 2
unfolding mac_string
length-mac_string b [] = refl
length-mac_string b (c ∷ bs) = omega (arith, length-mac_string c bs)

mac_string-separator : (b c : ℕ) (bs : List ℕ) → get_or (mac_string (b ∷ c ∷ bs)) 2 0 ≡ b':'
unfolding mac_string
mac_string-separator b c bs = refl

mac_string_long :
    (b : ℕ) (bs : List ℕ)
    → is_mac_length (length (b ∷ bs)) ≡ true
    → ltb (length (mac_string (b ∷ bs))) 14 ≡ false
mac_string_long b bs e = ground (arith, length-mac_string b bs)

-- The text of a hardware address of a legal length is read as that address.
pub parse_mac-mac_string :
    (hw : List ℕ)
    → AreBytes hw
    → is_mac_length (length hw) ≡ true
    → parse_mac (mac_string hw) ≡ some hw
unfolding parse_mac
parse_mac-mac_string [] h e = cc
parse_mac-mac_string (b ∷ []) h e = cc
parse_mac-mac_string (b ∷ c ∷ bs) h e =
    rw
      (
        mac_string_long b (c ∷ bs) e,
        mac_string-separator b c bs,
        mac_groups-mac_string b (c ∷ bs) h,
        e,
      )
      refl

-- What is read has a legal length and consists of bytes.
behind-eq-some :
    (b : Bool) (rest : Option (List ℕ)) (r : List ℕ) → behind b rest ≡ some r → rest ≡ some r
behind-eq-some true rest r h = h
behind-eq-some false rest r h = cc

sized-eq-some :
    (o : Option (List ℕ)) (hw : List ℕ)
    → sized o ≡ some hw
    → (o ≡ some hw) × (is_mac_length (length hw) ≡ true)
sized-eq-some none hw h = cc
sized-eq-some (some r) hw h = ground arith

mac_groups-AreBytes : (sep : ℕ) (s : Bytes) (hw : List ℕ) → mac_groups sep s ≡ some hw → AreBytes hw
unfolding mac_groups
mac_groups-AreBytes sep [] hw e = cc
mac_groups-AreBytes sep (a ∷ []) hw e = cc
mac_groups-AreBytes sep (a ∷ b ∷ []) hw e =
    pair-AreBytes (hex_value a) (hex_value b) (some []) hw (hex_value_bound a) (hex_value_bound b)
      (λ r q. let nil : [] ≡ r = cc in subst AreBytes nil tt) e
mac_groups-AreBytes sep (a ∷ b ∷ c ∷ s) hw e =
    pair-AreBytes (hex_value a) (hex_value b) _ hw (hex_value_bound a) (hex_value_bound b)
      (λ r q. mac_groups-AreBytes sep s r (behind-eq-some (c == sep) (mac_groups sep s) r q)) e

dot_groups-AreBytes : (s : Bytes) (hw : List ℕ) → dot_groups s ≡ some hw → AreBytes hw
unfolding dot_groups
dot_groups-AreBytes [] hw e = cc
dot_groups-AreBytes (a ∷ []) hw e = cc
dot_groups-AreBytes (a ∷ b ∷ []) hw e = cc
dot_groups-AreBytes (a ∷ b ∷ c ∷ []) hw e = cc
dot_groups-AreBytes (a ∷ b ∷ c ∷ d ∷ []) hw e =
    pair-AreBytes (hex_value a) (hex_value b) _ hw (hex_value_bound a) (hex_value_bound b)
      (λ r q.
        pair-AreBytes (hex_value c) (hex_value d) (some []) r (hex_value_bound c)
          (hex_value_bound d) (λ r' q'. let nil : [] ≡ r' = cc in subst AreBytes nil tt) q)
      e
dot_groups-AreBytes (a ∷ b ∷ c ∷ d ∷ f ∷ s) hw e =
    pair-AreBytes (hex_value a) (hex_value b) _ hw (hex_value_bound a) (hex_value_bound b)
      (λ r q.
        pair-AreBytes (hex_value c) (hex_value d) _ r (hex_value_bound c) (hex_value_bound d)
          (λ r' q'. dot_groups-AreBytes s r' (behind-eq-some (f == b'.') (dot_groups s) r' q')) q)
      e

pub parse_mac-IsMac :
    (s : Bytes) (hw : List ℕ)
    → parse_mac s ≡ some hw
    → AreBytes hw × (is_mac_length (length hw) ≡ true)
unfolding parse_mac
parse_mac-IsMac s hw e = elim (Bool-cases (ltb (length s) 14)) [
  | inl short ↦ let no : none ≡ some hw = then_branch _ none _ short e in cc
  | inr long ↦
      let e1 = else_branch _ none _ long e in
      elim (Bool-cases (get_or s 2 0 == b':' || get_or s 2 0 == b'-')) [
        | inl groups ↦
            let (read, fits) = sized-eq-some _ hw (then_branch _ _ _ groups e1) in
            (mac_groups-AreBytes (get_or s 2 0) s hw read, fits)
        | inr no_groups ↦
            let e2 = else_branch _ _ _ no_groups e1 in
            elim (Bool-cases (get_or s 4 0 == b'.')) [
              | inl dots ↦
                  let (read, fits) = sized-eq-some _ hw (then_branch _ _ _ dots e2) in
                  (dot_groups-AreBytes s hw read, fits)
              | inr no_dots ↦ let no : none ≡ some hw = else_branch _ _ _ no_dots e2 in cc
            ]
      ]
]
