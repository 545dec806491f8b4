-- ===== src/Device/Override/Accepts.antt =====
-- internal/device/override_fields.go: the texts that the validation of an override accepts.
use unifi_stubd.Prelude.{
  ℕ, ◌≡◌, ◌↔◌, ◌⊎◌, refl, Bool, true, false, not, ◌||◌, ◌==◌, List, [], ◌∷◌, Option, none, some,
  inl, inr, not-false, tests,
}
use unifi_stubd.Prelude.Float.{Float64, less, float_zero, float_hundred}
use unifi_stubd.Prelude.Text.{Bytes, codes, same, same_iff, contains}
use unifi_stubd.Device.Mac.{parse_mac}
use unifi_stubd.Device.Override.{Validator}
use unifi_stubd.Device.Override.Validate.{
  is_none, valid_gateway_role, has_line_control, bad_percent, refused_text,
}

-- One of the five roles.
abbrev pub IsRole : Bytes → Type 0
IsRole value =
    (value ≡ codes "wan")
    ⊎ ((value ≡ codes "lan")
        ⊎ ((value ≡ codes "wan2") ⊎ ((value ≡ codes "lan2") ⊎ (value ≡ codes "unassigned"))))

-- No byte is a carriage return, a line feed or a tabulator.
abbrev pub IsOneLine : Bytes → Type 0
IsOneLine [] = Unit
IsOneLine (c ∷ s) = ((c ≡ 13 → ⊥) × (c ≡ 10 → ⊥) × (c ≡ 9 → ⊥)) × IsOneLine s

-- Neither below 0 nor above 100: a number that is not a NaN lies between them.
abbrev pub InPercent : Option Float64 → Type 0
InPercent none = Unit
InPercent (some x) = (less x float_zero ≡ false) × (less float_hundred x ≡ false)

module _ (is_ipv4 : Bytes → Bool) where
  -- What a text that is given must be.
  abbrev pub IsAccepted : Validator → Bytes → Type 0
  IsAccepted Validator.any_text value = Unit
  IsAccepted Validator.interface_name value = contains value (codes "/") ≡ false
  IsAccepted Validator.mac_address value = (hw : List ℕ) × (parse_mac value ≡ some hw)
  IsAccepted Validator.ipv4 value = is_ipv4 value ≡ true
  IsAccepted Validator.netmask_value value = is_ipv4 value ≡ true
  IsAccepted Validator.role_name value = IsRole value
  IsAccepted Validator.group_name value = IsOneLine value

or_split : (a b : Bool) → (a || b) ≡ true → (a ≡ true) ⊎ (b ≡ true)
or_split true b h = inl refl
or_split false b h = inr h

or_none : (a b : Bool) → (a || b) ≡ false → (a ≡ false) × (b ≡ false)
or_none true b h = cc
or_none false b h = (refl, h)

named : (value text : Bytes) → same value text ≡ true → value ≡ text
named value text h = (same_iff value text).0 h

IsRole-of_test : (value : Bytes) → valid_gateway_role value ≡ true → IsRole value
unfolding valid_gateway_role
IsRole-of_test value h = elim (or_split _ (same value (codes "unassigned")) h) [
  | inr e ↦ inr (inr (inr (inr (named value _ e))))
  | inl h1 ↦ elim (or_split _ (same value (codes "lan2")) h1) [
    | inr e ↦ inr (inr (inr (inl (named value _ e))))
    | inl h2 ↦ elim (or_split _ (same value (codes "wan2")) h2) [
      | inr e ↦ inr (inr (inl (named value _ e)))
      | inl h3 ↦ elim (or_split (same value (codes "wan")) (same value (codes "lan")) h3) [
        | inl e ↦ inl (named value _ e)
        | inr e ↦ inr (inl (named value _ e))
      ]
    ]
  ]
]

test_of_IsRole : (value : Bytes) → IsRole value → valid_gateway_role value ≡ true
unfolding valid_gateway_role same
test_of_IsRole value (inl e) = rw e refl
test_of_IsRole value (inr (inl e)) = rw e refl
test_of_IsRole value (inr (inr (inl e))) = rw e refl
test_of_IsRole value (inr (inr (inr (inl e)))) = rw e refl
test_of_IsRole value (inr (inr (inr (inr e)))) = rw e refl

other_byte : (c n : ℕ) → (c == n) ≡ false → c ≡ n → ⊥
other_byte c n h = grind tests

test_of_other : (c n : ℕ) → (c ≡ n → ⊥) → (c == n) ≡ false
test_of_other c n h = grind tests

IsOneLine-of_test : (value : Bytes) → has_line_control value ≡ false → IsOneLine value
IsOneLine-of_test [] h = tt
IsOneLine-of_test (c ∷ s) h =
    let (here, rest) = or_none (c == 13 || c == 10 || c == 9) (has_line_control s) h in
    let (here1, tab) = or_none (c == 13 || c == 10) (c == 9) here in
    let (cr, lf) = or_none (c == 13) (c == 10) here1 in
    ((other_byte c 13 cr, other_byte c 10 lf, other_byte c 9 tab), IsOneLine-of_test s rest)

test_of_IsOneLine : (value : Bytes) → IsOneLine value → has_line_control value ≡ false
test_of_IsOneLine [] h = refl
test_of_IsOneLine (c ∷ s) ((cr, lf, tab), h) =
    rw (test_of_other c 13 cr, test_of_other c 10 lf, test_of_other c 9 tab) (test_of_IsOneLine s h)

read_of_test : (o : Option (List ℕ)) → is_none o ≡ false → (hw : List ℕ) × (o ≡ some hw)
read_of_test none h = cc
read_of_test (some hw) h = (hw, refl)

negated : (b : Bool) → b ≡ true → not b ≡ false
negated true h = refl
negated false h = cc

-- A percentage passes the test exactly if it is neither below 0 nor above 100.
pub bad_percent_iff : (o : Option Float64) → (bad_percent o ≡ false) ↔ InPercent o
bad_percent_iff none = (λ h. tt, λ h. refl)
bad_percent_iff (some x) =
    (λ h. or_none (less x float_zero) (less float_hundred x) h, λ h. rw (h.0, h.1) refl)

module _ (is_ipv4 : Bytes → Bool) where
  -- A text that is not refused is accepted.
  pub refused_text-IsAccepted :
      (validator : Validator) (value : Bytes)
      → refused_text is_ipv4 validator value ≡ false
      → IsAccepted is_ipv4 validator value
  refused_text-IsAccepted Validator.any_text value h = tt
  refused_text-IsAccepted Validator.interface_name value h = h
  refused_text-IsAccepted Validator.mac_address value h = read_of_test (parse_mac value) h
  refused_text-IsAccepted Validator.ipv4 value h = not-false (is_ipv4 value) h
  refused_text-IsAccepted Validator.netmask_value value h = not-false (is_ipv4 value) h
  refused_text-IsAccepted Validator.role_name value h =
      IsRole-of_test value (not-false (valid_gateway_role value) h)
  refused_text-IsAccepted Validator.group_name value h = IsOneLine-of_test value h

  -- A text that is accepted is not refused.
  pub IsAccepted-refused_text :
      (validator : Validator) (value : Bytes)
      → IsAccepted is_ipv4 validator value
      → refused_text is_ipv4 validator value ≡ false
  IsAccepted-refused_text Validator.any_text value h = refl
  IsAccepted-refused_text Validator.interface_name value h = h
  IsAccepted-refused_text Validator.mac_address value (hw, h) = rw h refl
  IsAccepted-refused_text Validator.ipv4 value h = negated (is_ipv4 value) h
  IsAccepted-refused_text Validator.netmask_value value h = negated (is_ipv4 value) h
  IsAccepted-refused_text Validator.role_name value h =
      negated (valid_gateway_role value) (test_of_IsRole value h)
  IsAccepted-refused_text Validator.group_name value h = test_of_IsOneLine value h
