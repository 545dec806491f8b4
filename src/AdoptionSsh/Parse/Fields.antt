-- ===== src/AdoptionSsh/Parse/Fields.antt =====
-- The size of what a command line is split into.
use unifi_stubd.Prelude.{
  ℕ, suc, ◌+◌, ◌-◌, ◌≤◌, ◌≡◌, arith, Bool, true, false, List, [], ◌∷◌, ◌++◌, length, length-append,
}
use unifi_stubd.Prelude.Text.{Bytes, codes, join}
use unifi_stubd.AdoptionSsh.Parse.{
  Quote, Act, act_of, next_quote, next_current, next_escaped, finish, flush, fields_from,
  command_fields,
}

-- The bytes of fields, each with one separator.
abbrev pub weight : List Bytes → ℕ
weight [] = 0
weight (f ∷ fs) = suc (length f) + weight fs

abbrev pending : Bool → ℕ
pending true = 1
pending false = 0

weight-flush : (s : Bytes) (fs : List Bytes) → weight (flush s fs) ≤ suc (length s) + weight fs
weight-flush [] fs = omega arith
weight-flush (c ∷ s) fs = omega arith

length-snoc : (s : Bytes) (c : ℕ) → length (s ++ c ∷ []) ≡ suc (length s)
length-snoc s c = omega (arith, length-append s (c ∷ []))

-- One turn adds nothing to the size.
weight-finish :
    (a : Act) (current rest_of : Bytes) (c : ℕ) (rest : List Bytes)
    → weight rest
      ≤ suc (length (next_current a current c) + length rest_of) + pending (next_escaped a)
    → weight (finish a current rest) ≤ suc (length current + suc (length rest_of))
weight-finish Act.escape current s c rest h = omega arith
weight-finish Act.close current s c rest h = omega arith
weight-finish Act.opens current s c rest h = omega arith
weight-finish Act.blank current s c rest h = omega (arith, weight-flush current rest)
weight-finish Act.put current s c rest h = omega (arith, length-snoc current c)

weight-fields_from :
    (q : Quote) (escaped : Bool) (current s : Bytes)
    → weight (fields_from q escaped current s) ≤ suc (length current + length s) + pending escaped
unfolding fields_from
weight-fields_from q true current [] =
    omega (arith, length-snoc current b'\\', weight-flush (current ++ b'\\' ∷ []) [])
weight-fields_from q false current [] = omega (arith, weight-flush current [])
weight-fields_from q true current (c ∷ s) =
    omega (arith, length-snoc current c, weight-fields_from q false (current ++ c ∷ []) s)
weight-fields_from q false current (c ∷ s) =
    let a = act_of q c in
    let shorter =
      weight-finish a current s c _
        (weight-fields_from (next_quote a q c) (next_escaped a) (next_current a current c) s) in
    omega arith

pub length-join : (fs : List Bytes) → length (join (codes " ") fs) ≤ weight fs - 1
unfolding join
length-join [] = omega arith
length-join (f ∷ []) = omega arith
length-join (f ∷ g ∷ fs) =
    omega (arith, length-append f (codes " " ++ join (codes " ") (g ∷ fs)), length-join (g ∷ fs))

pub weight-command_fields : (s : Bytes) → weight (command_fields s) ≤ suc (length s)
unfolding command_fields
weight-command_fields s = omega (arith, weight-fields_from Quote.bare false [] s)
