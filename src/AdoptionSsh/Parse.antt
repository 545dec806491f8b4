-- ===== src/AdoptionSsh/Parse.antt =====
-- internal/adoptionssh/parse.go: the splitting of a command line, over the bytes of a UTF-8 text,
-- whose special characters are all ASCII.
pub mod Fields
pub mod Quoting
use unifi_stubd.Prelude.{
  ℕ, Bool, true, false, not, ◌&&◌, ◌||◌, List, [], ◌∷◌, ◌++◌, ◌==◌, if◌then◌else◌,
}
use unifi_stubd.Prelude.Text.{Bytes, codes, is_empty, has_prefix, contains, trim_space}
use unifi_stubd.Prelude.Text.Lines.{split_byte}

abbrev pub begins_with : ℕ → Bytes → Bool
begins_with c [] = false
begins_with c (d ∷ s) = d == c

-- The replacer of `&&` and of the line break; `skip` is set behind the first `&` of a pair.
unfoldable pub replace_separators : Bool → Bytes → Bytes
replace_separators skip [] = []
replace_separators true (c ∷ s) = replace_separators false s
replace_separators false (c ∷ s) =
    let both = c == b'&' && begins_with b'&' s in
    let rest = replace_separators both s in (if both || c == b'\n' then b';' else c) ∷ rest

-- The parts that are not empty, trimmed.
unfoldable pub trimmed_parts : List Bytes → List Bytes
trimmed_parts [] = []
trimmed_parts (p ∷ ps) =
    let rest = trimmed_parts ps in if is_empty (trim_space p) then rest else trim_space p ∷ rest

-- `splitCommands`.
unfoldable pub split_commands : Bytes → List Bytes
split_commands command = trimmed_parts (split_byte b';' (replace_separators false command))

-- The variable `quote`: none, or the byte that ends the quotation.
pub data Quote : Type 0 where
  bare : Quote
  quoted : ℕ → Quote

-- `flush`, in front of the fields that come after.
abbrev pub flush : Bytes → List Bytes → List Bytes
flush [] rest = rest
flush (c ∷ s) rest = (c ∷ s) ∷ rest

abbrev pub is_blank : ℕ → Bool
is_blank c = c == b' ' || c == b'\t' || c == b'\r' || c == b'\n'

abbrev pub is_quote : ℕ → Bool
is_quote c = c == b'\'' || c == b'"'

-- The cases of the `switch` for a byte that is not escaped.
pub data Act : Type 0 where
  escape : Act
  close : Act
  opens : Act
  blank : Act
  put : Act

unfoldable pub act_of : Quote → ℕ → Act
act_of q c = if c == b'\\' then Act.escape else elim q [
  | quoted e ↦ if c == e then Act.close else Act.put
  | bare ↦ if is_quote c then Act.opens else if is_blank c then Act.blank else Act.put
]

abbrev pub next_quote : Act → Quote → ℕ → Quote
next_quote Act.close q c = Quote.bare
next_quote Act.opens q c = Quote.quoted c
next_quote _ q c = q

abbrev pub next_current : Act → Bytes → ℕ → Bytes
next_current Act.put current c = current ++ c ∷ []
next_current Act.blank current c = []
next_current _ current c = current

abbrev pub next_escaped : Act → Bool
next_escaped Act.escape = true
next_escaped _ = false

-- What a case adds in front of the fields that come after.
abbrev pub finish : Act → Bytes → List Bytes → List Bytes
finish Act.blank current rest = flush current rest
finish _ current rest = rest

-- The loop of `CommandFields`, with what has been written to `current`.
unfoldable pub fields_from : Quote → Bool → Bytes → Bytes → List Bytes
fields_from q true current [] = flush (current ++ b'\\' ∷ []) []
fields_from q false current [] = flush current []
fields_from q true current (c ∷ s) = fields_from q false (current ++ c ∷ []) s
fields_from q false current (c ∷ s) =
    let a = act_of q c in
    finish a current (fields_from (next_quote a q c) (next_escaped a) (next_current a current c) s)

-- `CommandFields`.
unfoldable pub command_fields : Bytes → List Bytes
command_fields input = fields_from Quote.bare false [] input

-- `findInformURL`.
unfoldable pub find_inform_url : List Bytes → Bytes
find_inform_url [] = []
find_inform_url (a ∷ args) =
    let rest = find_inform_url args in
    if (has_prefix a (codes "http://") || has_prefix a (codes "https://"))
      && contains a (codes "/inform")
    then a
    else rest
