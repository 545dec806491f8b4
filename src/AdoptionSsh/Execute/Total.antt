-- ===== src/AdoptionSsh/Execute/Total.antt =====
-- Fuel of one more than the length of a command line is enough: what stands behind `sh -c` is shorter.
use unifi_stubd.Prelude.{
  ℕ, zero, suc, ◌≤◌, ◌<◌, ◌≡◌, refl, inl, inr, arith, Bool, true, false, ◌&&◌, ◌==◌, Option, some,
  List, [], ◌∷◌, ◌++◌, drop, length, Bool-cases,
}
use unifi_stubd.Prelude.Text.{Bytes, codes, same, is_empty, join, trim_space, length-trim_space_le}
use unifi_stubd.Prelude.Text.Lines.{split_byte, AllShort, AllShort-mono, split_byte-AllShort}
use unifi_stubd.AdoptionSsh.Parse.{
  replace_separators, begins_with, trimmed_parts, split_commands, command_fields,
}
use unifi_stubd.AdoptionSsh.Parse.Fields.{weight, length-join, weight-command_fields}
use unifi_stubd.AdoptionSsh.State.{Handler, World, Run}
use unifi_stubd.AdoptionSsh.Handler.{said}
use unifi_stubd.AdoptionSsh.Execute.{
  is_shell, audited, execute_args, execute_fields, execute_parts, execute,
}

length-replace_separators :
    (skip : Bool) (s : Bytes) → length (replace_separators skip s) ≤ length s
unfolding replace_separators
length-replace_separators skip [] = omega arith
length-replace_separators true (c ∷ s) = omega (arith, length-replace_separators false s)
length-replace_separators false (c ∷ s) =
    omega (arith, length-replace_separators (c == b'&' && begins_with b'&' s) s)

trimmed_parts-AllShort : (n : ℕ) (ps : List Bytes) → AllShort n ps → AllShort n (trimmed_parts ps)
unfolding trimmed_parts
trimmed_parts-AllShort n [] h = tt
trimmed_parts-AllShort n (p ∷ ps) h =
    let rest = trimmed_parts-AllShort n ps h.1 in
    elim (Bool-cases (is_empty (trim_space p))) [
      | inl e ↦ rw e rest
      | inr e ↦ rw e (omega (arith, length-trim_space_le p), rest)
    ]

split_commands-AllShort : (s : Bytes) → AllShort (length s) (split_commands s)
unfolding split_commands
split_commands-AllShort s =
    let replaced = replace_separators false s in
    trimmed_parts-AllShort (length s) (split_byte b';' replaced) (
      AllShort-mono (length replaced) (length s) (split_byte b';' replaced)
        (length-replace_separators false s) (split_byte-AllShort b';' replaced))

-- `Execute` ends on every command line that is shorter than `n`.
abbrev pub Ends : (Bytes → World → Option Run) → ℕ → Type 0
Ends again n = (c : Bytes) → length c < n → (w : World) → (r : Run) × (again c w ≡ some r)

-- What stands behind `sh -c` is shorter than the fields.
shell_shorter :
    (args : List Bytes) (n : ℕ)
    → is_shell args ≡ true
    → weight args ≤ suc n
    → length (join (codes " ") (drop 2 args)) < n
shell_shorter (a ∷ b ∷ c ∷ args) n h fits = omega (arith, length-join (c ∷ args))
shell_shorter [] n h fits = absurd (ground arith)
shell_shorter (a ∷ []) n h fits = absurd (ground arith)
shell_shorter (a ∷ b ∷ []) n h fits = absurd (ground arith)

module _ (h : Handler) where
  args-Ends :
      (again : Bytes → World → Option Run) (n : ℕ) (args : List Bytes) (w : World)
      → Ends again n
      → weight args ≤ suc n
      → (r : Run) × (execute_args h again args w ≡ some r)
  unfolding execute_args
  args-Ends again n [] w ends fits = (said (codes "OK\n") w, refl)
  args-Ends again n (a ∷ args) w ends fits = elim (Bool-cases (is_shell (a ∷ args))) [
    | inl t ↦ let (r, ran) = ends _ (shell_shorter (a ∷ args) n t fits) w in (r, rw t ran)
    | inr f ↦ (audited h (a ∷ args) w, rw f)
  ]

  fields-Ends :
      (again : Bytes → World → Option Run) (n : ℕ) (args : List Bytes) (w : World)
      → Ends again n
      → weight args ≤ suc n
      → (r : Run) × (execute_fields h again args w ≡ some r)
  unfolding execute_fields
  fields-Ends again n [] w ends fits = (said [] w, refl)
  fields-Ends again n (a ∷ args) w ends fits = elim (Bool-cases (same a (codes "sudo"))) [
    | inl t ↦ let (r, ran) = args-Ends again n args w ends (omega arith) in (r, rw t ran)
    | inr f ↦ let (r, ran) = args-Ends again n (a ∷ args) w ends fits in (r, rw f ran)
  ]

  parts-Ends :
      (again : Bytes → World → Option Run) (n : ℕ) (ps : List Bytes) (w : World)
      → Ends again n
      → AllShort n ps
      → (r : Run) × (execute_parts h again ps w ≡ some r)
  unfolding execute_parts
  parts-Ends again n [] w ends short = (said [] w, refl)
  parts-Ends again n (p ∷ ps) w ends short =
      let (first, ran) =
        fields-Ends again n (command_fields (trim_space p)) w ends
          (omega (arith, weight-command_fields (trim_space p), length-trim_space_le p)) in
      let (last, rest) = parts-Ends again n ps first.world ends short.1 in
      elim (Bool-cases (first.code == 0)) [
        | inl t ↦ (record last { text = first.text ++ last.text }, rw (ran, t, rest))
        | inr f ↦ (first, rw (ran, f))
      ]

  -- With fuel above the length of the command line `Execute` always ends with an output and a code.
  pub execute-Ends : (n : ℕ) → Ends (execute h n) n
  unfolding execute
  execute-Ends zero c short w = absurd (omega arith)
  execute-Ends (suc n) c short w =
      parts-Ends (execute h n) n (split_commands c) w (execute-Ends n)
        (AllShort-mono (length c) n (split_commands c) (omega arith) (split_commands-AllShort c))
