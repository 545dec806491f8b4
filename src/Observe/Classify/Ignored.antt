-- ===== src/Observe/Classify/Ignored.antt =====
-- Members that the operator ignores.
use mathlib.Core.Path.{subst}
use unifi_stubd.Prelude.{true-false}
use unifi_stubd.Prelude.{
  ◌≡◌, ◌⊎◌, refl, sym, ap, ◌∙◌, inl, inr, true, false, List, [], ◌∷◌, Option, none, some,
  Bool-cases, by_branch, else_branch,
}
use unifi_stubd.Prelude.Text.{Bytes, same, same_iff, trim_space}
use unifi_stubd.Prelude.Maps.{lookup, put, member}
use unifi_stubd.Observe.{BridgeMemberRole}
use unifi_stubd.Observe.Classify.{
  Roles, member_name_key, lookup_folded, or_else, find_member, role_or_unknown, member_role,
  ignored_member_set, mark_ignored, unless_found, add_ignored, no_texts, apply_ignored_members,
}
use unifi_stubd.Observe.Classify.Marked.{
  OneOf, IsPlain, Marks, IsPlain-key, ignored_member_set-member, mark_ignored-Marks,
  Marks-add_ignored, lookup-Marks, lookup_folded-Marks,
}

-- A member has a role under its name in any spelling.
abbrev Found : Bytes → Roles → Type 0
Found name m = (r : BridgeMemberRole) × (lookup_folded name m ≡ some r)

Found-head :
    (name k : Bytes) (r : BridgeMemberRole) (m : Roles)
    → same (member_name_key k) name ≡ true
    → Found name ((k, r) ∷ m)
Found-head name k r m hit =
    by_branch (λ (o : Option BridgeMemberRole). (x : BridgeMemberRole) × (o ≡ some x))
      (same (member_name_key k) name) (some r) (lookup_folded name m) (λ h. (r, refl))
      (λ miss. absurd (true-false (sym hit ∙ miss)))

Found-tail :
    (name k : Bytes) (r : BridgeMemberRole) (m : Roles) → Found name m → Found name ((k, r) ∷ m)
Found-tail name k r m f =
    by_branch (λ (o : Option BridgeMemberRole). (x : BridgeMemberRole) × (o ≡ some x))
      (same (member_name_key k) name) (some r) (lookup_folded name m) (λ h. (r, refl)) (λ miss. f)

Found-uncons :
    (name k : Bytes) (r : BridgeMemberRole) (m : Roles)
    → Found name ((k, r) ∷ m)
    → (same (member_name_key k) name ≡ true) ⊎ Found name m
Found-uncons name k r m (x, e) = elim (Bool-cases (same (member_name_key k) name)) [
  | inl hit ↦ inl hit
  | inr miss ↦
      inr (x, else_branch (same (member_name_key k) name) (some r) (lookup_folded name m) miss e)
]

Found-put_other :
    (name key : Bytes) (w : BridgeMemberRole) (m : Roles) → Found name m → Found name (put key w m)
Found-put_other name key w [] f = Found-tail name key w [] f
Found-put_other name key w ((k, r) ∷ m) f =
    let rest = put key w m in
    elim (Found-uncons name k r m f) [
      | inl hit ↦
          by_branch (Found name) (same k key) ((k, w) ∷ m) ((k, r) ∷ rest)
            (λ replaced. Found-head name k w m hit) (λ other. Found-head name k r rest hit)
      | inr later ↦
          by_branch (Found name) (same k key) ((k, w) ∷ m) ((k, r) ∷ rest)
            (λ replaced. Found-tail name k w m later)
            (λ other. Found-tail name k r rest (Found-put_other name key w m later))
    ]

Found-put :
    (name : Bytes) (w : BridgeMemberRole) (m : Roles)
    → member_name_key name ≡ name
    → Found name (put name w m)
Found-put name w [] plain =
    Found-head name name w [] ((same_iff (member_name_key name) name).1 plain)
Found-put name w ((k, r) ∷ m) plain =
    by_branch (Found name) (same k name) ((k, w) ∷ m) ((k, r) ∷ put name w m)
      (λ replaced. Found-head name k w m (
        (same_iff (member_name_key k) name).1
          (ap member_name_key ((same_iff k name).0 replaced) ∙ plain)))
      (λ other. Found-tail name k r (put name w m) (Found-put name w m plain))

Found-unless_found :
    (name key : Bytes) (found : Option BridgeMemberRole) (m : Roles)
    → Found name m
    → Found name (unless_found key found m)
Found-unless_found name key none m f = Found-put_other name key BridgeMemberRole.ignored m f
Found-unless_found name key (some r) m f = f

Found-unless_found_self :
    (name : Bytes) (found : Option BridgeMemberRole) (m : Roles)
    → found ≡ lookup_folded name m
    → member_name_key name ≡ name
    → Found name (unless_found name found m)
Found-unless_found_self name none m e plain = Found-put name BridgeMemberRole.ignored m plain
Found-unless_found_self name (some r) m e plain = (r, sym e)

Found-add_ignored_other :
    (name : Bytes) (keys : List Bytes) (m : Roles) → Found name m → Found name (add_ignored keys m)
unfolding add_ignored
Found-add_ignored_other name [] m f = f
Found-add_ignored_other name (k ∷ ks) m f =
    let found = lookup_folded (member_name_key k) m in
    Found-add_ignored_other name ks (unless_found k found m) (Found-unless_found name k found m f)

Found-add_ignored :
    (name : Bytes) (keys : List Bytes) (m : Roles)
    → member_name_key name ≡ name
    → member name keys ≡ true
    → Found name (add_ignored keys m)
unfolding add_ignored
Found-add_ignored name [] m plain inside = cc
Found-add_ignored name (k ∷ ks) m plain inside =
    let found = lookup_folded (member_name_key k) m in
    elim (Bool-cases (same k name)) [
      | inl hit ↦
          let here : k ≡ name = (same_iff k name).0 hit in
          Found-add_ignored_other name ks (unless_found k found m) (
            subst
              (λ (x : Bytes). Found name (unless_found x (lookup_folded (member_name_key x) m) m))
              (sym here)
              (Found-unless_found_self name (lookup_folded (member_name_key name) m) m
                (ap (λ (x : Bytes). lookup_folded x m) plain) plain))
      | inr miss ↦
          Found-add_ignored name ks (unless_found k found m) plain
            (else_branch (same k name) true (member name ks) miss inside)
    ]

some_texts :
    (name : Bytes) (hidden : List Bytes) → member name hidden ≡ true → no_texts hidden ≡ false
some_texts name [] h = cc
some_texts name (t ∷ ts) h = refl

role_of_Found :
    (name : Bytes) (hidden : List Bytes) (m : Roles) (exact folded : Option BridgeMemberRole)
    → IsPlain name
    → Marks hidden m
    → member name hidden ≡ true
    → lookup (trim_space name) m ≡ exact
    → lookup_folded (member_name_key name) m ≡ folded
    → Found name m
    → role_or_unknown (or_else exact folded) ≡ BridgeMemberRole.ignored
role_of_Found name hidden m (some r) folded plain marks inside e e' f =
    lookup-Marks hidden (trim_space name) m r marks
      (subst (λ (x : Bytes). member x hidden ≡ true)
        (sym (ap member_name_key plain.trimmed ∙ IsPlain-key name plain)) inside)
      e
role_of_Found name hidden m none (some r) plain marks inside e e' f =
    lookup_folded-Marks hidden name m r marks inside
      (ap (λ (x : Bytes). lookup_folded x m) (sym (IsPlain-key name plain)) ∙ e')
role_of_Found name hidden m none none plain marks inside e e' (x, found) =
    let gone : lookup_folded name m ≡ none =
      ap (λ (y : Bytes). lookup_folded y m) (sym (IsPlain-key name plain)) ∙ e' in
    cc

-- A member in the operator's list, in whatever spelling of case and blanks, has the role `ignored`
-- afterwards, whatever its role was before and whether it had one; its name stands without blanks
-- around it and in lower case.
pub member_role-ignored :
    (roles : Roles) (values : List Bytes) (value name : Bytes)
    → IsPlain name
    → OneOf value values
    → member_name_key value ≡ name
    → member_role (apply_ignored_members roles values) name ≡ BridgeMemberRole.ignored
unfolding apply_ignored_members member_role
member_role-ignored roles values value name plain listed spelled =
    let hidden = ignored_member_set values in
    let inside = ignored_member_set-member values value name listed spelled plain.named in
    let marked = mark_ignored hidden roles in
    let out = add_ignored hidden marked in
    by_branch (λ (m : Roles). role_or_unknown (find_member name m) ≡ BridgeMemberRole.ignored)
      (no_texts hidden) roles out
      (λ nothing. absurd (true-false (sym nothing ∙ some_texts name hidden inside)))
      (λ listed_some.
        role_of_Found name hidden out (lookup (trim_space name) out)
          (lookup_folded (member_name_key name) out) plain
          (Marks-add_ignored hidden hidden marked (mark_ignored-Marks hidden roles)) inside refl
          refl (Found-add_ignored name hidden marked (IsPlain-key name plain) inside))
