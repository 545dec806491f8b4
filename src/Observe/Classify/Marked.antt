-- ===== src/Observe/Classify/Marked.antt =====
-- The set of ignored names, and the roles that it marks.
use mathlib.Core.Path.{subst}
use unifi_stubd.Prelude.{true-false, some-injective}
use unifi_stubd.Prelude.{
  ◌≡◌, ◌⊎◌, refl, sym, ap, ◌∙◌, inl, inr, Bool, true, false, ◌||◌, List, [], ◌∷◌, Option, none,
  some, map, Bool-cases, by_branch, then_branch, else_branch,
}
use unifi_stubd.Prelude.Text.{Bytes, same, same_iff, is_empty, trim_space, lower_byte}
use unifi_stubd.Prelude.Maps.{member_there, member_here, lookup, put, member}
use unifi_stubd.Observe.{BridgeMemberRole}
use unifi_stubd.Observe.Classify.{
  Roles, member_name_key, lookup_folded, ignored_member_set, mark_ignored, unless_found,
  add_ignored,
}

abbrev pub OneOf : Bytes → List Bytes → Type 0
OneOf v [] = ⊥
OneOf v (w ∷ ws) = (w ≡ v) ⊎ OneOf v ws

-- The name of a member without blanks around it and in lower case.
pub record IsPlain (name : Bytes) : Type 0 where
  pub trimmed : trim_space name ≡ name
  pub lowered : map lower_byte name ≡ name
  pub named : is_empty name ≡ false

pub IsPlain-key : (name : Bytes) → IsPlain name → member_name_key name ≡ name
IsPlain-key name plain = ap (map lower_byte) plain.trimmed ∙ plain.lowered

or_right : (a b : Bool) → a ≡ false → (a || b) ≡ true → b ≡ true
or_right true b e h = cc
or_right false b e h = h

-- Each ignored name is in the set.
pub ignored_member_set-member :
    (values : List Bytes) (value name : Bytes)
    → OneOf value values
    → member_name_key value ≡ name
    → is_empty name ≡ false
    → member name (ignored_member_set values) ≡ true
unfolding ignored_member_set
ignored_member_set-member [] value name h e named = absurd h
ignored_member_set-member (w ∷ ws) value name h e named =
    let rest = ignored_member_set ws in
    let key = member_name_key w in
    by_branch (λ (ks : List Bytes). member name ks ≡ true) (is_empty key || member key rest) rest
      (key ∷ rest)
      (λ known. elim h [
        | inl first ↦
            let same_key : key ≡ name = ap member_name_key first ∙ e in
            or_right (is_empty name) (member name rest) named
              (subst (λ (k : Bytes). (is_empty k || member k rest) ≡ true) same_key known)
        | inr later ↦ ignored_member_set-member ws value name later e named
      ])
      (λ new. elim h [
        | inl first ↦
            let same_key : key ≡ name = ap member_name_key first ∙ e in
            subst (λ (k : Bytes). member name (k ∷ rest) ≡ true) (sym same_key)
              (member_here name rest)
        | inr later ↦
            member_there name key rest (ignored_member_set-member ws value name later e named)
      ])

-- The roles of the members in a set are all `ignored`.
abbrev pub Marks : List Bytes → Roles → Type 0
Marks hidden [] = Unit
Marks hidden ((k, r) ∷ m) =
    (member (member_name_key k) hidden ≡ true → r ≡ BridgeMemberRole.ignored) × Marks hidden m

pub mark_ignored-Marks : (hidden : List Bytes) (m : Roles) → Marks hidden (mark_ignored hidden m)
unfolding mark_ignored
mark_ignored-Marks hidden [] = tt
mark_ignored-Marks hidden ((k, r) ∷ m) = (
  by_branch
      (λ (x : BridgeMemberRole).
        member (member_name_key k) hidden ≡ true → x ≡ BridgeMemberRole.ignored)
      (member (member_name_key k) hidden) BridgeMemberRole.ignored r (λ hit h. refl)
      (λ miss h. absurd (true-false (sym h ∙ miss))),
  mark_ignored-Marks hidden m,
)

Marks-put :
    (hidden : List Bytes) (key : Bytes) (m : Roles)
    → Marks hidden m
    → Marks hidden (put key BridgeMemberRole.ignored m)
Marks-put hidden key [] h = (λ e. refl, tt)
Marks-put hidden key ((k, r) ∷ m) (a, h) =
    by_branch (Marks hidden) (same k key) ((k, BridgeMemberRole.ignored) ∷ m)
      ((k, r) ∷ put key BridgeMemberRole.ignored m) (λ hit. (λ e. refl, h))
      (λ miss. (a, Marks-put hidden key m h))

Marks-unless_found :
    (hidden : List Bytes) (key : Bytes) (found : Option BridgeMemberRole) (m : Roles)
    → Marks hidden m
    → Marks hidden (unless_found key found m)
Marks-unless_found hidden key none m h = Marks-put hidden key m h
Marks-unless_found hidden key (some r) m h = h

pub Marks-add_ignored :
    (hidden keys : List Bytes) (m : Roles) → Marks hidden m → Marks hidden (add_ignored keys m)
unfolding add_ignored
Marks-add_ignored hidden [] m h = h
Marks-add_ignored hidden (k ∷ ks) m h =
    Marks-add_ignored hidden ks (unless_found k (lookup_folded (member_name_key k) m) m)
      (Marks-unless_found hidden k (lookup_folded (member_name_key k) m) m h)

pub lookup-Marks :
    (hidden : List Bytes) (key : Bytes) (m : Roles) (role : BridgeMemberRole)
    → Marks hidden m
    → member (member_name_key key) hidden ≡ true
    → lookup key m ≡ some role
    → role ≡ BridgeMemberRole.ignored
lookup-Marks hidden key [] role h inside e = cc
lookup-Marks hidden key ((k, r) ∷ m) role (a, h) inside e = elim (Bool-cases (same k key)) [
  | inl hit ↦
      let here : k ≡ key = (same_iff k key).0 hit in
      let found : r ≡ role =
        some-injective (then_branch (same k key) (some r) (lookup key m) hit e) in
      sym found
      ∙ a (subst (λ (x : Bytes). member (member_name_key x) hidden ≡ true) (sym here) inside)
  | inr miss ↦
      lookup-Marks hidden key m role h inside
        (else_branch (same k key) (some r) (lookup key m) miss e)
]

pub lookup_folded-Marks :
    (hidden : List Bytes) (name : Bytes) (m : Roles) (role : BridgeMemberRole)
    → Marks hidden m
    → member name hidden ≡ true
    → lookup_folded name m ≡ some role
    → role ≡ BridgeMemberRole.ignored
lookup_folded-Marks hidden name [] role h inside e = cc
lookup_folded-Marks hidden name ((k, r) ∷ m) role (a, h) inside e =
    let key = member_name_key k in
    elim (Bool-cases (same key name)) [
      | inl hit ↦
          let here : key ≡ name = (same_iff key name).0 hit in
          let found : r ≡ role =
            some-injective (then_branch (same key name) (some r) (lookup_folded name m) hit e) in
          sym found ∙ a (subst (λ (x : Bytes). member x hidden ≡ true) (sym here) inside)
      | inr miss ↦
          lookup_folded-Marks hidden name m role h inside
            (else_branch (same key name) (some r) (lookup_folded name m) miss e)
    ]
