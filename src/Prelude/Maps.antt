-- ===== src/Prelude/Maps.antt =====
-- Go maps from texts: lists of entries, the last one written for a key in the place of the first.
use mathlib.Core.Bool.{Bool, true, false}
use mathlib.Core.List.{List, [], ◌∷◌}
use mathlib.Core.Option.{Option, none, some}
use unifi_stubd.Prelude.{◌≡◌, refl, by_branch, if◌then◌else◌}
use unifi_stubd.Prelude.Text.{Bytes, same, same_refl}

module _ {V : Type 0} where
  abbrev pub lookup : Bytes → List (Bytes × V) → Option V
  lookup key [] = none
  lookup key ((k, v) ∷ m) = let rest = lookup key m in if same k key then some v else rest

  abbrev pub put : Bytes → V → List (Bytes × V) → List (Bytes × V)
  put key v [] = (key, v) ∷ []
  put key v ((k, w) ∷ m) =
      let rest = put key v m in if same k key then (k, v) ∷ m else (k, w) ∷ rest

  abbrev pub keys : List (Bytes × V) → List Bytes
  keys [] = []
  keys ((k, v) ∷ m) = k ∷ keys m

  abbrev pub is_empty_map : List (Bytes × V) → Bool
  is_empty_map [] = true
  is_empty_map (e ∷ m) = false

-- A set of texts, as the keys that are true.
abbrev pub member : Bytes → List Bytes → Bool
member key [] = false
member key (k ∷ ks) = let rest = member key ks in if same k key then true else rest

pub member_there :
    (key k : Bytes) (ks : List Bytes) → member key ks ≡ true → member key (k ∷ ks) ≡ true
member_there key k ks h =
    by_branch (λ (b : Bool). b ≡ true) (same k key) true (member key ks) (λ hit. refl) (λ miss. h)

pub member_here : (key : Bytes) (ks : List Bytes) → member key (key ∷ ks) ≡ true
member_here key ks = let hit = same_refl key in cc
