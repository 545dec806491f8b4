-- ===== src/Adoption/Blocks/Last.antt =====
-- The last entry with a name decides whether the block is asked for.
use unifi_stubd.Prelude.{
  ◌≡◌, refl, sym, ap, ◌∙◌, arith, Bool, true, false, ◌||◌, List, [], ◌∷◌, if◌then◌else◌, Bool-cases,
  inl, inr,
}
use unifi_stubd.Prelude.Text.{Bytes, same, same_iff, is_empty}
use unifi_stubd.Adoption.Blocks.{ContentBlockItem, item_id, mark, marks, marked, contains_block}

-- Whether the last item with a name stands as a string, from an answer for no such item on.
pub wanted : Bytes → Bool → List ContentBlockItem → Bool
wanted id b [] = b
wanted id b (i ∷ is) = wanted id (if same (item_id i).0 id then (item_id i).1 else b) is

has_mark : Bytes → List (Bytes × Bool) → Bool
has_mark id [] = false
has_mark id ((k, b) ∷ ms) = same k id || has_mark id ms

kind : Bytes → List (Bytes × Bool) → Bool
kind id [] = false
kind id ((k, b) ∷ ms) = let rest = kind id ms in if same k id then b else rest

abbrev Distinct : List (Bytes × Bool) → Type 0
Distinct [] = Unit
Distinct ((k, b) ∷ ms) = (has_mark k ms ≡ false) × Distinct ms

same_trans : (a b c : Bytes) → same a b ≡ true → same a c ≡ same b c
same_trans a b c h = ap (λ x. same x c) ((same_iff a b).0 h)

same_sym : (a b : Bytes) → same a b ≡ same b a
same_sym a b = ground (arith, same_iff a b, same_iff b a)

has_mark-mark :
    (j id : Bytes) (v : Bool) (ms : List (Bytes × Bool))
    → same id j ≡ false
    → has_mark j (mark id v ms) ≡ has_mark j ms
unfolding has_mark mark
has_mark-mark j id v [] h = rw h
has_mark-mark j id v ((k, b) ∷ ms) h = ground (arith, has_mark-mark j id v ms h)

Distinct-mark :
    (id : Bytes) (v : Bool) (ms : List (Bytes × Bool)) → Distinct ms → Distinct (mark id v ms)
unfolding mark has_mark
Distinct-mark id v [] d = (refl, tt)
Distinct-mark id v ((k, b) ∷ ms) (fresh, d) = elim (Bool-cases (same k id)) [
  | inl e ↦ rw e (fresh, d)
  | inr e ↦ rw e (has_mark-mark k id v ms (same_sym id k ∙ e) ∙ fresh, Distinct-mark id v ms d)
]

kind-mark :
    (j id : Bytes) (v : Bool) (ms : List (Bytes × Bool))
    → kind j (mark id v ms) ≡ (if same id j then v else kind j ms)
unfolding kind mark
kind-mark j id v [] = refl
kind-mark j id v ((k, b) ∷ ms) = elim (Bool-cases (same k id)) [
  | inl e ↦ let one = same_trans k id j e in ground arith
  | inr e ↦ elim (Bool-cases (same id j)) [
    | inl t ↦
        let other : same k j ≡ false = ap (same k) (sym ((same_iff id j).0 t)) ∙ e in
        rw e (ground (arith, kind-mark j id v ms))
    | inr f ↦ rw e (ground (arith, kind-mark j id v ms))
  ]
]

contains_unmarked :
    (id : Bytes) (ms : List (Bytes × Bool))
    → has_mark id ms ≡ false
    → contains_block (marked ms) id ≡ false
unfolding has_mark marked contains_block
contains_unmarked id [] h = refl
contains_unmarked id ((k, true) ∷ ms) h = ground (arith, contains_unmarked id ms)
contains_unmarked id ((k, false) ∷ ms) h = ground (arith, contains_unmarked id ms)

contains-marked :
    (id : Bytes) (ms : List (Bytes × Bool))
    → Distinct ms
    → contains_block (marked ms) id ≡ kind id ms
unfolding marked contains_block kind
contains-marked id [] d = refl
contains-marked id ((k, true) ∷ ms) (fresh, d) = ground (arith, contains-marked id ms d)
contains-marked id ((k, false) ∷ ms) (fresh, d) = elim (Bool-cases (same k id)) [
  | inl e ↦
      let unmarked : has_mark id ms ≡ false =
        ap (λ x. has_mark x ms) (sym ((same_iff k id).0 e)) ∙ fresh in
      rw e (contains_unmarked id ms unmarked)
  | inr e ↦ rw e (contains-marked id ms d)
]

Distinct-if :
    (skip : Bool) (id : Bytes) (v : Bool) (ms : List (Bytes × Bool))
    → Distinct ms
    → Distinct (if skip then ms else mark id v ms)
Distinct-if true id v ms d = d
Distinct-if false id v ms d = Distinct-mark id v ms d

-- One turn of the loop, for one name.
kind_turn :
    (j id : Bytes) (v : Bool) (ms : List (Bytes × Bool))
    → is_empty j ≡ false
    → kind j (if is_empty id then ms else mark id v ms) ≡ (if same id j then v else kind j ms)
unfolding same
kind_turn [] id v ms h = cc
kind_turn (c ∷ j) [] v ms h = refl
kind_turn (c ∷ j) (d ∷ id) v ms h = kind-mark (c ∷ j) (d ∷ id) v ms

Distinct-marks :
    (ms : List (Bytes × Bool)) (is : List ContentBlockItem) → Distinct ms → Distinct (marks ms is)
unfolding marks
Distinct-marks ms [] d = d
Distinct-marks ms (i ∷ is) d =
    Distinct-marks (if is_empty (item_id i).0 then ms else mark (item_id i).0 (item_id i).1 ms) is
      (Distinct-if (is_empty (item_id i).0) (item_id i).0 (item_id i).1 ms d)

kind-marks :
    (id : Bytes) (ms : List (Bytes × Bool)) (is : List ContentBlockItem)
    → is_empty id ≡ false
    → kind id (marks ms is) ≡ wanted id (kind id ms) is
unfolding marks wanted
kind-marks id ms [] h = refl
kind-marks id ms (i ∷ is) h =
    kind-marks id (if is_empty (item_id i).0 then ms else mark (item_id i).0 (item_id i).1 ms) is h
    ∙ ap (λ b. wanted id b is) (kind_turn id (item_id i).0 (item_id i).1 ms h)

-- A block is among the identifiers that `jsonContentBlockStringIDs` returns exactly if the last item
-- with its name stands as a string.
pub contains_block-marked :
    (id : Bytes) (items : List ContentBlockItem)
    → is_empty id ≡ false
    → contains_block (marked (marks [] items)) id ≡ wanted id false items
unfolding kind
contains_block-marked id items h =
    contains-marked id (marks [] items) (Distinct-marks [] items tt) ∙ kind-marks id [] items h
