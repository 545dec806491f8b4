-- ===== src/Prelude/Text/Lines.antt =====
-- `strings.Split` and `strings.Cut` at one byte.
use Prim.Native.Nat.{ℕ, suc, ◌≤◌}
use mathlib.Core.Path.{◌≡◌}
use mathlib.Core.Bool.{false}
use mathlib.Core.List.{List, [], ◌∷◌, ◌++◌}
use mathlib.Core.Option.{Option, none, some}
use native.Mathlib.Omega.{arith}
use unifi_stubd.Prelude.{◌==◌, if◌then◌else◌, length, Bool-cases, inl, inr}

-- No byte of the text is `c`.
abbrev pub Lacks : ℕ → List ℕ → Type 0
Lacks c [] = Unit
Lacks c (x ∷ s) = (x == c) ≡ false × Lacks c s

-- Puts a byte in front of the first part.
abbrev push_front : ℕ → List (List ℕ) → List (List ℕ)
push_front c [] = (c ∷ []) ∷ []
push_front c (p ∷ ps) = (c ∷ p) ∷ ps

-- `strings.Split(s, sep)`: one part more than there are separators.
unfoldable pub split_byte : ℕ → List ℕ → List (List ℕ)
split_byte sep [] = [] ∷ []
split_byte sep (c ∷ s) =
    let rest = split_byte sep s in if c == sep then [] ∷ rest else push_front c rest

-- `before, after, found := strings.Cut(s, sep)`; `none` where `found` is false.
unfoldable pub cut_byte : ℕ → List ℕ → Option (List ℕ × List ℕ)
cut_byte sep [] = none
cut_byte sep (c ∷ s) =
    if c == sep
    then some ([], s)
    else elim (cut_byte sep s) [ none ↦ none | some (before, after) ↦ some (c ∷ before, after) ]

pub split_byte-append :
    (sep : ℕ) (s rest : List ℕ)
    → Lacks sep s
    → split_byte sep (s ++ sep ∷ rest) ≡ s ∷ split_byte sep rest
unfolding split_byte
split_byte-append sep [] rest h = ground arith
split_byte-append sep (c ∷ s) rest h = ground (arith, split_byte-append sep s rest h.1)

pub cut_byte-append :
    (sep : ℕ) (s rest : List ℕ) → Lacks sep s → cut_byte sep (s ++ sep ∷ rest) ≡ some (s, rest)
unfolding cut_byte
cut_byte-append sep [] rest h = ground arith
cut_byte-append sep (c ∷ s) rest h = ground (arith, cut_byte-append sep s rest h.1)

-- No part is longer than `n`.
abbrev pub AllShort : ℕ → List (List ℕ) → Type 0
AllShort n [] = Unit
AllShort n (p ∷ ps) = (length p ≤ n) × AllShort n ps

pub AllShort-mono : (m n : ℕ) (ps : List (List ℕ)) → m ≤ n → AllShort m ps → AllShort n ps
AllShort-mono m n [] le h = tt
AllShort-mono m n (p ∷ ps) le h = (omega arith, AllShort-mono m n ps le h.1)

push_front-AllShort :
    (c n : ℕ) (ps : List (List ℕ)) → AllShort n ps → AllShort (suc n) (push_front c ps)
push_front-AllShort c n [] h = (omega arith, tt)
push_front-AllShort c n (p ∷ ps) h = (omega arith, AllShort-mono n (suc n) ps (omega arith) h.1)

pub split_byte-AllShort : (sep : ℕ) (s : List ℕ) → AllShort (length s) (split_byte sep s)
unfolding split_byte
split_byte-AllShort sep [] = (omega arith, tt)
split_byte-AllShort sep (c ∷ s) =
    let rest = split_byte-AllShort sep s in
    elim (Bool-cases (c == sep)) [
      | inl e ↦ rw e (
        omega arith,
        AllShort-mono (length s) (suc (length s)) (split_byte sep s) (omega arith) rest,
      )
      | inr e ↦ rw e (push_front-AllShort c (length s) (split_byte sep s) rest)
    ]
