-- ===== src/Prelude/Text/Space.antt =====
-- `strings.TrimSpace` over the bytes of a UTF-8 text: the white space of `unicode.IsSpace`, which
-- has encodings of one, two and three bytes.
use Prim.Native.Nat.{ℕ, zero, suc, ◌-◌, ◌≤◌, ◌<◌}
use mathlib.Core.Path.{◌≡◌, refl, sym, ap, ◌∙◌}
use mathlib.Core.Bool.{Bool, ◌&&◌, ◌||◌}
use mathlib.Core.List.{List, [], ◌∷◌, ◌++◌, reverse, reverse-append, reverse-reverse}
use native.Mathlib.Omega.{arith}
use unifi_stubd.Prelude.{◌==◌, leb, if◌then◌else◌, get_or, length, length-append, inl, inr, ◌⊎◌}

abbrev pub Bytes : Type 0
Bytes = List ℕ

is_space1 : ℕ → Bool
is_space1 c = (leb 9 c && leb c 13) || c == 32

-- U+0085 and U+00A0.
is_space2 : ℕ → ℕ → Bool
is_space2 a b = a == 0xc2 && (b == 0x85 || b == 0xa0)

-- U+1680, U+2000 to U+200A, U+2028, U+2029, U+202F, U+205F and U+3000.
is_space3 : ℕ → ℕ → ℕ → Bool
is_space3 a b c =
    (a == 0xe1 && b == 0x9a && c == 0x80)
    || (a == 0xe2
        && b == 0x80
        && ((leb 0x80 c && leb c 0x8a) || c == 0xa8 || c == 0xa9 || c == 0xaf))
    || (a == 0xe2 && b == 0x81 && c == 0x9f)
    || (a == 0xe3 && b == 0x80 && c == 0x80)

space_width : ℕ → ℕ → ℕ → ℕ → ℕ → ℕ → ℕ
unfolding is_space1 is_space2 is_space3
space_width a a2 b2 a3 b3 c3 =
    if is_space1 a then 1 else if is_space2 a2 b2 then 2 else if is_space3 a3 b3 c3 then 3 else 0

-- The width of the white space character that a text begins with, or 0.
pub lead : Bytes → ℕ
unfolding space_width
lead s =
    let a = get_or s 0 0 in let b = get_or s 1 0 in let c = get_or s 2 0 in space_width a a b a b c

-- The same for the end of a text, which is given in reverse.
pub trail : Bytes → ℕ
unfolding space_width
trail r =
    let a = get_or r 0 0 in let b = get_or r 1 0 in let c = get_or r 2 0 in space_width a b a c b a

-- Drops `skip` bytes, and then white space as long as `width` finds some.
pub trim_by : (Bytes → ℕ) → ℕ → Bytes → Bytes
trim_by width skip [] = []
trim_by width (suc skip) (c ∷ s) = trim_by width skip s
trim_by width zero (c ∷ s) =
    let w = width (c ∷ s) in let rest = trim_by width (w - 1) s in if w == 0 then c ∷ s else rest

unfoldable pub trim_space : Bytes → Bytes
unfolding lead trail trim_by
trim_space s = reverse (trim_by trail 0 (reverse (trim_by lead 0 s)))

pub length-reverse : (s : Bytes) → length (reverse s) ≡ length s
length-reverse [] = refl
length-reverse (c ∷ s) =
    ap (length {A = ℕ}) (reverse-append (c ∷ []) s)
    ∙ omega (arith, length-append (reverse s) (c ∷ []), length-reverse s)

length-trim_by :
    (width : Bytes → ℕ) (skip : ℕ) (s : Bytes) → length (trim_by width skip s) ≤ length s
unfolding trim_by
length-trim_by width skip [] = omega arith
length-trim_by width (suc skip) (c ∷ s) = omega (arith, length-trim_by width skip s)
length-trim_by width zero (c ∷ s) = ground (arith, length-trim_by width (width (c ∷ s) - 1) s)

trim_by_id : (width : Bytes → ℕ) (s : Bytes) → width s ≡ 0 → trim_by width 0 s ≡ s
unfolding trim_by
trim_by_id width [] h = refl
trim_by_id width (c ∷ s) h = ground arith

width-eq-zero :
    (width : Bytes → ℕ) (s : Bytes)
    → width [] ≡ 0
    → length s ≤ length (trim_by width 0 s)
    → width s ≡ 0
unfolding trim_by
width-eq-zero width [] n h = n
width-eq-zero width (c ∷ s) n h = ground (arith, length-trim_by width (width (c ∷ s) - 1) s)

lead_nil : lead [] ≡ 0
unfolding lead
lead_nil = refl

trail_nil : trail [] ≡ 0
unfolding trail
trail_nil = refl

trim_space_lem : (s : Bytes) → trim_space s ≡ reverse (trim_by trail 0 (reverse (trim_by lead 0 s)))
unfolding trim_space
trim_space_lem s = refl

length-trim_space : (s : Bytes) → length (trim_space s) ≤ length (trim_by lead 0 s)
length-trim_space s =
    let kept = trim_by lead 0 s in
    let cut = trim_by trail 0 (reverse kept) in
    omega (
      arith,
      ap (length {A = ℕ}) (trim_space_lem s),
      length-reverse cut,
      length-trim_by trail 0 (reverse kept),
      length-reverse kept,
    )

pub length-trim_space_le : (s : Bytes) → length (trim_space s) ≤ length s
length-trim_space_le s = omega (arith, length-trim_space s, length-trim_by lead 0 s)

-- A text without white space at its ends is left alone.
pub trim_space_fixed : (s : Bytes) → lead s ≡ 0 → trail (reverse s) ≡ 0 → trim_space s ≡ s
trim_space_fixed s l t =
    trim_space_lem s
    ∙ ap (λ u. reverse (trim_by trail 0 (reverse u))) (trim_by_id lead s l)
    ∙ ap (reverse {A = ℕ}) (trim_by_id trail (reverse s) t)
    ∙ reverse-reverse s

-- And a text that is left alone has none.
pub lead-of_fixed : (s : Bytes) → trim_space s ≡ s → lead s ≡ 0
lead-of_fixed s h =
    width-eq-zero lead s lead_nil (omega (arith, ap (length {A = ℕ}) h, length-trim_space s))

pub trail-of_fixed : (s : Bytes) → trim_space s ≡ s → trail (reverse s) ≡ 0
trail-of_fixed s h =
    let front = trim_by_id lead s (lead-of_fixed s h) in
    let whole = sym h ∙ trim_space_lem s ∙ ap (λ u. reverse (trim_by trail 0 (reverse u))) front in
    let cut = trim_by trail 0 (reverse s) in
    width-eq-zero trail (reverse s) trail_nil
      (omega (arith, ap (length {A = ℕ}) whole, length-reverse cut, length-reverse s))

-- Putting other text in front of a text that is not empty leaves its end alone, if that text ends
-- in an ASCII byte.
pub trail-append :
    (r rest : Bytes) (c : ℕ) → c < 128 → trail r ≡ 0 → length r ≡ 0 ⊎ (trail (r ++ c ∷ rest) ≡ 0)
unfolding trail
trail-append [] rest c h t = inl refl
trail-append (x ∷ []) rest c h t = inr (ground arith)
trail-append (x ∷ y ∷ []) rest c h t = inr (ground arith)
trail-append (x ∷ y ∷ z ∷ r) rest c h t = inr t

-- A visible ASCII byte at an end is no white space.
pub lead_visible : (c : ℕ) (s : Bytes) → 32 < c → c < 128 → lead (c ∷ s) ≡ 0
unfolding lead space_width is_space1 is_space2 is_space3
lead_visible c s lo hi = ground arith

pub trail_visible : (c : ℕ) (s : Bytes) → 32 < c → c < 128 → trail (c ∷ s) ≡ 0
unfolding trail space_width is_space1 is_space2 is_space3
trail_visible c s lo hi = ground arith

pub trim_space_nil : trim_space [] ≡ []
unfolding trim_space trim_by
trim_space_nil = refl
