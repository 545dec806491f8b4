-- ===== src/Inform/Padding/RoundTrip.antt =====
-- `pkcs7Unpad` undoes `pkcs7Pad`, and accepts nothing else.
use unifi_stubd.Prelude.{
  ◌↔◌, ℕ, zero, suc, ◌+◌, ◌-◌, ◌%◌, ◌≤◌, ◌<◌, ◌≡◌, refl, ap, sym, ◌∙◌, arith, if◌then◌else◌, ◌==◌,
  true, false, [], ◌∷◌, ◌++◌, length, length-append, length-replicate, get_or, get_or_of_append,
  get_or-replicate, take, drop, take_of_append, drop_of_append, length-drop, take-append-drop,
  replicate, ok,
}
use unifi_stubd.Prelude.Text.{Bytes, is_empty}
use unifi_stubd.Inform.Padding.{pkcs7_pad, pkcs7_unpad, all_equal}

-- The number of bytes that padding adds: at least one, at most a block, and up to a full block.
pad_size : ℕ → ℕ → ℕ
pad_size n b = b - n % b

pad_size_bounds :
    (n b : ℕ) → 0 < b → (0 < pad_size n b) × (pad_size n b ≤ b) × ((n + pad_size n b) % b ≡ 0)
unfolding pad_size
pad_size_bounds n b h = grind arith

all_equal-replicate : (n k : ℕ) → all_equal k (replicate n k) ≡ true
all_equal-replicate zero k = refl
all_equal-replicate (suc n) k = ground (arith, all_equal-replicate n k)

replicate-of_all_equal : (k : ℕ) (bs : Bytes) → all_equal k bs ≡ true → bs ≡ replicate (length bs) k
replicate-of_all_equal k [] h = refl
replicate-of_all_equal k (b ∷ bs) h = ground (arith, replicate-of_all_equal k bs)

pad_len : (n b : ℕ) → 0 < b → b < 256 → (if b - n % b == 0 then b else b - n % b) ≡ pad_size n b
unfolding pad_size
pad_len n b h k = ground (arith, pad_size_bounds n b h)

pkcs7_pad_lem :
    (raw : Bytes) (b : ℕ)
    → 0 < b
    → b < 256
    → pkcs7_pad raw b ≡ raw ++ replicate (pad_size (length raw) b) (pad_size (length raw) b)
unfolding pkcs7_pad
pkcs7_pad_lem raw b h k =
    let (p, q, r) = pad_size_bounds (length raw) b h in
    rw (pad_len (length raw) b h k)
      (ap (λ (t : ℕ). raw ++ replicate (pad_size (length raw) b) t) (omega arith))

-- What the tests of `pkcs7Unpad` ask of a text that ends in `p` bytes of value `p`.
unpad_at :
    (xs raw : Bytes) (p b : ℕ)
    → is_empty xs ≡ false
    → length xs % b ≡ 0
    → get_or xs (length xs - 1) 0 ≡ p
    → 0 < p
    → p ≤ b
    → p ≤ length xs
    → all_equal p (drop (length xs - p) xs) ≡ true
    → take (length xs - p) xs ≡ raw
    → pkcs7_unpad xs b ≡ ok raw
unfolding pkcs7_unpad
unpad_at xs raw p b e m last h k l all t = rw last (ground arith)

is_empty-append : (raw : Bytes) (p a : ℕ) → 0 < p → is_empty (raw ++ replicate p a) ≡ false
is_empty-append [] zero a h = absurd (omega arith)
is_empty-append [] (suc p) a h = refl
is_empty-append (c ∷ raw) p a h = refl

unpad_of_shape :
    (raw : Bytes) (p b : ℕ)
    → 0 < p
    → p ≤ b
    → (length raw + p) % b ≡ 0
    → pkcs7_unpad (raw ++ replicate p p) b ≡ ok raw
unpad_of_shape raw p b h k m =
    let xs = raw ++ replicate p p in
    let size : length xs ≡ length raw + p =
      omega (arith, length-append raw (replicate p p), length-replicate p p) in
    unpad_at xs raw p b (is_empty-append raw p p h) (rw size m)
      (get_or_of_append raw (replicate p p) (length xs - 1) (p - 1) 0 (omega arith)
        ∙ get_or-replicate p (p - 1) p 0 (omega arith))
      h k (omega arith)
      (ap (all_equal p) (drop_of_append raw (replicate p p) (length xs - p) (omega arith))
        ∙ all_equal-replicate p p)
      (take_of_append raw (replicate p p) (length xs - p) (omega arith))

pub pkcs7_unpad-pad :
    (raw : Bytes) (b : ℕ) → 0 < b → b < 256 → pkcs7_unpad (pkcs7_pad raw b) b ≡ ok raw
pkcs7_unpad-pad raw b h k =
    let (p, q, r) = pad_size_bounds (length raw) b h in
    rw (pkcs7_pad_lem raw b h k) (unpad_of_shape raw _ b p q r)

-- What a successful `pkcs7Unpad` has tested, with `p` the last byte.
unpad_tests :
    (xs raw : Bytes) (b p : ℕ)
    → get_or xs (length xs - 1) 0 ≡ p
    → pkcs7_unpad xs b ≡ ok raw
    → (length xs % b ≡ 0)
      × (0 < p)
      × (p ≤ b)
      × (p ≤ length xs)
      × (all_equal p (drop (length xs - p) xs) ≡ true)
      × (take (length xs - p) xs ≡ raw)
unfolding pkcs7_unpad
unpad_tests xs raw b p e h = ground arith

split_of_unpad :
    (xs raw : Bytes) (p : ℕ)
    → p ≤ length xs
    → all_equal p (drop (length xs - p) xs) ≡ true
    → take (length xs - p) xs ≡ raw
    → xs ≡ raw ++ replicate p p
split_of_unpad xs raw p h a t =
    let n = length xs - p in
    sym (take-append-drop n xs)
    ∙ ap (λ u. u ++ drop n xs) t
    ∙ ap (λ u. raw ++ u) (replicate-of_all_equal p (drop n xs) a)
    ∙ ap (λ (k : ℕ). raw ++ replicate k p) (omega (arith, length-drop n xs))

pad_size_unique : (n p b : ℕ) → 0 < p → p ≤ b → (n + p) % b ≡ 0 → p ≡ pad_size n b
unfolding pad_size
pad_size_unique n p b h k m = grind arith

pkcs7_pad_of_unpad :
    (xs raw : Bytes) (b : ℕ) → 0 < b → b < 256 → pkcs7_unpad xs b ≡ ok raw → xs ≡ pkcs7_pad raw b
pkcs7_pad_of_unpad xs raw b h k u =
    let p = get_or xs (length xs - 1) 0 in
    let (m, lo, hi, fits, all, front) = unpad_tests xs raw b p refl u in
    let whole = split_of_unpad xs raw p fits all front in
    let size : length xs ≡ length raw + p =
      omega (
        arith,
        ap (length {A = ℕ}) whole,
        length-append raw (replicate p p),
        length-replicate p p,
      ) in
    let unique = pad_size_unique (length raw) p b lo hi (rw (← size) m) in
    whole ∙ rw (pkcs7_pad_lem raw b h k) (ap (λ (t : ℕ). raw ++ replicate t t) unique)

-- For every block size of one byte, `pkcs7Unpad` returns `raw` exactly on the text that
-- `pkcs7Pad` makes of `raw`.
pub pkcs7_unpad_iff :
    (xs raw : Bytes) (b : ℕ)
    → 0 < b
    → b < 256
    → (pkcs7_unpad xs b ≡ ok raw) ↔ (xs ≡ pkcs7_pad raw b)
pkcs7_unpad_iff xs raw b h k =
    (pkcs7_pad_of_unpad xs raw b h k, λ e. rw e (pkcs7_unpad-pad raw b h k))

-- Padding fills whole blocks, and never makes an empty text.
pub pkcs7_pad_whole :
    (raw : Bytes) (b : ℕ)
    → 0 < b
    → b < 256
    → (length (pkcs7_pad raw b) % b ≡ 0)
      × (length raw < length (pkcs7_pad raw b))
      × (length (pkcs7_pad raw b) ≤ length raw + b)
pkcs7_pad_whole raw b h k =
    let (p, q, r) = pad_size_bounds (length raw) b h in
    let n = pad_size (length raw) b in
    let size : length (pkcs7_pad raw b) ≡ length raw + n =
      ap (length {A = ℕ}) (pkcs7_pad_lem raw b h k)
      ∙ omega (arith, length-append raw (replicate n n), length-replicate n n) in
    rw size (r, omega arith, omega arith)
