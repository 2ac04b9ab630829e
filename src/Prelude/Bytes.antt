-- ===== src/Prelude/Bytes.antt =====
-- Byte strings and the numbers that they spell, as the standard library's `to_le_bytes`,
-- `to_be_bytes`, `from_be_bytes` and its check for UTF-8.
use Prim.Native.Char.{code}
use Prim.Native.String.{String}
use Prim.Native.Nat.{ℕ, zero, suc, ◌+◌, ◌-◌, ◌*◌, ◌/◌, ◌%◌, ◌^◌, ◌<◌}
use mathlib.Core.Path.{◌≡◌, refl, sym, ap, ap₂, ◌∙◌}
use mathlib.Core.Bool.{Bool, true, false, ◌&&◌}
use mathlib.Core.List.{List, [], ◌∷◌, ◌++◌, reverse, foldl, reverse-reverse, reverse-cons}
use native.Mathlib.Omega.{arith}
use call_node.Prelude.Tests.{leb, ltb, ◌==◌, if◌then◌else◌}
use call_node.Prelude.Lists.{length, All, length-append}

unfoldable pub to_le_bytes : ℕ → ℕ → List ℕ
to_le_bytes zero v = []
to_le_bytes (suc n) v = (v % 256) ∷ to_le_bytes n (v / 256)

unfoldable pub from_le_bytes : List ℕ → ℕ
from_le_bytes [] = 0
from_le_bytes (b ∷ bs) = b + 256 * from_le_bytes bs

unfoldable pub to_be_bytes : ℕ → ℕ → List ℕ
unfolding to_le_bytes
to_be_bytes n v = reverse (to_le_bytes n v)

unfoldable pub from_be_bytes : List ℕ → ℕ
unfolding from_le_bytes
from_be_bytes bs = from_le_bytes (reverse bs)

abbrev pub IsByte : ℕ → Type 0
IsByte b = b < 256

to_le_bytes-from_le_bytes :
    (bs : List ℕ) → All IsByte bs → to_le_bytes (length bs) (from_le_bytes bs) ≡ bs
unfolding to_le_bytes from_le_bytes
to_le_bytes-from_le_bytes [] h = refl
to_le_bytes-from_le_bytes (b ∷ bs) h =
    ap₂ ◌∷◌ (omega arith)
      (ap (to_le_bytes (length bs)) (omega arith) ∙ to_le_bytes-from_le_bytes bs h.1)

pub All-append : (P : ℕ → Type 0) (xs ys : List ℕ) → All P xs → All P ys → All P (xs ++ ys)
All-append P [] ys h k = k
All-append P (x ∷ xs) ys h k = (h.0, All-append P xs ys h.1 k)

All-reverse : (P : ℕ → Type 0) (xs : List ℕ) → All P xs → All P (reverse xs)
All-reverse P [] h = tt
All-reverse P (x ∷ xs) h =
    rw reverse-cons (All-append P (reverse xs) (x ∷ []) (All-reverse P xs h.1) (h.0, tt))

length-reverse : (xs : List ℕ) → length (reverse xs) ≡ length xs
length-reverse [] = refl
length-reverse (x ∷ xs) =
    rw reverse-cons (omega (arith, length-append (reverse xs) (x ∷ []), length-reverse xs))

-- Writing out the number that a byte string spells gives the string back.
pub to_be_bytes-from_be_bytes :
    (n : ℕ) (bs : List ℕ) → length bs ≡ n → All IsByte bs → to_be_bytes n (from_be_bytes bs) ≡ bs
unfolding to_be_bytes from_be_bytes
to_be_bytes-from_be_bytes n bs e h =
    ap (λ k. reverse (to_le_bytes k (from_le_bytes (reverse bs)))) (sym e ∙ sym (length-reverse bs))
    ∙ ap reverse (to_le_bytes-from_le_bytes (reverse bs) (All-reverse IsByte bs h))
    ∙ reverse-reverse bs

pub length-to_le_bytes : (n v : ℕ) → length (to_le_bytes n v) ≡ n
unfolding to_le_bytes
length-to_le_bytes zero v = refl
length-to_le_bytes (suc n) v = ap suc (length-to_le_bytes n (v / 256))

pow_step : (n : ℕ) → 256 ^ suc n ≡ 256 * 256 ^ n
pow_step n = omega arith

pub from_le_bytes-to_le_bytes : (n v : ℕ) → v < 256 ^ n → from_le_bytes (to_le_bytes n v) ≡ v
unfolding to_le_bytes from_le_bytes
from_le_bytes-to_le_bytes zero v h = omega (arith, h)
from_le_bytes-to_le_bytes (suc n) v h =
    omega (arith, from_le_bytes-to_le_bytes n (v / 256) (omega (arith, h, pow_step n)))

pub length-to_be_bytes : (n v : ℕ) → length (to_be_bytes n v) ≡ n
unfolding to_be_bytes
length-to_be_bytes n v = length-reverse (to_le_bytes n v) ∙ length-to_le_bytes n v

pub from_be_bytes-to_be_bytes : (n v : ℕ) → v < 256 ^ n → from_be_bytes (to_be_bytes n v) ≡ v
unfolding to_be_bytes from_be_bytes
from_be_bytes-to_be_bytes n v h =
    ap from_le_bytes (reverse-reverse (to_le_bytes n v)) ∙ from_le_bytes-to_le_bytes n v h

-- Where a scan for UTF-8 stands: before a character, in one with `more` bytes to come of which the
-- next lies between `lo` and `hi`, or past an invalid byte.
pub data Scan : Type 0 where
  start : Scan
  inside : (more lo hi : ℕ) → Scan
  invalid : Scan

abbrev between : ℕ → ℕ → ℕ → Bool
between lo hi b = leb lo b && leb b hi

lead_byte : ℕ → Scan
lead_byte b =
    if ltb b 0x80
    then start
    else if between 0xc2 0xdf b
    then inside 1 0x80 0xbf
    else if b == 0xe0
    then inside 2 0xa0 0xbf
    else if b == 0xed
    then inside 2 0x80 0x9f
    else if between 0xe1 0xef b
    then inside 2 0x80 0xbf
    else if b == 0xf0
    then inside 3 0x90 0xbf
    else if between 0xf1 0xf3 b
    then inside 3 0x80 0xbf
    else if b == 0xf4
    then inside 3 0x80 0x8f
    else invalid

scan_byte : Scan → ℕ → Scan
unfolding lead_byte
scan_byte start b = lead_byte b
scan_byte (inside more lo hi) b =
    if between lo hi b then (if more == 1 then start else inside (more - 1) 0x80 0xbf) else invalid
scan_byte invalid b = invalid

-- Whether `String::from_utf8` accepts the bytes.
unfoldable pub is_utf8 : List ℕ → Bool
unfolding scan_byte
is_utf8 bs = elim (foldl scan_byte start bs) [ start ↦ true | _ ↦ false ]

-- The bytes of a literal.
abbrev pub ascii : String → List ℕ
ascii String.[] = []
ascii (String.◌∷◌ c s) = code c ∷ ascii s
