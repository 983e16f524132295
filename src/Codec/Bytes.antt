-- ===== src/Codec/Bytes.antt =====
-- `to_ne_bytes` and `from_ne_bytes` of the integer types: `n` bytes in the target's byte order.
use membridge.Common.{
  ℕ, zero, suc, ◌+◌, ◌*◌, ◌/◌, ◌%◌, ◌^◌, ◌≤◌, ◌<◌, ◌≡◌, refl, ap, ◌∙◌, List, [], ◌∷◌, reverse,
  arith, length, length-reverse,
}
use mathlib.Core.List.{reverse-reverse}
use native.Mathlib.Nat.{pow-succ', mod-eq_of_lt, mod-lt, mul-add-mod_self_left, div-add-mod}

pub data Endian : Type 0 where
  little big : Endian

pub to_le_bytes : ℕ → ℕ → List ℕ
to_le_bytes zero v = []
to_le_bytes (suc n) v = (v % 256) ∷ to_le_bytes n (v / 256)

-- An element counts by its low eight bits, as a `u8` does.
pub from_le_bytes : List ℕ → ℕ
from_le_bytes [] = 0
from_le_bytes (b ∷ bs) = b % 256 + 256 * from_le_bytes bs

unfoldable pub to_ne_bytes : Endian → ℕ → ℕ → List ℕ
unfolding to_le_bytes
to_ne_bytes little n v = to_le_bytes n v
to_ne_bytes big n v = reverse (to_le_bytes n v)

unfoldable pub from_ne_bytes : Endian → List ℕ → ℕ
unfolding from_le_bytes
from_ne_bytes little bs = from_le_bytes bs
from_ne_bytes big bs = from_le_bytes (reverse bs)

length-to_le_bytes : (n v : ℕ) → length (to_le_bytes n v) ≡ n
unfolding to_le_bytes
length-to_le_bytes zero v = refl
length-to_le_bytes (suc n) v = ap suc (length-to_le_bytes n (v / 256))

pub length-to_ne_bytes : (e : Endian) (n v : ℕ) → length (to_ne_bytes e n v) ≡ n
unfolding to_ne_bytes
length-to_ne_bytes little n v = length-to_le_bytes n v
length-to_ne_bytes big n v = length-reverse (to_le_bytes n v) ∙ length-to_le_bytes n v

-- The remainder by a product, a digit at a time.
mod-mul : (v b m : ℕ) → 0 < b → 0 < m → v % (b * m) ≡ v % b + b * (v / b % m)
mod-mul v b m hb hm =
    ap (λ t. t % (b * m)) split ∙ mul-add-mod_self_left (b * m) (v / b / m) low ∙ mod-eq_of_lt below
  where
    low : ℕ
    low = v % b + b * (v / b % m)

    digit : b * (v / b % m) + b ≤ b * m
    digit = let h : suc (v / b % m) ≤ m = mod-lt (v / b) hm in grind arith

    below : low < b * m
    below = omega (arith, digit, mod-lt v hb)

    split : v ≡ b * m * (v / b / m) + low
    split = omega (arith, div-add-mod v b, ap (λ (t : ℕ). b * t) (div-add-mod (v / b) m))

pow-pos : (n : ℕ) → 0 < 256 ^ n
pow-pos zero = omega arith
pow-pos (suc n) = omega (arith, pow-succ' 256 n, pow-pos n)

from_le_bytes-to_le_bytes : (n v : ℕ) → from_le_bytes (to_le_bytes n v) ≡ v % 256 ^ n
unfolding to_le_bytes from_le_bytes
from_le_bytes-to_le_bytes zero v = omega arith
from_le_bytes-to_le_bytes (suc n) v = omega (
  arith,
  from_le_bytes-to_le_bytes n (v / 256),
  ap (λ t. v % t) (pow-succ' 256 n),
  mod-mul v 256 (256 ^ n) (omega arith) (pow-pos n),
)

-- What `n` bytes keep of a number.
pub from_ne_bytes-to_ne_bytes :
    (e : Endian) (n v : ℕ) → from_ne_bytes e (to_ne_bytes e n v) ≡ v % 256 ^ n
unfolding to_ne_bytes from_ne_bytes
from_ne_bytes-to_ne_bytes little n v = from_le_bytes-to_le_bytes n v
from_ne_bytes-to_ne_bytes big n v = rw reverse-reverse (from_le_bytes-to_le_bytes n v)

from_le_bytes-lt : (bs : List ℕ) → from_le_bytes bs < 256 ^ length bs
unfolding from_le_bytes
from_le_bytes-lt [] = omega arith
from_le_bytes-lt (b ∷ bs) = omega (arith, from_le_bytes-lt bs, pow-succ' 256 (length bs))

-- The number that `n` bytes hold fits `n` bytes.
pub from_ne_bytes-lt : (e : Endian) (bs : List ℕ) → from_ne_bytes e bs < 256 ^ length bs
unfolding from_ne_bytes
from_ne_bytes-lt little bs = from_le_bytes-lt bs
from_ne_bytes-lt big bs = rw (← length-reverse bs) (from_le_bytes-lt (reverse bs))
