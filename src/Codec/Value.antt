-- ===== src/Codec/Value.antt =====
-- The Python objects that cross the interface, and the runtime that the codec relies on.
use membridge.Common.{ℕ, ◌-◌, ◌^◌, Bool, String, List, ltb, if◌then◌else◌, ◌≡◌}
use membridge.Error.{PyResult}
use membridge.Codec.Bytes.{Endian}

-- A Python `int`; `negsuc n` is -(n + 1).
pub data ℤ : Type 0 where
  pos negsuc : ℕ → ℤ

-- A Python value. A `float` is its 64 bits. A `str` with lone surrogates has no UTF-8 form, and is
-- `ill_formed_str`. `other` is any further type, a `list` or a `tuple` among them, by its name, with what its
-- `__index__` gives: an `int`, or an exception, which is a `TypeError` where there is none.
pub data Value : Type 0 where
  bool : Bool → Value
  int : ℤ → Value
  float : (bits : ℕ) → Value
  str : String → Value
  ill_formed_str : Value
  bytes bytearray : List ℕ → Value
  other : (type_name : String) (index : PyResult ℤ) → Value

-- What a caller passes to `push` or a list to `write_mixed`, and what comes back in a list.
pub data PyObject : Type 0 where
  value : Value → PyObject
  list : List Value → PyObject

-- The target and the text functions: the byte order, `str::as_bytes`, `String::from_utf8_lossy`,
-- and the widening of the bits of an `f32` to those of the `f64` of a Python `float`.
pub record Runtime : Type 0 where
  pub endian : Endian
  pub as_bytes : String → List ℕ
  pub from_utf8_lossy : List ℕ → String
  pub widen_f32 : ℕ → ℕ

-- Text that was encoded is valid UTF-8, and is decoded without loss.
abbrev pub DecodesText : Runtime → Type 0
DecodesText rt = (s : String) → rt.from_utf8_lossy (rt.as_bytes s) ≡ s

-- `as u64` of an `i64`, and the `i32` or `i64` with given bits.
abbrev pub bits_of_i64 : ℤ → ℕ
bits_of_i64 (pos n) = n
bits_of_i64 (negsuc n) = 2 ^ 64 - 1 - n

abbrev pub i32_of_bits : ℕ → ℤ
i32_of_bits w = if ltb w (2 ^ 31) then pos w else negsuc (2 ^ 32 - 1 - w)

abbrev pub i64_of_bits : ℕ → ℤ
i64_of_bits w = if ltb w (2 ^ 63) then pos w else negsuc (2 ^ 64 - 1 - w)

-- Whether `extract::<i64>()` succeeds.
abbrev pub fits_i64 : ℤ → Bool
fits_i64 (pos n) = ltb n (2 ^ 63)
fits_i64 (negsuc n) = ltb n (2 ^ 63)
