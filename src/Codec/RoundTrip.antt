-- ===== src/Codec/RoundTrip.antt =====
-- A value that was packed is read back by the tag that goes with it.
use membridge.Common.{
  ℕ, ◌+◌, ◌^◌, ◌≤◌, ◌<◌, ◌≡◌, refl, sym, ap, ◌∙◌, String, true, false, List, [], ◌∷◌, ◌++◌, arith,
  length, take, drop, length-append, take-append, drop-append, take-length-append, append_assoc,
  le→ltb,
}
use native.Mathlib.Nat.{mod-eq_of_lt}
use membridge.Error.{ok}
use membridge.Codec.Bytes.{
  to_ne_bytes, from_ne_bytes, length-to_ne_bytes, from_ne_bytes-to_ne_bytes,
}
use membridge.Codec.Value.{
  Runtime, DecodesText, Value, bool, int, float, str, ill_formed_str, bytes, bytearray, other, ℤ,
  pos, negsuc, bits_of_i64, i64_of_bits, fits_i64,
}
use membridge.Codec.Pack.{encode}
use membridge.Codec.Unpack.{Tag, unpack_one, read_fixed, read_str, decode}

-- The tag under which a value is read back. Raw bytes have none.
abbrev pub tag_of : Value → String
tag_of (bool b) = "bool"
tag_of (int z) = "int"
tag_of (float w) = "float"
tag_of (str s) = "str"
tag_of _ = ""

-- What a Python value that can be read back satisfies: an `f64` has 64 bits, the UTF-8 form of a
-- text has a length that its prefix of 32 bits can hold, and raw bytes carry no tag.
abbrev pub Readable : Runtime → Value → Type 0
Readable rt (bool b) = Unit
Readable rt (int z) = fits_i64 z ≡ true
Readable rt (float w) = w < 2 ^ 64
Readable rt (str s) = length (rt.as_bytes s) < 2 ^ 32
Readable rt _ = ⊥

i64_of_bits-bits_of_i64 : (z : ℤ) → fits_i64 z ≡ true → i64_of_bits (bits_of_i64 z) ≡ z
i64_of_bits-bits_of_i64 (pos n) h = ground arith
i64_of_bits-bits_of_i64 (negsuc n) h = ground arith

bits_of_i64-lt : (z : ℤ) → fits_i64 z ≡ true → bits_of_i64 z < 2 ^ 64
bits_of_i64-lt (pos n) h = ground arith
bits_of_i64-lt (negsuc n) h = ground arith

module _ (rt : Runtime) where
  -- A field of `n` bytes at the front gives back the number.
  pub from_ne_bytes-field :
      (n v : ℕ) (rest : List ℕ)
      → v < 256 ^ n
      → from_ne_bytes rt.endian (take n (to_ne_bytes rt.endian n v ++ rest)) ≡ v
  from_ne_bytes-field n v rest h =
      rw (take-append n (to_ne_bytes rt.endian n v) rest (sym (length-to_ne_bytes rt.endian n v)))
        (from_ne_bytes-to_ne_bytes rt.endian n v ∙ mod-eq_of_lt h)

  -- How a readable value lies in memory.
  abbrev pub wire : Value → List ℕ
  wire (bool true) = 1 ∷ []
  wire (bool false) = 0 ∷ []
  wire (int z) = to_ne_bytes rt.endian 8 (bits_of_i64 z)
  wire (float w) = to_ne_bytes rt.endian 8 w
  wire (str s) = to_ne_bytes rt.endian 4 (length (rt.as_bytes s)) ++ rt.as_bytes s
  wire _ = []

  pub encode-wire : (v : Value) → Readable rt v → encode rt v ≡ ok (wire v)
  unfolding encode
  encode-wire (bool true) r = refl
  encode-wire (bool false) r = refl
  encode-wire (int z) r = rw r
  encode-wire (float w) r = refl
  encode-wire (str s) r = rw (mod-eq_of_lt r)
  encode-wire ill_formed_str r = absurd r
  encode-wire (bytes bs) r = absurd r
  encode-wire (bytearray bs) r = absurd r
  encode-wire (other name index) r = absurd r

  pub field-le : (n v : ℕ) (rest : List ℕ) → n ≤ length (to_ne_bytes rt.endian n v ++ rest)
  field-le n v rest =
      omega
        (arith, length-append (to_ne_bytes rt.endian n v) rest, length-to_ne_bytes rt.endian n v)

  -- The value that a field of eight bytes decodes to under `int` and under `float`.
  pub decode-int :
      (z : ℤ) (rest : List ℕ)
      → fits_i64 z ≡ true
      → decode rt Tag.i64 (take 8 (to_ne_bytes rt.endian 8 (bits_of_i64 z) ++ rest)) ≡ int z
  unfolding decode
  decode-int z rest h =
      rw (from_ne_bytes-field 8 (bits_of_i64 z) rest (bits_of_i64-lt z h))
        (ap int (i64_of_bits-bits_of_i64 z h))

  pub decode-float :
      (w : ℕ) (rest : List ℕ)
      → w < 2 ^ 64
      → decode rt Tag.f64 (take 8 (to_ne_bytes rt.endian 8 w ++ rest)) ≡ float w
  unfolding decode
  decode-float w rest h = rw (from_ne_bytes-field 8 w rest h)

  read_fixed-ok :
      (bs : List ℕ) (tag : String) (t : Tag) (n : ℕ)
      → n ≤ length bs
      → read_fixed rt bs tag t n ≡ ok (decode rt t (take n bs), n)
  unfolding read_fixed
  read_fixed-ok bs tag t n h = rw (le→ltb (length bs) n h)

  abbrev pub prefixed : String → List ℕ → List ℕ
  prefixed s rest = to_ne_bytes rt.endian 4 (length (rt.as_bytes s)) ++ (rt.as_bytes s ++ rest)

  -- A text behind its length, and how it is decoded.
  pub length-text :
      (s : String) (rest : List ℕ)
      → length (prefixed s rest) ≡ 4 + length (rt.as_bytes s) + length rest
  length-text s rest = omega (
    arith,
    length-append (to_ne_bytes rt.endian 4 (length (rt.as_bytes s))) (rt.as_bytes s ++ rest),
    length-append (rt.as_bytes s) rest,
    length-to_ne_bytes rt.endian 4 (length (rt.as_bytes s)),
  )

  pub length-wire_str : (s : String) → length (wire (str s)) ≡ 4 + length (rt.as_bytes s)
  length-wire_str s = omega (
    arith,
    length-append (to_ne_bytes rt.endian 4 (length (rt.as_bytes s))) (rt.as_bytes s),
    length-to_ne_bytes rt.endian 4 (length (rt.as_bytes s)),
  )

  pub decode-text :
      (s : String) (rest : List ℕ)
      → DecodesText rt
      → decode rt Tag.str (take (length (rt.as_bytes s)) (drop 4 (prefixed s rest))) ≡ str s
  unfolding decode
  decode-text s rest d = rw (
    drop-append 4 (to_ne_bytes rt.endian 4 (length (rt.as_bytes s))) (rt.as_bytes s ++ rest)
        (sym (length-to_ne_bytes rt.endian 4 (length (rt.as_bytes s)))),
    take-length-append (rt.as_bytes s) rest,
    d s,
  )

  read_str-wire :
      (s : String) (rest : List ℕ)
      → DecodesText rt
      → length (rt.as_bytes s) < 2 ^ 32
      → read_str rt (wire (str s) ++ rest) ≡ ok (str s, length (wire (str s)))
  unfolding read_str
  read_str-wire s rest d h =
      rw (append_assoc (to_ne_bytes rt.endian 4 (length (rt.as_bytes s))) (rt.as_bytes s) rest) (
        rw
          (
            from_ne_bytes-field 4 (length (rt.as_bytes s)) (rt.as_bytes s ++ rest) h,
            le→ltb (length (prefixed s rest)) 4 (omega (arith, length-text s rest)),
            le→ltb (length (prefixed s rest)) (4 + length (rt.as_bytes s))
                (omega (arith, length-text s rest)),
            decode-text s rest d,
          )
          (ap (λ n. ok (str s, n)) (omega (arith, length-wire_str s))))

  -- Reading by its tag the bytes at which a value lies gives the value and their number.
  pub unpack_one-wire :
      (v : Value) (rest : List ℕ)
      → DecodesText rt
      → Readable rt v
      → unpack_one rt (wire v ++ rest) (tag_of v) ≡ ok (v, length (wire v))
  unfolding unpack_one
  unpack_one-wire (bool true) rest d r = refl
  unpack_one-wire (bool false) rest d r = refl
  unpack_one-wire (int z) rest d r =
      read_fixed-ok _ "int" Tag.i64 8 (field-le 8 (bits_of_i64 z) rest)
      ∙ rw (decode-int z rest r, length-to_ne_bytes)
  unpack_one-wire (float w) rest d r =
      read_fixed-ok _ "float" Tag.f64 8 (field-le 8 w rest)
      ∙ rw (decode-float w rest r, length-to_ne_bytes)
  unpack_one-wire (str s) rest d r = read_str-wire s rest d r
  unpack_one-wire ill_formed_str rest d r = absurd r
  unpack_one-wire (bytes bs) rest d r = absurd r
  unpack_one-wire (bytearray bs) rest d r = absurd r
  unpack_one-wire (other name index) rest d r = absurd r

  -- What `pack_value` wrote for a readable value, `unpack_one` reads back under the value's tag,
  -- whatever follows, and consumes exactly those bytes, if the runtime decodes the text that it
  -- encoded.
  pub unpack_one-encode :
      (v : Value) (packed rest : List ℕ)
      → DecodesText rt
      → Readable rt v
      → encode rt v ≡ ok packed
      → unpack_one rt (packed ++ rest) (tag_of v) ≡ ok (v, length packed)
  unpack_one-encode v packed rest d r e =
      let same : wire v ≡ packed = cc (encode-wire v r) in rw same at (unpack_one-wire v rest d r)
