-- ===== src/Codec/Types.antt =====
-- The type of the value that `unpack_one` reads under each tag.
use membridge.Common.{
  ℕ, ◌+◌, ◌^◌, ◌<◌, ◌≤◌, ◌≡◌, refl, String, Option, some, none, List, [], ◌∷◌, Bool, true, arith,
  length, take, length-take, ltb, Bool-cases, inl, inr,
}
use native.Mathlib.Nat.{pow-le-pow_right}
use membridge.Error.{PyResult, ok, err, unknown_tag, invalid}
use membridge.Codec.Bytes.{from_ne_bytes, from_ne_bytes-lt}
use membridge.Codec.Value.{Runtime, Value, ℤ, pos, negsuc, i32_of_bits, i64_of_bits, fits_i64}
use membridge.Codec.Tags.{Names, Names-parse_tag}
use membridge.Codec.Unpack.{
  Tag, bool, u8, f32, i32, u32, i64, f64, u64, str, parse_tag, unpack_one, read_tag, read_fixed,
  read_bool, read_str, decode,
}

-- The integers that an `i32` holds.
abbrev pub FitsI32 : ℤ → Type 0
FitsI32 (pos n) = n < 2 ^ 31
FitsI32 (negsuc n) = n < 2 ^ 31

module _ (rt : Runtime) where
  -- The values of the Rust type that a tag names, as Python objects.
  abbrev pub IsOf : Tag → Value → Type 0
  IsOf bool v = (b : Bool) × (v ≡ Value.bool b)
  IsOf u8 v = (n : ℕ) × (v ≡ Value.int (pos n)) × (n < 2 ^ 8)
  IsOf u32 v = (n : ℕ) × (v ≡ Value.int (pos n)) × (n < 2 ^ 32)
  IsOf u64 v = (n : ℕ) × (v ≡ Value.int (pos n)) × (n < 2 ^ 64)
  IsOf i32 v = (z : ℤ) × (v ≡ Value.int z) × FitsI32 z
  IsOf i64 v = (z : ℤ) × (v ≡ Value.int z) × (fits_i64 z ≡ true)
  IsOf f32 v = (w : ℕ) × (v ≡ Value.float (rt.widen_f32 w)) × (w < 2 ^ 32)
  IsOf f64 v = (w : ℕ) × (v ≡ Value.float w) × (w < 2 ^ 64)
  IsOf str v = (s : String) × (v ≡ Value.str s)

  abbrev Typed : Tag → PyResult (Value × ℕ) → Type 0
  Typed t (ok (v, n)) = IsOf t v
  Typed t (err e) = Unit

  bits-lt : (n : ℕ) (bs : List ℕ) → from_ne_bytes rt.endian (take n bs) < 256 ^ n
  bits-lt n bs = omega (arith, from_ne_bytes-lt rt.endian (take n bs), wide)
    where
      wide : 256 ^ length (take n bs) ≤ 256 ^ n
      wide = pow-le-pow_right (omega arith) {j = n} (omega (arith, length-take n bs))

  i32_of_bits-FitsI32 : (w : ℕ) → w < 2 ^ 32 → FitsI32 (i32_of_bits w)
  i32_of_bits-FitsI32 w h = elim (Bool-cases (ltb w (2 ^ 31))) [
    | inl low ↦ rw low (ground arith)
    | inr high ↦ rw high (ground arith)
  ]

  fits_i64-i64_of_bits : (w : ℕ) → w < 2 ^ 64 → fits_i64 (i64_of_bits w) ≡ true
  fits_i64-i64_of_bits w h = elim (Bool-cases (ltb w (2 ^ 63))) [
    | inl low ↦ rw low (ground arith)
    | inr high ↦ rw high (ground arith)
  ]

  read_fixed-Typed :
      (bs : List ℕ) (tag : String) (t : Tag) (n : ℕ)
      → IsOf t (decode rt t (take n bs))
      → Typed t (read_fixed rt bs tag t n)
  unfolding read_fixed invalid
  read_fixed-Typed bs tag t n h = elim (Bool-cases (ltb (length bs) n)) [
    | inl short ↦ rw short tt
    | inr enough ↦ rw enough h
  ]

  read_tag-Typed : (bs : List ℕ) (tag : String) (t : Tag) → Typed t (read_tag rt bs tag t)
  unfolding read_tag read_bool read_str decode invalid
  read_tag-Typed [] tag bool = tt
  read_tag-Typed (b ∷ bs) tag bool = (_, refl)
  read_tag-Typed bs tag u8 = read_fixed-Typed bs tag u8 1 (_, refl, bits-lt 1 bs)
  read_tag-Typed bs tag f32 = read_fixed-Typed bs tag f32 4 (_, refl, bits-lt 4 bs)
  read_tag-Typed bs tag i32 =
      read_fixed-Typed bs tag i32 4 (_, refl, i32_of_bits-FitsI32 _ (bits-lt 4 bs))
  read_tag-Typed bs tag u32 = read_fixed-Typed bs tag u32 4 (_, refl, bits-lt 4 bs)
  read_tag-Typed bs tag i64 =
      read_fixed-Typed bs tag i64 8 (_, refl, fits_i64-i64_of_bits _ (bits-lt 8 bs))
  read_tag-Typed bs tag f64 = read_fixed-Typed bs tag f64 8 (_, refl, bits-lt 8 bs)
  read_tag-Typed bs tag u64 = read_fixed-Typed bs tag u64 8 (_, refl, bits-lt 8 bs)
  read_tag-Typed bs tag str = elim (Bool-cases (ltb (length bs) 4)) [
    | inl short ↦ rw short tt
    | inr prefixed ↦ elim (Bool-cases (ltb (length bs) (4 + from_ne_bytes rt.endian (take 4 bs)))) [
      | inl short ↦ rw (prefixed, short) tt
      | inr enough ↦ rw (prefixed, enough) (_, refl)
    ]
  ]

  -- A value that `unpack_one` returns is of the type of which its tag is a name, and an integer or the
  -- bits of a float are in the range of that type.
  pub unpack_one-IsOf :
      (bs : List ℕ) (tag : String) (v : Value) (n : ℕ)
      → unpack_one rt bs tag ≡ ok (v, n)
      → (t : Tag) × Names t tag × IsOf t v
  unfolding unpack_one
  unpack_one-IsOf bs tag v n e = by_tag (parse_tag tag) refl
    where
      by_tag : (o : Option Tag) → parse_tag tag ≡ o → (t : Tag) × Names t tag × IsOf t v
      by_tag none unknown =
          let fails : invalid {A = Value × ℕ} (unknown_tag tag) ≡ ok (v, n) =
            rw (unknown, unpack_one) at e in
          absurd (unfold invalid in cc)
      by_tag (some t) known =
          let read : read_tag rt bs tag t ≡ ok (v, n) = rw (known, unpack_one) at e in
          let typed : Typed t (ok (v, n)) = rw read at (read_tag-Typed bs tag t) in
          (t, Names-parse_tag t tag known, typed)
