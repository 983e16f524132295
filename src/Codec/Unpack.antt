-- ===== src/Codec/Unpack.antt =====
-- `unpack_one` and `unpack_mixed_counted`.
use text.Mathlib.Text.{◌==◌ as str_eq}
use membridge.Common.{
  ℕ, ◌+◌, not, String, Option, some, none, List, [], ◌∷◌, length, take, drop, get_or, ltb, ◌==◌,
  if◌then◌else◌,
}
use membridge.Common.Words.{add_usize}
use membridge.Error.{
  not_enough_data, not_enough_bool, not_enough_prefix, not_enough_payload, unknown_tag,
  cursor_out_of_bounds, PyResult, ok, invalid,
}
use membridge.Codec.Bytes.{from_ne_bytes}
use membridge.Codec.Value.{Runtime, pos, Value, i32_of_bits, i64_of_bits}

-- `check_bounds` of mixed.rs.
unfoldable pub check_bounds : ℕ → ℕ → ℕ → PyResult (Unit {0})
unfolding invalid
check_bounds cursor needed total =
    if ltb total (add_usize cursor needed)
    then invalid (cursor_out_of_bounds cursor needed total)
    else ok tt

-- The arms of `match tag`, the aliases joined.
pub data Tag : Type 0 where
  bool u8 f32 i32 u32 i64 f64 u64 str : Tag

unfoldable pub parse_tag : String → Option Tag
parse_tag t =
    if str_eq t "bool"
    then some bool
    else if str_eq t "u8"
    then some u8
    else if str_eq t "f32"
    then some f32
    else if str_eq t "i32"
    then some i32
    else if str_eq t "u32"
    then some u32
    else if str_eq t "int"
    then some i64
    else if str_eq t "i64"
    then some i64
    else if str_eq t "float"
    then some f64
    else if str_eq t "f64"
    then some f64
    else if str_eq t "u64"
    then some u64
    else if str_eq t "str"
    then some str
    else none

module _ (rt : Runtime) where
  -- The value that a tag of fixed width makes of its bytes.
  unfoldable pub decode : Tag → List ℕ → Value
  decode bool bs = Value.bool (not (get_or bs 0 0 == 0))
  decode u8 bs = Value.int (pos (from_ne_bytes rt.endian bs))
  decode f32 bs = Value.float (rt.widen_f32 (from_ne_bytes rt.endian bs))
  decode i32 bs = Value.int (i32_of_bits (from_ne_bytes rt.endian bs))
  decode u32 bs = Value.int (pos (from_ne_bytes rt.endian bs))
  decode i64 bs = Value.int (i64_of_bits (from_ne_bytes rt.endian bs))
  decode f64 bs = Value.float (from_ne_bytes rt.endian bs)
  decode u64 bs = Value.int (pos (from_ne_bytes rt.endian bs))
  decode str bs = Value.str (rt.from_utf8_lossy bs)

  -- `read_fixed!` of `unpack_one`, and its arms of four and eight bytes.
  unfoldable pub read_fixed : List ℕ → String → Tag → ℕ → PyResult (Value × ℕ)
  unfolding decode invalid
  read_fixed bs tag t size =
      if ltb (length bs) size
      then invalid (not_enough_data tag size (length bs))
      else ok (decode t (take size bs), size)

  unfoldable pub read_bool : List ℕ → PyResult (Value × ℕ)
  unfolding decode invalid
  read_bool [] = invalid not_enough_bool
  read_bool (b ∷ bs) = ok (decode bool (b ∷ []), 1)

  unfoldable pub read_str : List ℕ → PyResult (Value × ℕ)
  unfolding decode invalid
  read_str bs =
      let len = from_ne_bytes rt.endian (take 4 bs) in
      if ltb (length bs) 4
      then invalid not_enough_prefix
      else if ltb (length bs) (4 + len)
      then invalid (not_enough_payload (4 + len) (length bs))
      else ok (decode str (take len (drop 4 bs)), 4 + len)

  unfoldable pub read_tag : List ℕ → String → Tag → PyResult (Value × ℕ)
  unfolding read_fixed read_bool read_str
  read_tag bs tag bool = read_bool bs
  read_tag bs tag u8 = read_fixed bs tag u8 1
  read_tag bs tag f32 = read_fixed bs tag f32 4
  read_tag bs tag i32 = read_fixed bs tag i32 4
  read_tag bs tag u32 = read_fixed bs tag u32 4
  read_tag bs tag i64 = read_fixed bs tag i64 8
  read_tag bs tag f64 = read_fixed bs tag f64 8
  read_tag bs tag u64 = read_fixed bs tag u64 8
  read_tag bs tag str = read_str bs

  unfoldable pub unpack_one : List ℕ → String → PyResult (Value × ℕ)
  unfolding parse_tag read_tag invalid
  unpack_one bs tag = elim (parse_tag tag) [
    | some t ↦ read_tag bs tag t
    | none ↦ invalid (unknown_tag tag)
  ]
