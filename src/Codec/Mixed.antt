-- ===== src/Codec/Mixed.antt =====
-- `unpack_mixed_counted`: a schema of tags and counts, read from one cursor.
use membridge.Common.{
  ℕ, zero, suc, ◌^◌, true, false, String, Option, some, none, List, [], ◌∷◌, ◌++◌, length, take,
  drop, ltb, ◌==◌, if◌then◌else◌,
}
use membridge.Common.Words.{add_usize}
use membridge.Error.{
  unknown_schema_tag, schema_entry, PyResult, ok, err, type_error, index_error, overflow_error,
  unicode_error, invalid, ◌>>=◌, ◌>>◌,
}
use membridge.Codec.Bytes.{from_ne_bytes}
use membridge.Codec.Value.{Runtime, ℤ, pos, negsuc, Value, PyObject}
use membridge.Codec.Unpack.{Tag, parse_tag, decode, check_bounds}

-- An element of the `schema` list.
pub data SchemaEntry : Type 0 where
  tuple : List Value → SchemaEntry
  not_a_tuple : SchemaEntry

-- `tuple.get_item(i)?`
unfoldable pub get_item : List Value → ℕ → PyResult Value
get_item [] i = err index_error
get_item (v ∷ vs) zero = ok v
get_item (v ∷ vs) (suc i) = get_item vs i

-- `extract::<String>()`
unfoldable pub extract_string : Value → PyResult String
extract_string (Value.str s) = ok s
extract_string Value.ill_formed_str = err unicode_error
extract_string _ = err type_error

-- The `usize` that an `int` fits.
unfoldable pub usize_of_int : ℤ → PyResult ℕ
usize_of_int (pos n) = if ltb n (2 ^ 64) then ok n else err overflow_error
usize_of_int (negsuc n) = err overflow_error

-- `extract::<usize>()`, which goes by `__index__`; a `bool` is an `int`.
unfoldable pub extract_usize : Value → PyResult ℕ
unfolding usize_of_int
extract_usize (Value.int z) = usize_of_int z
extract_usize (Value.other name index) = index >>= usize_of_int
extract_usize (Value.bool true) = ok 1
extract_usize (Value.bool false) = ok 0
extract_usize _ = err type_error

module _ (rt : Runtime) (bs : List ℕ) where
  -- One round of a loop over `count`: the value, and the cursor behind it.
  unfoldable pub next_fixed : Tag → ℕ → ℕ → PyResult (Value × ℕ)
  unfolding check_bounds decode
  next_fixed t size cursor = do
    check_bounds cursor size (length bs)
    ok (decode rt t (take size (drop cursor bs)), add_usize cursor size)

  unfoldable pub next_str : ℕ → PyResult (Value × ℕ)
  unfolding check_bounds decode
  next_str cursor = do
    check_bounds cursor 4 (length bs)
    let len = from_ne_bytes rt.endian (take 4 (drop cursor bs))
    let cursor' = add_usize cursor 4
    check_bounds cursor' len (length bs)
    ok (decode rt Tag.str (take len (drop cursor' bs)), add_usize cursor' len)

  unfoldable pub next : Tag → ℕ → PyResult (Value × ℕ)
  unfolding next_fixed next_str
  next Tag.bool cursor = next_fixed Tag.bool 1 cursor
  next Tag.u8 cursor = next_fixed Tag.u8 1 cursor
  next Tag.f32 cursor = next_fixed Tag.f32 4 cursor
  next Tag.i32 cursor = next_fixed Tag.i32 4 cursor
  next Tag.u32 cursor = next_fixed Tag.u32 4 cursor
  next Tag.i64 cursor = next_fixed Tag.i64 8 cursor
  next Tag.f64 cursor = next_fixed Tag.f64 8 cursor
  next Tag.u64 cursor = next_fixed Tag.u64 8 cursor
  next Tag.str cursor = next_str cursor

  -- The loop over `count`, with `group` as it grows.
  unfoldable pub read_group : Tag → ℕ → List Value → ℕ → PyResult (List Value × ℕ)
  unfolding next
  read_group t zero group cursor = ok (group, cursor)
  read_group t (suc count) group cursor = do
    (v, cursor') ← next t cursor
    read_group t count (group ++ (v ∷ [])) cursor'

  -- A group of one is stored bare; `group.get_item(0)?` then succeeds.
  unfoldable pub close_group : ℕ → List Value → PyResult PyObject
  unfolding get_item
  close_group count group =
      if count == 1
      then (do v ← get_item group 0; ok (PyObject.value v))
      else ok (PyObject.list group)

  -- `match tag`, and the group appended to the result.
  unfoldable pub read_tagged : Option Tag → String → ℕ → ℕ → PyResult (PyObject × ℕ)
  unfolding read_group close_group invalid
  read_tagged none tag count cursor = invalid (unknown_schema_tag tag)
  read_tagged (some t) tag count cursor = do
    (group, cursor') ← read_group t count [] cursor
    entry ← close_group count group
    ok (entry, cursor')

  unfoldable pub read_entry : SchemaEntry → ℕ → PyResult (PyObject × ℕ)
  unfolding get_item extract_string extract_usize parse_tag read_tagged
  read_entry not_a_tuple cursor = invalid schema_entry
  read_entry (tuple items) cursor = do
    first ← get_item items 0
    tag ← extract_string first
    second ← get_item items 1
    count ← extract_usize second
    read_tagged (parse_tag tag) tag count cursor

  unfoldable pub read_schema : List SchemaEntry → List PyObject → ℕ → PyResult (List PyObject × ℕ)
  unfolding read_entry
  read_schema [] result cursor = ok (result, cursor)
  read_schema (entry ∷ schema) result cursor = do
    (item, cursor') ← read_entry entry cursor
    read_schema schema (result ++ (item ∷ [])) cursor'

-- `unpack_mixed_counted(data, schema)`: the list and the number of bytes consumed.
unfoldable pub unpack_mixed_counted :
    Runtime → List ℕ → List SchemaEntry → PyResult (List PyObject × ℕ)
unfolding read_schema
unpack_mixed_counted rt bs schema = read_schema rt bs schema [] 0
