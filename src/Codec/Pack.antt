-- ===== src/Codec/Pack.antt =====
-- `pack_value` and `pack_mixed`.
use membridge.Common.{ℕ, ◌%◌, ◌^◌, true, false, List, [], ◌∷◌, ◌++◌, length, if◌then◌else◌}
use membridge.Error.{
  unsupported_type, PyResult, ok, err, overflow_error, unicode_error, invalid, ◌>>=◌,
}
use membridge.Codec.Bytes.{to_ne_bytes}
use membridge.Codec.Value.{
  Runtime, Value, bool, int, float, str, ill_formed_str, bytes, bytearray, other, PyObject, value,
  list, bits_of_i64, fits_i64,
}

module _ (rt : Runtime) where
  -- The bytes that a value adds to `out`; `as u32` keeps the low 32 bits of the length.
  unfoldable pub encode : Value → PyResult (List ℕ)
  unfolding invalid
  encode (bool true) = ok (1 ∷ [])
  encode (bool false) = ok (0 ∷ [])
  encode (int z) =
      if fits_i64 z then ok (to_ne_bytes rt.endian 8 (bits_of_i64 z)) else err overflow_error
  encode (float w) = ok (to_ne_bytes rt.endian 8 w)
  encode (str s) =
      let encoded = rt.as_bytes s in
      ok (to_ne_bytes rt.endian 4 (length encoded % 2 ^ 32) ++ encoded)
  encode ill_formed_str = err unicode_error
  encode (bytes bs) = ok bs
  encode (bytearray bs) = ok bs
  encode (other name index) = invalid (unsupported_type name)

  -- `pack_value(v, out)`: the buffer after the call.
  unfoldable pub pack_value : Value → List ℕ → PyResult (List ℕ)
  unfolding encode
  pack_value v out = do packed ← encode v; ok (out ++ packed)

  unfoldable pub pack_values : List Value → List ℕ → PyResult (List ℕ)
  unfolding pack_value
  pack_values [] out = ok out
  pack_values (v ∷ vs) out = do out' ← pack_value v out; pack_values vs out'

  unfoldable pub pack_item : PyObject → List ℕ → PyResult (List ℕ)
  unfolding pack_values
  pack_item (list vs) out = pack_values vs out
  pack_item (value v) out = pack_value v out

  unfoldable pub pack_items : List PyObject → List ℕ → PyResult (List ℕ)
  unfolding pack_item
  pack_items [] out = ok out
  pack_items (item ∷ items) out = do out' ← pack_item item out; pack_items items out'

  unfoldable pub pack_mixed : List PyObject → PyResult (List ℕ)
  unfolding pack_items
  pack_mixed items = pack_items items []
