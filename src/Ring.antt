-- ===== src/Ring.antt =====
-- src/spsc.rs: the single-producer, single-consumer ring buffer of length-prefixed messages, one
-- call at a time. `Segment` is the mapped memory, its header fields read as numbers.
pub mod Window
pub mod Access
pub mod Holds
pub mod Refine
pub mod Take
pub mod Client
pub mod Setup
pub mod Layout
pub mod Duplex
use Prim.Native.Nat.{bit_and}
use membridge.Common.{
  ℕ, zero, suc, ◌+◌, ◌-◌, ◌%◌, ◌/◌, ◌*◌, ◌^◌, Bool, true, false, String, Option, some, none, List,
  [], ◌∷◌, length, get_or, set, ltb, leb, ◌==◌, if◌then◌else◌,
}
use membridge.Common.Words.{add_usize, sub_usize, is_power_of_two, next_power_of_two}
use membridge.Error.{
  message_too_large, map_too_small, capacity_not_power_of_two, PyResult, ok, err, invalid, ◌>>=◌,
}
use membridge.Codec.Bytes.{to_ne_bytes, from_ne_bytes}
use membridge.Codec.Value.{Runtime, Value, bytes, PyObject}
use membridge.Codec.Pack.{pack_item}
use membridge.Codec.Unpack.{unpack_one}
use membridge.Codec.Mixed.{SchemaEntry, unpack_mixed_counted}

-- `[head | tail | capacity | data]`
pub record Segment : Type 0 where
  pub head : ℕ
  pub tail : ℕ
  pub capacity : ℕ
  pub area : List ℕ

abbrev pub header_size : ℕ
header_size = 24

-- `(pos + i) & mask`, the byte of the area that both loops access in round `i`.
unfoldable pub index : (pos i cap : ℕ) → ℕ
index pos i cap = bit_and (add_usize pos i) (sub_usize cap 1)

-- The loop of `write_bytes`, from `i` on. A store outside the area is dropped.
unfoldable pub write_from : List ℕ → ℕ → ℕ → List ℕ → ℕ → List ℕ
write_from area pos i [] cap = area
write_from area pos i (byte ∷ src) cap =
    write_from (set area (index pos i cap) byte) pos (i + 1) src cap

unfoldable pub write_bytes : List ℕ → ℕ → List ℕ → ℕ → List ℕ
unfolding write_from
write_bytes area pos src cap = write_from area pos 0 src cap

-- The loop of `read_bytes`, from `i` on, for `n` more bytes.
unfoldable pub read_from : List ℕ → ℕ → ℕ → ℕ → ℕ → List ℕ
read_from area pos i zero cap = []
read_from area pos i (suc n) cap =
    get_or area (index pos i cap) 0 ∷ read_from area pos (i + 1) n cap

unfoldable pub read_bytes : List ℕ → ℕ → ℕ → ℕ → List ℕ
unfolding read_from
read_bytes area pos n cap = read_from area pos 0 n cap

-- `new`: what a creator writes into the header; an opener changes nothing.
unfoldable pub new : ℕ → Bool → Segment → PyResult Segment
unfolding invalid
new map_size is_creator m =
    if leb map_size header_size
    then invalid map_too_small
    else if is_creator
    then (let capacity = map_size - header_size in
        if is_power_of_two capacity
        then ok (record m { head = 0; tail = 0; capacity = capacity })
        else invalid (
            capacity_not_power_of_two capacity (next_power_of_two capacity / 2)
              (next_power_of_two capacity)))
    else ok m

-- `used`, `free`, `is_empty`, `is_full`
unfoldable pub used : Segment → ℕ
used m = sub_usize m.tail m.head

unfoldable pub free : Segment → ℕ
unfolding used
free m = m.capacity - used m

unfoldable pub is_empty : Segment → Bool
is_empty m = m.head == m.tail

unfoldable pub is_full : Segment → Bool
unfolding used
is_full m = leb m.capacity (used m)

-- What a call returns for the frame that it took: `None` for none, else what reading it gives.
unfoldable pub answer {ℓ} :
    {A : Type ℓ} → (List ℕ → PyResult (Option A)) → Option (List ℕ) → PyResult (Option A)
answer read none = ok none
answer read (some payload) = read payload

module _ (rt : Runtime) where
  -- The frame written at `tail`, and `tail` moved behind it.
  unfoldable pub publish : List ℕ → Segment → Segment
  unfolding write_bytes
  publish payload m =
      let len_bytes = to_ne_bytes rt.endian 4 (length payload % 2 ^ 32) in
      let prefixed = write_bytes m.area m.tail len_bytes m.capacity in
      record m {
        area = write_bytes prefixed (add_usize m.tail 4) payload m.capacity;
        tail = add_usize m.tail (4 + length payload);
      }

  -- `push` from the packed payload on; `map_size` is the handle's field.
  unfoldable pub push_payload : ℕ → List ℕ → Segment → PyResult Bool × Segment
  unfolding publish used invalid
  push_payload map_size payload m =
      let frame_len = 4 + length payload in
      if ltb m.capacity frame_len
      then (invalid (message_too_large frame_len m.capacity map_size), m)
      else if ltb m.capacity (add_usize (used m) frame_len)
      then (ok false, m)
      else (ok true, publish payload m)

  -- `push` behind the `?` of its packing.
  unfoldable pub push_packed : ℕ → PyResult (List ℕ) → Segment → PyResult Bool × Segment
  push_packed map_size (ok payload) m = push_payload map_size payload m
  push_packed map_size (err e) m = (err e, m)

  unfoldable pub push : ℕ → PyObject → Segment → PyResult Bool × Segment
  unfolding push_packed
  push map_size o m = push_packed map_size (pack_item rt o []) m

  -- The part that `pop` and `pop_mixed` share: the payload at `head`, and `head` moved behind it.
  unfoldable pub take_frame : Segment → Option (List ℕ) × Segment
  unfolding read_bytes
  take_frame m =
      let payload_len = from_ne_bytes rt.endian (read_bytes m.area m.head 4 m.capacity) in
      let payload = read_bytes m.area (add_usize m.head 4) payload_len m.capacity in
      if m.head == m.tail
      then (none, m)
      else (some payload, record m { head = add_usize m.head (4 + payload_len) })

  unfoldable pub typed : List ℕ → Option String → PyResult (Option Value)
  typed payload none = ok (some (bytes payload))
  typed payload (some tag) = do (v, consumed) ← unpack_one rt payload tag; ok (some v)

  unfoldable pub pop : Option String → Segment → PyResult (Option Value) × Segment
  unfolding answer
  pop tag m = let (frame, m') = take_frame m in (answer (λ payload. typed payload tag) frame, m')

  unfoldable pub grouped : List ℕ → List SchemaEntry → PyResult (Option (List PyObject))
  grouped payload schema = do
    (result, consumed) ← unpack_mixed_counted rt payload schema
    ok (some result)

  unfoldable pub pop_mixed :
      List SchemaEntry → Segment → PyResult (Option (List PyObject)) × Segment
  unfolding answer
  pop_mixed schema m =
      let (frame, m') = take_frame m in (answer (λ payload. grouped payload schema) frame, m')
