-- ===== src/View/RoundTrip.antt =====
-- What one view writes, another view of the same segment reads.
use membridge.Common.{
  ℕ, ◌+◌, ◌-◌, ◌^◌, ◌≤◌, ◌<◌, ◌≡◌, refl, sym, ap, ap₂, ◌∙◌, Option, some, none, List, ◌++◌, map,
  arith, length, All, ne→==,
}
use membridge.Common.Words.{add_usize, sub_usize}
use membridge.Error.{ok}
use membridge.Codec.Value.{Runtime, DecodesText, Value, PyObject}
use membridge.Codec.Pack.{encode, pack_value, pack_mixed}
use membridge.Codec.Unpack.{unpack_one}
use membridge.Codec.Mixed.{unpack_mixed_counted}
use membridge.Codec.RoundTrip.{tag_of, Readable, unpack_one-encode, wire, encode-wire}
use membridge.Codec.Groups.{wire-pos}
use membridge.Codec.MixedTrip.{Describable, describe, returned, unpack_mixed_counted-pack_mixed}
use membridge.View.{View, Segment, data_size, check_bounds, copy_into, slice, position, advance}
use membridge.View.Copy.{slice-copy_into}
use membridge.View.Bodies.{read_guarded_run, write_guarded_run, length-copy_into, length-slice}
use membridge.View.Methods.{write_packed, write, write_mixed, read, read_mixed, finish}
use membridge.View.Valid.{IsValid}

position-same :
    (u v : View) (offset : Option ℕ) → u.cursor ≡ v.cursor → position u offset ≡ position v offset
unfolding position
position-same u v (some o) e = refl
position-same u v none e = e

module _ (rt : Runtime) (spins : ℕ) (some_fuel : 0 < spins) (m : Segment) (free : m.word ≡ 0) where
  -- A write of bytes that fit returns, moves the cursor if it was used, and changes only the area.
  pub write_packed_run :
      (v : View) (packed : List ℕ) (offset : Option ℕ)
      → check_bounds v (position v offset) (length packed) ≡ ok tt
      → write_packed rt spins v m packed offset
        ≡ some (
          ok tt,
          advance v offset (length packed),
          record m { area = copy_into m.area (position v offset) packed },
        )
  unfolding write_packed
  write_packed_run v packed offset inside = rw inside (
      write_guarded_run spins m
        (λ area.
          (ok tt, advance v offset (length packed), copy_into area (position v offset) packed))
        some_fuel free)

  -- A reader of which the rest of the area begins with a packed value.
  read_packed_run :
      (u : View) (x : Value) (packed rest : List ℕ)
      → DecodesText rt
      → Readable rt x
      → encode rt x ≡ ok packed
      → slice m.area u.cursor (sub_usize (data_size u) u.cursor) ≡ packed ++ rest
      → read rt spins u m (tag_of x) ≡ some (ok x, advance u none (length packed), m)
  unfolding read finish
  read_packed_run u x packed rest d r e begins =
      read_guarded_run spins m
        (λ area.
          finish u none
            (unpack_one rt (slice area u.cursor (sub_usize (data_size u) u.cursor)) (tag_of x)))
        some_fuel (omega arith)
      ∙ rw (begins, unpack_one-encode rt x packed rest d r e)

  -- The same for a list and its schema.
  read_mixed_packed_run :
      (u : View) (os : List PyObject) (packed rest : List ℕ) (offset : Option ℕ)
      → DecodesText rt
      → All (Describable rt) os
      → length (packed ++ rest) < 2 ^ 64
      → pack_mixed rt os ≡ ok packed
      → 0 < data_size u - position u offset
      → slice m.area (position u offset) (data_size u - position u offset) ≡ packed ++ rest
      → read_mixed rt spins u m (map describe os) offset
        ≡ some (ok (map returned os), advance u offset (length packed), m)
  unfolding read_mixed finish
  read_mixed_packed_run u os packed rest offset d h small e available begins =
      rw (ne→== (data_size u - position u offset) 0 (omega arith)) (
        read_guarded_run spins m
          (λ area. finish u offset (
            unpack_mixed_counted rt
              (slice area (position u offset) (data_size u - position u offset)) (map describe os)))
          some_fuel (omega arith)
        ∙ rw (begins, unpack_mixed_counted-pack_mixed rt os packed rest d h small e))

module _ (rt : Runtime) (spins : ℕ) (some_fuel : 0 < spins) (m : Segment) (free : m.word ≡ 0) where
  module _ (v : View) (valid : IsValid v m) where
    pub bounds_met :
        (pos : ℕ) (packed : List ℕ)
        → 0 < length packed
        → pos + length packed ≤ data_size v
        → check_bounds v pos (length packed) ≡ ok tt
    unfolding check_bounds
    bounds_met pos packed some_bytes fits = ground (arith, valid.limit)

    -- On a segment whose lock is free, with views `v` and `u` valid for it and at the same cursor: if a
    -- readable value's bytes fit, `write` at the cursor of `v` returns, `read` through `u` then returns
    -- the value by its tag, and both cursors have moved behind it. The runtime decodes the text that
    -- it encoded.
    pub read-write :
        (u : View) (x : Value) (packed : List ℕ)
        → IsValid u m
        → u.cursor ≡ v.cursor
        → DecodesText rt
        → Readable rt x
        → encode rt x ≡ ok packed
        → v.cursor + length packed ≤ data_size v
        → (v' : View) × (m' : Segment) × (write rt spins v m x none ≡ some (ok tt, v', m'))
          × (read rt spins u m' (tag_of x) ≡ some (ok x, record u { cursor = v'.cursor }, m'))
          × (v'.cursor ≡ v.cursor + length packed)
    unfolding write pack_value position advance
    read-write u x packed valid_u same d r e fits =
        let (rest, begins) =
          slice-copy_into m.area v.cursor (data_size v - v.cursor) packed
            (omega (arith, valid.sized)) (omega arith) in
        (
          advance v none (length packed),
          after,
          rw e (
              write_packed_run rt spins some_fuel m free v packed none
                (bounds_met v.cursor packed some_bytes fits)),
          read_packed_run rt spins some_fuel after free u x packed rest d r e
                (ap₂ (slice after.area) same reach ∙ begins)
              ∙ ap (λ c. some (ok x, record u { cursor = c }, after))
                  (ap (λ c. add_usize c (length packed)) same),
          omega (arith, valid.limit),
        )
      where
        after : Segment
        after = record m { area = copy_into m.area v.cursor packed }

        some_bytes : 0 < length packed
        some_bytes =
            let e' : wire rt x ≡ packed = cc (encode-wire rt x r) in rw e' at (wire-pos rt x r)

        reach : sub_usize (data_size u) u.cursor ≡ data_size v - v.cursor
        reach = omega (arith, valid.sized, valid_u.sized, valid_u.limit, valid_u.cursor_le, same)

    -- On a segment whose lock is free, with views `v` and `u` valid for it and at the same cursor: if
    -- the bytes of describable items are some and fit, `write_mixed` through `v`, at an offset or at the
    -- cursor, returns, and `read_mixed` at the same place through `u`, under the schema that describes
    -- the items, then returns them, a list of one as its element. The runtime decodes the text that it
    -- encoded.
    pub read_mixed-write_mixed :
        (u : View) (os : List PyObject) (packed : List ℕ) (offset : Option ℕ)
        → IsValid u m
        → u.cursor ≡ v.cursor
        → DecodesText rt
        → All (Describable rt) os
        → pack_mixed rt os ≡ ok packed
        → 0 < length packed
        → position v offset + length packed ≤ data_size v
        → (m' : Segment) × (write_mixed rt spins v m os offset
            ≡ some (ok tt, advance v offset (length packed), m'))
          × (read_mixed rt spins u m' (map describe os) offset
              ≡ some (ok (map returned os), advance u offset (length packed), m'))
    unfolding write_mixed
    read_mixed-write_mixed u os packed offset valid_u same d h e some_bytes fits =
        let pos : ℕ = position v offset in
        let (rest, begins) =
          slice-copy_into m.area pos (data_size v - pos) packed (omega (arith, valid.sized))
            (omega arith) in
        (
          after,
          rw e (
              write_packed_run rt spins some_fuel m free v packed offset
                (bounds_met (position v offset) packed some_bytes fits)),
          read_mixed_packed_run rt spins some_fuel after free u os packed rest offset d h
              (omega (
                arith,
                ap length begins,
                length-slice after.area pos (data_size v - pos),
                area_size,
                valid.limit,
                valid.sized,
              ))
              e (omega (arith, at_same, same_size))
              (ap₂ (slice after.area) at_same (ap₂ ◌-◌ same_size at_same) ∙ begins),
        )
      where
        after : Segment
        after = record m { area = copy_into m.area (position v offset) packed }

        area_size : length after.area ≡ length m.area
        area_size = length-copy_into m.area (position v offset) packed (omega (arith, valid.sized))

        at_same : position u offset ≡ position v offset
        at_same = position-same u v offset same

        same_size : data_size u ≡ data_size v
        same_size = sym valid_u.sized ∙ valid.sized
