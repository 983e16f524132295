-- ===== src/View/Valid.antt =====
-- A valid view stays valid, and every method returns with the lock as it found it.
use membridge.Common.{
  ℕ, ◌+◌, ◌-◌, ◌^◌, ◌≤◌, ◌<◌, ◌≡◌, inl, inr, refl, ◌∙◌, Bool-cases, String, Option, some, none,
  List, [], arith, length, replicate, length-replicate, ltb, ◌==◌,
}
use membridge.Common.Words.{sub_usize}
use membridge.Error.{PyResult, ok, err}
use membridge.Codec.Value.{Runtime}
use membridge.Codec.Pack.{pack_value, pack_mixed}
use membridge.Codec.Unpack.{unpack_one}
use membridge.Codec.Mixed.{SchemaEntry, unpack_mixed_counted}
use membridge.Codec.Bounds.{unpack_one-le, unpack_mixed_counted_bounds}
use membridge.View.{
  View, Segment, rwlock_size, data_size, check_bounds, copy_into, slice, position, advance,
}
use membridge.View.Guard.{Done, read_guarded, write_guarded}
use membridge.View.Bodies.{
  Returns, read_guarded_run, write_guarded_run, length-copy_into, length-slice, check_bounds-le,
}
use membridge.View.Methods.{
  Method, read_all_call, zero_call, tell_call, reader_count_call, is_write_locked_call, size_call,
  read_range_call, write_call, write_mixed_call, seek_call, read_call, read_mixed_call, Reply,
  reply_with, invoke, read_all, read_range, write_packed, write, write_mixed, seek, read,
  read_mixed, zero as zero_area, finish, and_then,
}

pub record IsValid (v : View) (m : Segment) : Type 0 where
  pub header : rwlock_size < v.size
  pub limit : v.size < 2 ^ 63
  pub sized : length m.area ≡ data_size v
  pub cursor_le : v.cursor ≤ data_size v

module _ (rt : Runtime) (spins : ℕ) (v : View) (m : Segment) (some_fuel : 0 < spins)
    (valid : IsValid v m) where
  -- The view and the segment after a call.
  abbrev pub Kept : View → Segment → Type 0
  Kept v' m' = IsValid v' m' × (m'.word ≡ m.word) × (v'.size ≡ v.size)

  unchanged : Kept v m
  unchanged = (valid, refl, refl)

  moved : (c : ℕ) → c ≤ data_size v → Kept (record v { cursor = c }) m
  moved c le = (
    record { header = valid.header; limit = valid.limit; sized = valid.sized; cursor_le = le },
    refl,
    refl,
  )

  and_then-Kept :
      {A B : Type 0} (r : PyResult A) (k : A → Done B)
      → ((a : A) → r ≡ ok a → Returns (λ _. Kept) (k a))
      → Returns (λ _. Kept) (and_then r v m k)
  and_then-Kept (ok a) k h = h a refl
  and_then-Kept (err e) k h = unchanged

  reply_with-Kept :
      {A : Type 0} (f : A → Reply) (d : Done A)
      → Returns (λ _. Kept) d
      → Returns (λ _. Kept) (reply_with f d)
  reply_with-Kept f none h = h
  reply_with-Kept f (some (ok a, v', m')) h = h
  reply_with-Kept f (some (err e, v', m')) h = h

  reader-Kept :
      {A : Type 0} (body : List ℕ → PyResult A × View)
      → m.word ≡ 0
      → Kept (body m.area).1 m
      → Returns (λ _. Kept) (read_guarded spins m body)
  reader-Kept body free h = rw (read_guarded_run spins m body some_fuel (omega arith)) h

  writer-Kept :
      {A : Type 0} (body : List ℕ → PyResult A × View × List ℕ)
      → m.word ≡ 0
      → Kept (body m.area).1 (record m { area = (body m.area).2 })
      → Returns (λ _. Kept) (write_guarded spins m body)
  writer-Kept body free h = rw (write_guarded_run spins m body some_fuel free) h

  advance-Kept :
      (offset : Option ℕ) (n : ℕ) (area' : List ℕ)
      → position v offset + n ≤ data_size v
      → length area' ≡ length m.area
      → Kept (advance v offset n) (record m { area = area' })
  unfolding advance position
  advance-Kept (some o) n area' h len = (
    record {
      header = valid.header;
      limit = valid.limit;
      sized = len ∙ valid.sized;
      cursor_le = valid.cursor_le;
    },
    refl,
    refl,
  )
  advance-Kept none n area' h len = (
    record {
      header = valid.header;
      limit = valid.limit;
      sized = len ∙ valid.sized;
      cursor_le = omega (arith, valid.limit);
    },
    refl,
    refl,
  )

  finish-Kept :
      {A : Type 0} (offset : Option ℕ) (r : PyResult (A × ℕ))
      → ((a : A) (n : ℕ) → r ≡ ok (a, n) → position v offset + n ≤ data_size v)
      → Kept (finish v offset r).1 m
  unfolding finish
  finish-Kept offset (ok (a, n)) h = advance-Kept offset n m.area (h a n refl) refl
  finish-Kept offset (err e) h = unchanged

  write_packed-Kept :
      (packed : List ℕ) (offset : Option ℕ)
      → m.word ≡ 0
      → Returns (λ _. Kept) (write_packed rt spins v m packed offset)
  unfolding write_packed
  write_packed-Kept packed offset free =
      and_then-Kept (check_bounds v (position v offset) (length packed)) _ λ u e.
        let (some_bytes, le) =
          check_bounds-le v (position v offset) (length packed) u valid.limit e in
        writer-Kept
          (λ area.
            (ok tt, advance v offset (length packed), copy_into area (position v offset) packed))
          free
          (advance-Kept offset (length packed) (copy_into m.area (position v offset) packed) le
            (length-copy_into m.area (position v offset) packed (omega (arith, valid.sized))))

  read-Kept : (tag : String) → m.word ≡ 0 → Returns (λ _. Kept) (read rt spins v m tag)
  unfolding read
  read-Kept tag free =
      reader-Kept (λ area. finish v none (unpack_one rt (slice area v.cursor rest) tag)) free
        (finish-Kept none (unpack_one rt (slice m.area v.cursor rest) tag) (λ a n e.
          unfold position in
          omega (
            arith,
            unpack_one-le rt (slice m.area v.cursor rest) tag a n e,
            length-slice m.area v.cursor rest,
            valid.sized,
            valid.cursor_le,
          )))
    where
      rest : ℕ
      rest = sub_usize (data_size v) v.cursor

  read_mixed-Kept :
      (schema : List SchemaEntry) (offset : Option ℕ)
      → m.word ≡ 0
      → Returns (λ _. Kept) (read_mixed rt spins v m schema offset)
  unfolding read_mixed
  read_mixed-Kept schema offset free = elim (Bool-cases (available == 0)) [
    | inl nothing ↦ rw nothing unchanged
    | inr something ↦ rw something (
        reader-Kept
          (λ area. finish v offset (unpack_mixed_counted rt (slice area pos available) schema)) free
          (finish-Kept offset (unpack_mixed_counted rt (slice m.area pos available) schema)
            (λ os n e. ground (
              arith,
              something,
              unpack_mixed_counted_bounds rt (slice m.area pos available) schema os n small e,
              length-slice m.area pos available,
              valid.sized,
            ))))
  ]
    where
      pos : ℕ
      pos = position v offset

      available : ℕ
      available = data_size v - pos

      small : length (slice m.area pos available) < 2 ^ 63
      small = omega (arith, length-slice m.area pos available, valid.sized, valid.limit)

  seek-Kept : (pos : ℕ) → Returns (λ _. Kept) (seek rt spins v m pos)
  unfolding seek
  seek-Kept pos = elim (Bool-cases (ltb (data_size v) pos)) [
    | inl past ↦ rw past unchanged
    | inr inside ↦ rw inside (moved pos (ground arith))
  ]

  zero_area-Kept : m.word ≡ 0 → Returns (λ _. Kept) (zero_area rt spins v m)
  unfolding zero_area
  zero_area-Kept free =
      writer-Kept (λ area. (ok tt, v, copy_into area 0 zeros)) free
        (
          record {
            header = valid.header;
            limit = valid.limit;
            sized =
                length-copy_into m.area 0 zeros
                  (omega (arith, length-replicate {A = ℕ} (data_size v) 0, valid.sized))
                ∙ valid.sized;
            cursor_le = valid.cursor_le;
          },
          refl,
          refl,
        )
    where
      zeros : List ℕ
      zeros = replicate (data_size v) 0

  -- On a segment whose lock is free and for which the view is valid, every method returns, on errors
  -- too: the lock is then as it was, the view is still valid for the segment, and has the same size.
  pub invoke-Kept : (c : Method) → m.word ≡ 0 → Returns (λ _. Kept) (invoke rt spins c v m)
  unfolding invoke
  invoke-Kept read_all_call free =
      reply_with-Kept _ _ (unfold read_all in reader-Kept _ free unchanged)
  invoke-Kept zero_call free = reply_with-Kept _ _ (zero_area-Kept free)
  invoke-Kept tell_call free = unchanged
  invoke-Kept reader_count_call free = unchanged
  invoke-Kept is_write_locked_call free = unchanged
  invoke-Kept size_call free = unchanged
  invoke-Kept (read_range_call offset len) free = reply_with-Kept _ _ (
      unfold read_range in
      and_then-Kept (check_bounds v offset len) _ λ u e. reader-Kept _ free unchanged)
  invoke-Kept (write_call value offset) free = reply_with-Kept _ _ (
      unfold write in
      and_then-Kept (pack_value rt value []) _ λ packed e. write_packed-Kept packed offset free)
  invoke-Kept (write_mixed_call items offset) free = reply_with-Kept _ _ (
      unfold write_mixed in
      and_then-Kept (pack_mixed rt items) _ λ packed e. write_packed-Kept packed offset free)
  invoke-Kept (seek_call pos) free = reply_with-Kept _ _ (seek-Kept pos)
  invoke-Kept (read_call tag) free = reply_with-Kept _ _ (read-Kept tag free)
  invoke-Kept (read_mixed_call schema offset) free =
      reply_with-Kept _ _ (read_mixed-Kept schema offset free)
