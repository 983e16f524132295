-- ===== src/View/Errors.antt =====
-- A method that fails leaves everything as it was.
use membridge.Common.{
  ℕ, ◌-◌, ◌<◌, ◌≡◌, refl, Bool-cases, inl, inr, Option, none, some, List, [], arith, length,
  replicate, ltb, ◌==◌,
}
use membridge.Error.{PyResult, ok, err}
use membridge.Codec.Value.{Runtime}
use membridge.Codec.Pack.{pack_value, pack_mixed}
use membridge.Codec.Mixed.{SchemaEntry}
use membridge.View.{View, Segment, data_size, check_bounds, copy_into, position, advance}
use membridge.View.Guard.{Done, read_guarded}
use membridge.View.Bodies.{Returns, read_guarded_run, write_guarded_run}
use membridge.View.Methods.{
  Method, read_all_call, zero_call, tell_call, reader_count_call, is_write_locked_call, size_call,
  read_range_call, write_call, write_mixed_call, seek_call, read_call, read_mixed_call, Reply,
  reply_with, invoke, read_all, read_range, write_packed, write, write_mixed, seek, read,
  read_mixed, zero as zero_area, finish, and_then,
}

module _ (rt : Runtime) (spins : ℕ) (v : View) (m : Segment) (some_fuel : 0 < spins) where
  -- After an error the view and the segment are the same.
  abbrev pub FailsClean : {A : Type 0} → PyResult A → View → Segment → Type 0
  FailsClean (ok a) v' m' = Unit
  FailsClean (err e) v' m' = (v' ≡ v) × (m' ≡ m)

  and_then-FailsClean :
      {A B : Type 0} (r : PyResult A) (k : A → Done B)
      → ((a : A) → Returns FailsClean (k a))
      → Returns FailsClean (and_then r v m k)
  and_then-FailsClean (ok a) k h = h a
  and_then-FailsClean (err e) k h = (refl, refl)

  reply_with-FailsClean :
      {A : Type 0} (f : A → Reply) (d : Done A)
      → Returns FailsClean d
      → Returns FailsClean (reply_with f d)
  reply_with-FailsClean f none h = h
  reply_with-FailsClean f (some (ok a, v', m')) h = tt
  reply_with-FailsClean f (some (err e, v', m')) h = h

  reader-FailsClean :
      {A : Type 0} (body : List ℕ → PyResult A × View)
      → m.word ≡ 0
      → FailsClean (body m.area).0 (body m.area).1 m
      → Returns FailsClean (read_guarded spins m body)
  reader-FailsClean body free h = rw (read_guarded_run spins m body some_fuel (omega arith)) h

  finish-FailsClean :
      {A : Type 0} (offset : Option ℕ) (r : PyResult (A × ℕ))
      → FailsClean (finish v offset r).0 (finish v offset r).1 m
  unfolding finish
  finish-FailsClean offset (ok (a, n)) = tt
  finish-FailsClean offset (err e) = (refl, refl)

  write_packed-FailsClean :
      (packed : List ℕ) (offset : Option ℕ)
      → m.word ≡ 0
      → Returns FailsClean (write_packed rt spins v m packed offset)
  unfolding write_packed
  write_packed-FailsClean packed offset free =
      and_then-FailsClean (check_bounds v (position v offset) (length packed)) _ λ u.
        rw
          (write_guarded_run spins m
            (λ area.
              (ok tt, advance v offset (length packed), copy_into area (position v offset) packed))
            some_fuel free)
          tt

  zero-FailsClean : m.word ≡ 0 → Returns FailsClean (zero_area rt spins v m)
  unfolding zero_area
  zero-FailsClean free =
      rw
        (write_guarded_run spins m
          (λ area. (ok tt, v, copy_into area 0 (replicate (data_size v) 0))) some_fuel free)
        tt

  seek-FailsClean : (pos : ℕ) → Returns FailsClean (seek rt spins v m pos)
  unfolding seek
  seek-FailsClean pos = elim (Bool-cases (ltb (data_size v) pos)) [
    | inl past ↦ rw past (refl, refl)
    | inr inside ↦ rw inside tt
  ]

  read_mixed-FailsClean :
      (schema : List SchemaEntry) (offset : Option ℕ)
      → m.word ≡ 0
      → Returns FailsClean (read_mixed rt spins v m schema offset)
  unfolding read_mixed
  read_mixed-FailsClean schema offset free =
      elim (Bool-cases (data_size v - position v offset == 0)) [
        | inl nothing ↦ rw nothing (refl, refl)
        | inr something ↦ rw something (reader-FailsClean _ free (finish-FailsClean offset _))
      ]

  -- On a segment whose lock is free, every method of the view returns, and where it fails the view, its
  -- cursor included, the lock and the data are as they were.
  pub invoke-FailsClean : (c : Method) → m.word ≡ 0 → Returns FailsClean (invoke rt spins c v m)
  unfolding invoke
  invoke-FailsClean read_all_call free =
      reply_with-FailsClean _ _ (unfold read_all in reader-FailsClean _ free tt)
  invoke-FailsClean zero_call free = reply_with-FailsClean _ _ (zero-FailsClean free)
  invoke-FailsClean tell_call free = tt
  invoke-FailsClean reader_count_call free = tt
  invoke-FailsClean is_write_locked_call free = tt
  invoke-FailsClean size_call free = tt
  invoke-FailsClean (read_range_call offset len) free = reply_with-FailsClean _ _ (
      unfold read_range in
      and_then-FailsClean (check_bounds v offset len) _ λ u. reader-FailsClean _ free tt)
  invoke-FailsClean (write_call value offset) free = reply_with-FailsClean _ _ (
      unfold write in
      and_then-FailsClean (pack_value rt value []) _
        λ packed. write_packed-FailsClean packed offset free)
  invoke-FailsClean (write_mixed_call items offset) free = reply_with-FailsClean _ _ (
      unfold write_mixed in
      and_then-FailsClean (pack_mixed rt items) _
        λ packed. write_packed-FailsClean packed offset free)
  invoke-FailsClean (seek_call pos) free = reply_with-FailsClean _ _ (seek-FailsClean pos)
  invoke-FailsClean (read_call tag) free =
      reply_with-FailsClean _ _ (unfold read in reader-FailsClean _ free (finish-FailsClean none _))
  invoke-FailsClean (read_mixed_call schema offset) free =
      reply_with-FailsClean _ _ (read_mixed-FailsClean schema offset free)
