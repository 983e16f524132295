-- ===== src/View/Sessions/Plans.antt =====
-- A plan that is carried out in one go is the method, and keeps inside the data area.
use membridge.Common.{
  ℕ, ◌+◌, ◌-◌, ◌≤◌, ◌<◌, ◌≡◌, ◌∙◌, refl, ap, inl, inr, Bool-cases, Option, some, List, [], length,
  replicate, arith, length-replicate, ltb, ◌==◌,
}
use membridge.Common.Words.{sub_usize}
use membridge.Error.{PyResult, ok, err, invalid}
use membridge.Codec.Value.{Runtime}
use membridge.Codec.Pack.{pack_value, pack_mixed}
use membridge.View.{View, Segment, data_size, check_bounds, copy_into, slice, position, advance}
use membridge.View.Guard.{Done, read_guarded, write_guarded}
use membridge.View.Bodies.{read_guarded_run, write_guarded_run, check_bounds-le}
use membridge.View.Valid.{IsValid}
use membridge.View.Methods.{
  Method, read_all_call, zero_call, tell_call, reader_count_call, is_write_locked_call, size_call,
  read_range_call, write_call, write_mixed_call, seek_call, read_call, read_mixed_call, Reply, unit,
  one, many, reply_with, and_then, invoke, read_all, read_range, write_packed, write, write_mixed,
  seek, read, read_mixed, zero as zero_area, tell, reader_count, is_write_locked, size as view_size,
}
use membridge.View.Sessions.{
  Plan, unguarded, observes, reader, writer, try, reply, plan_packed, plan,
}

unfoldable pub carry_out : Plan → Segment → Done Reply
carry_out (unguarded result v) m = some (result, v, m)
carry_out (observes f v) m = some (ok (f m.word), v, m)
carry_out (reader pos len k) m = let (result, v) = k (slice m.area pos len) in some (result, v, m)
carry_out (writer pos packed result v) m =
    some (result, v, record m { area = copy_into m.area pos packed })

module _ (rt : Runtime) (spins : ℕ) (m : Segment) (some_fuel : 0 < spins) (free : m.word ≡ 0) where
  try_lem :
      {A B : Type 0} (r : PyResult A) (v : View) (k : A → Done B) (f : B → Reply) (p : A → Plan)
      → ((a : A) → reply_with f (k a) ≡ carry_out (p a) m)
      → reply_with f (and_then r v m k) ≡ carry_out (try r v p) m
  unfolding try carry_out
  try_lem (ok a) v k f p h = h a
  try_lem (err e) v k f p h = refl

  reply_with-some :
      {A : Type 0} (f : A → Reply) (t : PyResult A × View)
      → reply_with f (some (t.0, t.1, m)) ≡ some ((reply f t).0, (reply f t).1, m)
  unfolding reply
  reply_with-some f (ok a, v) = refl
  reply_with-some f (err e, v) = refl

  reader_lem :
      {A : Type 0} (f : A → Reply) (body : List ℕ → PyResult A × View) (pos len : ℕ)
      (k : List ℕ → PyResult Reply × View)
      → reply f (body m.area) ≡ k (slice m.area pos len)
      → reply_with f (read_guarded spins m body) ≡ carry_out (reader pos len k) m
  unfolding carry_out reply
  reader_lem f body pos len k same =
      rw (read_guarded_run spins m body some_fuel (omega (arith, free)))
        (reply_with-some f (body m.area) ∙ ap (λ t. some (t.0, t.1, m)) same)

  writer_lem :
      (body : List ℕ → PyResult (Unit {0}) × View × List ℕ) (pos : ℕ) (packed : List ℕ) (v : View)
      → body m.area ≡ (ok tt, v, copy_into m.area pos packed)
      → reply_with (λ _. unit) (write_guarded spins m body)
        ≡ carry_out (writer pos packed (ok unit) v) m
  unfolding carry_out
  writer_lem body pos packed v same = rw (write_guarded_run spins m body some_fuel free, same) refl

  packed_lem :
      (v : View) (offset : Option ℕ) (packed : List ℕ)
      → reply_with (λ _. unit) (write_packed rt spins v m packed offset)
        ≡ carry_out (plan_packed rt v offset packed) m
  unfolding write_packed plan_packed
  packed_lem v offset packed =
      try_lem (check_bounds v (position v offset) (length packed)) v _ (λ _. unit) _
        λ u. writer_lem _ (position v offset) packed (advance v offset (length packed)) refl

  -- On a segment whose lock is free, each method does in one go what its plan says.
  pub plan-invoke : (c : Method) (v : View) → invoke rt spins c v m ≡ carry_out (plan rt c v) m
  unfolding invoke plan
  plan-invoke read_all_call v = unfold read_all in reader_lem one _ 0 (data_size v) _ refl
  plan-invoke zero_call v = unfold zero_area in writer_lem _ 0 (replicate (data_size v) 0) v refl
  plan-invoke tell_call v = unfold tell carry_out in refl
  plan-invoke reader_count_call v = unfold reader_count carry_out in refl
  plan-invoke is_write_locked_call v = unfold is_write_locked carry_out in refl
  plan-invoke size_call v = unfold view_size carry_out in refl
  plan-invoke (read_range_call offset len) v =
      unfold read_range in
      try_lem (check_bounds v offset len) v _ one _ λ u. reader_lem one _ offset len _ refl
  plan-invoke (write_call value offset) v =
      unfold write in
      try_lem (pack_value rt value []) v _ (λ _. unit) _ λ packed. packed_lem v offset packed
  plan-invoke (write_mixed_call items offset) v =
      unfold write_mixed in
      try_lem (pack_mixed rt items) v _ (λ _. unit) _ λ packed. packed_lem v offset packed
  plan-invoke (seek_call pos) v = elim (Bool-cases (ltb (data_size v) pos)) [
    | inl past ↦ unfold seek invalid carry_out in rw past refl
    | inr inside ↦ unfold seek invalid carry_out in rw inside refl
  ]
  plan-invoke (read_call tag) v =
      unfold read in reader_lem one _ v.cursor (sub_usize (data_size v) v.cursor) _ refl
  plan-invoke (read_mixed_call schema offset) v =
      elim (Bool-cases (data_size v - position v offset == 0)) [
        | inl nothing ↦ unfold read_mixed invalid carry_out in rw nothing refl
        | inr something ↦
            unfold read_mixed in
            rw something
              (reader_lem many _ (position v offset) (data_size v - position v offset) _ refl)
      ]

-- The ranges of a plan lie inside the data area.
abbrev pub Fits : View → Plan → Type 0
Fits v (unguarded result v') = Unit
Fits v (observes f v') = Unit
Fits v (reader pos len k) = pos + len ≤ data_size v
Fits v (writer pos packed result v') = pos + length packed ≤ data_size v

module _ (rt : Runtime) (v : View) {m : Segment} (valid : IsValid v m) where
  try-Fits :
      {A : Type 0} (r : PyResult A) (p : A → Plan)
      → ((a : A) → r ≡ ok a → Fits v (p a))
      → Fits v (try r v p)
  unfolding try
  try-Fits (ok a) p h = h a refl
  try-Fits (err e) p h = tt

  packed-Fits : (offset : Option ℕ) (packed : List ℕ) → Fits v (plan_packed rt v offset packed)
  unfolding plan_packed
  packed-Fits offset packed =
      try-Fits (check_bounds v (position v offset) (length packed)) _
        λ u e. (check_bounds-le v (position v offset) (length packed) u valid.limit e).1

  pub plan-Fits : (c : Method) → Fits v (plan rt c v)
  unfolding plan
  plan-Fits read_all_call = omega arith
  plan-Fits zero_call = omega (arith, length-replicate {A = ℕ} (data_size v) 0)
  plan-Fits tell_call = tt
  plan-Fits reader_count_call = tt
  plan-Fits is_write_locked_call = tt
  plan-Fits size_call = tt
  plan-Fits (read_range_call offset len) =
      try-Fits (check_bounds v offset len) _ λ u e. (check_bounds-le v offset len u valid.limit e).1
  plan-Fits (write_call value offset) =
      try-Fits (pack_value rt value []) _ λ packed e. packed-Fits offset packed
  plan-Fits (write_mixed_call items offset) =
      try-Fits (pack_mixed rt items) _ λ packed e. packed-Fits offset packed
  plan-Fits (seek_call pos) = elim (Bool-cases (ltb (data_size v) pos)) [
    | inl past ↦ rw past tt
    | inr inside ↦ rw inside tt
  ]
  plan-Fits (read_call tag) = omega (arith, valid.limit, valid.cursor_le)
  plan-Fits (read_mixed_call schema offset) =
      elim (Bool-cases (data_size v - position v offset == 0)) [
        | inl nothing ↦ rw nothing tt
        | inr something ↦ rw something (ground (arith, something))
      ]
