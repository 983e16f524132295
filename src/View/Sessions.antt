-- ===== src/View/Sessions.antt =====
-- src/mapped_view.rs: every method of `MappedView` called by several processes at once, each through
-- a view of its own.
pub mod Plans
pub mod Invariant
pub mod Moves
pub mod Outcomes
pub mod Turns
pub mod Observers
pub mod Linear
pub mod Alone
pub mod Completes
pub mod Schedules
pub mod Told
use membridge.Common.{
  ℕ, ◌-◌, ◌<◌, Option, some, none, String, List, [], ◌∷◌, ◌++◌, length, get_or, set, replicate, ltb,
  ◌==◌, if◌then◌else◌,
}
use membridge.Common.Words.{sub_usize}
use membridge.Error.{seek_out_of_range, no_data, PyResult, ok, err, invalid}
use membridge.Codec.Value.{Runtime, Value, bytes, PyObject}
use membridge.Codec.Pack.{pack_value, pack_mixed}
use membridge.Codec.Unpack.{unpack_one}
use membridge.Codec.Mixed.{SchemaEntry, unpack_mixed_counted}
use membridge.Lock
use membridge.View.{View, data_size, check_bounds, position, advance}
use membridge.View.Methods.{
  Method, read_all_call, zero_call, tell_call, reader_count_call, is_write_locked_call, size_call,
  read_range_call, write_call, write_mixed_call, seek_call, read_call, read_mixed_call, Reply, unit,
  number, flag, one, many, finish,
}
use membridge.View.Processes
use membridge.View.Processes.{Event, quiet, answered, stored, Pc, outside, copy_out, copy_in}

-- A method up to its guard: it returns without one, or with the word of the lock, which it loads; or it
-- takes a read guard over a range of
-- the area, and makes its result of the bytes there; or it takes a write guard, stores its bytes, and
-- returns.
pub data Plan : Type 0 where
  unguarded : PyResult Reply → View → Plan
  observes : (ℕ → Reply) → View → Plan
  reader : (pos len : ℕ) → (List ℕ → PyResult Reply × View) → Plan
  writer : (pos : ℕ) (packed : List ℕ) → PyResult Reply → View → Plan

-- The rest of a method behind a `?` before its guard.
unfoldable pub try : {A : Type 0} → PyResult A → View → (A → Plan) → Plan
try (ok a) v k = k a
try (err e) v k = unguarded (err e) v

unfoldable pub reply : {A : Type 0} → (A → Reply) → PyResult A × View → PyResult Reply × View
reply f (ok a, v) = (ok (f a), v)
reply f (err e, v) = (err e, v)

module _ (rt : Runtime) where
  unfoldable pub plan_packed : View → Option ℕ → List ℕ → Plan
  unfolding try advance
  plan_packed v offset packed =
      let pos = position v offset in
      try (check_bounds v pos (length packed)) v
        λ _. writer pos packed (ok unit) (advance v offset (length packed))

  unfoldable pub plan : Method → View → Plan
  unfolding try reply plan_packed finish invalid
  plan read_all_call v = reader 0 (data_size v) (λ bs. (ok (one (bytes bs)), v))
  plan zero_call v = writer 0 (replicate (data_size v) 0) (ok unit) v
  plan tell_call v = unguarded (ok (number v.cursor)) v
  plan reader_count_call v = observes (λ w. number (Lock.reader_count w)) v
  plan is_write_locked_call v = observes (λ w. flag (Lock.is_write_locked w)) v
  plan size_call v = unguarded (ok (number (data_size v))) v
  plan (read_range_call offset len) v =
      try (check_bounds v offset len) v λ _. reader offset len (λ bs. (ok (one (bytes bs)), v))
  plan (write_call value offset) v = try (pack_value rt value []) v (plan_packed v offset)
  plan (write_mixed_call items offset) v = try (pack_mixed rt items) v (plan_packed v offset)
  plan (seek_call pos) v =
      if ltb (data_size v) pos
      then unguarded (invalid (seek_out_of_range pos (data_size v))) v
      else unguarded (ok unit) (record v { cursor = pos })
  plan (read_call tag) v =
      reader v.cursor (sub_usize (data_size v) v.cursor)
        (λ bs. reply one (finish v none (unpack_one rt bs tag)))
  plan (read_mixed_call schema offset) v =
      let pos = position v offset in
      let available = data_size v - pos in
      if available == 0
      then unguarded (invalid no_data) v
      else reader pos available
          (λ bs. reply many (finish v offset (unpack_mixed_counted rt bs schema)))

-- A process has a view, and the call that it is in.
pub record User : Type 0 where
  pub view : View
  pub calling : Option Method

-- A call that is over: the view that it found, its result, and the view that it left.
pub record Entry : Type 0 where
  pub by : ℕ
  pub method : Method
  pub before : View
  pub result : PyResult Reply
  pub after : View

-- `below` are the lock, the bytes, and where the processes stand; `history` the calls that are over,
-- in the order in which they ended.
pub record System : Type 0 where
  pub below : Processes.System
  pub users : List User
  pub history : List Entry

pub data Action : Type 0 where
  call : Method → Action
  turn : Action

-- The view of a handle on a segment of `size` bytes that was just mapped.
abbrev pub opened : ℕ → User
opened size = record { view = record { size = size; cursor = 0 }; calling = none }

module _ (rt : Runtime) (size : ℕ) where
  abbrev pub user : System → ℕ → User
  user s i = get_or s.users i (opened size)

  -- Process `i` returns.
  unfoldable pub return : ℕ → Method → View → PyResult Reply × View → System → System
  return i c v (result, v') s = record s {
    users = set s.users i (record { view = v'; calling = none });
    history =
        s.history ++ (record { by = i; method = c; before = v; result = result; after = v' } ∷ []);
  }

  -- Process `i` goes into its guard.
  unfoldable pub engage : ℕ → Method → View → Processes.Call → System → System
  unfolding Processes.fire
  engage i c v guarded s = record s {
    below = Processes.fire (opened size).view i (Processes.call guarded) s.below;
    users = set s.users i (record { view = v; calling = some c });
  }

  unfoldable pub begin : ℕ → Method → View → Plan → System → System
  unfolding return engage
  begin i c v (unguarded result v') s = return i c v (result, v') s
  begin i c v (observes f v') s = return i c v (ok (f s.below.mem.word), v') s
  begin i c v (reader pos len k) s = engage i c v (copy_out pos len) s
  begin i c v (writer pos packed result v') s = engage i c v (copy_in pos packed) s

  -- What a call returns when its guard is dropped.
  unfoldable pub leave : ℕ → Method → View → Plan → Event → System → System
  unfolding return
  leave i c v (reader pos len k) (answered _ _ bs) s = return i c v (k bs) s
  leave i c v (writer pos packed result v') (stored _ _) s = return i c v (result, v') s
  leave i c v p e s = s

  -- A process that is inside a call begins no other.
  unfoldable pub called : ℕ → Method → User → System → System
  unfolding begin plan
  called i c u s = elim (u.calling) [ none ↦ begin i c u.view (plan rt c u.view) s | some d ↦ s ]

  unfoldable pub turned : ℕ → User → Event → System → System
  unfolding leave plan
  turned i u e s = elim (u.calling) [ none ↦ s | some c ↦ leave i c u.view (plan rt c u.view) e s ]

  -- Process `i` calls a method, or makes one access.
  unfoldable pub fire : ℕ → Action → System → System
  unfolding called turned Processes.fire Processes.advance
  fire i (call c) s = called i c (user s i) s
  fire i turn s =
      let (_, _, event) = Processes.advance s.below.mem (get_or s.below.pcs i outside) in
      turned i (user s i) event
        (record s { below = Processes.fire (opened size).view i Processes.turn s.below })

  unfoldable pub run : List (ℕ × Action) → System → System
  unfolding fire
  run [] s = s
  run ((i, a) ∷ rest) s = run rest (fire i a s)

  -- `n` processes that have just mapped the segment.
  abbrev pub start : ℕ → List ℕ → System
  start n area = record {
    below = Processes.start n area;
    users = replicate n (opened size);
    history = [];
  }

  pub data Reach (n : ℕ) (area : List ℕ) : System → Type 0 where
    initial : Reach n area (start n area)
    later :
        {s : System} (i : ℕ) (a : Action)
        → i < length s.users
        → Reach n area s
        → Reach n area (fire i a s)
