-- ===== src/View/Methods.antt =====
-- The methods of `MappedView`. `spins` is the fuel for the loop of a guard.
use membridge.Common.{
  ℕ, ◌-◌, Bool, String, Option, some, none, List, [], length, replicate, ltb, ◌==◌, if◌then◌else◌,
}
use membridge.Common.Words.{sub_usize}
use membridge.Error.{seek_out_of_range, no_data, PyResult, ok, err, invalid}
use membridge.Lock
use membridge.Codec.Value.{Runtime, Value, bytes, PyObject}
use membridge.Codec.Pack.{pack_value, pack_mixed}
use membridge.Codec.Unpack.{unpack_one}
use membridge.Codec.Mixed.{SchemaEntry, unpack_mixed_counted}
use membridge.View.{View, Segment, data_size, check_bounds, copy_into, slice, position, advance}
use membridge.View.Guard.{Done, at_once, read_guarded, write_guarded}

-- The rest of a method behind a `?`.
abbrev pub and_then {ℓ} :
    {A : Type ℓ} {B : Type 0} → PyResult A → View → Segment → (A → Done B) → Done B
and_then (ok a) v m k = k a
and_then (err e) v m k = at_once (err e) v m

-- A reader's result, and the view after it.
unfoldable pub finish : {A : Type 0} → View → Option ℕ → PyResult (A × ℕ) → PyResult A × View
unfolding advance
finish v offset (ok (a, n)) = (ok a, advance v offset n)
finish v offset (err e) = (err e, v)

module _ (rt : Runtime) (spins : ℕ) (v : View) (m : Segment) where
  unfoldable pub read_all : Done Value
  read_all = read_guarded spins m (λ area. (ok (bytes (slice area 0 (data_size v))), v))

  unfoldable pub read_range : ℕ → ℕ → Done Value
  read_range offset len =
      and_then (check_bounds v offset len) v m
        λ _. read_guarded spins m (λ area. (ok (bytes (slice area offset len)), v))

  -- `write` and `write_mixed` from their packed bytes on.
  unfoldable pub write_packed : List ℕ → Option ℕ → Done (Unit {0})
  write_packed packed offset =
      let pos = position v offset in
      and_then (check_bounds v pos (length packed)) v m λ _.
        write_guarded spins m
          (λ area. (ok tt, advance v offset (length packed), copy_into area pos packed))

  unfoldable pub write : Value → Option ℕ → Done (Unit {0})
  unfolding write_packed
  write value offset = and_then (pack_value rt value []) v m λ packed. write_packed packed offset

  unfoldable pub write_mixed : List PyObject → Option ℕ → Done (Unit {0})
  unfolding write_packed
  write_mixed items offset = and_then (pack_mixed rt items) v m λ packed. write_packed packed offset

  unfoldable pub seek : ℕ → Done (Unit {0})
  unfolding invalid
  seek pos =
      if ltb (data_size v) pos
      then at_once (invalid (seek_out_of_range pos (data_size v))) v m
      else at_once (ok tt) (record v { cursor = pos }) m

  unfoldable pub tell : ℕ
  tell = v.cursor

  unfoldable pub read : String → Done Value
  unfolding finish
  read tag =
      let pos = v.cursor in
      read_guarded spins m
        (λ area. finish v none (unpack_one rt (slice area pos (sub_usize (data_size v) pos)) tag))

  unfoldable pub read_mixed : List SchemaEntry → Option ℕ → Done (List PyObject)
  unfolding finish invalid
  read_mixed schema offset =
      let pos = position v offset in
      let available = data_size v - pos in
      if available == 0
      then at_once (invalid no_data) v m
      else read_guarded spins m
          (λ area. finish v offset (unpack_mixed_counted rt (slice area pos available) schema))

  unfoldable pub zero : Done (Unit {0})
  zero = write_guarded spins m (λ area. (ok tt, v, copy_into area 0 (replicate (data_size v) 0)))

  unfoldable pub reader_count : ℕ
  reader_count = Lock.reader_count m.word

  unfoldable pub is_write_locked : Bool
  is_write_locked = Lock.is_write_locked m.word

  unfoldable pub size : ℕ
  size = data_size v

-- A call of a method, and its result.
pub data Method : Type 0 where
  read_all_call zero_call tell_call reader_count_call is_write_locked_call size_call : Method
  read_range_call : (offset len : ℕ) → Method
  write_call : Value → Option ℕ → Method
  write_mixed_call : List PyObject → Option ℕ → Method
  seek_call : ℕ → Method
  read_call : (tag : String) → Method
  read_mixed_call : List SchemaEntry → Option ℕ → Method

pub data Reply : Type 0 where
  unit : Reply
  number : ℕ → Reply
  flag : Bool → Reply
  one : Value → Reply
  many : List PyObject → Reply

abbrev pub reply_with : {A : Type 0} → (A → Reply) → Done A → Done Reply
reply_with f none = none
reply_with f (some (ok a, v, m)) = some (ok (f a), v, m)
reply_with f (some (err e, v, m)) = some (err e, v, m)

unfoldable pub invoke : Runtime → ℕ → Method → View → Segment → Done Reply
invoke rt spins read_all_call v m = reply_with one (read_all rt spins v m)
invoke rt spins zero_call v m = reply_with (λ _. unit) (zero rt spins v m)
invoke rt spins tell_call v m = some (ok (number (tell rt spins v m)), v, m)
invoke rt spins reader_count_call v m = some (ok (number (reader_count rt spins v m)), v, m)
invoke rt spins is_write_locked_call v m = some (ok (flag (is_write_locked rt spins v m)), v, m)
invoke rt spins size_call v m = some (ok (number (size rt spins v m)), v, m)
invoke rt spins (read_range_call offset len) v m =
    reply_with one (read_range rt spins v m offset len)
invoke rt spins (write_call value offset) v m =
    reply_with (λ _. unit) (write rt spins v m value offset)
invoke rt spins (write_mixed_call items offset) v m =
    reply_with (λ _. unit) (write_mixed rt spins v m items offset)
invoke rt spins (seek_call pos) v m = reply_with (λ _. unit) (seek rt spins v m pos)
invoke rt spins (read_call tag) v m = reply_with one (read rt spins v m tag)
invoke rt spins (read_mixed_call schema offset) v m =
    reply_with many (read_mixed rt spins v m schema offset)
