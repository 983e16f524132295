-- ===== src/View.antt =====
-- src/mapped_view.rs: sequential reads and writes of a segment's data area, each under a guard of
-- the lock in its header. A `View` is one process's handle; the `Segment` is shared.
pub mod Guard
pub mod Methods
pub mod Bodies
pub mod Valid
pub mod Copy
pub mod RoundTrip
pub mod Layout
pub mod Errors
pub mod Frame
pub mod Processes
pub mod Sessions
use membridge.Common.{
  ℕ, ◌+◌, ◌-◌, ◌≤◌, Bool, true, false, Option, some, none, List, [], ◌∷◌, ◌++◌, length, take, drop,
  replicate, ltb, leb, ◌==◌, if◌then◌else◌,
}
use membridge.Common.Words.{add_usize, sub_usize, saturating_add}
use membridge.Error.{
  segment_too_small, length_zero, out_of_bounds, PyResult, ok, err, invalid, ◌>>=◌, ◌>>◌,
}
use membridge.Lock

-- The word of the lock, and the bytes behind it.
pub record Segment : Type 0 where
  pub word : ℕ
  pub area : List ℕ

-- `size` counts the header of four bytes.
pub record View : Type 0 where
  pub size : ℕ
  pub cursor : ℕ

abbrev pub rwlock_size : ℕ
rwlock_size = 4

-- `MappedView::new`: a creator initialises the lock.
unfoldable pub new : ℕ → Bool → Segment → PyResult (View × Segment)
unfolding invalid
new size is_creator m =
    if leb size rwlock_size
    then invalid segment_too_small
    else ok (
      record { size = size; cursor = 0 },
      if is_creator then record m { word = Lock.init } else m,
    )

-- `new` keeps `size` above the header, so the subtraction does not wrap.
abbrev pub data_size : View → ℕ
data_size v = v.size - rwlock_size

unfoldable pub check_bounds : View → ℕ → ℕ → PyResult (Unit {0})
unfolding invalid
check_bounds v offset len =
    if len == 0
    then invalid length_zero
    else if ltb (data_size v) (saturating_add offset len)
    then invalid (out_of_bounds offset len (data_size v))
    else ok tt

-- `copy_nonoverlapping` into the area, `from_raw_parts` out of it, and `write_bytes` of zeros.
unfoldable pub copy_into : List ℕ → ℕ → List ℕ → List ℕ
copy_into area pos bs = take pos area ++ (bs ++ drop (pos + length bs) area)

unfoldable pub slice : List ℕ → ℕ → ℕ → List ℕ
slice area pos len = take len (drop pos area)

-- `offset`, or the cursor where none is given; and the cursor after `n` bytes.
unfoldable pub position : View → Option ℕ → ℕ
position v (some o) = o
position v none = v.cursor

unfoldable pub advance : View → Option ℕ → ℕ → View
advance v (some o) n = v
advance v none n = record v { cursor = add_usize v.cursor n }
