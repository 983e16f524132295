-- ===== src/View/Frame.antt =====
-- What a write changes, and what it leaves alone.
use membridge.Common.{ℕ, ◌+◌, ◌≤◌, ◌<◌, ◌≡◌, ◌⊎◌, Option, some, List, arith, length}
use membridge.Error.{ok}
use membridge.Codec.Value.{Runtime, Value}
use membridge.Codec.Pack.{encode, pack_value}
use membridge.View.{View, Segment, data_size, copy_into, slice, position, advance}
use membridge.View.Copy.{slice-copied, slice-copy_into_outside}
use membridge.View.Methods.{write}
use membridge.View.Valid.{IsValid}
use membridge.View.RoundTrip.{write_packed_run, bounds_met}

-- On a segment whose lock is free and for which the view is valid: where a value packs to some bytes
-- that fit at an offset or at the cursor, `write` returns with the lock free, those bytes stand at that
-- place, and any range that ends before them or begins behind them shows what it showed.
pub write_frame :
    (rt : Runtime) (spins : ℕ) (v : View) (m : Segment) (x : Value) (packed : List ℕ)
    (offset : Option ℕ) (at len : ℕ)
    → 0 < spins
    → m.word ≡ 0
    → IsValid v m
    → encode rt x ≡ ok packed
    → 0 < length packed
    → position v offset + length packed ≤ data_size v
    → (at + len ≤ position v offset) ⊎ (position v offset + length packed ≤ at)
    → (m' : Segment) × (write rt spins v m x offset
        ≡ some (ok tt, advance v offset (length packed), m'))
      × (m'.word ≡ 0)
      × (slice m'.area (position v offset) (length packed) ≡ packed)
      × (slice m'.area at len ≡ slice m.area at len)
unfolding write pack_value
write_frame rt spins v m x packed offset at len some_fuel free valid e some_bytes fits apart = (
  record m { area = copy_into m.area (position v offset) packed },
  rw e (
      write_packed_run rt spins some_fuel m free v packed offset
        (bounds_met rt spins some_fuel m free v valid (position v offset) packed some_bytes fits)),
  free,
  slice-copied m.area (position v offset) packed (omega (arith, valid.sized)),
  slice-copy_into_outside m.area (position v offset) at len packed (omega (arith, valid.sized))
      apart,
)
