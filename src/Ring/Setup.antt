-- ===== src/Ring/Setup.antt =====
-- `new`: which sizes it accepts, and the ring that a creator starts with.
use membridge.Common.{ℕ, ◌+◌, ◌-◌, ◌^◌, ◌≤◌, ◌<◌, ◌≡◌, refl, true, ◌↔◌, [], length, arith}
use membridge.Common.Words.{is_power_of_two, is_power_of_two_iff, pow-pos}
use membridge.Error.{ok}
use membridge.Codec.Value.{Runtime}
use membridge.Ring.{Segment, new, header_size}
use membridge.Ring.Holds.{Holds}
use membridge.Ring.Window.{window}

-- The header that a creator writes.
abbrev pub fresh : ℕ → Segment → Segment
fresh map_size m = record m { head = 0; tail = 0; capacity = map_size - header_size }

pub creator_ok :
    (map_size : ℕ) (m m' : Segment)
    → new map_size true m ≡ ok m'
    → (header_size < map_size)
      × (is_power_of_two (map_size - header_size) ≡ true)
      × (m' ≡ fresh map_size m)
unfolding new
creator_ok map_size m m' e = ground arith

power_behind_header :
    (map_size : ℕ)
    → header_size < map_size
    → is_power_of_two (map_size - header_size) ≡ true
    → (k : ℕ) × (k < 64) × (map_size ≡ header_size + 2 ^ k)
power_behind_header map_size large pow =
    let (k, lt, e) = (is_power_of_two_iff (map_size - header_size)).0 pow in
    (k, lt, omega (arith, e))

-- A creator's `new` succeeds exactly when the size is the header's and a power of two below 2 ^ 64.
pub new_ok_iff :
    (map_size : ℕ) (m : Segment)
    → ((m' : Segment) × (new map_size true m ≡ ok m'))
      ↔ ((k : ℕ) × (k < 64) × (map_size ≡ header_size + 2 ^ k))
unfolding new
new_ok_iff map_size m = (
  λ (m', e).
      let (large, pow, same) = creator_ok map_size m m' e in power_behind_header map_size large pow,
  λ (k, lt, e).
      let large : header_size < map_size = omega (arith, e, pow-pos k) in
      let pow : is_power_of_two (map_size - header_size) ≡ true =
        (is_power_of_two_iff (map_size - header_size)).1 (k, lt, omega (arith, e)) in
      (fresh map_size m, ground arith),
)

-- A creator's `new` that succeeds, on an area of at most 2 ^ 32 bytes that fills the mapping behind
-- the header, leaves a segment that holds the empty queue, whatever the memory held before.
pub new-Holds :
    (rt : Runtime) (map_size : ℕ) (m : Segment) {m' : Segment}
    → new map_size true m ≡ ok m'
    → map_size ≡ header_size + length m.area
    → length m.area ≤ 2 ^ 32
    → Holds rt m' []
new-Holds rt map_size m {m'} e sized narrow =
    let (large, pow, same) = creator_ok map_size m m' e in
    let (k, lt, shape) = power_behind_header map_size large pow in
    rw same (record {
      k = k;
      shape = record { width = lt; power = omega arith };
      narrow = omega arith;
      sized = omega arith;
      head_lt = omega arith;
      tail_at = refl;
      fits = omega arith;
      stored = unfold window in refl;
    })
