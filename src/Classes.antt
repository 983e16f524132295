-- ===== src/Classes.antt =====
-- src/lib.rs, and the `__repr__` of the three classes that it registers.
use membridge.Common.{ℕ, Bool, true, false, String}
use membridge.Error.{PyResult, ok, err}
use membridge.Codec.Value.{Runtime}
use membridge.Lock
use membridge.View
use membridge.View.{View}
use membridge.Ring
use membridge.Platform.{Platform}
use membridge.SharedMemory.{SharedMemory, name, size}

pub data Class : Type 0 where
  shared_memory mapped_view spsc_ring_buffer : Class

-- The module object of PyO3, and `add_class` on it.
pub record PyModule : Type 1 where
  pub Module : Type 0
  pub add_class : Class → Module → PyResult (Unit {0}) × Module

module _ (py : PyModule) where
  -- The rest of a function behind a `?`.
  unfoldable pub and_add :
      PyResult (Unit {0}) × py.Module
      → (py.Module → PyResult (Unit {0}) × py.Module)
      → PyResult (Unit {0}) × py.Module
  and_add (ok u, m) rest = rest m
  and_add (err e, m) rest = (err e, m)

  unfoldable pub membridge_module : py.Module → PyResult (Unit {0}) × py.Module
  unfolding and_add
  membridge_module m = and_add (py.add_class shared_memory m) λ m1.
      and_add (py.add_class mapped_view m1)
        λ m2. and_add (py.add_class spsc_ring_buffer m2) λ m3. (ok tt, m3)

pub data Role : Type 0 where
  creator opener : Role

-- What the format string of each `__repr__` shows.
pub data Repr : Type 0 where
  shared_memory_repr : (name : String) (size : ℕ) (role : Role) → Repr
  mapped_view_repr : (data_size readers : ℕ) (write_locked : Bool) → Repr
  spsc_ring_buffer_repr : (capacity used free : ℕ) → Repr

unfoldable pub role : Bool → Role
role true = creator
role false = opener

unfoldable pub repr_shared_memory : (rt : Runtime) (p : Platform) → SharedMemory rt p → Repr
unfolding role
repr_shared_memory rt p s = shared_memory_repr (name rt p s) (size rt p s) (role s.is_creator)

unfoldable pub repr_mapped_view : View → View.Segment → Repr
repr_mapped_view v m =
    mapped_view_repr (View.data_size v) (Lock.reader_count m.word) (Lock.is_write_locked m.word)

unfoldable pub repr_spsc_ring_buffer : Ring.Segment → Repr
repr_spsc_ring_buffer m = spsc_ring_buffer_repr m.capacity (Ring.used m) (Ring.free m)
