-- ===== src/SharedMemory.antt =====
-- src/shared_memory.rs: handles of named segments, and the mappings made from them.
pub mod Names
pub mod Handles
pub mod Refusals
pub mod Mappings
pub mod Panics
pub mod Windows
pub mod Ledger
pub mod Unmapping
pub mod Segments
pub mod Seen
pub mod Handoff
pub mod Rings
pub mod Messages
use Prim.Native.Char.{code}
use membridge.Common.{
  ℕ, Bool, true, false, String, Option, some, none, ◌⊎◌, inl, inr, List, length, ltb, ◌==◌,
  if◌then◌else◌,
}
use membridge.Error.{
  size_zero, name_without_slash, name_too_short, ShmError, PyResult, ok, err, invalid, map_err,
  ◌>>=◌,
}
use membridge.Codec.Value.{Runtime}
use membridge.Platform.{Platform}
use membridge.View
use membridge.View.{View}
use membridge.View.Layout as ViewLayout
use membridge.Ring
use membridge.Ring.Layout as RingLayout

-- `name.starts_with('/')`
unfoldable pub starts_with_slash : String → Bool
starts_with_slash String.[] = false
starts_with_slash (String.◌∷◌ c s) = code c == 47

module _ (rt : Runtime) where
  unfoldable pub validate_name : String → PyResult (Unit {0})
  unfolding starts_with_slash invalid
  validate_name name =
      if starts_with_slash name
      then (if ltb (length (rt.as_bytes name)) 2 then invalid name_too_short else ok tt)
      else invalid name_without_slash

  module _ (p : Platform) where
    pub record SharedMemory : Type 0 where
      pub handle : p.PlatformHandle
      pub is_creator : Bool

    -- The handle that a call of the platform gave, or its error.
    unfoldable pub shared :
        Bool → PyResult p.PlatformHandle × p.Kernel → PyResult SharedMemory × p.Kernel
    shared is_creator (r, k) = (r >>= (λ h. ok (record { handle = h; is_creator = is_creator })), k)

    -- A call behind the `?` of the check of its name.
    unfoldable pub checked :
        {A : Type 0}
        → PyResult (Unit {0})
        → (p.Kernel → PyResult A × p.Kernel)
        → p.Kernel
        → PyResult A × p.Kernel
    checked (ok u) body k = body k
    checked (err e) body k = (err e, k)

    unfoldable pub named :
        {A : Type 0}
        → String
        → (p.Kernel → PyResult A × p.Kernel)
        → p.Kernel
        → PyResult A × p.Kernel
    unfolding checked
    named name body k = checked (validate_name name) body k

    unfoldable pub create : String → ℕ → p.Kernel → PyResult SharedMemory × p.Kernel
    unfolding invalid named
    create name size k =
        if size == 0
        then (invalid size_zero, k)
        else named name (λ k'. let (r, k'') = p.create name size k' in shared true (map_err r, k''))
            k

    -- `open`
    unfoldable pub open_segment : String → Option ℕ → p.Kernel → PyResult SharedMemory × p.Kernel
    unfolding named
    open_segment name size k = named name (λ k'. shared false (p.attach name size k')) k

    unfoldable pub remove : String → p.Kernel → PyResult (Unit {0}) × p.Kernel
    unfolding named
    remove name k = named name (λ k'. let (r, k'') = p.remove name k' in (map_err r, k'')) k

    -- What a constructor stores in the mapping: a creator's header, or nothing.
    unfoldable pub settle : Bool → p.Ptr → List ℕ → p.Kernel → p.Kernel
    settle true ptr bs k = p.store ptr bs k
    settle false ptr bs k = k

    -- `MappedView::new` and `SpscRingBuffer::new` on the mapped bytes.
    unfoldable pub viewed :
        SharedMemory → (ShmError ⊎ p.Ptr) × p.Kernel → PyResult (p.Ptr × View) × p.Kernel
    unfolding settle
    viewed s (inl e, k) = (map_err (inl e), k)
    viewed s (inr ptr, k) =
        elim (View.new (p.size s.handle) s.is_creator (ViewLayout.load rt (p.memory ptr k))) [
          | ok (v, m) ↦ (ok (ptr, v), settle s.is_creator ptr (ViewLayout.flush rt m) k)
          | err e ↦ (err e, k)
        ]

    unfoldable pub ringed :
        SharedMemory → (ShmError ⊎ p.Ptr) × p.Kernel → PyResult (p.Ptr × ℕ) × p.Kernel
    unfolding settle
    ringed s (inl e, k) = (map_err (inl e), k)
    ringed s (inr ptr, k) =
        elim (Ring.new (p.size s.handle) s.is_creator (RingLayout.load rt (p.memory ptr k))) [
          | ok m ↦ (ok (ptr, p.size s.handle), settle s.is_creator ptr (RingLayout.flush rt m) k)
          | err e ↦ (err e, k)
        ]

    -- `map` and `spsc`. `none`: the platform's `map` panics.
    unfoldable pub map : SharedMemory → p.Kernel → Option (PyResult (p.Ptr × View) × p.Kernel)
    unfolding viewed
    map s k = elim (p.map s.handle k) [ some r ↦ some (viewed s r) | none ↦ none ]

    unfoldable pub spsc : SharedMemory → p.Kernel → Option (PyResult (p.Ptr × ℕ) × p.Kernel)
    unfolding ringed
    spsc s k = elim (p.map s.handle k) [ some r ↦ some (ringed s r) | none ↦ none ]

    unfoldable pub name : SharedMemory → String
    name s = p.name s.handle

    unfoldable pub size : SharedMemory → ℕ
    size s = p.size s.handle

    -- The drop of a `MappedView`.
    unfoldable pub drop : p.Ptr × View → p.Kernel → p.Kernel
    drop (ptr, v) k = p.unmap ptr v.size k

    -- The drop of a `SharedMemory`, which drops its handle.
    unfoldable pub drop_handle : SharedMemory → p.Kernel → p.Kernel
    drop_handle s k = p.drop s.handle k
