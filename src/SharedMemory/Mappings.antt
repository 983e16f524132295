-- ===== src/SharedMemory/Mappings.antt =====
-- What `map` and `spsc` make of a mapping.
use native.Mathlib.Nat.{pow-le-pow_right}
use membridge.Common.{
  ℕ, ◌+◌, ◌-◌, ◌^◌, ◌≤◌, ◌<◌, ◌≡◌, refl, ap, ◌∙◌, true, false, some, inr, List, [], length, arith,
  le→leb, if◌then◌else◌, length-append, length-drop, drop,
}
use membridge.Error.{ok, invalid, segment_too_small, map_too_small}
use membridge.Codec.Value.{Runtime}
use membridge.Codec.Bytes.{to_ne_bytes, length-to_ne_bytes}
use membridge.Platform.{Platform}
use membridge.View
use membridge.View.{View, Segment, rwlock_size}
use membridge.View.Valid.{IsValid}
use membridge.View.Layout as ViewLayout
use membridge.Ring
use membridge.Ring.{header_size}
use membridge.Ring.Holds.{Holds}
use membridge.Ring.Setup.{new_ok_iff, new-Holds, creator_ok}
use membridge.Ring.Layout as RingLayout
use membridge.SharedMemory.{SharedMemory, map, spsc, viewed, ringed}

-- A mapping shows as many bytes as its handle has, and what is stored in it.
pub record Maps (p : Platform) : Type 0 where
  pub mapped :
      (h : p.PlatformHandle) (k k' : p.Kernel) (ptr : p.Ptr)
      → p.map h k ≡ some (inr ptr, k')
      → length (p.memory ptr k') ≡ p.size h
  pub stored :
      (ptr : p.Ptr) (bs : List ℕ) (k : p.Kernel)
      → length bs ≡ length (p.memory ptr k)
      → p.memory ptr (p.store ptr bs k) ≡ bs

module _ (rt : Runtime) (p : Platform) where
  module _ (maps : Maps p) (s : SharedMemory rt p) {k k1 : p.Kernel} {ptr : p.Ptr}
      (mapped : p.map s.handle k ≡ some (inr ptr, k1)) where
    abbrev size : ℕ
    size = p.size s.handle

    size_there : length (p.memory ptr k1) ≡ size
    size_there = maps.mapped s.handle k k1 ptr mapped

    -- The view that `map` returns.
    abbrev pub view : View
    view = record { size = size; cursor = 0 }

    abbrev unlocked : Segment
    unlocked = record { word = 0; area = drop rwlock_size (p.memory ptr k1) }

    unlocked_there :
        4 < size
        → ViewLayout.load rt (p.memory ptr (p.store ptr (ViewLayout.flush rt unlocked) k1))
          ≡ unlocked
    unlocked_there large =
        ap (ViewLayout.load rt) (maps.stored ptr (ViewLayout.flush rt unlocked) k1 same)
        ∙ ViewLayout.load-flush rt unlocked (omega arith)
      where
        same : length (ViewLayout.flush rt unlocked) ≡ length (p.memory ptr k1)
        same =
            unfold ViewLayout.flush in
            omega (
              arith,
              size_there,
              length-append (to_ne_bytes rt.endian 4 0) (drop rwlock_size (p.memory ptr k1)),
              length-to_ne_bytes rt.endian 4 0,
              length-drop rwlock_size (p.memory ptr k1),
            )

    view-new :
        4 < size
        → View.new size s.is_creator (ViewLayout.load rt (p.memory ptr k1))
          ≡ ok (view, if s.is_creator then unlocked else ViewLayout.load rt (p.memory ptr k1))
    unfolding View.new ViewLayout.load
    view-new large = ground arith

    area_there : 4 < size → length (drop rwlock_size (p.memory ptr k1)) ≡ size - rwlock_size
    area_there large = omega (arith, size_there, length-drop rwlock_size (p.memory ptr k1))

    -- Through a creator's handle of a segment of more than 4 and fewer than 2 ^ 63 bytes: where the
    -- system maps it, `map` returns a view at its start, that is valid for the segment that the mapping
    -- then shows, and whose lock is free.
    pub map_creator :
        s.is_creator ≡ true
        → 4 < size
        → size < 2 ^ 63
        → (k' : p.Kernel) × (map rt p s k ≡ some (ok (ptr, view), k'))
          × IsValid view (ViewLayout.load rt (p.memory ptr k'))
          × ((ViewLayout.load rt (p.memory ptr k')).word ≡ 0)
    unfolding map
    map_creator creator large small = (
      p.store ptr (ViewLayout.flush rt unlocked) k1,
      rw (map, mapped, viewed, view-new large, creator) refl,
      rw (unlocked_there large) (record {
        header = large;
        limit = small;
        sized = area_there large;
        cursor_le = omega arith;
      }),
      ap (λ m. m.word) (unlocked_there large),
    )

    -- Through an opener's handle of a segment of more than 4 and fewer than 2 ^ 63 bytes: where the
    -- system maps it, `map` returns a view at its start, that is valid for the segment that the mapping
    -- shows, and stores nothing.
    pub map_opener :
        s.is_creator ≡ false
        → 4 < size
        → size < 2 ^ 63
        → (map rt p s k ≡ some (ok (ptr, view), k1))
          × IsValid view (ViewLayout.load rt (p.memory ptr k1))
    unfolding map
    map_opener opener large small = (
      rw (map, mapped, viewed, view-new large, opener) refl,
      record {
        header = large;
        limit = small;
        sized = unfold ViewLayout.load in area_there large;
        cursor_le = omega arith;
      },
    )

    -- Through a creator's handle of 24 bytes and a power of two up to 2 ^ 32: where the system maps it,
    -- `spsc` returns a ring, and the segment that the mapping then shows holds the empty queue.
    pub spsc_creator :
        (j : ℕ)
        → s.is_creator ≡ true
        → j ≤ 32
        → size ≡ header_size + 2 ^ j
        → (k' : p.Kernel) × (spsc rt p s k ≡ some (ok (ptr, size), k'))
          × Holds rt (RingLayout.load rt (p.memory ptr k')) []
    unfolding spsc
    spsc_creator j creator few e =
        let (m', made) = (new_ok_iff size found).1 (j, omega arith, e) in
        let (large, pow, same) = creator_ok size found m' made in
        let made' : Ring.new size s.is_creator found ≡ ok m' = rw creator made in
        let holds : Holds rt m' [] =
          new-Holds rt size found made (omega (arith, area_found, large))
            (omega (arith, area_found, e, narrow)) in
        let there : RingLayout.load rt (p.memory ptr (p.store ptr (RingLayout.flush rt m') k1))
            ≡ m' =
          ap (RingLayout.load rt) (
            maps.stored ptr (RingLayout.flush rt m') k1 (
              omega (
                arith,
                RingLayout.length-flush rt m',
                size_there,
                holds.sized,
                ap (λ m. m.capacity) same,
                large,
              )))
          ∙ RingLayout.load-flush rt m' holds.head_lt (omega (arith, holds.tail_at))
              (omega (arith, holds.narrow)) in
        (
          p.store ptr (RingLayout.flush rt m') k1,
          rw (spsc, mapped, ringed, made', creator) refl,
          rw there holds,
        )
      where
        found : Ring.Segment
        found = RingLayout.load rt (p.memory ptr k1)

        area_found : length found.area ≡ size - header_size
        area_found =
            unfold RingLayout.load in
            omega (arith, size_there, length-drop header_size (p.memory ptr k1))

        narrow : 2 ^ j ≤ 2 ^ 32
        narrow = pow-le-pow_right (omega arith) {j = 32} few

    -- Through the handle of a segment of at most 4 bytes: where the system maps it, `map` and `spsc` are
    -- refused, and leave the system as the mapping left it, with nothing unmapped.
    pub too_small :
        p.size s.handle ≤ 4
        → (map rt p s k ≡ some (invalid segment_too_small, k1))
          × (spsc rt p s k ≡ some (invalid map_too_small, k1))
    unfolding map spsc View.new invalid Ring.new
    too_small small = (
      rw (map, mapped, viewed, View.new, le→leb (p.size s.handle) rwlock_size small) refl,
      rw
          (
            spsc,
            mapped,
            ringed,
            Ring.new,
            le→leb (p.size s.handle) header_size (omega (arith, small)),
          )
          refl,
    )
