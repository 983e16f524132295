-- ===== src/SharedMemory/Unmapping.antt =====
-- What `map` takes from the system on Unix, and the drop of a view gives back.
use membridge.Common.{
  ℕ, ◌+◌, ◌≤◌, ◌≡◌, refl, Bool, true, false, none, some, Option, ◌⊎◌, inl, inr, List, arith,
  Bool-cases, ◌==◌, leb,
}
use membridge.Error.{PyResult, ok, err, invalid, map_err}
use membridge.Codec.Value.{Runtime}
use membridge.Platform.Unix
use membridge.Platform.Unix.{Posix, OFlag, PlatformHandle, unix}
use membridge.View
use membridge.View.{View, Segment, rwlock_size}
use membridge.SharedMemory.{SharedMemory, drop, map, viewed, settle}
use membridge.SharedMemory.Ledger.{Ledger}

module _ (rt : Runtime) (os : Posix) (l : Ledger os) where
  -- What `map` holds: nothing more when the view that it returned is dropped.
  abbrev pub MapBalanced :
      SharedMemory rt (unix os) → os.Kernel → Option (PyResult (os.Ptr × View) × os.Kernel) → Type 0
  MapBalanced s k none = Unit
  MapBalanced s k (some (ok view, k')) = l.mappings (drop rt (unix os) view k') ≡ l.mappings k
  MapBalanced s k (some (err e, k')) =
      (l.mappings k' ≡ l.mappings k)
      ⊎ ((s.handle.size ≤ rwlock_size) × (l.mappings k' ≡ l.mappings k + 1))

  settle-mapped :
      (is_creator : Bool) (ptr : os.Ptr) (n : ℕ) (bs : List ℕ) (k : os.Kernel)
      → l.IsMapped ptr n k
      → (l.mappings (settle rt (unix os) is_creator ptr bs k) ≡ l.mappings k)
        × l.IsMapped ptr n (settle rt (unix os) is_creator ptr bs k)
  unfolding settle
  settle-mapped true ptr n bs k there = l.storing ptr ptr n bs k there
  settle-mapped false ptr n bs k there = (refl, there)

  settled_unmapped :
      (is_creator : Bool) (ptr : os.Ptr) (n : ℕ) (bs : List ℕ) (k k1 : os.Kernel)
      → l.mappings k1 ≡ l.mappings k + 1
      → l.IsMapped ptr n k1
      → l.mappings (Unix.unmap os ptr n (settle rt (unix os) is_creator ptr bs k1)) ≡ l.mappings k
  unfolding Unix.unmap
  settled_unmapped is_creator ptr n bs k k1 more there =
      let (same, still) = settle-mapped is_creator ptr n bs k1 there in
      omega (arith, more, same, l.unmapping ptr n (settle rt (unix os) is_creator ptr bs k1) still)

  viewed-MapBalanced :
      (s : SharedMemory rt (unix os)) (k : os.Kernel) (r : (os.Errno ⊎ os.Ptr) × os.Kernel)
      → os.mmap s.handle.fd s.handle.size k ≡ r
      → MapBalanced s k (some (viewed rt (unix os) s (Unix.from_nix os r.0, r.1)))
  unfolding Unix.from_nix viewed map_err View.new invalid drop Unix.unmap
  viewed-MapBalanced s k (inl x, k1) e = inl (l.not_mapping s.handle.fd s.handle.size k k1 x e)
  viewed-MapBalanced s k (inr ptr, k1) e =
      let (more, there) = l.mapping s.handle.fd s.handle.size k k1 ptr e in
      elim (Bool-cases (leb s.handle.size rwlock_size)) [
        | inl narrow ↦ rw (viewed, View.new, narrow) (inr (ground (arith, narrow), more))
        | inr large ↦
            rw (viewed, View.new, large)
              (settled_unmapped s.is_creator ptr s.handle.size _ k k1 more there)
      ]

  -- On a system that keeps the ledger: dropping the view that `map` returned leaves the process with
  -- the mappings that it had; where `map` fails, it has those that it had, or, on a segment of at most 4
  -- bytes, one more, which nothing unmaps.
  pub mappings_balance :
      (s : SharedMemory rt (unix os)) (k : os.Kernel) → MapBalanced s k (map rt (unix os) s k)
  unfolding map Unix.map
  mappings_balance s k = elim (Bool-cases (s.handle.size == 0)) [
    | inl nothing ↦ rw (map, nothing) tt
    | inr something ↦
        rw (map, something) (viewed-MapBalanced s k (os.mmap s.handle.fd s.handle.size k) refl)
  ]
