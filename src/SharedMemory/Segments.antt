-- ===== src/SharedMemory/Segments.antt =====
-- The segment of a name on Unix, and what the calls that return a handle or a view have asked for.
use membridge.Common.{
  ℕ, ◌<◌, ◌≡◌, refl, ap, Bool, true, false, String, Option, some, none, ◌⊎◌, inl, inr, List, length,
  drop, arith, Bool-cases, ◌==◌, leb,
}
use membridge.Error.{PyResult, ok, invalid, map_err}
use membridge.Codec.Value.{Runtime, ℤ, pos, bits_of_i64}
use membridge.Platform.Unix
use membridge.Platform.Unix.{Posix, OFlag, PlatformHandle, unix}
use membridge.View
use membridge.View.{View, Segment, rwlock_size, copy_into}
use membridge.View.Guard.{Done}
use membridge.View.Layout.{load, flush}
use membridge.SharedMemory.{
  SharedMemory, validate_name, open_segment, map, viewed, settle, shared, named,
}
use membridge.SharedMemory.Handles.{checked_ok, shared_ok, map_err_ok}

-- What POSIX documents of the segment of a name: `content` are its bytes; a descriptor of it tells their
-- number, a mapping of all of it shows them, and what is stored through one mapping is stored for all.
pub record Segments (os : Posix) (name : String) : Type 1 where
  pub content : os.Kernel → List ℕ
  pub IsOf : os.Fd → os.Kernel → Type 0
  pub Shows : os.Ptr → os.Kernel → Type 0
  pub opening :
      (flag : OFlag) (fd : os.Fd) (k k' : os.Kernel)
      → os.shm_open name flag k ≡ (inr fd, k')
      → IsOf fd k'
  pub reopening :
      (fd : os.Fd) (k k' : os.Kernel)
      → os.shm_open name OFlag.rdwr k ≡ (inr fd, k')
      → content k' ≡ content k
  pub sizing :
      (fd : os.Fd) (n : ℕ) (k k' : os.Kernel)
      → IsOf fd k
      → os.ftruncate fd (pos n) k ≡ (inr tt, k')
      → IsOf fd k' × (length (content k') ≡ n)
  pub stating :
      (fd : os.Fd) (z : ℤ) (k : os.Kernel)
      → IsOf fd k
      → os.fstat fd k ≡ inr z
      → z ≡ pos (length (content k))
  pub mapping :
      (fd : os.Fd) (ptr : os.Ptr) (k k' : os.Kernel)
      → IsOf fd k
      → os.mmap fd (length (content k)) k ≡ (inr ptr, k')
      → Shows ptr k' × (content k' ≡ content k)
  pub showing : (ptr : os.Ptr) (k : os.Kernel) → Shows ptr k → os.memory ptr k ≡ content k
  pub storing :
      (ptr : os.Ptr) (bs : List ℕ) (k : os.Kernel)
      → Shows ptr k
      → length bs ≡ length (content k)
      → Shows ptr (os.store ptr bs k) × (content (os.store ptr bs k) ≡ bs)

-- A method of a view on the bytes behind its mapping.
unfoldable pub on_mapping :
    {A : Type 0} (rt : Runtime) (os : Posix)
    → os.Ptr
    → (Segment → Done A)
    → os.Kernel
    → Option (PyResult A × View × os.Kernel)
on_mapping rt os ptr method k = elim (method (load rt (os.memory ptr k))) [
  | some (r, v, m) ↦ some (r, v, os.store ptr (flush rt m) k)
  | none ↦ none
]

abbrev pub whole : ℕ → View
whole size = record { size = size; cursor = 0 }

-- What stands behind the lock of a mapping, with the lock free.
abbrev pub cleared : List ℕ → Segment
cleared bs = record { word = 0; area = drop rwlock_size bs }

module _ (rt : Runtime) (os : Posix) where
  -- What a `map` that returns a view has asked of the system.
  viewed_inv :
      (h : PlatformHandle os) (c : Bool) (r : (os.Errno ⊎ os.Ptr) × os.Kernel) {ptr : os.Ptr}
      {v : View} {k' : os.Kernel}
      → rwlock_size < h.size
      → viewed rt (unix os) (record { handle = h; is_creator = c }) (Unix.from_nix os r.0, r.1)
        ≡ (ok (ptr, v), k')
      → (k1 : os.Kernel) × (r ≡ (inr ptr, k1))
        × (v ≡ whole h.size)
        × (k' ≡ settle rt (unix os) c ptr (flush rt (cleared (os.memory ptr k1))) k1)
  unfolding viewed Unix.from_nix map_err View.new settle load invalid
  viewed_inv h c (inl x, k1) large e = absurd (cc)
  viewed_inv h true (inr ptr, k1) large e = elim (Bool-cases (leb h.size rwlock_size)) [
    | inl narrow ↦ absurd (ground (arith, narrow, large))
    | inr wide ↦ let e' = rw (viewed, View.new, wide) at e in (k1, cc, cc, cc)
  ]
  viewed_inv h false (inr ptr, k1) large e = elim (Bool-cases (leb h.size rwlock_size)) [
    | inl narrow ↦ absurd (ground (arith, narrow, large))
    | inr wide ↦ let e' = rw (viewed, View.new, wide) at e in (k1, cc, cc, cc)
  ]

  pub map_inv :
      (h : PlatformHandle os) (c : Bool) (k : os.Kernel) {ptr : os.Ptr} {v : View} {k' : os.Kernel}
      → rwlock_size < h.size
      → map rt (unix os) (record { handle = h; is_creator = c }) k ≡ some (ok (ptr, v), k')
      → (k1 : os.Kernel) × (os.mmap h.fd h.size k ≡ (inr ptr, k1))
        × (v ≡ whole h.size)
        × (k' ≡ settle rt (unix os) c ptr (flush rt (cleared (os.memory ptr k1))) k1)
  unfolding map Unix.map
  map_inv h c k large e = elim (Bool-cases (h.size == 0)) [
    | inl zero ↦ absurd (ground (arith, zero, large))
    | inr some_size ↦
        let e' = rw (map, some_size) at e in viewed_inv h c (os.mmap h.fd h.size k) large (cc)
  ]

  sized_inv :
      (name : String) (fd : os.Fd) (stat : os.Errno ⊎ ℤ) (k : os.Kernel) {h : PlatformHandle os}
      {k' : os.Kernel}
      → Unix.sized os name fd stat k ≡ (inr h, k')
      → (z : ℤ) × (stat ≡ inr z)
        × (k ≡ k')
        × (h ≡ record { fd = fd; size = bits_of_i64 z; name = name })
  unfolding Unix.sized
  sized_inv name fd (inl x) k e = absurd (cc)
  sized_inv name fd (inr z) k e = (z, refl, cc, cc)

  opened_inv :
      (name : String) (r : (os.Errno ⊎ os.Fd) × os.Kernel) {h : PlatformHandle os} {k' : os.Kernel}
      → Unix.opened os name r ≡ (inr h, k')
      → (fd : os.Fd) × (z : ℤ) × (r ≡ (inr fd, k'))
        × (os.fstat fd k' ≡ inr z)
        × (h ≡ record { fd = fd; size = bits_of_i64 z; name = name })
  unfolding Unix.opened
  opened_inv name (inl x, k) e = absurd (cc)
  opened_inv name (inr fd, k) e =
      let (z, stat, same, handle) = sized_inv name fd (os.fstat fd k) k e in
      (fd, z, ap (λ k. (inr fd, k)) same, rw (← same) stat, handle)

  -- What an `open` that succeeds has asked of the system.
  pub open_inv :
      (name : String) (hint : Option ℕ) (k : os.Kernel) {s : SharedMemory rt (unix os)}
      {k' : os.Kernel}
      → open_segment rt (unix os) name hint k ≡ (ok s, k')
      → (fd : os.Fd) × (z : ℤ) × (os.shm_open name OFlag.rdwr k ≡ (inr fd, k'))
        × (os.fstat fd k' ≡ inr z)
        × (s ≡ record {
          handle = record { fd = fd; size = bits_of_i64 z; name = name };
          is_creator = false;
        })
  unfolding open_segment named Unix.attach Unix.open_handle
  open_inv name hint k e =
      let (valid, called) =
        checked_ok rt (unix os) (validate_name rt name)
          (λ k'. shared rt (unix os) false (Unix.attach os name hint k')) k e in
      let (h, attached, same) = shared_ok rt (unix os) false (Unix.attach os name hint k) called in
      let (fd, z, opened, stat, handle) =
        opened_inv name (os.shm_open name OFlag.rdwr k)
          (map_err_ok (Unix.open_handle os name k) attached) in
      (fd, z, opened, stat, rw (← handle) same)
