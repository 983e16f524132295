-- ===== src/SharedMemory/Handles.antt =====
-- What creating and opening a segment gives.
use membridge.Common.{
  ℕ, ◌^◌, ◌<◌, ◌≡◌, refl, Bool, true, false, String, Option, ◌⊎◌, inl, inr, arith, Bool-cases, ◌==◌,
  ne→==,
}
use membridge.Error.{ShmError, PyErr, PyResult, ok, err, invalid, map_err}
use membridge.Codec.Value.{Runtime, ℤ, i64_of_bits, bits_of_i64}
use membridge.Platform.{Platform}
use membridge.Platform.Unix
use membridge.Platform.Unix.{Posix, creat_rdwr, rdwr, PlatformHandle, unix}
use membridge.SharedMemory.{
  SharedMemory, validate_name, create, open_segment, remove, named, checked, shared,
}

-- A segment that was created under a name and sized is opened by that name, and shows its size.
abbrev pub Reopens : Posix → Type 0
Reopens os =
    (name : String) (n : ℤ) (fd : os.Fd) (k k1 k2 : os.Kernel)
    → os.shm_open name creat_rdwr k ≡ (inr fd, k1)
    → os.ftruncate fd n k1 ≡ (inr tt, k2)
    → (fd' : os.Fd) × (k3 : os.Kernel) × (os.shm_open name rdwr k2 ≡ (inr fd', k3))
      × (os.fstat fd' k3 ≡ inr n)

pub map_err_ok :
    {A K : Type 0} (r : (ShmError ⊎ A) × K) {a : A} {k : K}
    → (let (x, k') = r in let y : PyResult A × K = (map_err x, k') in y) ≡ (ok a, k)
    → r ≡ (inr a, k)
unfolding map_err
map_err_ok (inl e, k') h = absurd (cc)
map_err_ok (inr b, k') h = cc

module _ (rt : Runtime) (p : Platform) where
  -- A name that `validate_name` refuses is refused by `create`, unless its size is zero, and by `open`
  -- and `remove`, with the same error, and the kernel is as it was.
  pub named_err :
      (name : String) (size : ℕ) (hint : Option ℕ) (k : p.Kernel) {problem : PyErr}
      → validate_name rt name ≡ err problem
      → 0 < size
      → (create rt p name size k ≡ (err problem, k))
        × (open_segment rt p name hint k ≡ (err problem, k))
        × (remove rt p name k ≡ (err problem, k))
  unfolding create open_segment remove named
  named_err name size hint k e some_size = rw (e, ne→== size 0 (omega arith)) (refl, refl, refl)

  pub shared_ok :
      (c : Bool) (r : PyResult p.PlatformHandle × p.Kernel) {s : SharedMemory rt p} {k' : p.Kernel}
      → shared rt p c r ≡ (ok s, k')
      → (h : p.PlatformHandle) × (r ≡ (ok h, k')) × (s ≡ record { handle = h; is_creator = c })
  unfolding shared
  shared_ok c (ok h, k) e = (h, cc, cc)
  shared_ok c (err x, k) e = absurd (cc)

  pub checked_ok :
      {A : Type 0} (r : PyResult (Unit {0})) (body : p.Kernel → PyResult A × p.Kernel)
      (k : p.Kernel) {a : A} {k' : p.Kernel}
      → checked rt p r body k ≡ (ok a, k')
      → (r ≡ ok tt) × (body k ≡ (ok a, k'))
  unfolding checked
  checked_ok (ok u) body k e = (refl, e)
  checked_ok (err x) body k e = absurd (cc)

  -- What a `create` that succeeds has asked of the platform.
  pub create_inv :
      (name : String) (size : ℕ) (k : p.Kernel) {s : SharedMemory rt p} {k' : p.Kernel}
      → create rt p name size k ≡ (ok s, k')
      → (0 < size)
        × (validate_name rt name ≡ ok tt)
        × ((h : p.PlatformHandle) × (p.create name size k ≡ (inr h, k'))
            × (s ≡ record { handle = h; is_creator = true }))
  unfolding create
  create_inv name size k e = elim (Bool-cases (size == 0)) [
    | inl none ↦ absurd (let refused = rw none at e in unfold invalid in cc)
    | inr some ↦
        let (valid, called) =
          checked_ok (validate_name rt name)
            (λ k'. shared rt p true (map_err (p.create name size k').0, (p.create name size k').1))
            k (rw some at e) in
        let (h, made, same) =
          shared_ok true (map_err (p.create name size k).0, (p.create name size k).1) called in
        (ground arith, valid, (h, map_err_ok (p.create name size k) made, same))
  ]

module _ (rt : Runtime) (os : Posix) where
  bits_again : (size : ℕ) → size < 2 ^ 64 → bits_of_i64 (i64_of_bits size) ≡ size
  bits_again size h = ground arith

  truncated_ok :
      (name : String) (size : ℕ) (fd : os.Fd) (r : (os.Errno ⊎ Unit {0}) × os.Kernel)
      {h : PlatformHandle os} {k' : os.Kernel}
      → Unix.truncated os name size fd r ≡ (inr h, k')
      → (h ≡ record { fd = fd; size = size; name = name }) × (r ≡ (inr tt, k'))
  unfolding Unix.truncated
  truncated_ok name size fd (inr done, k) e = (cc, cc)
  truncated_ok name size fd (inl x, k) e = absurd (cc)

  created_ok :
      (name : String) (size : ℕ) (r : (os.Errno ⊎ os.Fd) × os.Kernel) {h : PlatformHandle os}
      {k' : os.Kernel}
      → Unix.created os name size r ≡ (inr h, k')
      → (fd : os.Fd) × (k1 : os.Kernel) × (h ≡ record { fd = fd; size = size; name = name })
        × (r ≡ (inr fd, k1))
        × (os.ftruncate fd (i64_of_bits size) k1 ≡ (inr tt, k'))
  unfolding Unix.created
  created_ok name size (inr fd, k) e =
      let (same, done) = truncated_ok name size fd (os.ftruncate fd (i64_of_bits size) k) e in
      (fd, k, same, refl, done)
  created_ok name size (inl x, k) e = absurd (cc)

  -- A `create` that succeeds was given a size above zero and a valid name, and returns a creator's
  -- handle with both, on the descriptor that the system opened by that name and sized.
  pub create_ok :
      (name : String) (size : ℕ) (k : os.Kernel) {s : SharedMemory rt (unix os)} {k' : os.Kernel}
      → create rt (unix os) name size k ≡ (ok s, k')
      → (0 < size)
        × (validate_name rt name ≡ ok tt)
        × ((fd : os.Fd) × (k1 : os.Kernel) × (s
              ≡ record { handle = record { fd = fd; size = size; name = name }; is_creator = true })
            × (os.shm_open name creat_rdwr k ≡ (inr fd, k1))
            × (os.ftruncate fd (i64_of_bits size) k1 ≡ (inr tt, k')))
  unfolding Unix.create
  create_ok name size k e =
      let (some, valid, (h, made, same)) = create_inv rt (unix os) name size k e in
      let (fd, k1, handle, opened, sized) =
        created_ok name size (os.shm_open name creat_rdwr k) made in
      (some, valid, (fd, k1, rw (← handle) same, opened, sized))

  -- Where the system opens what it created: a segment that `create` returned, of fewer than 2 ^ 64
  -- bytes, is opened by its name at once, whatever size is asked for, as no creator's handle and with
  -- the size that it was created with.
  pub open_segment-create :
      (name : String) (size : ℕ) (hint : Option ℕ) (k : os.Kernel) {s : SharedMemory rt (unix os)}
      {k' : os.Kernel}
      → Reopens os
      → size < 2 ^ 64
      → create rt (unix os) name size k ≡ (ok s, k')
      → (fd : os.Fd) × (k'' : os.Kernel) × (open_segment rt (unix os) name hint k' ≡ (
        ok (record { handle = record { fd = fd; size = size; name = name }; is_creator = false }),
        k'',
      ))
  unfolding open_segment shared Unix.attach Unix.open_handle
  open_segment-create name size hint k {s} {k'} reopens small e =
      let (some, valid, (fd, k1, same, made, sized)) = create_ok name size k e in
      let (fd', k3, opened, shows) = reopens name (i64_of_bits size) fd k k1 k' made sized in
      (fd', k3, rw (valid, opened, shows, bits_again size small) refl)
