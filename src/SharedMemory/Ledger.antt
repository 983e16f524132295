-- ===== src/SharedMemory/Ledger.antt =====
-- What the calls take from the system and give back on Unix: descriptors and mappings.
use membridge.Common.{
  ℕ, ◌+◌, ◌≡◌, refl, ◌∙◌, Bool, true, false, Option, ◌⊎◌, inl, inr, String, List, arith, Bool-cases,
  ◌==◌,
}
use membridge.Error.{ShmError, PyResult, ok, err, invalid, map_err}
use membridge.Codec.Value.{Runtime, ℤ, i64_of_bits}
use membridge.Platform.Unix
use membridge.Platform.Unix.{Posix, OFlag, PlatformHandle, unix}
use membridge.SharedMemory.{
  SharedMemory, validate_name, create, open_segment, drop_handle, shared, checked, named,
}

-- The descriptors and the mappings that a process holds, and what the calls do to them: opening adds
-- one, closing an open one takes one away, and so for mapping and unmapping.
pub record Ledger (os : Posix) : Type 1 where
  pub descriptors : os.Kernel → ℕ
  pub mappings : os.Kernel → ℕ
  pub IsOpen : os.Fd → os.Kernel → Type 0
  pub IsMapped : os.Ptr → ℕ → os.Kernel → Type 0
  pub opening :
      (name : String) (flag : OFlag) (k k' : os.Kernel) (fd : os.Fd)
      → os.shm_open name flag k ≡ (inr fd, k')
      → (descriptors k' ≡ descriptors k + 1) × IsOpen fd k'
  pub not_opening :
      (name : String) (flag : OFlag) (k k' : os.Kernel) (e : os.Errno)
      → os.shm_open name flag k ≡ (inl e, k')
      → descriptors k' ≡ descriptors k
  pub truncating :
      (fd fd' : os.Fd) (n : ℤ) (k : os.Kernel)
      → IsOpen fd' k
      → (descriptors (os.ftruncate fd n k).1 ≡ descriptors k) × IsOpen fd' (os.ftruncate fd n k).1
  pub unlinking :
      (name : String) (fd : os.Fd) (k : os.Kernel)
      → IsOpen fd k
      → (descriptors (os.shm_unlink name k).1 ≡ descriptors k) × IsOpen fd (os.shm_unlink name k).1
  pub closing :
      (fd : os.Fd) (k : os.Kernel) → IsOpen fd k → descriptors (os.close fd k) + 1 ≡ descriptors k
  pub mapping :
      (fd : os.Fd) (n : ℕ) (k k' : os.Kernel) (ptr : os.Ptr)
      → os.mmap fd n k ≡ (inr ptr, k')
      → (mappings k' ≡ mappings k + 1) × IsMapped ptr n k'
  pub not_mapping :
      (fd : os.Fd) (n : ℕ) (k k' : os.Kernel) (e : os.Errno)
      → os.mmap fd n k ≡ (inl e, k')
      → mappings k' ≡ mappings k
  pub storing :
      (ptr ptr' : os.Ptr) (n : ℕ) (bs : List ℕ) (k : os.Kernel)
      → IsMapped ptr' n k
      → (mappings (os.store ptr bs k) ≡ mappings k) × IsMapped ptr' n (os.store ptr bs k)
  pub unmapping :
      (ptr : os.Ptr) (n : ℕ) (k : os.Kernel)
      → IsMapped ptr n k
      → mappings (os.munmap ptr n k) + 1 ≡ mappings k

module _ (rt : Runtime) (os : Posix) (l : Ledger os) where
  -- A call that fails holds what it held; one that returns a handle holds one descriptor more, until
  -- the handle is dropped.
  abbrev HandleBalanced : os.Kernel → (ShmError ⊎ PlatformHandle os) × os.Kernel → Type 0
  HandleBalanced k (inl e, k') = l.descriptors k' ≡ l.descriptors k
  HandleBalanced k (inr h, k') =
      (l.descriptors k' ≡ l.descriptors k + 1)
      × (l.descriptors (Unix.drop os h k') ≡ l.descriptors k)

  abbrev pub Balanced : os.Kernel → PyResult (SharedMemory rt (unix os)) × os.Kernel → Type 0
  Balanced k (err e, k') = l.descriptors k' ≡ l.descriptors k
  Balanced k (ok s, k') =
      (l.descriptors k' ≡ l.descriptors k + 1)
      × (l.descriptors (drop_handle rt (unix os) s k') ≡ l.descriptors k)

  truncated-Balanced :
      (name : String) (size : ℕ) (fd : os.Fd) (k : os.Kernel)
      (r : (os.Errno ⊎ Unit {0}) × os.Kernel)
      → l.descriptors r.1 ≡ l.descriptors k + 1
      → l.IsOpen fd r.1
      → HandleBalanced k (Unix.truncated os name size fd r)
  unfolding Unix.truncated Unix.drop
  truncated-Balanced name size fd k (inr done, k') more open_fd =
      (more, omega (arith, more, l.closing fd k' open_fd))
  truncated-Balanced name size fd k (inl e, k') more open_fd =
      let (same, still) = l.unlinking name fd k' open_fd in
      omega (arith, more, same, l.closing fd (os.shm_unlink name k').1 still)

  created-Balanced :
      (name : String) (size : ℕ) (k : os.Kernel) (r : (os.Errno ⊎ os.Fd) × os.Kernel)
      → os.shm_open name OFlag.creat_rdwr k ≡ r
      → HandleBalanced k (Unix.created os name size r)
  unfolding Unix.created
  created-Balanced name size k (inr fd, k1) e =
      let (more, open_fd) = l.opening name OFlag.creat_rdwr k k1 fd e in
      let (same, still) = l.truncating fd fd (i64_of_bits size) k1 open_fd in
      truncated-Balanced name size fd k (os.ftruncate fd (i64_of_bits size) k1) (same ∙ more) still
  created-Balanced name size k (inl x, k1) e = l.not_opening name OFlag.creat_rdwr k k1 x e

  sized-Balanced :
      (name : String) (fd : os.Fd) (k k1 : os.Kernel) (stat : os.Errno ⊎ ℤ)
      → l.descriptors k1 ≡ l.descriptors k + 1
      → l.IsOpen fd k1
      → HandleBalanced k (Unix.sized os name fd stat k1)
  unfolding Unix.sized Unix.drop
  sized-Balanced name fd k k1 (inr st_size) more open_fd =
      (more, omega (arith, more, l.closing fd k1 open_fd))
  sized-Balanced name fd k k1 (inl x) more open_fd = omega (arith, more, l.closing fd k1 open_fd)

  opened-Balanced :
      (name : String) (k : os.Kernel) (r : (os.Errno ⊎ os.Fd) × os.Kernel)
      → os.shm_open name OFlag.rdwr k ≡ r
      → HandleBalanced k (Unix.opened os name r)
  unfolding Unix.opened
  opened-Balanced name k (inr fd, k1) e =
      let (more, open_fd) = l.opening name OFlag.rdwr k k1 fd e in
      sized-Balanced name fd k k1 (os.fstat fd k1) more open_fd
  opened-Balanced name k (inl x, k1) e = l.not_opening name OFlag.rdwr k k1 x e

  shared-Balanced :
      (is_creator : Bool) (k : os.Kernel) (r : (ShmError ⊎ PlatformHandle os) × os.Kernel)
      → HandleBalanced k r
      → Balanced k (shared rt (unix os) is_creator (map_err r.0, r.1))
  unfolding shared map_err drop_handle
  shared-Balanced is_creator k (inl e, k') h = h
  shared-Balanced is_creator k (inr handle, k') h = h

  checked-Balanced :
      (r : PyResult (Unit {0}))
      (body : os.Kernel → PyResult (SharedMemory rt (unix os)) × os.Kernel) (k : os.Kernel)
      → Balanced k (body k)
      → Balanced k (checked rt (unix os) r body k)
  unfolding checked
  checked-Balanced (ok u) body k h = h
  checked-Balanced (err e) body k h = refl

  -- On a system that keeps the ledger, `create` and `open` that fail leave the process with the
  -- descriptors that it had, and those that succeed with one more, until the handle is dropped.
  pub descriptors_balance :
      (name : String) (size : ℕ) (hint : Option ℕ) (k : os.Kernel)
      → Balanced k (create rt (unix os) name size k)
        × Balanced k (open_segment rt (unix os) name hint k)
  unfolding create open_segment named Unix.create Unix.open_handle Unix.attach invalid
  descriptors_balance name size hint k = (
    elim (Bool-cases (size == 0)) [
      | inl nothing ↦ rw (create, nothing) refl
      | inr something ↦
          rw (create, something)
            (checked-Balanced (validate_name rt name) _ k (
              shared-Balanced true k _
                (created-Balanced name size k (os.shm_open name OFlag.creat_rdwr k) refl)))
    ],
    checked-Balanced (validate_name rt name) _ k
        (shared-Balanced false k _ (opened-Balanced name k (os.shm_open name OFlag.rdwr k) refl)),
  )
