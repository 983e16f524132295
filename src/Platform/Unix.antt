-- ===== src/Platform/Unix.antt =====
-- src/platform/unix.rs: `PlatformHandle` over the POSIX calls, which are parameters.
use membridge.Common.{ℕ, String, Option, some, none, ◌⊎◌, inl, inr, List, ◌==◌, if◌then◌else◌}
use membridge.Error.{ShmError, PyResult, from_errno, map_err}
use membridge.Codec.Value.{ℤ, bits_of_i64, i64_of_bits}
use membridge.Platform.{Platform}

-- `O_CREAT | O_RDWR`, and `O_RDWR`.
pub data OFlag : Type 0 where
  creat_rdwr rdwr : OFlag

-- The calls of the nix crate, on the state of the kernel. `memory` and `store` are the bytes behind a
-- mapping.
pub record Posix : Type 1 where
  pub Kernel : Type 0
  pub Errno : Type 0
  pub Fd : Type 0
  pub Ptr : Type 0
  pub to_string : Errno → String
  pub shm_open : String → OFlag → Kernel → (Errno ⊎ Fd) × Kernel
  pub ftruncate : Fd → ℤ → Kernel → (Errno ⊎ Unit {0}) × Kernel
  pub fstat : Fd → Kernel → Errno ⊎ ℤ
  pub mmap : Fd → ℕ → Kernel → (Errno ⊎ Ptr) × Kernel
  pub shm_unlink : String → Kernel → (Errno ⊎ Unit {0}) × Kernel
  pub munmap : Ptr → ℕ → Kernel → Kernel
  pub close : Fd → Kernel → Kernel
  pub memory : Ptr → Kernel → List ℕ
  pub store : Ptr → List ℕ → Kernel → Kernel

module _ (os : Posix) where
  pub record PlatformHandle : Type 0 where
    pub fd : os.Fd
    pub size : ℕ
    pub name : String

  -- `map_err(ShmError::from)`
  unfoldable pub from_nix : {A : Type 0} → os.Errno ⊎ A → ShmError ⊎ A
  from_nix (inl e) = inl (from_errno (os.to_string e))
  from_nix (inr a) = inr a

  -- `create` behind `ftruncate`, and behind `shm_open`. Where it fails, the descriptor is dropped.
  unfoldable pub truncated :
      String
      → ℕ
      → os.Fd
      → (os.Errno ⊎ Unit {0}) × os.Kernel
      → (ShmError ⊎ PlatformHandle) × os.Kernel
  truncated name size fd (inr done, k) = (inr (record { fd = fd; size = size; name = name }), k)
  truncated name size fd (inl e, k) =
      (inl (from_errno (os.to_string e)), os.close fd (os.shm_unlink name k).1)

  unfoldable pub created :
      String → ℕ → (os.Errno ⊎ os.Fd) × os.Kernel → (ShmError ⊎ PlatformHandle) × os.Kernel
  unfolding truncated
  created name size (inr fd, k) = truncated name size fd (os.ftruncate fd (i64_of_bits size) k)
  created name size (inl e, k) = (inl (from_errno (os.to_string e)), k)

  unfoldable pub create : String → ℕ → os.Kernel → (ShmError ⊎ PlatformHandle) × os.Kernel
  unfolding created
  create name size k = created name size (os.shm_open name OFlag.creat_rdwr k)

  -- `open` behind `fstat`, and behind `shm_open`; `open_handle` is `open`.
  unfoldable pub sized :
      String → os.Fd → os.Errno ⊎ ℤ → os.Kernel → (ShmError ⊎ PlatformHandle) × os.Kernel
  sized name fd (inr st_size) k =
      (inr (record { fd = fd; size = bits_of_i64 st_size; name = name }), k)
  sized name fd (inl e) k = (inl (from_errno (os.to_string e)), os.close fd k)

  unfoldable pub opened :
      String → (os.Errno ⊎ os.Fd) × os.Kernel → (ShmError ⊎ PlatformHandle) × os.Kernel
  unfolding sized
  opened name (inr fd, k) = sized name fd (os.fstat fd k) k
  opened name (inl e, k) = (inl (from_errno (os.to_string e)), k)

  unfoldable pub open_handle : String → os.Kernel → (ShmError ⊎ PlatformHandle) × os.Kernel
  unfolding opened
  open_handle name k = opened name (os.shm_open name OFlag.rdwr k)

  unfoldable pub remove : String → os.Kernel → (ShmError ⊎ Unit {0}) × os.Kernel
  unfolding from_nix
  remove name k = let (r, k') = os.shm_unlink name k in (from_nix r, k')

  -- `map`. `none`: the `unwrap` of the size panics.
  unfoldable pub map : PlatformHandle → os.Kernel → Option ((ShmError ⊎ os.Ptr) × os.Kernel)
  unfolding from_nix
  map h k =
      let (r, k') = os.mmap h.fd h.size k in if h.size == 0 then none else some (from_nix r, k')

  unfoldable pub unmap : os.Ptr → ℕ → os.Kernel → os.Kernel
  unmap ptr size k = os.munmap ptr size k

  -- The drop of a handle, which drops its `OwnedFd`.
  unfoldable pub drop : PlatformHandle → os.Kernel → os.Kernel
  drop h k = os.close h.fd k

  -- The Unix branch of `SharedMemory::open`, which ignores the size.
  unfoldable pub attach : String → Option ℕ → os.Kernel → PyResult PlatformHandle × os.Kernel
  unfolding map_err
  attach name size k = let (r, k') = open_handle name k in (map_err r, k')

-- What src/platform/mod.rs passes on under `cfg(unix)`.
abbrev pub unix : Posix → Platform
unix os = record {
  Kernel = os.Kernel;
  PlatformHandle = PlatformHandle os;
  Ptr = os.Ptr;
  size = λ h. h.size;
  name = λ h. h.name;
  create = create os;
  attach = attach os;
  remove = remove os;
  map = map os;
  unmap = unmap os;
  drop = drop os;
  memory = os.memory;
  store = os.store;
}
