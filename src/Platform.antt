-- ===== src/Platform.antt =====
-- src/platform/mod.rs: the interface that both implementations of `PlatformHandle` expose.
pub mod Unix
pub mod Win32
use membridge.Common.{ℕ, String, Option, ◌⊎◌, List}
use membridge.Error.{ShmError, PyResult}

-- A state of the system, handles and mappings. `attach` is the part of `SharedMemory::open` that each
-- platform has for itself. A `map` that gives `none` panics. `memory` and `store` are the bytes behind
-- a mapping.
pub record Platform : Type 1 where
  pub Kernel : Type 0
  pub PlatformHandle : Type 0
  pub Ptr : Type 0
  pub size : PlatformHandle → ℕ
  pub name : PlatformHandle → String
  pub create : String → ℕ → Kernel → (ShmError ⊎ PlatformHandle) × Kernel
  pub attach : String → Option ℕ → Kernel → PyResult PlatformHandle × Kernel
  pub remove : String → Kernel → (ShmError ⊎ Unit {0}) × Kernel
  pub map : PlatformHandle → Kernel → Option ((ShmError ⊎ Ptr) × Kernel)
  pub unmap : Ptr → ℕ → Kernel → Kernel
  pub drop : PlatformHandle → Kernel → Kernel
  pub memory : Ptr → Kernel → List ℕ
  pub store : Ptr → List ℕ → Kernel → Kernel
