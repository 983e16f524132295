-- ===== src/Platform/Win32.antt =====
-- src/platform/win32.rs: `PlatformHandle` over the Win32 calls, which are parameters.
use Prim.Native.Char.{code}
use Prim.Native.Nat.{bit_and}
use membridge.Common.{
  ℕ, ◌-◌, ◌/◌, ◌%◌, ◌^◌, String, Option, some, none, ◌⊎◌, inl, inr, List, ◌==◌, if◌then◌else◌,
}
use membridge.Error.{ShmError, system, nul_in_name, size_required, PyResult, invalid, map_err}
use membridge.Platform.{Platform}

-- `CString::new`, with the text of its error, and the calls of the windows crate. `MapViewOfFile` may
-- give a null address, and `from_thread` is the error that it left.
pub record Win32 : Type 1 where
  pub Kernel : Type 0
  pub Error : Type 0
  pub Handle : Type 0
  pub Addr : Type 0
  pub to_string : Error → String
  pub c_string : String → String ⊎ String
  pub create_file_mapping : (high low : ℕ) → String → Kernel → (Error ⊎ Handle) × Kernel
  pub open_file_mapping : String → Kernel → (Error ⊎ Handle) × Kernel
  pub map_view_of_file : Handle → ℕ → Kernel → Option Addr × Kernel
  pub from_thread : Kernel → Error
  pub unmap_view_of_file : Addr → Kernel → Kernel
  pub close_handle : Handle → Kernel → Kernel
  pub memory : Addr → Kernel → List ℕ
  pub store : Addr → List ℕ → Kernel → Kernel

-- `trim_start_matches('/')`
unfoldable pub to_win32_name : String → String
to_win32_name String.[] = String.[]
to_win32_name (String.◌∷◌ c s) = if code c == 47 then to_win32_name s else String.◌∷◌ c s

-- `(size >> 32) as u32` and `(size & 0xFFFF_FFFF) as u32`
unfoldable pub high : ℕ → ℕ
high size = size / 2 ^ 32 % 2 ^ 32

unfoldable pub low : ℕ → ℕ
low size = bit_and size (2 ^ 32 - 1) % 2 ^ 32

module _ (w : Win32) where
  pub record PlatformHandle : Type 0 where
    pub handle : w.Handle
    pub size : ℕ
    pub name : String

  -- The handle that a call gave, or its error.
  unfoldable pub wrapped :
      String → ℕ → (w.Error ⊎ w.Handle) × w.Kernel → (ShmError ⊎ PlatformHandle) × w.Kernel
  wrapped name size (inl e, k) = (inl (ShmError.os (system (w.to_string e))), k)
  wrapped name size (inr h, k) = (inr (record { handle = h; size = size; name = name }), k)

  -- A call behind the `?` of the name's conversion.
  unfoldable pub with_name :
      {A : Type 0}
      → String ⊎ String
      → (String → w.Kernel → (ShmError ⊎ A) × w.Kernel)
      → w.Kernel
      → (ShmError ⊎ A) × w.Kernel
  with_name (inl text) call k = (inl (ShmError.invalid_arg (nul_in_name text)), k)
  with_name (inr c_name) call k = call c_name k

  unfoldable pub create : String → ℕ → w.Kernel → (ShmError ⊎ PlatformHandle) × w.Kernel
  unfolding wrapped with_name
  create name size k =
      with_name (w.c_string (to_win32_name name))
        (λ c_name k'. wrapped name size (w.create_file_mapping (high size) (low size) c_name k')) k

  -- `open`
  unfoldable pub open_handle : String → ℕ → w.Kernel → (ShmError ⊎ PlatformHandle) × w.Kernel
  unfolding wrapped with_name
  open_handle name size k =
      with_name (w.c_string (to_win32_name name))
        (λ c_name k'. wrapped name size (w.open_file_mapping c_name k')) k

  unfoldable pub remove : String → w.Kernel → (ShmError ⊎ Unit {0}) × w.Kernel
  remove name k = (inr tt, k)

  -- `map` behind its call. `NonNull::new` gets an address that was tested.
  unfoldable pub viewed : Option w.Addr × w.Kernel → (ShmError ⊎ w.Addr) × w.Kernel
  viewed (none, k) = (inl (ShmError.os (system (w.to_string (w.from_thread k)))), k)
  viewed (some addr, k) = (inr addr, k)

  unfoldable pub map : PlatformHandle → w.Kernel → Option ((ShmError ⊎ w.Addr) × w.Kernel)
  unfolding viewed
  map h k = some (viewed (w.map_view_of_file h.handle h.size k))

  unfoldable pub unmap : w.Addr → ℕ → w.Kernel → w.Kernel
  unmap ptr size k = w.unmap_view_of_file ptr k

  -- The drop of a handle.
  unfoldable pub drop : PlatformHandle → w.Kernel → w.Kernel
  drop h k = w.close_handle h.handle k

  -- The Windows branch of `SharedMemory::open`, which needs the size.
  unfoldable pub attach : String → Option ℕ → w.Kernel → PyResult PlatformHandle × w.Kernel
  unfolding invalid map_err
  attach name none k = (invalid size_required, k)
  attach name (some size) k = let (r, k') = open_handle name size k in (map_err r, k')

-- What src/platform/mod.rs passes on under `cfg(windows)`.
abbrev pub win32 : Win32 → Platform
win32 w = record {
  Kernel = w.Kernel;
  PlatformHandle = PlatformHandle w;
  Ptr = w.Addr;
  size = λ h. h.size;
  name = λ h. h.name;
  create = create w;
  attach = attach w;
  remove = remove w;
  map = map w;
  unmap = unmap w;
  drop = drop w;
  memory = w.memory;
  store = w.store;
}
