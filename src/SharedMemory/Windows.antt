-- ===== src/SharedMemory/Windows.antt =====
-- What creating and opening a segment gives on Windows.
use membridge.Common.{ℕ, ◌+◌, ◌*◌, ◌^◌, ◌<◌, ◌≡◌, refl, false, String, some, ◌⊎◌, inl, inr, arith}
use membridge.Common.Words.{bit_and-mask}
use membridge.Error.{ok}
use membridge.Codec.Value.{Runtime}
use membridge.Platform.Win32
use membridge.Platform.Win32.{Win32, PlatformHandle, win32, to_win32_name, high, low}
use membridge.SharedMemory.{SharedMemory, validate_name, create, open_segment, shared}
use membridge.SharedMemory.Handles.{create_inv}

-- The two halves of a size below 2 ^ 64 are words of 32 bits, and give the size back.
pub halves-size :
    (size : ℕ)
    → size < 2 ^ 64
    → (high size < 2 ^ 32) × (low size < 2 ^ 32) × (high size * 2 ^ 32 + low size ≡ size)
unfolding high low
halves-size size small = (omega arith, omega arith, omega (arith, bit_and-mask 32 size))

-- A segment that was created under a name is opened by that name.
abbrev pub ReopensWin32 : Win32 → Type 0
ReopensWin32 w =
    (h l : ℕ) (c_name : String) (handle : w.Handle) (k k' : w.Kernel)
    → w.create_file_mapping h l c_name k ≡ (inr handle, k')
    → (handle' : w.Handle) × (k'' : w.Kernel) × (w.open_file_mapping c_name k' ≡ (inr handle', k''))

module _ (w : Win32) where
  wrapped_ok :
      (name : String) (size : ℕ) (r : (w.Error ⊎ w.Handle) × w.Kernel) {h : PlatformHandle w}
      {k' : w.Kernel}
      → Win32.wrapped w name size r ≡ (inr h, k')
      → (handle : w.Handle) × (r ≡ (inr handle, k'))
  unfolding Win32.wrapped
  wrapped_ok name size (inr handle, k) e = (handle, cc)
  wrapped_ok name size (inl x, k) e = absurd (cc)

  -- The name and the call behind a `create` that succeeded.
  created_ok :
      (name : String) (size : ℕ) (k : w.Kernel) (converted : String ⊎ String) {h : PlatformHandle w}
      {k' : w.Kernel}
      → w.c_string (to_win32_name name) ≡ converted
      → Win32.create w name size k ≡ (inr h, k')
      → (c_name : String) × (handle : w.Handle) × (converted ≡ inr c_name)
        × (w.create_file_mapping (high size) (low size) c_name k ≡ (inr handle, k'))
  unfolding Win32.create
  created_ok name size k (inl text) same e = absurd (let e' = rw same at e in cc)
  created_ok name size k (inr c_name) same e =
      let e' = rw same at e in
      let (handle, made) =
        wrapped_ok name size (w.create_file_mapping (high size) (low size) c_name k) e' in
      (c_name, handle, refl, made)

-- Where Windows opens what it created: a segment that `create` returned is opened by any valid name
-- that is the same but for its leading slashes, with whatever size is given, which becomes the handle's.
pub open_segment-create_win32 :
    (rt : Runtime) (w : Win32) (name name' : String) (size size' : ℕ) (k : w.Kernel)
    {s : SharedMemory rt (win32 w)} {k' : w.Kernel}
    → ReopensWin32 w
    → to_win32_name name' ≡ to_win32_name name
    → validate_name rt name' ≡ ok tt
    → create rt (win32 w) name size k ≡ (ok s, k')
    → (handle : w.Handle) × (k'' : w.Kernel) × (open_segment rt (win32 w) name' (some size') k' ≡ (
      ok (record {
        handle = record { handle = handle; size = size'; name = name' };
        is_creator = false;
      }),
      k'',
    ))
unfolding open_segment shared Win32.attach Win32.open_handle
open_segment-create_win32 rt w name name' size size' k {s} {k'} reopens same valid e =
    let (some_size, ok_name, (h, made, _)) = create_inv rt (win32 w) name size k e in
    let (c_name, handle, converted, mapping) =
      created_ok w name size k (w.c_string (to_win32_name name)) refl made in
    let (handle', k'', opened) = reopens (high size) (low size) c_name handle k k' mapping in
    (handle', k'', rw (valid, same, converted, opened) refl)
