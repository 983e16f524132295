-- ===== src/Tests/WindowsRuns.antt =====
-- src/platform/win32.rs on a system of one segment, that is of all its names.
use membridge.Common.{ℕ, ◌≡◌, refl, true, false, String, none, some, inr, List, [], replicate}
use membridge.Error.{ok, invalid, size_required, map_err}
use membridge.Platform.Win32
use membridge.Platform.Win32.{Win32, PlatformHandle, win32, to_win32_name, high, low}
use membridge.SharedMemory.{validate_name, create, open_segment, shared}
use membridge.SharedMemory.Windows.{ReopensWin32, open_segment-create_win32}
use membridge.Tests.Samples.{sample}

abbrev one_mapping : Win32
one_mapping = record {
  Kernel = List ℕ;
  Error = String;
  Handle = Unit {0};
  Addr = Unit {0};
  to_string = λ e. e;
  c_string = λ s. inr s;
  create_file_mapping = λ h l c_name k. (inr tt, replicate l 0);
  open_file_mapping = λ c_name k. (inr tt, k);
  map_view_of_file = λ h n k. (some tt, k);
  from_thread = λ k. "access denied";
  unmap_view_of_file = λ a k. k;
  close_handle = λ h k. k;
  memory = λ a k. k;
  store = λ a bs k. bs;
}

abbrev handle : (name : String) (size : ℕ) → PlatformHandle one_mapping
handle name size = record { handle = tt; size = size; name = name }

one_mapping-Reopens : ReopensWin32 one_mapping
one_mapping-Reopens h l c_name handle k k' made = (tt, k', refl)

create_run :
    create sample (win32 one_mapping) "/seg" 8 []
    ≡ (ok (record { handle = handle "/seg" 8; is_creator = true }), replicate 8 0)
unfolding create validate_name shared Win32.create low map_err
create_run = refl

-- A name of more slashes, and another size.
open_segment-create_win32_example :
    (h : Unit {0}) × (k'' : List ℕ) × (open_segment sample
        (win32 one_mapping)
        "///seg"
        (some 3)
        (replicate 8 0)
      ≡ (
        ok (record {
          handle = record { handle = h; size = 3; name = "///seg" };
          is_creator = false;
        }),
        k'',
      ))
unfolding to_win32_name validate_name
open_segment-create_win32_example =
    open_segment-create_win32 sample one_mapping "/seg" "///seg" 8 3 [] one_mapping-Reopens refl
      refl create_run

-- `open` refuses to guess a size.
unsized : open_segment sample (win32 one_mapping) "/seg" none [] ≡ (invalid size_required, [])
unfolding open_segment validate_name shared Win32.attach
unsized = refl
