-- ===== src/Tests/SharedRuns.antt =====
-- src/shared_memory.rs on a system of one segment.
use membridge.Common.{
  ℕ, ◌^◌, ◌≡◌, ◌≢◌, ◌↔◌, refl, ap, true, false, String, none, some, ◌⊎◌, inl, inr, List, [], ◌∷◌,
  length, replicate, arith, ◌==◌, if◌then◌else◌, length-replicate, Bool-cases, ==→eq,
}
use Prim.Native.Char.{Char, code}
use membridge.Error.{
  ok, err, invalid, size_zero, name_without_slash, name_too_short, system, os_error, from_errno,
  map_err,
}
use membridge.Codec.Value.{ℤ, pos, negsuc}
use membridge.Platform.Unix
use membridge.Platform.Unix.{Posix, OFlag, PlatformHandle, unix}
use membridge.Ring.Holds.{Holds}
use membridge.View.Valid.{IsValid}
use membridge.View.Layout as ViewLayout
use membridge.Ring.Layout as RingLayout
use membridge.SharedMemory.{
  SharedMemory, validate_name, shared, create, open_segment, remove, map, spsc,
}
use membridge.SharedMemory.Names.{CountsBytes, validate_name_iff}
use membridge.SharedMemory.Handles.{Reopens, open_segment-create}
use membridge.SharedMemory.Refusals.{other_start, refusals_agree}
use membridge.SharedMemory.Mappings.{Maps, map_creator, spsc_creator}
use membridge.SharedMemory.Panics.{map_panics_iff}
use membridge.Tests.Samples.{sample, codes}

-- The kernel is the bytes of its segment.
unfoldable pub resized : ℤ → List ℕ → (String ⊎ Unit {0}) × List ℕ
resized (pos n) k = (inr tt, replicate n 0)
resized (negsuc n) k = (inl "EINVAL", k)

unfoldable pub mapping : ℕ → List ℕ → (String ⊎ Unit {0}) × List ℕ
mapping n k = if length k == n then (inr tt, k) else (inl "ENOMEM", k)

abbrev pub one_segment : Posix
one_segment = record {
  Kernel = List ℕ;
  Errno = String;
  Fd = Unit {0};
  Ptr = Unit {0};
  to_string = λ e. e;
  shm_open = λ name flag k. (inr tt, k);
  ftruncate = λ fd n k. resized n k;
  fstat = λ fd k. inr (pos (length k));
  mmap = λ fd n k. mapping n k;
  shm_unlink = λ name k. (inr tt, []);
  munmap = λ ptr n k. k;
  close = λ fd k. k;
  memory = λ ptr k. k;
  store = λ ptr bs k. bs;
}

one_segment-Reopens : Reopens one_segment
unfolding resized
one_segment-Reopens name (pos n) fd k k1 k2 opened sized = (
  tt,
  k2,
  refl,
  rw (← (ap (λ (t : (String ⊎ Unit {0}) × List ℕ). t.1) sized))
      (ap (λ m. inr (pos m)) (length-replicate n 0)),
)
one_segment-Reopens name (negsuc n) fd k k1 k2 opened sized = absurd (cc)

one_segment-Maps : Maps (unix one_segment)
unfolding mapping Unix.map
one_segment-Maps = record {
  mapped = λ h k k' ptr e. elim (Bool-cases (h.size == 0)) [
    | inl zero ↦ let e' = rw zero at e in absurd (cc)
    | inr some_size ↦ elim (Bool-cases (length k == h.size)) [
      | inl same ↦
          let e' = rw (some_size, same) at e in
          let unchanged : k ≡ k' = cc in rw (← unchanged) (==→eq (length k) h.size same)
      | inr other ↦ let e' = rw (some_size, other) at e in absurd (cc)
    ]
  ];
  stored = λ ptr bs k e. refl;
}

codes-nil : (s : String) → length (codes s) ≡ 0 → s ≡ String.[]
codes-nil String.[] h = refl
codes-nil (String.◌∷◌ c s) h = absurd (omega (arith, h))

sample-CountsBytes : CountsBytes sample
sample-CountsBytes = record { nothing = refl; something = codes-nil; ascii = λ c s h. omega arith }

validate_name_iff_example : (validate_name sample "/" ≡ ok tt) ↔ (
    (c : Char) × (rest : String) × ("/" ≡ String.◌∷◌ c rest) × (code c ≡ 47) × (rest ≢ String.[]))
validate_name_iff_example = validate_name_iff sample "/" sample-CountsBytes

-- The refusals come in the order of the code.
refusals :
    (create sample (unix one_segment) "seg" 0 [] ≡ (invalid size_zero, []))
    × (create sample (unix one_segment) "seg" 8 [] ≡ (invalid name_without_slash, []))
    × (create sample (unix one_segment) "/" 8 [] ≡ (invalid name_too_short, []))
    × (create sample (unix one_segment) "/seg" (2 ^ 63) (7 ∷ [])
        ≡ (err (os_error (system "EINVAL")), []))
unfolding create validate_name resized shared Unix.create from_errno map_err
refusals = (refl, refl, refl, refl)

refusals_agree_example :
    (create sample (unix one_segment) "seg" 8 [] ≡ (invalid name_without_slash, []))
    × (open_segment sample (unix one_segment) "seg" none [] ≡ (invalid name_without_slash, []))
    × (remove sample (unix one_segment) "seg" [] ≡ (invalid name_without_slash, []))
    × (create sample (unix one_segment) "/x" 0 [] ≡ (invalid size_zero, []))
refusals_agree_example =
    refusals_agree sample (unix one_segment) "seg" "/x" name_without_slash 8 none []
      sample-CountsBytes (other_start _ "eg" (omega arith)) (omega arith)

abbrev pub handle : (size : ℕ) → PlatformHandle one_segment
handle size = record { fd = tt; size = size; name = "/seg" }

abbrev pub creator : (size : ℕ) → SharedMemory sample (unix one_segment)
creator size = record { handle = handle size; is_creator = true }

abbrev pub opener : (size : ℕ) → SharedMemory sample (unix one_segment)
opener size = record { handle = handle size; is_creator = false }

pub create_run : create sample (unix one_segment) "/seg" 8 [] ≡ (ok (creator 8), replicate 8 0)
unfolding create validate_name resized shared Unix.create map_err
create_run = refl

open_segment-create_example :
    (fd : Unit {0}) × (k'' : List ℕ) × (open_segment sample
        (unix one_segment)
        "/seg"
        (some 3)
        (replicate 8 0)
      ≡ (
        ok (record { handle = record { fd = fd; size = 8; name = "/seg" }; is_creator = false }),
        k'',
      ))
open_segment-create_example =
    open_segment-create sample one_segment "/seg" 8 (some 3) [] one_segment-Reopens (omega arith)
      create_run

-- The segment's lock was held when the creator mapped it.
map_creator_example :
    (k' : List ℕ) × (map sample (unix one_segment) (creator 6) (255 ∷ 255 ∷ 255 ∷ 255 ∷ 8 ∷ 9 ∷ [])
      ≡ some (ok (tt, record { size = 6; cursor = 0 }), k'))
    × IsValid (record { size = 6; cursor = 0 }) (ViewLayout.load sample k')
    × ((ViewLayout.load sample k').word ≡ 0)
unfolding mapping Unix.map
map_creator_example =
    map_creator sample (unix one_segment) one_segment-Maps (creator 6)
      {k = 255 ∷ 255 ∷ 255 ∷ 255 ∷ 8 ∷ 9 ∷ []} refl refl (omega arith) (omega arith)

spsc_creator_example :
    (k' : List ℕ) × (spsc sample (unix one_segment) (creator 28) (replicate 28 7)
      ≡ some (ok (tt, 28), k'))
    × Holds sample (RingLayout.load sample k') []
unfolding mapping Unix.map
spsc_creator_example =
    spsc_creator sample (unix one_segment) one_segment-Maps (creator 28) {k = replicate 28 7} refl 2
      refl (omega arith) refl

map_panics_iff_example :
    ((map sample (unix one_segment) (opener 0) [] ≡ none) ↔ (◌≡◌ {A = ℕ} 0 0))
    × ((spsc sample (unix one_segment) (opener 0) [] ≡ none) ↔ (◌≡◌ {A = ℕ} 0 0))
map_panics_iff_example = map_panics_iff sample one_segment (opener 0) []
