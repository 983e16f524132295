-- ===== src/Tests/ViewRuns.antt =====
-- src/mapped_view.rs: a writer's and a reader's view of one segment of sixteen bytes of data.
use membridge.Common.{◌≡◌, refl, true, false, some, none, List, [], ◌∷◌, arith, replicate, map, inl}
use membridge.Error.{ok}
use membridge.Codec.Value.{bool, int, bytes, pos, PyObject, value, list}
use membridge.Codec.Bytes.{to_ne_bytes}
use membridge.Codec.Pack.{encode, pack_mixed}
use membridge.Codec.MixedTrip.{describe, returned}
use membridge.View.{View, Segment, position, advance, slice}
use membridge.View.Bodies.{Returns}
use membridge.View.Methods.{write, write_mixed, read, read_mixed, read_call, write_call, invoke}
use membridge.View.Valid.{IsValid, invoke-Kept, Kept}
use membridge.View.Errors.{FailsClean, invoke-FailsClean}
use membridge.View.Frame.{write_frame}
use membridge.View.RoundTrip.{read-write, read_mixed-write_mixed}
use membridge.Tests.Samples.{sample, sample-DecodesText}

abbrev segment : Segment
segment = record { word = 0; area = replicate 16 0 }

abbrev writer : View
writer = record { size = 20; cursor = 3 }

abbrev reader : View
reader = record { size = 20; cursor = 3 }

writer-IsValid : IsValid writer segment
writer-IsValid = record {
  header = omega arith;
  limit = omega arith;
  sized = refl;
  cursor_le = omega arith;
}

read-write_example :
    (v' : View) × (m' : Segment) × (write sample 2 writer segment (int (pos 77)) none
      ≡ some (ok tt, v', m'))
    × (read sample 2 reader m' "int"
        ≡ some (ok (int (pos 77)), record reader { cursor = v'.cursor }, m'))
    × (v'.cursor ≡ 11)
unfolding encode to_ne_bytes
read-write_example =
    read-write sample 2 (omega arith) segment refl writer writer-IsValid reader (int (pos 77))
      (77 ∷ 0 ∷ 0 ∷ 0 ∷ 0 ∷ 0 ∷ 0 ∷ 0 ∷ []) writer-IsValid refl sample-DecodesText refl refl
      (omega arith)

abbrev flags : List PyObject
flags = list (bool true ∷ bool false ∷ []) ∷ value (bool true) ∷ []

read_mixed-write_mixed_example :
    (m' : Segment) × (write_mixed sample 2 writer segment flags (some 5)
      ≡ some (ok tt, advance writer (some 5) 3, m'))
    × (read_mixed sample 2 reader m' (map describe flags) (some 5)
        ≡ some (ok (map returned flags), advance reader (some 5) 3, m'))
unfolding pack_mixed position
read_mixed-write_mixed_example =
    read_mixed-write_mixed sample 2 (omega arith) segment refl writer writer-IsValid reader flags
      (1 ∷ 0 ∷ 1 ∷ []) (some 5) writer-IsValid refl sample-DecodesText
      (((tt, refl), ((tt, refl), tt)), (tt, tt)) refl (omega arith) (omega arith)

-- A read that fails, since no tag has this name.
invoke-Kept_example :
    Returns
      (λ _. Kept sample 2 writer segment (omega arith) writer-IsValid)
      (invoke sample 2 (read_call "str16") writer segment)
invoke-Kept_example =
    invoke-Kept sample 2 writer segment (omega arith) writer-IsValid (read_call "str16") refl

-- The write does not fit behind the cursor.
invoke-FailsClean_example :
    Returns
      (FailsClean sample 2 writer segment (omega arith))
      (invoke sample 2 (write_call (int (pos 1)) (some 12)) writer segment)
invoke-FailsClean_example =
    invoke-FailsClean sample 2 writer segment (omega arith) (write_call (int (pos 1)) (some 12))
      refl

-- Three bytes at 5 leave the five before them alone.
write_frame_example :
    (m' : Segment) × (write sample 2 writer segment (bytes (1 ∷ 2 ∷ 3 ∷ [])) (some 5)
      ≡ some (ok tt, advance writer (some 5) 3, m'))
    × (m'.word ≡ 0)
    × (slice m'.area 5 3 ≡ 1 ∷ 2 ∷ 3 ∷ [])
    × (slice m'.area 0 5 ≡ slice segment.area 0 5)
unfolding encode position
write_frame_example =
    write_frame sample 2 writer segment (bytes (1 ∷ 2 ∷ 3 ∷ [])) (1 ∷ 2 ∷ 3 ∷ []) (some 5) 0 5
      (omega arith) refl writer-IsValid refl (omega arith) (omega arith) (inl (omega arith))
