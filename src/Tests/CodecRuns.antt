-- ===== src/Tests/CodecRuns.antt =====
-- src/mixed.rs at concrete values.
use membridge.Common.{ℕ, ◌≤◌, ◌≡◌, ◌⊎◌, refl, true, List, [], ◌∷◌, ◌++◌, arith, length, map}
use membridge.Error.{ok, invalid, unknown_tag}
use membridge.Codec.Value.{bool, int, str, pos, negsuc, PyObject, value, list}
use membridge.Codec.Pack.{encode, pack_mixed}
use membridge.Codec.Unpack.{Tag, unpack_one}
use membridge.Codec.Mixed.{tuple, unpack_mixed_counted}
use membridge.Codec.Bytes.{to_ne_bytes, from_ne_bytes}
use membridge.Codec.Truncation.{unpack_one-encode_str}
use membridge.Codec.RoundTrip.{unpack_one-encode}
use membridge.Codec.MixedTrip.{describe, unpack_mixed_counted-pack_mixed}
use membridge.Codec.Bounds.{Takes, need, unpack_one_cases, unpack_mixed_counted_bounds}
use membridge.Codec.Tags.{Names}
use membridge.Codec.Types.{IsOf, unpack_one-IsOf}
use membridge.Tests.Samples.{text_of, sample, sample-DecodesText}

-- `[["Hi", ""], [True], -2]`
abbrev items : List PyObject
items = list (str "Hi" ∷ str "" ∷ []) ∷ list (bool true ∷ []) ∷ value (int (negsuc 1)) ∷ []

abbrev items_packed : List ℕ
items_packed =
    2 ∷ 0 ∷ 0 ∷ 0 ∷ 72 ∷ 105 ∷ 0 ∷ 0 ∷ 0 ∷ 0 ∷ 1 ∷ 254 ∷ 255 ∷ 255 ∷ 255 ∷ 255 ∷ 255 ∷ 255 ∷ 255
    ∷ []

items_run : pack_mixed sample items ≡ ok items_packed
unfolding pack_mixed to_ne_bytes
items_run = refl

unpack_one-encode_example :
    unpack_one sample ((2 ∷ 0 ∷ 0 ∷ 0 ∷ 72 ∷ 105 ∷ []) ++ (7 ∷ [])) "str" ≡ ok (str "Hi", 6)
unfolding encode to_ne_bytes
unpack_one-encode_example =
    unpack_one-encode sample (str "Hi") (2 ∷ 0 ∷ 0 ∷ 0 ∷ 72 ∷ 105 ∷ []) (7 ∷ []) sample-DecodesText
      (omega arith) refl

unpack_one-encode_str_example :
    unpack_one sample ((2 ∷ 0 ∷ 0 ∷ 0 ∷ 72 ∷ 105 ∷ []) ++ (7 ∷ [])) "str" ≡ ok (str "Hi", 6)
unfolding encode to_ne_bytes text_of
unpack_one-encode_str_example =
    unpack_one-encode_str sample "Hi" (2 ∷ 0 ∷ 0 ∷ 0 ∷ 72 ∷ 105 ∷ []) (7 ∷ []) refl

unpack_mixed_counted-pack_mixed_example :
    unpack_mixed_counted sample (items_packed ++ (9 ∷ [])) (map describe items)
    ≡ ok (list (str "Hi" ∷ str "" ∷ []) ∷ value (bool true) ∷ value (int (negsuc 1)) ∷ [], 19)
unpack_mixed_counted-pack_mixed_example =
    unpack_mixed_counted-pack_mixed sample items items_packed (9 ∷ []) sample-DecodesText
      (((omega arith, refl), ((omega arith, refl), tt)), (((tt, refl), tt), (refl, tt)))
      (omega arith) items_run

-- Three bytes do not hold an `int`.
unpack_one_cases_example :
    ((t : Tag) → ¬ Names t "int")
      × (unpack_one sample (1 ∷ 2 ∷ 3 ∷ []) "int" ≡ invalid (unknown_tag "int"))
    ⊎ ((t : Tag) × Names t "int"
        × Takes sample
            (1 ∷ 2 ∷ 3 ∷ [])
            (need sample (1 ∷ 2 ∷ 3 ∷ []) t)
            (unpack_one sample (1 ∷ 2 ∷ 3 ∷ []) "int"))
unpack_one_cases_example = unpack_one_cases sample (1 ∷ 2 ∷ 3 ∷ []) "int"

abbrev two_bytes : List PyObject
two_bytes = list (int (pos 5) ∷ int (pos 0) ∷ []) ∷ []

unpack_mixed_counted_bounds_example : (2 ≤ 3) × (length two_bytes ≡ 1)
unfolding unpack_mixed_counted from_ne_bytes
unpack_mixed_counted_bounds_example =
    unpack_mixed_counted_bounds sample (5 ∷ 0 ∷ 9 ∷ []) (tuple (str "u8" ∷ int (pos 2) ∷ []) ∷ [])
      two_bytes 2 (omega arith) refl

-- Four bytes with the sign bit, under "i32".
unpack_one-IsOf_example : (t : Tag) × Names t "i32" × IsOf sample t (int (negsuc 1))
unfolding unpack_one from_ne_bytes
unpack_one-IsOf_example =
    unpack_one-IsOf sample (254 ∷ 255 ∷ 255 ∷ 255 ∷ 7 ∷ []) "i32" (int (negsuc 1)) 4 refl
