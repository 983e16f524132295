-- ===== src/Codec/Truncation.antt =====
-- What is read back of a text of any length: mixed.rs keeps 32 bits of the length.
use native.Mathlib.Nat.{mod-lt}
use membridge.Common.{
  ℕ, ◌+◌, ◌%◌, ◌^◌, ◌≤◌, ◌<◌, ◌≡◌, sym, ap, ◌∙◌, String, List, ◌++◌, arith, length, take,
  length-append, drop-append, append_assoc, le→ltb,
}
use membridge.Common.Slices.{take-append_le}
use membridge.Error.{ok}
use membridge.Codec.Bytes.{to_ne_bytes, length-to_ne_bytes}
use membridge.Codec.Value.{Runtime, str}
use membridge.Codec.Pack.{encode}
use membridge.Codec.Unpack.{unpack_one, read_str, decode}
use membridge.Codec.RoundTrip.{from_ne_bytes-field}

module _ (rt : Runtime) (s : String) where
  -- The length that the prefix of a text holds.
  abbrev pub kept : ℕ
  kept = length (rt.as_bytes s) % 2 ^ 32

  kept-le : kept ≤ length (rt.as_bytes s)
  kept-le = omega arith

  kept-lt : kept < 2 ^ 32
  kept-lt = mod-lt (length (rt.as_bytes s)) {m = 2 ^ 32} (omega arith)

  read_str-kept :
      (rest : List ℕ)
      → read_str rt ((to_ne_bytes rt.endian 4 kept ++ rt.as_bytes s) ++ rest)
        ≡ ok (str (rt.from_utf8_lossy (take kept (rt.as_bytes s))), 4 + kept)
  unfolding read_str decode
  read_str-kept rest = rw (append_assoc (to_ne_bytes rt.endian 4 kept) (rt.as_bytes s) rest) (
      rw
        (
          from_ne_bytes-field rt 4 kept (rt.as_bytes s ++ rest) kept-lt,
          le→ltb (length whole) 4 (omega (arith, sized)),
          le→ltb (length whole) (4 + kept) (omega (arith, sized, kept-le)),
        )
        (ap (λ l. ok (str (rt.from_utf8_lossy l), 4 + kept))
          (ap (take kept) (
              drop-append 4 (to_ne_bytes rt.endian 4 kept) (rt.as_bytes s ++ rest)
                (sym (length-to_ne_bytes rt.endian 4 kept)))
            ∙ take-append_le kept (rt.as_bytes s) rest kept-le)))
    where
      whole : List ℕ
      whole = to_ne_bytes rt.endian 4 kept ++ (rt.as_bytes s ++ rest)

      sized : length whole ≡ 4 + length (rt.as_bytes s) + length rest
      sized = omega (
        arith,
        length-append (to_ne_bytes rt.endian 4 kept) (rt.as_bytes s ++ rest),
        length-append (rt.as_bytes s) rest,
        length-to_ne_bytes rt.endian 4 kept,
      )

  -- A text of any length that `pack_value` wrote is read back by `unpack_one`, whatever follows, as its
  -- first bytes, as many as its length in bytes modulo 2 ^ 32, and the others are not consumed.
  pub unpack_one-encode_str :
      (packed rest : List ℕ)
      → encode rt (str s) ≡ ok packed
      → unpack_one rt (packed ++ rest) "str"
        ≡ ok (str (rt.from_utf8_lossy (take kept (rt.as_bytes s))), 4 + kept)
  unfolding unpack_one encode
  unpack_one-encode_str packed rest e =
      let same : to_ne_bytes rt.endian 4 kept ++ rt.as_bytes s ≡ packed = cc in
      rw (← same) (read_str-kept rest)
