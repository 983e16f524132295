-- ===== src/Ring/Layout.antt =====
-- How the bytes of a mapping are a ring's segment: head, tail and capacity, then the data.
use membridge.Common.{
  ℕ, ◌+◌, ◌^◌, ◌<◌, ◌≡◌, refl, ap, sym, ◌∙◌, List, ◌++◌, take, drop, drop-append, arith, length,
  length-append,
}
use membridge.Common.Slices.{drop-drop}
use membridge.Codec.Bytes.{to_ne_bytes, from_ne_bytes, length-to_ne_bytes}
use membridge.Codec.Value.{Runtime}
use membridge.Codec.RoundTrip.{from_ne_bytes-field}
use membridge.Ring.{Segment, header_size}

module _ (rt : Runtime) where
  -- The field of eight bytes at `at`.
  unfoldable pub field : ℕ → List ℕ → ℕ
  field at bs = from_ne_bytes rt.endian (take 8 (drop at bs))

  unfoldable pub load : List ℕ → Segment
  unfolding field
  load bs = record {
    head = field 0 bs;
    tail = field 8 bs;
    capacity = field 16 bs;
    area = drop header_size bs;
  }

  unfoldable pub flush : Segment → List ℕ
  flush m =
      to_ne_bytes rt.endian 8 m.head
      ++ (to_ne_bytes rt.endian 8 m.tail ++ (to_ne_bytes rt.endian 8 m.capacity ++ m.area))

  -- Behind a field of eight bytes.
  drop-word : (n w : ℕ) (bs : List ℕ) → drop (8 + n) (to_ne_bytes rt.endian 8 w ++ bs) ≡ drop n bs
  drop-word n w bs =
      sym (drop-drop n 8 (to_ne_bytes rt.endian 8 w ++ bs))
      ∙ ap (drop n)
          (drop-append 8 (to_ne_bytes rt.endian 8 w) bs (sym (length-to_ne_bytes rt.endian 8 w)))

  pub load-flush :
      (m : Segment) → m.head < 2 ^ 64 → m.tail < 2 ^ 64 → m.capacity < 2 ^ 64 → load (flush m) ≡ m
  unfolding load flush
  load-flush m hh ht hc =
      rw
        (
          drop-word 0 m.head,
          drop-word 8 m.head,
          drop-word 16 m.head,
          drop-word 0 m.tail,
          drop-word 8 m.tail,
          drop-word 0 m.capacity,
          from_ne_bytes-field rt 8 m.head
              (to_ne_bytes rt.endian 8 m.tail ++ (to_ne_bytes rt.endian 8 m.capacity ++ m.area)) hh,
          from_ne_bytes-field rt 8 m.tail (to_ne_bytes rt.endian 8 m.capacity ++ m.area) ht,
          from_ne_bytes-field rt 8 m.capacity m.area hc,
        )
        refl

  pub length-flush : (m : Segment) → length (flush m) ≡ header_size + length m.area
  unfolding flush
  length-flush m = omega (
    arith,
    length-append (to_ne_bytes rt.endian 8 m.head)
        (to_ne_bytes rt.endian 8 m.tail ++ (to_ne_bytes rt.endian 8 m.capacity ++ m.area)),
    length-append (to_ne_bytes rt.endian 8 m.tail) (to_ne_bytes rt.endian 8 m.capacity ++ m.area),
    length-append (to_ne_bytes rt.endian 8 m.capacity) m.area,
    length-to_ne_bytes rt.endian 8 m.head,
    length-to_ne_bytes rt.endian 8 m.tail,
    length-to_ne_bytes rt.endian 8 m.capacity,
  )
