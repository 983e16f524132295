-- ===== src/Ring/Take.antt =====
-- Taking a frame from a segment that holds a queue.
use membridge.Common.{
  ◌+◌, ◌%◌, ◌^◌, ◌≡◌, refl, ap, ◌∙◌, some, none, [], ◌∷◌, ◌++◌, arith, length, ne→==, eq→==,
  append_assoc,
}
use native.Mathlib.Nat.{mod-eq_of_lt}
use membridge.Common.Words.{add_usize}
use membridge.Codec.Bytes.{
  to_ne_bytes, from_ne_bytes, length-to_ne_bytes, from_ne_bytes-to_ne_bytes,
}
use membridge.Codec.Value.{Runtime}
use membridge.Fifo
use membridge.Fifo.{Message, Queue}
use membridge.Ring.{Segment, read_bytes, take_frame}
use membridge.Ring.Window.{window, window-split}
use membridge.Ring.Access.{read_bytes-window, window-wrap}
use membridge.Ring.Holds.{frames, Holds}

module _ (rt : Runtime) {m : Segment} where
  take_frame-nil : Holds rt m [] → take_frame rt m ≡ (none, m)
  unfolding take_frame
  take_frame-nil h = rw (eq→== m.head m.tail (omega (arith, h.tail_at, h.head_lt)))

  module _ (p : Message) (q : Queue) (h : Holds rt m (p ∷ q)) where
    unwrapped : m.head ≡ m.head % 2 ^ 64
    unwrapped = omega (arith, h.head_lt)

    pub parts :
        (window m.area m.capacity m.head 4 ≡ to_ne_bytes rt.endian 4 (length p))
        × (window m.area m.capacity (m.head + 4) (length p) ≡ p)
        × (window m.area m.capacity (m.head + (4 + length p)) (Fifo.size q) ≡ frames rt q)
    parts =
        let (prefix, rest) =
          window-split m.area m.capacity m.head 4 (length p + Fifo.size q)
            (to_ne_bytes rt.endian 4 (length p)) (p ++ frames rt q)
            (length-to_ne_bytes rt.endian 4 (length p)) whole in
        let (body, tail) =
          window-split m.area m.capacity (m.head + 4) (length p) (Fifo.size q) p (frames rt q) refl
            rest in
        (prefix, body, ap (λ x. window m.area m.capacity x (Fifo.size q)) regroup ∙ tail)
      where
        whole :
            window m.area m.capacity m.head (4 + (length p + Fifo.size q))
            ≡ to_ne_bytes rt.endian 4 (length p) ++ (p ++ frames rt q)
        whole =
            ap (window m.area m.capacity m.head) size_regroup
            ∙ h.stored
            ∙ append_assoc (to_ne_bytes rt.endian 4 (length p)) p (frames rt q)
          where
            size_regroup : 4 + (length p + Fifo.size q) ≡ 4 + length p + Fifo.size q
            size_regroup = omega arith

        regroup : m.head + (4 + length p) ≡ m.head + 4 + length p
        regroup = omega arith

    payload_len : from_ne_bytes rt.endian (read_bytes m.area m.head 4 m.capacity) ≡ length p
    payload_len =
        ap (λ y. from_ne_bytes rt.endian (read_bytes m.area y 4 m.capacity)) unwrapped
        ∙ ap (from_ne_bytes rt.endian) (read_bytes-window h.shape m.area m.head 4 ∙ parts.0)
        ∙ from_ne_bytes-to_ne_bytes rt.endian 4 (length p)
        ∙ mod-eq_of_lt (omega (arith, h.fits, h.narrow))

    payload : read_bytes m.area (add_usize m.head 4) (length p) m.capacity ≡ p
    payload = read_bytes-window h.shape m.area (m.head + 4) (length p) ∙ parts.1

    abbrev pub advanced : Segment
    advanced = record m { head = add_usize m.head (4 + length p) }

    take_frame-cons : take_frame rt m ≡ (some p, advanced)
    unfolding take_frame
    take_frame-cons = rw (
      ne→== m.head m.tail (omega (arith, h.tail_at, h.head_lt, h.fits, h.narrow)),
      payload_len,
      payload,
    )

    pub advanced-Holds : Holds rt advanced q
    advanced-Holds = record {
      k = h.k;
      shape = h.shape;
      narrow = h.narrow;
      sized = h.sized;
      head_lt = omega arith;
      tail_at = omega (arith, h.tail_at);
      fits = omega (arith, h.fits);
      stored = window-wrap h.shape m.area (m.head + (4 + length p)) (Fifo.size q) ∙ parts.2;
    }

-- `take_frame` answers as the queue does, and leaves the segment holding the rest.
pub take_frame_refines :
    (rt : Runtime) {m : Segment} (q : Queue)
    → Holds rt m q
    → let (answer, m') = take_frame rt m in
      let (expected, q') = Fifo.pop q in (answer ≡ expected) × Holds rt m' q'
unfolding Fifo.pop
take_frame_refines rt [] h = rw (take_frame-nil rt h) (refl, h)
take_frame_refines rt (p ∷ q) h = rw (take_frame-cons rt p q h) (refl, advanced-Holds rt p q h)
