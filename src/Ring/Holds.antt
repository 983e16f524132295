-- ===== src/Ring/Holds.antt =====
-- When a segment holds a queue of messages, and what that says of its header.
use membridge.Common.{
  ℕ, ◌+◌, ◌%◌, ◌^◌, ◌≤◌, ◌<◌, ◌≡◌, refl, sym, ap, ◌∙◌, List, [], ◌∷◌, ◌++◌, arith, length,
  length-append, append_assoc, append-nil,
}
use membridge.Codec.Bytes.{to_ne_bytes, length-to_ne_bytes}
use membridge.Codec.Value.{Runtime}
use membridge.Fifo
use membridge.Fifo.{Message, Queue}
use membridge.Ring.{Segment, used}
use membridge.Ring.Window.{window}
use membridge.Ring.Access.{IsPowerBelow}

module _ (rt : Runtime) where
  -- A message as it lies in the ring.
  abbrev pub frame : Message → List ℕ
  frame m = to_ne_bytes rt.endian 4 (length m) ++ m

  abbrev pub frames : Queue → List ℕ
  frames [] = []
  frames (m ∷ q) = frame m ++ frames q

  pub length-frame : (m : Message) → length (frame m) ≡ 4 + length m
  length-frame m = omega (
    arith,
    length-append (to_ne_bytes rt.endian 4 (length m)) m,
    length-to_ne_bytes rt.endian 4 (length m),
  )

  pub length-frames : (q : Queue) → length (frames q) ≡ Fifo.size q
  length-frames [] = refl
  length-frames (m ∷ q) =
      omega (arith, length-append (frame m) (frames q), length-frame m, length-frames q)

  pub frames-append : (q : Queue) (m : Message) → frames (q ++ (m ∷ [])) ≡ frames q ++ frame m
  frames-append [] m = append-nil (frame m)
  frames-append (x ∷ q) m =
      ap (λ t. frame x ++ t) (frames-append q m) ∙ sym (append_assoc (frame x) (frames q) (frame m))

  pub size-append :
      (q : Queue) (m : Message) → Fifo.size (q ++ (m ∷ [])) ≡ Fifo.size q + (4 + length m)
  size-append [] m = omega arith
  size-append (x ∷ q) m = omega (arith, size-append q m)

  -- The used bytes of the area, from `head` on, are the frames of the queue. The capacity is a power
  -- of two, and small enough for every length to fit the prefix of 32 bits.
  pub record Holds (m : Segment) (q : Queue) : Type 0 where
    pub k : ℕ
    pub shape : IsPowerBelow m.capacity k
    pub narrow : m.capacity ≤ 2 ^ 32
    pub sized : length m.area ≡ m.capacity
    pub head_lt : m.head < 2 ^ 64
    pub tail_at : m.tail ≡ (m.head + Fifo.size q) % 2 ^ 64
    pub fits : Fifo.size q ≤ m.capacity
    pub stored : window m.area m.capacity m.head (Fifo.size q) ≡ frames q

  -- `used` counts the bytes of the queue, also where `tail` has wrapped and `head` has not.
  pub used-size : {m : Segment} (q : Queue) → Holds m q → used m ≡ Fifo.size q
  unfolding used
  used-size {m} q h = omega (arith, h.narrow, h.head_lt, h.tail_at, h.fits)
