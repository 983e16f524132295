-- ===== src/Ring/Refine.antt =====
-- A segment that holds a queue behaves as that queue under `push` and `take_frame`.
use membridge.Common.{
  ℕ, ◌+◌, ◌%◌, ◌^◌, ◌≤◌, ◌≡◌, refl, sym, ap, ap₂, subst, ◌∙◌, false, List, [], ◌∷◌, ◌++◌, arith,
  length, ltb, Bool-cases, inl, inr,
}
use native.Mathlib.Nat.{mod-eq_of_lt, mod-add-mod}
use membridge.Common.Words.{add_usize}
use membridge.Codec.Bytes.{to_ne_bytes, length-to_ne_bytes}
use membridge.Codec.Value.{Runtime}
use membridge.Fifo
use membridge.Fifo.{Message, Queue}
use membridge.Ring.{Segment, used, write_bytes, publish, push_payload}
use membridge.Ring.Window.{
  window, store, window-add, length-store, window-store_behind, window-store_self, store-append,
}
use membridge.Ring.Access.{write_bytes-store}
use membridge.Ring.Holds.{frame, frames, length-frame, frames-append, size-append, Holds, used-size}

module _ (rt : Runtime) {m : Segment} {q : Queue} (h : Holds rt m q) where
  publish-area :
      (payload : Message)
      → 4 + length payload ≤ m.capacity
      → (publish rt payload m).area
        ≡ store m.area m.capacity (m.head + Fifo.size q) (frame rt payload)
  unfolding publish
  publish-area payload fit =
      rw (mod-eq_of_lt {n = length payload} {m = 2 ^ 32} (omega (arith, h.narrow)), h.tail_at)
        (ap (λ t. write_bytes (write_bytes m.area start prefix m.capacity) t payload m.capacity)
            (mod-add-mod position (2 ^ 64) 4)
          ∙ write_bytes-store h.shape (write_bytes m.area start prefix m.capacity) (position + 4)
              payload
          ∙ ap (λ a. store a m.capacity (position + 4) payload)
              (write_bytes-store h.shape m.area position prefix)
          ∙ ap
              (λ n.
                store (store m.area m.capacity position prefix) m.capacity (position + n) payload)
              (sym (length-to_ne_bytes rt.endian 4 (length payload)))
          ∙ sym (store-append m.area m.capacity position prefix payload))
    where
      position : ℕ
      position = m.head + Fifo.size q

      start : ℕ
      start = position % 2 ^ 64

      prefix : List ℕ
      prefix = to_ne_bytes rt.endian 4 (length payload)

  -- The segment after `publish`, its area as one store.
  extended : Message → Segment
  extended payload = record m {
    area = store m.area m.capacity (m.head + Fifo.size q) (frame rt payload);
    tail = add_usize m.tail (4 + length payload);
  }

  extended-stored :
      (payload : Message)
      → Fifo.size q + (4 + length payload) ≤ m.capacity
      → window (extended payload).area m.capacity m.head (Fifo.size (q ++ (payload ∷ [])))
        ≡ frames rt (q ++ (payload ∷ []))
  unfolding extended
  extended-stored payload fit =
      rw (size-append rt q payload, frames-append rt q payload, ← length-frame rt payload)
        (window-add (extended payload).area m.capacity m.head (Fifo.size q)
            (length (frame rt payload))
          ∙ ap₂ ◌++◌ (before ∙ h.stored) behind)
    where
      fit' : Fifo.size q + length (frame rt payload) ≤ m.capacity
      fit' = omega (arith, length-frame rt payload)

      before :
          window (extended payload).area m.capacity m.head (Fifo.size q)
          ≡ window m.area m.capacity m.head (Fifo.size q)
      before =
          window-store_behind m.area m.capacity m.head (Fifo.size q) (m.head + Fifo.size q)
            (frame rt payload) (omega arith) (omega (arith, fit'))

      behind :
          window
            (extended payload).area
            m.capacity
            (m.head + Fifo.size q)
            (length (frame rt payload))
          ≡ frame rt payload
      behind =
          window-store_self m.area m.capacity (m.head + Fifo.size q) (frame rt payload) h.sized
            (omega (arith, fit'))

  extended-Holds :
      (payload : Message)
      → Fifo.size q + (4 + length payload) ≤ m.capacity
      → Holds rt (extended payload) (q ++ (payload ∷ []))
  unfolding extended
  extended-Holds payload fit = record {
    k = h.k;
    shape = h.shape;
    narrow = h.narrow;
    sized = length-store m.area m.capacity (m.head + Fifo.size q) (frame rt payload) ∙ h.sized;
    head_lt = h.head_lt;
    tail_at = omega (arith, h.tail_at, size-append rt q payload);
    fits = omega (arith, size-append rt q payload);
    stored = extended-stored payload fit;
  }

  -- A frame that fits is added to the queue.
  publish-Holds :
      (payload : Message)
      → Fifo.size q + (4 + length payload) ≤ m.capacity
      → Holds rt (publish rt payload m) (q ++ (payload ∷ []))
  publish-Holds payload fit =
      subst (λ s. Holds rt s (q ++ (payload ∷ []))) (sym same) (extended-Holds payload fit)
    where
      same : publish rt payload m ≡ extended payload
      same =
          unfold publish extended in
          ap (λ a. record m { area = a; tail = add_usize m.tail (4 + length payload) })
            (publish-area payload (omega arith))

  -- `push_payload` answers as the bounded queue does, and leaves the segment holding its queue.
  pub push_payload_refines :
      (map_size : ℕ) (payload : Message)
      → let (answer, m') = push_payload rt map_size payload m in
        let (expected, q') = Fifo.push map_size m.capacity payload q in
        (answer ≡ expected) × Holds rt m' q'
  unfolding push_payload Fifo.push
  push_payload_refines map_size payload = elim (Bool-cases (ltb m.capacity (4 + length payload))) [
    | inl large ↦ rw large (refl, h)
    | inr small ↦ elim (Bool-cases (ltb m.capacity (Fifo.size q + (4 + length payload)))) [
      | inl full ↦ rw (small, room small, full) (refl, h)
      | inr free ↦ rw (small, room small, free) (refl, publish-Holds payload (ground arith))
    ]
  ]
    where
      room :
          ltb m.capacity (4 + length payload) ≡ false
          → add_usize (used m) (4 + length payload) ≡ Fifo.size q + (4 + length payload)
      room small = rw (used-size rt q h) (
          mod-eq_of_lt (
            let le : 4 + length payload ≤ m.capacity = ground arith in
            omega (arith, h.narrow, h.fits)))
