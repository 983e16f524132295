-- ===== src/Ring/Duplex/Produced.antt =====
-- Every access of `push` keeps the invariant.
use membridge.Common.{
  ℕ, ◌+◌, ◌^◌, ◌≤◌, ◌<◌, ◌≡◌, refl, sym, ap, ap₂, ◌∙◌, [], ◌∷◌, ◌++◌, arith, length, take, get_or,
  Bool-cases, inl, inr, ltb, ◌==◌, append_assoc, append-nil, lt→ltb, false,
}
use native.Mathlib.Nat.{mod-eq_of_lt}
use membridge.Common.Words.{add_usize, sub_usize}
use membridge.Codec.Bytes.{length-to_ne_bytes}
use membridge.Codec.Value.{Runtime}
use membridge.Fifo
use membridge.Fifo.{Message, Queue}
use membridge.Ring.{Segment}
use membridge.Ring.Access.{window-wrap}
use membridge.Ring.Holds.{Holds, frame, frames-append, size-append}
use membridge.Ring.Window.{window, window-add}
use membridge.Ring.Duplex.{Producer, Consumer, System, begin_push, produce, call_push}
use membridge.Common.Slices.{take-snoc, take_all}
use membridge.Ring.Duplex.Invariant.{
  Inv, Produces, Consumes, prefix, stored_at, stored_at-Holds, index-tail, index-behind_prefix,
  stored_at-window,
}

module _ (rt : Runtime) where
  begin_push-Produces :
      (payload : Message) {m : Segment} {q : Queue}
      → Holds rt m q
      → Produces rt (begin_push rt payload m) m q
  unfolding begin_push
  begin_push-Produces payload {m} {q} h = elim (Bool-cases (ltb m.capacity (4 + length payload))) [
    | inl large ↦ rw large tt
    | inr small ↦
        rw small ((ground arith), h.head_lt, (0, omega (arith, h.head_lt), omega (arith, h.fits)))
  ]

  -- A consumer does not look behind the oldest message.
  Consumes-append :
      (c : Consumer) (at : ℕ) (q : Queue) (payload : Message)
      → Consumes rt c at q
      → Consumes rt c at (q ++ (payload ∷ []))
  Consumes-append Consumer.idle at q payload h = tt
  Consumes-append (Consumer.measuring head got) at q payload (p, rest, e, same, few, read) =
      (p, rest ++ (payload ∷ []), ap (λ l. l ++ (payload ∷ [])) e, same, few, read)
  Consumes-append (Consumer.copying head n got) at q payload (p, rest, e, same, len, few, read) =
      (p, rest ++ (payload ∷ []), ap (λ l. l ++ (payload ∷ [])) e, same, len, few, read)

  module _ (s : System) (inv : Inv rt s) where
    begun : (payload : Message) → Inv rt (record s { producer = begin_push rt payload s.mem })
    begun payload = record {
      queue = inv.queue;
      holds = inv.holds;
      conserved = inv.conserved;
      produces = begin_push-Produces payload inv.holds;
      consumes = inv.consumes;
    }

    -- The test against the `head` that was loaded leaves room, now that `head` may have moved on.
    checked :
        (payload : Message) (head : ℕ)
        → Produces rt (Producer.loaded payload head) s.mem inv.queue
        → Inv rt (produce rt (Producer.loaded payload head) s)
    unfolding produce
    checked payload head (fits, below, (ahead, moved, room)) = record {
      queue = inv.queue;
      holds = inv.holds;
      conserved = inv.conserved;
      produces = elim (Bool-cases (ltb s.mem.capacity taken)) [
        | inl full ↦ rw full tt
        | inr free ↦ rw free (refl, omega (arith, enough free), omega arith, unfold window in refl)
      ];
      consumes = inv.consumes;
    }
      where
        taken : ℕ
        taken = add_usize (sub_usize s.mem.tail head) (4 + length payload)

        used_then : sub_usize s.mem.tail head ≡ ahead + Fifo.size inv.queue
        used_then = omega (arith, below, moved, room, inv.holds.tail_at, inv.holds.narrow)

        enough :
            ltb s.mem.capacity taken ≡ false
            → ahead + Fifo.size inv.queue + (4 + length payload) ≤ s.mem.capacity
        enough free =
            let le : taken ≤ s.mem.capacity = ground arith in
            omega (arith, le, used_then, room, fits, inv.holds.narrow)

    -- A byte of the prefix.
    prefixed :
        (payload : Message) (tail i : ℕ)
        → Produces rt (Producer.prefixing payload tail i) s.mem inv.queue
        → Inv rt (produce rt (Producer.prefixing payload tail i) s)
    unfolding produce
    prefixed payload tail i (same, room, few, written) =
        rw (same, mod-eq_of_lt short, index-tail rt inv.holds i)
          (record {
            queue = inv.queue;
            holds = stored_at-Holds rt inv.holds i byte (omega arith);
            conserved = inv.conserved;
            produces = elim (Bool-cases (i == 3)) [
              | inl last ↦ rw last (refl, room, omega arith, whole (ground arith))
              | inr more ↦ rw more (refl, room, ground arith, longer)
            ];
            consumes = inv.consumes;
          })
      where
        short : length payload < 2 ^ 32
        short = omega (arith, room, inv.holds.narrow)

        byte : ℕ
        byte = get_or (prefix rt payload) i 0

        longer :
            window (stored_at rt inv.holds i byte).area s.mem.capacity s.mem.tail (i + 1)
            ≡ take (i + 1) (prefix rt payload)
        longer =
            stored_at-window rt inv.holds i byte (take i (prefix rt payload)) (omega arith) written
            ∙ sym (
                take-snoc i (prefix rt payload) 0
                  (omega (arith, few, length-to_ne_bytes rt.endian 4 (length payload))))

        whole :
            i ≡ 3
            → window (stored_at rt inv.holds i byte).area s.mem.capacity s.mem.tail 4
              ≡ prefix rt payload ++ []
        whole last =
            ap (window (stored_at rt inv.holds i byte).area s.mem.capacity s.mem.tail) four
            ∙ longer
            ∙ ap (λ n. take n (prefix rt payload)) all
            ∙ take_all (prefix rt payload)
            ∙ sym (append-nil (prefix rt payload))
          where
            four : 4 ≡ i + 1
            four = omega arith

            all : i + 1 ≡ length (prefix rt payload)
            all = omega (arith, length-to_ne_bytes rt.endian 4 (length payload))

    -- A byte of the payload.
    filled :
        (payload : Message) (tail i : ℕ)
        → i < length payload
        → Produces rt (Producer.filling payload tail i) s.mem inv.queue
        → Inv rt (produce rt (Producer.filling payload tail i) s)
    unfolding produce
    filled payload tail i more (same, room, few, written) =
        rw (lt→ltb i (length payload) more, same, index-behind_prefix rt inv.holds i)
          (record {
            queue = inv.queue;
            holds = stored_at-Holds rt inv.holds (4 + i) byte (omega arith);
            conserved = inv.conserved;
            produces = (
              refl,
              room,
              omega arith,
              ap (window (stored_at rt inv.holds (4 + i) byte).area s.mem.capacity s.mem.tail)
                    one_more
                  ∙ stored_at-window rt inv.holds (4 + i) byte (prefix rt payload ++ take i payload)
                      (omega arith) written
                  ∙ append_assoc (prefix rt payload) (take i payload) (byte ∷ [])
                  ∙ ap (λ l. prefix rt payload ++ l) (sym (take-snoc i payload 0 more)),
            );
            consumes = inv.consumes;
          })
      where
        byte : ℕ
        byte = get_or payload i 0

        one_more : 4 + (i + 1) ≡ 4 + i + 1
        one_more = omega arith

    -- The store of `tail`.
    published :
        (payload : Message) (tail i : ℕ)
        → ltb i (length payload) ≡ false
        → Produces rt (Producer.filling payload tail i) s.mem inv.queue
        → Inv rt (produce rt (Producer.filling payload tail i) s)
    unfolding produce
    published payload tail i done (same, room, few, written) =
        rw (done, same)
          (record {
            queue = inv.queue ++ (payload ∷ []);
            holds = record {
              k = inv.holds.k;
              shape = inv.holds.shape;
              narrow = inv.holds.narrow;
              sized = inv.holds.sized;
              head_lt = inv.holds.head_lt;
              tail_at = omega (arith, inv.holds.tail_at, size-append rt inv.queue payload);
              fits = omega (arith, size-append rt inv.queue payload);
              stored =
                  rw (size-append rt inv.queue payload, frames-append rt inv.queue payload)
                    (window-add s.mem.area s.mem.capacity s.mem.head (Fifo.size inv.queue)
                        (4 + length payload)
                      ∙ ap₂ ◌++◌ inv.holds.stored behind);
            };
            conserved =
                ap (λ l. l ++ (payload ∷ [])) inv.conserved
                ∙ append_assoc s.received inv.queue (payload ∷ []);
            produces = tt;
            consumes = Consumes-append s.consumer s.mem.head inv.queue payload inv.consumes;
          })
      where
        all : i ≡ length payload
        all = ground arith

        behind :
            window s.mem.area s.mem.capacity (s.mem.head + Fifo.size inv.queue) (4 + length payload)
            ≡ frame rt payload
        behind =
            sym (
              window-wrap inv.holds.shape s.mem.area (s.mem.head + Fifo.size inv.queue)
                (4 + length payload))
            ∙ ap (λ x. window s.mem.area s.mem.capacity x (4 + length payload))
                (sym inv.holds.tail_at)
            ∙ ap (λ n. window s.mem.area s.mem.capacity s.mem.tail (4 + n)) (sym all)
            ∙ written
            ∙ ap (λ n. prefix rt payload ++ take n payload) all
            ∙ ap (λ l. prefix rt payload ++ l) (take_all payload)

    -- `push` at any point.
    pub produce-Inv : (p : Producer) → Produces rt p s.mem inv.queue → Inv rt (produce rt p s)
    unfolding produce
    produce-Inv Producer.idle know = inv
    produce-Inv (Producer.loaded payload head) know = checked payload head know
    produce-Inv (Producer.prefixing payload tail i) know = prefixed payload tail i know
    produce-Inv (Producer.filling payload tail i) know =
        elim (Bool-cases (ltb i (length payload))) [
          | inl more ↦ filled payload tail i (ground arith) know
          | inr done ↦ published payload tail i done know
        ]

    pub call_push-Inv : (p : Producer) (payload : Message) → Inv rt (call_push rt p payload s)
    unfolding call_push
    call_push-Inv Producer.idle payload = begun payload
    call_push-Inv (Producer.loaded _ _) payload = inv
    call_push-Inv (Producer.prefixing _ _ _) payload = inv
    call_push-Inv (Producer.filling _ _ _) payload = inv
