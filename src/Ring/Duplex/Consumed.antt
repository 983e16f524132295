-- ===== src/Ring/Duplex/Consumed.antt =====
-- Every access of `pop` keeps the invariant.
use membridge.Common.{
  ℕ, ◌+◌, ◌%◌, ◌^◌, ◌≤◌, ◌<◌, ◌≡◌, refl, sym, ap, subst, ◌∙◌, List, [], ◌∷◌, ◌++◌, arith, length,
  take, get_or, Bool-cases, inl, inr, ltb, eq→==, lt→ltb, ◌==◌, append_assoc, false,
}
use native.Mathlib.Nat.{mod-eq_of_lt}
use membridge.Common.Words.{add_usize}
use membridge.Codec.Bytes.{from_ne_bytes, length-to_ne_bytes, from_ne_bytes-to_ne_bytes}
use membridge.Codec.Value.{Runtime}
use membridge.Fifo
use membridge.Fifo.{Message, Queue}
use membridge.Ring.{Segment, index}
use membridge.Ring.Access.{index-mod}
use membridge.Ring.Holds.{Holds}
use membridge.Ring.Take.{parts, advanced, advanced-Holds}
use membridge.Ring.Duplex.{Producer, Consumer, System, begin_pop, consume, call_pop}
use membridge.Common.Slices.{read_on, take_all}
use membridge.Ring.Duplex.Bytes.{get_or-window}
use membridge.Ring.Duplex.Invariant.{Inv, Produces, Consumes, prefix}

module _ (rt : Runtime) where
  -- The producer's knowledge when the oldest message leaves.
  Produces-advanced :
      (c : Producer) {m : Segment} (p : Message) (rest : Queue) (h : Holds rt m (p ∷ rest))
      → Produces rt c m (p ∷ rest)
      → Produces rt c (advanced rt p rest h) rest
  Produces-advanced Producer.idle p rest h know = tt
  Produces-advanced (Producer.loaded payload head) p rest h (fits, below, (ahead, moved, room)) =
      (fits, below, (ahead + (4 + length p), omega (arith, moved), omega (arith, room)))
  Produces-advanced (Producer.prefixing payload tail i) p rest h (same, room, few, written) =
      (same, omega (arith, room), few, written)
  Produces-advanced (Producer.filling payload tail i) p rest h (same, room, few, written) =
      (same, omega (arith, room), few, written)

  module _ (s : System) (inv : Inv rt s) where
    begin_pop-Consumes :
        (q : Queue) → inv.queue ≡ q → Consumes rt (begin_pop rt s.mem) s.mem.head inv.queue
    unfolding begin_pop
    begin_pop-Consumes [] e =
        rw
          (eq→== s.mem.head s.mem.tail
            (omega (arith, ap Fifo.size e, inv.holds.tail_at, inv.holds.head_lt)))
          tt
    begin_pop-Consumes (p ∷ rest) e = elim (Bool-cases (s.mem.head == s.mem.tail)) [
      | inl empty ↦ rw empty tt
      | inr some ↦ rw some (p, rest, e, refl, omega arith, refl)
    ]

    pub call_pop-Inv : (c : Consumer) → Inv rt (call_pop rt c s)
    unfolding call_pop
    call_pop-Inv Consumer.idle = record {
      queue = inv.queue;
      holds = inv.holds;
      conserved = inv.conserved;
      produces = inv.produces;
      consumes = begin_pop-Consumes inv.queue refl;
    }
    call_pop-Inv (Consumer.measuring _ _) = inv
    call_pop-Inv (Consumer.copying _ _ _) = inv

    module _ (p : Message) (rest : Queue) (e : inv.queue ≡ p ∷ rest) where
      front : Holds rt s.mem (p ∷ rest)
      front = subst (λ q. Holds rt s.mem q) e inv.holds

      index-head : (n : ℕ) → index s.mem.head n s.mem.capacity ≡ (s.mem.head + n) % s.mem.capacity
      index-head n =
          ap (λ x. index x n s.mem.capacity) same ∙ index-mod inv.holds.shape s.mem.head n
        where
          same : s.mem.head ≡ s.mem.head % 2 ^ 64
          same = omega (arith, inv.holds.head_lt)

      -- The byte that is read is the frame's.
      prefix_byte :
          (n : ℕ)
          → n < 4
          → get_or s.mem.area (index s.mem.head n s.mem.capacity) 0 ≡ get_or (prefix rt p) n 0
      prefix_byte n few =
          ap (λ i. get_or s.mem.area i 0) (index-head n)
          ∙ sym (get_or-window s.mem.area s.mem.capacity s.mem.head 4 n few)
          ∙ ap (λ l. get_or l n 0) (parts rt p rest front).0

      payload_byte :
          (n : ℕ)
          → n < length p
          → get_or s.mem.area (index (add_usize s.mem.head 4) n s.mem.capacity) 0 ≡ get_or p n 0
      payload_byte n more =
          ap (λ i. get_or s.mem.area i 0) (index-mod inv.holds.shape (s.mem.head + 4) n)
          ∙ sym (get_or-window s.mem.area s.mem.capacity (s.mem.head + 4) (length p) n more)
          ∙ ap (λ l. get_or l n 0) (parts rt p rest front).1

      measured :
          (got : List ℕ)
          → length got < 4
          → got ≡ take (length got) (prefix rt p)
          → Inv rt (consume rt (Consumer.measuring s.mem.head got) s)
      unfolding consume
      measured got few read = rw (prefix_byte (length got) few) (record {
        queue = inv.queue;
        holds = inv.holds;
        conserved = inv.conserved;
        produces = inv.produces;
        consumes = elim (Bool-cases (length got == 3)) [
          | inl last ↦ rw last (p, rest, e, refl, len (ground arith), omega arith, refl)
          | inr more ↦ rw more (p, rest, e, refl, ground (arith, longer.0), longer.1)
        ];
      })
        where
          got' : List ℕ
          got' = got ++ (get_or (prefix rt p) (length got) 0 ∷ [])

          longer : (length got' ≡ length got + 1) × (got' ≡ take (length got') (prefix rt p))
          longer =
              read_on got (prefix rt p) 0
                (omega (arith, few, length-to_ne_bytes rt.endian 4 (length p))) read

          len : length got ≡ 3 → from_ne_bytes rt.endian got' ≡ length p
          len last =
              ap (from_ne_bytes rt.endian)
                (longer.1 ∙ ap (λ n. take n (prefix rt p)) all ∙ take_all (prefix rt p))
              ∙ from_ne_bytes-to_ne_bytes rt.endian 4 (length p)
              ∙ mod-eq_of_lt (omega (arith, front.fits, front.narrow))
            where
              all : length got' ≡ length (prefix rt p)
              all = omega (arith, longer.0, length-to_ne_bytes rt.endian 4 (length p))

      copied :
          (got : List ℕ)
          → length got < length p
          → got ≡ take (length got) p
          → Inv rt (consume rt (Consumer.copying s.mem.head (length p) got) s)
      unfolding consume
      copied got more read =
          rw (lt→ltb (length got) (length p) more, payload_byte (length got) more)
            (record {
              queue = inv.queue;
              holds = inv.holds;
              conserved = inv.conserved;
              produces = inv.produces;
              consumes = (p, rest, e, refl, refl, omega (arith, longer.0), longer.1);
            })
        where
          longer :
              let got' = got ++ (get_or p (length got) 0 ∷ []) in
              (length got' ≡ length got + 1) × (got' ≡ take (length got') p)
          longer = read_on got p 0 more read

      taken :
          (got : List ℕ)
          → ltb (length got) (length p) ≡ false
          → length got ≤ length p
          → got ≡ take (length got) p
          → Inv rt (consume rt (Consumer.copying s.mem.head (length p) got) s)
      unfolding consume
      taken got done le read = rw done (record {
        queue = rest;
        holds = advanced-Holds rt p rest front;
        conserved =
            inv.conserved
            ∙ ap (λ l. s.received ++ l) (e ∙ ap (λ g. g ∷ rest) (sym whole))
            ∙ sym (append_assoc s.received (got ∷ []) rest);
        produces =
            Produces-advanced s.producer p rest front
              (subst (λ q. Produces rt s.producer s.mem q) e inv.produces);
        consumes = tt;
      })
        where
          whole : got ≡ p
          whole = read ∙ ap (λ n. take n p) all ∙ take_all p
            where
              all : length got ≡ length p
              all = ground arith

    -- `pop` at any point.
    pub consume-Inv : (c : Consumer) → Consumes rt c s.mem.head inv.queue → Inv rt (consume rt c s)
    unfolding consume
    consume-Inv Consumer.idle know = inv
    consume-Inv (Consumer.measuring head got) (p, rest, e, same, few, read) =
        rw same (measured p rest e got few read)
    consume-Inv (Consumer.copying head n got) (p, rest, e, same, len, le, read) =
        rw (same, len)
          (elim (Bool-cases (ltb (length got) (length p))) [
            | inl more ↦ copied p rest e got (ground arith) read
            | inr done ↦ taken p rest e got done le read
          ])
