-- ===== src/Ring/Duplex/PopAlone.antt =====
-- A consumer that the producer does not interrupt does what `pop` does in one go.
use membridge.Common.{
  ℕ, zero, suc, ◌+◌, ◌≡◌, refl, sym, ap, ◌∙◌, Option, none, some, Bool-cases, inl, inr, List, [],
  ◌∷◌, ◌++◌, arith, length, get_or, replicate, ◌==◌, append_assoc, append-nil, length-append,
  lt→ltb, le→ltb,
}
use membridge.Common.Words.{add_usize}
use membridge.Codec.Bytes.{from_ne_bytes}
use membridge.Codec.Value.{Runtime}
use membridge.Fifo.{Message}
use membridge.Ring.{index, take_frame, read_bytes, read_from}
use membridge.Ring.Duplex.{Consumer, System, pop, pop_turn, begin_pop, consume, call_pop, fire, run}
use membridge.Ring.Duplex.PushAlone.{run-add}

module _ (rt : Runtime) where
  abbrev pop_turns_of : ℕ → System → System
  pop_turns_of n s = run rt (replicate n pop_turn) s

  idle_turns :
      (n : ℕ) (s : System)
      → pop_turns_of n (record s { consumer = Consumer.idle })
        ≡ record s { consumer = Consumer.idle }
  unfolding run fire consume
  idle_turns zero s = refl
  idle_turns (suc n) s = idle_turns n s

  -- The state after `pop` took a payload.
  abbrev taken : ℕ → ℕ → List ℕ → System → System
  taken head n payload s = record s {
    mem = record s.mem { head = add_usize head (4 + n) };
    consumer = Consumer.idle;
    received = s.received ++ (payload ∷ []);
  }

  -- The loop over the payload, and the store of `head`.
  copying_alone :
      (left head n : ℕ) (got : List ℕ) (s : System)
      → length got + left ≡ n
      → pop_turns_of (suc left) (record s { consumer = Consumer.copying head n got })
        ≡ taken head n
            (got ++ read_from s.mem.area (add_usize head 4) (length got) left s.mem.capacity)
            s
  unfolding run fire consume read_from
  copying_alone zero head n got s e =
      rw (le→ltb (length got) n (omega (arith, e)))
        (ap (λ l. taken head n l s) (sym (append-nil got)))
  copying_alone (suc left) head n got s e =
      ap (pop_turns_of (suc left)) one
      ∙ copying_alone left head n (got ++ (byte ∷ [])) s (omega (arith, e, longer))
      ∙ ap (λ l. taken head n l s)
          (ap
              (λ k.
                (got ++ (byte ∷ []))
                ++ read_from s.mem.area (add_usize head 4) k left s.mem.capacity)
              longer
            ∙ append_assoc got (byte ∷ []) _)
    where
      byte : ℕ
      byte = get_or s.mem.area (index (add_usize head 4) (length got) s.mem.capacity) 0

      longer : length (got ++ (byte ∷ [])) ≡ length got + 1
      longer = omega (arith, length-append got (byte ∷ []))

      one :
          consume rt
            (Consumer.copying head n got)
            (record s { consumer = Consumer.copying head n got })
          ≡ record s { consumer = Consumer.copying head n (got ++ (byte ∷ [])) }
      one = rw (lt→ltb (length got) n (omega (arith, e))) refl

  -- The four turns for the prefix.
  measuring_alone :
      (head : ℕ) (s : System)
      → pop_turns_of 4 (record s { consumer = Consumer.measuring head [] }) ≡ record s {
        consumer =
            Consumer.copying head
              (from_ne_bytes rt.endian (read_bytes s.mem.area head 4 s.mem.capacity))
              [];
      }
  unfolding run fire consume read_bytes read_from
  measuring_alone head s = refl

  -- What a `pop` has received by its frame.
  abbrev pub delivered : Option (List ℕ) → List Message
  delivered none = []
  delivered (some payload) = payload ∷ []

  some_alone :
      (s : System) (n : ℕ)
      → n ≡ from_ne_bytes rt.endian (read_bytes s.mem.area s.mem.head 4 s.mem.capacity)
      → pop_turns_of (5 + n) (record s { consumer = Consumer.measuring s.mem.head [] })
        ≡ taken s.mem.head n (read_bytes s.mem.area (add_usize s.mem.head 4) n s.mem.capacity) s
  unfolding read_bytes
  some_alone s n e =
      ap (λ k. pop_turns_of k (record s { consumer = Consumer.measuring s.mem.head [] })) split
      ∙ run-add rt 4 (suc n) pop_turn (record s { consumer = Consumer.measuring s.mem.head [] })
      ∙ ap (pop_turns_of (suc n)) (
          measuring_alone s.mem.head s
          ∙ ap (λ k. record s { consumer = Consumer.copying s.mem.head k [] }) (sym e))
      ∙ copying_alone n s.mem.head n [] s (omega arith)
    where
      split : 5 + n ≡ 4 + suc n
      split = omega arith

  -- Where the producer takes no turn, a `pop` that begins outside any other, and gets one turn for each
  -- access, does to the segment what `take_frame` does in one go, receives the payload that it takes, if
  -- any, and is over.
  pub pop_alone :
      (s : System)
      → s.consumer ≡ Consumer.idle
      → (let n = from_ne_bytes rt.endian (read_bytes s.mem.area s.mem.head 4 s.mem.capacity) in
          run rt (pop ∷ replicate (5 + n) pop_turn) s)
        ≡ (let (frame, m') = take_frame rt s.mem in
            record s {
              mem = m';
              consumer = Consumer.idle;
              received = s.received ++ delivered frame;
            })
  unfolding run fire call_pop
  pop_alone s outside =
      ap (pop_turns_of (5 + n)) (ap (λ c. call_pop rt c s) outside)
      ∙ elim (Bool-cases (s.mem.head == s.mem.tail)) [
        | inl empty ↦
            unfold begin_pop take_frame in
            rw empty (
              idle_turns (5 + n) s
              ∙ ap (λ l. record s { consumer = Consumer.idle; received = l })
                  (sym (append-nil s.received)))
        | inr more ↦ unfold begin_pop take_frame in rw more (some_alone s n refl)
      ]
    where
      n : ℕ
      n = from_ne_bytes rt.endian (read_bytes s.mem.area s.mem.head 4 s.mem.capacity)
