-- ===== src/Ring/Duplex/PushAlone.antt =====
-- A producer that the consumer does not interrupt does what `push` does in one go.
use membridge.Common.{
  ℕ, zero, suc, ◌+◌, ◌%◌, ◌^◌, ◌<◌, ◌≡◌, refl, sym, ap, ◌∙◌, Bool, true, false, Bool-cases, inl,
  inr, List, [], ◌∷◌, ◌++◌, arith, length, drop, get_or, set, replicate, ltb, append-nil, lt→ltb,
  le→ltb,
}
use membridge.Common.Words.{add_usize}
use membridge.Codec.Bytes.{to_ne_bytes, length-to_ne_bytes}
use membridge.Codec.Value.{Runtime}
use membridge.Error.{PyResult, ok, err}
use membridge.Fifo.{Message}
use membridge.Ring.{Segment, index, push_payload, publish, write_from, used}
use membridge.Common.Slices.{drop-cons, drop_all}
use membridge.Ring.Duplex.Bytes.{four_bytes}
use membridge.Ring.Duplex.{
  Producer, System, Action, push, push_turn, begin_push, produce, call_push, fire, run,
}

module _ (rt : Runtime) where
  abbrev push_turns : ℕ → System → System
  push_turns n s = run rt (replicate n push_turn) s

  -- The state after `push`, with the area that its stores leave.
  abbrev published : Message → ℕ → List ℕ → System → System
  published payload tail area s = record s {
    mem = record s.mem { area = area; tail = add_usize tail (4 + length payload) };
    producer = Producer.idle;
    sent = s.sent ++ (payload ∷ []);
  }

  -- With byte `i` of the payload stored.
  abbrev stored : ℕ → Message → ℕ → System → System
  stored i payload tail s = record s {
    mem = record s.mem {
      area = set s.mem.area (index (add_usize tail 4) i s.mem.capacity) (get_or payload i 0);
    };
  }

  fill_turn :
      (i : ℕ) (payload : Message) (tail : ℕ) (s : System)
      → i < length payload
      → produce rt
          (Producer.filling payload tail i)
          (record s { producer = Producer.filling payload tail i })
        ≡ record (stored i payload tail s) { producer = Producer.filling payload tail (i + 1) }
  unfolding produce
  fill_turn i payload tail s more = rw (lt→ltb i (length payload) more) refl

  -- The loop over the payload, and the store of `tail`.
  filling_alone :
      (left i : ℕ) (payload : Message) (tail : ℕ) (s : System)
      → i + left ≡ length payload
      → push_turns (suc left) (record s { producer = Producer.filling payload tail i })
        ≡ published payload tail
            (write_from s.mem.area (add_usize tail 4) i (drop i payload) s.mem.capacity)
            s
  unfolding run fire produce write_from
  filling_alone zero i payload tail s e =
      rw
        (
          le→ltb i (length payload) (omega (arith, e)),
          ap (λ n. drop n payload) all ∙ drop_all payload,
        )
        refl
    where
      all : i ≡ length payload
      all = omega (arith, e)
  filling_alone (suc left) i payload tail s e =
      ap (push_turns (suc left)) (fill_turn i payload tail s more)
      ∙ filling_alone left (i + 1) payload tail (stored i payload tail s) (omega (arith, e))
      ∙ ap
          (λ l.
            published payload tail (write_from s.mem.area (add_usize tail 4) i l s.mem.capacity) s)
          (sym (drop-cons i payload 0 more))
    where
      more : i < length payload
      more = omega (arith, e)

  prefixing_alone :
      (payload : Message) (tail : ℕ) (s : System)
      → push_turns 4 (record s { producer = Producer.prefixing payload tail 0 }) ≡ record s {
        mem = record s.mem {
          area =
              write_from s.mem.area tail 0
                (to_ne_bytes rt.endian 4 (length payload % 2 ^ 32))
                s.mem.capacity;
        };
        producer = Producer.filling payload tail 0;
      }
  unfolding run fire produce write_from
  prefixing_alone payload tail s =
      let (a, b, c, d, e) =
        four_bytes (to_ne_bytes rt.endian 4 (length payload % 2 ^ 32))
          (length-to_ne_bytes rt.endian 4 (length payload % 2 ^ 32)) in
      rw e refl

  pub run-add :
      (m n : ℕ) (a : Action) (s : System)
      → run rt (replicate (m + n) a) s ≡ run rt (replicate n a) (run rt (replicate m a) s)
  unfolding run
  run-add zero n a s = ap (λ k. run rt (replicate k a) s) zero_n
    where
      zero_n : zero + n ≡ n
      zero_n = omega arith
  run-add (suc m) n a s = ap (λ k. run rt (replicate k a) s) suc_first ∙ run-add m n a (fire rt a s)
    where
      suc_first : suc m + n ≡ suc (m + n)
      suc_first = omega arith

  -- The turns of an idle client change nothing.
  idle_turns :
      (n : ℕ) (s : System)
      → push_turns n (record s { producer = Producer.idle }) ≡ record s { producer = Producer.idle }
  unfolding run fire produce
  idle_turns zero s = refl
  idle_turns (suc n) s = idle_turns n s

  -- What `push` has sent by its answer.
  abbrev pub accepted : PyResult Bool → Message → List Message
  accepted (ok true) payload = payload ∷ []
  accepted (ok false) payload = []
  accepted (err e) payload = []

  nothing_sent :
      (s : System)
      → record s { producer = Producer.idle }
        ≡ record s { producer = Producer.idle; sent = s.sent ++ [] }
  nothing_sent s =
      ap (λ l. record s { producer = Producer.idle; sent = l }) (sym (append-nil s.sent))

  -- The rounds of a `push` that has room.
  room_alone :
      (payload : Message) (s : System)
      → push_turns
          (5 + length payload)
          (record s { producer = Producer.prefixing payload s.mem.tail 0 })
        ≡ record s {
          mem = publish rt payload s.mem;
          producer = Producer.idle;
          sent = s.sent ++ (payload ∷ []);
        }
  unfolding publish
  room_alone payload s =
      ap (λ n. push_turns n (record s { producer = Producer.prefixing payload s.mem.tail 0 })) split
      ∙ run-add 4 (suc (length payload)) push_turn
          (record s { producer = Producer.prefixing payload s.mem.tail 0 })
      ∙ ap (push_turns (suc (length payload))) (prefixing_alone payload s.mem.tail s)
      ∙ filling_alone (length payload) 0 payload s.mem.tail
          (record s {
            mem = record s.mem {
              area =
                  write_from s.mem.area s.mem.tail 0
                    (to_ne_bytes rt.endian 4 (length payload % 2 ^ 32)) s.mem.capacity;
            };
          })
          (omega arith)
    where
      split : 5 + length payload ≡ 4 + suc (length payload)
      split = omega arith

  first_turn :
      (n : ℕ) (s : System) → push_turns (6 + n) s ≡ push_turns (5 + n) (fire rt push_turn s)
  first_turn n s =
      ap (λ k. push_turns k s) split ∙ run-add 1 (5 + n) push_turn s ∙ unfold run in refl
    where
      split : 6 + n ≡ 1 + (5 + n)
      split = omega arith

  -- The outcome of `push` from the answer of `push_payload`.
  abbrev pushed : Message → System → PyResult Bool × Segment → System
  pushed payload s (answer, m') = record s {
    mem = m';
    producer = Producer.idle;
    sent = s.sent ++ accepted answer payload;
  }

  loaded_alone :
      (map_size : ℕ) (payload : Message) (s : System)
      → ltb s.mem.capacity (4 + length payload) ≡ false
      → push_turns (5 + length payload) (
          produce rt
            (Producer.loaded payload s.mem.head)
            (record s { producer = Producer.loaded payload s.mem.head }))
        ≡ pushed payload s (push_payload rt map_size payload s.mem)
  unfolding push_payload produce
  loaded_alone map_size payload s fits =
      elim (Bool-cases (ltb s.mem.capacity (add_usize (used s.mem) (4 + length payload)))) [
        | inl full ↦ rw (fits, full) (idle_turns (5 + length payload) s ∙ nothing_sent s)
        | inr free ↦ rw (fits, free) (room_alone payload s)
      ]

  -- Where the consumer takes no turn, a `push` that begins outside any other, and gets one turn for each
  -- access, does to the segment what `push_payload` does in one go, sends its payload if that returns
  -- true, and is over.
  pub push_alone :
      (map_size : ℕ) (payload : Message) (s : System)
      → s.producer ≡ Producer.idle
      → run rt (push payload ∷ replicate (6 + length payload) push_turn) s ≡ (
          let (answer, m') = push_payload rt map_size payload s.mem in
          record s { mem = m'; producer = Producer.idle; sent = s.sent ++ accepted answer payload })
  unfolding run fire call_push
  push_alone map_size payload s outside =
      ap (push_turns (6 + length payload)) (ap (λ p. call_push rt p payload s) outside)
      ∙ elim (Bool-cases (ltb s.mem.capacity (4 + length payload))) [
        | inl large ↦
            unfold begin_push push_payload in
            rw large (idle_turns (6 + length payload) s ∙ nothing_sent s)
        | inr fits ↦
            unfold begin_push in
            rw fits (
              first_turn (length payload)
                (record s { producer = Producer.loaded payload s.mem.head })
              ∙ loaded_alone map_size payload s fits)
      ]
