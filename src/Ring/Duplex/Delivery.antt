-- ===== src/Ring/Duplex/Delivery.antt =====
-- A message that was sent is received: the consumer needs so many turns, whatever the producer does
-- between them.
use mathlib.Core.List.{append_cancel_left}
use membridge.Common.{
  ℕ, ◌+◌, ◌≤◌, ◌<◌, ◌≡◌, ◌⊎◌, refl, sym, ap, subst, ◌∙◌, Bool-cases, inl, inr, List, [], ◌∷◌, ◌++◌,
  arith, length, take, get_or, ltb, ◌==◌, append_assoc, length-append, ne→==,
}
use membridge.Codec.Value.{Runtime}
use membridge.Fifo.{Message, Queue}
use membridge.Common.Words.{add_usize}
use membridge.Ring.{Segment, index}
use membridge.Ring.Holds.{Holds}
use membridge.Ring.Duplex.{
  Consumer, System, Action, push, push_turn, pop, pop_turn, begin_pop, consume, call_pop, fire, run,
  start,
}
use membridge.Ring.Duplex.Invariant.{Inv, Consumes}
use membridge.Common.Slices.{take_all}
use membridge.Ring.Duplex.Order.{fire-Inv, run-Inv, start-Inv}
use membridge.Ring.Duplex.Turns.{
  pop_turns, turns_left, IsBusy, IsOldest, Aside, produce-Aside, call_push-Aside, call_pop-Aside,
  run_grows,
}

module _ (rt : Runtime) where
  -- One turn of `pop` at message `p`: it is received, or one turn less is left.
  abbrev Served : Message → Consumer → System → Type 0
  Served p c s =
      ((more : List Message) × ((consume rt c s).received ≡ s.received ++ (p ∷ more)))
      ⊎ (IsBusy (consume rt c s).consumer
          × (turns_left p (consume rt c s).consumer + 1 ≡ turns_left p c)
          × ((consume rt c s).received ≡ s.received)
          × ((consume rt c s).sent ≡ s.sent))

  consume_serves :
      (p : Message) (c : Consumer) (s : System) (q rest : Queue)
      → IsBusy c
      → q ≡ p ∷ rest
      → Consumes rt c s.mem.head q
      → Served p c s
  unfolding consume
  consume_serves p Consumer.idle s q rest busy e know = absurd busy
  consume_serves p (Consumer.measuring head got) s q rest busy e (p', rest', e', same, few, read) =
      elim (Bool-cases (length got == 3)) [
        | inl last ↦
            let three : length got ≡ 3 = ground arith in
            rw last (inr (tt, omega (arith, three), refl, refl))
        | inr more ↦ rw more (inr (tt, omega (arith, one_more), refl, refl))
      ]
    where
      byte : ℕ
      byte = get_or s.mem.area (index head (length got) s.mem.capacity) 0

      one_more : length (got ++ (byte ∷ [])) ≡ length got + 1
      one_more = omega (arith, length-append got (byte ∷ []))
  consume_serves p (Consumer.copying head n got) s q rest busy e
        (p', rest', e', same, len, le, read) =
      elim (Bool-cases (ltb (length got) n)) [
        | inl more ↦
            let lt : length got < n = ground arith in
            rw more (inr (tt, omega (arith, one_more, lt, len, ap length theirs), refl, refl))
        | inr done ↦
            let whole : length got ≡ length p' = ground arith in
            rw done (
              inl (
                [],
                ap (λ l. s.received ++ (l ∷ []))
                    (read ∙ ap (λ k. take k p') whole ∙ take_all p' ∙ theirs),
              ))
      ]
    where
      theirs : p' ≡ p
      theirs = cc

      byte : ℕ
      byte = get_or s.mem.area (index (add_usize head 4) (length got) s.mem.capacity) 0

      one_more : length (got ++ (byte ∷ [])) ≡ length got + 1
      one_more = omega (arith, length-append got (byte ∷ []))

  -- A step of the producer, or a call of `pop` inside another.
  Aside-turn :
      (p : Message) (s s' : System)
      → Aside s s'
      → IsBusy s.consumer
      → IsOldest p s
      → IsBusy s'.consumer × (turns_left p s'.consumer ≡ turns_left p s.consumer) × IsOldest p s'
  Aside-turn p s s' aside busy (rest, e) = (
    subst IsBusy (sym aside.same_consumer) busy,
    ap (turns_left p) aside.same_consumer,
    (
      rest ++ aside.added,
      aside.grown
          ∙ ap (λ l. l ++ aside.added) e
          ∙ append_assoc s.received (p ∷ rest) aside.added
          ∙ ap (λ l. l ++ (p ∷ (rest ++ aside.added))) (sym aside.same_received),
    ),
  )

  -- The queue of the invariant begins with the oldest message.
  oldest_first :
      (p : Message) (s : System) (inv : Inv rt s) (rest : Queue)
      → s.sent ≡ s.received ++ (p ∷ rest)
      → inv.queue ≡ p ∷ rest
  oldest_first p s inv rest e =
      append_cancel_left s.received inv.queue (p ∷ rest) (sym inv.conserved ∙ e)

  turns_left-pos :
      (p : Message) (c : Consumer) (at : ℕ) (q rest : Queue)
      → IsBusy c
      → q ≡ p ∷ rest
      → Consumes rt c at q
      → 0 < turns_left p c
  turns_left-pos p Consumer.idle at q rest busy e know = absurd busy
  turns_left-pos p (Consumer.measuring head got) at q rest busy e (p', rest', e', same, few, read) =
      omega (arith, few)
  turns_left-pos p (Consumer.copying head n got) at q rest busy e
        (p', rest', e', same, len, le, read) =
      omega (arith, le, ap length theirs)
    where
      theirs : p' ≡ p
      theirs = cc

  -- What a schedule delivers to a consumer inside `pop` that has enough turns in it.
  abbrev Delivers : Message → List Action → System → Type 0
  Delivers p schedule s =
      Inv rt s
      → IsBusy s.consumer
      → IsOldest p s
      → turns_left p s.consumer ≤ pop_turns schedule
      → (more : List Message) × ((run rt schedule s).received ≡ s.received ++ (p ∷ more))

  after-Aside :
      (p : Message) (schedule : List Action) (s s' : System)
      → Inv rt s'
      → Aside s s'
      → Delivers p schedule s'
      → IsBusy s.consumer
      → IsOldest p s
      → turns_left p s.consumer ≤ pop_turns schedule
      → (more : List Message) × ((run rt schedule s').received ≡ s.received ++ (p ∷ more))
  after-Aside p schedule s s' inv' aside later busy oldest enough =
      let (busy', left, oldest') = Aside-turn p s s' aside busy oldest in
      let (more, e) = later inv' busy' oldest' (omega (arith, left, enough)) in
      (more, e ∙ ap (λ l. l ++ (p ∷ more)) aside.same_received)

  busy-Delivers : (p : Message) (schedule : List Action) (s : System) → Delivers p schedule s
  unfolding run
  busy-Delivers p [] s inv busy (rest, e) enough = absurd (
      omega (
        arith,
        enough,
        turns_left-pos p s.consumer s.mem.head inv.queue rest busy (oldest_first p s inv rest e)
            inv.consumes,
      ))
  busy-Delivers p (pop_turn ∷ schedule) s inv busy (rest, e) enough =
      elim (consume_serves p s.consumer s inv.queue rest busy (oldest_first p s inv rest e)
        inv.consumes) [
          | inl (more, now) ↦
              let (rest', f) = run_grows rt schedule (consume rt s.consumer s) in
              (
                more ++ rest',
                f ∙ ap (λ l. l ++ rest') now ∙ append_assoc s.received (p ∷ more) rest',
              )
          | inr (busy', left, same_received, same_sent) ↦
              let (more, f) =
                busy-Delivers p schedule (consume rt s.consumer s) (fire-Inv rt pop_turn s inv)
                  busy' (rest, same_sent ∙ e ∙ ap (λ l. l ++ (p ∷ rest)) (sym same_received))
                  (omega (arith, left, enough)) in
              (more, f ∙ ap (λ l. l ++ (p ∷ more)) same_received)
        ]
  busy-Delivers p (push payload ∷ schedule) s inv busy oldest enough =
      after-Aside p schedule s (fire rt (push payload) s) (fire-Inv rt (push payload) s inv)
        (call_push-Aside rt s.producer payload s)
        (busy-Delivers p schedule (fire rt (push payload) s)) busy oldest enough
  busy-Delivers p (push_turn ∷ schedule) s inv busy oldest enough =
      after-Aside p schedule s (fire rt push_turn s) (fire-Inv rt push_turn s inv)
        (produce-Aside rt s.producer s) (busy-Delivers p schedule (fire rt push_turn s)) busy oldest
        enough
  busy-Delivers p (pop ∷ schedule) s inv busy oldest enough =
      after-Aside p schedule s (fire rt pop s) (fire-Inv rt pop s inv)
        (call_pop-Aside rt s.consumer s busy) (busy-Delivers p schedule (fire rt pop s)) busy oldest
        enough

  begin_pop_busy :
      (s : System) (p : Message) (rest : Queue)
      → Holds rt s.mem (p ∷ rest)
      → begin_pop rt s.mem ≡ Consumer.measuring s.mem.head []
  unfolding begin_pop
  begin_pop_busy s p rest h =
      rw (ne→== s.mem.head s.mem.tail (omega (arith, h.tail_at, h.head_lt, h.fits, h.narrow))) refl

  idle_delivers :
      (p : Message) (schedule : List Action) (s : System)
      → Inv rt s
      → s.consumer ≡ Consumer.idle
      → IsOldest p s
      → 5 + length p ≤ pop_turns schedule
      → (more : List Message) × ((run rt schedule (fire rt pop s)).received
          ≡ s.received ++ (p ∷ more))
  idle_delivers p schedule s inv outside (rest, e) enough = rw called (
      busy-Delivers p schedule s' (subst (λ t. Inv rt t) called (fire-Inv rt pop s inv)) tt
        (rest, e) (omega (arith, enough)))
    where
      s' : System
      s' = record s { consumer = Consumer.measuring s.mem.head [] }

      called : fire rt pop s ≡ s'
      called =
          unfold fire call_pop in
          ap (λ c. call_pop rt c s) outside
          ∙ ap (λ c. record s { consumer = c })
              (begin_pop_busy s p rest
                (subst (λ q. Holds rt s.mem q) (oldest_first p s inv rest e) inv.holds))

-- After any interleaving from an empty ring: where the consumer stands outside a call and `p` is the
-- oldest message that was sent and not received, a call of `pop` that is given a turn for each byte of
-- the prefix and of the payload, and one more, receives `p` next, whatever the producer does between
-- its turns.
pub pop_delivers :
    (rt : Runtime) (before schedule : List Action) {m : Segment} (p : Message)
    → Holds rt m []
    → (run rt before (start m)).consumer ≡ Consumer.idle
    → IsOldest p (run rt before (start m))
    → 5 + length p ≤ pop_turns schedule
    → (more : List Message) × ((run rt (pop ∷ schedule) (run rt before (start m))).received
        ≡ (run rt before (start m)).received ++ (p ∷ more))
unfolding run
pop_delivers rt before schedule {m} p empty =
    idle_delivers rt p schedule (run rt before (start m))
      (run-Inv rt before (start m) (start-Inv rt empty))
