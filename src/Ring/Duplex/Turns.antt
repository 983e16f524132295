-- ===== src/Ring/Duplex/Turns.antt =====
-- The turns of a consumer, and what a step of either client leaves of them.
use membridge.Common.{
  ℕ, suc, ◌+◌, ◌-◌, ◌≡◌, refl, sym, ap, ◌∙◌, Bool-cases, inl, inr, List, [], ◌∷◌, ◌++◌, length, ltb,
  append_assoc, append-nil,
}
use membridge.Codec.Value.{Runtime}
use membridge.Fifo.{Message, Queue}
use membridge.Ring.Duplex.{
  Producer, Consumer, System, Action, push, push_turn, pop, pop_turn, produce, consume, call_push,
  call_pop, fire, run,
}

-- The turns of `pop` that a schedule has.
abbrev pub pop_turns : List Action → ℕ
pop_turns [] = 0
pop_turns (pop_turn ∷ schedule) = suc (pop_turns schedule)
pop_turns (push _ ∷ schedule) = pop_turns schedule
pop_turns (push_turn ∷ schedule) = pop_turns schedule
pop_turns (pop ∷ schedule) = pop_turns schedule

-- The turns that a call of `pop` still needs for message `p`.
abbrev pub turns_left : Message → Consumer → ℕ
turns_left p Consumer.idle = 0
turns_left p (Consumer.measuring head got) = 5 + length p - length got
turns_left p (Consumer.copying head n got) = 1 + length p - length got

abbrev pub IsBusy : Consumer → Type 0
IsBusy Consumer.idle = ⊥
IsBusy (Consumer.measuring _ _) = Unit
IsBusy (Consumer.copying _ _ _) = Unit

-- `p` is the oldest message that was sent and not received.
abbrev pub IsOldest : Message → System → Type 0
IsOldest p s = (rest : Queue) × (s.sent ≡ s.received ++ (p ∷ rest))

-- A step that leaves the consumer's side alone.
pub record Aside (s s' : System) : Type 0 where
  pub same_consumer : s'.consumer ≡ s.consumer
  pub same_received : s'.received ≡ s.received
  pub added : List Message
  pub grown : s'.sent ≡ s.sent ++ added

module _ (rt : Runtime) where
  nothing_added : (s : System) (p : Producer) → Aside s (record s { producer = p })
  nothing_added s p = record {
    same_consumer = refl;
    same_received = refl;
    added = [];
    grown = sym (append-nil s.sent);
  }

  pub produce-Aside : (p : Producer) (s : System) → Aside s (produce rt p s)
  unfolding produce
  produce-Aside Producer.idle s = nothing_added s s.producer
  produce-Aside (Producer.loaded payload head) s = nothing_added s _
  produce-Aside (Producer.prefixing payload tail i) s = record {
    same_consumer = refl;
    same_received = refl;
    added = [];
    grown = sym (append-nil s.sent);
  }
  produce-Aside (Producer.filling payload tail i) s = elim (Bool-cases (ltb i (length payload))) [
    | inl more ↦ rw more (record {
      same_consumer = refl;
      same_received = refl;
      added = [];
      grown = sym (append-nil s.sent);
    })
    | inr done ↦
        rw done (record {
          same_consumer = refl;
          same_received = refl;
          added = payload ∷ [];
          grown = refl;
        })
  ]

  pub call_push-Aside :
      (p : Producer) (payload : Message) (s : System) → Aside s (call_push rt p payload s)
  unfolding call_push
  call_push-Aside Producer.idle payload s = nothing_added s _
  call_push-Aside (Producer.loaded _ _) payload s = nothing_added s s.producer
  call_push-Aside (Producer.prefixing _ _ _) payload s = nothing_added s s.producer
  call_push-Aside (Producer.filling _ _ _) payload s = nothing_added s s.producer

  pub call_pop-Aside : (c : Consumer) (s : System) → IsBusy c → Aside s (call_pop rt c s)
  unfolding call_pop
  call_pop-Aside Consumer.idle s busy = absurd busy
  call_pop-Aside (Consumer.measuring _ _) s busy = nothing_added s s.producer
  call_pop-Aside (Consumer.copying _ _ _) s busy = nothing_added s s.producer

  -- What has been received stays received.
  consume_grows :
      (c : Consumer) (s : System)
      → (more : List Message) × ((consume rt c s).received ≡ s.received ++ more)
  unfolding consume
  consume_grows Consumer.idle s = ([], sym (append-nil s.received))
  consume_grows (Consumer.measuring head got) s = ([], sym (append-nil s.received))
  consume_grows (Consumer.copying head n got) s = elim (Bool-cases (ltb (length got) n)) [
    | inl more ↦ rw more ([], sym (append-nil s.received))
    | inr done ↦ rw done (got ∷ [], refl)
  ]

  call_pop_received : (c : Consumer) (s : System) → (call_pop rt c s).received ≡ s.received
  unfolding call_pop
  call_pop_received Consumer.idle s = refl
  call_pop_received (Consumer.measuring _ _) s = refl
  call_pop_received (Consumer.copying _ _ _) s = refl

  fire_grows :
      (a : Action) (s : System)
      → (more : List Message) × ((fire rt a s).received ≡ s.received ++ more)
  unfolding fire
  fire_grows (push payload) s =
      ([], (call_push-Aside s.producer payload s).same_received ∙ sym (append-nil s.received))
  fire_grows push_turn s =
      ([], (produce-Aside s.producer s).same_received ∙ sym (append-nil s.received))
  fire_grows pop s = ([], call_pop_received s.consumer s ∙ sym (append-nil s.received))
  fire_grows pop_turn s = consume_grows s.consumer s

  pub run_grows :
      (schedule : List Action) (s : System)
      → (more : List Message) × ((run rt schedule s).received ≡ s.received ++ more)
  unfolding run
  run_grows [] s = ([], sym (append-nil s.received))
  run_grows (a ∷ schedule) s =
      let (more, e) = fire_grows a s in
      let (rest, f) = run_grows schedule (fire rt a s) in
      (more ++ rest, f ∙ ap (λ l. l ++ rest) e ∙ append_assoc s.received more rest)
