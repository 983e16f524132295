-- ===== src/Ring/Duplex/Order.antt =====
-- Messages under any interleaving: in order, none lost, none twice, and each delivered in time.
use membridge.Common.{◌≡◌, refl, List, [], ◌∷◌, ◌++◌}
use membridge.Codec.Value.{Runtime}
use membridge.Fifo.{Queue}
use membridge.Ring.{Segment}
use membridge.Ring.Holds.{Holds}
use membridge.Ring.Duplex.{System, Action, push, push_turn, pop, pop_turn, fire, run, start}
use membridge.Ring.Duplex.Invariant.{Inv}
use membridge.Ring.Duplex.Produced.{produce-Inv, call_push-Inv}
use membridge.Ring.Duplex.Consumed.{consume-Inv, call_pop-Inv}

module _ (rt : Runtime) where
  pub fire-Inv : (a : Action) (s : System) → Inv rt s → Inv rt (fire rt a s)
  unfolding fire
  fire-Inv (push payload) s inv = call_push-Inv rt s inv s.producer payload
  fire-Inv push_turn s inv = produce-Inv rt s inv s.producer inv.produces
  fire-Inv pop s inv = call_pop-Inv rt s inv s.consumer
  fire-Inv pop_turn s inv = consume-Inv rt s inv s.consumer inv.consumes

  pub run-Inv : (schedule : List Action) (s : System) → Inv rt s → Inv rt (run rt schedule s)
  unfolding run
  run-Inv [] s inv = inv
  run-Inv (a ∷ schedule) s inv = run-Inv schedule (fire rt a s) (fire-Inv a s inv)

  pub start-Inv : {m : Segment} → Holds rt m [] → Inv rt (start m)
  start-Inv h = record { queue = []; holds = h; conserved = refl; produces = tt; consumes = tt }

-- Whatever the interleaving of one producer and one consumer, from an empty ring: the payloads that
-- `push` has sent are those that `pop` has received, in the same order, followed by those that the
-- segment holds.
pub sent_in_order :
    (rt : Runtime) (schedule : List Action) {m : Segment}
    → Holds rt m []
    → let s = run rt schedule (start m) in
      (q : Queue) × (s.sent ≡ s.received ++ q) × Holds rt s.mem q
sent_in_order rt schedule {m} empty =
    let inv = run-Inv rt schedule (start m) (start-Inv rt empty) in
    (inv.queue, inv.conserved, inv.holds)
