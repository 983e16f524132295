-- ===== src/Tests/DuplexRuns.antt =====
-- src/spsc.rs with both clients inside their calls.
use membridge.Common.{◌≡◌, refl, List, [], ◌∷◌, ◌++◌, arith, replicate}
use membridge.Codec.Bytes.{to_ne_bytes, from_ne_bytes}
use membridge.Fifo.{Message, Queue}
use membridge.Ring.{index, push_payload, take_frame, read_bytes}
use membridge.Ring.Holds.{Holds}
use membridge.Ring.Duplex.{Producer, Consumer, Action, push, push_turn, pop, pop_turn, run, start}
use membridge.Ring.Duplex.Order.{sent_in_order}
use membridge.Ring.Duplex.Delivery.{pop_delivers}
use membridge.Ring.Duplex.Turns.{IsOldest}
use membridge.Ring.Duplex.PushAlone.{push_alone}
use membridge.Ring.Duplex.PopAlone.{pop_alone}
use membridge.Tests.RingRuns.{near_wrap, near_wrap-Holds}
use membridge.Tests.Samples.{sample}

-- A message is sent; then the consumer reads it while the producer writes the next.
abbrev first_push : List Action
first_push = push (7 ∷ 8 ∷ []) ∷ replicate 8 push_turn

abbrev both : List Action
both =
    push (9 ∷ [])
    ∷ push_turn
    ∷ pop
    ∷ push_turn
    ∷ pop_turn
    ∷ push_turn
    ∷ pop_turn
    ∷ push_turn
    ∷ pop_turn
    ∷ push_turn
    ∷ pop_turn
    ∷ pop_turn
    ∷ pop_turn
    ∷ push_turn
    ∷ pop_turn
    ∷ push_turn
    ∷ []

interleaved_received :
    (run sample (first_push ++ both) (start near_wrap)).received ≡ (7 ∷ 8 ∷ []) ∷ []
unfolding run index to_ne_bytes from_ne_bytes
interleaved_received = refl

interleaved_sent :
    (run sample (first_push ++ both) (start near_wrap)).sent ≡ (7 ∷ 8 ∷ []) ∷ (9 ∷ []) ∷ []
unfolding run index to_ne_bytes from_ne_bytes
interleaved_sent = refl

sent_in_order_example :
    let s = run sample (first_push ++ both) (start near_wrap) in
    (q : Queue) × (s.sent ≡ s.received ++ q) × Holds sample s.mem q
sent_in_order_example = sent_in_order sample (first_push ++ both) near_wrap-Holds

-- The consumer's turns come between those of the next `push`.
abbrev turns : List Action
turns =
    push (9 ∷ [])
    ∷ push_turn
    ∷ pop_turn
    ∷ pop_turn
    ∷ push_turn
    ∷ pop_turn
    ∷ pop_turn
    ∷ push_turn
    ∷ pop_turn
    ∷ pop_turn
    ∷ pop_turn
    ∷ []

first_push-IsOldest : IsOldest (7 ∷ 8 ∷ []) (run sample first_push (start near_wrap))
unfolding run
first_push-IsOldest = ([], refl)

pop_delivers_example :
    (more : List Message) × ((run sample
        (pop ∷ turns)
        (run sample first_push (start near_wrap))).received
      ≡ (run sample first_push (start near_wrap)).received ++ ((7 ∷ 8 ∷ []) ∷ more))
unfolding run
pop_delivers_example =
    pop_delivers sample first_push turns (7 ∷ 8 ∷ []) near_wrap-Holds refl first_push-IsOldest
      (omega arith)

push_alone_example : run sample (push (7 ∷ []) ∷ replicate 7 push_turn) (start near_wrap) ≡ record {
  mem = (push_payload sample 40 (7 ∷ []) near_wrap).1;
  producer = Producer.idle;
  consumer = Consumer.idle;
  sent = (7 ∷ []) ∷ [];
  received = [];
}
unfolding push_payload
push_alone_example = push_alone sample 40 (7 ∷ []) (start near_wrap) refl

pop_alone_example : run sample (pop ∷ replicate 5 pop_turn) (start near_wrap) ≡ record {
  mem = (take_frame sample near_wrap).1;
  producer = Producer.idle;
  consumer = Consumer.idle;
  sent = [];
  received = [];
}
unfolding take_frame from_ne_bytes read_bytes index
pop_alone_example = pop_alone sample (start near_wrap) refl
