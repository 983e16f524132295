-- ===== src/Ring/Duplex.antt =====
-- src/spsc.rs under its two clients at once: one producer in `push` and one consumer in `pop` or
-- `pop_mixed`, interleaved between any two accesses of the shared segment, down to single bytes.
pub mod Bytes
pub mod Invariant
pub mod Produced
pub mod Consumed
pub mod Order
pub mod Turns
pub mod Delivery
pub mod PushAlone
pub mod PopAlone
use membridge.Common.{
  ℕ, ◌+◌, ◌%◌, ◌^◌, List, [], ◌∷◌, ◌++◌, length, get_or, set, ltb, ◌==◌, if◌then◌else◌,
}
use membridge.Common.Words.{add_usize, sub_usize}
use membridge.Codec.Bytes.{to_ne_bytes, from_ne_bytes}
use membridge.Codec.Value.{Runtime}
use membridge.Fifo.{Message}
use membridge.Ring.{Segment, index}

-- Where `push` stands: before it loads `tail`, with the `head` that it loaded; before byte `i` of the
-- prefix; before byte `i` of the payload, or, behind the last, before it stores `tail`.
pub data Producer : Type 0 where
  idle : Producer
  loaded : (payload : Message) (head : ℕ) → Producer
  prefixing filling : (payload : Message) (tail i : ℕ) → Producer

-- Where `pop` stands: before the next byte of the prefix, with those that it read; before the next
-- byte of the payload, or, behind the last, before it stores `head`.
pub data Consumer : Type 0 where
  idle : Consumer
  measuring : (head : ℕ) (len_bytes : List ℕ) → Consumer
  copying : (head payload_len : ℕ) (payload : List ℕ) → Consumer

-- `sent` are the payloads for which `push` has returned true, `received` those that `pop` has taken.
pub record System : Type 0 where
  pub mem : Segment
  pub producer : Producer
  pub consumer : Consumer
  pub sent : List Message
  pub received : List Message

pub data Action : Type 0 where
  push : Message → Action
  push_turn pop pop_turn : Action

module _ (rt : Runtime) where
  -- A call of `push` with its packed payload, up to its load of `head`. A frame larger than the ring is
  -- an error.
  unfoldable pub begin_push : Message → Segment → Producer
  begin_push payload m =
      if ltb m.capacity (4 + length payload) then Producer.idle else Producer.loaded payload m.head

  -- One access of `push`. When the ring is full the call returns false.
  unfoldable pub produce : Producer → System → System
  produce Producer.idle s = s
  produce (Producer.loaded payload head) s =
      let frame_len = 4 + length payload in
      let used = sub_usize s.mem.tail head in
      record s {
        producer =
            if ltb s.mem.capacity (add_usize used frame_len)
            then Producer.idle
            else Producer.prefixing payload s.mem.tail 0;
      }
  produce (Producer.prefixing payload tail i) s =
      let len_bytes = to_ne_bytes rt.endian 4 (length payload % 2 ^ 32) in
      record s {
        mem = record s.mem {
          area = set s.mem.area (index tail i s.mem.capacity) (get_or len_bytes i 0);
        };
        producer =
            if i == 3
            then Producer.filling payload tail 0
            else Producer.prefixing payload tail (i + 1);
      }
  produce (Producer.filling payload tail i) s =
      if ltb i (length payload)
      then record s {
        mem = record s.mem {
          area = set s.mem.area (index (add_usize tail 4) i s.mem.capacity) (get_or payload i 0);
        };
        producer = Producer.filling payload tail (i + 1);
      }
      else record s {
        mem = record s.mem { tail = add_usize tail (4 + length payload) };
        producer = Producer.idle;
        sent = s.sent ++ (payload ∷ []);
      }

  -- A call of `pop` up to its load of `tail`.
  unfoldable pub begin_pop : Segment → Consumer
  begin_pop m = if m.head == m.tail then Consumer.idle else Consumer.measuring m.head []

  -- One access of `pop`.
  unfoldable pub consume : Consumer → System → System
  consume Consumer.idle s = s
  consume (Consumer.measuring head got) s =
      let len_bytes = got ++ (get_or s.mem.area (index head (length got) s.mem.capacity) 0 ∷ []) in
      record s {
        consumer =
            if length got == 3
            then Consumer.copying head (from_ne_bytes rt.endian len_bytes) []
            else Consumer.measuring head len_bytes;
      }
  consume (Consumer.copying head payload_len payload) s =
      if ltb (length payload) payload_len
      then record s {
        consumer = Consumer.copying head payload_len (
            payload
            ++ (get_or s.mem.area (index (add_usize head 4) (length payload) s.mem.capacity) 0
                ∷ []));
      }
      else record s {
        mem = record s.mem { head = add_usize head (4 + payload_len) };
        consumer = Consumer.idle;
        received = s.received ++ (payload ∷ []);
      }

  -- A client that is inside a call begins no other.
  unfoldable pub call_push : Producer → Message → System → System
  unfolding begin_push
  call_push Producer.idle payload s = record s { producer = begin_push payload s.mem }
  call_push _ payload s = s

  unfoldable pub call_pop : Consumer → System → System
  unfolding begin_pop
  call_pop Consumer.idle s = record s { consumer = begin_pop s.mem }
  call_pop _ s = s

  unfoldable pub fire : Action → System → System
  unfolding produce consume call_push call_pop
  fire (push payload) s = call_push s.producer payload s
  fire push_turn s = produce s.producer s
  fire pop s = call_pop s.consumer s
  fire pop_turn s = consume s.consumer s

  unfoldable pub run : List Action → System → System
  unfolding fire
  run [] s = s
  run (a ∷ schedule) s = run schedule (fire a s)

-- Both clients outside a call, on a segment that was just made.
abbrev pub start : Segment → System
start m = record {
  mem = m;
  producer = Producer.idle;
  consumer = Consumer.idle;
  sent = [];
  received = [];
}
