-- ===== src/Ring/Client.antt =====
-- The methods of `SpscRingBuffer` as a client calls them, on a segment and on the queue that
-- specifies it.
use membridge.Common.{
  ℕ, ◌+◌, ◌-◌, ◌≡◌, refl, sym, ap, ap₂, ◌∙◌, Bool, String, Option, List, [], ◌∷◌, length, leb, ◌==◌,
  arith, ne→==,
}
use membridge.Error.{PyResult, ok, err}
use membridge.Codec.Value.{Runtime, Value, PyObject}
use membridge.Codec.Pack.{pack_item}
use membridge.Codec.Mixed.{SchemaEntry}
use membridge.Fifo
use membridge.Fifo.{Message, Queue}
use membridge.Ring.{
  Segment, push, pop, pop_mixed, push_packed, push_payload, publish, answer, take_frame, typed,
  grouped, used, free, is_empty, is_full,
}
use membridge.Ring.Holds.{Holds, used-size}
use membridge.Ring.Refine.{push_payload_refines}
use membridge.Ring.Take.{take_frame_refines}

pub data Call : Type 0 where
  push_call : PyObject → Call
  pop_call : Option String → Call
  pop_mixed_call : List SchemaEntry → Call
  used_call capacity_call free_call is_empty_call is_full_call : Call

pub data Reply : Type 0 where
  pushed : PyResult Bool → Reply
  popped : PyResult (Option Value) → Reply
  groups : PyResult (Option (List PyObject)) → Reply
  number : ℕ → Reply
  flag : Bool → Reply

module _ (rt : Runtime) (map_size : ℕ) where
  unfoldable pub call : Call → Segment → Reply × Segment
  unfolding push pop pop_mixed
  call (push_call o) m = let (r, m') = push rt map_size o m in (pushed r, m')
  call (pop_call tag) m = let (r, m') = pop rt tag m in (popped r, m')
  call (pop_mixed_call schema) m = let (r, m') = pop_mixed rt schema m in (groups r, m')
  call used_call m = (number (used m), m)
  call capacity_call m = (number m.capacity, m)
  call free_call m = (number (free m), m)
  call is_empty_call m = (flag (is_empty m), m)
  call is_full_call m = (flag (is_full m), m)

  unfoldable pub run : List Call → Segment → List Reply
  unfolding call
  run [] m = []
  run (c ∷ cs) m = let (r, m') = call c m in r ∷ run cs m'

  -- The same calls on the queue: a value is packed and pushed, a message popped and read.
  module _ (cap : ℕ) where
    spec_push : PyResult Message → Queue → PyResult Bool × Queue
    spec_push (ok payload) q = Fifo.push map_size cap payload q
    spec_push (err e) q = (err e, q)

    spec_read {ℓ} :
        {A : Type ℓ} → (Message → PyResult (Option A)) → Queue → PyResult (Option A) × Queue
    unfolding answer
    spec_read read q = let (message, q') = Fifo.pop q in (answer read message, q')

    unfoldable pub spec_call : Call → Queue → Reply × Queue
    unfolding spec_push spec_read
    spec_call (push_call o) q = let (r, q') = spec_push (pack_item rt o []) q in (pushed r, q')
    spec_call (pop_call tag) q = let (r, q') = spec_read (λ p. typed rt p tag) q in (popped r, q')
    spec_call (pop_mixed_call schema) q =
        let (r, q') = spec_read (λ p. grouped rt p schema) q in (groups r, q')
    spec_call used_call q = (number (Fifo.size q), q)
    spec_call capacity_call q = (number cap, q)
    spec_call free_call q = (number (cap - Fifo.size q), q)
    spec_call is_empty_call q = (flag (Fifo.size q == 0), q)
    spec_call is_full_call q = (flag (leb cap (Fifo.size q)), q)

    unfoldable pub spec_run : List Call → Queue → List Reply
    unfolding spec_call
    spec_run [] q = []
    spec_run (c ∷ cs) q = let (r, q') = spec_call c q in r ∷ spec_run cs q'

  push_packed_refines :
      (r : PyResult Message) {m : Segment} (q : Queue)
      → Holds rt m q
      → let (answered, m') = push_packed rt map_size r m in
        let (expected, q') = spec_push m.capacity r q in (answered ≡ expected) × Holds rt m' q'
  unfolding push_packed spec_push
  push_packed_refines (ok payload) q h = push_payload_refines rt h map_size payload
  push_packed_refines (err e) q h = (refl, h)

  is_empty-size : {m : Segment} (q : Queue) → Holds rt m q → is_empty m ≡ (Fifo.size q == 0)
  unfolding is_empty
  is_empty-size [] h = ground (arith, h.tail_at, h.head_lt)
  is_empty-size {m} (p ∷ q) h =
      rw (ne→== m.head m.tail (omega (arith, h.tail_at, h.head_lt, h.fits, h.narrow)))
        (sym (ne→== (4 + length p + Fifo.size q) 0 (omega arith)))

  -- On a segment that holds a queue, each method answers as the bounded queue does, on every branch,
  -- errors included, and leaves the segment holding the queue that the specification leaves.
  pub call_refines :
      (c : Call) {m : Segment} (q : Queue)
      → Holds rt m q
      → let (r, m') = call c m in
        let (expected, q') = spec_call m.capacity c q in (r ≡ expected) × Holds rt m' q'
  unfolding call spec_call
  call_refines (push_call o) q h =
      let (same, held) = push_packed_refines (pack_item rt o []) q h in (ap pushed same, held)
  call_refines (pop_call tag) q h =
      let (same, held) = take_frame_refines rt q h in
      (ap (λ f. popped (answer (λ p. typed rt p tag) f)) same, held)
  call_refines (pop_mixed_call schema) q h =
      let (same, held) = take_frame_refines rt q h in
      (ap (λ f. groups (answer (λ p. grouped rt p schema) f)) same, held)
  call_refines used_call q h = (ap number (used-size rt q h), h)
  call_refines capacity_call q h = (refl, h)
  call_refines free_call {m} q h =
      (unfold free in ap (λ n. number (m.capacity - n)) (used-size rt q h), h)
  call_refines is_empty_call q h = (ap flag (is_empty-size q h), h)
  call_refines is_full_call {m} q h =
      (unfold is_full in ap (λ n. flag (leb m.capacity n)) (used-size rt q h), h)

  capacity-publish :
      (payload : Message) (m : Segment) → (publish rt payload m).capacity ≡ m.capacity
  unfolding publish
  capacity-publish payload m = refl

  capacity-push_packed :
      (r : PyResult Message) (m : Segment) → (push_packed rt map_size r m).1.capacity ≡ m.capacity
  unfolding push_packed push_payload
  capacity-push_packed (ok payload) m = ground (arith, capacity-publish payload m)
  capacity-push_packed (err e) m = refl

  capacity-take_frame : (m : Segment) → (take_frame rt m).1.capacity ≡ m.capacity
  unfolding take_frame
  capacity-take_frame m = ground arith

  pub capacity-call : (c : Call) (m : Segment) → (call c m).1.capacity ≡ m.capacity
  unfolding call
  capacity-call (push_call o) m = capacity-push_packed (pack_item rt o []) m
  capacity-call (pop_call tag) m = capacity-take_frame m
  capacity-call (pop_mixed_call schema) m = capacity-take_frame m
  capacity-call used_call m = refl
  capacity-call capacity_call m = refl
  capacity-call free_call m = refl
  capacity-call is_empty_call m = refl
  capacity-call is_full_call m = refl

  -- On a segment that holds a queue, any sequence of calls, one at a time, is answered as the bounded
  -- queue of messages answers it.
  pub run_refines :
      (cs : List Call) {m : Segment} (q : Queue)
      → Holds rt m q
      → run cs m ≡ spec_run m.capacity cs q
  unfolding run spec_run
  run_refines [] q h = refl
  run_refines (c ∷ cs) {m} q h =
      let (same, held) = call_refines c q h in
      ap₂ ◌∷◌ same (
        run_refines cs _ held
        ∙ ap (λ k. spec_run k cs (spec_call m.capacity c q).1) (capacity-call c m))
