-- ===== src/View/Sessions/Completes.antt =====
-- A process that is alone with the segment does what each method does in one go.
use membridge.Common.{
  ℕ, ◌<◌, ◌≡◌, arith, refl, sym, ap, ap₂, ◌∙◌, some, none, List, [], ◌∷◌, ◌++◌, length, set,
  set-set,
}
use membridge.Error.{PyResult, ok}
use membridge.Codec.Value.{Runtime}
use membridge.Lock.Threads.{Shared}
use membridge.View.{View, Segment, data_size, copy_into, slice}
use membridge.View.Valid.{IsValid}
use membridge.View.Methods.{Method, Reply, invoke}
use membridge.View.Processes
use membridge.View.Processes.{
  Pc, outside, reader_spin, writer_spin, Event, answered, stored, copy_out, copy_in,
}
use membridge.View.Processes.Alone.{segment, shared, placed, placed-outside, run-call}
use membridge.View.Processes.Projection.{thread}
use membridge.View.Sessions.{
  Plan, unguarded, observes, reader, writer, plan, System, call, opened, user, return, engage,
  begin, called, fire, run,
}
use membridge.View.Sessions.Alone.{accesses, turns, inside, busy, over, reader_alone, writer_alone}
use membridge.View.Sessions.Plans.{carry_out, plan-invoke, Fits, plan-Fits}

module _ (rt : Runtime) (size : ℕ) (s : System) (i : ℕ) (lt : i < length s.users)
    (lt_below : i < length s.below.pcs) (at_rest : thread s.below i ≡ outside)
    (idle : (user rt size s i).calling ≡ none) (unlocked : s.below.mem.word ≡ 0) (c : Method) where
  abbrev view : View
  view = (user rt size s i).view

  fire-call : fire rt size i (call c) s ≡ begin rt size i c view (plan rt c view) s
  unfolding fire called
  fire-call = rw (called, idle) refl

  engaged :
      (guarded : Processes.Call) (p : Pc)
      → Processes.begin (opened size).view guarded outside ≡ p
      → engage rt size i c view guarded s
        ≡ inside rt size s i lt lt_below at_rest
            (busy rt size s i lt lt_below at_rest c view)
            (record { word = 0; area = s.below.mem.area })
            p
  unfolding engage Processes.run
  engaged guarded p begun =
      ap
        (λ b. record s {
          below = b;
          users = set s.users i (busy rt size s i lt lt_below at_rest c view);
        })
        (run-call (opened size).view s.below i lt_below at_rest guarded []
          ∙ ap₂
              (λ w q.
                placed s.below i (record { word = w; area = s.below.mem.area }) q s.below.written
                  s.below.answers)
              unlocked begun)

  -- A call that is over, with process `i` where it was.
  abbrev ended : Shared → List Processes.Write → List Processes.Answer → Processes.System
  ended m written answers = record {
    mem = m;
    pcs = s.below.pcs;
    written = written;
    answers = answers;
  }

  returned :
      (r : PyResult Reply × View) (b b' : Processes.System)
      → b ≡ b'
      → return rt size i c view r (record s {
        below = b;
        users = set s.users i (busy rt size s i lt lt_below at_rest c view);
      })
        ≡ return rt size i c view r (record s { below = b' })
  unfolding return
  returned r b b' same =
      ap₂
        (λ l b. record {
          below = b;
          users = l;
          history =
              s.history
              ++ (record { by = i; method = c; before = view; result = r.0; after = r.1 } ∷ []);
        })
        (set-set s.users i (busy rt size s i lt lt_below at_rest c view)
          (record { view = r.1; calling = none }))
        same

  -- What a call that was planned as `p` has done behind its last access.
  abbrev Ended : Plan → Type 0
  Ended p =
      (result : PyResult Reply) × (v' : View) × (m' : Segment) × (carry_out p (segment s.below.mem)
        ≡ some (result, v', m'))
      × (b : Processes.System) × (run rt size ((i, call c) ∷ turns i (accesses p)) s
          ≡ return rt size i c view (result, v') (record s { below = b }))
      × (b.mem ≡ shared m')
      × (b.pcs ≡ s.below.pcs)

  run-turns :
      (n : ℕ) {p : Plan}
      → plan rt c view ≡ p
      → run rt size ((i, call c) ∷ turns i n) s
        ≡ run rt size (turns i n) (begin rt size i c view p s)
  unfolding run
  run-turns n planned =
      ap (run rt size (turns i n)) (fire-call ∙ ap (λ p. begin rt size i c view p s) planned)

  begun :
      (n : ℕ) (guarded : Processes.Call) (q : Pc)
      → Processes.begin (opened size).view guarded outside ≡ q
      → run rt size (turns i n) (engage rt size i c view guarded s)
        ≡ run rt size (turns i n) (
            inside rt size s i lt lt_below at_rest
              (busy rt size s i lt lt_below at_rest c view)
              (record { word = 0; area = s.below.mem.area })
              q)
  begun n guarded q e = ap (run rt size (turns i n)) (engaged guarded q e)

  answered_over :
      (r : PyResult Reply × View) (pos len : ℕ) (bs : List ℕ)
      → over rt size s i lt lt_below at_rest c view r
          (record { word = 0; area = s.below.mem.area })
          (answered pos len bs)
        ≡ return rt size i c view r (record s {
          below = ended s.below.mem s.below.written (
              s.below.answers
              ++ (record { offset = pos; len = len; data_read = bs; seen = s.below.written } ∷ []));
        })
  unfolding Processes.note
  answered_over r pos len bs = returned r _ _ (
      placed-outside (opened size).view s.below i lt_below at_rest
        (record { word = 0; area = s.below.mem.area }) s.below.written
        (s.below.answers
          ++ (record { offset = pos; len = len; data_read = bs; seen = s.below.written } ∷ []))
      ∙ ap
          (λ w.
            ended (record { word = w; area = s.below.mem.area }) s.below.written
              (s.below.answers
                ++ (record { offset = pos; len = len; data_read = bs; seen = s.below.written }
                    ∷ [])))
          (sym unlocked))

  stored_over :
      (r : PyResult Reply × View) (pos : ℕ) (packed : List ℕ)
      → over rt size s i lt lt_below at_rest c view r
          (record { word = 0; area = copy_into s.below.mem.area pos packed })
          (stored pos packed)
        ≡ return rt size i c view r (record s {
          below =
              ended
                (record { word = s.below.mem.word; area = copy_into s.below.mem.area pos packed })
                (s.below.written ++ (record { pos = pos; packed = packed } ∷ []))
                s.below.answers;
        })
  unfolding Processes.note
  stored_over r pos packed = returned r _ _ (
      placed-outside (opened size).view s.below i lt_below at_rest
        (record { word = 0; area = copy_into s.below.mem.area pos packed })
        (s.below.written ++ (record { pos = pos; packed = packed } ∷ [])) s.below.answers
      ∙ ap
          (λ w.
            ended (record { word = w; area = copy_into s.below.mem.area pos packed })
              (s.below.written ++ (record { pos = pos; packed = packed } ∷ [])) s.below.answers)
          (sym unlocked))

  planned-Ended :
      (p : Plan)
      → plan rt c view ≡ p
      → Fits view p
      → length s.below.mem.area ≡ data_size view
      → Ended p
  unfolding begin carry_out Processes.begin
  planned-Ended (unguarded result v') planned fits sized = (
    result,
    v',
    segment s.below.mem,
    refl,
    s.below,
    run-turns 0 planned ∙ (unfold run in refl),
    refl,
    refl,
  )
  planned-Ended (observes f v') planned fits sized = (
    ok (f s.below.mem.word),
    v',
    segment s.below.mem,
    refl,
    s.below,
    run-turns 0 planned ∙ (unfold run in refl),
    refl,
    refl,
  )
  planned-Ended (reader pos len k) planned fits sized =
      let bs = slice s.below.mem.area pos len in
      (
        (k bs).0,
        (k bs).1,
        segment s.below.mem,
        refl,
        _,
        run-turns (accesses (reader pos len k)) planned
            ∙ begun (accesses (reader pos len k)) (copy_out pos len) (reader_spin pos len) refl
            ∙ reader_alone rt size s i lt lt_below at_rest c view pos len s.below.mem.area planned
                (omega (arith, fits, sized))
            ∙ answered_over (k bs) pos len bs,
        refl,
        refl,
      )
  planned-Ended (writer pos packed result v') planned fits sized = (
    result,
    v',
    record { word = s.below.mem.word; area = copy_into s.below.mem.area pos packed },
    refl,
    _,
    run-turns (accesses (writer pos packed result v')) planned
        ∙ begun (accesses (writer pos packed result v')) (copy_in pos packed)
            (writer_spin pos packed) refl
        ∙ writer_alone rt size s i lt lt_below at_rest c view pos s.below.mem.area packed planned
            (omega (arith, fits, sized))
        ∙ stored_over (result, v') pos packed,
    refl,
    refl,
  )

  -- Where process `i` is in no call, the lock is free, its view is valid for the segment and no other
  -- process takes a turn: any method that it calls, given one turn for each access that it plans, is
  -- over; it has returned what the method returns in one go and left the view and the segment that it
  -- leaves, its result is noted, and every other process is where it was.
  pub call_alone :
      (spins : ℕ)
      → 0 < spins
      → IsValid view (segment s.below.mem)
      → (result : PyResult Reply) × (v' : View) × (m' : Segment) × (invoke rt spins c view
            (segment s.below.mem)
          ≡ some (result, v', m'))
        × (b : Processes.System) × (run rt size
              ((i, call c) ∷ turns i (accesses (plan rt c view)))
              s
            ≡ return rt size i c view (result, v') (record s { below = b }))
        × (b.mem ≡ shared m')
        × (b.pcs ≡ s.below.pcs)
  call_alone spins some_fuel valid =
      let (result, v', m', done, b, ran, mem, pcs) =
        planned-Ended (plan rt c view) refl (plan-Fits rt view valid c) valid.sized in
      (
        result,
        v',
        m',
        plan-invoke rt spins (segment s.below.mem) some_fuel unlocked c view ∙ done,
        b,
        ran,
        mem,
        pcs,
      )
