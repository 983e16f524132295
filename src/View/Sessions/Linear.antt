-- ===== src/View/Sessions/Linear.antt =====
-- Calls that overlap give what the same calls give one after the other.
use membridge.Common.{
  ℕ, ◌-◌, ◌<◌, ◌≡◌, ◌^◌, ◌⊎◌, inl, inr, refl, sym, ap, subst, ◌∙◌, some, List, arith, length,
  get_or, replicate, length-replicate, get_or-replicate,
}
use membridge.Error.{ok}
use membridge.Codec.Value.{Runtime}
use membridge.Lock.Threads.{writing}
use membridge.View.Valid.{IsValid}
use membridge.View.Methods.{Method}
use membridge.View.Processes
use membridge.View.Processes.{
  Pc, outside, reader_spin, reader_loaded, copying, writer_spin, storing, Event, quiet, answered,
  stored, copy_out, copy_in, InBounds,
}
use membridge.View.Processes.Projection.{thread, phase, length-fire}
use membridge.View.Processes.Invariant.{replay}
use membridge.View.Processes.Snapshots.{Reach-Inv}
use membridge.View.Sessions.{
  Plan, unguarded, observes, reader, writer, plan, System, call, turn, opened, user, return, engage,
  begin, called, fire, start, Reach, initial, later,
}
use membridge.View.Sessions.Moves.{
  Mapped, standing, in_one_go, lt_below, thread-fire_self, thread-fire_ne, moved-Inv, answered-Inv,
  returned-Inv,
}
use membridge.View.Sessions.Outcomes.{Option-cases, idle_outside}
use membridge.View.Sessions.Turns.{turn-Inv}
use membridge.View.Sessions.Observers.{plan-observes}
use membridge.View.Sessions.Plans.{carry_out, Fits, plan-Fits}
use membridge.View.Sessions.Invariant.{free, Executes, Agrees, Inv}

module _ (rt : Runtime) {size n : ℕ} {area : List ℕ} (mapped : Mapped size n area) {s : System}
    (inv : Inv rt size n area s) (i : ℕ) (lt : i < length s.users) where
  -- A process that is in no call goes into its guard.
  engage-Inv :
      (c : Method) (guarded : Processes.Call)
      → InBounds (opened size).view (Processes.call guarded)
      → Agrees rt
          (record { view = (user rt size s i).view; calling = some c })
          (Processes.begin (opened size).view guarded (thread s.below i))
      → Inv rt size n area (engage rt size i c (user rt size s i).view guarded s)
  unfolding engage Processes.fire Processes.act Processes.note
  engage-Inv c guarded fits agrees =
      moved-Inv rt mapped inv i lt
        (Processes.fire (opened size).view i (Processes.call guarded) s.below)
        (record { view = (user rt size s i).view; calling = some c }) s.history
        (Processes.later i (Processes.call guarded) (lt_below rt mapped inv i lt) fits inv.reached)
        (length-fire (opened size).view i (Processes.call guarded) s.below) inv.sized inv.linear
        (inv.valid i lt)
        (subst (Agrees rt (record { view = (user rt size s i).view; calling = some c }))
          (sym (thread-fire_self rt mapped inv i lt (Processes.call guarded))) agrees)
        (thread-fire_ne rt mapped inv i lt (Processes.call guarded))

  begin-Inv :
      (c : Method) (p : Plan)
      → thread s.below i ≡ outside
      → plan rt c (user rt size s i).view ≡ p
      → Inv rt size n area (begin rt size i c (user rt size s i).view p s)
  unfolding begin Processes.begin
  begin-Inv c (unguarded result v') at_rest planned =
      returned-Inv rt mapped inv i lt s.below c result v' inv.reached refl inv.sized
        (in_one_go rt mapped inv i lt c
          ∙ ap (λ p. carry_out p (free (standing area s))) planned
          ∙ (unfold carry_out in refl))
        at_rest (λ j ne. refl)
  begin-Inv c (observes f v') at_rest planned =
      let (looks, same, told) = plan-observes rt c (user rt size s i).view planned in
      subst
        (λ w.
          Inv rt size n area
            (return rt size i c (user rt size s i).view (ok (f s.below.mem.word), w) s))
        same
        (answered-Inv rt mapped inv i lt s.below c (ok (f s.below.mem.word)) (user rt size s i).view
          inv.reached refl inv.sized
          (
            s.below.mem.word,
            inr looks,
            told (record { word = s.below.mem.word; area = standing area s }),
          )
          (inv.valid i lt) at_rest (λ j ne. refl))
  begin-Inv c (reader pos len k) at_rest planned =
      let fits =
        subst (Fits (user rt size s i).view) planned
          (plan-Fits rt (user rt size s i).view (inv.valid i lt) c) in
      engage-Inv c (copy_out pos len) (omega (arith, fits, (inv.valid i lt).sized, mapped.exact))
        (rw at_rest (c, k, refl, planned))
  begin-Inv c (writer pos packed result v') at_rest planned =
      let fits =
        subst (Fits (user rt size s i).view) planned
          (plan-Fits rt (user rt size s i).view (inv.valid i lt) c) in
      engage-Inv c (copy_in pos packed) (omega (arith, fits, (inv.valid i lt).sized, mapped.exact))
        (rw at_rest (c, result, v', refl, planned))

  call-Inv : (c : Method) → Inv rt size n area (fire rt size i (call c) s)
  unfolding fire called
  call-Inv c = elim (Option-cases (user rt size s i).calling) [
    | inl nothing ↦
        rw (called, nothing)
          (begin-Inv c (plan rt c (user rt size s i).view)
            (idle_outside rt size (user rt size s i) (thread s.below i) (inv.agrees i lt) nothing)
            refl)
    | inr (d, busy) ↦ rw (called, busy) inv
  ]

module _ (rt : Runtime) {size n : ℕ} {area : List ℕ} (mapped : Mapped size n area) where
  start-Inv : Inv rt size n area (start rt size n area)
  start-Inv = record {
    reached = Processes.initial;
    counted = length-replicate n (opened size) ∙ sym (length-replicate n outside);
    sized = refl;
    linear = refl;
    valid = λ j hj.
        subst (λ w. IsValid w.view (free area)) (sym (get_or-replicate n (opened size) j))
          (record {
            header = mapped.header;
            limit = mapped.small;
            sized = mapped.exact;
            cursor_le = omega arith;
          });
    agrees = λ j hj.
        subst (λ w. Agrees rt w (get_or (replicate n outside) j outside))
          (sym (get_or-replicate n (opened size) j))
          (subst (Agrees rt (opened size)) (sym (get_or-replicate n outside j)) refl);
  }

  pub sessions-Inv : {s : System} → Reach rt size n area s → Inv rt size n area s
  sessions-Inv initial = start-Inv
  sessions-Inv (later {s} i turn lt r) = turn-Inv rt mapped (sessions-Inv r) i lt
  sessions-Inv (later {s} i (call c) lt r) = call-Inv rt mapped (sessions-Inv r) i lt c

-- Whatever fewer than 2 ^ 31 processes do on a segment of more than 4 and fewer than 2 ^ 63 bytes whose
-- lock is free, each through a view of its own that was just made, and between whatever accesses they
-- interleave: the calls of all methods that are over, taken one after the other in the order in which
-- they ended, each return what they returned and leave the view that they left, on a free lock, or for
-- `reader_count` and `is_write_locked`, which take no guard, on a lock with some word; and while no
-- process is inside a write guard, the area is as that sequence of calls leaves it.
pub calls_in_order :
    (rt : Runtime) {size n : ℕ} {area : List ℕ} {s : System}
    → n < 2 ^ 31
    → 4 < size
    → size < 2 ^ 63
    → length area ≡ size - 4
    → Reach rt size n area s
    → (area' : List ℕ) × Executes rt s.history area area'
      × (((j : ℕ) × (j < length s.below.pcs) × (phase (thread s.below j) ≡ writing))
          ⊎ (s.below.mem.area ≡ area'))
calls_in_order rt {size} {n} {area} {s} few header small exact r =
    let inv =
      sessions-Inv rt (record { few = few; header = header; small = small; exact = exact }) r in
    (replay s.below.written area, inv.linear, (Reach-Inv few small exact inv.reached).settled)
