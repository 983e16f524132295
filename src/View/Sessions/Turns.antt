-- ===== src/View/Sessions/Turns.antt =====
-- The invariant of the calls through one access.
use membridge.Common.{
  ℕ, ◌<◌, ◌≡◌, inl, inr, sym, ap, ap₂, subst, ◌∙◌, some, List, arith, length, set-get_or, false,
  ltb,
}
use membridge.Codec.Value.{Runtime}
use membridge.View.{copy_into, slice}
use membridge.View.Bodies.{length-copy_into}
use membridge.View.Processes
use membridge.View.Processes.{
  Pc, outside, reader_spin, reader_loaded, copying, writer_spin, storing, Event, quiet, answered,
  stored, copy_out, copy_in, InBounds,
}
use membridge.View.Processes.Projection.{thread, length-fire}
use membridge.View.Processes.Invariant.{replay, replay-append}
use membridge.View.Processes.Steps.{self-Stands, copied-slice}
use membridge.View.Sessions.{User, System, turn, opened, user, turned, fire}
use membridge.View.Sessions.Moves.{
  Mapped, standing, in_one_go, lt_below, below_inv, thread-fire_self, thread-fire_ne, moved-Inv,
  returned-Inv,
}
use membridge.View.Sessions.Outcomes.{written-fire, turned-quiet, turned-answered, turned-stored}
use membridge.View.Sessions.Plans.{carry_out}
use membridge.View.Sessions.Invariant.{free, Executes, Reads, Writes, Agrees, advance-Ends, Inv}

module _ (rt : Runtime) {size n : ℕ} {area : List ℕ} (mapped : Mapped size n area) {s : System}
    (inv : Inv rt size n area s) (i : ℕ) (lt : i < length s.users) where
  abbrev advanced : Processes.System
  advanced = Processes.fire (opened size).view i Processes.turn s.below

  reached : Processes.Reach (opened size).view n area advanced
  reached = Processes.later i Processes.turn (lt_below rt mapped inv i lt) tt inv.reached

  thread-advanced : thread advanced i ≡ (Processes.advance s.below.mem (thread s.below i)).1
  unfolding Processes.act
  thread-advanced = thread-fire_self rt mapped inv i lt Processes.turn

  -- The accesses that end no call.
  quiet-Inv :
      (Processes.advance s.below.mem (thread s.below i)).2 ≡ quiet
      → ((w : User)
          → Agrees rt w (thread s.below i)
          → Agrees rt w (Processes.advance s.below.mem (thread s.below i)).1)
      → Inv rt size n area (record s { below = advanced })
  quiet-Inv same keeps =
      let written = written-fire (opened size).view i s.below same in
      subst (λ l. Inv rt size n area (record s { below = advanced; users = l }))
        (set-get_or s.users i (opened size))
        (moved-Inv rt mapped inv i lt advanced (user rt size s i) s.history reached
          (length-fire (opened size).view i Processes.turn s.below)
          (ap (λ w. length (replay w area)) written ∙ inv.sized)
          (subst (λ w. Executes rt s.history area (replay w area)) (sym written) inv.linear)
          (inv.valid i lt)
          (subst (Agrees rt (user rt size s i)) (sym thread-advanced)
            (keeps (user rt size s i) (inv.agrees i lt)))
          (thread-fire_ne rt mapped inv i lt Processes.turn))

  answered-Inv :
      (pos len : ℕ) (got : List ℕ)
      → thread s.below i ≡ copying pos len got
      → ltb (length got) len ≡ false
      → (Processes.advance s.below.mem (thread s.below i)).2 ≡ answered pos len got
      → (Processes.advance s.below.mem (thread s.below i)).1 ≡ outside
      → Inv rt size n area (
          turned rt size i
            (user rt size s i)
            (answered pos len got)
            (record s { below = advanced }))
  answered-Inv pos len got at_copy over same at_rest =
      let (c, k, busy, planned) : Reads rt (user rt size s i) pos len =
        subst (Agrees rt (user rt size s i)) at_copy (inv.agrees i lt) in
      let written : advanced.written ≡ s.below.written =
        written-fire (opened size).view i s.below same in
      let shown : got ≡ slice (standing area s) pos len =
        copied-slice mapped.few inv.reached (below_inv rt mapped inv i lt) i
          (lt_below rt mapped inv i lt) pos len got at_copy over in
      subst (Inv rt size n area)
        (sym (
          turned-answered rt size i (user rt size s i) pos len got (record s { below = advanced })
            busy planned))
        (returned-Inv rt mapped inv i lt advanced c (k got).0 (k got).1 reached
          (length-fire (opened size).view i Processes.turn s.below)
          (ap (λ w. length (replay w area)) written ∙ inv.sized)
          (in_one_go rt mapped inv i lt c
            ∙ ap (λ p. carry_out p (free (standing area s))) planned
            ∙ unfold carry_out in
              ap₂ (λ bs w. some ((k bs).0, (k bs).1, free (replay w area))) (sym shown)
                (sym written))
          (thread-advanced ∙ at_rest) (thread-fire_ne rt mapped inv i lt Processes.turn))

  stored-Inv :
      (pos : ℕ) (packed : List ℕ) (j : ℕ)
      → thread s.below i ≡ storing pos packed j
      → (Processes.advance s.below.mem (thread s.below i)).2 ≡ stored pos packed
      → (Processes.advance s.below.mem (thread s.below i)).1 ≡ outside
      → Inv rt size n area
          (turned rt size i (user rt size s i) (stored pos packed) (record s { below = advanced }))
  stored-Inv pos packed j at_store same at_rest =
      let (c, result, v', busy, planned) : Writes rt (user rt size s i) pos packed =
        subst (Agrees rt (user rt size s i)) at_store (inv.agrees i lt) in
      let written : replay advanced.written area ≡ copy_into (standing area s) pos packed =
        ap (λ w. replay w area) (written-fire (opened size).view i s.below same)
        ∙ replay-append s.below.written (record { pos = pos; packed = packed }) area in
      let (fits, _, _, _) =
        self-Stands mapped.few inv.reached (below_inv rt mapped inv i lt) i
          (lt_below rt mapped inv i lt) at_store in
      subst (Inv rt size n area)
        (sym (
          turned-stored rt size i (user rt size s i) pos packed (record s { below = advanced }) busy
            planned))
        (returned-Inv rt mapped inv i lt advanced c result v' reached
          (length-fire (opened size).view i Processes.turn s.below)
          (ap length written
            ∙ length-copy_into (standing area s) pos packed
                (omega (arith, fits, (below_inv rt mapped inv i lt).sized, inv.sized))
            ∙ inv.sized)
          (in_one_go rt mapped inv i lt c
            ∙ ap (λ p. carry_out p (free (standing area s))) planned
            ∙ unfold carry_out in ap (λ l. some (result, v', free l)) (sym written))
          (thread-advanced ∙ at_rest) (thread-fire_ne rt mapped inv i lt Processes.turn))

  pub turn-Inv : Inv rt size n area (fire rt size i turn s)
  unfolding fire
  turn-Inv = elim (advance-Ends rt s.below.mem (thread s.below i)) [
    | inl (same, keeps) ↦
        subst
          (λ e.
            Inv rt size n area
              (turned rt size i (user rt size s i) e (record s { below = advanced })))
          (sym same)
          (subst (Inv rt size n area)
            (sym (turned-quiet rt size i (user rt size s i) (record s { below = advanced })))
            (quiet-Inv same keeps))
    | inr (inl (pos, len, got, at_copy, over, same, at_rest)) ↦
        subst
          (λ e.
            Inv rt size n area
              (turned rt size i (user rt size s i) e (record s { below = advanced })))
          (sym same) (answered-Inv pos len got at_copy over same at_rest)
    | inr (inr (pos, packed, j, at_store, same, at_rest)) ↦
        subst
          (λ e.
            Inv rt size n area
              (turned rt size i (user rt size s i) e (record s { below = advanced })))
          (sym same) (stored-Inv pos packed j at_store same at_rest)
  ]
