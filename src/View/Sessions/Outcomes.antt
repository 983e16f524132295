-- ===== src/View/Sessions/Outcomes.antt =====
-- What an access below ends.
use membridge.Common.{
  ℕ, ◌≡◌, ◌⊎◌, inl, inr, refl, ap, ◌∙◌, Option, some, none, List, [], ◌∷◌, ◌++◌, set,
}
use membridge.Error.{PyResult}
use membridge.Codec.Value.{Runtime}
use membridge.View.{View}
use membridge.View.Methods.{Method, Reply}
use membridge.View.Processes
use membridge.View.Processes.{
  Pc, outside, reader_spin, reader_loaded, copying, writer_spin, storing, Event, quiet, answered,
  stored, copy_out, copy_in, InBounds,
}
use membridge.View.Processes.Projection.{thread}
use membridge.View.Sessions.{
  Plan, unguarded, observes, reader, writer, plan, User, System, return, leave, turned,
}
use membridge.View.Sessions.Invariant.{Agrees}

-- The writes that are over, behind an event.
abbrev pub written_after : Event → List Processes.Write → List Processes.Write
written_after (stored pos packed) written = written ++ (record { pos = pos; packed = packed } ∷ [])
written_after _ written = written

written-note :
    (e : Event) (b : Processes.System) → (Processes.note e b).written ≡ written_after e b.written
unfolding Processes.note
written-note quiet b = refl
written-note (answered offset len got) b = refl
written-note (stored pos packed) b = refl

pub written-fire :
    (v : View) (i : ℕ) (b : Processes.System) {e : Event}
    → (Processes.advance b.mem (thread b i)).2 ≡ e
    → (Processes.fire v i Processes.turn b).written ≡ written_after e b.written
unfolding Processes.fire Processes.act
written-fire v i b same =
    written-note (Processes.advance b.mem (thread b i)).2 (record b {
      mem = (Processes.advance b.mem (thread b i)).0;
      pcs = set b.pcs i (Processes.advance b.mem (thread b i)).1;
    })
    ∙ ap (λ e. written_after e b.written) same

pub Option-cases : {A : Type 0} (o : Option A) → (o ≡ none) ⊎ ((a : A) × (o ≡ some a))
Option-cases none = inl refl
Option-cases (some a) = inr (a, refl)

module _ (rt : Runtime) (size : ℕ) where
  leave-quiet :
      (i : ℕ) (c : Method) (v : View) (p : Plan) (s : System) → leave rt size i c v p quiet s ≡ s
  unfolding leave
  leave-quiet i c v (unguarded result v') s = refl
  leave-quiet i c v (observes f v') s = refl
  leave-quiet i c v (reader pos len k) s = refl
  leave-quiet i c v (writer pos packed result v') s = refl

  pub turned-quiet : (i : ℕ) (u : User) (s : System) → turned rt size i u quiet s ≡ s
  unfolding turned
  turned-quiet i u s = elim (Option-cases u.calling) [
    | inl nothing ↦ rw (turned, nothing) refl
    | inr (c, busy) ↦ rw (turned, busy) (leave-quiet i c u.view (plan rt c u.view) s)
  ]

  pub turned-answered :
      (i : ℕ) (u : User) (pos len : ℕ) (got : List ℕ) (s : System) {c : Method}
      {k : List ℕ → PyResult Reply × View}
      → u.calling ≡ some c
      → plan rt c u.view ≡ reader pos len k
      → turned rt size i u (answered pos len got) s ≡ return rt size i c u.view (k got) s
  unfolding turned leave
  turned-answered i u pos len got s busy planned = rw (turned, busy, planned) refl

  pub turned-stored :
      (i : ℕ) (u : User) (pos : ℕ) (packed : List ℕ) (s : System) {c : Method}
      {result : PyResult Reply} {v' : View}
      → u.calling ≡ some c
      → plan rt c u.view ≡ writer pos packed result v'
      → turned rt size i u (stored pos packed) s ≡ return rt size i c u.view (result, v') s
  unfolding turned leave
  turned-stored i u pos packed s busy planned = rw (turned, busy, planned) refl

  pub idle_outside : (u : User) (p : Pc) → Agrees rt u p → u.calling ≡ none → p ≡ outside
  idle_outside u outside h e = refl
  idle_outside u (reader_spin pos len) (c, k, busy, planned) e = absurd (cc)
  idle_outside u (reader_loaded pos len cur) (c, k, busy, planned) e = absurd (cc)
  idle_outside u (copying pos len got) (c, k, busy, planned) e = absurd (cc)
  idle_outside u (writer_spin pos packed) (c, result, v', busy, planned) e = absurd (cc)
  idle_outside u (storing pos packed i) (c, result, v', busy, planned) e = absurd (cc)
