-- ===== src/View/Sessions/Schedules.antt =====
-- The schedules that lead to a reachable state.
use membridge.Common.{
  ℕ, ◌≡◌, refl, Bool, true, ◌&&◌, inl, inr, List, [], ◌∷◌, length, length-set, ltb, ltb→lt,
  Bool-cases,
}
use membridge.Error.{PyResult, ok}
use membridge.Codec.Value.{Runtime}
use membridge.View.{View}
use membridge.View.Methods.{Method, Reply}
use membridge.View.Processes.{Event, answered, stored}
use membridge.View.Sessions.{
  Plan, unguarded, observes, reader, writer, plan, System, Action, call, turn, user, return, engage,
  begin, leave, called, turned, fire, run, Reach, later,
}
use membridge.View.Sessions.Outcomes.{Option-cases}

module _ (rt : Runtime) (size : ℕ) where
  length-return :
      (i : ℕ) (c : Method) (v : View) (t : PyResult Reply × View) (s : System)
      → length (return rt size i c v t s).users ≡ length s.users
  unfolding return
  length-return i c v (result, v') s = length-set s.users i _

  length-begin :
      (i : ℕ) (c : Method) (v : View) (p : Plan) (s : System)
      → length (begin rt size i c v p s).users ≡ length s.users
  unfolding begin engage
  length-begin i c v (unguarded result v') s = length-return i c v (result, v') s
  length-begin i c v (observes f v') s = length-return i c v (ok (f s.below.mem.word), v') s
  length-begin i c v (reader pos len k) s = length-set s.users i _
  length-begin i c v (writer pos packed result v') s = length-set s.users i _

  length-leave :
      (i : ℕ) (c : Method) (v : View) (p : Plan) (e : Event) (s : System)
      → length (leave rt size i c v p e s).users ≡ length s.users
  unfolding leave
  length-leave i c v (reader pos len k) (answered _ _ bs) s = length-return i c v (k bs) s
  length-leave i c v (writer pos packed result v') (stored _ _) s =
      length-return i c v (result, v') s
  length-leave i c v p e s = refl

  length-fire :
      (i : ℕ) (a : Action) (s : System) → length (fire rt size i a s).users ≡ length s.users
  unfolding fire called turned
  length-fire i (call c) s = elim (Option-cases (user rt size s i).calling) [
    | inl nothing ↦
        rw (called, nothing)
          (length-begin i c (user rt size s i).view (plan rt c (user rt size s i).view) s)
    | inr (d, busy) ↦ rw (called, busy) refl
  ]
  length-fire i turn s = elim (Option-cases (user rt size s i).calling) [
    | inl nothing ↦ rw (turned, nothing) refl
    | inr (c, busy) ↦ rw (turned, busy) (length-leave i c _ _ _ _)
  ]

  -- Whether each action is one of the first `n` processes'.
  abbrev pub inside : ℕ → List (ℕ × Action) → Bool
  inside n [] = true
  inside n ((i, a) ∷ rest) = ltb i n && inside n rest

  pub run-Reach :
      {n : ℕ} {area : List ℕ} (schedule : List (ℕ × Action)) (s : System)
      → Reach rt size n area s
      → inside (length s.users) schedule ≡ true
      → Reach rt size n area (run rt size schedule s)
  unfolding run
  run-Reach [] s r h = r
  run-Reach ((i, a) ∷ rest) s r h = elim (Bool-cases (ltb i (length s.users))) [
    | inl lt ↦
        run-Reach rest (fire rt size i a s) (later i a (ltb→lt i (length s.users) lt) r)
          (rw (length-fire i a s) (rw lt at h))
    | inr ge ↦ absurd (let h' = rw ge at h in cc)
  ]
