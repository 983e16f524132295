-- ===== src/View/Processes/Alone.antt =====
-- Turns of one process in a row.
use membridge.Common.{
  ℕ, zero, suc, ◌<◌, ◌≡◌, refl, sym, ap, ◌∙◌, List, ◌∷◌, length, set, replicate, get_or-set_self,
  set-set, set-get_or,
}
use membridge.Lock.Threads.{Shared}
use membridge.View.{View, Segment}
use membridge.View.Processes.{
  Call, Pc, outside, Write, Answer, System, Event, quiet, Action, call, turn, begin, advance, act,
  note, fire, run,
}
use membridge.View.Processes.Projection.{thread}

-- The same bytes, for the processes and for the methods.
abbrev pub segment : Shared → Segment
segment m = record { word = m.word; area = m.area }

abbrev pub shared : Segment → Shared
shared m = record { word = m.word; area = m.area }

abbrev pub turns : ℕ → ℕ → List (ℕ × Action)
turns i n = replicate n (i, turn)

-- The system with process `i` elsewhere.
abbrev pub placed : System → ℕ → Shared → Pc → List Write → List Answer → System
placed s i m p written answers = record {
  mem = m;
  pcs = set s.pcs i p;
  written = written;
  answers = answers;
}

module _ (v : View) (s : System) (i : ℕ) (lt : i < length s.pcs)
    (at_rest : thread s i ≡ outside) where
  pub placed-outside :
      (m : Shared) (written : List Write) (answers : List Answer)
      → placed s i m outside written answers
        ≡ record { mem = m; pcs = s.pcs; written = written; answers = answers }
  placed-outside m written answers =
      ap (λ l. record { mem = m; pcs = l; written = written; answers = answers })
        (ap (λ q. set s.pcs i q) (sym at_rest) ∙ set-get_or s.pcs i outside)

  pub fire-placed :
      (m : Shared) (p : Pc) (written : List Write) (answers : List Answer)
      → fire v i turn (placed s i m p written answers)
        ≡ (let (m', p', e) = advance m p in note e (placed s i m' p' written answers))
  unfolding fire act
  fire-placed m p written answers =
      ap (λ q. landed (set s.pcs i p) (advance m q)) (get_or-set_self s.pcs i p outside lt)
      ∙ ap
          (λ l.
            note (advance m p).2
              (record { mem = (advance m p).0; pcs = l; written = written; answers = answers }))
          (set-set s.pcs i p (advance m p).1)
    where
      landed : List Pc → Shared × Pc × Event → System
      landed l (m', p', e) =
          note e (record { mem = m'; pcs = set l i p'; written = written; answers = answers })

  -- One turn of several.
  pub run_turn :
      (n : ℕ) (m : Shared) (p : Pc) (written : List Write) (answers : List Answer)
      (t : Shared × Pc × Event)
      → advance m p ≡ t
      → run v (turns i (suc n)) (placed s i m p written answers)
        ≡ (let (m', p', e) = t in run v (turns i n) (note e (placed s i m' p' written answers)))
  unfolding run
  run_turn n m p written answers t outcome = ap (run v (turns i n)) (
      fire-placed m p written answers
      ∙ ap (λ (u : Shared × Pc × Event). note u.2 (placed s i u.0 u.1 written answers)) outcome)

  pub run_idle :
      (n : ℕ) (m : Shared) (written : List Write) (answers : List Answer)
      → run v (turns i n) (placed s i m outside written answers)
        ≡ placed s i m outside written answers
  unfolding run advance note
  run_idle zero m written answers = refl
  run_idle (suc n) m written answers =
      run_turn n m outside written answers (m, outside, quiet) refl ∙ run_idle n m written answers

  pub run-call :
      (c : Call) (schedule : List (ℕ × Action))
      → run v ((i, call c) ∷ schedule) s
        ≡ run v schedule (placed s i s.mem (begin v c outside) s.written s.answers)
  unfolding run fire act note
  run-call c schedule =
      ap (λ q. run v schedule (placed s i s.mem (begin v c q) s.written s.answers)) at_rest
