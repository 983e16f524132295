-- ===== src/View/Sessions/Alone.antt =====
-- The turns of a process inside one call, while no other process takes any.
use membridge.Common.{
  ℕ, zero, suc, ◌+◌, ◌≤◌, ◌<◌, ◌≡◌, refl, sym, ap, ◌∙◌, some, List, [], ◌∷◌, ◌++◌, arith, length,
  take, drop, set, get_or, replicate, lt→ltb, le→ltb, get_or-set_self,
}
use membridge.Common.Slices.{take_all}
use membridge.Error.{PyResult}
use membridge.Codec.Value.{Runtime}
use membridge.Lock.{
  write_locked, write_exchange, compare_exchange, write_unlock, read_load, read_exchange,
  read_unlock, add_one,
}
use membridge.Lock.Threads.{Shared}
use membridge.View.{View, copy_into, slice}
use membridge.View.Copy.{copied_on, copy_into-nil, copy_into-set}
use membridge.View.Methods.{Method, Reply}
use membridge.View.Processes
use membridge.View.Processes.{
  Pc, outside, reader_spin, reader_loaded, copying, writer_spin, storing, Event, quiet, answered,
  stored, copy_out, copy_in,
}
use membridge.View.Processes.Alone.{placed, fire-placed}
use membridge.View.Processes.Projection.{thread}
use membridge.View.Sessions.{
  Plan, unguarded, observes, reader, writer, plan, User, System, Action, turn, opened, return,
  turned, fire, run,
}
use membridge.View.Sessions.Outcomes.{turned-quiet, turned-answered, turned-stored}

-- The accesses that a plan makes.
abbrev pub accesses : Plan → ℕ
accesses (unguarded result v) = 0
accesses (observes f v) = 0
accesses (reader pos len k) = suc (suc (suc len))
accesses (writer pos packed result v) = suc (suc (length packed))

abbrev pub turns : ℕ → ℕ → List (ℕ × Action)
turns i n = replicate n (i, turn)

module _ (rt : Runtime) (size : ℕ) (s : System) (i : ℕ) (lt : i < length s.users)
    (lt_below : i < length s.below.pcs) (at_rest : thread s.below i ≡ outside) where
  -- The system behind an access of process `i`, which is in the call of `u`.
  abbrev after : User → Shared × Pc × Event → System
  after u (m, p, e) = record s {
    below = Processes.note e (placed s.below i m p s.below.written s.below.answers);
    users = set s.users i u;
  }

  abbrev pub inside : User → Shared → Pc → System
  inside u m p = record s {
    below = placed s.below i m p s.below.written s.below.answers;
    users = set s.users i u;
  }

  fire-inside :
      (u : User) (m : Shared) (p : Pc)
      → fire rt size i turn (inside u m p)
        ≡ turned rt size i u (Processes.advance m p).2 (after u (Processes.advance m p))
  unfolding fire
  fire-inside u m p =
      ap
        (λ w.
          turned rt size i w (Processes.advance m (get_or (set s.below.pcs i p) i outside)).2
            (record s { below = moved; users = set s.users i u }))
        (get_or-set_self s.users i u (opened size) lt)
      ∙ ap
          (λ q.
            turned rt size i u (Processes.advance m q).2
              (record s { below = moved; users = set s.users i u }))
          (get_or-set_self s.below.pcs i p outside lt_below)
      ∙ ap
          (λ b.
            turned rt size i u (Processes.advance m p).2
              (record s { below = b; users = set s.users i u }))
          (fire-placed (opened size).view s.below i lt_below at_rest m p s.below.written
            s.below.answers)
    where
      moved : Processes.System
      moved =
          Processes.fire (opened size).view i Processes.turn
            (placed s.below i m p s.below.written s.below.answers)

  run_turn :
      (u : User) (n : ℕ) (m : Shared) (p : Pc) (t : Shared × Pc × Event)
      → Processes.advance m p ≡ t
      → run rt size (turns i (suc n)) (inside u m p)
        ≡ run rt size (turns i n) (turned rt size i u t.2 (after u t))
  unfolding run
  run_turn u n m p t outcome = ap (run rt size (turns i n)) (
      fire-inside u m p
      ∙ ap (λ (w : Shared × Pc × Event). turned rt size i u w.2 (after u w)) outcome)

  run_quiet :
      (u : User) (n : ℕ) (m m' : Shared) (p p' : Pc)
      → Processes.advance m p ≡ (m', p', quiet)
      → run rt size (turns i (suc n)) (inside u m p) ≡ run rt size (turns i n) (inside u m' p')
  unfolding Processes.note
  run_quiet u n m m' p p' outcome =
      run_turn u n m p (m', p', quiet) outcome
      ∙ ap (run rt size (turns i n)) (turned-quiet rt size i u (inside u m' p'))

  module _ (c : Method) (v : View) where
    abbrev pub busy : User
    busy = record { view = v; calling = some c }

    -- The system behind the last access of the call.
    abbrev pub over : PyResult Reply × View → Shared → Event → System
    over r m e = return rt size i c v r (after busy (m, outside, e))

    copying_turns :
        (pos len n word : ℕ) (area got : List ℕ) {k : List ℕ → PyResult Reply × View}
        → plan rt c v ≡ reader pos len k
        → pos + len ≤ length area
        → length got + n ≡ len
        → got ≡ take (length got) (drop pos area)
        → run rt size
            (turns i (suc n))
            (inside busy (record { word = word; area = area }) (copying pos len got))
          ≡ over
              (k (slice area pos len))
              (record { word = read_unlock word; area = area })
              (answered pos len (slice area pos len))
    unfolding Processes.advance run slice
    copying_turns pos len zero word area got {k} planned fits whole read =
        run_turn busy zero (record { word = word; area = area }) (copying pos len got)
          (record { word = read_unlock word; area = area }, outside, answered pos len got)
          (rw (Processes.advance, le→ltb (length got) len (omega (arith, whole))) refl)
        ∙ turned-answered rt size i busy pos len got _ refl planned
        ∙ ap
            (λ l. over (k l) (record { word = read_unlock word; area = area }) (answered pos len l))
            (read ∙ ap (λ j. take j (drop pos area)) all)
      where
        all : length got ≡ len
        all = omega (arith, whole)
    copying_turns pos len (suc n) word area got planned fits more read =
        let (counted, read') = copied_on area pos len got fits (omega (arith, more)) read in
        run_quiet busy (suc n) (record { word = word; area = area })
          (record { word = word; area = area }) (copying pos len got) (copying pos len got')
          (rw (Processes.advance, lt→ltb (length got) len (omega (arith, more))) refl)
        ∙ copying_turns pos len n word area got' planned fits (omega (arith, more, counted)) read'
      where
        got' : List ℕ
        got' = got ++ (get_or area (pos + length got) 0 ∷ [])

    pub reader_alone :
        (pos len : ℕ) (area : List ℕ) {k : List ℕ → PyResult Reply × View}
        → plan rt c v ≡ reader pos len k
        → pos + len ≤ length area
        → run rt size
            (turns i (suc (suc (suc len))))
            (inside busy (record { word = 0; area = area }) (reader_spin pos len))
          ≡ over
              (k (slice area pos len))
              (record { word = 0; area = area })
              (answered pos len (slice area pos len))
    unfolding Processes.advance read_load read_exchange compare_exchange read_unlock
    reader_alone pos len area planned fits =
        run_quiet busy (suc (suc len)) (record { word = 0; area = area })
          (record { word = 0; area = area }) (reader_spin pos len) (reader_loaded pos len 0) refl
        ∙ run_quiet busy (suc len) (record { word = 0; area = area })
            (record { word = add_one 0; area = area }) (reader_loaded pos len 0)
            (copying pos len []) refl
        ∙ copying_turns pos len len (add_one 0) area [] planned fits (omega arith) refl

    storing_turns :
        (pos n j : ℕ) (area packed : List ℕ) {result : PyResult Reply} {v' : View}
        → plan rt c v ≡ writer pos packed result v'
        → pos + length packed ≤ length area
        → j + n ≡ length packed
        → run rt size (turns i (suc n)) (
            inside busy
              (record { word = write_locked; area = copy_into area pos (take j packed) })
              (storing pos packed j))
          ≡ over
              (result, v')
              (record { word = 0; area = copy_into area pos packed })
              (stored pos packed)
    unfolding Processes.advance run write_unlock
    storing_turns pos zero j area packed {result} {v'} planned fits whole =
        run_turn busy zero
          (record { word = write_locked; area = copy_into area pos (take j packed) })
          (storing pos packed j)
          (
            record { word = 0; area = copy_into area pos (take j packed) },
            outside,
            stored pos packed,
          )
          (rw (Processes.advance, le→ltb j (length packed) (omega (arith, whole))) refl)
        ∙ turned-stored rt size i busy pos packed _ refl planned
        ∙ ap
            (λ l.
              over (result, v') (record { word = 0; area = copy_into area pos l })
                (stored pos packed))
            (ap (λ j. take j packed) all ∙ take_all packed)
      where
        all : j ≡ length packed
        all = omega (arith, whole)
    storing_turns pos (suc n) j area packed planned fits more =
        run_quiet busy (suc n)
          (record { word = write_locked; area = copy_into area pos (take j packed) })
          (record { word = write_locked; area = copy_into area pos (take (j + 1) packed) })
          (storing pos packed j) (storing pos packed (j + 1))
          (rw (Processes.advance, lt→ltb j (length packed) (omega (arith, more)))
            (ap (λ l. (record { word = write_locked; area = l }, storing pos packed (j + 1), quiet))
              (copy_into-set area pos j packed fits (omega (arith, more)))))
        ∙ storing_turns pos n (j + 1) area packed planned fits (omega (arith, more))

    pub writer_alone :
        (pos : ℕ) (area packed : List ℕ) {result : PyResult Reply} {v' : View}
        → plan rt c v ≡ writer pos packed result v'
        → pos + length packed ≤ length area
        → run rt size
            (turns i (suc (suc (length packed))))
            (inside busy (record { word = 0; area = area }) (writer_spin pos packed))
          ≡ over
              (result, v')
              (record { word = 0; area = copy_into area pos packed })
              (stored pos packed)
    unfolding Processes.advance write_exchange compare_exchange
    writer_alone pos area packed planned fits =
        run_quiet busy (suc (length packed)) (record { word = 0; area = area })
          (record { word = write_locked; area = copy_into area pos [] }) (writer_spin pos packed)
          (storing pos packed 0)
          (ap (λ l. (record { word = write_locked; area = l }, storing pos packed 0, quiet))
            (sym (copy_into-nil area pos)))
        ∙ storing_turns pos (length packed) 0 area packed planned fits (omega arith)
