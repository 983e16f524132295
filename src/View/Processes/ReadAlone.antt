-- ===== src/View/Processes/ReadAlone.antt =====
-- A process that is alone with the segment does what `read_range` of the view does in one go.
use membridge.Common.{
  ℕ, zero, suc, ◌+◌, ◌-◌, ◌≤◌, ◌<◌, ◌≡◌, ◌^◌, refl, sym, ap, ◌∙◌, some, List, [], ◌∷◌, ◌++◌, arith,
  length, take, drop, get_or, lt→ltb, le→ltb, eq→==, append-nil,
}
use membridge.Error.{PyResult, ok, err}
use membridge.Codec.Value.{Runtime, Value, bytes}
use membridge.Lock.{compare_exchange, read_load, read_exchange, read_unlock, add_one}
use membridge.View.{View, data_size, check_bounds, slice}
use membridge.View.Bodies.{check_bounds-le, read_guarded_run}
use membridge.View.Copy.{copied_on}
use membridge.View.Methods.{read_range as view_read_range}
use membridge.View.Processes.{
  read_range, outside, reader_spin, reader_loaded, copying, Write, Answer, System, quiet, answered,
  call, checked, begin, advance, note, run,
}
use membridge.View.Processes.Alone.{
  segment, turns, placed, placed-outside, run_turn, run_idle, run-call,
}
use membridge.View.Processes.Projection.{thread}

-- The answer of a call that returned `result`.
abbrev pub answered_with : PyResult Value → ℕ → ℕ → List Write → List Answer
answered_with (ok (bytes bs)) offset len seen =
    record { offset = offset; len = len; data_read = bs; seen = seen } ∷ []
answered_with _ offset len seen = []

module _ (v : View) (s : System) (i : ℕ) (lt : i < length s.pcs)
    (at_rest : thread s i ≡ outside) where
  copying_alone :
      (word offset len n : ℕ) (got : List ℕ)
      → offset + len ≤ length s.mem.area
      → length got + n ≡ len
      → got ≡ take (length got) (drop offset s.mem.area)
      → run v (turns i (suc n)) (
          placed s i
            (record { word = word; area = s.mem.area })
            (copying offset len got)
            s.written
            s.answers)
        ≡ placed s i
            (record { word = read_unlock word; area = s.mem.area })
            outside
            s.written
            (s.answers
              ++ answered_with (ok (bytes (slice s.mem.area offset len))) offset len s.written)
  unfolding advance note run slice
  copying_alone word offset len zero got fits over read =
      run_turn v s i lt at_rest zero (record { word = word; area = s.mem.area })
        (copying offset len got) s.written s.answers
        (record { word = read_unlock word; area = s.mem.area }, outside, answered offset len got)
        (rw (advance, le→ltb (length got) len (omega (arith, over))) refl)
      ∙ ap
          (λ l.
            placed s i (record { word = read_unlock word; area = s.mem.area }) outside s.written
              (s.answers ++ answered_with (ok (bytes l)) offset len s.written))
          (read ∙ ap (λ j. take j (drop offset s.mem.area)) whole)
    where
      whole : length got ≡ len
      whole = omega (arith, over)
  copying_alone word offset len (suc n) got fits more read =
      let (counted, read') = copied_on s.mem.area offset len got fits (omega (arith, more)) read in
      run_turn v s i lt at_rest (suc n) (record { word = word; area = s.mem.area })
        (copying offset len got) s.written s.answers
        (record { word = word; area = s.mem.area }, copying offset len got', quiet)
        (rw (advance, lt→ltb (length got) len (omega (arith, more))) refl)
      ∙ copying_alone word offset len n got' fits (omega (arith, more, counted)) read'
    where
      got' : List ℕ
      got' = got ++ (get_or s.mem.area (offset + length got) 0 ∷ [])

  module _ (rt : Runtime) (spins : ℕ) (some_fuel : 0 < spins) (small : v.size < 2 ^ 63)
      (sized : length s.mem.area ≡ data_size v) (free : s.mem.word < 2 ^ 31 - 1) where
    read_alone_steps :
        (offset len : ℕ)
        → offset + len ≤ length s.mem.area
        → run v
            (turns i (suc (suc (suc len))))
            (placed s i s.mem (reader_spin offset len) s.written s.answers)
          ≡ placed s i s.mem outside s.written (
              s.answers
              ++ answered_with (ok (bytes (slice s.mem.area offset len))) offset len s.written)
    unfolding advance note read_load read_exchange compare_exchange read_unlock
    read_alone_steps offset len fits =
        run_turn v s i lt at_rest (suc (suc len)) s.mem (reader_spin offset len) s.written s.answers
          (s.mem, reader_loaded offset len s.mem.word, quiet)
          (rw (advance, read_load, lt→ltb s.mem.word (2 ^ 31) (omega (arith, free))) refl)
        ∙ run_turn v s i lt at_rest (suc len) s.mem (reader_loaded offset len s.mem.word) s.written
            s.answers
            (record { word = add_one s.mem.word; area = s.mem.area }, copying offset len [], quiet)
            (rw (advance, read_exchange, compare_exchange, eq→== s.mem.word s.mem.word refl) refl)
        ∙ copying_alone (add_one s.mem.word) offset len len [] fits (omega arith) refl
        ∙ ap
            (λ w.
              placed s i (record { word = w; area = s.mem.area }) outside s.written
                (s.answers
                  ++ answered_with (ok (bytes (slice s.mem.area offset len))) offset len s.written))
            (omega (arith, free))

    read_checked :
        (offset len : ℕ) (r : PyResult (Unit {0}))
        → check_bounds v offset len ≡ r
        → (result : PyResult Value) × (view_read_range rt spins v (segment s.mem) offset len
            ≡ some (result, v, segment s.mem))
          × (run v ((i, call (read_range offset len)) ∷ turns i (suc (suc (suc len)))) s
              ≡ record s { answers = s.answers ++ answered_with result offset len s.written })
    unfolding view_read_range begin checked
    read_checked offset len (ok u) inside =
        let (some_bytes, fits) = check_bounds-le v offset len u small inside in
        (
          ok (bytes (slice s.mem.area offset len)),
          rw inside (
              read_guarded_run spins (segment s.mem)
                (λ area. (ok (bytes (slice area offset len)), v)) some_fuel free),
          run-call v s i lt at_rest (read_range offset len) (turns i (suc (suc (suc len))))
              ∙ ap
                  (λ q.
                    run v (turns i (suc (suc (suc len))))
                      (placed s i s.mem (checked q (reader_spin offset len)) s.written s.answers))
                  inside
              ∙ read_alone_steps offset len (omega (arith, sized, fits))
              ∙ placed-outside v s i lt at_rest s.mem s.written (
                  s.answers
                  ++ answered_with (ok (bytes (slice s.mem.area offset len))) offset len s.written),
        )
    read_checked offset len (err e) refused = (
      err e,
      rw refused refl,
      run-call v s i lt at_rest (read_range offset len) (turns i (suc (suc (suc len))))
          ∙ ap
              (λ q.
                run v (turns i (suc (suc (suc len))))
                  (placed s i s.mem (checked q (reader_spin offset len)) s.written s.answers))
              refused
          ∙ run_idle v s i lt at_rest (suc (suc (suc len))) s.mem s.written s.answers
          ∙ placed-outside v s i lt at_rest s.mem s.written s.answers
          ∙ ap (λ l. record s { answers = l }) (sym (append-nil s.answers)),
    )

    -- Where no writer holds the lock, fewer than 2 ^ 31 - 1 readers do and no other process takes a
    -- turn, a `read_range` that begins outside any call, through a view of fewer than 2 ^ 63 bytes of
    -- which the data area is the segment, and gets one turn for each access, returns what the method
    -- returns in one go, leaves the segment as it was, and is over.
    pub read_alone :
        (offset len : ℕ)
        → (result : PyResult Value) × (view_read_range rt spins v (segment s.mem) offset len
            ≡ some (result, v, segment s.mem))
          × (run v ((i, call (read_range offset len)) ∷ turns i (suc (suc (suc len)))) s
              ≡ record s { answers = s.answers ++ answered_with result offset len s.written })
    read_alone offset len = read_checked offset len (check_bounds v offset len) refl
