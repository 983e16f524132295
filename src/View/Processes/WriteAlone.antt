-- ===== src/View/Processes/WriteAlone.antt =====
-- A process that is alone with the segment does what `write` of the view does in one go.
use membridge.Common.{
  ℕ, zero, suc, ◌+◌, ◌≤◌, ◌<◌, ◌≡◌, ◌^◌, refl, sym, ap, ◌∙◌, some, List, [], ◌∷◌, ◌++◌, arith,
  length, take, lt→ltb, le→ltb, append-nil,
}
use membridge.Common.Slices.{take_all}
use membridge.Error.{PyResult, ok, err}
use membridge.Codec.Value.{Runtime}
use membridge.Lock.{write_locked, write_exchange, compare_exchange, write_unlock}
use membridge.View.{
  View, Segment, data_size, check_bounds, copy_into, position, advance as move_cursor,
}
use membridge.View.Bodies.{check_bounds-le, write_guarded_run}
use membridge.View.Copy.{copy_into-nil, copy_into-set}
use membridge.View.Methods.{write_packed}
use membridge.View.Processes.{
  write, outside, writer_spin, storing, Write, System, quiet, stored, call, checked, begin, advance,
  note, run,
}
use membridge.View.Processes.Alone.{
  segment, shared, turns, placed, placed-outside, run_turn, run_idle, run-call,
}
use membridge.View.Processes.Projection.{thread}

-- The write that a call which returned `result` has made.
abbrev pub committed : PyResult (Unit {0}) → ℕ → List ℕ → List Write
committed (ok u) pos packed = record { pos = pos; packed = packed } ∷ []
committed (err e) pos packed = []

module _ (v : View) (s : System) (i : ℕ) (lt : i < length s.pcs)
    (at_rest : thread s i ≡ outside) where
  storing_alone :
      (pos : ℕ) (packed : List ℕ) (n k : ℕ)
      → pos + length packed ≤ length s.mem.area
      → k + n ≡ length packed
      → run v (turns i (suc n)) (
          placed s i
            (record { word = write_locked; area = copy_into s.mem.area pos (take k packed) })
            (storing pos packed k)
            s.written
            s.answers)
        ≡ placed s i
            (record { word = 0; area = copy_into s.mem.area pos packed })
            outside
            (s.written ++ (record { pos = pos; packed = packed } ∷ []))
            s.answers
  unfolding advance note write_unlock run
  storing_alone pos packed zero k fits over =
      run_turn v s i lt at_rest zero
        (record { word = write_locked; area = copy_into s.mem.area pos (take k packed) })
        (storing pos packed k) s.written s.answers
        (
          record { word = 0; area = copy_into s.mem.area pos (take k packed) },
          outside,
          stored pos packed,
        )
        (rw (advance, le→ltb k (length packed) (omega (arith, over))) refl)
      ∙ ap
          (λ l.
            placed s i (record { word = 0; area = copy_into s.mem.area pos l }) outside
              (s.written ++ (record { pos = pos; packed = packed } ∷ [])) s.answers)
          (ap (λ j. take j packed) whole ∙ take_all packed)
    where
      whole : k ≡ length packed
      whole = omega (arith, over)
  storing_alone pos packed (suc n) k fits more =
      run_turn v s i lt at_rest (suc n)
        (record { word = write_locked; area = copy_into s.mem.area pos (take k packed) })
        (storing pos packed k) s.written s.answers
        (
          record { word = write_locked; area = copy_into s.mem.area pos (take (k + 1) packed) },
          storing pos packed (k + 1),
          quiet,
        )
        (rw (advance, lt→ltb k (length packed) (omega (arith, more)))
          (ap (λ l. (record { word = write_locked; area = l }, storing pos packed (k + 1), quiet))
            (copy_into-set s.mem.area pos k packed fits (omega (arith, more)))))
      ∙ storing_alone pos packed n (k + 1) fits (omega (arith, more))

  written_alone :
      (pos : ℕ) (packed : List ℕ)
      → s.mem.word ≡ 0
      → pos + length packed ≤ length s.mem.area
      → run v
          (turns i (suc (suc (length packed))))
          (placed s i s.mem (writer_spin pos packed) s.written s.answers)
        ≡ placed s i
            (record { word = 0; area = copy_into s.mem.area pos packed })
            outside
            (s.written ++ (record { pos = pos; packed = packed } ∷ []))
            s.answers
  unfolding advance note write_exchange compare_exchange
  written_alone pos packed free fits =
      run_turn v s i lt at_rest (suc (length packed)) s.mem (writer_spin pos packed) s.written
        s.answers
        (
          record { word = write_locked; area = copy_into s.mem.area pos [] },
          storing pos packed 0,
          quiet,
        )
        (rw (advance, write_exchange, compare_exchange, free)
          (ap (λ l. (record { word = write_locked; area = l }, storing pos packed 0, quiet))
            (sym (copy_into-nil s.mem.area pos))))
      ∙ storing_alone pos packed (length packed) 0 fits (omega arith)

  module _ (rt : Runtime) (spins : ℕ) (some_fuel : 0 < spins) (small : v.size < 2 ^ 63)
      (sized : length s.mem.area ≡ data_size v) (free : s.mem.word ≡ 0) where
    write_checked :
        (pos : ℕ) (packed : List ℕ) (r : PyResult (Unit {0}))
        → check_bounds v pos (length packed) ≡ r
        → (result : PyResult (Unit {0})) × (m' : Segment) × (write_packed rt spins v
              (segment s.mem)
              packed
              (some pos)
            ≡ some (result, v, m'))
          × (run v ((i, call (write pos packed)) ∷ turns i (suc (suc (length packed)))) s
              ≡ record s { mem = shared m'; written = s.written ++ committed result pos packed })
    unfolding write_packed begin checked position move_cursor
    write_checked pos packed (ok u) inside =
        let (some_bytes, fits) = check_bounds-le v pos (length packed) u small inside in
        (
          ok tt,
          record { word = 0; area = copy_into s.mem.area pos packed },
          rw inside (
                write_guarded_run spins (segment s.mem)
                  (λ area. (ok tt, v, copy_into area pos packed)) some_fuel free)
              ∙ ap
                  (λ w.
                    some (ok tt, v, record { word = w; area = copy_into s.mem.area pos packed }))
                  free,
          run-call v s i lt at_rest (write pos packed) (turns i (suc (suc (length packed))))
              ∙ ap
                  (λ q.
                    run v (turns i (suc (suc (length packed))))
                      (placed s i s.mem (checked q (writer_spin pos packed)) s.written s.answers))
                  inside
              ∙ written_alone pos packed free (omega (arith, sized, fits))
              ∙ placed-outside v s i lt at_rest
                  (record { word = 0; area = copy_into s.mem.area pos packed })
                  (s.written ++ (record { pos = pos; packed = packed } ∷ [])) s.answers,
        )
    write_checked pos packed (err e) refused = (
      err e,
      segment s.mem,
      rw refused refl,
      run-call v s i lt at_rest (write pos packed) (turns i (suc (suc (length packed))))
          ∙ ap
              (λ q.
                run v (turns i (suc (suc (length packed))))
                  (placed s i s.mem (checked q (writer_spin pos packed)) s.written s.answers))
              refused
          ∙ run_idle v s i lt at_rest (suc (suc (length packed))) s.mem s.written s.answers
          ∙ placed-outside v s i lt at_rest s.mem s.written s.answers
          ∙ ap (λ l. record s { written = l }) (sym (append-nil s.written)),
    )

    -- Where the lock is free and no other process takes a turn, a `write` that begins outside any call,
    -- through a view of fewer than 2 ^ 63 bytes of which the data area is the segment, and gets one turn
    -- for each access, does to the segment what the method does in one go, is noted as written if that
    -- succeeds, and is over.
    pub write_alone :
        (pos : ℕ) (packed : List ℕ)
        → (result : PyResult (Unit {0})) × (m' : Segment) × (write_packed rt spins v
              (segment s.mem)
              packed
              (some pos)
            ≡ some (result, v, m'))
          × (run v ((i, call (write pos packed)) ∷ turns i (suc (suc (length packed)))) s
              ≡ record s { mem = shared m'; written = s.written ++ committed result pos packed })
    write_alone pos packed = write_checked pos packed (check_bounds v pos (length packed)) refl
