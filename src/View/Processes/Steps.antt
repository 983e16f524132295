-- ===== src/View/Processes/Steps.antt =====
-- The invariant through one access of a process.
use membridge.Common.{
  ℕ, ◌+◌, ◌<◌, ◌≡◌, ◌≢◌, ◌^◌, inl, inr, refl, sym, ap, ap₂, subst, ◌∙◌, List, [], ◌∷◌, ◌++◌, arith,
  length, take, drop, get_or, set, length-set, get_or-set_self, get_or-set_ne, All-snoc, All-map,
  append-nil, append_assoc, false, Bool-cases, ltb, ◌==◌,
}
use membridge.Common.Slices.{take_all}
use membridge.Lock.{
  write_locked, is_nonneg, read_load, read_exchange, write_exchange, compare_exchange, add_one,
  read_unlock, write_unlock,
}
use membridge.Lock.Threads.{Shared, reading, writing}
use membridge.View.{View, copy_into, slice}
use membridge.View.Copy.{copy_into-nil, copy_into-set, copied_on}
use membridge.View.Processes.{
  Pc, outside, reader_spin, reader_loaded, copying, writer_spin, storing, Write, Answer, System,
  Event, quiet, answered, stored, advance, note, Reach,
}
use membridge.View.Processes.Projection.{phase, thread, alone}
use membridge.View.Processes.Invariant.{
  replay, replay-append, Stands, IsSnapshot, Inv, Elsewhere, guarded_cases, moved-Inv,
  moved-Settled, still-Inv,
}

module _ {v : View} {n : ℕ} {start : List ℕ} (few : n < 2 ^ 31) {s : System} (r : Reach v n start s)
    (inv : Inv start s) (i : ℕ) (lt : i < length s.pcs) where
  abbrev base : List ℕ
  base = replay s.written start

  -- The system after process `i` took a step with this outcome.
  abbrev landed : Shared × Pc × Event → System
  landed (m, p, e) = note e (record s { mem = m; pcs = set s.pcs i p })

  others_outside :
      phase (thread s i) ≡ writing → (j : ℕ) → j < length s.pcs → i ≢ j → Elsewhere (thread s j)
  others_outside wi j hj ne = elim (guarded_cases (thread s j)) [
    | inl held ↦ absurd (ne (alone i j few r lt hj wi held))
    | inr elsewhere ↦ elsewhere
  ]

  -- A reader under its guard sees the writes that are over.
  reader_settled : phase (thread s i) ≡ reading → s.mem.area ≡ base
  reader_settled ri = elim (inv.settled) [
    | inl (j, hj, wj) ↦
        let same : writing ≡ reading =
          sym wj ∙ ap (λ k. phase (thread s k)) (alone j i few r hj lt wj (inr ri)) ∙ ri in
        absurd (cc)
    | inr settled ↦ settled
  ]

  -- So does a writer that takes the lock.
  writer_settled :
      (m : Shared) (pos : ℕ) (packed : List ℕ)
      → phase (thread s i) ≢ writing
      → Reach v n start (landed (m, storing pos packed 0, quiet))
      → s.mem.area ≡ base
  unfolding note
  writer_settled m pos packed free r' = elim (inv.settled) [
    | inl (j, hj, wj) ↦
        let ne : i ≢ j = λ e. free (ap (λ k. phase (thread s k)) e ∙ wj) in
        absurd (
          ne (
            alone i j few r' (omega (arith, lt, size)) (omega (arith, hj, size))
              (ap phase (get_or-set_self s.pcs i p' outside lt))
              (inl (ap phase (get_or-set_ne s.pcs i j p' outside ne) ∙ wj))))
    | inr settled ↦ settled
  ]
    where
      p' : Pc
      p' = storing pos packed 0

      size : length (set s.pcs i p') ≡ length s.pcs
      size = length-set s.pcs i p'

  by_outcome :
      (p : Pc) (t : Shared × Pc × Event)
      → advance s.mem p ≡ t
      → Inv start (landed t)
      → Inv start (landed (advance s.mem p))
  by_outcome p t e h = subst (λ u. Inv start (landed u)) (sym e) h

  pub self-Stands : {p : Pc} → thread s i ≡ p → Stands base s.mem.area p
  self-Stands e = subst (λ p. Stands base s.mem.area p) e (inv.stands i lt)

  -- What a reader has copied when it is through is what the writes that are over left in its range.
  pub copied-slice :
      (offset len : ℕ) (got : List ℕ)
      → thread s i ≡ copying offset len got
      → ltb (length got) len ≡ false
      → got ≡ slice base offset len
  unfolding slice
  copied-slice offset len got e over =
      let (fits, le, read) = self-Stands e in
      let whole : length got ≡ len = ground (arith, over, le) in
      read ∙ ap₂ (λ k l. take k (drop offset l)) whole (reader_settled (ap phase e))

  copying-Inv :
      (offset len : ℕ) (got : List ℕ)
      → thread s i ≡ copying offset len got
      → Inv start (landed (advance s.mem (copying offset len got)))
  unfolding note advance
  copying-Inv offset len got e =
      let (fits, le, read) = self-Stands e in
      elim (Bool-cases (ltb (length got) len)) [
        | inl more ↦
            let got' : List ℕ = got ++ (get_or s.mem.area (offset + length got) 0 ∷ []) in
            let (counted, read') =
              copied_on s.mem.area offset len got fits (ground (arith, more)) read in
            by_outcome (copying offset len got) (s.mem, copying offset len got', quiet)
              (rw (advance, more) refl)
              (still-Inv start s inv i lt s.mem (copying offset len got') free refl
                (fits, ground (arith, more, counted), read'))
        | inr over ↦
            let m' : Shared = record s.mem { word = read_unlock s.mem.word } in
            by_outcome (copying offset len got) (m', outside, answered offset len got)
              (rw (advance, over) refl)
              (moved-Inv start s inv i lt m' outside s.written (s.answers ++ (answer ∷ [])) refl tt
                (λ j hj ne. inv.stands j hj)
                (moved-Settled start s inv i lt m' outside (s.answers ++ (answer ∷ [])) free refl)
                (All-snoc (IsSnapshot start s.written) s.answers answer inv.snapshots (record {
                  shows = copied-slice offset len got e over;
                  later = [];
                  prefix = sym (append-nil s.written);
                })))
      ]
    where
      answer : Answer
      answer = record { offset = offset; len = len; data_read = got; seen = s.written }

      free : phase (thread s i) ≢ writing
      free w = let w' = rw e at w in cc

  storing-Inv :
      (pos : ℕ) (packed : List ℕ) (k : ℕ)
      → thread s i ≡ storing pos packed k
      → Inv start (landed (advance s.mem (storing pos packed k)))
  unfolding note advance
  storing-Inv pos packed k e =
      let (fits, le, size, so_far) = self-Stands e in
      elim (Bool-cases (ltb k (length packed))) [
        | inl more ↦
            by_outcome (storing pos packed k)
              (record s.mem { area = area' }, storing pos packed (k + 1), quiet)
              (rw (advance, more) refl)
              (moved-Inv start s inv i lt (record s.mem { area = area' })
                (storing pos packed (k + 1)) s.written s.answers same_size
                (
                  omega (arith, same_size, fits),
                  ground (arith, more),
                  size ∙ sym same_size,
                  ap (λ l. set l (pos + k) (get_or packed k 0)) so_far
                      ∙ copy_into-set base pos k packed (omega (arith, size, fits))
                          (ground (arith, more)),
                )
                (λ j hj ne.
                  others_outside (ap phase e) j hj ne base s.mem.area base area' same_size
                    (inv.stands j hj))
                (inl (
                  i,
                  omega (arith, lt, length-set s.pcs i (storing pos packed (k + 1))),
                  ap phase (get_or-set_self s.pcs i (storing pos packed (k + 1)) outside lt),
                ))
                inv.snapshots)
        | inr over ↦
            let m' : Shared = record s.mem { word = write_unlock s.mem.word } in
            let whole : k ≡ length packed = ground (arith, over, le) in
            let done : s.mem.area ≡ replay (s.written ++ (w ∷ [])) start =
              so_far
              ∙ ap (λ l. copy_into base pos l) (ap (λ n. take n packed) whole ∙ take_all packed)
              ∙ sym (replay-append s.written w start) in
            by_outcome (storing pos packed k) (m', outside, stored pos packed)
              (rw (advance, over) refl)
              (moved-Inv start s inv i lt m' outside (s.written ++ (w ∷ [])) s.answers refl tt
                (λ j hj ne.
                  others_outside (ap phase e) j hj ne base s.mem.area
                    (replay (s.written ++ (w ∷ [])) start) s.mem.area refl (inv.stands j hj))
                (inr done)
                (All-map (IsSnapshot start s.written) (IsSnapshot start (s.written ++ (w ∷ [])))
                  s.answers
                  (λ a h. record {
                    shows = h.shows;
                    later = h.later ++ (w ∷ []);
                    prefix =
                        ap (λ l. l ++ (w ∷ [])) h.prefix ∙ append_assoc a.seen h.later (w ∷ []);
                  })
                  inv.snapshots))
      ]
    where
      w : Write
      w = record { pos = pos; packed = packed }

      area' : List ℕ
      area' = set s.mem.area (pos + k) (get_or packed k 0)

      same_size : length area' ≡ length s.mem.area
      same_size = length-set s.mem.area (pos + k) (get_or packed k 0)

  -- A process that was no writer goes on from `p` to `p'`, and stores nothing.
  goes_on :
      (p p' : Pc) (word' : ℕ)
      → thread s i ≡ p
      → phase p ≢ writing
      → advance s.mem p ≡ (record s.mem { word = word' }, p', quiet)
      → Stands base s.mem.area p'
      → Inv start (landed (advance s.mem p))
  unfolding note
  goes_on p p' word' e free outcome self =
      by_outcome p (record s.mem { word = word' }, p', quiet) outcome
        (still-Inv start s inv i lt (record s.mem { word = word' }) p'
          (λ w. free (sym (ap phase e) ∙ w)) refl self)

  pub advance-Inv :
      (p : Pc)
      → thread s i ≡ p
      → Reach v n start (landed (advance s.mem p))
      → Inv start (landed (advance s.mem p))
  unfolding advance read_load read_exchange write_exchange compare_exchange
  advance-Inv outside e r' = goes_on outside outside s.mem.word e (λ w. cc) refl tt
  advance-Inv (reader_spin offset len) e r' = elim (Bool-cases (is_nonneg s.mem.word)) [
    | inl free ↦
        goes_on (reader_spin offset len) (reader_loaded offset len s.mem.word) s.mem.word e
          (λ w. cc) (rw (advance, read_load, free) refl) (self-Stands e)
    | inr held ↦
        goes_on (reader_spin offset len) (reader_spin offset len) s.mem.word e (λ w. cc)
          (rw (advance, read_load, held) refl) (self-Stands e)
  ]
  advance-Inv (reader_loaded offset len cur) e r' = elim (Bool-cases (s.mem.word == cur)) [
    | inl won ↦
        goes_on (reader_loaded offset len cur) (copying offset len []) (add_one cur) e (λ w. cc)
          (rw (advance, read_exchange, compare_exchange, won) refl)
          (self-Stands e, omega arith, refl)
    | inr lost ↦
        goes_on (reader_loaded offset len cur) (reader_spin offset len) s.mem.word e (λ w. cc)
          (rw (advance, read_exchange, compare_exchange, lost) refl) (self-Stands e)
  ]
  advance-Inv (copying offset len got) e r' = copying-Inv offset len got e
  advance-Inv (writer_spin pos packed) e r' = elim (Bool-cases (s.mem.word == 0)) [
    | inl won ↦
        let m' : Shared = record s.mem { word = write_locked } in
        let taken : advance s.mem (writer_spin pos packed) ≡ (m', storing pos packed 0, quiet) =
          rw (advance, write_exchange, compare_exchange, won) refl in
        let settled : s.mem.area ≡ base =
          writer_settled m' pos packed (λ w. let w' = rw e at w in cc)
            (subst (λ t. Reach v n start (landed t)) taken r') in
        goes_on (writer_spin pos packed) (storing pos packed 0) write_locked e (λ w. cc) taken
          (
            self-Stands e,
            omega arith,
            ap length (sym settled),
            settled ∙ sym (copy_into-nil base pos),
          )
    | inr lost ↦
        goes_on (writer_spin pos packed) (writer_spin pos packed) s.mem.word e (λ w. cc)
          (rw (advance, write_exchange, compare_exchange, lost) refl) (self-Stands e)
  ]
  advance-Inv (storing pos packed k) e r' = storing-Inv pos packed k e
