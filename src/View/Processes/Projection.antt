-- ===== src/View/Processes/Projection.antt =====
-- The processes as threads that share the lock: what the lock promises them.
use membridge.Common.{
  ℕ, zero, suc, ◌+◌, ◌<◌, ◌≡◌, ◌^◌, ◌⊎◌, inl, inr, refl, sym, ap, subst, ◌∙◌, List, [], ◌∷◌, length,
  get_or, set, map, Bool, true, false, ◌&&◌, ltb→lt, length-set, replicate, Bool-cases, ltb, ◌==◌,
}
use membridge.Error.{PyResult, ok, err}
use membridge.Lock.{is_nonneg, read_load, read_exchange, write_exchange, compare_exchange}
use membridge.Lock.Threads
use membridge.Lock.Threads.{Shared, idle, read_spin, read_loaded, reading, write_spin, writing}
use membridge.Lock.Exclusion.{write_excludes}
use membridge.View.{View, check_bounds}
use membridge.View.Processes.{
  read_range, write, copy_out, copy_in, InBounds, Pc, outside, reader_spin, reader_loaded, copying,
  writer_spin, storing, System, Action, call, turn, checked, begin, advance, act, note, Event,
  quiet, answered, stored, fire, run, Reach, initial, later,
}

-- What the lock sees of a process.
abbrev pub phase : Pc → Threads.Pc
phase outside = idle
phase (reader_spin offset len) = read_spin
phase (reader_loaded offset len cur) = read_loaded cur
phase (copying offset len got) = reading
phase (writer_spin pos packed) = write_spin
phase (storing pos packed i) = writing

abbrev pub project : System → Threads.System
project s = record { mem = s.mem; pcs = map phase s.pcs }

abbrev pub thread : System → ℕ → Pc
thread s i = get_or s.pcs i outside

module _ {ℓ κ} {A : Type ℓ} {B : Type κ} (f : A → B) where
  length-map : (xs : List A) → length (map f xs) ≡ length xs
  length-map [] = refl
  length-map (x ∷ xs) = ap suc (length-map xs)

  get_or-map : (xs : List A) (i : ℕ) (d : A) → get_or (map f xs) i (f d) ≡ f (get_or xs i d)
  get_or-map [] i d = refl
  get_or-map (x ∷ xs) zero d = refl
  get_or-map (x ∷ xs) (suc i) d = get_or-map xs i d

  map-set : (xs : List A) (i : ℕ) (x : A) → map f (set xs i x) ≡ set (map f xs) i (f x)
  map-set [] i y = refl
  map-set (x ∷ xs) zero y = refl
  map-set (x ∷ xs) (suc i) y = ap (λ t. f x ∷ t) (map-set xs i y)

  map-replicate : (n : ℕ) (x : A) → map f (replicate n x) ≡ replicate n (f x)
  map-replicate zero x = refl
  map-replicate (suc n) x = ap (λ t. f x ∷ t) (map-replicate n x)

-- What a process does is, for the lock, what a thread can do.
abbrev Seen : Shared → Pc → Shared × Pc × Event → Type 0
Seen m p (m', p', e) = (b : Threads.Action) × (Threads.act b m (phase p) ≡ (m', phase p'))

advance-Seen : (m : Shared) (p : Pc) → Seen m p (advance m p)
unfolding advance Threads.act Threads.advance read_load read_exchange write_exchange
    compare_exchange
advance-Seen m outside = (Threads.turn, refl)
advance-Seen m (reader_spin offset len) = elim (Bool-cases (is_nonneg m.word)) [
  | inl free ↦ rw (advance, free) (Threads.turn, rw (Threads.act, Threads.advance, free) refl)
  | inr held ↦ rw (advance, held) (Threads.turn, rw (Threads.act, Threads.advance, held) refl)
]
advance-Seen m (reader_loaded offset len cur) = elim (Bool-cases (m.word == cur)) [
  | inl won ↦ rw (advance, won) (Threads.turn, rw (Threads.act, Threads.advance, won) refl)
  | inr lost ↦ rw (advance, lost) (Threads.turn, rw (Threads.act, Threads.advance, lost) refl)
]
advance-Seen m (copying offset len got) = elim (Bool-cases (ltb (length got) len)) [
  | inl more ↦ rw (advance, more) (Threads.turn, refl)
  | inr over ↦ rw (advance, over) (Threads.leave, refl)
]
advance-Seen m (writer_spin pos packed) = elim (Bool-cases (m.word == 0)) [
  | inl won ↦ rw (advance, won) (Threads.turn, rw (Threads.act, Threads.advance, won) refl)
  | inr lost ↦ rw (advance, lost) (Threads.turn, rw (Threads.act, Threads.advance, lost) refl)
]
advance-Seen m (storing pos packed i) = elim (Bool-cases (ltb i (length packed))) [
  | inl more ↦ rw (advance, more) (Threads.put (pos + i) (get_or packed i 0), refl)
  | inr over ↦ rw (advance, over) (Threads.leave, refl)
]

checked-Seen :
    (m : Shared) (r : PyResult (Unit {0})) (b : Threads.Action) (p : Pc)
    → Threads.act b m idle ≡ (m, phase p)
    → Seen m outside (m, checked r p, quiet)
unfolding checked Threads.act Threads.advance
checked-Seen m (ok u) b p e = (b, e)
checked-Seen m (err x) b p e = (Threads.turn, refl)

act-Seen : (v : View) (a : Action) (m : Shared) (p : Pc) → Seen m p (act v a m p)
unfolding act begin Threads.act Threads.advance
act-Seen v turn m p = advance-Seen m p
act-Seen v (call (read_range offset len)) m outside =
    checked-Seen m (check_bounds v offset len) Threads.enter_read (reader_spin offset len) refl
act-Seen v (call (write pos packed)) m outside =
    checked-Seen m (check_bounds v pos (length packed)) Threads.enter_write (writer_spin pos packed)
      refl
act-Seen v (call (copy_out offset len)) m outside = (Threads.enter_read, refl)
act-Seen v (call (copy_in pos packed)) m outside = (Threads.enter_write, refl)
act-Seen v (call c) m p = (Threads.enter_read, refl)

project-note : (e : Event) (s : System) → project (note e s) ≡ project s
unfolding note
project-note quiet s = refl
project-note (answered offset len got) s = refl
project-note (stored pos packed) s = refl

thread-project : (s : System) (i : ℕ) → get_or (project s).pcs i idle ≡ phase (thread s i)
thread-project s i = get_or-map phase s.pcs i outside

project-fire :
    (v : View) (i : ℕ) (a : Action) (s : System)
    → (b : Threads.Action) × (Threads.fire i b (project s) ≡ project (fire v i a s))
unfolding fire Threads.fire
project-fire v i a s =
    let (b, same) = act-Seen v a s.mem (thread s i) in
    (
      b,
      ap (λ (q : Threads.Pc). stepped (Threads.act b s.mem q)) (thread-project s i)
          ∙ ap stepped same
          ∙ ap (λ (l : List Threads.Pc). record { mem = (act v a s.mem (thread s i)).0; pcs = l })
              (sym (map-set phase s.pcs i (act v a s.mem (thread s i)).1))
          ∙ sym (
              project-note (act v a s.mem (thread s i)).2 (record s {
                mem = (act v a s.mem (thread s i)).0;
                pcs = set s.pcs i (act v a s.mem (thread s i)).1;
              })),
    )
  where
    stepped : Shared × Threads.Pc → Threads.System
    stepped (m', q') = record { mem = m'; pcs = set (map phase s.pcs) i q' }

pub Reach-project :
    {v : View} {n : ℕ} {area : List ℕ} {s : System}
    → Reach v n area s
    → Threads.Reach n area (project s)
Reach-project {v} {n} {area} initial =
    subst (λ l. Threads.Reach n area (record { mem = record { word = 0; area = area }; pcs = l }))
      (sym (map-replicate phase n outside)) Threads.initial
Reach-project {v} {n} {area} (later {s} i a lt _ r) =
    let (b, same) = project-fire v i a s in
    subst (λ t. Threads.Reach n area t) same
      (Threads.later i b (rw (length-map phase s.pcs) lt) (Reach-project r))

-- In every reachable state of fewer than 2 ^ 31 processes: while a process is inside its write guard,
-- no other is inside a read guard or a write guard.
pub alone :
    {v : View} {n : ℕ} {area : List ℕ} {s : System} (i j : ℕ)
    → n < 2 ^ 31
    → Reach v n area s
    → i < length s.pcs
    → j < length s.pcs
    → phase (thread s i) ≡ writing
    → (phase (thread s j) ≡ writing) ⊎ (phase (thread s j) ≡ reading)
    → i ≡ j
alone {s} i j few r hi hj wi held =
    write_excludes few (Reach-project r) i j (rw (length-map phase s.pcs) hi)
      (rw (length-map phase s.pcs) hj) (rw (thread-project s i) wi) (rw (thread-project s j) held)

pcs-note : (e : Event) (s : System) → (note e s).pcs ≡ s.pcs
unfolding note
pcs-note quiet s = refl
pcs-note (answered offset len got) s = refl
pcs-note (stored pos packed) s = refl

pub pcs-fire :
    (v : View) (i : ℕ) (a : Action) (s : System)
    → (fire v i a s).pcs ≡ set s.pcs i (act v a s.mem (thread s i)).1
unfolding fire
pcs-fire v i a s = pcs-note (act v a s.mem (thread s i)).2 (record s {
  mem = (act v a s.mem (thread s i)).0;
  pcs = set s.pcs i (act v a s.mem (thread s i)).1;
})

pub length-fire :
    (v : View) (i : ℕ) (a : Action) (s : System) → length (fire v i a s).pcs ≡ length s.pcs
length-fire v i a s =
    ap length (pcs-fire v i a s) ∙ length-set s.pcs i (act v a s.mem (thread s i)).1

-- Whether an action makes its own checks.
abbrev pub checks : Action → Bool
checks (call (copy_out offset len)) = false
checks (call (copy_in pos packed)) = false
checks _ = true

checks-InBounds : (v : View) (a : Action) → checks a ≡ true → InBounds v a
checks-InBounds v turn h = tt
checks-InBounds v (call (read_range offset len)) h = tt
checks-InBounds v (call (write pos packed)) h = tt
checks-InBounds v (call (copy_out offset len)) h = absurd (cc)
checks-InBounds v (call (copy_in pos packed)) h = absurd (cc)

-- Whether each action is one of the first `n` processes', and makes its own checks.
abbrev pub inside : ℕ → List (ℕ × Action) → Bool
inside n [] = true
inside n ((i, a) ∷ rest) = ltb i n && (checks a && inside n rest)

-- A schedule of processes that there are leads to a reachable state.
pub run-Reach :
    {v : View} {n : ℕ} {area : List ℕ} (schedule : List (ℕ × Action)) (s : System)
    → Reach v n area s
    → inside (length s.pcs) schedule ≡ true
    → Reach v n area (run v schedule s)
unfolding run
run-Reach [] s r h = r
run-Reach {v} ((i, a) ∷ rest) s r h = elim (Bool-cases (ltb i (length s.pcs))) [
  | inl lt ↦ elim (Bool-cases (checks a)) [
    | inl fine ↦
        run-Reach rest (fire v i a s)
          (later i a (ltb→lt i (length s.pcs) lt) (checks-InBounds v a fine) r)
          (rw (length-fire v i a s) (rw (lt, fine) at h))
    | inr unchecked ↦ absurd (let h' = rw (lt, unchecked) at h in cc)
  ]
  | inr ge ↦ absurd (let h' = rw ge at h in cc)
]
