-- ===== src/View/Processes/Invariant.antt =====
-- What holds of the processes between any two accesses.
use membridge.Common.{
  ℕ, ◌+◌, ◌≤◌, ◌<◌, ◌≡◌, ◌≢◌, ◌⊎◌, inl, inr, refl, sym, ap, subst, ◌∙◌, List, [], ◌∷◌, ◌++◌, arith,
  length, take, drop, get_or, set, length-set, get_or-set_self, get_or-set_ne, All,
}
use native.Mathlib.Decide.{ℕ_discrete}
use membridge.Lock.Threads.{Shared, reading, writing}
use membridge.View.{copy_into, slice}
use membridge.View.Processes.{
  Pc, outside, reader_spin, reader_loaded, copying, writer_spin, storing, Write, Answer, System,
}
use membridge.View.Processes.Projection.{phase, thread}

-- The area after calls of `write` that were made one after the other.
abbrev pub replay : List Write → List ℕ → List ℕ
replay [] area = area
replay (w ∷ ws) area = replay ws (copy_into area w.pos w.packed)

pub replay-append :
    (ws : List Write) (w : Write) (area : List ℕ)
    → replay (ws ++ (w ∷ [])) area ≡ copy_into (replay ws area) w.pos w.packed
replay-append [] w area = refl
replay-append (x ∷ ws) w area = replay-append ws w (copy_into area x.pos x.packed)

-- A reader has copied the first bytes of its range as they are now, and a writer has stored the first
-- of its bytes over the area `base` that it found.
abbrev pub Stands : (base area : List ℕ) → Pc → Type 0
Stands base area outside = Unit
Stands base area (reader_spin offset len) = offset + len ≤ length area
Stands base area (reader_loaded offset len cur) = offset + len ≤ length area
Stands base area (copying offset len got) =
    (offset + len ≤ length area) × (length got ≤ len) × (got ≡ take (length got) (drop offset area))
Stands base area (writer_spin pos packed) = pos + length packed ≤ length area
Stands base area (storing pos packed i) =
    (pos + length packed ≤ length area)
    × (i ≤ length packed)
    × (length base ≡ length area)
    × (area ≡ copy_into base pos (take i packed))

-- The bytes that a call returned are those of the area behind the writes that were over, a part of
-- all.
pub record IsSnapshot (start : List ℕ) (written : List Write) (a : Answer) : Type 0 where
  pub shows : a.data_read ≡ slice (replay a.seen start) a.offset a.len
  pub later : List Write
  pub prefix : written ≡ a.seen ++ later

-- A writer is under its guard, or the area is as the writes that are over left it.
abbrev pub Settled : List ℕ → System → Type 0
Settled start s =
    ((j : ℕ) × (j < length s.pcs) × (phase (thread s j) ≡ writing))
    ⊎ (s.mem.area ≡ replay s.written start)

pub record Inv (start : List ℕ) (s : System) : Type 0 where
  pub sized : length s.mem.area ≡ length start
  pub stands : (j : ℕ) → j < length s.pcs → Stands (replay s.written start) s.mem.area (thread s j)
  pub settled : Settled start s
  pub snapshots : All (IsSnapshot start s.written) s.answers

-- A process that is under no guard has no claim on the bytes.
abbrev pub Elsewhere : Pc → Type 0
Elsewhere p =
    (base area base' area' : List ℕ)
    → length area' ≡ length area
    → Stands base area p
    → Stands base' area' p

pub guarded_cases : (p : Pc) → ((phase p ≡ writing) ⊎ (phase p ≡ reading)) ⊎ Elsewhere p
guarded_cases outside = inr (λ base area base' area' e h. h)
guarded_cases (reader_spin offset len) = inr (λ base area base' area' e h. omega (arith, e, h))
guarded_cases (reader_loaded offset len cur) =
    inr (λ base area base' area' e h. omega (arith, e, h))
guarded_cases (copying offset len got) = inl (inr refl)
guarded_cases (writer_spin pos packed) = inr (λ base area base' area' e h. omega (arith, e, h))
guarded_cases (storing pos packed i) = inl (inl refl)

module _ (start : List ℕ) (s : System) (inv : Inv start s) (i : ℕ) (lt : i < length s.pcs) where
  abbrev base : List ℕ
  base = replay s.written start

  -- The system after process `i` acted.
  abbrev pub moved : Shared → Pc → List Write → List Answer → System
  moved m p written answers = record {
    mem = m;
    pcs = set s.pcs i p;
    written = written;
    answers = answers;
  }

  thread-moved_ne : (p : Pc) (j : ℕ) → i ≢ j → get_or (set s.pcs i p) j outside ≡ thread s j
  thread-moved_ne p j ne = get_or-set_ne s.pcs i j p outside ne

  pub moved-Inv :
      (m : Shared) (p : Pc) (written : List Write) (answers : List Answer)
      → length m.area ≡ length s.mem.area
      → Stands (replay written start) m.area p
      → ((j : ℕ) → j < length s.pcs → i ≢ j → Stands (replay written start) m.area (thread s j))
      → Settled start (moved m p written answers)
      → All (IsSnapshot start written) answers
      → Inv start (moved m p written answers)
  moved-Inv m p written answers size self others settled snapshots = record {
    sized = size ∙ inv.sized;
    stands = λ j hj. elim (ℕ_discrete i j) [
      | yes e ↦
          subst (λ q. Stands (replay written start) m.area q)
            (sym (get_or-set_self s.pcs i p outside lt)
              ∙ ap (λ k. get_or (set s.pcs i p) k outside) e)
            self
      | no ne ↦
          subst (λ q. Stands (replay written start) m.area q) (sym (thread-moved_ne p j ne))
            (others j (omega (arith, hj, length-set s.pcs i p)) ne)
    ];
    settled = settled;
    snapshots = snapshots;
  }

  -- A process that was no writer and stores nothing leaves the area as settled as it was.
  pub moved-Settled :
      (m : Shared) (p : Pc) (answers : List Answer)
      → phase (thread s i) ≢ writing
      → m.area ≡ s.mem.area
      → Settled start (moved m p s.written answers)
  moved-Settled m p answers free same = elim (inv.settled) [
    | inl (j, hj, wj) ↦ inl (
      j,
      omega (arith, hj, length-set s.pcs i p),
      ap phase (thread-moved_ne p j (λ e. free (ap (λ k. phase (thread s k)) e ∙ wj))) ∙ wj,
    )
    | inr settled ↦ inr (same ∙ settled)
  ]

  -- A process that was no writer goes on, and stores nothing.
  pub still-Inv :
      (m : Shared) (p : Pc)
      → phase (thread s i) ≢ writing
      → m.area ≡ s.mem.area
      → Stands base s.mem.area p
      → Inv start (moved m p s.written s.answers)
  still-Inv m p free same self =
      moved-Inv m p s.written s.answers (ap length same) (on p self)
        (λ j hj ne. on (thread s j) (inv.stands j hj)) (moved-Settled m p s.answers free same)
        inv.snapshots
    where
      on : (q : Pc) → Stands base s.mem.area q → Stands base m.area q
      on q h = subst (λ l. Stands base l q) (sym same) h
