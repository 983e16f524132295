-- ===== src/View/Sessions/Invariant.antt =====
-- What holds of the calls of all methods between any two accesses.
use membridge.Common.{
  ℕ, ◌<◌, ◌≡◌, ◌⊎◌, inl, inr, refl, sym, subst, Bool, true, some, none, false, List, [], ◌∷◌, ◌++◌,
  length, ltb, Bool-cases, ◌==◌,
}
use membridge.Error.{PyResult}
use membridge.Codec.Value.{Runtime}
use membridge.Lock.{init, is_nonneg, read_load, read_exchange, write_exchange, compare_exchange}
use membridge.Lock.Threads.{Shared}
use membridge.View.{View, Segment}
use membridge.View.Valid.{IsValid}
use membridge.View.Methods.{Method, reader_count_call, is_write_locked_call, Reply, invoke}
use membridge.View.Processes
use membridge.View.Processes.{
  Pc, outside, reader_spin, reader_loaded, copying, writer_spin, storing, Event, quiet, answered,
  stored, advance,
}
use membridge.View.Processes.Projection.{thread}
use membridge.View.Processes.Invariant.{replay}
use membridge.View.Sessions.{reader, writer, plan, User, Entry, System, opened, user}

-- The segment between calls.
abbrev pub free : List ℕ → Segment
free area = record { word = init; area = area }

-- The methods that only look at the lock, without a guard.
abbrev pub observes_lock : Method → Bool
observes_lock reader_count_call = true
observes_lock is_write_locked_call = true
observes_lock _ = false

module _ (rt : Runtime) where
  -- Called in one go on an area, the method returns this result and leaves this view and that area. The
  -- lock is free then, unless the method is one that only looks at it.
  abbrev pub Answers : Entry → List ℕ → List ℕ → Type 0
  Answers e area area' =
      (word : ℕ) × ((word ≡ init) ⊎ (observes_lock e.method ≡ true))
      × (invoke rt 1 e.method e.before (record { word = word; area = area })
          ≡ some (e.result, e.after, record { word = word; area = area' }))

  -- Called one after the other, from an area and to an area, the methods return these results and
  -- leave these views.
  abbrev pub Executes : List Entry → List ℕ → List ℕ → Type 0
  Executes [] area area' = area ≡ area'
  Executes (e ∷ history) area area' =
      (mid : List ℕ) × Answers e area mid × Executes history mid area'

  pub Executes-snoc :
      (history : List Entry) (e : Entry) (area mid area' : List ℕ)
      → Executes history area mid
      → Answers e mid area'
      → Executes (history ++ (e ∷ [])) area area'
  Executes-snoc [] e area mid area' same h =
      (area', subst (λ l. Answers e l area') (sym same) h, refl)
  Executes-snoc (x ∷ history) e area mid area' (next, first, rest) h =
      (next, first, Executes-snoc history e next mid area' rest h)

  -- A user is in the call whose plan the process below carries out.
  abbrev pub Reads : User → ℕ → ℕ → Type 0
  Reads u pos len =
      (c : Method) × (k : List ℕ → PyResult Reply × View) × (u.calling ≡ some c)
      × (plan rt c u.view ≡ reader pos len k)

  abbrev pub Writes : User → ℕ → List ℕ → Type 0
  Writes u pos packed =
      (c : Method) × (result : PyResult Reply) × (v' : View) × (u.calling ≡ some c)
      × (plan rt c u.view ≡ writer pos packed result v')

  abbrev pub Agrees : User → Pc → Type 0
  Agrees u outside = u.calling ≡ none
  Agrees u (reader_spin pos len) = Reads u pos len
  Agrees u (reader_loaded pos len cur) = Reads u pos len
  Agrees u (copying pos len got) = Reads u pos len
  Agrees u (writer_spin pos packed) = Writes u pos packed
  Agrees u (storing pos packed i) = Writes u pos packed

  -- An access ends no call, or a reader's, or a writer's.
  abbrev pub Ends : Pc → Shared × Pc × Event → Type 0
  Ends p (m', p', e) =
      ((e ≡ quiet) × ((u : User) → Agrees u p → Agrees u p'))
      ⊎ (((pos : ℕ) × (len : ℕ) × (got : List ℕ) × (p ≡ copying pos len got)
            × (ltb (length got) len ≡ false)
            × (e ≡ answered pos len got)
            × (p' ≡ outside))
          ⊎ ((pos : ℕ) × (packed : List ℕ) × (i : ℕ) × (p ≡ storing pos packed i)
              × (e ≡ stored pos packed)
              × (p' ≡ outside)))

  pub advance-Ends : (m : Shared) (p : Pc) → Ends p (advance m p)
  unfolding advance read_load read_exchange write_exchange compare_exchange
  advance-Ends m outside = inl (refl, λ u h. h)
  advance-Ends m (reader_spin pos len) = elim (Bool-cases (is_nonneg m.word)) [
    | inl fine ↦ rw (advance, read_load, fine) (inl (refl, λ u h. h))
    | inr held ↦ rw (advance, read_load, held) (inl (refl, λ u h. h))
  ]
  advance-Ends m (reader_loaded pos len cur) = elim (Bool-cases (m.word == cur)) [
    | inl won ↦ rw (advance, read_exchange, compare_exchange, won) (inl (refl, λ u h. h))
    | inr lost ↦ rw (advance, read_exchange, compare_exchange, lost) (inl (refl, λ u h. h))
  ]
  advance-Ends m (copying pos len got) = elim (Bool-cases (ltb (length got) len)) [
    | inl more ↦ rw (advance, more) (inl (refl, λ u h. h))
    | inr over ↦ rw (advance, over) (inr (inl (pos, len, got, refl, over, refl, refl)))
  ]
  advance-Ends m (writer_spin pos packed) = elim (Bool-cases (m.word == 0)) [
    | inl won ↦ rw (advance, write_exchange, compare_exchange, won) (inl (refl, λ u h. h))
    | inr lost ↦ rw (advance, write_exchange, compare_exchange, lost) (inl (refl, λ u h. h))
  ]
  advance-Ends m (storing pos packed i) = elim (Bool-cases (ltb i (length packed))) [
    | inl more ↦ rw (advance, more) (inl (refl, λ u h. h))
    | inr over ↦ rw (advance, over) (inr (inr (pos, packed, i, refl, refl, refl)))
  ]

  module _ (size n : ℕ) (area : List ℕ) where
    pub record Inv (s : System) : Type 0 where
      pub reached : Processes.Reach (opened size).view n area s.below
      pub counted : length s.users ≡ length s.below.pcs
      pub sized : length (replay s.below.written area) ≡ length area
      pub linear : Executes s.history area (replay s.below.written area)
      pub valid : (j : ℕ) → j < length s.users → IsValid (user rt size s j).view (free area)
      pub agrees : (j : ℕ) → j < length s.users → Agrees (user rt size s j) (thread s.below j)
