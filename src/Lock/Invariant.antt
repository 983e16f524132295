-- ===== src/Lock/Invariant.antt =====
-- What the word says of the threads, in every reachable state.
use membridge.Common.{
  ℕ, ◌+◌, ◌-◌, ◌≤◌, ◌<◌, ◌≡◌, ◌^◌, ◌⊎◌, inl, refl, sym, List, ◌∙◌, arith, length, get_or, set,
  length-set, length-replicate, get_or-replicate, get_or-set_self, get_or-set_ne,
}
use native.Mathlib.Decide.{ℕ_discrete}
use membridge.Lock.{write_locked}
use membridge.Lock.Threads.{
  Pc, idle, read_spin, read_loaded, reading, write_spin, writing, Shared, Action, enter_read,
  enter_write, turn, leave, put, advance, act, System, fire, start, Reach, initial, later,
}
use membridge.Lock.Tally.{tally, tally-set, weight-le-tally, tally-le-length, tally-replicate}

abbrev pub reads : Pc → ℕ
reads reading = 1
reads _ = 0

abbrev pub writes : Pc → ℕ
writes writing = 1
writes _ = 0

-- The value that a thread has loaded was no writer's.
abbrev pub IsFresh : Pc → Type 0
IsFresh (read_loaded cur) = cur < 2 ^ 31
IsFresh _ = Unit

-- Either no thread writes and the word counts those that read, or one writes, none reads and the
-- word is -1.
abbrev pub Agrees : (word readers writers : ℕ) → Type 0
Agrees word readers writers =
    ((writers ≡ 0) × (word ≡ readers)) ⊎ (writers ≡ 1) × (readers ≡ 0) × (word ≡ write_locked)

pub record Inv (n : ℕ) (s : System) : Type 0 where
  pub threads : length s.pcs ≡ n
  pub agrees : Agrees s.mem.word (tally reads s.pcs) (tally writes s.pcs)
  pub fresh : (i : ℕ) → i < length s.pcs → IsFresh (get_or s.pcs i idle)

pub reads-le : (p : Pc) → reads p ≤ 1
reads-le p = ground arith

-- The claim about one thread's action, at the counts of the others.
abbrev Keeps : (readers writers : ℕ) → Shared → Pc → Shared → Pc → Type 0
Keeps readers writers m p m' p' =
    IsFresh p
    → readers + 1 < 2 ^ 31
    → Agrees m.word (readers + reads p) (writers + writes p)
    → Agrees m'.word (readers + reads p') (writers + writes p') × IsFresh p'

advance-Keeps :
    (m : Shared) (p : Pc) (readers writers : ℕ)
    → let (m', p') = advance m p in Keeps readers writers m p m' p'
unfolding advance
advance-Keeps m idle readers writers f few h = (h, f)
advance-Keeps m read_spin readers writers f few h = ground arith
advance-Keeps m (read_loaded cur) readers writers f few h = ground arith
advance-Keeps m reading readers writers f few h = (h, f)
advance-Keeps m write_spin readers writers f few h = ground arith
advance-Keeps m writing readers writers f few h = (h, f)

act-Keeps :
    (a : Action) (m : Shared) (p : Pc) (readers writers : ℕ)
    → let (m', p') = act a m p in Keeps readers writers m p m' p'
unfolding act
act-Keeps turn m p readers writers f few h = advance-Keeps m p readers writers f few h
act-Keeps enter_read m idle readers writers f few h = (h, tt)
act-Keeps enter_write m idle readers writers f few h = (h, tt)
act-Keeps leave m reading readers writers f few h = ground arith
act-Keeps leave m writing readers writers f few h = ground arith
act-Keeps (put at byte) m writing readers writers f few h = (h, tt)
act-Keeps enter_read m p readers writers f few h = (h, f)
act-Keeps enter_write m p readers writers f few h = (h, f)
act-Keeps leave m p readers writers f few h = (h, f)
act-Keeps (put at byte) m p readers writers f few h = (h, f)

start-Inv : (n : ℕ) (area : List ℕ) → Inv n (start n area)
start-Inv n area = record {
  threads = length-replicate n idle;
  agrees = inl (tally-replicate writes n idle refl, sym (tally-replicate reads n idle refl));
  fresh = λ i lt. rw (get_or-replicate n idle i) tt;
}

module _ {n : ℕ} {s : System} (few : n < 2 ^ 31) (inv : Inv n s) (i : ℕ)
    (lt : i < length s.pcs) where
  abbrev here : Pc
  here = get_or s.pcs i idle

  -- The threads other than `i`.
  others : (Pc → ℕ) → ℕ
  others w = tally w s.pcs - w here

  others-add : (w : Pc → ℕ) → others w + w here ≡ tally w s.pcs
  unfolding others
  others-add w = omega (arith, weight-le-tally w s.pcs i idle lt)

  others-set : (w : Pc → ℕ) (p : Pc) → tally w (set s.pcs i p) ≡ others w + w p
  others-set w p = omega (arith, tally-set w s.pcs i p idle lt, others-add w)

  others-lt : others reads + 1 < 2 ^ 31
  others-lt = omega (
    arith,
    few,
    inv.threads,
    others-set reads reading,
    tally-le-length reads reads-le (set s.pcs i reading),
    length-set s.pcs i reading,
  )

  kept :
      (a : Action)
      → let (m', p') = act a s.mem here in
        Agrees m'.word (others reads + reads p') (others writes + writes p') × IsFresh p'
  kept a =
      act-Keeps a s.mem here (others reads) (others writes) (inv.fresh i lt) others-lt
        (rw (others-add reads, others-add writes) inv.agrees)

  fire-Inv : (a : Action) → Inv n (fire i a s)
  unfolding fire
  fire-Inv a = record {
    threads = length-set s.pcs i p' ∙ inv.threads;
    agrees = rw (others-set reads p', others-set writes p') (kept a).0;
    fresh = λ j lt'. elim (ℕ_discrete i j) [
      | yes e ↦ rw (← e, get_or-set_self s.pcs i p' idle lt) (kept a).1
      | no ne ↦
          rw (get_or-set_ne s.pcs i j p' idle ne) (inv.fresh j (rw (length-set s.pcs i p') at lt'))
    ];
  }
    where
      p' : Pc
      p' = (act a s.mem here).1

-- Every reachable state of fewer than 2 ^ 31 threads agrees with its word.
pub Reach-Inv : {n : ℕ} {area : List ℕ} {s : System} → n < 2 ^ 31 → Reach n area s → Inv n s
Reach-Inv {n} {area} few initial = start-Inv n area
Reach-Inv few (later i a lt r) = fire-Inv few (Reach-Inv few r) i lt a
