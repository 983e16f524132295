-- ===== src/Lock/Exclusion.antt =====
-- What the guards of rwlock.rs promise, for any interleaving of fewer than 2 ^ 31 threads.
use membridge.Common.{
  ℕ, ◌≤◌, ◌<◌, ◌≡◌, ◌≢◌, ◌^◌, ◌⊎◌, ◌↔◌, inl, inr, refl, sym, ap, List, ◌∙◌, arith, length, get_or,
  get_or-set_self, length-set, ◌==◌,
}
use native.Mathlib.Decide.{ℕ_discrete}
use membridge.Lock.{reader_count, is_write_locked}
use membridge.Lock.Threads.{
  Pc, idle, read_spin, read_loaded, reading, write_spin, writing, Shared, Action, turn, advance,
  act, System, fire, Reach,
}
use membridge.Lock.Tally.{tally, weight-le-tally, tally-le-length, two-le-tally}
use membridge.Lock.Invariant.{reads, reads-le, writes, Reach-Inv}

abbrev pub thread : System → ℕ → Pc
thread s i = get_or s.pcs i idle

-- A thread that is not inside a write guard changes no data.
idle_hands : (p : Pc) → (p ≡ writing) ⊎ ((a : Action) (m : Shared) → (act a m p).0.area ≡ m.area)
unfolding act advance
idle_hands writing = inl refl
idle_hands idle = inr (λ a m. ground arith)
idle_hands read_spin = inr (λ a m. ground arith)
idle_hands (read_loaded cur) = inr (λ a m. ground arith)
idle_hands reading = inr (λ a m. ground arith)
idle_hands write_spin = inr (λ a m. ground arith)

thread-fire :
    (i : ℕ) (a : Action) (s : System)
    → i < length s.pcs
    → thread (fire i a s) i ≡ (act a s.mem (thread s i)).1
unfolding fire
thread-fire i a s lt = get_or-set_self s.pcs i (act a s.mem (thread s i)).1 idle lt

length-fire : (i : ℕ) (a : Action) (s : System) → length (fire i a s).pcs ≡ length s.pcs
unfolding fire
length-fire i a s = length-set s.pcs i (act a s.mem (get_or s.pcs i idle)).1

write_turn : (m : Shared) → ((act turn m write_spin).1 ≡ writing) ↔ (m.word ≡ 0)
unfolding act advance
write_turn m = ground arith

read_turn_load : (m : Shared) → m.word < 2 ^ 31 → act turn m read_spin ≡ (m, read_loaded m.word)
unfolding act advance
read_turn_load m h = ground arith

read_turn_exchange : (m : Shared) → (act turn m (read_loaded m.word)).1 ≡ reading
unfolding act advance
read_turn_exchange m = ground arith

mem-fire : (i : ℕ) (a : Action) (s : System) → (fire i a s).mem ≡ (act a s.mem (thread s i)).0
unfolding fire
mem-fire i a s = refl

module _ {n : ℕ} {area : List ℕ} {s : System} (few : n < 2 ^ 31) (r : Reach n area s) where
  -- In every reachable state of fewer than 2 ^ 31 threads: while a thread is inside a write guard, no
  -- other thread is inside a read guard or a write guard.
  pub write_excludes :
      (i j : ℕ)
      → i < length s.pcs
      → j < length s.pcs
      → thread s i ≡ writing
      → (thread s j ≡ writing) ⊎ (thread s j ≡ reading)
      → i ≡ j
  write_excludes i j hi hj wi held = elim (ℕ_discrete i j) [
    | yes e ↦ e
    | no ne ↦ absurd (
        ground (
          arith,
          Reach-Inv few r,
          weight-le-tally writes s.pcs i idle hi,
          weight-le-tally reads s.pcs j idle hj,
          two-le-tally writes s.pcs i j idle hi hj ne,
        ))
  ]

  -- In every reachable state of fewer than 2 ^ 31 threads: while thread `i` is inside a read guard or
  -- a write guard, no action of another thread changes the data.
  pub guard_isolates :
      (i j : ℕ) (a : Action)
      → i < length s.pcs
      → j < length s.pcs
      → i ≢ j
      → (thread s i ≡ reading) ⊎ (thread s i ≡ writing)
      → (fire j a s).mem.area ≡ s.mem.area
  guard_isolates i j a hi hj ne held = elim (idle_hands (thread s j)) [
    | inl wj ↦ absurd (ne (sym (write_excludes j i hj hi wj (swap held))))
    | inr still ↦ unfold fire in still a s.mem
  ]
    where
      swap :
          (thread s i ≡ reading) ⊎ (thread s i ≡ writing)
          → (thread s i ≡ writing) ⊎ (thread s i ≡ reading)
      swap (inl e) = inr e
      swap (inr e) = inl e

  readers_few : tally reads s.pcs < 2 ^ 31
  readers_few = omega (arith, (Reach-Inv few r).threads, tally-le-length reads reads-le s.pcs)

  -- In every reachable state of fewer than 2 ^ 31 threads: `reader_count` is the number of threads
  -- inside a read guard, `is_write_locked` tells whether exactly one is inside a write guard, and at
  -- most one is.
  pub observers :
      (reader_count s.mem.word ≡ tally reads s.pcs)
      × (is_write_locked s.mem.word ≡ (tally writes s.pcs == 1))
      × (tally writes s.pcs ≤ 1)
  unfolding reader_count is_write_locked
  observers = (
    ground (arith, (Reach-Inv few r).agrees, readers_few),
    ground (arith, (Reach-Inv few r).agrees, readers_few),
    ground (arith, (Reach-Inv few r).agrees),
  )

  -- In every reachable state of fewer than 2 ^ 31 threads: a turn of a thread that spins in
  -- `write_lock` takes the lock exactly when no thread is inside a guard.
  pub write_turn_iff :
      (i : ℕ)
      → i < length s.pcs
      → thread s i ≡ write_spin
      → (thread (fire i turn s) i ≡ writing) ↔ (tally reads s.pcs ≡ 0) × (tally writes s.pcs ≡ 0)
  write_turn_iff i lt e =
      rw (thread-fire i turn s lt, e)
        (
          λ won. ground (arith, (Reach-Inv few r).agrees, (write_turn s.mem).0 won),
          λ free. (write_turn s.mem).1 (ground (arith, (Reach-Inv few r).agrees)),
        )

  -- In every reachable state of fewer than 2 ^ 31 threads of which none is inside a write guard: two
  -- turns in a row of a thread that spins in `read_lock` take the lock.
  pub read_turns :
      (i : ℕ)
      → i < length s.pcs
      → thread s i ≡ read_spin
      → tally writes s.pcs ≡ 0
      → thread (fire i turn (fire i turn s)) i ≡ reading
  read_turns i lt e none_writes =
      rw (thread-fire i turn s' (rw (length-fire i turn s) lt), mem, pc) (read_turn_exchange s.mem)
    where
      s' : System
      s' = fire i turn s

      loaded : act turn s.mem (thread s i) ≡ (s.mem, read_loaded s.mem.word)
      loaded = rw e (read_turn_load s.mem (ground (arith, (Reach-Inv few r).agrees, readers_few)))

      mem : s'.mem ≡ s.mem
      mem = mem-fire i turn s ∙ ap (λ t. t.0) loaded

      pc : thread s' i ≡ read_loaded s.mem.word
      pc = thread-fire i turn s lt ∙ ap (λ t. t.1) loaded
