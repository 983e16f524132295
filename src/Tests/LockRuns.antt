-- ===== src/Tests/LockRuns.antt =====
-- src/rwlock.rs with three threads in one schedule.
use membridge.Common.{ℕ, ◌≤◌, ◌≡◌, ◌↔◌, inl, refl, false, some, none, List, [], ◌∷◌, arith, ◌==◌}
use membridge.Lock.{init, read_lock, write_lock, reader_count, is_write_locked}
use membridge.Lock.Threads.{
  idle, read_spin, reading, writing, enter_read, enter_write, turn, leave, put, System, start,
  Reach, initial, later, fire, run,
}
use membridge.Lock.Tally.{tally}
use membridge.Lock.Invariant.{reads, writes}
use membridge.Lock.Exclusion.{
  thread, write_excludes, guard_isolates, observers, write_turn_iff, read_turns,
}
use membridge.Lock.Calls.{
  Operation, lock_read, unlock_read, operate_all, readers, Encodes, Matches, calls_refine,
}

abbrev area : List ℕ
area = 5 ∷ 6 ∷ []

abbrev first : System
first = start 3 area

-- Thread 0 reads, and thread 1 spins in `write_lock`.
abbrev contended : System
contended = fire 1 enter_write (fire 0 turn (fire 0 turn (fire 0 enter_read first)))

contended-Reach : Reach 3 area contended
unfolding fire
contended-Reach = later 1 enter_write (omega arith) (
    later 0 turn (omega arith)
      (later 0 turn (omega arith) (later 0 enter_read (omega arith) initial)))

-- Thread 1 writes.
abbrev written : System
written = fire 1 turn (fire 1 enter_write first)

written-Reach : Reach 3 area written
unfolding fire
written-Reach = later 1 turn (omega arith) (later 1 enter_write (omega arith) initial)

-- Thread 2 spins in `read_lock`.
abbrev entered : System
entered = fire 2 enter_read first

entered-Reach : Reach 3 area entered
entered-Reach = later 2 enter_read (omega arith) initial

-- The writer spins while the reader holds the lock, takes it when the reader has left, stores a byte
-- and leaves; the lock is then free.
handover :
    run
      ((1, turn)
        ∷ (1, put 0 9)
        ∷ (0, leave)
        ∷ (1, turn)
        ∷ (0, enter_read)
        ∷ (0, turn)
        ∷ (1, put 1 8)
        ∷ (1, leave)
        ∷ [])
      contended
    ≡ record { mem = record { word = 0; area = 5 ∷ 8 ∷ [] }; pcs = read_spin ∷ idle ∷ idle ∷ [] }
unfolding run
handover = refl

write_excludes_example : ◌≡◌ {A = ℕ} 1 1
unfolding fire
write_excludes_example =
    write_excludes (omega arith) written-Reach 1 1 (omega arith) (omega arith) refl (inl refl)

guard_isolates_example : (fire 1 turn contended).mem.area ≡ contended.mem.area
unfolding fire
guard_isolates_example =
    guard_isolates (omega arith) contended-Reach 0 1 turn (omega arith) (omega arith) (omega arith)
      (inl refl)

observers_example :
    (reader_count contended.mem.word ≡ tally reads contended.pcs)
    × (is_write_locked contended.mem.word ≡ (tally writes contended.pcs == 1))
    × (tally writes contended.pcs ≤ 1)
observers_example = observers (omega arith) contended-Reach

write_turn_iff_example :
    (thread (fire 1 turn contended) 1 ≡ writing)
    ↔ (tally reads contended.pcs ≡ 0) × (tally writes contended.pcs ≡ 0)
unfolding fire
write_turn_iff_example = write_turn_iff (omega arith) contended-Reach 1 (omega arith) refl

read_turns_example : thread (fire 2 turn (fire 2 turn entered)) 2 ≡ reading
unfolding fire tally
read_turns_example = read_turns (omega arith) entered-Reach 2 (omega arith) refl refl

abbrev two_left : List Operation
two_left = lock_read ∷ lock_read ∷ unlock_read ∷ lock_read ∷ []

-- Three readers come and one goes, then nobody but a reader gets in.
calls_refine_example :
    (word : ℕ) × (operate_all 2 two_left init ≡ some word)
    × Encodes word (readers 2)
    × Matches (read_lock 2 word) (some (readers 3))
    × Matches (write_lock 2 word) none
    × (reader_count word ≡ 2)
    × (is_write_locked word ≡ false)
calls_refine_example = calls_refine 2 (omega arith) two_left (readers 2) (omega arith) refl
