-- ===== src/Lock.antt =====
-- src/rwlock.rs: the reader-writer lock in one atomic `i32`. The word is the bit pattern of that
-- `i32`, a number below 2 ^ 32.
pub mod Threads
pub mod Tally
pub mod Invariant
pub mod Exclusion
pub mod Loops
pub mod Calls
use membridge.Common.{
  ℕ, zero, suc, ◌+◌, ◌-◌, ◌%◌, ◌^◌, Bool, true, false, ◌&&◌, Option, some, none, ltb, ◌==◌,
  if◌then◌else◌,
}

-- The pattern of -1: one writer holds the lock.
abbrev pub write_locked : ℕ
write_locked = 2 ^ 32 - 1

-- `i32` operations on patterns: `>= 0`, `+ 1`, `- 1`.
abbrev pub is_nonneg : ℕ → Bool
is_nonneg w = ltb w (2 ^ 31)

abbrev pub add_one : ℕ → ℕ
add_one w = (w + 1) % 2 ^ 32

abbrev pub sub_one : ℕ → ℕ
sub_one w = (w + 2 ^ 32 - 1) % 2 ^ 32

-- `compare_exchange(current, new)`: whether it wrote, and the word after it.
unfoldable pub compare_exchange : (word current new : ℕ) → Bool × ℕ
compare_exchange word current new = if word == current then (true, new) else (false, word)

abbrev pub init : ℕ
init = 0

-- One load of `read_lock` and the test of it: the value that its exchange will expect.
unfoldable pub read_load : ℕ → Option ℕ
read_load word = if is_nonneg word then some word else none

unfoldable pub read_exchange : (word cur : ℕ) → Bool × ℕ
unfolding compare_exchange
read_exchange word cur = compare_exchange word cur (add_one cur)

unfoldable pub write_exchange : ℕ → Bool × ℕ
unfolding compare_exchange
write_exchange word = compare_exchange word 0 write_locked

-- `fetch_sub(1)` and `store(0)`
unfoldable pub read_unlock : ℕ → ℕ
read_unlock word = sub_one word

unfoldable pub write_unlock : ℕ → ℕ
write_unlock word = 0

unfoldable pub reader_count : ℕ → ℕ
reader_count word = if ltb 0 word && is_nonneg word then word else 0

unfoldable pub is_write_locked : ℕ → Bool
is_write_locked word = word == write_locked

-- The loops while no other process touches the word, with fuel for their rounds: the word once the
-- lock is held, or `none` while they still spin.
unfoldable pub read_lock : ℕ → ℕ → Option ℕ
unfolding read_load read_exchange
read_lock zero word = none
read_lock (suc spins) word =
    let again = read_lock spins word in
    elim (read_load word) [
      | none ↦ again
      | some cur ↦ let (won, word') = read_exchange word cur in if won then some word' else again
    ]

unfoldable pub write_lock : ℕ → ℕ → Option ℕ
unfolding write_exchange
write_lock zero word = none
write_lock (suc spins) word =
    let again = write_lock spins word in
    let (won, word') = write_exchange word in if won then some word' else again
