-- ===== src/Lock/Threads.antt =====
-- Threads and processes that share one lock and the data behind it, interleaved between any two
-- accesses of the atomic word.
use membridge.Common.{
  ℕ, ◌<◌, some, none, List, [], ◌∷◌, length, get_or, set, replicate, if◌then◌else◌,
}
use membridge.Lock.{read_load, read_exchange, write_exchange, read_unlock, write_unlock, init}

-- Where a thread stands: outside, at the head of a loop, before the exchange of `read_lock` with the
-- value loaded, or inside a `ReadGuard` or a `WriteGuard`.
pub data Pc : Type 0 where
  idle read_spin : Pc
  read_loaded : (cur : ℕ) → Pc
  reading write_spin writing : Pc

pub record Shared : Type 0 where
  pub word : ℕ
  pub area : List ℕ

-- What a thread does next. `enter_read` and `enter_write` call a guard's `new`, `leave` drops a
-- guard, `put` stores one byte under a write guard, and `turn` is one access of a loop.
pub data Action : Type 0 where
  enter_read enter_write turn leave : Action
  put : (at byte : ℕ) → Action

-- A loop's turn: the load and test of `read_lock`, or an exchange.
unfoldable pub advance : Shared → Pc → Shared × Pc
unfolding read_load read_exchange write_exchange
advance m idle = (m, idle)
advance m read_spin = elim (read_load m.word) [
  | none ↦ (m, read_spin)
  | some cur ↦ (m, read_loaded cur)
]
advance m (read_loaded cur) =
    let (won, word') = read_exchange m.word cur in
    if won then (record m { word = word' }, reading) else (m, read_spin)
advance m reading = (m, reading)
advance m write_spin =
    let (won, word') = write_exchange m.word in
    if won then (record m { word = word' }, writing) else (m, write_spin)
advance m writing = (m, writing)

-- An action that the thread cannot take where it stands changes nothing.
unfoldable pub act : Action → Shared → Pc → Shared × Pc
unfolding advance read_unlock write_unlock
act enter_read m idle = (m, read_spin)
act enter_write m idle = (m, write_spin)
act turn m p = advance m p
act leave m reading = (record m { word = read_unlock m.word }, idle)
act leave m writing = (record m { word = write_unlock m.word }, idle)
act (put at byte) m writing = (record m { area = set m.area at byte }, writing)
act _ m p = (m, p)

pub record System : Type 0 where
  pub mem : Shared
  pub pcs : List Pc

-- Thread `i` acts.
unfoldable pub fire : ℕ → Action → System → System
unfolding act
fire i a s =
    let (mem', pc') = act a s.mem (get_or s.pcs i idle) in
    record { mem = mem'; pcs = set s.pcs i pc' }

-- `n` threads, after the creator initialised the lock.
abbrev pub start : ℕ → List ℕ → System
start n area = record { mem = record { word = init; area = area }; pcs = replicate n idle }

pub data Reach (n : ℕ) (area : List ℕ) : System → Type 0 where
  initial : Reach n area (start n area)
  later :
      {s : System} (i : ℕ) (a : Action)
      → i < length s.pcs
      → Reach n area s
      → Reach n area (fire i a s)

-- The state after a schedule of (thread, action) pairs.
unfoldable pub run : List (ℕ × Action) → System → System
unfolding fire
run [] s = s
run ((i, a) ∷ rest) s = run rest (fire i a s)
