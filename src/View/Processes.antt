-- ===== src/View/Processes.antt =====
-- src/mapped_view.rs in several processes at once: `read_range` and `write`, interleaved between any
-- two accesses of the lock's word and of the bytes.
pub mod Projection
pub mod Invariant
pub mod Steps
pub mod Snapshots
pub mod Alone
pub mod WriteAlone
pub mod ReadAlone
use membridge.Common.{
  ℕ, ◌+◌, ◌≤◌, ◌<◌, some, none, List, [], ◌∷◌, ◌++◌, length, get_or, set, replicate, ltb,
  if◌then◌else◌,
}
use membridge.Error.{PyResult, ok, err}
use membridge.Lock.{read_load, read_exchange, write_exchange, read_unlock, write_unlock, init}
use membridge.Lock.Threads.{Shared}
use membridge.View.{View, check_bounds, data_size}

-- A call with its offset, or the cursor that stands for it, and the packed bytes of a `write`.
-- `copy_out` and `copy_in` are the guarded part of a method, behind whatever it checks first.
pub data Call : Type 0 where
  read_range copy_out : (offset len : ℕ) → Call
  write copy_in : (pos : ℕ) (packed : List ℕ) → Call

-- Where a process stands: outside a call; in the loop of `read_lock`, before its exchange, or under
-- its read guard with the bytes that it copied; in the loop of `write_lock`, or under its write guard
-- before byte `i`.
pub data Pc : Type 0 where
  outside : Pc
  reader_spin : (offset len : ℕ) → Pc
  reader_loaded : (offset len cur : ℕ) → Pc
  copying : (offset len : ℕ) (got : List ℕ) → Pc
  writer_spin : (pos : ℕ) (packed : List ℕ) → Pc
  storing : (pos : ℕ) (packed : List ℕ) (i : ℕ) → Pc

pub record Write : Type 0 where
  pub pos : ℕ
  pub packed : List ℕ

-- `seen` are the writes that were over when the call returned.
pub record Answer : Type 0 where
  pub offset : ℕ
  pub len : ℕ
  pub data_read : List ℕ
  pub seen : List Write

-- `written` are the calls of `write` that are over, and `answers` those of `read_range`.
pub record System : Type 0 where
  pub mem : Shared
  pub pcs : List Pc
  pub written : List Write
  pub answers : List Answer

pub data Event : Type 0 where
  quiet : Event
  answered : (offset len : ℕ) → List ℕ → Event
  stored : (pos : ℕ) → List ℕ → Event

pub data Action : Type 0 where
  call : Call → Action
  turn : Action

-- A call up to its guard. One that is out of bounds fails before it.
unfoldable pub checked : PyResult (Unit {0}) → Pc → Pc
checked (ok u) p = p
checked (err e) p = outside

unfoldable pub begin : View → Call → Pc → Pc
unfolding checked
begin v (read_range offset len) outside =
    checked (check_bounds v offset len) (reader_spin offset len)
begin v (write pos packed) outside =
    checked (check_bounds v pos (length packed)) (writer_spin pos packed)
begin v (copy_out offset len) outside = reader_spin offset len
begin v (copy_in pos packed) outside = writer_spin pos packed
begin v c p = p

-- One access: of the lock's word, as a guard is taken or dropped, or of a byte.
unfoldable pub advance : Shared → Pc → Shared × Pc × Event
unfolding read_load read_exchange write_exchange read_unlock write_unlock
advance m outside = (m, outside, quiet)
advance m (reader_spin offset len) = elim (read_load m.word) [
  | none ↦ (m, reader_spin offset len, quiet)
  | some cur ↦ (m, reader_loaded offset len cur, quiet)
]
advance m (reader_loaded offset len cur) =
    let (won, word') = read_exchange m.word cur in
    if won
    then (record m { word = word' }, copying offset len [], quiet)
    else (m, reader_spin offset len, quiet)
advance m (copying offset len got) =
    if ltb (length got) len
    then (m, copying offset len (got ++ (get_or m.area (offset + length got) 0 ∷ [])), quiet)
    else (record m { word = read_unlock m.word }, outside, answered offset len got)
advance m (writer_spin pos packed) =
    let (won, word') = write_exchange m.word in
    if won
    then (record m { word = word' }, storing pos packed 0, quiet)
    else (m, writer_spin pos packed, quiet)
advance m (storing pos packed i) =
    if ltb i (length packed)
    then (
      record m { area = set m.area (pos + i) (get_or packed i 0) },
      storing pos packed (i + 1),
      quiet,
    )
    else (record m { word = write_unlock m.word }, outside, stored pos packed)

unfoldable pub act : View → Action → Shared → Pc → Shared × Pc × Event
unfolding begin advance
act v (call c) m p = (m, begin v c p, quiet)
act v turn m p = advance m p

unfoldable pub note : Event → System → System
note quiet s = s
note (answered offset len got) s = record s {
  answers =
      s.answers ++ (record { offset = offset; len = len; data_read = got; seen = s.written } ∷ []);
}
note (stored pos packed) s = record s {
  written = s.written ++ (record { pos = pos; packed = packed } ∷ []);
}

-- Process `i` acts.
unfoldable pub fire : View → ℕ → Action → System → System
unfolding act note
fire v i a s =
    let (mem', pc', event) = act v a s.mem (get_or s.pcs i outside) in
    note event (record s { mem = mem'; pcs = set s.pcs i pc' })

-- `n` processes, after the creator initialised the lock.
abbrev pub start : ℕ → List ℕ → System
start n area = record {
  mem = record { word = init; area = area };
  pcs = replicate n outside;
  written = [];
  answers = [];
}

-- A method enters its guarded part with a range inside the data area.
abbrev pub InBounds : View → Action → Type 0
InBounds v (call (copy_out offset len)) = offset + len ≤ data_size v
InBounds v (call (copy_in pos packed)) = pos + length packed ≤ data_size v
InBounds v _ = Unit

pub data Reach (v : View) (n : ℕ) (area : List ℕ) : System → Type 0 where
  initial : Reach v n area (start n area)
  later :
      {s : System} (i : ℕ) (a : Action)
      → i < length s.pcs
      → InBounds v a
      → Reach v n area s
      → Reach v n area (fire v i a s)

-- The state after a schedule of (process, action) pairs.
unfoldable pub run : View → List (ℕ × Action) → System → System
unfolding fire
run v [] s = s
run v ((i, a) ∷ rest) s = run v rest (fire v i a s)
