-- ===== src/Fifo.antt =====
-- The specification of the ring buffer: a queue of whole messages, bounded by the bytes that the
-- messages take with their prefixes of four bytes.
use membridge.Common.{
  ℕ, ◌+◌, Bool, true, false, Option, some, none, List, [], ◌∷◌, ◌++◌, length, ltb, if◌then◌else◌,
}
use membridge.Error.{message_too_large, PyResult, ok, invalid}

abbrev pub Message : Type 0
Message = List ℕ

abbrev pub Queue : Type 0
Queue = List Message

-- The bytes that a queue takes.
abbrev pub size : Queue → ℕ
size [] = 0
size (m ∷ q) = 4 + length m + size q

unfoldable pub pop : Queue → Option Message × Queue
pop [] = (none, [])
pop (m ∷ q) = (some m, q)

-- A message larger than the queue is an error, one that does not fit now is refused, and any other
-- goes to the end. `map_size` only fills the error's text.
unfoldable pub push : (map_size cap : ℕ) → Message → Queue → PyResult Bool × Queue
push map_size cap m q =
    if ltb cap (4 + length m)
    then (invalid (message_too_large (4 + length m) cap map_size), q)
    else if ltb cap (size q + (4 + length m))
    then (ok false, q)
    else (ok true, q ++ (m ∷ []))
