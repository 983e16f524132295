-- ===== src/Tests/MessageRuns.antt =====
-- A message that goes from the creator of a segment to a process that opens it.
use membridge.Common.{ℕ, ◌≡◌, refl, true, false, none, some, List, [], ◌∷◌, ◌++◌, replicate, arith}
use membridge.Common.Words.{is_power_of_two}
use membridge.Error.{ok, map_err}
use membridge.Codec.Value.{bytes, value}
use membridge.Codec.Bytes.{to_ne_bytes, from_ne_bytes}
use membridge.Platform.Unix
use membridge.Platform.Unix.{unix}
use membridge.Codec.Pack.{pack_item}
use membridge.Fifo
use membridge.Ring
use membridge.Ring.Client.{Call, push_call, pop_call, used_call, pushed, popped, number, spec_run}
use membridge.Ring.Layout.{load, flush}
use membridge.SharedMemory.{create, open_segment, spsc, validate_name, shared}
use membridge.SharedMemory.Rings.{calls_on}
use membridge.SharedMemory.Messages.{spec_run-calls_on}
use membridge.Tests.Samples.{sample}
use membridge.Tests.SharedRuns.{one_segment, resized, mapping, creator, opener}
use membridge.Tests.HandoffRuns.{one_segment-Segments}

abbrev sending : List Call
sending = push_call (value (bytes (5 ∷ 6 ∷ []))) ∷ push_call (value (bytes [])) ∷ []

abbrev receiving : List Call
receiving = used_call ∷ pop_call none ∷ []

-- The header of an empty ring of eight bytes.
abbrev empty : List ℕ
empty = replicate 16 0 ++ (8 ∷ replicate 15 0)

abbrev filled : List ℕ
filled =
    replicate 8 0
    ++ (6 ∷ replicate 7 0 ++ (8 ∷ replicate 7 0 ++ (2 ∷ 0 ∷ 0 ∷ 0 ∷ 5 ∷ 6 ∷ 0 ∷ 0 ∷ [])))

made : create sample (unix one_segment) "/seg" 32 [] ≡ (ok (creator 32), replicate 32 0)
unfolding create validate_name resized shared Unix.create map_err
made = refl

ring_run : spsc sample (unix one_segment) (creator 32) (replicate 32 0) ≡ some (ok (tt, 32), empty)
unfolding spsc mapping Unix.map Ring.new flush to_ne_bytes load is_power_of_two
ring_run = refl

open_run :
    open_segment sample
      (unix one_segment)
      "/seg"
      none
      (calls_on sample one_segment 32 tt sending empty).1
    ≡ (ok (opener 32), filled)
unfolding open_segment validate_name shared Unix.attach Unix.open_handle calls_on flush to_ne_bytes
    from_ne_bytes load pack_item Ring.push_payload Ring.index
open_run = refl

ring_again_run : spsc sample (unix one_segment) (opener 32) filled ≡ some (ok (tt, 32), filled)
unfolding spsc mapping Unix.map Ring.new
ring_again_run = refl

-- The second message does not fit; the first is counted, and popped.
spec_run-calls_on_example :
    (calls_on sample one_segment 32 tt sending empty).0
      ++ (calls_on sample one_segment 32 tt receiving filled).0
    ≡ pushed (ok true) ∷ pushed (ok false) ∷ number 6 ∷ popped (ok (some (bytes (5 ∷ 6 ∷ [])))) ∷ []
unfolding spec_run pack_item Fifo.pop Fifo.push Ring.typed
spec_run-calls_on_example =
    spec_run-calls_on sample one_segment "/seg" one_segment-Segments 32 3 none sending receiving []
      (omega arith) refl made ring_run open_run ring_again_run
