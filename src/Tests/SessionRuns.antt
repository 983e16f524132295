-- ===== src/Tests/SessionRuns.antt =====
-- src/mapped_view.rs with two processes in their calls, each through a view of its own.
use membridge.Common.{
  ℕ, ◌≡◌, ◌<◌, ◌⊎◌, refl, true, false, some, none, List, [], ◌∷◌, ◌++◌, ◌≤◌, arith, length,
}
use membridge.Error.{PyResult, ok}
use membridge.Codec.Value.{bool, bytes}
use membridge.Lock.Threads.{writing}
use membridge.Lock.Tally.{tally}
use membridge.Codec.Pack.{pack_value}
use membridge.View.{View, Segment, check_bounds, position}
use membridge.View.Processes
use membridge.View.Processes.{outside}
use membridge.View.Processes.Alone.{shared}
use membridge.View.Methods.{
  write_call, read_range_call, seek_call, zero_call, reader_count_call, is_write_locked_call,
  number, flag, one, unit, invoke, Reply,
}
use membridge.View.Processes.Projection.{phase, thread}
use membridge.View.Sessions.{Action, call, turn, System, start, fire, run, initial, plan, return}
use membridge.View.Sessions.Alone.{accesses, turns}
use membridge.View.Sessions.Completes.{call_alone}
use membridge.View.Sessions.Invariant.{Executes}
use membridge.View.Sessions.Linear.{calls_in_order}
use membridge.View.Sessions.Schedules.{run-Reach}
use membridge.View.Sessions.Told.{told, observers_tell}
use membridge.Tests.Samples.{sample}

abbrev area : List ℕ
area = 5 ∷ 6 ∷ []

-- Process 1 calls while process 0 is about to store, and returns behind it.
abbrev schedule : List (ℕ × Action)
schedule =
    (0, call (write_call (bool true) none))
    ∷ (1, call (read_range_call 0 2))
    ∷ (0, turn)
    ∷ (1, turn)
    ∷ (0, turn)
    ∷ (0, turn)
    ∷ (1, turn)
    ∷ (0, call (seek_call 0))
    ∷ (1, turn)
    ∷ (1, turn)
    ∷ (1, turn)
    ∷ (1, turn)
    ∷ []

abbrev ended : System
ended = run sample 6 schedule (start sample 6 2 area)

ended_history :
    ended.history
    ≡ record {
      by = 0;
      method = write_call (bool true) none;
      before = record { size = 6; cursor = 0 };
      result = ok unit;
      after = record { size = 6; cursor = 1 };
    }
      ∷ record {
        by = 0;
        method = seek_call 0;
        before = record { size = 6; cursor = 1 };
        result = ok unit;
        after = record { size = 6; cursor = 0 };
      }
      ∷ record {
        by = 1;
        method = read_range_call 0 2;
        before = record { size = 6; cursor = 0 };
        result = ok (one (bytes (1 ∷ 6 ∷ [])));
        after = record { size = 6; cursor = 0 };
      }
      ∷ []
unfolding run check_bounds pack_value position
ended_history = refl

calls_in_order_example :
    (area' : List ℕ) × Executes sample ended.history area area'
    × (((j : ℕ) × (j < length ended.below.pcs) × (phase (thread ended.below j) ≡ writing))
        ⊎ (ended.below.mem.area ≡ area'))
calls_in_order_example =
    calls_in_order sample {n = 2} (omega arith) (omega arith) (omega arith) refl
      (run-Reach sample 6 schedule (start sample 6 2 area) initial refl)

-- Process 1 is inside its read guard.
abbrev entered : List (ℕ × Action)
entered = (1, call (read_range_call 0 2)) ∷ (1, turn) ∷ (1, turn) ∷ []

abbrev reading_one : System
reading_one = run sample 6 entered (start sample 6 2 area)

observers_tell_example :
    ((fire sample 6 0 (call reader_count_call) reading_one).history
      ≡ reading_one.history
        ++ (told 0 (record { size = 6; cursor = 0 }) reader_count_call (number 1) ∷ []))
    × ((fire sample 6 0 (call is_write_locked_call) reading_one).history
        ≡ reading_one.history
          ++ (told 0 (record { size = 6; cursor = 0 }) is_write_locked_call (flag false) ∷ []))
    × (0 ≤ 1)
unfolding run tally check_bounds
observers_tell_example =
    observers_tell sample {n = 2} {area = area} {s = reading_one} 0 (omega arith) (omega arith)
      (omega arith) refl (run-Reach sample 6 entered (start sample 6 2 area) initial refl) refl

abbrev mapped_twice : System
mapped_twice = start sample 6 2 area

-- Process 1 zeroes the area while process 0 takes no turn.
call_alone_example :
    (result : PyResult Reply) × (v' : View) × (m' : Segment) × (invoke sample 1 zero_call
        (record { size = 6; cursor = 0 })
        (record { word = 0; area = area })
      ≡ some (result, v', m'))
    × (b : Processes.System) × (run sample 6
          ((1, call zero_call)
            ∷ turns 1 (accesses (plan sample zero_call (record { size = 6; cursor = 0 }))))
          mapped_twice
        ≡ return sample 6 1 zero_call
            (record { size = 6; cursor = 0 })
            (result, v')
            (record mapped_twice { below = b }))
    × (b.mem ≡ shared m')
    × (b.pcs ≡ outside ∷ outside ∷ [])
call_alone_example =
    call_alone sample 6 mapped_twice 1 (omega arith) (omega arith) refl refl refl zero_call 1
      (omega arith)
      (record { header = omega arith; limit = omega arith; sized = refl; cursor_le = omega arith })
