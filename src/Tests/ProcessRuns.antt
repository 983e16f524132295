-- ===== src/Tests/ProcessRuns.antt =====
-- src/mapped_view.rs with a writer and a reader in one schedule.
use membridge.Common.{ℕ, ◌≡◌, refl, List, [], ◌∷◌, All, arith}
use membridge.Lock.{init}
use membridge.View.{View, check_bounds}
use membridge.View.Valid.{IsValid}
use membridge.View.Processes.{
  read_range, write, System, Action, call, turn, start, Reach, initial, run,
}
use membridge.View.Processes.Projection.{run-Reach}
use membridge.View.Processes.Invariant.{IsSnapshot, Settled}
use membridge.View.Processes.Snapshots.{read_range_snapshots}

abbrev four : View
four = record { size = 8; cursor = 0 }

abbrev area : List ℕ
area = 1 ∷ 2 ∷ 3 ∷ 4 ∷ []

-- Process 1 asks for three bytes while process 0 stores two of them, and gets both.
abbrev schedule : List (ℕ × Action)
schedule =
    (0, call (write 1 (8 ∷ 9 ∷ [])))
    ∷ (1, call (read_range 0 3))
    ∷ (0, turn)
    ∷ (0, turn)
    ∷ (1, turn)
    ∷ (0, turn)
    ∷ (0, turn)
    ∷ (1, turn)
    ∷ (1, turn)
    ∷ (1, turn)
    ∷ (0, call (write 0 (7 ∷ [])))
    ∷ (0, turn)
    ∷ (1, turn)
    ∷ (1, turn)
    ∷ (1, turn)
    ∷ []

abbrev both : System
both = run four schedule (start 2 area)

both_answers :
    both.answers
    ≡ record {
      offset = 0;
      len = 3;
      data_read = 1 ∷ 8 ∷ 9 ∷ [];
      seen = record { pos = 1; packed = 8 ∷ 9 ∷ [] } ∷ [];
    }
      ∷ []
unfolding run check_bounds
both_answers = refl

both-Reach : Reach four 2 area both
both-Reach = run-Reach schedule (start 2 area) initial refl

four-IsValid : IsValid four (record { word = init; area = area })
four-IsValid = record {
  header = omega arith;
  limit = omega arith;
  sized = refl;
  cursor_le = omega arith;
}

read_range_snapshots_example : All (IsSnapshot area both.written) both.answers × Settled area both
read_range_snapshots_example = read_range_snapshots (omega arith) four-IsValid both-Reach

abbrev first : System
first = start 2 area
