-- ===== src/View/Sessions/Told.antt =====
-- What `reader_count` and `is_write_locked` of src/mapped_view.rs tell amid the calls of others.
use membridge.Common.{
  ℕ, ◌-◌, ◌<◌, ◌≤◌, ◌≡◌, ◌^◌, refl, none, List, [], ◌∷◌, ◌++◌, length, map, ◌==◌,
}
use membridge.Error.{ok}
use membridge.Codec.Value.{Runtime}
use membridge.Lock.Tally.{tally}
use membridge.Lock.Invariant.{reads, writes}
use membridge.Lock.Exclusion.{observers}
use membridge.View.{View}
use membridge.View.Methods.{Method, reader_count_call, is_write_locked_call, Reply, number, flag}
use membridge.View.Processes.Projection.{phase, Reach-project}
use membridge.View.Sessions.{Entry, System, call, user, return, begin, plan, called, fire, Reach}
use membridge.View.Sessions.Linear.{sessions-Inv}

-- Process `i`, with this view, has called the method, was told this, and has the view that it had.
abbrev pub told : ℕ → View → Method → Reply → Entry
told i v c answer = record { by = i; method = c; before = v; result = ok answer; after = v }

module _ (rt : Runtime) {size n : ℕ} {area : List ℕ} {s : System} where
  -- In every state that fewer than 2 ^ 31 processes reach on a segment of more than 4 and fewer than
  -- 2 ^ 63 bytes whose lock is free, whatever accesses they interleave: a process that is in no call and
  -- calls `reader_count` is at once told how many processes are inside a read guard, and one that calls
  -- `is_write_locked` whether exactly one is inside a write guard; at most one is; and the view of the
  -- process is left as it was.
  pub observers_tell :
      (i : ℕ)
      → n < 2 ^ 31
      → 4 < size
      → size < 2 ^ 63
      → length area ≡ size - 4
      → Reach rt size n area s
      → (user rt size s i).calling ≡ none
      → ((fire rt size i (call reader_count_call) s).history
          ≡ s.history
            ++ (told i
                  (user rt size s i).view
                  reader_count_call
                  (number (tally reads (map phase s.below.pcs)))
                ∷ []))
        × ((fire rt size i (call is_write_locked_call) s).history
            ≡ s.history
              ++ (told i
                    (user rt size s i).view
                    is_write_locked_call
                    (flag (tally writes (map phase s.below.pcs) == 1))
                  ∷ []))
        × (tally writes (map phase s.below.pcs) ≤ 1)
  unfolding fire
  observers_tell i few header small exact r rest =
      let inv =
        sessions-Inv rt (record { few = few; header = header; small = small; exact = exact }) r in
      let (readers, writer, one) = observers few (Reach-project inv.reached) in
      (
        rw (fire, called, rest, begin, plan, return, readers) refl,
        rw (fire, called, rest, begin, plan, return, writer) refl,
        one,
      )
