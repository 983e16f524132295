-- ===== src/View/Guard.antt =====
-- `ReadGuard` and `WriteGuard` round the body of a method: the lock is taken before it and released
-- behind it, whether it succeeds or fails.
use membridge.Common.{ℕ, Option, some, none, List}
use membridge.Error.{PyResult}
use membridge.Lock.{read_lock, read_unlock, write_lock, write_unlock}
use membridge.View.{View, Segment}

-- What a call leaves behind. `none`: it is still spinning when the fuel for the loop is used up.
abbrev pub Done : Type 0 → Type 0
Done A = Option (PyResult A × View × Segment)

-- The body reads the area, and may move the cursor of its own view.
unfoldable pub reading : {A : Type 0} → Option ℕ → Segment → (List ℕ → PyResult A × View) → Done A
unfolding read_unlock
reading none m body = none
reading (some held) m body =
    let (result, v') = body m.area in some (result, v', record m { word = read_unlock held })

-- The body also returns the area as it leaves it.
unfoldable pub writing :
    {A : Type 0} → Option ℕ → Segment → (List ℕ → PyResult A × View × List ℕ) → Done A
unfolding write_unlock
writing none m body = none
writing (some held) m body =
    let (result, v', area') = body m.area in
    some (result, v', record { word = write_unlock held; area = area' })

-- A call that returns before it takes a guard.
abbrev pub at_once : {A : Type 0} → PyResult A → View → Segment → Done A
at_once r v m = some (r, v, m)

-- `ReadGuard::new` and `WriteGuard::new`, with the fuel for their loops.
unfoldable pub read_guarded : {A : Type 0} → ℕ → Segment → (List ℕ → PyResult A × View) → Done A
unfolding reading read_lock
read_guarded spins m body = reading (read_lock spins m.word) m body

unfoldable pub write_guarded :
    {A : Type 0} → ℕ → Segment → (List ℕ → PyResult A × View × List ℕ) → Done A
unfolding writing write_lock
write_guarded spins m body = writing (write_lock spins m.word) m body
