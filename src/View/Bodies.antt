-- ===== src/View/Bodies.antt =====
-- A guard's body under a lock that is free, and what the bounds check lets through.
use membridge.Common.{
  ℕ, ◌+◌, ◌-◌, ◌^◌, ◌≤◌, ◌<◌, ◌≡◌, refl, ap, some, none, List, ◌++◌, arith, length, take, drop,
  length-append, length-take, length-drop, lt→ltb,
}
use membridge.Error.{PyResult, ok}
use membridge.Lock.{add_one, read_unlock, write_unlock}
use membridge.Lock.Loops.{read_lock_lem, write_lock_lem}
use membridge.View.{View, Segment, data_size, check_bounds, copy_into, slice}
use membridge.View.Guard.{Done, read_guarded, write_guarded}

-- A call that returns, in a state of which `P` holds.
abbrev pub Returns : {A : Type 0} → (PyResult A → View → Segment → Type 0) → Done A → Type 0
Returns P none = ⊥
Returns P (some (r, v, m)) = P r v m

unlock_again : (word : ℕ) → word < 2 ^ 31 - 1 → read_unlock (add_one word) ≡ word
unfolding read_unlock
unlock_again word h = omega arith

-- Under a lock that no writer holds, a reader's body runs once and the segment is as before.
pub read_guarded_run :
    {A : Type 0} (spins : ℕ) (m : Segment) (body : List ℕ → PyResult A × View)
    → 0 < spins
    → m.word < 2 ^ 31 - 1
    → let (r, v') = body m.area in read_guarded spins m body ≡ some (r, v', m)
unfolding read_guarded
read_guarded_run spins m body some_fuel free =
    rw (read_lock_lem spins m.word some_fuel, lt→ltb m.word (2 ^ 31) (omega arith))
      (ap (λ w. some ((body m.area).0, (body m.area).1, record m { word = w }))
        (unlock_again m.word free))

pub write_guarded_run :
    {A : Type 0} (spins : ℕ) (m : Segment) (body : List ℕ → PyResult A × View × List ℕ)
    → 0 < spins
    → m.word ≡ 0
    → let (r, v', area') = body m.area in
      write_guarded spins m body ≡ some (r, v', record m { area = area' })
unfolding write_guarded
write_guarded_run spins m body some_fuel free =
    rw (write_lock_lem spins m.word some_fuel, free) (unfold write_unlock in refl)

pub length-copy_into :
    (area : List ℕ) (pos : ℕ) (bs : List ℕ)
    → pos + length bs ≤ length area
    → length (copy_into area pos bs) ≡ length area
unfolding copy_into
length-copy_into area pos bs h = omega (
  arith,
  length-append (take pos area) (bs ++ drop (pos + length bs) area),
  length-append bs (drop (pos + length bs) area),
  length-take pos area,
  length-drop (pos + length bs) area,
)

-- What `check_bounds` lets through.
pub check_bounds-le :
    (v : View) (offset len : ℕ) (u : Unit {0})
    → v.size < 2 ^ 63
    → check_bounds v offset len ≡ ok u
    → (0 < len) × (offset + len ≤ data_size v)
unfolding check_bounds
check_bounds-le v offset len u small e = ground arith

pub length-slice : (area : List ℕ) (pos len : ℕ) → length (slice area pos len) ≤ length area - pos
unfolding slice
length-slice area pos len = omega (arith, length-take len (drop pos area), length-drop pos area)
