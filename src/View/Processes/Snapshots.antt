-- ===== src/View/Processes/Snapshots.antt =====
-- What a call of `read_range` returns while other processes read and write.
use membridge.Common.{
  ℕ, ◌<◌, ◌≡◌, ◌^◌, ◌⊎◌, inl, inr, refl, sym, ap, subst, ◌∙◌, List, arith, length, set,
  get_or-replicate, set-get_or, All,
}
use membridge.Error.{PyResult, ok, err}
use membridge.Lock.{init}
use membridge.View.{View, check_bounds, data_size}
use membridge.View.Bodies.{check_bounds-le}
use membridge.View.Valid.{IsValid}
use membridge.View.Processes.{
  Call, read_range, write, copy_out, copy_in, InBounds, Pc, outside, reader_spin, writer_spin,
  System, Action, call, turn, checked, begin, act, note, fire, Reach, initial, later,
}
use membridge.View.Processes.Steps.{advance-Inv}
use membridge.View.Processes.Projection.{thread}
use membridge.View.Processes.Invariant.{replay, Stands, IsSnapshot, Settled, Inv, still-Inv}

checked-Stands :
    (base area : List ℕ) (r : PyResult (Unit {0})) (p : Pc)
    → ((u : Unit {0}) → r ≡ ok u → Stands base area p)
    → Stands base area (checked r p)
unfolding checked
checked-Stands base area (ok u) p h = h u refl
checked-Stands base area (err x) p h = tt

-- A call changes no process but one that stands outside.
begin_cases :
    (v : View) (base area : List ℕ) (c : Call) (p : Pc)
    → v.size < 2 ^ 63
    → length area ≡ data_size v
    → InBounds v (call c)
    → (begin v c p ≡ p) ⊎ ((p ≡ outside) × Stands base area (begin v c p))
unfolding begin
begin_cases v base area (read_range offset len) outside small sized fits = inr (
  refl,
  checked-Stands base area (check_bounds v offset len) (reader_spin offset len)
      (λ u e. omega (arith, sized, check_bounds-le v offset len u small e)),
)
begin_cases v base area (write pos packed) outside small sized fits = inr (
  refl,
  checked-Stands base area (check_bounds v pos (length packed)) (writer_spin pos packed)
      (λ u e. omega (arith, sized, check_bounds-le v pos (length packed) u small e)),
)
begin_cases v base area (copy_out offset len) outside small sized fits =
    inr (refl, omega (arith, sized, fits))
begin_cases v base area (copy_in pos packed) outside small sized fits =
    inr (refl, omega (arith, sized, fits))
begin_cases v base area c p small sized fits = inl refl

module _ {v : View} {n : ℕ} {start : List ℕ} (few : n < 2 ^ 31) (small : v.size < 2 ^ 63)
    (sized : length start ≡ data_size v) where
  fire-Inv :
      (i : ℕ) (a : Action) {s : System}
      → i < length s.pcs
      → InBounds v a
      → Reach v n start s
      → Inv start s
      → Inv start (fire v i a s)
  unfolding fire act note
  fire-Inv i turn {s} lt fits r inv =
      advance-Inv few r inv i lt (thread s i) refl (later i turn lt fits r)
  fire-Inv i (call c) {s} lt fits r inv =
      elim (begin_cases v (replay s.written start) s.mem.area c (thread s i) small
        (inv.sized ∙ sized) fits) [
          | inl same ↦
              subst (λ l. Inv start (record s { pcs = l }))
                (sym (ap (λ q. set s.pcs i q) same ∙ set-get_or s.pcs i outside)) inv
          | inr (at_rest, stands) ↦
              still-Inv start s inv i lt s.mem (begin v c (thread s i))
                (λ w. let w' = rw at_rest at w in cc) refl stands
        ]

  pub Reach-Inv : {s : System} → Reach v n start s → Inv start s
  Reach-Inv initial = record {
    sized = refl;
    stands = λ j hj. subst (λ q. Stands start start q) (sym (get_or-replicate n outside j)) tt;
    settled = inr refl;
    snapshots = tt;
  }
  Reach-Inv (later i a lt fits r) = fire-Inv i a lt fits r (Reach-Inv r)

-- In every reachable state of fewer than 2 ^ 31 processes, on a segment whose lock is free and for
-- which their view is valid: each call of `read_range` that is over has returned the bytes that stood
-- in its range after the calls of `write` that were over by then, one after the other, and nothing
-- else; and while no process is inside a write guard, the area is as all those calls left it.
pub read_range_snapshots :
    {v : View} {n : ℕ} {start : List ℕ} {s : System}
    → n < 2 ^ 31
    → IsValid v (record { word = init; area = start })
    → Reach v n start s
    → All (IsSnapshot start s.written) s.answers × Settled start s
read_range_snapshots few valid r =
    let inv = Reach-Inv few valid.limit valid.sized r in (inv.snapshots, inv.settled)
