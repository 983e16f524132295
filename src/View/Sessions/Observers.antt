-- ===== src/View/Sessions/Observers.antt =====
-- The methods that look at the lock without a guard.
use membridge.Common.{
  ℕ, ◌≡◌, refl, ap, inl, inr, Bool-cases, true, Option, some, List, [], length, ltb, ◌-◌, ◌==◌,
}
use membridge.Error.{PyResult, ok, err}
use membridge.Codec.Value.{Runtime}
use membridge.Codec.Pack.{pack_value, pack_mixed}
use membridge.Lock
use membridge.View.{View, Segment, data_size, check_bounds, position}
use membridge.View.Methods.{
  Method, read_all_call, zero_call, tell_call, reader_count_call, is_write_locked_call, size_call,
  read_range_call, write_call, write_mixed_call, seek_call, read_call, read_mixed_call, Reply,
  number, flag, invoke, reader_count, is_write_locked,
}
use membridge.View.Sessions.{Plan, observes, try, plan_packed, plan}
use membridge.View.Sessions.Invariant.{observes_lock}

module _ (rt : Runtime) {f : ℕ → Reply} {v' : View} where
  try_not :
      {A : Type 0} (r : PyResult A) (v : View) (p : A → Plan)
      → ((a : A) → ¬ (p a ≡ observes f v'))
      → ¬ (try r v p ≡ observes f v')
  unfolding try
  try_not (ok a) v p h e = h a e
  try_not (err x) v p h e = absurd (cc)

  packed_not :
      (v : View) (offset : Option ℕ) (packed : List ℕ)
      → ¬ (plan_packed rt v offset packed ≡ observes f v')
  unfolding plan_packed
  packed_not v offset packed =
      try_not (check_bounds v (position v offset) (length packed)) v _ λ u e. absurd (cc)

  -- A method whose plan is to look at the lock returns what it makes of the word, whatever that is, and
  -- leaves everything as it is.
  pub plan-observes :
      (c : Method) (v : View)
      → plan rt c v ≡ observes f v'
      → (observes_lock c ≡ true)
        × (v ≡ v')
        × ((m : Segment) → invoke rt 1 c v m ≡ some (ok (f m.word), v, m))
  unfolding plan invoke reader_count is_write_locked
  plan-observes read_all_call v e = absurd (cc)
  plan-observes zero_call v e = absurd (cc)
  plan-observes tell_call v e = absurd (cc)
  plan-observes reader_count_call v e = (
    refl,
    cc,
    λ m.
        let same : (λ w. number (Lock.reader_count w)) ≡ f = cc in
        ap (λ (g : ℕ → Reply). some (ok (g m.word), v, m)) same,
  )
  plan-observes is_write_locked_call v e = (
    refl,
    cc,
    λ m.
        let same : (λ w. flag (Lock.is_write_locked w)) ≡ f = cc in
        ap (λ (g : ℕ → Reply). some (ok (g m.word), v, m)) same,
  )
  plan-observes size_call v e = absurd (cc)
  plan-observes (read_range_call offset len) v e =
      absurd (try_not (check_bounds v offset len) v _ (λ u e. absurd (cc)) e)
  plan-observes (write_call value offset) v e =
      absurd (try_not (pack_value rt value []) v _ (packed_not v offset) e)
  plan-observes (write_mixed_call items offset) v e =
      absurd (try_not (pack_mixed rt items) v _ (packed_not v offset) e)
  plan-observes (seek_call pos) v e = elim (Bool-cases (ltb (data_size v) pos)) [
    | inl past ↦ let e' = rw (plan, past) at e in absurd (cc)
    | inr inside ↦ let e' = rw (plan, inside) at e in absurd (cc)
  ]
  plan-observes (read_call tag) v e = absurd (cc)
  plan-observes (read_mixed_call schema offset) v e =
      elim (Bool-cases (data_size v - position v offset == 0)) [
        | inl nothing ↦ let e' = rw (plan, nothing) at e in absurd (cc)
        | inr something ↦ let e' = rw (plan, something) at e in absurd (cc)
      ]
