-- ===== src/Tests/RingRuns.antt =====
-- src/spsc.rs on a ring of sixteen bytes whose positions are about to wrap.
use membridge.Common.{
  ℕ, ◌+◌, ◌-◌, ◌^◌, ◌<◌, ◌≡◌, ◌↔◌, refl, true, false, some, none, List, [], ◌∷◌, arith, replicate,
}
use membridge.Common.Words.{is_power_of_two}
use membridge.Error.{ok, err, message_too_large, value_error}
use membridge.Codec.Value.{bool, str, bytes, value}
use membridge.Codec.Pack.{pack_item}
use membridge.Codec.Unpack.{unpack_one}
use membridge.Codec.Bytes.{to_ne_bytes, from_ne_bytes}
use membridge.Ring.{
  Segment, new, header_size, index, take_frame, typed, push_payload, used, is_full,
}
use membridge.Ring.Holds.{Holds}
use membridge.Ring.Client.{
  Call, push_call, pop_call, used_call, is_full_call, Reply, pushed, popped, number, flag, call,
  run, spec_call, spec_run, call_refines, run_refines,
}
use membridge.Ring.Setup.{new_ok_iff, new-Holds}
use membridge.Ring.Window.{window}
use membridge.Tests.Samples.{sample, text_of}

abbrev pub zeros : List ℕ
zeros = replicate 16 0

-- An empty ring of sixteen bytes, five before both positions wrap round 2 ^ 64.
abbrev pub near_wrap : Segment
near_wrap = record { head = 2 ^ 64 - 5; tail = 2 ^ 64 - 5; capacity = 16; area = zeros }

pub near_wrap-Holds : Holds sample near_wrap []
unfolding window
near_wrap-Holds = record {
  k = 4;
  shape = record { width = omega arith; power = refl };
  narrow = omega arith;
  sized = refl;
  head_lt = omega arith;
  tail_at = refl;
  fits = omega arith;
  stored = refl;
}

-- Two messages that fit, one that does not, and one that never can.
abbrev script : List Call
script =
    push_call (value (str "ab"))
    ∷ used_call
    ∷ push_call (value (bytes (1 ∷ 2 ∷ [])))
    ∷ is_full_call
    ∷ push_call (value (bool true))
    ∷ push_call (value (bytes (replicate 13 7)))
    ∷ pop_call (some "str")
    ∷ pop_call none
    ∷ pop_call none
    ∷ []

abbrev answers : List Reply
answers =
    pushed (ok true)
    ∷ number 10
    ∷ pushed (ok true)
    ∷ flag true
    ∷ pushed (ok false)
    ∷ pushed (err (value_error (message_too_large 17 16 40)))
    ∷ popped (ok (some (str "ab")))
    ∷ popped (ok (some (bytes (1 ∷ 2 ∷ []))))
    ∷ popped (ok none)
    ∷ []

script-run : run sample 40 script near_wrap ≡ answers
unfolding run pack_item push_payload take_frame index to_ne_bytes from_ne_bytes typed unpack_one
    used is_full text_of
script-run = refl

run_refines_example : run sample 40 script near_wrap ≡ spec_run sample 40 16 script []
run_refines_example = run_refines sample 40 script [] near_wrap-Holds

call_refines_example :
    let (r, m') = call sample 40 (push_call (value (str "ab"))) near_wrap in
    let (expected, q') = spec_call sample 40 16 (push_call (value (str "ab"))) [] in
    (r ≡ expected) × Holds sample m' q'
call_refines_example = call_refines sample 40 (push_call (value (str "ab"))) [] near_wrap-Holds

abbrev garbage : Segment
garbage = record { head = 7; tail = 3; capacity = 99; area = zeros }

new_ok_iff_example :
    ((m' : Segment) × (new 40 true garbage ≡ ok m'))
    ↔ ((k : ℕ) × (k < 64) × (40 ≡ header_size + 2 ^ k))
new_ok_iff_example = new_ok_iff 40 garbage

new-Holds_example : Holds sample (record { head = 0; tail = 0; capacity = 16; area = zeros }) []
unfolding new is_power_of_two
new-Holds_example = new-Holds sample 40 garbage refl refl (omega arith)
