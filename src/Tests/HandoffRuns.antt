-- ===== src/Tests/HandoffRuns.antt =====
-- A value that goes from the creator of a segment to a process that opens it.
use membridge.Common.{
  ℕ, ◌≡◌, refl, ap, ◌⊎◌, String, true, none, some, List, [], ◌∷◌, length, replicate,
  length-replicate, arith, eq→==,
}
use membridge.Error.{PyResult, ok}
use membridge.Codec.Value.{bool}
use membridge.Codec.Pack.{encode, pack_value}
use membridge.Codec.Bytes.{to_ne_bytes, from_ne_bytes}
use membridge.Platform.Unix
use membridge.Platform.Unix.{unix}
use membridge.View
use membridge.View.{check_bounds, position, copy_into}
use membridge.View.Guard.{write_guarded}
use membridge.View.Methods.{write, read}
use membridge.View.Layout.{load, flush}
use membridge.SharedMemory.{open_segment, map, validate_name, shared}
use membridge.SharedMemory.Segments.{Segments, on_mapping}
use membridge.SharedMemory.Handoff.{read-write_handoff}
use membridge.Tests.Samples.{sample, sample-DecodesText}
use membridge.Tests.SharedRuns.{one_segment, resized, mapping, creator, opener, create_run}

pub one_segment-Segments : Segments one_segment "/seg"
unfolding resized mapping
one_segment-Segments = record {
  content = λ k. k;
  IsOf = λ fd k. Unit {0};
  Shows = λ ptr k. Unit {0};
  opening = λ flag fd k k' e. tt;
  reopening = λ fd k k' e. cc;
  sizing = λ fd n k k' of e.
      (tt, rw (← ap (λ (t : (String ⊎ Unit {0}) × List ℕ). t.1) e) (length-replicate n 0));
  stating = λ fd z k of e. cc;
  mapping = λ fd ptr k k' of e. (tt, let e' = rw (eq→== (length k) (length k) refl) at e in cc);
  showing = λ ptr k shows. refl;
  storing = λ ptr bs k shows e. (tt, refl);
}

abbrev zeros : List ℕ
zeros = replicate 8 0

abbrev sent : List ℕ
sent = 0 ∷ 0 ∷ 0 ∷ 0 ∷ 1 ∷ 0 ∷ 0 ∷ 0 ∷ []

map_run :
    map sample (unix one_segment) (creator 8) zeros
    ≡ some (ok (tt, record { size = 8; cursor = 0 }), zeros)
unfolding map mapping Unix.map View.new flush to_ne_bytes load
map_run = refl

write_run :
    on_mapping sample one_segment tt
      (λ m. write sample 1 (record { size = 8; cursor = 0 }) m (bool true) none)
      zeros
    ≡ some (ok tt, record { size = 8; cursor = 1 }, sent)
unfolding on_mapping write load flush check_bounds position pack_value to_ne_bytes from_ne_bytes
    write_guarded View.advance copy_into
write_run = refl

open_run : open_segment sample (unix one_segment) "/seg" none sent ≡ (ok (opener 8), sent)
unfolding open_segment validate_name shared Unix.attach Unix.open_handle
open_run = refl

map_again_run :
    map sample (unix one_segment) (opener 8) sent
    ≡ some (ok (tt, record { size = 8; cursor = 0 }), sent)
unfolding map mapping Unix.map View.new
map_again_run = refl

read-write_handoff_example :
    (◌≡◌ {A = PyResult (Unit {0})} (ok tt) (ok tt))
    × (k6 : List ℕ) × (on_mapping sample one_segment tt
          (λ m. read sample 1 (record { size = 8; cursor = 0 }) m "bool")
          sent
        ≡ some (ok (bool true), record { size = 8; cursor = 1 }, k6))
    × (one_segment-Segments.content k6 ≡ one_segment-Segments.content sent)
unfolding encode
read-write_handoff_example =
    read-write_handoff sample one_segment "/seg" one_segment-Segments 8 1 none (bool true) (1 ∷ [])
      [] (omega arith) (omega arith) sample-DecodesText tt refl (omega arith) create_run map_run
      write_run open_run map_again_run
