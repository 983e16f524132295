-- ===== src/View/Layout.antt =====
-- How the bytes of a mapping are a view's segment: the word of the lock, then the data.
use membridge.Common.{ℕ, ◌^◌, ◌<◌, ◌≡◌, ap₂, sym, List, ◌++◌, arith, take, drop, drop-append}
use membridge.Codec.Bytes.{to_ne_bytes, from_ne_bytes, length-to_ne_bytes}
use membridge.Codec.Value.{Runtime}
use membridge.Codec.RoundTrip.{from_ne_bytes-field}
use membridge.View.{Segment, rwlock_size}

module _ (rt : Runtime) where
  unfoldable pub load : List ℕ → Segment
  load bs = record {
    word = from_ne_bytes rt.endian (take rwlock_size bs);
    area = drop rwlock_size bs;
  }

  unfoldable pub flush : Segment → List ℕ
  flush m = to_ne_bytes rt.endian rwlock_size m.word ++ m.area

  pub load-flush : (m : Segment) → m.word < 2 ^ 32 → load (flush m) ≡ m
  unfolding load flush
  load-flush m h =
      ap₂ (λ w a. record { word = w; area = a })
        (from_ne_bytes-field rt rwlock_size m.word m.area (omega (arith, h)))
        (drop-append rwlock_size (to_ne_bytes rt.endian rwlock_size m.word) m.area
          (sym (length-to_ne_bytes rt.endian rwlock_size m.word)))
