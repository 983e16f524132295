-- ===== src/SharedMemory/Handoff.antt =====
-- What the creator of a segment writes, a process that opens it by its name reads.
use membridge.Common.{
  ℕ, ◌+◌, ◌-◌, ◌^◌, ◌≤◌, ◌<◌, ◌≡◌, refl, sym, ap, subst, ◌∙◌, String, Option, some, none, List,
  length, arith,
}
use membridge.Error.{PyResult, ok}
use membridge.Codec.Value.{Runtime, DecodesText, Value}
use membridge.Codec.Pack.{encode}
use membridge.Codec.RoundTrip.{tag_of, Readable, wire, encode-wire}
use membridge.Codec.Groups.{wire-pos}
use membridge.Platform.Unix.{Posix, unix}
use membridge.View.{View, Segment, rwlock_size}
use membridge.View.Valid.{IsValid, Kept, invoke-Kept}
use membridge.View.Methods.{write, read, write_call, invoke, reply_with, unit}
use membridge.View.Bodies.{Returns}
use membridge.View.Layout.{flush}
use membridge.View.RoundTrip.{read-write}
use membridge.SharedMemory.{SharedMemory, create, open_segment, map}
use membridge.SharedMemory.Segments.{Segments, on_mapping, whole}
use membridge.SharedMemory.Seen.{created_there, map_creator_there, on_mapping_there, read_elsewhere}

same_outcome :
    {A K : Type 0} {r r' : PyResult A} {v v' : View} {k k' : K}
    → ◌≡◌ {A = Option (PyResult A × View × K)} (some (r, v, k)) (some (r', v', k'))
    → (r' ≡ r) × (v ≡ v') × (k ≡ k')
same_outcome e = (cc, cc, cc)

-- A write that returned has left the view valid and the lock as it was.
write-kept :
    (rt : Runtime) (spins : ℕ) (v v' : View) (m m' : Segment) (x : Value)
    → 0 < spins
    → (valid : IsValid v m) → m.word ≡ 0
    → write rt spins v m x none ≡ some (ok tt, v', m')
    → IsValid v' m' × (m'.word ≡ m.word) × (v'.size ≡ v.size)
unfolding invoke
write-kept rt spins v v' m m' x some_fuel valid free e =
    subst (Returns (λ _. Kept rt spins v m some_fuel valid)) (ap (reply_with (λ _. unit)) e)
      (invoke-Kept rt spins v m some_fuel valid (write_call x none) free)

module _ (rt : Runtime) (os : Posix) (name : String) (segs : Segments os name) (size spins : ℕ)
    (x : Value) where
  -- What a write through the view of the creator leaves for a read at the start of the segment, where
  -- its cursor was moved to `c`.
  abbrev Sent : ℕ → os.Kernel → Type 0
  Sent c k =
      (m : Segment) × (m.word ≡ 0)
      × (rwlock_size + length m.area ≡ size)
      × (segs.content k ≡ flush rt m)
      × (read rt spins (whole size) m (tag_of x)
          ≡ some (ok x, record (whole size) { cursor = c }, m))

  settled_there :
      (m m' : Segment) {k k' : os.Kernel} {ptr : os.Ptr} {v v1 v' : View} {r : PyResult (Unit {0})}
      → 0 < spins
      → IsValid (whole size) m
      → m.word ≡ 0
      → v ≡ whole size
      → segs.Shows ptr k
      → segs.content k ≡ flush rt m
      → write rt spins (whole size) m x none ≡ some (ok tt, v1, m')
      → read rt spins (whole size) m' (tag_of x)
        ≡ some (ok x, record (whole size) { cursor = v1.cursor }, m')
      → on_mapping rt os ptr (λ m. write rt spins v m x none) k ≡ some (r, v', k')
      → (r ≡ ok tt) × Sent v'.cursor k'
  settled_there m m' {k} {k'} {ptr} {v} {v1} {v'} {r} some_fuel valid free view shows known wrote
        reads written =
      let (valid', word, width) =
        write-kept rt spins (whole size) v1 m m' x some_fuel valid free wrote in
      let long : length m'.area ≡ length m.area = omega (arith, valid'.sized, width, valid.sized) in
      let (k1, ran, there) =
        on_mapping_there rt os name segs ptr (λ m. write rt spins (whole size) m x none) k m m'
          shows known (omega (arith, free)) long wrote in
      let ran' : on_mapping rt os ptr (λ m. write rt spins (whole size) m x none) k
          ≡ some (r, v', k') =
        subst (λ w. on_mapping rt os ptr (λ m. write rt spins w m x none) k ≡ some (r, v', k')) view
          written in
      let (result, cursor, state) = same_outcome (sym ran ∙ ran') in
      (
        result,
        (
          m',
          word ∙ free,
          omega (arith, long, valid.sized, valid.header),
          subst (λ k. segs.content k ≡ flush rt m') state there,
          subst
              (λ w.
                read rt spins (whole size) m' (tag_of x)
                ≡ some (ok x, record (whole size) { cursor = w.cursor }, m'))
              cursor reads,
        ),
      )

  write_there :
      (packed area : List ℕ) {k k' : os.Kernel} {ptr : os.Ptr} {v v' : View}
      {r : PyResult (Unit {0})}
      → size < 2 ^ 63
      → 0 < spins
      → rwlock_size < size
      → DecodesText rt
      → Readable rt x
      → encode rt x ≡ ok packed
      → rwlock_size + length packed ≤ size
      → length area ≡ size - rwlock_size
      → v ≡ whole size
      → segs.Shows ptr k
      → segs.content k ≡ flush rt (record { word = 0; area = area })
      → on_mapping rt os ptr (λ m. write rt spins v m x none) k ≡ some (r, v', k')
      → (r ≡ ok tt) × Sent v'.cursor k'
  write_there packed area small some_fuel large d readable e fits exact view shows known written =
      let valid : IsValid (whole size) (record { word = 0; area = area }) = record {
        header = large;
        limit = small;
        sized = exact;
        cursor_le = omega arith;
      } in
      let (v1, m', wrote, reads, moved) =
        read-write rt spins some_fuel (record { word = 0; area = area }) refl (whole size) valid
          (whole size) x packed valid refl d readable e (omega (arith, fits)) in
      settled_there (record { word = 0; area = area }) m' some_fuel valid refl view shows known
        wrote reads written

  read_there :
      (hint : Option ℕ) (c : ℕ) (k k1 : os.Kernel) {s : SharedMemory rt (unix os)} {ptr : os.Ptr}
      {u : View} {k2 : os.Kernel}
      → rwlock_size < size
      → Sent c k
      → open_segment rt (unix os) name hint k ≡ (ok s, k1)
      → map rt (unix os) s k1 ≡ some (ok (ptr, u), k2)
      → (k3 : os.Kernel) × (on_mapping rt os ptr (λ m. read rt spins u m (tag_of x)) k2
          ≡ some (ok x, record u { cursor = c }, k3))
        × (segs.content k3 ≡ segs.content k)
  read_there hint c k k1 {ptr = ptr} {u = u} {k2 = k2} large (m, free, exact, known, reads) opened
        mapped =
      let (k3, view, ran, there) =
        read_elsewhere rt os name segs hint size m k k1 (λ u m. read rt spins u m (tag_of x))
          (omega (arith, free)) large exact known opened mapped reads in
      (
        k3,
        subst
            (λ w.
              on_mapping rt os ptr (λ m. read rt spins u m (tag_of x)) k2
              ≡ some (ok x, record w { cursor = c }, k3))
            (sym view) ran,
        there,
      )

-- A process creates a segment of fewer than 2 ^ 63 bytes, maps it, and calls `write` with a readable
-- value of which the packed bytes fit behind the lock. Another opens the segment by its name behind
-- that, whatever size it gives, maps it, and calls `read` with the tag of the value. Where the system
-- does what each asks: the write has succeeded, and the read returns the value, leaves the cursor of
-- its view where the write has left that of the writer, and leaves the bytes of the segment as they
-- are. The runtime decodes the text that it encoded.
pub read-write_handoff :
    (rt : Runtime) (os : Posix) (name : String) (segs : Segments os name) (size spins : ℕ)
    (hint : Option ℕ) (x : Value) (packed : List ℕ) (k0 : os.Kernel) {k1 k2 k3 k4 k5 : os.Kernel}
    {s s' : SharedMemory rt (unix os)} {ptr ptr' : os.Ptr} {v u v' : View} {r : PyResult (Unit {0})}
    → size < 2 ^ 63
    → 0 < spins
    → DecodesText rt
    → Readable rt x
    → encode rt x ≡ ok packed
    → rwlock_size + length packed ≤ size
    → create rt (unix os) name size k0 ≡ (ok s, k1)
    → map rt (unix os) s k1 ≡ some (ok (ptr, v), k2)
    → on_mapping rt os ptr (λ m. write rt spins v m x none) k2 ≡ some (r, v', k3)
    → open_segment rt (unix os) name hint k3 ≡ (ok s', k4)
    → map rt (unix os) s' k4 ≡ some (ok (ptr', u), k5)
    → (r ≡ ok tt)
      × (k6 : os.Kernel) × (on_mapping rt os ptr' (λ m. read rt spins u m (tag_of x)) k5
          ≡ some (ok x, record u { cursor = v'.cursor }, k6))
      × (segs.content k6 ≡ segs.content k3)
read-write_handoff rt os name segs size spins hint x packed k0 {k1} {k2} {k3} {k4} {k5} {v' = v'}
      small some_fuel d readable e fits made mapped written opened mapped' =
    let some_bytes : 0 < length packed =
      let e' : wire rt x ≡ packed = cc (encode-wire rt x readable) in
      rw e' at (wire-pos rt x readable) in
    let large : rwlock_size < size = omega (arith, fits, some_bytes) in
    let (fd, handle, of, long) = created_there rt os name segs size k0 small made in
    let (area, exact, view, shows, known) =
      map_creator_there rt os name segs fd size k1 large of long (rw handle at mapped) in
    let (result, sent) =
      write_there rt os name segs size spins x packed area small some_fuel large d readable e fits
        exact view shows known written in
    let (k6, reads, there) =
      read_there rt os name segs size spins x hint v'.cursor k3 k4 large sent opened mapped' in
    (result, k6, reads, there)
