-- ===== src/SharedMemory/Seen.antt =====
-- What `create`, `open` and `map` return on a segment of a name, and what a method does to its bytes.
use membridge.Common.{
  ℕ, ◌+◌, ◌-◌, ◌^◌, ◌<◌, ◌≡◌, refl, sym, ap, subst, ◌∙◌, true, false, String, Option, some, inr,
  List, length, arith, length-append, length-drop,
}
use membridge.Error.{PyResult, ok}
use membridge.Codec.Bytes.{to_ne_bytes, length-to_ne_bytes}
use membridge.Codec.Value.{Runtime, pos, i64_of_bits, bits_of_i64}
use membridge.Platform.Unix.{Posix, OFlag, unix}
use membridge.View.{View, Segment, rwlock_size}
use membridge.View.Guard.{Done}
use membridge.View.Layout.{load, flush, load-flush}
use membridge.SharedMemory.{SharedMemory, create, open_segment, map, settle}
use membridge.SharedMemory.Handles.{create_ok}
use membridge.SharedMemory.Segments.{Segments, on_mapping, whole, cleared, map_inv, open_inv}

module _ (rt : Runtime) (os : Posix) (name : String) (segs : Segments os name) where
  length-flush : (m : Segment) → length (flush rt m) ≡ rwlock_size + length m.area
  unfolding flush
  length-flush m = omega (
    arith,
    length-append (to_ne_bytes rt.endian rwlock_size m.word) m.area,
    length-to_ne_bytes rt.endian rwlock_size m.word,
  )

  positive : (n : ℕ) → n < 2 ^ 63 → i64_of_bits n ≡ pos n
  positive n h = ground arith

  -- A segment that was just created has the size that was asked for.
  pub created_there :
      (size : ℕ) (k : os.Kernel) {s : SharedMemory rt (unix os)} {k' : os.Kernel}
      → size < 2 ^ 63
      → create rt (unix os) name size k ≡ (ok s, k')
      → (fd : os.Fd) × (s
          ≡ record { handle = record { fd = fd; size = size; name = name }; is_creator = true })
        × segs.IsOf fd k'
        × (length (segs.content k') ≡ size)
  created_there size k {s} {k'} small e =
      let (some_size, valid, (fd, k1, same, opened, sized)) = create_ok rt os name size k e in
      let sized' : os.ftruncate fd (pos size) k1 ≡ (inr tt, k') =
        subst (λ z. os.ftruncate fd z k1 ≡ (inr tt, k')) (positive size small) sized in
      let (still, long) =
        segs.sizing fd size k1 k' (segs.opening OFlag.creat_rdwr fd k k1 opened) sized' in
      (fd, same, still, long)

  -- A mapping of all of the segment.
  pub mapped_there :
      (fd : os.Fd) (size : ℕ) (k k1 : os.Kernel) (ptr : os.Ptr)
      → segs.IsOf fd k
      → length (segs.content k) ≡ size
      → os.mmap fd size k ≡ (inr ptr, k1)
      → segs.Shows ptr k1 × (segs.content k1 ≡ segs.content k)
  mapped_there fd size k k1 ptr of long e =
      segs.mapping fd ptr k k1 of (subst (λ n. os.mmap fd n k ≡ (inr ptr, k1)) (sym long) e)

  -- The creator's `map` frees the lock.
  pub map_creator_there :
      (fd : os.Fd) (size : ℕ) (k : os.Kernel) {ptr : os.Ptr} {v : View} {k' : os.Kernel}
      → rwlock_size < size
      → segs.IsOf fd k
      → length (segs.content k) ≡ size
      → map rt
          (unix os)
          (record { handle = record { fd = fd; size = size; name = name }; is_creator = true })
          k
        ≡ some (ok (ptr, v), k')
      → (area : List ℕ) × (length area ≡ size - rwlock_size)
        × (v ≡ whole size)
        × segs.Shows ptr k'
        × (segs.content k' ≡ flush rt (record { word = 0; area = area }))
  unfolding settle
  map_creator_there fd size k {ptr} {v} {k'} large of long e =
      let (k1, made, view, settled) =
        map_inv rt os (record { fd = fd; size = size; name = name }) true k large e in
      let (shows, same) = mapped_there fd size k k1 ptr of long made in
      let known : os.memory ptr k1 ≡ segs.content k = segs.showing ptr k1 shows ∙ same in
      let m = cleared (os.memory ptr k1) in
      let sized : length (os.memory ptr k1) ≡ size = ap length known ∙ long in
      let (shows', now) = segs.storing ptr (flush rt m) k1 shows (
        omega (
          arith,
          length-flush m,
          length-drop rwlock_size (os.memory ptr k1),
          sized,
          large,
          ap length same,
          long,
        )) in
      (
        m.area,
        omega (arith, length-drop rwlock_size (os.memory ptr k1), sized),
        view,
        subst (segs.Shows ptr) (sym settled) shows',
        ap segs.content settled ∙ now,
      )

  -- A method on a mapping of the segment.
  pub on_mapping_there :
      {A : Type 0} (ptr : os.Ptr) (method : Segment → Done A) (k : os.Kernel) (m m' : Segment)
      {r : PyResult A} {v : View}
      → segs.Shows ptr k
      → segs.content k ≡ flush rt m
      → m.word < 2 ^ 32
      → length m'.area ≡ length m.area
      → method m ≡ some (r, v, m')
      → (k' : os.Kernel) × (on_mapping rt os ptr method k ≡ some (r, v, k'))
        × (segs.content k' ≡ flush rt m')
  unfolding on_mapping
  on_mapping_there ptr method k m m' {r} {v} shows known small same ran =
      let found : load rt (os.memory ptr k) ≡ m =
        ap (load rt) (segs.showing ptr k shows ∙ known) ∙ load-flush rt m small in
      let (shows', now) =
        segs.storing ptr (flush rt m') k shows
          (omega (arith, length-flush m, length-flush m', same, ap length known)) in
      (os.store ptr (flush rt m') k, rw (on_mapping, found, ran) refl, now)

  -- The opener's `map` stores nothing.
  map_opener_there :
      (hint : Option ℕ) (k k1 : os.Kernel) {s : SharedMemory rt (unix os)} {ptr : os.Ptr} {v : View}
      {k' : os.Kernel}
      → rwlock_size < length (segs.content k)
      → open_segment rt (unix os) name hint k ≡ (ok s, k1)
      → map rt (unix os) s k1 ≡ some (ok (ptr, v), k')
      → (v ≡ whole (length (segs.content k)))
        × segs.Shows ptr k'
        × (segs.content k' ≡ segs.content k)
  unfolding settle
  map_opener_there hint k k1 {s} {ptr} {v} {k'} large e e' =
      let (fd, z, opened, stat, same) = open_inv rt os name hint k e in
      let of = segs.opening OFlag.rdwr fd k k1 opened in
      let still = segs.reopening fd k k1 opened in
      let size : bits_of_i64 z ≡ length (segs.content k) =
        ap bits_of_i64 (segs.stating fd z k1 of stat) ∙ ap length still in
      let (k2, made, view, settled) =
        map_inv rt os (record { fd = fd; size = bits_of_i64 z; name = name }) false k1
          (omega (arith, large, size)) (rw same at e') in
      let (shows, there) =
        mapped_there fd (bits_of_i64 z) k1 k2 ptr of (ap length still ∙ sym size) made in
      (
        view ∙ ap whole size,
        subst (segs.Shows ptr) (sym settled) shows,
        ap segs.content settled ∙ there ∙ still,
      )

  -- A method that leaves the segment as it was, through the view of a process that opened it by name.
  pub read_elsewhere :
      {A : Type 0} (hint : Option ℕ) (size : ℕ) (m : Segment) (k k1 : os.Kernel)
      (method : View → Segment → Done A) {s : SharedMemory rt (unix os)} {ptr : os.Ptr} {v w : View}
      {k2 : os.Kernel} {r : PyResult A}
      → m.word < 2 ^ 32
      → rwlock_size < size
      → rwlock_size + length m.area ≡ size
      → segs.content k ≡ flush rt m
      → open_segment rt (unix os) name hint k ≡ (ok s, k1)
      → map rt (unix os) s k1 ≡ some (ok (ptr, v), k2)
      → method (whole size) m ≡ some (r, w, m)
      → (k3 : os.Kernel) × (v ≡ whole size)
        × (on_mapping rt os ptr (method v) k2 ≡ some (r, w, k3))
        × (segs.content k3 ≡ segs.content k)
  read_elsewhere hint size m k k1 method {s} {ptr} {v} {w} {k2} {r} word large exact known opened
        mapped ran =
      let size_there : length (segs.content k) ≡ size =
        omega (arith, ap length known, length-flush m, exact) in
      let (view, shows, still) =
        map_opener_there hint k k1 (omega (arith, size_there, large)) opened mapped in
      let (k3, read_ran, there) =
        on_mapping_there ptr (method (whole size)) k2 m m shows (still ∙ known) word refl ran in
      let whole_view : v ≡ whole size = view ∙ ap whole size_there in
      (
        k3,
        whole_view,
        subst (λ u. on_mapping rt os ptr (method u) k2 ≡ some (r, w, k3)) (sym whole_view) read_ran,
        there ∙ sym known,
      )
