-- ===== src/SharedMemory/Messages.antt =====
-- What the creator of a segment pushes into its ring, a process that opens it by its name pops.
use membridge.Common.{
  ℕ, ◌+◌, ◌^◌, ◌≤◌, ◌≡◌, sym, ap, subst, ◌∙◌, true, false, String, Option, some, List, [], ◌++◌,
  length, append-nil, arith, length-drop,
}
use native.Mathlib.Nat.{pow-le-pow_right}
use membridge.Error.{ok}
use membridge.Codec.Value.{Runtime, bits_of_i64}
use membridge.Platform.Unix.{Posix, OFlag, unix}
use membridge.Fifo.{Queue}
use membridge.Ring.{header_size}
use membridge.Ring.Client.{Call, spec_run}
use membridge.Ring.Layout.{load, flush, length-flush}
use membridge.Ring.Setup.{new-Holds, creator_ok}
use membridge.SharedMemory.{SharedMemory, create, open_segment, spsc, settle}
use membridge.SharedMemory.Segments.{Segments, open_inv}
use membridge.SharedMemory.Seen.{created_there, mapped_there}
use membridge.SharedMemory.Rings.{spsc_inv, Carries, stored_there, calls_on_refines, calls_on}

module _ (rt : Runtime) (os : Posix) (name : String) (segs : Segments os name) where
  -- The ring of a creator is empty.
  spsc_creator_there :
      (fd : os.Fd) (size j : ℕ) (k : os.Kernel) {ptr : os.Ptr} {n : ℕ} {k' : os.Kernel}
      → j ≤ 32
      → size ≡ header_size + 2 ^ j
      → segs.IsOf fd k
      → length (segs.content k) ≡ size
      → spsc rt
          (unix os)
          (record { handle = record { fd = fd; size = size; name = name }; is_creator = true })
          k
        ≡ some (ok (ptr, n), k')
      → (n ≡ size) × segs.Shows ptr k' × Carries rt os name segs (2 ^ j) [] k'
  unfolding settle
  spsc_creator_there fd size j k {ptr = ptr} {k' = k'} few shape of long e =
      let (k1, made, width, (m, fresh, settled)) =
        spsc_inv rt os (record { fd = fd; size = size; name = name }) true k e in
      let (shows, same) = mapped_there rt os name segs fd size k k1 ptr of long made in
      let (large, pow, header) = creator_ok size (load rt (os.memory ptr k1)) m fresh in
      let area : length (load rt (os.memory ptr k1)).area ≡ 2 ^ j =
        unfold load in
        omega (
          arith,
          length-drop header_size (os.memory ptr k1),
          ap length (segs.showing ptr k1 shows),
          ap length same,
          long,
          shape,
        ) in
      let narrow : 2 ^ j ≤ 2 ^ 32 = pow-le-pow_right (omega arith) {j = 32} few in
      let cap : m.capacity ≡ 2 ^ j = omega (arith, ap (λ m. m.capacity) header, shape) in
      let (shows', carries) =
        stored_there rt os name segs ptr m [] k1 shows
          (new-Holds rt size (load rt (os.memory ptr k1)) fresh (omega (arith, area, shape))
            (omega (arith, area, narrow)))
          (omega (arith, ap length same, long, shape, cap)) in
      (
        width,
        subst (segs.Shows ptr) (sym settled) shows',
        subst (λ k. Carries rt os name segs (2 ^ j) [] k) (sym settled)
            (subst (λ w. Carries rt os name segs w [] (os.store ptr (flush rt m) k1)) cap carries),
      )

  -- The ring of an opener is as it was left.
  spsc_opener_there :
      (hint : Option ℕ) (cap : ℕ) (q : Queue) (k k1 : os.Kernel) {s : SharedMemory rt (unix os)}
      {ptr : os.Ptr} {n : ℕ} {k' : os.Kernel}
      → Carries rt os name segs cap q k
      → open_segment rt (unix os) name hint k ≡ (ok s, k1)
      → spsc rt (unix os) s k1 ≡ some (ok (ptr, n), k')
      → (n ≡ header_size + cap) × segs.Shows ptr k' × Carries rt os name segs cap q k'
  unfolding settle
  spsc_opener_there hint cap q k k1 {ptr = ptr} {k' = k'} (m, known, same, h) e e' =
      let (fd, z, opened, stat, handle) = open_inv rt os name hint k e in
      let of = segs.opening OFlag.rdwr fd k k1 opened in
      let still = segs.reopening fd k k1 opened in
      let size : bits_of_i64 z ≡ length (segs.content k) =
        ap bits_of_i64 (segs.stating fd z k1 of stat) ∙ ap length still in
      let (k2, made, width, (m', fresh, settled)) =
        spsc_inv rt os (record { fd = fd; size = bits_of_i64 z; name = name }) false k1
          (rw handle at e') in
      let (shows, there) =
        mapped_there rt os name segs fd (bits_of_i64 z) k1 k2 ptr of (ap length still ∙ sym size)
          made in
      (
        omega (arith, width, size, ap length known, length-flush rt m, h.sized, same),
        subst (segs.Shows ptr) (sym settled) shows,
        (m, ap segs.content settled ∙ there ∙ still ∙ known, same, h),
      )

-- A process creates a segment of 24 bytes and a power of two up to 2 ^ 32, calls `spsc`, and any methods
-- of the ring. Another then opens the segment by its name, whatever size it gives, and calls `spsc`, and
-- any methods of its ring. Where the system does what each asks: the replies of both, one after the
-- other, are those of the bounded queue of messages, empty at first, to the same calls.
pub spec_run-calls_on :
    (rt : Runtime) (os : Posix) (name : String) (segs : Segments os name) (size j : ℕ)
    (hint : Option ℕ) (cs ds : List Call) (k0 : os.Kernel) {k1 k2 k4 k5 : os.Kernel}
    {s s' : SharedMemory rt (unix os)} {ptr ptr' : os.Ptr} {n n' : ℕ}
    → j ≤ 32
    → size ≡ header_size + 2 ^ j
    → create rt (unix os) name size k0 ≡ (ok s, k1)
    → spsc rt (unix os) s k1 ≡ some (ok (ptr, n), k2)
    → open_segment rt (unix os) name hint (calls_on rt os n ptr cs k2).1 ≡ (ok s', k4)
    → spsc rt (unix os) s' k4 ≡ some (ok (ptr', n'), k5)
    → (calls_on rt os n ptr cs k2).0 ++ (calls_on rt os n' ptr' ds k5).0
      ≡ spec_run rt size (2 ^ j) (cs ++ ds) []
unfolding spec_run
spec_run-calls_on rt os name segs size j hint cs ds k0 {k2 = k2} {k4 = k4} {k5 = k5} {ptr = ptr}
      {ptr' = ptr'} {n = n} {n' = n'} few shape made ringed1 opened ringed2 =
    let bounded : 2 ^ j ≤ 2 ^ 32 = pow-le-pow_right (omega arith) {j = 32} few in
    let (fd, handle, of, long) =
      created_there rt os name segs size k0 (omega (arith, shape, bounded)) made in
    let (width, shows, carries) =
      spsc_creator_there rt os name segs fd size j _ few shape of long (rw handle at ringed1) in
    let (q, left, first) = calls_on_refines rt os name segs n ptr (2 ^ j) cs [] k2 shows carries in
    let (width', shows', carries') =
      spsc_opener_there rt os name segs hint (2 ^ j) q (calls_on rt os n ptr cs k2).1 k4 left opened
        ringed2 in
    let (q', left', second) =
      calls_on_refines rt os name segs n' ptr' (2 ^ j) ds q k5 shows' carries' in
    let same_width : n' ≡ n = omega (arith, width, width', shape) in
    let answers : spec_run rt n' (2 ^ j) ds q ≡ (calls_on rt os n' ptr' ds k5).0 =
      ap (λ l. spec_run rt n' (2 ^ j) l q) (sym (append-nil ds))
      ∙ second []
      ∙ append-nil (calls_on rt os n' ptr' ds k5).0 in
    ap (λ l. (calls_on rt os n ptr cs k2).0 ++ l)
      (sym answers ∙ ap (λ w. spec_run rt w (2 ^ j) ds q) same_width)
    ∙ sym (first ds)
    ∙ ap (λ w. spec_run rt w (2 ^ j) (cs ++ ds) []) width
