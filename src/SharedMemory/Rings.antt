-- ===== src/SharedMemory/Rings.antt =====
-- The ring of a segment of a name: what `spsc` has asked of the system, and its methods on a mapping.
use membridge.Common.{
  ℕ, ◌+◌, ◌≡◌, refl, sym, ap, ap₂, subst, ◌∙◌, Bool, String, some, ◌⊎◌, inl, inr, List, [], ◌∷◌,
  ◌++◌, length, arith, Bool-cases, ◌==◌,
}
use membridge.Error.{PyResult, ok, err, map_err}
use membridge.Codec.Value.{Runtime}
use membridge.Platform.Unix
use membridge.Platform.Unix.{Posix, OFlag, PlatformHandle, unix}
use membridge.Fifo.{Queue}
use membridge.Ring
use membridge.Ring.{header_size}
use membridge.Ring.Client.{Call, Reply, call, spec_call, spec_run, call_refines, capacity-call}
use membridge.Ring.Holds.{Holds}
use membridge.Ring.Layout.{load, flush, load-flush, length-flush}
use membridge.SharedMemory.{spsc, ringed, settle}
use membridge.SharedMemory.Segments.{Segments}

-- Methods of a ring one after the other on the bytes behind its mapping of `n` bytes.
unfoldable pub calls_on :
    (rt : Runtime) (os : Posix) → ℕ → os.Ptr → List Call → os.Kernel → List Reply × os.Kernel
unfolding call
calls_on rt os n ptr [] k = ([], k)
calls_on rt os n ptr (c ∷ cs) k =
    let (r, m) = call rt n c (load rt (os.memory ptr k)) in
    let (rs, k') = calls_on rt os n ptr cs (os.store ptr (flush rt m) k) in (r ∷ rs, k')

module _ (rt : Runtime) (os : Posix) where
  ringed_inv :
      (h : PlatformHandle os) (c : Bool) (r : (os.Errno ⊎ os.Ptr) × os.Kernel) {ptr : os.Ptr}
      {n : ℕ} {k' : os.Kernel}
      → ringed rt (unix os) (record { handle = h; is_creator = c }) (Unix.from_nix os r.0, r.1)
        ≡ (ok (ptr, n), k')
      → (k1 : os.Kernel) × (r ≡ (inr ptr, k1))
        × (n ≡ h.size)
        × ((m : Ring.Segment) × (Ring.new h.size c (load rt (os.memory ptr k1)) ≡ ok m)
            × (k' ≡ settle rt (unix os) c ptr (flush rt m) k1))
  unfolding ringed Unix.from_nix map_err
  ringed_inv h c (inl x, k1) e = absurd (cc)
  ringed_inv h c (inr ptr1, k1) {ptr = ptr} {n = n} {k' = k'} e =
      by_new (Ring.new h.size c (load rt (os.memory ptr1 k1))) refl
    where
      by_new :
          (o : PyResult Ring.Segment)
          → Ring.new h.size c (load rt (os.memory ptr1 k1)) ≡ o
          → (k2 : os.Kernel) × (◌≡◌ {A = (os.Errno ⊎ os.Ptr) × os.Kernel}
              (inr ptr1, k1)
              (inr ptr, k2))
            × (n ≡ h.size)
            × ((m : Ring.Segment) × (Ring.new h.size c (load rt (os.memory ptr k2)) ≡ ok m)
                × (k' ≡ settle rt (unix os) c ptr (flush rt m) k2))
      by_new (ok m) made = let e' = rw (ringed, made) at e in (k1, cc, cc, (m, cc, cc))
      by_new (err x) failed = let e' = rw (ringed, failed) at e in absurd (cc)

  pub spsc_inv :
      (h : PlatformHandle os) (c : Bool) (k : os.Kernel) {ptr : os.Ptr} {n : ℕ} {k' : os.Kernel}
      → spsc rt (unix os) (record { handle = h; is_creator = c }) k ≡ some (ok (ptr, n), k')
      → (k1 : os.Kernel) × (os.mmap h.fd h.size k ≡ (inr ptr, k1))
        × (n ≡ h.size)
        × ((m : Ring.Segment) × (Ring.new h.size c (load rt (os.memory ptr k1)) ≡ ok m)
            × (k' ≡ settle rt (unix os) c ptr (flush rt m) k1))
  unfolding spsc Unix.map
  spsc_inv h c k e = elim (Bool-cases (h.size == 0)) [
    | inl zero ↦ absurd (let e' = rw (spsc, zero) at e in cc)
    | inr some_size ↦
        let e' = rw (spsc, some_size) at e in ringed_inv h c (os.mmap h.fd h.size k) (cc)
  ]

module _ (rt : Runtime) (os : Posix) (name : String) (segs : Segments os name) where
  -- A segment of which the bytes are those of a ring that holds a queue.
  abbrev pub Carries : ℕ → Queue → os.Kernel → Type 0
  Carries cap q k =
      (m : Ring.Segment) × (segs.content k ≡ flush rt m) × (m.capacity ≡ cap) × Holds rt m q

  loaded : (m : Ring.Segment) (q : Queue) → Holds rt m q → load rt (flush rt m) ≡ m
  loaded m q h =
      load-flush rt m h.head_lt (omega (arith, h.tail_at, h.head_lt)) (omega (arith, h.narrow))

  pub stored_there :
      (ptr : os.Ptr) (m : Ring.Segment) (q : Queue) (k : os.Kernel)
      → segs.Shows ptr k
      → Holds rt m q
      → length (segs.content k) ≡ header_size + m.capacity
      → segs.Shows ptr (os.store ptr (flush rt m) k)
        × Carries m.capacity q (os.store ptr (flush rt m) k)
  stored_there ptr m q k shows h long =
      let (shows', now) =
        segs.storing ptr (flush rt m) k shows (omega (arith, length-flush rt m, h.sized, long)) in
      (shows', (m, now, refl, h))

  called_there :
      (n : ℕ) (ptr : os.Ptr) (cap : ℕ) (c : Call) (q : Queue) (k : os.Kernel) (m : Ring.Segment)
      → segs.Shows ptr k
      → segs.content k ≡ flush rt m
      → m.capacity ≡ cap
      → Holds rt m q
      → let (r, m') = call rt n c (load rt (os.memory ptr k)) in
        let (expected, q') = spec_call rt n cap c q in
        (r ≡ expected) × Holds rt m' q' × (m'.capacity ≡ cap)
  called_there n ptr cap c q k m shows known same h =
      let found : load rt (os.memory ptr k) ≡ m =
        ap (load rt) (segs.showing ptr k shows ∙ known) ∙ loaded m q h in
      let (answered, held) =
        subst
          (λ w.
            ((call rt n c m).0 ≡ (spec_call rt n w c q).0)
            × Holds rt (call rt n c m).1 (spec_call rt n w c q).1)
          same (call_refines rt n c q h) in
      subst
        (λ x.
          ((call rt n c x).0 ≡ (spec_call rt n cap c q).0)
          × Holds rt (call rt n c x).1 (spec_call rt n cap c q).1
          × ((call rt n c x).1.capacity ≡ cap))
        (sym found) (answered, held, capacity-call rt n c m ∙ same)

  -- The queue behind a sequence of calls, and their replies.
  pub calls_on_refines :
      (n : ℕ) (ptr : os.Ptr) (cap : ℕ) (cs : List Call) (q : Queue) (k : os.Kernel)
      → segs.Shows ptr k
      → Carries cap q k
      → let (rs, k') = calls_on rt os n ptr cs k in
        (q' : Queue) × Carries cap q' k'
        × ((ds : List Call) → spec_run rt n cap (cs ++ ds) q ≡ rs ++ spec_run rt n cap ds q')
  unfolding calls_on spec_run
  calls_on_refines n ptr cap [] q k shows carries = (q, carries, λ ds. refl)
  calls_on_refines n ptr cap (c ∷ cs) q k shows (m, known, same, h) =
      let (answered, held, kept) = called_there n ptr cap c q k m shows known same h in
      let (shows', carries) =
        stored_there ptr (call rt n c (load rt (os.memory ptr k))).1 (spec_call rt n cap c q).1 k
          shows held (omega (arith, ap length known, length-flush rt m, h.sized, same, kept)) in
      let (q', carries', rest) =
        calls_on_refines n ptr cap cs (spec_call rt n cap c q).1
          (os.store ptr (flush rt (call rt n c (load rt (os.memory ptr k))).1) k) shows'
          (subst
            (λ w.
              Carries w (spec_call rt n cap c q).1
                (os.store ptr (flush rt (call rt n c (load rt (os.memory ptr k))).1) k))
            kept carries) in
      (q', carries', λ ds. ap₂ ◌∷◌ (sym answered) (rest ds))
