-- ===== src/Ring/Duplex/Invariant.antt =====
-- What each client knows of the shared segment, wherever it stands.
use membridge.Common.{
  ℕ, ◌+◌, ◌%◌, ◌^◌, ◌≤◌, ◌<◌, ◌≡◌, sym, ap, ◌∙◌, List, [], ◌∷◌, ◌++◌, arith, length, take, set,
  length-set,
}
use membridge.Common.Words.{add_usize}
use membridge.Codec.Bytes.{to_ne_bytes}
use membridge.Codec.Value.{Runtime}
use membridge.Fifo
use membridge.Fifo.{Message, Queue}
use membridge.Ring.{Segment, index}
use membridge.Ring.Access.{index-mod}
use membridge.Ring.Holds.{Holds}
use membridge.Ring.Window.{window, window-set}
use membridge.Ring.Duplex.{Producer, Consumer, System}
use membridge.Ring.Duplex.Bytes.{window-set_snoc}

module _ (rt : Runtime) where
  abbrev pub prefix : Message → List ℕ
  prefix payload = to_ne_bytes rt.endian 4 (length payload)

  -- The producer. The `head` that it loaded may be `ahead` bytes old; its frame fits the free bytes; and
  -- the bytes that it has stored behind `tail` are there.
  abbrev pub Produces : Producer → Segment → Queue → Type 0
  Produces Producer.idle m q = Unit
  Produces (Producer.loaded payload head) m q =
      (4 + length payload ≤ m.capacity)
      × (head < 2 ^ 64)
      × ((ahead : ℕ) × (m.head ≡ (head + ahead) % 2 ^ 64) × (ahead + Fifo.size q ≤ m.capacity))
  Produces (Producer.prefixing payload tail i) m q =
      (tail ≡ m.tail)
      × (Fifo.size q + (4 + length payload) ≤ m.capacity)
      × (i < 4)
      × (window m.area m.capacity m.tail i ≡ take i (prefix payload))
  Produces (Producer.filling payload tail i) m q =
      (tail ≡ m.tail)
      × (Fifo.size q + (4 + length payload) ≤ m.capacity)
      × (i ≤ length payload)
      × (window m.area m.capacity m.tail (4 + i) ≡ prefix payload ++ take i payload)

  -- The consumer. It stands at `head`, at the frame of the oldest message, and what it read is that frame's.
  abbrev pub Consumes : Consumer → ℕ → Queue → Type 0
  Consumes Consumer.idle at q = Unit
  Consumes (Consumer.measuring head got) at q =
      (p : Message) × (rest : Queue) × (q ≡ p ∷ rest)
      × (head ≡ at)
      × (length got < 4)
      × (got ≡ take (length got) (prefix p))
  Consumes (Consumer.copying head payload_len got) at q =
      (p : Message) × (rest : Queue) × (q ≡ p ∷ rest)
      × (head ≡ at)
      × (payload_len ≡ length p)
      × (length got ≤ length p)
      × (got ≡ take (length got) p)

  pub record Inv (s : System) : Type 0 where
    pub queue : Queue
    pub holds : Holds rt s.mem queue
    pub conserved : s.sent ≡ s.received ++ queue
    pub produces : Produces s.producer s.mem queue
    pub consumes : Consumes s.consumer s.mem.head queue

  module _ {m : Segment} {q : Queue} (h : Holds rt m q) where
    -- The segment with byte `j` behind `tail` stored.
    abbrev pub stored_at : ℕ → ℕ → Segment
    stored_at j b = record m { area = set m.area ((m.tail + j) % m.capacity) b }

    tail_index : (j : ℕ) → (m.tail + j) % m.capacity ≡ (m.head + Fifo.size q + j) % m.capacity
    tail_index j =
        sym (index-mod h.shape m.tail j)
        ∙ ap (λ x. index x j m.capacity) wrapped
        ∙ index-mod h.shape (m.head + Fifo.size q) j
      where
        wrapped : m.tail % 2 ^ 64 ≡ (m.head + Fifo.size q) % 2 ^ 64
        wrapped = omega (arith, h.tail_at)

    -- A byte stored behind `tail`, within the free bytes, leaves the queue as it is.
    pub stored_at-Holds : (j b : ℕ) → Fifo.size q + j < m.capacity → Holds rt (stored_at j b) q
    stored_at-Holds j b room = record {
      k = h.k;
      shape = h.shape;
      narrow = h.narrow;
      sized = length-set m.area ((m.tail + j) % m.capacity) b ∙ h.sized;
      head_lt = h.head_lt;
      tail_at = h.tail_at;
      fits = h.fits;
      stored =
          ap (λ i. window (set m.area i b) m.capacity m.head (Fifo.size q)) (tail_index j)
          ∙ window-set m.area m.capacity m.head (Fifo.size q) (m.head + Fifo.size q + j) b
              (omega arith) (omega arith)
          ∙ h.stored;
    }

    -- The index that `write_bytes` computes for it, from `tail` or from `tail + 4`.
    pub index-tail : (j : ℕ) → index m.tail j m.capacity ≡ (m.tail + j) % m.capacity
    index-tail j = ap (λ x. index x j m.capacity) same ∙ index-mod h.shape m.tail j
      where
        same : m.tail ≡ m.tail % 2 ^ 64
        same = omega (arith, h.tail_at)

    pub index-behind_prefix :
        (j : ℕ) → index (add_usize m.tail 4) j m.capacity ≡ (m.tail + (4 + j)) % m.capacity
    index-behind_prefix j = index-mod h.shape (m.tail + 4) j ∙ ap (λ x. x % m.capacity) regroup
      where
        regroup : m.tail + 4 + j ≡ m.tail + (4 + j)
        regroup = omega arith

    -- What stands behind `tail`, with one byte more.
    pub stored_at-window :
        (j b : ℕ) (bs : List ℕ)
        → j < m.capacity
        → window m.area m.capacity m.tail j ≡ bs
        → window (stored_at j b).area m.capacity m.tail (j + 1) ≡ bs ++ (b ∷ [])
    stored_at-window j b bs inside e =
        window-set_snoc m.area m.capacity m.tail j b h.sized inside ∙ ap (λ l. l ++ (b ∷ [])) e
