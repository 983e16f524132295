-- ===== src/Tests/LedgerRuns.antt =====
-- src/shared_memory.rs on a system that counts descriptors and mappings.
use membridge.Common.{
  ℕ, ◌+◌, ◌-◌, ◌<◌, ◌≡◌, refl, sym, ap, ◌⊎◌, false, none, inl, inr, String, [], ◌∷◌, arith,
}
use membridge.Codec.Value.{pos}
use membridge.Platform.Unix.{Posix, unix}
use membridge.SharedMemory.{SharedMemory, create, open_segment, map}
use membridge.SharedMemory.Ledger.{Ledger, Balanced, descriptors_balance}
use membridge.SharedMemory.Unmapping.{MapBalanced, mappings_balance}
use membridge.Tests.Samples.{sample}

-- What a process holds of a segment of six bytes, which always opens and maps.
pub record Held : Type 0 where
  pub fds : ℕ
  pub maps : ℕ

abbrev counting : Posix
counting = record {
  Kernel = Held;
  Errno = String;
  Fd = Unit {0};
  Ptr = Unit {0};
  to_string = λ e. e;
  shm_open = λ name flag k. (inr tt, record k { fds = k.fds + 1 });
  ftruncate = λ fd n k. (inl "EINVAL", k);
  fstat = λ fd k. inr (pos 3);
  mmap = λ fd n k. (inr tt, record k { maps = k.maps + 1 });
  shm_unlink = λ name k. (inr tt, k);
  munmap = λ ptr n k. record k { maps = k.maps - 1 };
  close = λ fd k. record k { fds = k.fds - 1 };
  memory = λ ptr k. 1 ∷ 0 ∷ 0 ∷ [];
  store = λ ptr bs k. k;
}

grown : (a b : ℕ) → a + 1 ≡ b → (b ≡ a + 1) × (0 < b)
grown a b e = (sym e, omega (arith, e))

counting-Ledger : Ledger counting
counting-Ledger = record {
  descriptors = λ k. k.fds;
  mappings = λ k. k.maps;
  IsOpen = λ fd k. 0 < k.fds;
  IsMapped = λ ptr n k. 0 < k.maps;
  opening = λ name flag k k' fd e.
      grown k.fds k'.fds (ap (λ (t : (String ⊎ Unit {0}) × Held). t.1.fds) e);
  not_opening = λ name flag k k' x e. absurd (cc);
  truncating = λ fd fd' n k h. (refl, h);
  unlinking = λ name fd k h. (refl, h);
  closing = λ fd k h. omega (arith, h);
  mapping =
      λ fd n k k' ptr e. grown k.maps k'.maps (ap (λ (t : (String ⊎ Unit {0}) × Held). t.1.maps) e);
  not_mapping = λ fd n k k' x e. absurd (cc);
  storing = λ ptr ptr' n bs k h. (refl, h);
  unmapping = λ ptr n k h. omega (arith, h);
}

abbrev nothing_held : Held
nothing_held = record { fds = 0; maps = 0 }

descriptors_balance_example :
    Balanced sample counting counting-Ledger nothing_held
      (create sample (unix counting) "/seg" 6 nothing_held)
    × Balanced sample counting counting-Ledger nothing_held
        (open_segment sample (unix counting) "/seg" none nothing_held)
descriptors_balance_example =
    descriptors_balance sample counting counting-Ledger "/seg" 6 none nothing_held

abbrev narrow : SharedMemory sample (unix counting)
narrow = record { handle = record { fd = tt; size = 3; name = "/seg" }; is_creator = false }

mappings_balance_example :
    MapBalanced sample counting counting-Ledger narrow nothing_held
      (map sample (unix counting) narrow nothing_held)
mappings_balance_example = mappings_balance sample counting counting-Ledger narrow nothing_held
