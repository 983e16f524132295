-- ===== src/SharedMemory/Panics.antt =====
-- Where `map` and `spsc` panic.
use membridge.Common.{◌≡◌, ◌↔◌, refl, none, inl, inr, arith, Bool-cases, ◌==◌}
use membridge.Codec.Value.{Runtime}
use membridge.Platform.Unix
use membridge.Platform.Unix.{Posix, unix}
use membridge.SharedMemory.{SharedMemory, map, spsc}

module _ (rt : Runtime) (os : Posix) where
  -- On Unix, `map` and `spsc` panic exactly on a segment of size zero.
  pub map_panics_iff :
      (s : SharedMemory rt (unix os)) (k : os.Kernel)
      → ((map rt (unix os) s k ≡ none) ↔ (s.handle.size ≡ 0))
        × ((spsc rt (unix os) s k ≡ none) ↔ (s.handle.size ≡ 0))
  unfolding map spsc Unix.map
  map_panics_iff s k = elim (Bool-cases (s.handle.size == 0)) [
    | inl zero ↦
        rw (zero, map, spsc) ((λ _. ground arith, λ _. refl), (λ _. ground arith, λ _. refl))
    | inr positive ↦
        rw (positive, map, spsc)
          (
            (λ e. absurd (cc), λ e. absurd (ground arith)),
            (λ e. absurd (cc), λ e. absurd (ground arith)),
          )
  ]
