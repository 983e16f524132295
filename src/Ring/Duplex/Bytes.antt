-- ===== src/Ring/Duplex/Bytes.antt =====
-- Windows of a ring's bytes that grow by one byte.
use membridge.Common.{
  ℕ, zero, suc, ◌+◌, ◌%◌, ◌<◌, ◌≡◌, refl, ap, ap₂, ◌∙◌, List, [], ◌∷◌, ◌++◌, arith, length, get_or,
  set, get_or-set_self,
}
use native.Mathlib.Nat.{mod-lt}
use membridge.Ring.Window.{window, window-add, window-set}

-- A byte of a window.
pub get_or-window :
    (area : List ℕ) (cap x m n : ℕ)
    → n < m
    → get_or (window area cap x m) n 0 ≡ get_or area ((x + n) % cap) 0
unfolding window
get_or-window area cap x zero n h = absurd (omega (arith, h))
get_or-window area cap x (suc m) zero h = ap (λ y. get_or area (y % cap) 0) at_start
  where
    at_start : x ≡ x + 0
    at_start = omega arith
get_or-window area cap x (suc m) (suc n) h =
    get_or-window area cap (x + 1) m n (omega (arith, h))
    ∙ ap (λ y. get_or area (y % cap) 0) regroup
  where
    regroup : x + 1 + n ≡ x + suc n
    regroup = omega arith

-- A window with the byte behind it stored.
pub window-set_snoc :
    (area : List ℕ) (cap x n b : ℕ)
    → length area ≡ cap
    → n < cap
    → window (set area ((x + n) % cap) b) cap x (n + 1) ≡ window area cap x n ++ (b ∷ [])
unfolding window
window-set_snoc area cap x n b sized inside =
    window-add (set area ((x + n) % cap) b) cap x n 1
    ∙ ap₂ ◌++◌ (window-set area cap x n (x + n) b (omega arith) (omega arith)) (
        ap (λ y. y ∷ [])
          (get_or-set_self area ((x + n) % cap) b 0
            (omega (arith, sized, mod-lt (x + n) {m = cap} (omega arith)))))

-- A list of four.
pub four_bytes : (l : List ℕ) → length l ≡ 4 → (a b c d : ℕ) × (l ≡ a ∷ b ∷ c ∷ d ∷ [])
four_bytes [] h = absurd (omega (arith, h))
four_bytes (a ∷ []) h = absurd (omega (arith, h))
four_bytes (a ∷ b ∷ []) h = absurd (omega (arith, h))
four_bytes (a ∷ b ∷ c ∷ []) h = absurd (omega (arith, h))
four_bytes (a ∷ b ∷ c ∷ d ∷ []) h = (a, b, c, d, refl)
four_bytes (a ∷ b ∷ c ∷ d ∷ e ∷ l) h = absurd (omega (arith, h))
