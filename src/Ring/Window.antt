-- ===== src/Ring/Window.antt =====
-- The bytes of an area of `cap` bytes read round the ring from a position, and stores there.
-- Positions here do not wrap: only the index into the area is reduced.
use membridge.Common.{
  ℕ, zero, suc, ◌+◌, ◌-◌, ◌%◌, ◌≤◌, ◌<◌, ◌≡◌, ◌≢◌, refl, sym, ap, ap₂, ◌∙◌, List, [], ◌∷◌, ◌++◌,
  arith, length, get_or, set, take, drop, take-append, drop-append, length-set, get_or-set_self,
  get_or-set_ne,
}
use native.Mathlib.Nat.{mod-add-mod, mod-eq_of_lt, mod-eq-sub-mod, mod-lt}
use native.Mathlib.Decide.{dec_lt}

unfoldable pub window : List ℕ → ℕ → ℕ → ℕ → List ℕ
window area cap x zero = []
window area cap x (suc n) = get_or area (x % cap) 0 ∷ window area cap (x + 1) n

unfoldable pub store : List ℕ → ℕ → ℕ → List ℕ → List ℕ
store area cap x [] = area
store area cap x (b ∷ bs) = store (set area (x % cap) b) cap (x + 1) bs

-- Two positions less than `cap` apart have different indices.
pub mod-ne : (cap a b : ℕ) → a < b → b < a + cap → a % cap ≢ b % cap
mod-ne cap a b lt near e = elim (dec_lt (a % cap + (b - a)) cap) [
  | yes below ↦ omega (arith, e ∙ apart, mod-eq_of_lt below)
  | no above ↦ omega (
    arith,
    e ∙ apart,
    mod-lt a {m = cap} (omega arith),
    mod-eq-sub-mod {n = a % cap + (b - a)} {m = cap} (omega arith),
    mod-eq_of_lt {n = a % cap + (b - a) - cap} {m = cap}
        (omega (arith, mod-lt a {m = cap} (omega arith))),
  )
]
  where
    apart : b % cap ≡ (a % cap + (b - a)) % cap
    apart = ap (λ t. t % cap) regroup ∙ sym (mod-add-mod a cap (b - a))
      where
        regroup : b ≡ a + (b - a)
        regroup = omega arith

pub length-window : (area : List ℕ) (cap x n : ℕ) → length (window area cap x n) ≡ n
unfolding window
length-window area cap x zero = refl
length-window area cap x (suc n) = ap suc (length-window area cap (x + 1) n)

pub length-store :
    (area : List ℕ) (cap x : ℕ) (bs : List ℕ) → length (store area cap x bs) ≡ length area
unfolding store
length-store area cap x [] = refl
length-store area cap x (b ∷ bs) =
    length-store (set area (x % cap) b) cap (x + 1) bs ∙ length-set area (x % cap) b

pub window-add :
    (area : List ℕ) (cap x m n : ℕ)
    → window area cap x (m + n) ≡ window area cap x m ++ window area cap (x + m) n
unfolding window
window-add area cap x zero n = ap₂ (λ y k. window area cap y k) x_zero zero_n
  where
    x_zero : x ≡ x + 0
    x_zero = omega arith

    zero_n : 0 + n ≡ n
    zero_n = omega arith
window-add area cap x (suc m) n =
    ap (window area cap x) suc_first
    ∙ ap (λ bs. get_or area (x % cap) 0 ∷ bs)
        (window-add area cap (x + 1) m n
          ∙ ap (λ y. window area cap (x + 1) m ++ window area cap y n) shift)
  where
    suc_first : suc m + n ≡ suc (m + n)
    suc_first = omega arith

    shift : x + 1 + m ≡ x + suc m
    shift = omega arith

-- A byte stored outside a window leaves it alone.
pub window-set :
    (area : List ℕ) (cap p m x b : ℕ)
    → p + m ≤ x
    → x < p + cap
    → window (set area (x % cap) b) cap p m ≡ window area cap p m
unfolding window
window-set area cap p zero x b past near = refl
window-set area cap p (suc m) x b past near =
    ap₂ ◌∷◌
      (get_or-set_ne area (x % cap) (p % cap) b 0 (λ e. mod-ne cap p x (omega arith) near (sym e)))
      (window-set area cap (p + 1) m x b (omega arith) (omega arith))

-- So do bytes stored behind a window, as long as they do not come round to it.
pub window-store_behind :
    (area : List ℕ) (cap p m x : ℕ) (bs : List ℕ)
    → p + m ≤ x
    → x + length bs ≤ p + cap
    → window (store area cap x bs) cap p m ≡ window area cap p m
unfolding store
window-store_behind area cap p m x [] past near = refl
window-store_behind area cap p m x (b ∷ bs) past near =
    window-store_behind (set area (x % cap) b) cap p m (x + 1) bs (omega arith) (omega arith)
    ∙ window-set area cap p m x b past (omega arith)

-- What was stored is read back, if it fits.
pub window-store_self :
    (area : List ℕ) (cap x : ℕ) (bs : List ℕ)
    → length area ≡ cap
    → length bs ≤ cap
    → window (store area cap x bs) cap x (length bs) ≡ bs
unfolding window store
window-store_self area cap x [] sized fits = refl
window-store_self area cap x (b ∷ bs) sized fits = ap₂ ◌∷◌ first (
    window-store_self (set area (x % cap) b) cap (x + 1) bs (length-set area (x % cap) b ∙ sized)
      (omega arith))
  where
    first : get_or (store (set area (x % cap) b) cap (x + 1) bs) (x % cap) 0 ≡ b
    first =
        ap (λ l. get_or l 0 0)
          (window-store_behind (set area (x % cap) b) cap x 1 (x + 1) bs (omega arith)
            (omega arith))
        ∙ get_or-set_self area (x % cap) b 0 (omega (arith, mod-lt x {m = cap} (omega arith)))

pub store-append :
    (area : List ℕ) (cap x : ℕ) (xs ys : List ℕ)
    → store area cap x (xs ++ ys) ≡ store (store area cap x xs) cap (x + length xs) ys
unfolding store
store-append area cap x [] ys = ap (λ y. store area cap y ys) at_start
  where
    at_start : x ≡ x + 0
    at_start = omega arith
store-append area cap x (b ∷ xs) ys =
    store-append (set area (x % cap) b) cap (x + 1) xs ys
    ∙ ap (λ y. store (store (set area (x % cap) b) cap (x + 1) xs) cap y ys) shift
  where
    shift : x + 1 + length xs ≡ x + suc (length xs)
    shift = omega arith

-- The two parts of a window whose bytes are known.
pub window-split :
    (area : List ℕ) (cap x m n : ℕ) (xs ys : List ℕ)
    → length xs ≡ m
    → window area cap x (m + n) ≡ xs ++ ys
    → (window area cap x m ≡ xs) × (window area cap (x + m) n ≡ ys)
window-split area cap x m n xs ys len e = (
  sym (take-append m first second (sym (length-window area cap x m)))
      ∙ ap (take m) (sym (window-add area cap x m n) ∙ e)
      ∙ take-append m xs ys (sym len),
  sym (drop-append m first second (sym (length-window area cap x m)))
      ∙ ap (drop m) (sym (window-add area cap x m n) ∙ e)
      ∙ drop-append m xs ys (sym len),
)
  where
    first : List ℕ
    first = window area cap x m

    second : List ℕ
    second = window area cap (x + m) n
