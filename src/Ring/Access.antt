-- ===== src/Ring/Access.antt =====
-- `write_bytes` and `read_bytes` are stores and windows: for a power of two, masking a wrapped
-- `usize` position is reducing the position itself.
use membridge.Common.{
  ℕ, zero, suc, ◌+◌, ◌-◌, ◌%◌, ◌^◌, ◌≤◌, ◌<◌, ◌≡◌, refl, sym, ap, ap₂, ◌∙◌, List, [], ◌∷◌, arith,
  get_or, set,
}
use native.Mathlib.Nat.{mod-add-mod, mod-mod, mod-lt, pow-le-pow_right}
use membridge.Common.Words.{add_usize, sub_usize, bit_and-mask, mod-wrap, pow-pos}
use membridge.Ring.{index, write_from, write_bytes, read_from, read_bytes}
use membridge.Ring.Window.{window, store}

-- A capacity that `new` accepts.
pub record IsPowerBelow (cap k : ℕ) : Type 0 where
  pub width : k < 64
  pub power : cap ≡ 2 ^ k

pub pow-lt : (k : ℕ) → k < 64 → 2 ^ k < 2 ^ 64
pow-lt k h = omega (arith, below)
  where
    below : 2 ^ k ≤ 2 ^ 63
    below = pow-le-pow_right (omega arith) {j = 63} (omega arith)

mask : {cap k : ℕ} → IsPowerBelow cap k → sub_usize cap 1 ≡ 2 ^ k - 1
mask {cap} {k} p = rw p.power (omega (arith, pow-pos k, pow-lt k p.width))

module _ {cap k : ℕ} (p : IsPowerBelow cap k) where
  -- The index that both loops compute, at a position that has wrapped.
  pub index-mod : (x i : ℕ) → index (x % 2 ^ 64) i cap ≡ (x + i) % cap
  unfolding index
  index-mod x i =
      rw (mask p, p.power)
        (bit_and-mask k (add_usize (x % 2 ^ 64) i)
          ∙ ap (λ t. t % 2 ^ k) (mod-add-mod x (2 ^ 64) i)
          ∙ mod-wrap k (x + i) (omega (arith, p.width)))

  write_from-store :
      (area : List ℕ) (x i : ℕ) (src : List ℕ)
      → write_from area (x % 2 ^ 64) i src cap ≡ store area cap (x + i) src
  unfolding write_from store
  write_from-store area x i [] = refl
  write_from-store area x i (byte ∷ src) = rw (index-mod x i) (
      write_from-store (set area ((x + i) % cap) byte) x (i + 1) src
      ∙ ap (λ y. store (set area ((x + i) % cap) byte) cap y src) regroup)
    where
      regroup : x + (i + 1) ≡ x + i + 1
      regroup = omega arith

  pub write_bytes-store :
      (area : List ℕ) (x : ℕ) (src : List ℕ)
      → write_bytes area (x % 2 ^ 64) src cap ≡ store area cap x src
  unfolding write_bytes
  write_bytes-store area x src =
      write_from-store area x 0 src ∙ ap (λ y. store area cap y src) at_start
    where
      at_start : x + 0 ≡ x
      at_start = omega arith

  read_from-window :
      (area : List ℕ) (x i n : ℕ) → read_from area (x % 2 ^ 64) i n cap ≡ window area cap (x + i) n
  unfolding read_from window
  read_from-window area x i zero = refl
  read_from-window area x i (suc n) =
      ap₂ (λ j bs. get_or area j 0 ∷ bs) (index-mod x i)
        (read_from-window area x (i + 1) n ∙ ap (λ y. window area cap y n) regroup)
    where
      regroup : x + (i + 1) ≡ x + i + 1
      regroup = omega arith

  pub read_bytes-window :
      (area : List ℕ) (x n : ℕ) → read_bytes area (x % 2 ^ 64) n cap ≡ window area cap x n
  unfolding read_bytes
  read_bytes-window area x n = read_from-window area x 0 n ∙ ap (λ y. window area cap y n) at_start
    where
      at_start : x + 0 ≡ x
      at_start = omega arith

  pub window-wrap : (area : List ℕ) (x n : ℕ) → window area cap (x % 2 ^ 64) n ≡ window area cap x n
  window-wrap area x n =
      sym (read_bytes-window area (x % 2 ^ 64) n)
      ∙ ap (λ y. read_bytes area y n cap) (mod-mod x (2 ^ 64))
      ∙ read_bytes-window area x n

-- For a capacity that is a power of two below 2 ^ 64, the index that `write_bytes` and `read_bytes`
-- compute is below the capacity, whatever the position and the round.
pub index-lt : {cap k : ℕ} (pos i : ℕ) → IsPowerBelow cap k → index pos i cap < cap
unfolding index
index-lt {cap} {k} pos i p =
    rw (mask p, p.power, bit_and-mask k (add_usize pos i)) (mod-lt (add_usize pos i) (pow-pos k))
