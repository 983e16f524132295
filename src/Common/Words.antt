-- ===== src/Common/Words.antt =====
-- Machine words as native numbers: `usize` on a 64-bit target, powers of two, masks.
use Prim.Native.Nat.{
  ℕ, zero, suc, ◌+◌, ◌-◌, ◌*◌, ◌/◌, ◌%◌, ◌^◌, ◌≤◌, ◌<◌, min, bit_and, digits, bit_and-bitwise,
}
use mathlib.Core.Path.{◌≡◌, refl, sym, ap, ◌∙◌}
use mathlib.Core.Logic.{◌↔◌, inl, inr}
use mathlib.Core.Bool.{Bool, true, false, ◌||◌}
use native.Mathlib.Decide.{ℕ_discrete}
use native.Mathlib.Nat.{
  mod-mod_of_dvd, dvd-mul_right, mod-eq_of_lt, mod-lt, two-pow-succ, div-add-mod,
  mul-add-mod_self_left, add-zero,
}
use native.Mathlib.Omega.{arith}
use membridge.Common.Tests.{◌==◌, leb, if◌then◌else◌, Bool-cases, ==→eq, eq→==}

-- `usize::wrapping_add`, `+` in a release build, and `usize::wrapping_sub`.
abbrev pub add_usize : ℕ → ℕ → ℕ
add_usize a b = (a + b) % 2 ^ 64

abbrev pub sub_usize : ℕ → ℕ → ℕ
sub_usize a b = (a + 2 ^ 64 - b) % 2 ^ 64

-- `usize::saturating_add`
abbrev pub saturating_add : ℕ → ℕ → ℕ
saturating_add a b = min (a + b) (2 ^ 64 - 1)

-- `usize::is_power_of_two`: some `2 ^ k` with `k` below the width.
any_power : ℕ → ℕ → Bool
any_power zero n = false
any_power (suc k) n = n == 2 ^ k || any_power k n

unfoldable pub is_power_of_two : ℕ → Bool
unfolding any_power
is_power_of_two n = any_power 64 n

-- `usize::next_power_of_two` in a release build: the least power of two from `n` on, 0 past the
-- greatest.
next_power : ℕ → ℕ → ℕ → ℕ
next_power zero k n = 0
next_power (suc left) k n =
    let rest = next_power left (k + 1) n in if leb n (2 ^ k) then 2 ^ k else rest

unfoldable pub next_power_of_two : ℕ → ℕ
unfolding next_power
next_power_of_two n = next_power 64 0 n

any_power_sound : (w n : ℕ) → any_power w n ≡ true → (k : ℕ) × (k < w) × (n ≡ 2 ^ k)
unfolding any_power
any_power_sound zero n h = absurd (cc)
any_power_sound (suc w) n h = elim (Bool-cases (n == 2 ^ w)) [
  | inl here ↦ (w, omega arith, ==→eq n (2 ^ w) here)
  | inr below ↦ let (k, lt, e) = any_power_sound w n (rw below at h) in (k, omega arith, e)
]

||-true : (b : Bool) → (b || true) ≡ true
||-true true = refl
||-true false = refl

any_power_complete : (w k : ℕ) → k < w → any_power w (2 ^ k) ≡ true
unfolding any_power
any_power_complete zero k h = absurd (omega arith)
any_power_complete (suc w) k h = elim (ℕ_discrete k w) [
  | yes e ↦ rw (e, eq→== (2 ^ w) (2 ^ w) refl)
  | no ne ↦ rw (any_power_complete w k (omega arith)) (||-true (2 ^ k == 2 ^ w))
]

-- What the test decides.
pub is_power_of_two_iff : (n : ℕ) → (is_power_of_two n ≡ true) ↔ ((k : ℕ) × (k < 64) × (n ≡ 2 ^ k))
unfolding is_power_of_two
is_power_of_two_iff n = (any_power_sound 64 n, λ (k, lt, e). rw e (any_power_complete 64 k lt))

pub pow-pos : (k : ℕ) → 0 < 2 ^ k
pow-pos zero = omega arith
pow-pos (suc k) = omega (arith, two-pow-succ k, pow-pos k)

mask_half : (k : ℕ) → (2 ^ suc k - 1) / 2 ≡ 2 ^ k - 1
mask_half k = omega (arith, two-pow-succ k, pow-pos k)

mask_odd : (k : ℕ) → (2 ^ suc k - 1) % 2 ≡ 1
mask_odd k = omega (arith, two-pow-succ k, pow-pos k)

mod_double : (k a : ℕ) → a % 2 ^ suc k ≡ a / 2 % 2 ^ k * 2 + a % 2
mod_double k a =
    ap (λ t. t % 2 ^ suc k) split
    ∙ mul-add-mod_self_left (2 ^ suc k) (a / 2 / 2 ^ k) low
    ∙ mod-eq_of_lt (omega (arith, two-pow-succ k, mod-lt (a / 2) (pow-pos k)))
  where
    low : ℕ
    low = a / 2 % 2 ^ k * 2 + a % 2

    split : a ≡ 2 ^ suc k * (a / 2 / 2 ^ k) + low
    split = omega (
      arith,
      two-pow-succ k,
      div-add-mod (a / 2) (2 ^ k),
      ap (λ t. t * (a / 2 / 2 ^ k)) (two-pow-succ k),
    )

zero-mod : (k : ℕ) → 0 % 2 ^ k ≡ 0
zero-mod k = mod-eq_of_lt (pow-pos k)

-- The digits that a mask of `k` ones lets through, with `fuel` digits to go.
masked : (fuel k a : ℕ) → a ≤ fuel → digits (λ _. 0) min fuel a (2 ^ k - 1) ≡ a % 2 ^ k
masked zero k a few = rw (le-zero a few) (sym (zero-mod k))
  where
    le-zero : (a : ℕ) → a ≤ 0 → a ≡ 0
    le-zero a few = omega arith
masked (suc fuel) k zero few = sym (zero-mod k)
masked (suc fuel) zero (suc a) few = omega (arith, masked fuel zero (suc a / 2) (omega arith))
masked (suc fuel) (suc k) (suc a) few =
    let below = masked fuel k (suc a / 2) (omega arith) in
    rw (mask_half k, mask_odd k) (omega (arith, below, mod_double k (suc a)))

-- Masking with `2 ^ k - 1` keeps the remainder by `2 ^ k`.
pub bit_and-mask : (k a : ℕ) → bit_and a (2 ^ k - 1) ≡ a % 2 ^ k
bit_and-mask k a = bit_and-bitwise a (2 ^ k - 1) ∙ masked a k a (omega arith)

pow-mul-pow : (k d : ℕ) → 2 ^ k * 2 ^ d ≡ 2 ^ (k + d)
pow-mul-pow k zero = rw add-zero (omega arith)
pow-mul-pow k (suc d) =
    let shift : k + suc d ≡ suc (k + d) = omega arith in
    rw shift (
      omega
        (arith, two-pow-succ (k + d), pow-mul-pow k d, ap (λ (t : ℕ). 2 ^ k * t) (two-pow-succ d)))

-- Wrapping at `2 ^ 64` does not change the remainder by a smaller power of two.
pub mod-wrap : (k a : ℕ) → k ≤ 64 → a % 2 ^ 64 % 2 ^ k ≡ a % 2 ^ k
mod-wrap k a h = mod-mod_of_dvd (2 ^ k) a (rw wrap_split (dvd-mul_right (2 ^ k) (2 ^ (64 - k))))
  where
    enough : k + (64 - k) ≡ 64
    enough = omega arith

    wrap_split : 2 ^ 64 ≡ 2 ^ k * 2 ^ (64 - k)
    wrap_split = sym (pow-mul-pow k (64 - k) ∙ ap (λ t. 2 ^ t) enough)
