-- ===== src/Common/Slices.antt =====
-- Taking and dropping, inside concatenations and one element more.
use Prim.Native.Nat.{ℕ, zero, suc, ◌+◌, ◌-◌, ◌≤◌, ◌<◌}
use mathlib.Core.Path.{◌≡◌, refl, sym, ap, ◌∙◌}
use mathlib.Core.List.{List, [], ◌∷◌, ◌++◌}
use native.Mathlib.Omega.{arith}
use membridge.Common.Lists.{length, take, drop, get_or, length-append}

module _ {ℓ} {A : Type ℓ} where
  drop-nil : (n : ℕ) → drop {A = A} n [] ≡ []
  drop-nil zero = refl
  drop-nil (suc n) = refl

  pub drop-drop : (m n : ℕ) (xs : List A) → drop m (drop n xs) ≡ drop (n + m) xs
  drop-drop m zero xs = ap (λ k. drop k xs) zero_add
    where
      zero_add : m ≡ 0 + m
      zero_add = omega arith
  drop-drop m (suc n) [] = drop-nil m ∙ sym (drop-nil (suc n + m))
  drop-drop m (suc n) (x ∷ xs) = drop-drop m n xs ∙ ap (λ k. drop k (x ∷ xs)) suc_add
    where
      suc_add : suc (n + m) ≡ suc n + m
      suc_add = omega arith

  pub take-append_ge :
      (n : ℕ) (xs ys : List A) → length xs ≤ n → take n (xs ++ ys) ≡ xs ++ take (n - length xs) ys
  take-append_ge n [] ys h = ap (λ k. take k ys) sub_zero
    where
      sub_zero : n ≡ n - 0
      sub_zero = omega arith
  take-append_ge zero (x ∷ xs) ys h = absurd (omega arith)
  take-append_ge (suc n) (x ∷ xs) ys h =
      ap (λ t. x ∷ t) (take-append_ge n xs ys (omega arith) ∙ ap (λ k. xs ++ take k ys) suc_sub)
    where
      suc_sub : n - length xs ≡ suc n - suc (length xs)
      suc_sub = omega arith

  pub drop-append_ge :
      (n : ℕ) (xs ys : List A) → length xs ≤ n → drop n (xs ++ ys) ≡ drop (n - length xs) ys
  drop-append_ge n [] ys h = ap (λ k. drop k ys) sub_zero
    where
      sub_zero : n ≡ n - 0
      sub_zero = omega arith
  drop-append_ge zero (x ∷ xs) ys h = absurd (omega arith)
  drop-append_ge (suc n) (x ∷ xs) ys h =
      drop-append_ge n xs ys (omega arith) ∙ ap (λ k. drop k ys) suc_sub
    where
      suc_sub : n - length xs ≡ suc n - suc (length xs)
      suc_sub = omega arith

  pub take-append_le : (n : ℕ) (xs ys : List A) → n ≤ length xs → take n (xs ++ ys) ≡ take n xs
  take-append_le zero xs ys h = refl
  take-append_le (suc n) [] ys h = absurd (omega arith)
  take-append_le (suc n) (x ∷ xs) ys h = ap (λ t. x ∷ t) (take-append_le n xs ys (omega arith))

  take-take_append :
      (n m : ℕ) (xs ys : List A) → n ≤ m → m ≤ length xs → take n (take m xs ++ ys) ≡ take n xs
  take-take_append zero m xs ys h k = refl
  take-take_append (suc n) zero xs ys h k = absurd (omega arith)
  take-take_append (suc n) (suc m) [] ys h k = absurd (omega arith)
  take-take_append (suc n) (suc m) (x ∷ xs) ys h k =
      ap (λ t. x ∷ t) (take-take_append n m xs ys (omega arith) (omega arith))

  -- A part of the first `m` elements does not see what follows them.
  pub take-drop-take_append :
      (i n m : ℕ) (xs ys : List A)
      → i + n ≤ m
      → m ≤ length xs
      → take n (drop i (take m xs ++ ys)) ≡ take n (drop i xs)
  take-drop-take_append zero n m xs ys h k = take-take_append n m xs ys (omega arith) k
  take-drop-take_append (suc i) n zero xs ys h k = absurd (omega arith)
  take-drop-take_append (suc i) n (suc m) [] ys h k = absurd (omega arith)
  take-drop-take_append (suc i) n (suc m) (x ∷ xs) ys h k =
      take-drop-take_append i n m xs ys (omega arith) (omega arith)

  pub take-snoc :
      (n : ℕ) (xs : List A) (d : A)
      → n < length xs
      → take (n + 1) xs ≡ take n xs ++ (get_or xs n d ∷ [])
  take-snoc zero [] d h = absurd (omega (arith, h))
  take-snoc zero (x ∷ xs) d h = refl
  take-snoc (suc n) [] d h = absurd (omega (arith, h))
  take-snoc (suc n) (x ∷ xs) d h =
      ap (λ k. take k (x ∷ xs)) shift ∙ ap (λ l. x ∷ l) (take-snoc n xs d (omega (arith, h)))
    where
      shift : suc n + 1 ≡ suc (n + 1)
      shift = omega arith

  pub take_all : (xs : List A) → take (length xs) xs ≡ xs
  take_all [] = refl
  take_all (x ∷ xs) = ap (λ l. x ∷ l) (take_all xs)

  -- What was read of `xs` from the front, with one element more.
  pub read_on :
      (got xs : List A) (d : A)
      → length got < length xs
      → got ≡ take (length got) xs
      → let got' = got ++ (get_or xs (length got) d ∷ []) in
        (length got' ≡ length got + 1) × (got' ≡ take (length got') xs)
  read_on got xs d more read = (
    counted,
    ap (λ l. l ++ (get_or xs (length got) d ∷ [])) read
        ∙ sym (take-snoc (length got) xs d more)
        ∙ ap (λ n. take n xs) (sym counted),
  )
    where
      counted : length (got ++ (get_or xs (length got) d ∷ [])) ≡ length got + 1
      counted = omega (arith, length-append got (get_or xs (length got) d ∷ []))

  pub drop-cons :
      (n : ℕ) (xs : List A) (d : A) → n < length xs → drop n xs ≡ get_or xs n d ∷ drop (n + 1) xs
  drop-cons zero [] d h = absurd (omega (arith, h))
  drop-cons zero (x ∷ xs) d h = refl
  drop-cons (suc n) [] d h = absurd (omega (arith, h))
  drop-cons (suc n) (x ∷ xs) d h =
      drop-cons n xs d (omega (arith, h)) ∙ ap (λ k. get_or xs n d ∷ drop k (x ∷ xs)) shift
    where
      shift : suc (n + 1) ≡ suc n + 1
      shift = omega arith

  pub drop_all : (xs : List A) → drop (length xs) xs ≡ []
  drop_all [] = refl
  drop_all (x ∷ xs) = drop_all xs
