-- ===== src/View/Copy.antt =====
-- What a slice of the area shows after bytes were copied into it, and a copy byte by byte.
use membridge.Common.{
  ℕ, zero, suc, ◌+◌, ◌-◌, ◌≤◌, ◌<◌, ◌≡◌, ◌⊎◌, refl, sym, ap, ap₂, subst, ◌∙◌, List, [], ◌∷◌, ◌++◌,
  arith, length, take, drop, length-take, length-drop, drop-append, take-length-append,
  take-append-drop, append_assoc, get_or, set, inl, inr,
}
use membridge.Common.Slices.{
  read_on, drop-cons, take-snoc, drop-drop, take-append_ge, drop-append_ge, take-drop-take_append,
}
use membridge.View.{copy_into, slice}

-- The bytes from the place of a copy on begin with what was copied.
drop-copy_into :
    (area : List ℕ) (pos : ℕ) (bs : List ℕ)
    → pos + length bs ≤ length area
    → drop pos (copy_into area pos bs) ≡ bs ++ drop (pos + length bs) area
unfolding copy_into
drop-copy_into area pos bs h =
    drop-append pos (take pos area) (bs ++ drop (pos + length bs) area)
      (omega (arith, length-take pos area))

-- A slice that reaches over what was copied begins with it.
pub slice-copy_into :
    (area : List ℕ) (pos len : ℕ) (bs : List ℕ)
    → pos + length bs ≤ length area
    → length bs ≤ len
    → (rest : List ℕ) × (slice (copy_into area pos bs) pos len ≡ bs ++ rest)
unfolding slice
slice-copy_into area pos len bs h long = (
  take (len - length bs) (drop (pos + length bs) area),
  rw (drop-copy_into area pos bs h) (take-append_ge len bs (drop (pos + length bs) area) long),
)

-- What was copied stands at its place.
pub slice-copied :
    (area : List ℕ) (pos : ℕ) (bs : List ℕ)
    → pos + length bs ≤ length area
    → slice (copy_into area pos bs) pos (length bs) ≡ bs
unfolding slice
slice-copied area pos bs h =
    rw (drop-copy_into area pos bs h) (take-length-append bs (drop (pos + length bs) area))

-- What stands before a copy, and behind it, is as before.
pub slice-copy_into_outside :
    (area : List ℕ) (pos at len : ℕ) (bs : List ℕ)
    → pos + length bs ≤ length area
    → (at + len ≤ pos) ⊎ (pos + length bs ≤ at)
    → slice (copy_into area pos bs) at len ≡ slice area at len
unfolding slice copy_into
slice-copy_into_outside area pos at len bs h (inl before) =
    take-drop-take_append at len pos area (bs ++ drop (pos + length bs) area) before (omega arith)
slice-copy_into_outside area pos at len bs h (inr behind) = ap (take len) (
    drop-append_ge at (take pos area) (bs ++ drop (pos + length bs) area) (omega (arith, front))
    ∙ drop-append_ge (at - length (take pos area)) bs (drop (pos + length bs) area)
        (omega (arith, front))
    ∙ drop-drop (at - length (take pos area) - length bs) (pos + length bs) area
    ∙ ap (λ k. drop k area) (omega (arith, front)))
  where
    front : length (take pos area) ≡ pos
    front = omega (arith, length-take pos area)

-- A copy of nothing.
pub copy_into-nil : (area : List ℕ) (pos : ℕ) → copy_into area pos [] ≡ area
unfolding copy_into
copy_into-nil area pos = ap (λ k. take pos area ++ drop k area) add_zero ∙ take-append-drop pos area
  where
    add_zero : pos + 0 ≡ pos
    add_zero = omega arith

set-append :
    (xs ys : List ℕ) (n i v : ℕ) → n ≡ length xs + i → set (xs ++ ys) n v ≡ xs ++ set ys i v
set-append [] ys n i v e = ap (λ k. set ys k v) same
  where
    same : n ≡ i
    same = omega (arith, e)
set-append (x ∷ xs) ys zero i v e = absurd (omega (arith, e))
set-append (x ∷ xs) ys (suc n) i v e = ap (λ l. x ∷ l) (set-append xs ys n i v (omega (arith, e)))

-- A copy goes on by the byte behind those that it stored.
pub copy_into-set :
    (area : List ℕ) (pos i : ℕ) (bs : List ℕ)
    → pos + length bs ≤ length area
    → i < length bs
    → set (copy_into area pos (take i bs)) (pos + i) (get_or bs i 0)
      ≡ copy_into area pos (take (i + 1) bs)
unfolding copy_into
copy_into-set area pos i bs fits more =
    set-append front (take i bs ++ drop (pos + length (take i bs)) area) (pos + i) i byte
      (omega (arith, length-take pos area))
    ∙ ap (λ l. front ++ l)
        (set-append (take i bs) (drop (pos + length (take i bs)) area) i 0 byte
            (omega (arith, length-take i bs))
          ∙ ap (λ l. take i bs ++ set l 0 byte)
              (drop-cons (pos + length (take i bs)) area 0 (omega (arith, length-take i bs)))
          ∙ sym (append_assoc (take i bs) (byte ∷ []) (drop (pos + length (take i bs) + 1) area))
          ∙ ap₂ (λ l k. l ++ drop k area) (sym (take-snoc i bs 0 more))
              (omega (arith, length-take i bs, length-take (i + 1) bs)))
  where
    front : List ℕ
    front = take pos area

    byte : ℕ
    byte = get_or bs i 0

get_or-drop : (n i : ℕ) (xs : List ℕ) (d : ℕ) → get_or (drop n xs) i d ≡ get_or xs (n + i) d
get_or-drop zero i xs d = ap (λ k. get_or xs k d) zero_add
  where
    zero_add : i ≡ 0 + i
    zero_add = omega arith
get_or-drop (suc n) i [] d = refl
get_or-drop (suc n) i (x ∷ xs) d = get_or-drop n i xs d ∙ ap (λ k. get_or (x ∷ xs) k d) suc_add
  where
    suc_add : suc (n + i) ≡ suc n + i
    suc_add = omega arith

-- Bytes that were copied from the front of a range, with one byte more.
pub copied_on :
    (area : List ℕ) (offset len : ℕ) (got : List ℕ)
    → offset + len ≤ length area
    → length got < len
    → got ≡ take (length got) (drop offset area)
    → let got' = got ++ (get_or area (offset + length got) 0 ∷ []) in
      (length got' ≡ length got + 1) × (got' ≡ take (length got') (drop offset area))
copied_on area offset len got fits more read =
    subst
      (λ b.
        (length (got ++ (b ∷ [])) ≡ length got + 1)
        × (got ++ (b ∷ []) ≡ take (length (got ++ (b ∷ []))) (drop offset area)))
      (get_or-drop offset (length got) area 0)
      (read_on got (drop offset area) 0 (omega (arith, more, fits, length-drop offset area)) read)
