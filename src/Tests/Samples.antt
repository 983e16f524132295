-- ===== src/Tests/Samples.antt =====
-- A concrete runtime for the tests: little-endian, with texts as the list of their code points, which
-- is their UTF-8 where they are ASCII.
use Prim.Native.Nat.{compare, Ordering}
use Prim.Native.Char.{Char, char, IsLt, IsScalar, code}
use mathlib.Core.HLevel.{Unit-prop, ⊥_prop}
use membridge.Common.{ℕ, ◌≡◌, refl, ap, ap₂, List, [], ◌∷◌, String}
use membridge.Codec.Bytes.{Endian}
use membridge.Codec.Value.{Runtime, DecodesText}

abbrev BothLt : Ordering → Ordering → Type 0
BothLt Ordering.lt o = IsLt o
BothLt Ordering.eq _ = ⊥
BothLt Ordering.gt _ = ⊥

abbrev Outside : Ordering → Ordering → Ordering → Type 0
Outside Ordering.lt _ _ = Unit
Outside Ordering.eq o p = BothLt o p
Outside Ordering.gt o p = BothLt o p

is_lt : (o : Ordering) → Dec (IsLt o)
is_lt Ordering.lt = yes tt
is_lt Ordering.eq = no (λ x. x)
is_lt Ordering.gt = no (λ x. x)

both : (a b : Ordering) → Dec (BothLt a b)
both Ordering.lt o = is_lt o
both Ordering.eq _ = no (λ x. x)
both Ordering.gt _ = no (λ x. x)

outside : (a b c : Ordering) → Dec (Outside a b c)
outside Ordering.lt _ _ = yes tt
outside Ordering.eq b c = both b c
outside Ordering.gt b c = both b c

scalar : (n : ℕ) → Dec (IsScalar n)
scalar n = outside (compare n 55296) (compare 57343 n) (compare n 1114112)

to_char : ℕ → Char
to_char n = elim (scalar n) [ yes p ↦ char n p | no _ ↦ char 0xfffd tt ]

both_prop : (a b : Ordering) → IsProp (BothLt a b)
both_prop Ordering.lt Ordering.lt = Unit-prop
both_prop Ordering.lt Ordering.eq = ⊥_prop
both_prop Ordering.lt Ordering.gt = ⊥_prop
both_prop Ordering.eq b = ⊥_prop
both_prop Ordering.gt b = ⊥_prop

outside_prop : (a b c : Ordering) → IsProp (Outside a b c)
outside_prop Ordering.lt b c = Unit-prop
outside_prop Ordering.eq b c = both_prop b c
outside_prop Ordering.gt b c = both_prop b c

to_char-code : (c : Char) → to_char (code c) ≡ c
unfolding to_char
to_char-code (char n p) = decided (scalar n)
  where
    decided :
        (d : Dec (IsScalar n)) → (elim d [ yes q ↦ char n q | no _ ↦ char 0xfffd tt ]) ≡ char n p
    decided (yes q) =
        ap (char n) (outside_prop (compare n 55296) (compare 57343 n) (compare n 1114112) q p)
    decided (no out) = absurd (out p)

abbrev pub codes : String → List ℕ
codes String.[] = []
codes (String.◌∷◌ c s) = code c ∷ codes s

unfoldable pub text_of : List ℕ → String
unfolding to_char scalar outside both is_lt
text_of [] = String.[]
text_of (n ∷ ns) = String.◌∷◌ (to_char n) (text_of ns)

abbrev pub sample : Runtime
sample = record {
  endian = Endian.little;
  as_bytes = codes;
  from_utf8_lossy = text_of;
  widen_f32 = λ w. w;
}

pub sample-DecodesText : DecodesText sample
unfolding text_of
sample-DecodesText String.[] = refl
sample-DecodesText (String.◌∷◌ c s) = ap₂ String.◌∷◌ (to_char-code c) (sample-DecodesText s)
