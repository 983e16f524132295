-- ===== src/SharedMemory/Names.antt =====
-- Which names `validate_name` accepts.
use Prim.Native.Char.{Char, code}
use native.Mathlib.Decide.{ℕ_discrete}
use membridge.Common.{◌+◌, ◌<◌, ◌≡◌, ◌≢◌, ◌↔◌, refl, sym, ap, ◌∙◌, String, [], length, arith}
use membridge.Error.{ok, invalid}
use membridge.Codec.Value.{Runtime}
use membridge.SharedMemory.{validate_name, starts_with_slash}

-- What UTF-8 says of the length of a text: an ASCII character is one byte, and only the empty text
-- has none.
pub record CountsBytes (rt : Runtime) : Type 0 where
  pub nothing : rt.as_bytes String.[] ≡ []
  pub something : (s : String) → length (rt.as_bytes s) ≡ 0 → s ≡ String.[]
  pub ascii :
      (c : Char) (s : String)
      → code c < 128
      → length (rt.as_bytes (String.◌∷◌ c s)) ≡ 1 + length (rt.as_bytes s)

-- Where a text's length in bytes is that of its UTF-8: `validate_name` accepts exactly the names that
-- begin with `/` and have at least one more character.
pub validate_name_iff :
    (rt : Runtime) (name : String)
    → CountsBytes rt
    → (validate_name rt name ≡ ok tt) ↔ (
        (c : Char) × (rest : String) × (name ≡ String.◌∷◌ c rest)
        × (code c ≡ 47)
        × (rest ≢ String.[]))
unfolding validate_name starts_with_slash invalid
validate_name_iff rt String.[] utf8 = (λ e. absurd (cc), λ (c, rest, e, f, g). absurd (cc))
validate_name_iff rt (String.◌∷◌ c s) utf8 = (
  λ e. (c, s, refl, ground arith, λ none. ground (arith, utf8.ascii c s, utf8.nothing, none)),
  λ (c', rest, e, slash, more).
      let same : c ≡ c' = cc in
      let tail : s ≡ rest = cc in
      elim (ℕ_discrete (length (rt.as_bytes s)) 0) [
        | yes none ↦ absurd (more (sym tail ∙ utf8.something s none))
        | no some ↦ ground (arith, ap code same, slash, utf8.ascii c s, some)
      ],
)
