-- ===== src/SharedMemory/Refusals.antt =====
-- The names that `create`, `open` and `remove` refuse.
use Prim.Native.Char.{Char, code}
use membridge.Common.{ℕ, ◌<◌, ◌≡◌, ◌≢◌, refl, String, Option, arith, ne→==}
use membridge.Error.{Message, size_zero, name_without_slash, name_too_short, invalid}
use membridge.Codec.Value.{Runtime}
use membridge.Platform.{Platform}
use membridge.SharedMemory.{validate_name, starts_with_slash, create, open_segment, remove}
use membridge.SharedMemory.Handles.{named_err}
use membridge.SharedMemory.Names.{CountsBytes}

-- A name that does not begin with `/`, and one of which that is all, with what is wrong.
pub data Refused : String → Message → Type 0 where
  nothing : Refused String.[] name_without_slash
  other_start :
      (c : Char) (rest : String) → code c ≢ 47 → Refused (String.◌∷◌ c rest) name_without_slash
  slash_only : (c : Char) → code c ≡ 47 → Refused (String.◌∷◌ c String.[]) name_too_short

validate_name-Refused :
    (rt : Runtime) (name : String) (problem : Message)
    → CountsBytes rt
    → Refused name problem
    → validate_name rt name ≡ invalid problem
unfolding validate_name starts_with_slash invalid
validate_name-Refused rt name problem utf8 nothing = refl
validate_name-Refused rt name problem utf8 (other_start c rest h) = rw (ne→== (code c) 47 h) refl
validate_name-Refused rt name problem utf8 (slash_only c h) =
    ground (arith, h, utf8.ascii c String.[], utf8.nothing)

-- Where a text's length in bytes is that of its UTF-8: a name that does not begin with `/`, or has
-- nothing behind it, is refused by `create`, for any size above zero, by `open` and by `remove`, each
-- with the error that says which; a size of zero is refused first, whatever the name; and the system is
-- as it was.
pub refusals_agree :
    (rt : Runtime) (p : Platform) (name other : String) (problem : Message) (size : ℕ)
    (hint : Option ℕ) (k : p.Kernel)
    → CountsBytes rt
    → Refused name problem
    → 0 < size
    → (create rt p name size k ≡ (invalid problem, k))
      × (open_segment rt p name hint k ≡ (invalid problem, k))
      × (remove rt p name k ≡ (invalid problem, k))
      × (create rt p other 0 k ≡ (invalid size_zero, k))
unfolding create invalid
refusals_agree rt p name other problem size hint k utf8 refused some_size =
    let (a, b, c) =
      named_err rt p name size hint k
        (unfold invalid in validate_name-Refused rt name problem utf8 refused) some_size in
    (a, b, c, refl)
