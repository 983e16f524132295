-- ===== src/Codec/Tags.antt =====
-- The type tags that `unpack_one` and `unpack_mixed_counted` know, by their names.
use text.Mathlib.Text.{◌==◌ as str_eq}
use text.Mathlib.TextEquality.{eq_iff}
use membridge.Common.{
  ◌≡◌, ◌⊎◌, inl, inr, refl, subst, Bool-cases, if◌then◌else◌, String, Option, some,
}
use membridge.Codec.Unpack.{Tag, bool, u8, f32, i32, u32, i64, f64, u64, str, parse_tag}

-- The names of each type.
abbrev pub Names : Tag → String → Type 0
Names bool tag = tag ≡ "bool"
Names u8 tag = tag ≡ "u8"
Names f32 tag = tag ≡ "f32"
Names i32 tag = tag ≡ "i32"
Names u32 tag = tag ≡ "u32"
Names i64 tag = (tag ≡ "int") ⊎ (tag ≡ "i64")
Names f64 tag = (tag ≡ "float") ⊎ (tag ≡ "f64")
Names u64 tag = tag ≡ "u64"
Names str tag = tag ≡ "str"

-- Each name leads to its type, and no other text to any.
pub parse_tag-Names : (t : Tag) (tag : String) → Names t tag → parse_tag tag ≡ some t
unfolding parse_tag
parse_tag-Names bool tag e = rw e refl
parse_tag-Names u8 tag e = rw e refl
parse_tag-Names f32 tag e = rw e refl
parse_tag-Names i32 tag e = rw e refl
parse_tag-Names u32 tag e = rw e refl
parse_tag-Names i64 tag (inl e) = rw e refl
parse_tag-Names i64 tag (inr e) = rw e refl
parse_tag-Names f64 tag (inl e) = rw e refl
parse_tag-Names f64 tag (inr e) = rw e refl
parse_tag-Names u64 tag e = rw e refl
parse_tag-Names str tag e = rw e refl

-- One arm of the match, and those behind it.
arm :
    (t : Tag) (tag name : String) (x : Tag) (rest : Option Tag)
    → (tag ≡ name → Names x tag)
    → (rest ≡ some t → Names t tag)
    → (if str_eq tag name then some x else rest) ≡ some t
    → Names t tag
arm t tag name x rest here behind e = elim (Bool-cases (str_eq tag name)) [
  | inl same ↦
      let found : some x ≡ some t = rw same at e in
      let x_t : x ≡ t = cc in subst (λ u. Names u tag) x_t (here ((eq_iff tag name).0 same))
  | inr other ↦ behind (rw other at e)
]

pub Names-parse_tag : (t : Tag) (tag : String) → parse_tag tag ≡ some t → Names t tag
unfolding parse_tag
Names-parse_tag t tag =
    arm t tag "bool" bool _ (λ q. q)
      ((arm t tag "u8" u8 _ (λ q. q)
        ((arm t tag "f32" f32 _ (λ q. q)
          ((arm t tag "i32" i32 _ (λ q. q)
            ((arm t tag "u32" u32 _ (λ q. q)
              ((arm t tag "int" i64 _ (λ q. inl q)
                ((arm t tag "i64" i64 _ (λ q. inr q)
                  ((arm t tag "float" f64 _ (λ q. inl q)
                    ((arm t tag "f64" f64 _ (λ q. inr q)
                      ((arm t tag "u64" u64 _ (λ q. q)
                        ((arm t tag "str" str _ (λ q. q) (λ e. absurd (cc))))))))))))))))))))))
