-- ===== src/Codec/Bounds.antt =====
-- Reading never consumes more than it was given, and `unpack_one` fails exactly where its input is
-- too short or its tag unknown.
use membridge.Common.{
  ℕ, zero, suc, ◌+◌, ◌^◌, ◌≤◌, ◌<◌, ◌≡◌, ◌⊎◌, refl, String, Option, some, none, List, [], ◌∷◌, ◌++◌,
  arith, length, take, drop, length-take, length-append, ltb, Bool-cases, inl, inr, if◌then◌else◌,
}
use native.Mathlib.Nat.{pow-le-pow_right}
use membridge.Error.{PyResult, ok, err, unknown_tag, ◌>>=◌, invalid, bind_ok}
use membridge.Codec.Bytes.{from_ne_bytes, from_ne_bytes-lt}
use membridge.Codec.Value.{Runtime, Value, PyObject}
use membridge.Codec.Unpack.{
  Tag, bool, u8, f32, i32, u32, i64, f64, u64, str, parse_tag, unpack_one, read_tag, read_fixed,
  read_bool, read_str,
}
use membridge.Codec.Tags.{Names, parse_tag-Names, Names-parse_tag}
use membridge.Codec.Mixed.{
  SchemaEntry, tuple, not_a_tuple, next, next_fixed, next_str, read_group, close_group, read_tagged,
  read_entry, get_item, extract_string, extract_usize, read_schema, unpack_mixed_counted,
}

module _ (rt : Runtime) (bs : List ℕ) where
  -- The bytes that a tag needs at the front: its width, or a prefix and the text that it announces.
  abbrev pub need : Tag → ℕ
  need bool = 1
  need u8 = 1
  need f32 = 4
  need i32 = 4
  need u32 = 4
  need i64 = 8
  need f64 = 8
  need u64 = 8
  need str = if ltb (length bs) 4 then 4 else 4 + from_ne_bytes rt.endian (take 4 bs)

  -- A read that consumes `n` bytes if there are so many, and fails otherwise.
  abbrev pub Takes : ℕ → PyResult (Value × ℕ) → Type 0
  Takes n (ok (v, k)) = (k ≡ n) × (n ≤ length bs)
  Takes n (err e) = length bs < n

  read_fixed-Takes : (tag : String) (t : Tag) (n : ℕ) → Takes n (read_fixed rt bs tag t n)
  unfolding read_fixed
  read_fixed-Takes tag t n = elim (Bool-cases (ltb (length bs) n)) [
    | inl short ↦ rw short (ground arith)
    | inr enough ↦ rw enough (ground arith)
  ]

  read_str-Takes : Takes (need str) (read_str rt bs)
  unfolding read_str
  read_str-Takes = elim (Bool-cases (ltb (length bs) 4)) [
    | inl short ↦ rw short (ground arith)
    | inr prefixed ↦ elim (Bool-cases (ltb (length bs) (4 + from_ne_bytes rt.endian (take 4 bs)))) [
      | inl short ↦ rw (prefixed, short) (ground arith)
      | inr enough ↦ rw (prefixed, enough) (ground arith)
    ]
  ]

read_bool-Takes : (rt : Runtime) (bs : List ℕ) → Takes rt bs 1 (read_bool rt bs)
unfolding read_bool
read_bool-Takes rt [] = omega arith
read_bool-Takes rt (b ∷ bs) = (refl, omega arith)

u32-lt : (rt : Runtime) (xs : List ℕ) → from_ne_bytes rt.endian (take 4 xs) < 2 ^ 32
u32-lt rt xs = omega (arith, from_ne_bytes-lt rt.endian (take 4 xs), wide)
  where
    wide : 256 ^ length (take 4 xs) ≤ 256 ^ 4
    wide = pow-le-pow_right (omega arith) {j = 4} (omega (arith, length-take 4 xs))

module _ (rt : Runtime) (bs : List ℕ) where
  read_tag-Takes : (tag : String) (t : Tag) → Takes rt bs (need rt bs t) (read_tag rt bs tag t)
  unfolding read_tag
  read_tag-Takes tag bool = read_bool-Takes rt bs
  read_tag-Takes tag u8 = read_fixed-Takes rt bs tag u8 1
  read_tag-Takes tag f32 = read_fixed-Takes rt bs tag f32 4
  read_tag-Takes tag i32 = read_fixed-Takes rt bs tag i32 4
  read_tag-Takes tag u32 = read_fixed-Takes rt bs tag u32 4
  read_tag-Takes tag i64 = read_fixed-Takes rt bs tag i64 8
  read_tag-Takes tag f64 = read_fixed-Takes rt bs tag f64 8
  read_tag-Takes tag u64 = read_fixed-Takes rt bs tag u64 8
  read_tag-Takes tag str = read_str-Takes rt bs

  -- `unpack_one` on every input: a text that is no name of a type is refused, with that text, and
  -- under a name of a type the call consumes exactly the bytes that the type needs, or fails because
  -- there are fewer.
  pub unpack_one_cases :
      (tag : String)
      → ((t : Tag) → ¬ Names t tag) × (unpack_one rt bs tag ≡ invalid (unknown_tag tag))
        ⊎ ((t : Tag) × Names t tag × Takes rt bs (need rt bs t) (unpack_one rt bs tag))
  unfolding unpack_one
  unpack_one_cases tag = by_tag (parse_tag tag) refl
    where
      by_tag :
          (o : Option Tag)
          → parse_tag tag ≡ o
          → ((t : Tag) → ¬ Names t tag) × (unpack_one rt bs tag ≡ invalid (unknown_tag tag))
            ⊎ ((t : Tag) × Names t tag × Takes rt bs (need rt bs t) (unpack_one rt bs tag))
      by_tag none e = inl (
        λ t named. let known : parse_tag tag ≡ some t = parse_tag-Names t tag named in absurd (cc),
        rw (e, unpack_one),
      )
      by_tag (some t) e =
          inr (t, Names-parse_tag t tag e, rw (e, unpack_one) (read_tag-Takes tag t))

  pub unpack_one-le :
      (tag : String) (v : Value) (n : ℕ) → unpack_one rt bs tag ≡ ok (v, n) → n ≤ length bs
  unpack_one-le tag v n e = elim (unpack_one_cases tag) [
    | inl (unknown, fails) ↦ absurd (unfold invalid in cc)
    | inr (t, known, takes) ↦
        let h : Takes rt bs (need rt bs t) (ok (v, n)) = rw e at takes in omega (arith, h)
  ]

  next_fixed-le :
      (t : Tag) (n cursor c : ℕ) (v : Value)
      → n ≤ 8
      → length bs < 2 ^ 63
      → cursor ≤ length bs
      → next_fixed rt bs t n cursor ≡ ok (v, c)
      → c ≤ length bs
  unfolding next_fixed
  next_fixed-le t n cursor c v few small h e = ground arith

  next_str-le :
      (cursor c : ℕ) (v : Value)
      → length bs < 2 ^ 63
      → cursor ≤ length bs
      → next_str rt bs cursor ≡ ok (v, c)
      → c ≤ length bs
  unfolding next_str
  next_str-le cursor c v small h e = ground (arith, u32-lt rt (drop cursor bs))

  next-le :
      (t : Tag) (cursor c : ℕ) (v : Value)
      → length bs < 2 ^ 63
      → cursor ≤ length bs
      → next rt bs t cursor ≡ ok (v, c)
      → c ≤ length bs
  unfolding next
  next-le bool cursor c v small h e = next_fixed-le bool 1 cursor c v (omega arith) small h e
  next-le u8 cursor c v small h e = next_fixed-le u8 1 cursor c v (omega arith) small h e
  next-le f32 cursor c v small h e = next_fixed-le f32 4 cursor c v (omega arith) small h e
  next-le i32 cursor c v small h e = next_fixed-le i32 4 cursor c v (omega arith) small h e
  next-le u32 cursor c v small h e = next_fixed-le u32 4 cursor c v (omega arith) small h e
  next-le i64 cursor c v small h e = next_fixed-le i64 8 cursor c v (omega arith) small h e
  next-le f64 cursor c v small h e = next_fixed-le f64 8 cursor c v (omega arith) small h e
  next-le u64 cursor c v small h e = next_fixed-le u64 8 cursor c v (omega arith) small h e
  next-le str cursor c v small h e = next_str-le cursor c v small h e

  read_group-le :
      (t : Tag) (count : ℕ) (group : List Value) (cursor c : ℕ) (vs : List Value)
      → length bs < 2 ^ 63
      → cursor ≤ length bs
      → read_group rt bs t count group cursor ≡ ok (vs, c)
      → (c ≤ length bs) × (length vs ≡ length group + count)
  unfolding read_group
  read_group-le t zero group cursor c vs small h e = ground arith
  read_group-le t (suc count) group cursor c vs small h e =
      let ((v, c'), e1, e2) =
        bind_ok (next rt bs t cursor) (λ (v, c'). read_group rt bs t count (group ++ (v ∷ [])) c')
          e in
      let (le, len) =
        read_group-le t count (group ++ (v ∷ [])) c' c vs small (next-le t cursor c' v small h e1)
          e2 in
      (le, omega (arith, len, length-append group (v ∷ [])))

  read_tagged-le :
      (o : Option Tag) (tag : String) (count cursor c : ℕ) (r : PyObject)
      → length bs < 2 ^ 63
      → cursor ≤ length bs
      → read_tagged rt bs o tag count cursor ≡ ok (r, c)
      → c ≤ length bs
  unfolding read_tagged
  read_tagged-le none tag count cursor c r small h e = absurd (cc)
  read_tagged-le (some t) tag count cursor c r small h e =
      let ((vs, c'), e1, e2) =
        bind_ok (read_group rt bs t count [] cursor)
          (λ (g, k). close_group rt bs count g >>= λ entry. ok (entry, k)) e in
      let (entry, e3, e4) = bind_ok (close_group rt bs count vs) (λ entry. ok (entry, c')) e2 in
      let same : c' ≡ c = cc in rw (← same) (read_group-le t count [] cursor c' vs small h e1).0

  read_entry-le :
      (entry : SchemaEntry) (cursor c : ℕ) (r : PyObject)
      → length bs < 2 ^ 63
      → cursor ≤ length bs
      → read_entry rt bs entry cursor ≡ ok (r, c)
      → c ≤ length bs
  unfolding read_entry
  read_entry-le not_a_tuple cursor c r small h e = absurd (unfold invalid in cc)
  read_entry-le (tuple items) cursor c r small h e =
      let (first, e1, f1) = bind_ok (get_item items 0) _ e in
      let (tag, e2, f2) = bind_ok (extract_string first) _ f1 in
      let (second, e3, f3) = bind_ok (get_item items 1) _ f2 in
      let (count, e4, f4) = bind_ok (extract_usize second) _ f3 in
      read_tagged-le (parse_tag tag) tag count cursor c r small h f4

  read_schema-le :
      (schema : List SchemaEntry) (result : List PyObject) (cursor c : ℕ) (os : List PyObject)
      → length bs < 2 ^ 63
      → cursor ≤ length bs
      → read_schema rt bs schema result cursor ≡ ok (os, c)
      → (c ≤ length bs) × (length os ≡ length result + length schema)
  unfolding read_schema
  read_schema-le [] result cursor c os small h e = ground arith
  read_schema-le (entry ∷ schema) result cursor c os small h e =
      let ((r, c'), e1, e2) = bind_ok (read_entry rt bs entry cursor) _ e in
      let (le, len) =
        read_schema-le schema (result ++ (r ∷ [])) c' c os small
          (read_entry-le entry cursor c' r small h e1) e2 in
      (le, omega (arith, len, length-append result (r ∷ [])))

  -- An `unpack_mixed_counted` that succeeds on fewer than 2 ^ 63 bytes returns one object for each
  -- entry of the schema, and has consumed no more bytes than it was given.
  pub unpack_mixed_counted_bounds :
      (schema : List SchemaEntry) (os : List PyObject) (n : ℕ)
      → length bs < 2 ^ 63
      → unpack_mixed_counted rt bs schema ≡ ok (os, n)
      → (n ≤ length bs) × (length os ≡ length schema)
  unfolding unpack_mixed_counted
  unpack_mixed_counted_bounds schema os n small e =
      let (le, len) = read_schema-le schema [] 0 n os small (omega arith) e in
      (le, omega (arith, len))
