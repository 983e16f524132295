-- ===== src/Codec/Groups.antt =====
-- Values that lie one behind the other are read back in turn from a cursor.
use membridge.Common.{
  ℕ, ◌+◌, ◌^◌, ◌≤◌, ◌<◌, ◌≡◌, refl, sym, ap, ap₂, ◌∙◌, String, true, false, List, [], ◌∷◌, ◌++◌,
  arith, some, length, take, drop, All, length-append, drop-append, drop-length-append,
  drop-length_add-append, append_assoc, append-nil,
}
use native.Mathlib.Nat.{mod-eq_of_lt}
use membridge.Common.Words.{add_usize}
use membridge.Error.{ok}
use membridge.Codec.Bytes.{to_ne_bytes, length-to_ne_bytes}
use membridge.Codec.Value.{
  Runtime, DecodesText, bits_of_i64, Value, bool, int, float, str, ill_formed_str, bytes, bytearray,
  other,
}
use membridge.Codec.Unpack.{Tag, decode, check_bounds, parse_tag}
use membridge.Codec.Mixed.{next_fixed, next_str, next, read_group}
use membridge.Codec.RoundTrip.{
  tag_of, Readable, wire, decode-int, decode-float, decode-text, prefixed, length-text,
  length-wire_str, field-le, from_ne_bytes-field,
}

abbrev pub kind_of : Value → Tag
kind_of (bool b) = Tag.bool
kind_of (int z) = Tag.i64
kind_of (float w) = Tag.f64
kind_of _ = Tag.str

check_bounds-ok :
    (cursor needed total : ℕ)
    → cursor + needed ≤ total
    → total < 2 ^ 64
    → check_bounds cursor needed total ≡ ok tt
unfolding check_bounds
check_bounds-ok cursor needed total h small = ground arith

module _ (rt : Runtime) where
  abbrev pub wires : List Value → List ℕ
  wires [] = []
  wires (v ∷ vs) = wire rt v ++ wires vs

  -- Values that one tag reads.
  abbrev pub Uniform : Tag → List Value → Type 0
  Uniform t vs = All (λ v. Readable rt v × (kind_of v ≡ t)) vs

  pub wire-pos : (v : Value) → Readable rt v → 1 ≤ length (wire rt v)
  wire-pos (bool true) r = omega arith
  wire-pos (bool false) r = omega arith
  wire-pos (int z) r = omega (arith, length-to_ne_bytes rt.endian 8 (bits_of_i64 z))
  wire-pos (float w) r = omega (arith, length-to_ne_bytes rt.endian 8 w)
  wire-pos (str s) r = omega (arith, length-wire_str rt s)
  wire-pos ill_formed_str r = absurd r
  wire-pos (bytes b) r = absurd r
  wire-pos (bytearray b) r = absurd r
  wire-pos (other b i) r = absurd r

  pub length-le-wires : (t : Tag) (vs : List Value) → Uniform t vs → length vs ≤ length (wires vs)
  length-le-wires t [] u = omega arith
  length-le-wires t (v ∷ vs) ((r, k), u) =
      omega (arith, wire-pos v r, length-le-wires t vs u, length-append (wire rt v) (wires vs))

  pub parse_tag-tag_of : (v : Value) → Readable rt v → parse_tag (tag_of v) ≡ some (kind_of v)
  unfolding parse_tag
  parse_tag-tag_of (bool b) r = refl
  parse_tag-tag_of (int z) r = refl
  parse_tag-tag_of (float w) r = refl
  parse_tag-tag_of (str s) r = refl
  parse_tag-tag_of ill_formed_str r = absurd r
  parse_tag-tag_of (bytes b) r = absurd r
  parse_tag-tag_of (bytearray b) r = absurd r
  parse_tag-tag_of (other b i) r = absurd r

module _ (rt : Runtime) (d : DecodesText rt) where
  next_fixed-ok :
      (bs front mid : List ℕ) (t : Tag) (n : ℕ)
      → bs ≡ front ++ mid
      → n ≤ length mid
      → length bs < 2 ^ 64
      → next_fixed rt bs t n (length front) ≡ ok (decode rt t (take n mid), length front + n)
  unfolding next_fixed
  next_fixed-ok bs front mid t n e h small =
      let len : length bs ≡ length front + length mid = ap length e ∙ length-append front mid in
      rw (check_bounds-ok (length front) n (length bs) (omega arith) small) (
        ap₂ (λ v k. ok (v, k))
          (ap (λ xs. decode rt t (take n xs)) (rw e (drop-append (length front) front mid refl)))
          (mod-eq_of_lt (omega arith)))

  next_str-wire :
      (s : String) (bs front rest : List ℕ)
      → length (rt.as_bytes s) < 2 ^ 32
      → bs ≡ front ++ prefixed rt s rest
      → length bs < 2 ^ 64
      → next_str rt bs (length front) ≡ ok (str s, length front + length (wire rt (str s)))
  unfolding next_str
  next_str-wire s bs front rest short e small =
      rw
        (
          check_bounds-ok (length front) 4 (length bs) (omega (arith, total)) small,
          at_front,
          from_ne_bytes-field rt 4 (length (rt.as_bytes s)) (rt.as_bytes s ++ rest) short,
          cursor',
          check_bounds-ok (length front + 4) (length (rt.as_bytes s)) (length bs)
              (omega (arith, total)) small,
          behind_prefix,
          decode-text rt s rest d,
        )
        (ap (λ k. ok (str s, k))
          (mod-eq_of_lt (omega (arith, total)) ∙ omega (arith, length-wire_str rt s)))
    where
      total : length bs ≡ length front + (4 + length (rt.as_bytes s) + length rest)
      total =
          ap length e
          ∙ length-append front (prefixed rt s rest)
          ∙ ap (λ k. length front + k) (length-text rt s rest)

      at_front : drop (length front) bs ≡ prefixed rt s rest
      at_front = rw e (drop-length-append front (prefixed rt s rest))

      cursor' : add_usize (length front) 4 ≡ length front + 4
      cursor' = mod-eq_of_lt (omega (arith, total))

      behind_prefix : drop (length front + 4) bs ≡ drop 4 (prefixed rt s rest)
      behind_prefix = rw e (drop-length_add-append front (prefixed rt s rest) 4)

  next-wire :
      (v : Value) (bs front rest : List ℕ)
      → Readable rt v
      → bs ≡ front ++ (wire rt v ++ rest)
      → length bs < 2 ^ 64
      → next rt bs (kind_of v) (length front) ≡ ok (v, length front + length (wire rt v))
  unfolding next
  next-wire (bool true) bs front rest r e small =
      next_fixed-ok bs front (1 ∷ rest) Tag.bool 1 e (omega arith) small ∙ unfold decode in refl
  next-wire (bool false) bs front rest r e small =
      next_fixed-ok bs front (0 ∷ rest) Tag.bool 1 e (omega arith) small ∙ unfold decode in refl
  next-wire (int z) bs front rest r e small =
      next_fixed-ok bs front (wire rt (int z) ++ rest) Tag.i64 8 e
        (field-le rt 8 (bits_of_i64 z) rest) small
      ∙ rw (decode-int rt z rest r, length-to_ne_bytes)
  next-wire (float w) bs front rest r e small =
      next_fixed-ok bs front (wire rt (float w) ++ rest) Tag.f64 8 e (field-le rt 8 w rest) small
      ∙ rw (decode-float rt w rest r, length-to_ne_bytes)
  next-wire (str s) bs front rest r e small =
      next_str-wire s bs front rest r
        (e
          ∙ ap (λ m. front ++ m)
              (append_assoc (to_ne_bytes rt.endian 4 (length (rt.as_bytes s))) (rt.as_bytes s)
                rest))
        small
  next-wire ill_formed_str bs front rest r e small = absurd r
  next-wire (bytes b) bs front rest r e small = absurd r
  next-wire (bytearray b) bs front rest r e small = absurd r
  next-wire (other b i) bs front rest r e small = absurd r

  pub read_group-wires :
      (t : Tag) (vs group : List Value) (bs front rest : List ℕ)
      → Uniform rt t vs
      → bs ≡ front ++ (wires rt vs ++ rest)
      → length bs < 2 ^ 64
      → read_group rt bs t (length vs) group (length front)
        ≡ ok (group ++ vs, length front + length (wires rt vs))
  unfolding read_group
  read_group-wires t [] group bs front rest u e small =
      ap₂ (λ g k. ok (g, k)) (sym (append-nil group)) (omega arith)
  read_group-wires t (v ∷ vs) group bs front rest ((r, k), u) e small =
      rw (step, ← length-append front (wire rt v))
        (read_group-wires t vs (group ++ (v ∷ [])) bs (front ++ wire rt v) rest u e' small
          ∙ ap₂ (λ g k. ok (g, k)) (append_assoc group (v ∷ []) vs)
              (omega
                (arith, length-append front (wire rt v), length-append (wire rt v) (wires rt vs))))
    where
      e' : bs ≡ (front ++ wire rt v) ++ (wires rt vs ++ rest)
      e' = rw (append_assoc front (wire rt v), ← append_assoc (wire rt v) (wires rt vs) rest) e

      step : next rt bs t (length front) ≡ ok (v, length front + length (wire rt v))
      step = rw (← k) (
          next-wire v bs front (wires rt vs ++ rest) r
            (rw (← append_assoc (wire rt v) (wires rt vs) rest) e) small)
