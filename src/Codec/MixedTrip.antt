-- ===== src/Codec/MixedTrip.antt =====
-- A list that was packed is read back by the schema that describes it.
use membridge.Common.{
  ℕ, suc, ◌+◌, ◌^◌, ◌<◌, ◌≡◌, refl, sym, ap, ap₂, ◌∙◌, List, [], ◌∷◌, ◌++◌, map, arith, length, All,
  length-append, append_assoc, append-nil, ne→==, lt→ltb,
}
use membridge.Error.{ok, ◌>>=◌}
use membridge.Codec.Value.{Runtime, DecodesText, Value, int, str, pos, PyObject, value, list}
use membridge.Codec.Pack.{pack_values, pack_item, pack_items, pack_mixed}
use membridge.Codec.Unpack.{Tag}
use membridge.Codec.Mixed.{
  SchemaEntry, tuple, close_group, read_entry, read_schema, unpack_mixed_counted,
}
use membridge.Codec.Groups.{
  kind_of, wires, Uniform, read_group-wires, length-le-wires, parse_tag-tag_of,
}
use membridge.Codec.RoundTrip.{tag_of, Readable, wire, encode-wire}

-- The schema entry that describes an item, and what reading by it returns.
abbrev pub describe : PyObject → SchemaEntry
describe (value v) = tuple (str (tag_of v) ∷ int (pos 1) ∷ [])
describe (list []) = tuple (str "bool" ∷ int (pos 0) ∷ [])
describe (list (v ∷ vs)) = tuple (str (tag_of v) ∷ int (pos (suc (length vs))) ∷ [])

-- A list of one comes back as its element.
abbrev pub returned : PyObject → PyObject
returned (list (v ∷ [])) = value v
returned o = o

module _ (rt : Runtime) where
  abbrev pub item_wire : PyObject → List ℕ
  item_wire (value v) = wire rt v
  item_wire (list vs) = wires rt vs

  abbrev pub items_wire : List PyObject → List ℕ
  items_wire [] = []
  items_wire (o ∷ os) = item_wire o ++ items_wire os

  -- An item that a schema entry can describe: readable values, all of one kind in a list.
  abbrev pub Describable : PyObject → Type 0
  Describable (value v) = Readable rt v
  Describable (list []) = Unit
  Describable (list (v ∷ vs)) = Uniform rt (kind_of v) (v ∷ vs)

  pack_values-wires :
      (t : Tag) (vs : List Value) (out : List ℕ)
      → Uniform rt t vs
      → pack_values rt vs out ≡ ok (out ++ wires rt vs)
  unfolding pack_values
  pack_values-wires t [] out u = ap ok (sym (append-nil out))
  pack_values-wires t (v ∷ vs) out ((r, k), u) = rw (encode-wire rt v r) (
      pack_values-wires t vs (out ++ wire rt v) u
      ∙ ap ok (append_assoc out (wire rt v) (wires rt vs)))

  pack_item-wire :
      (o : PyObject) (out : List ℕ) → Describable o → pack_item rt o out ≡ ok (out ++ item_wire o)
  unfolding pack_item
  pack_item-wire (value v) out h = rw (encode-wire rt v h)
  pack_item-wire (list []) out h = ap ok (sym (append-nil out))
  pack_item-wire (list (v ∷ vs)) out h = pack_values-wires (kind_of v) (v ∷ vs) out h

  pack_items-wire :
      (os : List PyObject) (out : List ℕ)
      → All Describable os
      → pack_items rt os out ≡ ok (out ++ items_wire os)
  unfolding pack_items
  pack_items-wire [] out h = ap ok (sym (append-nil out))
  pack_items-wire (o ∷ os) out (h, hs) = rw (pack_item-wire o out h) (
      pack_items-wire os (out ++ item_wire o) hs
      ∙ ap ok (append_assoc out (item_wire o) (items_wire os)))

module _ (rt : Runtime) (d : DecodesText rt) (bs : List ℕ) (small : length bs < 2 ^ 64) where
  read_entry-tuple :
      (v : Value) (vs : List Value) (front rest : List ℕ)
      → Uniform rt (kind_of v) (v ∷ vs)
      → bs ≡ front ++ (wires rt (v ∷ vs) ++ rest)
      → read_entry rt bs (tuple (str (tag_of v) ∷ int (pos (suc (length vs))) ∷ [])) (length front)
        ≡ (close_group rt bs (suc (length vs)) (v ∷ vs) >>= λ o.
            ok (o, length front + length (wires rt (v ∷ vs))))
  unfolding read_entry
  read_entry-tuple v vs front rest u e = rw (
    lt→ltb (suc (length vs)) (2 ^ 64) few,
    parse_tag-tag_of rt v u.0.0,
    read_group-wires rt d (kind_of v) (v ∷ vs) [] bs front rest u e small,
  )
    where
      few : suc (length vs) < 2 ^ 64
      few = omega (
        arith,
        length-le-wires rt (kind_of v) (v ∷ vs) u,
        ap length e,
        length-append front (wires rt (v ∷ vs) ++ rest),
        length-append (wires rt (v ∷ vs)) rest,
      )

  read_entry-describe :
      (o : PyObject) (front rest : List ℕ)
      → Describable rt o
      → bs ≡ front ++ (item_wire rt o ++ rest)
      → read_entry rt bs (describe o) (length front)
        ≡ ok (returned o, length front + length (item_wire rt o))
  unfolding close_group
  read_entry-describe (value v) front rest h e =
      read_entry-tuple v [] front rest ((h, refl), tt) (rw (append-nil (wire rt v)) e)
      ∙ ap (λ xs. ok (value v, length front + length xs)) (append-nil (wire rt v))
  read_entry-describe (list []) front rest h e =
      unfold read_entry in ap (λ k. ok (list [], k)) no_bytes
    where
      no_bytes : length front ≡ length front + 0
      no_bytes = omega arith
  read_entry-describe (list (v ∷ [])) front rest h e = read_entry-tuple v [] front rest h e
  read_entry-describe (list (v ∷ (w ∷ vs))) front rest h e =
      read_entry-tuple v (w ∷ vs) front rest h e
      ∙ rw (ne→== (suc (suc (length vs))) 1 (omega arith))

  read_schema-describe :
      (os result : List PyObject) (front rest : List ℕ)
      → All (Describable rt) os
      → bs ≡ front ++ (items_wire rt os ++ rest)
      → read_schema rt bs (map describe os) result (length front)
        ≡ ok (result ++ map returned os, length front + length (items_wire rt os))
  unfolding read_schema
  read_schema-describe [] result front rest h e =
      ap₂ (λ r k. ok (r, k)) (sym (append-nil result)) (omega arith)
  read_schema-describe (o ∷ os) result front rest (h, hs) e =
      rw
        (
          read_entry-describe o front (items_wire rt os ++ rest) h here,
          ← length-append front (item_wire rt o),
        )
        (read_schema-describe os (result ++ (returned o ∷ [])) (front ++ item_wire rt o) rest hs
            there
          ∙ ap₂ (λ r k. ok (r, k)) (append_assoc result (returned o ∷ []) (map returned os))
              (omega (
                arith,
                length-append front (item_wire rt o),
                length-append (item_wire rt o) (items_wire rt os),
              )))
    where
      here : bs ≡ front ++ (item_wire rt o ++ (items_wire rt os ++ rest))
      here = rw (← append_assoc (item_wire rt o) (items_wire rt os) rest) e

      there : bs ≡ (front ++ item_wire rt o) ++ (items_wire rt os ++ rest)
      there = rw (append_assoc front (item_wire rt o)) here

-- A list of items that `pack_mixed` packed is read back by `unpack_mixed_counted` under the schema
-- that describes it, whatever follows in a buffer below 2 ^ 64 bytes: the items come back in order,
-- a list of one as its element, and exactly the packed bytes are consumed. The items are describable,
-- and the runtime decodes the text that it encoded.
pub unpack_mixed_counted-pack_mixed :
    (rt : Runtime) (os : List PyObject) (packed rest : List ℕ)
    → DecodesText rt
    → All (Describable rt) os
    → length (packed ++ rest) < 2 ^ 64
    → pack_mixed rt os ≡ ok packed
    → unpack_mixed_counted rt (packed ++ rest) (map describe os)
      ≡ ok (map returned os, length packed)
unfolding pack_mixed unpack_mixed_counted
unpack_mixed_counted-pack_mixed rt os packed rest d h small e =
    read_schema-describe rt d (packed ++ rest) small os [] [] rest h
      (ap (λ xs. xs ++ rest) (sym same))
    ∙ ap (λ k. ok (map returned os, k)) (omega (arith, ap length same))
  where
    same : items_wire rt os ≡ packed
    same = cc (pack_items-wire rt os [] h)
