-- ===== src/Merge.antt =====
-- Merging a static trie into another, `stcursor_merge` of hybrid_index/masstree_get.hh.
-- The code keeps a queue of tasks, each with the slot of the parent node that it is to fill. Here a
-- task stands in that slot until it is done. `resize` may move a node: that a pending task then
-- points to the right parent is left out.
pub mod Holds
pub mod Keys
pub mod Below
pub mod Values
pub mod Meet
pub mod Slots
pub mod Union
pub mod Keep
pub mod Layers
pub mod Entries
pub mod Node
pub mod Nodes
pub mod Whole
pub mod Find
pub mod Losses
mod Examples
pub mod Tries
pub mod Arrays
pub mod InPlace
use microbench.Common.{
  ℕ, zero, suc, ◌+◌, ◌-◌, ◌%◌, Bool, true, false, ◌&&◌, Ordering, compare, List, [], ◌∷◌, ◌++◌, map,
  none, some, length, drop, get_elem?, ◌==◌, ltb, if◌then◌else◌,
}
use microbench.Common.Run.{Run, ok, fault, ◌>>=◌}
use microbench.Key.{make_comparable, ikey_size}
use microbench.Massnode.{LeafValue, value, layer, Slot, Massnode, nkeys, keylenx_is_layer}

abbrev pub keylenx_ikeylen : ℕ → ℕ
keylenx_ikeylen keylenx = keylenx % 32

unfoldable pub convert_to_ikeylen : ℕ → ℕ
convert_to_ikeylen len = if ltb 8 len then 9 else len

-- `strncmp` of two strings is zero. Its third argument is the length of both.
unfoldable pub strncmp_zero : List ℕ → List ℕ → Bool
strncmp_zero [] t = true
strncmp_zero (a ∷ s) [] = true
strncmp_zero (a ∷ s) (b ∷ t) =
    let rest = strncmp_zero s t in if a == b then (if a == 0 then true else rest) else false

-- An entry on its way into another layer.
pub record Item {ℓ} (V : Type ℓ) : Type ℓ where
  pub ikeylen : ℕ
  pub ikey : ℕ
  pub content : V
  pub ksuf : List ℕ

-- What a slot's layer is to become, `merge_task`: a layer that stays, two layers to merge, an entry
-- to add to a layer, or a new layer of two entries.
pub data Pending {ℓ} (V L : Type ℓ) : Type ℓ where
  ready : L → Pending V L
  merge_task : L → L → Pending V L
  add_task : Item V → L → Pending V L
  create_task : Item V → Item V → Pending V L

-- The order of two entries by slice and length.
unfoldable pub entry_order : ℕ → ℕ → ℕ → ℕ → Ordering
entry_order i x j y = elim (compare i j) [
  | Ordering.lt ↦ Ordering.lt
  | Ordering.gt ↦ Ordering.gt
  | Ordering.eq ↦ compare x y
]

-- The entry with the given suffix as its key.
unfoldable pub next_item {ℓ} : {V : Type ℓ} → V → List ℕ → Item V
next_item v s = record {
  ikeylen = convert_to_ikeylen (length s);
  ikey = make_comparable ikey_size s;
  content = v;
  ksuf = drop ikey_size s;
}

module _ {ℓ} {V L : Type ℓ} where
  abbrev pub item_slot : Item V → Slot V L
  item_slot i = record { ikeylen = i.ikeylen; ikey = i.ikey; lv = value i.content; ksuf = i.ksuf }

  unfoldable pub ready_lv : LeafValue V L → LeafValue V (Pending V L)
  ready_lv (value v) = value v
  ready_lv (layer c) = layer (ready c)

  -- An entry that is copied.
  abbrev pub ready_slot : Slot V L → Slot V (Pending V L)
  ready_slot e = record { ikeylen = e.ikeylen; ikey = e.ikey; lv = ready_lv e.lv; ksuf = e.ksuf }

  -- A slot that waits for its layer.
  abbrev pub task_slot : ℕ → ℕ → Pending V L → Slot V (Pending V L)
  task_slot keylenx i p = record { ikeylen = keylenx; ikey = i; lv = layer p; ksuf = [] }

  abbrev pub content_of : Slot V L → Run V
  content_of e = elim e.lv [ value v ↦ ok v | layer c ↦ fault ]

  abbrev pub layer_of : Slot V L → Run L
  layer_of e = elim e.lv [ value v ↦ fault | layer c ↦ ok c ]

  -- Two entries of one slice and length, neither of them a layer.
  unfoldable pub meet_values : Slot V L → Slot V L → Run (Slot V (Pending V L))
  meet_values m n =
      if (length m.ksuf == 0) && (length n.ksuf == 0)
      then ok (ready_slot m)
      else if (length m.ksuf == length n.ksuf) && strncmp_zero m.ksuf n.ksuf
      then ok (ready_slot m)
      else content_of m >>= λ v. content_of n >>= λ w. ok (
          task_slot ((n.ikeylen + 64) % 256) n.ikey
            (create_task (next_item v m.ksuf) (next_item w n.ksuf)))

  -- Two entries of one slice and length.
  unfoldable pub meet : Slot V L → Slot V L → Run (Slot V (Pending V L))
  meet m n =
      if keylenx_is_layer n.ikeylen
      then (if keylenx_is_layer m.ikeylen
          then (layer_of m >>= λ a.
              layer_of n >>= λ b. ok (task_slot n.ikeylen n.ikey (merge_task a b)))
          else (content_of m >>= λ v. layer_of n >>= λ b.
              ok (task_slot n.ikeylen n.ikey (add_task (next_item v m.ksuf) b))))
      else if keylenx_is_layer m.ikeylen
      then (content_of n >>= λ w.
          layer_of m >>= λ a. ok (task_slot m.ikeylen m.ikey (add_task (next_item w n.ksuf) a)))
      else meet_values m n

  abbrev pub push :
      Slot V (Pending V L) → List (Slot V (Pending V L)) → Run (List (Slot V (Pending V L)))
  push e l = ok (e ∷ l)

  -- The loops for what is left of one list.
  abbrev pub copy_slots : List (Slot V L) → List (Slot V (Pending V L))
  copy_slots slots = map ready_slot slots

  -- The loops of `merge_nodes`. Without suffix arrays the code for equal slices and lengths reads
  -- behind the node. Each round goes on in one of the lists.
  unfoldable pub merge_slots :
      ℕ → Bool → List (Slot V L) → List (Slot V L) → Run (List (Slot V (Pending V L)))
  merge_slots fuel has_ksuf [] ns = ok (copy_slots ns)
  merge_slots fuel has_ksuf (m ∷ ms) [] = ok (copy_slots (m ∷ ms))
  merge_slots zero has_ksuf (m ∷ ms) (n ∷ ns) = fault
  merge_slots (suc fuel) has_ksuf (m ∷ ms) (n ∷ ns) = elim (n.ikeylen == 0) [
    | true ↦ merge_slots fuel has_ksuf (m ∷ ms) ns
    | false ↦
        elim (entry_order m.ikey (keylenx_ikeylen m.ikeylen) n.ikey (keylenx_ikeylen n.ikeylen)) [
          | Ordering.lt ↦ merge_slots fuel has_ksuf ms (n ∷ ns) >>= push (ready_slot m)
          | Ordering.gt ↦ merge_slots fuel has_ksuf (m ∷ ms) ns >>= push (ready_slot n)
          | Ordering.eq ↦ (if has_ksuf then meet m n else fault) >>= λ e.
              merge_slots fuel has_ksuf ms ns >>= push e
        ]
  ]

  -- `merge_nodes`: if the last slice of `n` is below the first of `m`, the arrays are joined. Nodes
  -- of which one has suffix arrays and the other none are read behind their end.
  unfoldable pub merge_nodes : Massnode V L → Massnode V L → Run (Massnode V (Pending V L))
  merge_nodes m n =
      let joined : Massnode V (Pending V L) = record {
        has_ksuf = n.has_ksuf;
        slots = copy_slots (n.slots ++ m.slots);
      } in
      let merged : Run (Massnode V (Pending V L)) =
        merge_slots (nkeys m + nkeys n) n.has_ksuf m.slots n.slots >>= λ slots.
        ok (record { has_ksuf = n.has_ksuf; slots = slots }) in
      if (if m.has_ksuf then n.has_ksuf else (if n.has_ksuf then false else true))
      then elim (get_elem? n.slots (nkeys n - 1)) [
        | none ↦ fault
        | some l ↦ elim (get_elem? m.slots 0) [
          | none ↦ fault
          | some f ↦ if ltb l.ikey f.ikey then ok joined else merged
        ]
      ]
      else fault

  -- The loops of `add_item_to_node`.
  unfoldable pub add_slots : Item V → List (Slot V L) → Run (List (Slot V (Pending V L)))
  add_slots i [] = ok (ready_slot (item_slot i) ∷ [])
  add_slots i (n ∷ ns) = elim (n.ikeylen == 0) [
    | true ↦ add_slots i ns
    | false ↦
        elim (entry_order i.ikey (keylenx_ikeylen i.ikeylen) n.ikey (keylenx_ikeylen n.ikeylen)) [
          | Ordering.lt ↦ ok (ready_slot (item_slot i) ∷ copy_slots (n ∷ ns))
          | Ordering.gt ↦ add_slots i ns >>= push (ready_slot n)
          | Ordering.eq ↦ meet (item_slot i) n >>= λ e. ok (e ∷ copy_slots ns)
        ]
  ]

  unfoldable pub add_item_to_node : Item V → Massnode V L → Run (Massnode V (Pending V L))
  add_item_to_node i n =
      if n.has_ksuf
      then (add_slots i n.slots >>= λ slots. ok (record { has_ksuf = true; slots = slots }))
      else fault

  -- `create_node`: a slot for a further layer, or both entries in order.
  unfoldable pub create_node : Item V → Item V → Massnode V (Pending V L)
  create_node i j = record {
    has_ksuf = true;
    slots =
        if (i.ikey == j.ikey) && (i.ikeylen == j.ikeylen)
        then task_slot ((j.ikeylen + 64) % 256) j.ikey
            (create_task (next_item i.content i.ksuf) (next_item j.content j.ksuf))
          ∷ []
        else elim (entry_order i.ikey i.ikeylen j.ikey j.ikeylen) [
          | Ordering.lt ↦ ready_slot (item_slot i) ∷ ready_slot (item_slot j) ∷ []
          | Ordering.eq ↦ ready_slot (item_slot j) ∷ ready_slot (item_slot i) ∷ []
          | Ordering.gt ↦ ready_slot (item_slot j) ∷ ready_slot (item_slot i) ∷ []
        ];
  }
