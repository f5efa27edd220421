-- ===== src/Build.antt =====
-- Building a static trie from the dynamic tree, `buildStatic` of hybrid_index/masstree_get.hh with
-- `buildStaticMultivalue` and `buildStaticDynamicvalue`.
-- Of the dynamic tree, a library's, the code reads the leaves of a layer from `leftmost` on by
-- `safe_next`, and of a leaf its permutation and its arrays, which are one list of slots here.
pub mod Convert
pub mod Rounds
pub mod Queue
pub mod Holds
pub mod Whole
pub mod Trees
pub mod Find
pub mod Tables
pub mod Gather
pub mod Quick
pub mod Runs
pub mod Short
mod Examples
use microbench.Common.{
  ℕ, zero, suc, ◌+◌, ◌%◌, Bool, true, false, List, [], ◌∷◌, ◌++◌, length, take, get_elem?, none,
  some, leb, ◌==◌, if◌then◌else◌,
}
use microbench.Common.Run.{Run, ok, fault, ◌>>=◌}
use microbench.Massnode.{
  LeafValue, value, layer, Slot, Massnode, keylenx_is_layer, keylenx_has_ksuf,
}
use microbench.Merge.Tries.{run_node}
use microbench.Trie.{Trie}

-- A leaf of the dynamic tree, with rows `R`.
pub record Leaf (R L : Type 0) : Type 0 where
  pub permutation : List ℕ
  pub slots : List (Slot R L)

-- A dynamic tree of at most `d` layers: the leaves of its first layer in order.
abbrev pub Tree : Type 0 → ℕ → Type 0
Tree R zero = ⊥
Tree R (suc d) = List (Leaf R (Tree R d))

module _ {R L : Type 0} where
  -- A slot as it is pushed to the lists: one without a suffix has the empty `Str()`.
  abbrev pub extract : Slot R L → Slot R L
  extract e = record e { ksuf = if keylenx_has_ksuf e.ikeylen then e.ksuf else [] }

  unfoldable pub read_slots : List (Slot R L) → List ℕ → Run (List (Slot R L))
  read_slots slots [] = ok []
  read_slots slots (kp ∷ perm) = elim (get_elem? slots kp) [
    | none ↦ fault
    | some e ↦ read_slots slots perm >>= λ rest. ok (extract e ∷ rest)
  ]

  -- The loop from `nextLeafNode`.
  unfoldable pub read_layer : List (Leaf R L) → Run (List (Slot R L))
  read_layer [] = ok []
  read_layer (n ∷ leaves) =
      read_slots n.slots n.permutation >>= λ es. read_layer leaves >>= λ rest. ok (es ++ rest)

  -- What is pushed to `trienode_list`.
  unfoldable pub layers_of : List (Slot R L) → List (LeafValue R L)
  layers_of [] = []
  layers_of (e ∷ es) = if keylenx_is_layer e.ikeylen then e.lv ∷ layers_of es else layers_of es

  abbrev pub layer_lv : LeafValue R L → Run L
  layer_lv lv = elim lv [ value r ↦ fault | layer c ↦ ok c ]

-- `leafvalue_static(nv)` copies eight bytes from `nv`.
unfoldable pub leafvalue_static : List ℕ → Run (List ℕ)
leafvalue_static nv = if leb 8 (length nv) then ok (take 8 nv) else fault

-- `massID` is an `unsigned int`.
abbrev pub next_id : ℕ → ℕ
next_id mass = (mass + 1) % 4294967296

-- A layer that waits for its turn, of a trie with fewer layers than the root.
abbrev pub TrieNode : Type 0 → Type 0
TrieNode R = (d : ℕ) × LeafValue R (Tree R d)

abbrev pub at_depth : {R : Type 0} (d : ℕ) → List (LeafValue R (Tree R d)) → List (TrieNode R)
at_depth d [] = []
at_depth d (lv ∷ lvs) = (d, lv) ∷ at_depth d lvs

-- The slot of a new node, with or without suffix arrays.
abbrev pub new_slot : {R L V M : Type 0} → Bool → Slot R L → LeafValue V M → Slot V M
new_slot has_ksuf e lv = record {
  ikeylen = e.ikeylen;
  ikey = e.ikey;
  lv = lv;
  ksuf = if has_ksuf then e.ksuf else [];
}

-- `static_value` makes a static value of a row; `has_ksuf` and `fits`, whether the made node has
-- suffix arrays and room for so many slots.
module _ {R V : Type 0} (static_value : R → Run V) (has_ksuf : Bool) (fits : ℕ → Bool) where
  -- The slots of a new node, and the next number of a node. A slot with a layer has the number of the
  -- layer's node.
  unfoldable pub number_slots : {L : Type 0} → ℕ → List (Slot R L) → Run (ℕ × List (Slot V ℕ))
  number_slots mass [] = ok (mass, [])
  number_slots mass (e ∷ es) =
      let below : Run (ℕ × List (Slot V ℕ)) =
        number_slots (next_id mass) es >>= λ r. ok (r.0, new_slot has_ksuf e (layer mass) ∷ r.1) in
      let here : Run (ℕ × List (Slot V ℕ)) = elim e.lv [
        | layer c ↦ fault
        | value row ↦ static_value row >>= λ v.
            number_slots mass es >>= λ r. ok (r.0, new_slot has_ksuf e (value v) ∷ r.1)
      ] in
      if keylenx_is_layer e.ikeylen then below else here

  -- The loop from `nextTrieNode`, with the root as the first layer in the queue.
  unfoldable pub trie_nodes :
      ℕ → ℕ → List (Massnode V ℕ) → List (TrieNode R) → Run (List (Massnode V ℕ))
  trie_nodes fuel mass nodes [] = ok nodes
  trie_nodes zero mass nodes (p ∷ queue) = fault
  trie_nodes (suc fuel) mass nodes ((zero, lv) ∷ queue) = fault
  trie_nodes (suc fuel) mass nodes ((suc d, lv) ∷ queue) = layer_lv lv >>= λ root.
      read_layer root >>= λ es. (if fits (length es) then number_slots mass es else fault) >>= λ r.
      trie_nodes fuel r.0 (nodes ++ record { has_ksuf = has_ksuf; slots = r.1 } ∷ [])
        (queue ++ at_depth d (layers_of es))

-- The last loop, which puts the nodes in the place of their numbers, read as the trie of at most `d`
-- layers below a node.
unfoldable pub link : {V : Type 0} (d : ℕ) → List (Massnode V ℕ) → ℕ → Run (Trie V d)
link zero nodes i = fault
link (suc d) nodes i = elim (get_elem? nodes i) [
  | none ↦ fault
  | some n ↦ run_node (link d nodes) n
]

-- The nodes of the layers, and the trie at the first of them.
unfoldable pub build :
    {R V : Type 0} → (R → Run V) → Bool → (ℕ → Bool) → ℕ → (d : ℕ) → Tree R d → Run (Trie V d)
build static_value has_ksuf fits fuel d t =
    trie_nodes static_value has_ksuf fits fuel 1 [] ((d, layer t) ∷ []) >>= λ nodes. link d nodes 0

abbrev pub build_static : ℕ → (d : ℕ) → Tree (List ℕ) d → Run (Trie (List ℕ) d)
build_static = build leafvalue_static true (λ n. true)

-- A value is the bytes of the row's column.
abbrev pub build_static_multivalue : ℕ → (d : ℕ) → Tree (List ℕ) d → Run (Trie (List ℕ) d)
build_static_multivalue = build (λ row. ok row) true (λ n. true)

-- A value is the row itself.
abbrev pub build_static_dynamicvalue : (R : Type 0) → ℕ → (d : ℕ) → Tree R d → Run (Trie R d)
build_static_dynamicvalue R = build (λ row. ok row) true (λ n. true)
