-- ===== src/Build/Quick.antt =====
-- `buildStatic_quick` of hybrid_index/masstree_get.hh, which makes every node for `nkeys` slots and
-- writes them in place, without suffix arrays.
use microbench.Common.{
  ℕ, zero, suc, ◌+◌, List, [], ◌∷◌, ◌++◌, false, length, Option, none, some, get_elem?, set, ltb,
  replicate, if◌then◌else◌,
}
use microbench.Common.Run.{Run, ok, fault, ◌>>=◌}
use microbench.Massnode.{LeafValue, value, layer, Slot, Massnode, keylenx_is_layer}
use microbench.Trie.{Trie}
use microbench.Build.{Leaf, Tree, TrieNode, at_depth, layer_lv, leafvalue_static, next_id, link}

-- The slots of a node that `massnode::make` gives, none where nothing is written yet.
abbrev pub NewNode : Type 0
NewNode = List (Option (Slot (List ℕ) ℕ))

-- The variables of the loops: `massID`, `cur_pos`, `newNode`, and what the layer adds to
-- `trienode_list`.
pub record Progress (L : Type 0) : Type 0 where
  pub mass_id : ℕ
  pub cur_pos : ℕ
  pub new_node : NewNode
  pub pushed : List (LeafValue (List ℕ) L)

module _ {L : Type 0} where
  -- A write behind the node is a fault.
  abbrev pub write_slot : Slot (List ℕ) ℕ → Progress L → Run (Progress L)
  write_slot e s =
      if ltb s.cur_pos (length s.new_node)
      then ok (record s { new_node = set s.new_node s.cur_pos (some e); cur_pos = s.cur_pos + 1 })
      else fault

  -- The body of the loop, for the slot at `kp`.
  unfoldable pub quick_slot : Slot (List ℕ) L → Progress L → Run (Progress L)
  quick_slot e s =
      if keylenx_is_layer e.ikeylen
      then write_slot record { ikeylen = e.ikeylen; ikey = e.ikey; lv = layer s.mass_id; ksuf = [] }
          (record s { mass_id = next_id s.mass_id; pushed = s.pushed ++ e.lv ∷ [] })
      else elim e.lv [
        | layer c ↦ fault
        | value row ↦ leafvalue_static row >>= λ v.
            write_slot record { ikeylen = e.ikeylen; ikey = e.ikey; lv = value v; ksuf = [] } s
      ]

  unfoldable pub quick_slots : List (Slot (List ℕ) L) → List ℕ → Progress L → Run (Progress L)
  quick_slots slots [] s = ok s
  quick_slots slots (kp ∷ perm) s = elim (get_elem? slots kp) [
    | none ↦ fault
    | some e ↦ quick_slot e s >>= quick_slots slots perm
  ]

  -- The loop from `nextLeafNode`.
  unfoldable pub quick_leaves : List (Leaf (List ℕ) L) → Progress L → Run (Progress L)
  quick_leaves [] s = ok s
  quick_leaves (n ∷ leaves) s = quick_slots n.slots n.permutation s >>= quick_leaves leaves

-- The loop from `nextTrieNode`, with the root as the first layer in the queue.
unfoldable pub quick_nodes :
    ℕ → ℕ → ℕ → List NewNode → List (TrieNode (List ℕ)) → Run (List NewNode)
quick_nodes nkeys fuel mass nodes [] = ok nodes
quick_nodes nkeys zero mass nodes (p ∷ queue) = fault
quick_nodes nkeys (suc fuel) mass nodes ((zero, lv) ∷ queue) = fault
quick_nodes nkeys (suc fuel) mass nodes ((suc d, lv) ∷ queue) = layer_lv lv >>= λ root.
    quick_leaves root
      record { mass_id = mass; cur_pos = 0; new_node = replicate nkeys none; pushed = [] }
    >>= λ s.
        quick_nodes nkeys fuel s.mass_id (nodes ++ s.new_node ∷ []) (queue ++ at_depth d s.pushed)

-- The last loop reads all `nkeys` slots of every node, set or not.
unfoldable pub written : NewNode → Run (List (Slot (List ℕ) ℕ))
written [] = ok []
written (none ∷ cells) = fault
written (some e ∷ cells) = written cells >>= λ es. ok (e ∷ es)

unfoldable pub written_nodes : List NewNode → Run (List (Massnode (List ℕ) ℕ))
written_nodes [] = ok []
written_nodes (n ∷ nodes) = written n >>= λ es.
    written_nodes nodes >>= λ rest. ok (record { has_ksuf = false; slots = es } ∷ rest)

unfoldable pub build_static_quick : ℕ → ℕ → (d : ℕ) → Tree (List ℕ) d → Run (Trie (List ℕ) d)
build_static_quick nkeys fuel d t = quick_nodes nkeys fuel 1 [] ((d, layer t) ∷ []) >>= λ nodes.
    written_nodes nodes >>= λ made. link d made 0
