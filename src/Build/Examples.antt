-- ===== src/Build/Examples.antt =====
-- Runs of `buildStatic` and `merge_uv`, and the theorems at them.
use microbench.Common.{
  ℕ, ◌≡◌, ◌≢◌, ◌⊎◌, length, List, [], ◌∷◌, replicate, some, none, true, false, arith, refl, inl,
  sym, ◌∙◌,
}
use microbench.Common.Run.{ok, fault, Returns}
use microbench.Massnode.{value, layer, Slot}
use microbench.Merge.Holds.{IsTrie}
use microbench.Key.{make_comparable}
use microbench.Merge.{
  merge_nodes, merge_slots, add_item_to_node, add_slots, meet, entry_order, next_item,
  convert_to_ikeylen, ready_lv,
}
use microbench.Merge.Tries.{run_node, run_slots, run_lv, strays}
use microbench.Merge.Tries.Steady.{AreSteady, IsSteady, of_result}
use microbench.Trie.{Trie}
use microbench.Build.{
  Tree, read_slots, read_layer, layers_of, leafvalue_static, number_slots, trie_nodes, link, build,
  build_static,
}
use microbench.Build.Convert.{to_trie, static_slots, static_lv, tree_nodes, all_nodes, lv_nodes}
use microbench.Build.Gather.{IsSteadyMerge, Gathers, merge_tables-Gathers}
use microbench.Build.Holds.{IsTree}
use microbench.Build.Queue.{build-to_trie}
use microbench.Build.Quick.{
  build_static_quick, quick_nodes, quick_leaves, quick_slots, quick_slot, written, written_nodes,
}
use microbench.Build.Short.{quick-static}
use microbench.Build.Tables.{Table, merge_tables}
use microbench.Build.Trees.{Built, build-Built}

program : Unit {0}
unfolding build trie_nodes link number_slots read_layer read_slots layers_of leafvalue_static
    run_node run_slots run_lv to_trie static_slots static_lv tree_nodes all_nodes lv_nodes
program = tt

abbrev row : ℕ → List ℕ
row n = replicate 8 n

abbrev entry : {L : Type 0} → ℕ → ℕ → ℕ → List ℕ → Slot (List ℕ) L
entry len i n s = record { ikeylen = len; ikey = i; lv = value (row n); ksuf = s }

-- "longkey8A" is 20 and "longkey8BB" is 21: the layer below "longkey8".
abbrev lower : Tree (List ℕ) 1
lower =
    record {
      permutation = 1 ∷ 0 ∷ [];
      slots = entry 2 0x4242000000000000 21 [] ∷ entry 1 0x4100000000000000 20 (9 ∷ []) ∷ [];
    }
    ∷ []

-- Two leaves: "longkey8" with its layer, and "z", "zlongkey9" with a suffix; slot 0 of the second leaf
-- is not in the permutation.
abbrev upper : Tree (List ℕ) 2
upper =
    record {
      permutation = 0 ∷ [];
      slots = record { ikeylen = 73; ikey = 0x6c6f6e676b657938; lv = layer lower; ksuf = [] } ∷ [];
    }
    ∷ record {
      permutation = 2 ∷ 1 ∷ [];
      slots =
          entry 1 0x6100000000000000 5 []
          ∷ entry 9 0x7a6c6f6e676b6579 31 (0x39 ∷ [])
          ∷ entry 1 0x7a00000000000000 30 []
          ∷ [];
    }
    ∷ []

abbrev lower_trie : Trie (List ℕ) 1
lower_trie = record {
  has_ksuf = true;
  slots = entry 1 0x4100000000000000 20 [] ∷ entry 2 0x4242000000000000 21 [] ∷ [];
}

abbrev upper_trie : Trie (List ℕ) 2
upper_trie = record {
  has_ksuf = true;
  slots =
      record { ikeylen = 73; ikey = 0x6c6f6e676b657938; lv = layer lower_trie; ksuf = [] }
      ∷ entry 1 0x7a00000000000000 30 []
      ∷ entry 9 0x7a6c6f6e676b6579 31 (0x39 ∷ [])
      ∷ [];
}

build_upper : build_static 2 2 upper ≡ ok upper_trie
unfolding program
build_upper = refl

-- With one round too few the code would still have a layer in its queue.
build_short : build_static 1 2 upper ≡ fault
unfolding program
build_short = refl

abbrev lower_entries : List (Slot (List ℕ) (Tree (List ℕ) 0))
lower_entries = entry 1 0x4100000000000000 20 [] ∷ entry 2 0x4242000000000000 21 [] ∷ []

lower-IsTree : IsTree leafvalue_static 1 lower
unfolding program
lower-IsTree = (
  lower_entries,
  refl,
  (omega arith, omega arith),
  ground arith,
  ((row 20, refl), ((row 21, refl), tt)),
)

upper-IsTree : IsTree leafvalue_static 2 upper
unfolding program
upper-IsTree = (
  record { ikeylen = 73; ikey = 0x6c6f6e676b657938; lv = layer lower; ksuf = [] }
      ∷ entry 1 0x7a00000000000000 30 []
      ∷ entry 9 0x7a6c6f6e676b6579 31 (0x39 ∷ [])
      ∷ [],
  refl,
  (omega arith, omega arith),
  (((inl refl, refl, lower-IsTree), ground arith), ground arith),
  (tt, ((row 30, refl), ((row 31, refl), tt))),
)

upper_nodes : tree_nodes (List ℕ) 2 upper ≡ 2
unfolding program
upper_nodes = refl

build-to_trie_example : build_static 2 2 upper ≡ ok upper_trie
build-to_trie_example =
    build-to_trie leafvalue_static true (λ n. true) 2 2 upper upper_trie (unfold program in refl)
      (omega (arith, upper_nodes)) (omega (arith, upper_nodes))

build-Built_example : Returns (build_static 2 2 upper) (Built leafvalue_static 2 upper)
build-Built_example =
    build-Built leafvalue_static 2 2 upper upper-IsTree (omega (arith, upper_nodes))
      (omega (arith, upper_nodes))

-- The static table has "longkey8CC".
abbrev old : Table 2
old = record {
  root = [];
  static_root =
      some
        (record { has_ksuf = true; slots = entry 9 0x6c6f6e676b657938 22 (0x43 ∷ 0x43 ∷ []) ∷ [] });
}

abbrev new : Table 2
new = record { root = upper; static_root = none }

-- "longkey8CC" makes the layer of "longkey8" longer.
steady : (b : Trie (List ℕ) 2) → build_static 2 2 upper ≡ ok b → IsSteadyMerge 2 b old.static_root
unfolding program merge_nodes merge_slots add_item_to_node add_slots meet entry_order next_item
    convert_to_ikeylen ready_lv make_comparable strays
steady b run =
    of_result (λ b. IsSteadyMerge 2 b old.static_root) (sym build-to_trie_example ∙ run)
      (λ r merged.
        of_result (λ r. AreSteady (IsSteady (List ℕ) 1) r.slots) merged
          (
            λ s added.
                of_result
                  (λ s. (strays lower_trie s ≡ false) × AreSteady (IsSteady (List ℕ) 0) s.slots)
                  added (refl, (tt, (tt, (tt, tt)))),
            (tt, (tt, tt)),
          ))

merge_tables-Gathers_example : Returns (merge_tables 16 4 2 old new) (Gathers 2 old new)
merge_tables-Gathers_example =
    merge_tables-Gathers 2 16 4 2 old new (omega arith) upper-IsTree old-IsTrie
      (omega (arith, upper_nodes)) (omega (arith, upper_nodes)) steady
  where
    old-IsTrie :
        IsTrie (List ℕ) 2 (record {
          has_ksuf = true;
          slots = entry 9 0x6c6f6e676b657938 22 (0x43 ∷ 0x43 ∷ []) ∷ [];
        })
    old-IsTrie = (refl, omega arith, ground arith)

-- The node for two slots has both keys; one for three has a slot that is never set.
quick_two :
    (build_static_quick 2 1 1 lower
      ≡ ok record {
        has_ksuf = false;
        slots = entry 1 0x4100000000000000 20 [] ∷ entry 2 0x4242000000000000 21 [] ∷ [];
      })
    × (build_static_quick 3 1 1 lower ≡ fault)
unfolding program build_static_quick quick_nodes quick_leaves quick_slots quick_slot written
    written_nodes
quick_two = (refl, refl)

quick-static_example :
    ((length lower_entries ≡ 2)
      × (out : Trie (List ℕ) 1) × (build_static 1 1 lower ≡ ok out)
      × (build_static_quick 2 1 1 lower ≡ ok (record out { has_ksuf = false })))
    ⊎ ((length lower_entries ≢ 2) × (build_static_quick 2 1 1 lower ≡ fault))
quick-static_example = quick-static 0 0 2 lower lower_entries (unfold program in refl) (
  (omega arith, refl, row 20, refl, omega arith),
  ((omega arith, refl, row 21, refl, omega arith), tt),
)
