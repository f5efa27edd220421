-- ===== src/Merge/Examples.antt =====
-- A merge of two tries whose entries of one slice come to share a layer, and the theorems at it.
use microbench.Common.{ℕ, ◌≡◌, [], ◌∷◌, some, none, true, false, arith, refl, Option}
use microbench.Common.Run.{Run, ok, Returns, fault, ◌>>=◌}
use microbench.Key.{Key, ikey, make_comparable, key_compare}
use microbench.Massnode.{value, layer, Slot, ksuf_equals}
use microbench.Massnode.Search.{search}
use microbench.Massnode.Order.{lower_bound_binary}
use microbench.Merge.{
  merge_task, Item, ready_slot, strncmp_zero, convert_to_ikeylen, entry_order, next_item, ready_lv,
  meet, meet_values, merge_slots, merge_nodes, add_slots, add_item_to_node, create_node,
}
use microbench.Merge.Arrays.{merge_arrays}
use microbench.Merge.InPlace.{set_cells, merge_arrays-merge_slots}
use microbench.Merge.Losses.{meet-nul}
use microbench.Merge.Find.{Finds, merge-Finds}
use microbench.Merge.Holds.{IsTrie}
use microbench.Merge.Tries.{strays, set_last_parent, merge, run_task, run_node, run_slots, run_lv}
use microbench.Merge.Tries.Steady.{AreSteady, IsSteady, of_result}
use microbench.Trie.{Trie, find, step, classify}

program : Unit {0}
unfolding merge run_task run_node run_slots run_lv merge_nodes merge_slots add_item_to_node
    add_slots create_node meet meet_values strncmp_zero convert_to_ikeylen entry_order next_item
    ready_lv make_comparable find step classify lower_bound_binary search key_compare ikey
    ksuf_equals
program = tt

-- "longkey8A" is 20, and "z" is 30.
abbrev built : Trie ℕ 2
built = record {
  has_ksuf = true;
  slots =
      record { ikeylen = 9; ikey = 0x6c6f6e676b657938; lv = value 20; ksuf = 0x41 ∷ [] }
      ∷ record { ikeylen = 1; ikey = 0x7a00000000000000; lv = value 30; ksuf = [] }
      ∷ [];
}

-- "longkey8BB" is 21, and "z" is 31.
abbrev old : Trie ℕ 2
old = record {
  has_ksuf = true;
  slots =
      record { ikeylen = 9; ikey = 0x6c6f6e676b657938; lv = value 21; ksuf = 0x42 ∷ 0x42 ∷ [] }
      ∷ record { ikeylen = 1; ikey = 0x7a00000000000000; lv = value 31; ksuf = [] }
      ∷ [];
}

abbrev below : Trie ℕ 1
below = record {
  has_ksuf = true;
  slots =
      record { ikeylen = 1; ikey = 0x4100000000000000; lv = value 20; ksuf = [] }
      ∷ record { ikeylen = 2; ikey = 0x4242000000000000; lv = value 21; ksuf = [] }
      ∷ [];
}

abbrev new : Trie ℕ 2
new = record {
  has_ksuf = true;
  slots =
      record { ikeylen = 73; ikey = 0x6c6f6e676b657938; lv = layer below; ksuf = [] }
      ∷ record { ikeylen = 1; ikey = 0x7a00000000000000; lv = value 30; ksuf = [] }
      ∷ [];
}

merge_built : merge ℕ 2 (some built) (some old) ≡ ok (true, some new)
unfolding program
merge_built = refl

built-IsTrie : IsTrie ℕ 2 built
built-IsTrie = (refl, omega arith, ground arith)

old-IsTrie : IsTrie ℕ 2 old
old-IsTrie = (refl, omega arith, ground arith)

built-IsSteady : IsSteady ℕ 2 (merge_task built old)
unfolding program strays
built-IsSteady r merged =
    of_result (λ r. AreSteady (IsSteady ℕ 1) r.slots) merged ((tt, (tt, tt)), (tt, tt))

merge-Finds_example : Returns (merge ℕ 2 (some built) (some old)) (Finds ℕ 2 built old)
merge-Finds_example = merge-Finds ℕ 2 built old built-IsTrie old-IsTrie built-IsSteady

-- "longkey8A" is also in the old trie, as 22. The built trie has a layer for it.
abbrev old_a : Trie ℕ 2
old_a = record {
  has_ksuf = true;
  slots = record { ikeylen = 9; ikey = 0x6c6f6e676b657938; lv = value 22; ksuf = 0x41 ∷ [] } ∷ [];
}

abbrev long_a : Key
long_a = 0x6c ∷ 0x6f ∷ 0x6e ∷ 0x67 ∷ 0x6b ∷ 0x65 ∷ 0x79 ∷ 0x38 ∷ 0x41 ∷ []

abbrev find_merged : Trie ℕ 2 → Trie ℕ 2 → Key → Run (Option ℕ)
find_merged m n k =
    merge ℕ 2 (some m) (some n) >>= λ r. elim r.1 [ none ↦ ok none | some t ↦ find ℕ 2 t k ]

merge_keeps_built : find_merged built old_a long_a ≡ ok (some 20)
unfolding program
merge_keeps_built = refl

-- An equal key in a layer does not make it longer.
merge_strays : find_merged new old_a long_a ≡ fault
unfolding program set_last_parent strays
merge_strays = refl

-- Nodes without suffix arrays: a deleted slot of `n` goes, and an equal entry is not read.
abbrev plain : ℕ → ℕ → Slot ℕ (Trie ℕ 1)
plain i v = record { ikeylen = 8; ikey = i; lv = value v; ksuf = [] }

merge_plain :
    merge_slots 4 false
      (plain 1 10 ∷ plain 3 11 ∷ [])
      (plain 2 12 ∷ record (plain 3 13) { ikeylen = 0 } ∷ [])
    ≡ ok (ready_slot (plain 1 10) ∷ ready_slot (plain 2 12) ∷ ready_slot (plain 3 11) ∷ [])
unfolding program
merge_plain = refl

merge_plain_equal : merge_slots 2 false (plain 3 11 ∷ []) (plain 3 13 ∷ []) ≡ fault
unfolding program
merge_plain_equal = refl

abbrev item_a : Item ℕ
item_a = record { ikeylen = 9; ikey = 0x6c6f6e676b657938; content = 22; ksuf = 0x41 ∷ [] }

abbrev item_b : Item ℕ
item_b = record { ikeylen = 9; ikey = 0x6c6f6e676b657938; content = 23; ksuf = 0x42 ∷ [] }

merge_arrays-merge_slots_example :
    merge_arrays true built.slots old.slots
    ≡ (merge_slots 4 true built.slots old.slots >>= λ l. ok (set_cells l))
merge_arrays-merge_slots_example = merge_arrays-merge_slots true built.slots old.slots

meet-nul_example :
    meet {V = ℕ} {L = Trie ℕ 1}
      (record { ikeylen = 9; ikey = 7; lv = value 1; ksuf = 5 ∷ 0 ∷ 6 ∷ [] })
      (record { ikeylen = 9; ikey = 7; lv = value 2; ksuf = 5 ∷ 0 ∷ 8 ∷ [] })
    ≡ ok (ready_slot (record { ikeylen = 9; ikey = 7; lv = value 1; ksuf = 5 ∷ 0 ∷ 6 ∷ [] }))
meet-nul_example = meet-nul 7 1 2 (5 ∷ []) (6 ∷ []) (8 ∷ []) refl
