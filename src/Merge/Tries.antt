-- ===== src/Merge/Tries.antt =====
-- The tasks of a merge, done: tries of at most `d` layers. The queue is a recursion: a task stands in
-- the slot that it is to fill. This is what the code does as long as every task in the queue keeps its
-- parent.
pub mod Steady
use microbench.Common.{
  ◌+◌, ltb, not, if◌then◌else◌, ℕ, zero, suc, Bool, true, false, Option, none, some, List, [], ◌∷◌,
}
use microbench.Common.Run.{Run, ok, fault, ◌>>=◌}
use microbench.Massnode.{LeafValue, value, layer, Slot, Massnode, nkeys}
use microbench.Merge.{
  Pending, ready, merge_task, add_task, create_task, merge_nodes, add_item_to_node, create_node,
}
use microbench.Trie.{Trie}

module _ {V L M : Type 0} (run : L → Run M) where
  unfoldable pub run_lv : LeafValue V L → Run (LeafValue V M)
  run_lv (value v) = ok (value v)
  run_lv (layer c) = run c >>= λ b. ok (layer b)

  -- Each slot's layer is made, and set by `set_lv` at the slot's position.
  unfoldable pub run_slots : List (Slot V L) → Run (List (Slot V M))
  unfolding run_lv
  run_slots [] = ok []
  run_slots (e ∷ l) = run_lv e.lv >>= λ lv. run_slots l >>= λ rest.
      ok (record { ikeylen = e.ikeylen; ikey = e.ikey; lv = lv; ksuf = e.ksuf } ∷ rest)

  unfoldable pub run_node : Massnode V L → Run (Massnode V M)
  run_node n = run_slots n.slots >>= λ slots. ok (record { has_ksuf = n.has_ksuf; slots = slots })

module _ {V L : Type 0} where
  abbrev pub is_task : LeafValue V (Pending V L) → Bool
  is_task (value v) = false
  is_task (layer (ready c)) = false
  is_task (layer (merge_task m n)) = true
  is_task (layer (add_task i n)) = true
  is_task (layer (create_task i j)) = true

  abbrev pub has_task : List (Slot V (Pending V L)) → Bool
  has_task [] = false
  has_task (e ∷ slots) = let rest = has_task slots in if is_task e.lv then true else rest

  -- `add_item_to_node` has shrunk the node, which has `new_nkeys` slots, and has left no task.
  unfoldable pub strays : Massnode V L → Massnode V (Pending V L) → Bool
  strays n r = if ltb (nkeys r) (1 + nkeys n) then not (has_task r.slots) else false

  -- A shrunk node may move, and the code makes it the parent of the last task in the queue. If that is
  -- not a task of its own, another task may then set its layer in this node, at a position of another.
  -- What comes of that is left open: it is `fault`, whether or not a task is behind in the queue.
  unfoldable pub set_last_parent :
      Massnode V L → Massnode V (Pending V L) → Run (Massnode V (Pending V L))
  set_last_parent n r = if strays n r then fault else ok r

module _ (V : Type 0) where
  -- The round of `merge` that does a task, and those of the tasks that it leaves. `fault` where the
  -- bound on the layers is too small.
  unfoldable pub run_task : (d : ℕ) → Pending V (Trie V d) → Run (Trie V d)
  run_task zero (ready c) = elim c [ ]
  run_task zero (merge_task m n) = elim m [ ]
  run_task zero (add_task i n) = elim n [ ]
  run_task zero (create_task i j) = fault
  run_task (suc d) (ready c) = ok c
  run_task (suc d) (merge_task m n) = merge_nodes m n >>= run_node (run_task d)
  run_task (suc d) (add_task i n) =
      add_item_to_node i n >>= λ r. set_last_parent n r >>= run_node (run_task d)
  run_task (suc d) (create_task i j) = run_node (run_task d) (create_node i j)

  -- Its answer, and the new root.
  unfoldable pub merge :
      (d : ℕ) → Option (Trie V d) → Option (Trie V d) → Run (Bool × Option (Trie V d))
  merge d none n = ok (false, n)
  merge d (some m) none = ok (true, some m)
  merge d (some m) (some n) = run_task d (merge_task m n) >>= λ r. ok (true, some r)
