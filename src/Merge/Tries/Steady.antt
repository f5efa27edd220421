-- ===== src/Merge/Tries/Steady.antt =====
-- Merges in which every task in the queue keeps its parent.
use microbench.Common.{ℕ, zero, suc, ◌≡◌, false, List, [], ◌∷◌, refl}
use mathlib.Core.Path.{subst}
use microbench.Common.Run.{Run, ok, fault, ◌>>=◌, ok_inj}
use microbench.Massnode.{LeafValue, value, layer, Slot, Massnode}
use microbench.Merge.{
  Pending, ready, merge_task, add_task, create_task, merge_nodes, add_item_to_node, create_node,
}
use microbench.Merge.Tries.{run_lv, run_slots, run_node, strays, set_last_parent, run_task}
use microbench.Trie.{Trie}

module _ {V L : Type 0} (P : L → Type 0) where
  abbrev pub IsSteadyLv : LeafValue V L → Type 0
  IsSteadyLv (value v) = Unit
  IsSteadyLv (layer c) = P c

  abbrev pub AreSteady : List (Slot V L) → Type 0
  AreSteady [] = Unit
  AreSteady (e ∷ slots) = IsSteadyLv e.lv × AreSteady slots

-- What holds of the result that a run has, holds of every result of it.
pub of_result {ℓ} : {A : Type ℓ} (P : A → Type 0) {a b : A} → ok a ≡ ok b → P a → P b
of_result P h x = subst P (ok_inj h) x

module _ {V L M : Type 0} (P : L → Type 0) (f g : L → Run M)
    (same : (c : L) → P c → f c ≡ g c) where
  run_lv-eq : (lv : LeafValue V L) → IsSteadyLv P lv → run_lv {V = V} f lv ≡ run_lv g lv
  unfolding run_lv
  run_lv-eq (value v) h = refl
  run_lv-eq (layer c) h = rw (same c h) refl

  run_slots-eq :
      (slots : List (Slot V L)) → AreSteady P slots → run_slots {V = V} f slots ≡ run_slots g slots
  unfolding run_slots
  run_slots-eq [] h = refl
  run_slots-eq (e ∷ slots) h = rw (run_lv-eq e.lv h.0, run_slots-eq slots h.1) refl

  run_node-eq : (n : Massnode V L) → AreSteady P n.slots → run_node {V = V} f n ≡ run_node g n
  unfolding run_node
  run_node-eq n h = rw (run_slots-eq n.slots h) refl

module _ (V : Type 0) where
  -- The tasks, done without a look at the parents in the queue.
  unfoldable pub settle : (d : ℕ) → Pending V (Trie V d) → Run (Trie V d)
  settle zero (ready c) = elim c [ ]
  settle zero (merge_task m n) = elim m [ ]
  settle zero (add_task i n) = elim n [ ]
  settle zero (create_task i j) = fault
  settle (suc d) (ready c) = ok c
  settle (suc d) (merge_task m n) = merge_nodes m n >>= run_node (settle d)
  settle (suc d) (add_task i n) = add_item_to_node i n >>= run_node (settle d)
  settle (suc d) (create_task i j) = run_node (settle d) (create_node i j)

  -- Every entry that is added to a layer makes it longer or leaves a task there: the layer has no
  -- deleted slot before the entry's place, and no equal key.
  abbrev pub IsSteady : (d : ℕ) → Pending V (Trie V d) → Type 0
  IsSteady zero p = Unit
  IsSteady (suc d) (ready c) = Unit
  IsSteady (suc d) (merge_task m n) =
      (r : Massnode V (Pending V (Trie V d)))
      → merge_nodes m n ≡ ok r
      → AreSteady (IsSteady d) r.slots
  IsSteady (suc d) (add_task i n) =
      (r : Massnode V (Pending V (Trie V d)))
      → add_item_to_node i n ≡ ok r
      → (strays n r ≡ false) × AreSteady (IsSteady d) r.slots
  IsSteady (suc d) (create_task i j) = AreSteady (IsSteady d) (create_node i j).slots

  bind-eq :
      {A B : Type 0} (run : Run A) (f g : A → Run B)
      → ((a : A) → run ≡ ok a → f a ≡ g a)
      → (run >>= f) ≡ (run >>= g)
  bind-eq fault f g same = refl
  bind-eq (ok a) f g same = same a refl

  pub run_task-settle :
      (d : ℕ) (p : Pending V (Trie V d)) → IsSteady d p → run_task V d p ≡ settle d p
  unfolding run_task settle set_last_parent
  run_task-settle zero (ready c) h = elim c [ ]
  run_task-settle zero (merge_task m n) h = elim m [ ]
  run_task-settle zero (add_task i n) h = elim n [ ]
  run_task-settle zero (create_task i j) h = refl
  run_task-settle (suc d) (ready c) h = refl
  run_task-settle (suc d) (merge_task m n) h =
      bind-eq (merge_nodes m n) _ _ (λ r run.
        run_node-eq (IsSteady d) (run_task V d) (settle d) (run_task-settle d) r (h r run))
  run_task-settle (suc d) (add_task i n) h = bind-eq (add_item_to_node i n) _ _ (λ r run.
      rw ((h r run).0)
        (run_node-eq (IsSteady d) (run_task V d) (settle d) (run_task-settle d) r (h r run).1))
  run_task-settle (suc d) (create_task i j) h =
      run_node-eq (IsSteady d) (run_task V d) (settle d) (run_task-settle d) (create_node i j) h
