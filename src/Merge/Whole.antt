-- ===== src/Merge/Whole.antt =====
-- The merge of two tries: every task is done, and the new trie holds the keys of both.
use microbench.Common.{
  ℕ, zero, suc, ◌+◌, ◌≡◌, ◌⊎◌, List, [], ◌∷◌, true, refl, sym, ◌∙◌, inl, inr, arith,
}
use mathlib.Core.Path.{subst}
use microbench.Common.Run.{ok, Returns}
use microbench.Key.{Key}
use microbench.Massnode.{Slot, Massnode, nkeys}
use microbench.Merge.{
  Item, Pending, ready, merge_task, add_task, create_task, create_node, add_item_to_node, add_slots,
  item_slot,
}
use microbench.Merge.Entries.{add_slots-merge_slots, create_node-merge_slots, create_node-has_ksuf}
use microbench.Merge.Holds.{
  IsItem, HoldsItem, AreRegular, HoldsAny, HoldsTask, IsTask, Passes, Unites, IsTrie, HoldsKey,
}
use microbench.Merge.Node.{Merged-IsUnion, run_node-bind}
use microbench.Merge.Nodes.{merge_nodes-Merged}
use microbench.Merge.Slots.{Merged, merge_slots-Merged}
use microbench.Merge.Tries.Steady.{settle}
use microbench.Trie.{Trie}

module _ {V L : Type 0} (i : Item V) (n : Massnode V L) (slots : List (Slot V (Pending V L))) where
  add_item_to_node-eq :
      n.has_ksuf ≡ true
      → add_slots i n.slots ≡ ok slots
      → add_item_to_node i n ≡ ok (record { has_ksuf = true; slots = slots })
  unfolding add_item_to_node
  add_item_to_node-eq full added = rw (full, added) refl

ok-injective : {A : Type 0} {a b : A} → ok a ≡ ok b → a ≡ b
ok-injective e = cc

module _ {V L : Type 0} (G : L → Type 0) (d : ℕ) (i : Item V) where
  -- An entry as a node of its own.
  item_regular : IsItem (suc d) i → AreRegular (suc d) G (item_slot i ∷ [])
  item_regular h = ((h.1, tt), (tt, tt))

module _ {V L : Type 0} (H : L → Key → V → Type 0) (i : Item V) where
  item-HoldsAny : (k : Key) (v : V) → HoldsItem i k v → HoldsAny H (item_slot i ∷ []) k v
  item-HoldsAny k v (same, at, live, len, suf) = inl (at, inl (rw same refl, live, len, suf))

  HoldsAny-item : (k : Key) (v : V) → HoldsAny H (item_slot i ∷ []) k v → HoldsItem i k v
  HoldsAny-item k v (inl (at, inl (same, live, len, suf))) = (cc, at, live, len, suf)
  HoldsAny-item k v (inl (at, inr (c, same, long, h))) = cc
  HoldsAny-item k v (inr h) = elim h [ ]

Passes-map :
    {V : Type 0} {A B A' B' C : Key → V → Type 0}
    → ((k : Key) (v : V) → A k v → A' k v)
    → ((k : Key) (v : V) → A' k v → A k v)
    → ((k : Key) (v : V) → B k v → B' k v)
    → ((k : Key) (v : V) → B' k v → B k v)
    → Unites A B C
    → Unites A' B' C
Passes-map {V} {A} {B} {A'} {B'} {C} f f' g g' u =
    (λ k v bytes h. there k v (u.0 k v bytes h), λ k v bytes h. u.1 k v bytes (back k v h))
  where
    there : (k : Key) (v : V) → A k v ⊎ B k v → A' k v ⊎ B' k v
    there k v (inl h) = inl (f k v h)
    there k v (inr h) = inr (g k v h)

    back : (k : Key) (v : V) → A' k v ⊎ B' k v → A k v ⊎ B k v
    back k v (inl h) = inl (f' k v h)
    back k v (inr h) = inr (g' k v h)

module _ (V : Type 0) where
  abbrev pub Done : (d : ℕ) → Pending V (Trie V d) → Trie V d → Type 0
  Done d p t = IsTrie V d t × Passes (HoldsTask (HoldsKey V d) p) (HoldsKey V d t)

  pub settle-Done :
      (d : ℕ) (p : Pending V (Trie V d))
      → IsTask d (IsTrie V d) p
      → Returns (settle V d p) (Done d p)
  unfolding settle
  settle-Done zero (ready c) h = elim h [ ]
  settle-Done zero (merge_task m n) h = elim h.0 [ ]
  settle-Done zero (add_task i n) h = elim h.1 [ ]
  settle-Done zero (create_task i j) h = absurd (omega (arith, h.0.1.4))
  settle-Done (suc d) (ready c) h = (c, refl, (h, (λ k v bytes g. g, λ k v bytes g. (v, g))))
  settle-Done (suc d) (merge_task m n) ((km, sm, hm), (kn, sn, hn)) =
      let (r, made, (kr, der)) = merge_nodes-Merged (IsTrie V d) d m n km kn sm sn hm hn in
      let (t, ran, (kt, st, reg, unites)) =
        Merged-IsUnion (settle V d) (HoldsKey V d) (HoldsKey V d) (IsTrie V d) (IsTrie V d) d
          (settle-Done d) der sm hm hn in
      (t, run_node-bind (settle V d) _ r t kr made ran, ((kt, st, reg), unites))
  settle-Done (suc d) (add_task i n) (hi, (kn, sn, hn)) =
      let hm = item_regular (IsTrie V d) d i hi in
      let (slots, merged, der) =
        merge_slots-Merged (IsTrie V d) d (1 + nkeys n) true (item_slot i ∷ []) n.slots
          (omega arith) hm.0 hn.0 (inl refl) in
      let added = add_slots-merge_slots i (1 + nkeys n) n.slots (omega arith) ∙ merged in
      let (t, ran, (kt, st, reg, unites)) =
        Merged-IsUnion (settle V d) (HoldsKey V d) (HoldsKey V d) (IsTrie V d) (IsTrie V d) d
          (settle-Done d) der (omega arith) hm hn in
      (
        t,
        run_node-bind (settle V d) _ _ t refl (add_item_to_node-eq i n slots kn added) ran,
        (
          (kt, st, reg),
          Passes-map (HoldsAny-item (HoldsKey V d) i) (item-HoldsAny (HoldsKey V d) i) (λ k v h. h)
              (λ k v h. h) unites,
        ),
      )
  settle-Done (suc d) (create_task i j) (hi, hj, differ) =
      let hm = item_regular (IsTrie V d) d i hi in
      let hn = item_regular (IsTrie V d) d j hj in
      let (slots, merged, der) =
        merge_slots-Merged (IsTrie V d) d 2 true (item_slot i ∷ []) (item_slot j ∷ []) (omega arith)
          hm.0 hn.0 (inl refl) in
      let same : slots ≡ (create_node i j).slots =
        ok-injective
          (sym merged ∙ sym (create_node-merge_slots i j (suc d) hi hj differ (Trie V d))) in
      let (t, ran, (kt, st, reg, unites)) =
        Merged-IsUnion (settle V d) (HoldsKey V d) (HoldsKey V d) (IsTrie V d) (IsTrie V d) d
          (settle-Done d) (subst (λ s. Merged (item_slot i ∷ []) (item_slot j ∷ []) s) same der)
          (omega arith) hm hn in
      (
        t,
        run_node-bind (settle V d) (ok (create_node i j)) (create_node i j) t
            (create_node-has_ksuf (Trie V d) i j) refl ran,
        (
          (kt, st, reg),
          Passes-map (HoldsAny-item (HoldsKey V d) i) (item-HoldsAny (HoldsKey V d) i)
              (HoldsAny-item (HoldsKey V d) j) (item-HoldsAny (HoldsKey V d) j) unites,
        ),
      )
