-- ===== src/Build/Convert.antt =====
-- A dynamic tree as a static trie, layer by layer, without the queue and the numbers of `buildStatic`,
-- and how many nodes it has.
use microbench.Common.{
  ℕ, zero, suc, ◌+◌, ◌≤◌, ◌≡◌, Bool, List, [], ◌∷◌, ◌++◌, length, if◌then◌else◌, arith, refl, true,
  false,
}
use microbench.Common.Run.{Run, ok, fault, ◌>>=◌, >>=-eq-ok}
use microbench.Massnode.{LeafValue, value, layer, Slot, keylenx_is_layer}
use microbench.Trie.{Trie}
use microbench.Build.{Tree, TrieNode, at_depth, read_layer, layers_of, new_slot}

module _ {R V : Type 0} (static_value : R → Run V) (has_ksuf : Bool) (fits : ℕ → Bool) where
  module _ {L M : Type 0} (convert : L → Run M) where
    -- The slot's length has to tell the member of its union.
    unfoldable pub static_lv : Bool → LeafValue R L → Run (LeafValue V M)
    static_lv true (value row) = fault
    static_lv true (layer c) = convert c >>= λ b. ok (layer b)
    static_lv false (value row) = static_value row >>= λ v. ok (value v)
    static_lv false (layer c) = fault

    unfoldable pub static_slots : List (Slot R L) → Run (List (Slot V M))
    static_slots [] = ok []
    static_slots (e ∷ es) = static_lv (keylenx_is_layer e.ikeylen) e.lv >>= λ lv.
        static_slots es >>= λ rest. ok (new_slot has_ksuf e lv ∷ rest)

    -- What the conversion of a slot's value comes to, by its length.
    pub static_lv-layer :
        (lv : LeafValue R L) (out : LeafValue V M)
        → static_lv true lv ≡ ok out
        → (c : L) × (b : M) × (lv ≡ layer c) × (convert c ≡ ok b) × (out ≡ layer b)
    unfolding static_lv
    static_lv-layer (value row) out h = absurd (cc)
    static_lv-layer (layer c) out h =
        let (b, run, is) = >>=-eq-ok (convert c) (λ b. ok (layer b)) h in (c, b, refl, run, cc)

    pub static_lv-value :
        (lv : LeafValue R L) (out : LeafValue V M)
        → static_lv false lv ≡ ok out
        → (row : R) × (v : V) × (lv ≡ value row) × (static_value row ≡ ok v) × (out ≡ value v)
    unfolding static_lv
    static_lv-value (value row) out h =
        let (v, run, is) = >>=-eq-ok (static_value row) (λ v. ok (value v)) h in
        (row, v, refl, run, cc)
    static_lv-value (layer c) out h = absurd (cc)

  unfoldable pub to_trie : (d : ℕ) → Tree R d → Run (Trie V d)
  to_trie zero t = elim t [ ]
  to_trie (suc d) t = read_layer t >>= λ es.
      (if fits (length es) then static_slots (to_trie d) es else fault) >>= λ slots.
      ok (record { has_ksuf = has_ksuf; slots = slots })

module _ {R L : Type 0} (nodes : L → ℕ) where
  unfoldable pub lv_nodes : LeafValue R L → ℕ
  lv_nodes (value row) = 1
  lv_nodes (layer c) = nodes c

  unfoldable pub all_nodes : List (LeafValue R L) → ℕ
  all_nodes [] = 0
  all_nodes (lv ∷ lvs) = lv_nodes lv + all_nodes lvs

unfoldable pub tree_nodes : (R : Type 0) (d : ℕ) → Tree R d → ℕ
tree_nodes R zero t = elim t [ ]
tree_nodes R (suc d) t = elim (read_layer t) [
  | fault ↦ 1
  | ok es ↦ suc (all_nodes (tree_nodes R d) (layers_of es))
]

module _ {R : Type 0} where
  unfoldable pub queue_nodes : List (TrieNode R) → ℕ
  queue_nodes [] = 0
  queue_nodes ((d, lv) ∷ queue) = lv_nodes (tree_nodes R d) lv + queue_nodes queue

  pub queue_nodes-append :
      (p q : List (TrieNode R)) → queue_nodes (p ++ q) ≡ queue_nodes p + queue_nodes q
  unfolding queue_nodes
  queue_nodes-append [] q = omega arith
  queue_nodes-append ((d, lv) ∷ p) q = omega (arith, queue_nodes-append p q)

  pub queue_nodes-at_depth :
      (d : ℕ) (lvs : List (LeafValue R (Tree R d)))
      → queue_nodes (at_depth d lvs) ≡ all_nodes (tree_nodes R d) lvs
  unfolding queue_nodes all_nodes
  queue_nodes-at_depth d [] = refl
  queue_nodes-at_depth d (lv ∷ lvs) = omega (arith, queue_nodes-at_depth d lvs)

  pub length-at_depth :
      (d : ℕ) (lvs : List (LeafValue R (Tree R d))) → length (at_depth d lvs) ≡ length lvs
  length-at_depth d [] = refl
  length-at_depth d (lv ∷ lvs) = omega (arith, length-at_depth d lvs)

  pub lv_nodes_pos : (d : ℕ) (lv : LeafValue R (Tree R d)) → 1 ≤ lv_nodes (tree_nodes R d) lv
  unfolding lv_nodes tree_nodes
  lv_nodes_pos d (value row) = omega arith
  lv_nodes_pos zero (layer t) = elim t [ ]
  lv_nodes_pos (suc d) (layer t) =
      elim (read_layer t)
        as (λ r.
          1 ≤ elim r [ fault ↦ 1 | ok es ↦ suc (all_nodes (tree_nodes R d) (layers_of es)) ]) [
            | fault ↦ omega arith
            | ok es ↦ omega arith
          ]

  pub length-le-queue_nodes : (q : List (TrieNode R)) → length q ≤ queue_nodes q
  unfolding queue_nodes
  length-le-queue_nodes [] = omega arith
  length-le-queue_nodes ((d, lv) ∷ q) = omega (arith, lv_nodes_pos d lv, length-le-queue_nodes q)
