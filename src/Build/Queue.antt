-- ===== src/Build/Queue.antt =====
-- The loop over the layers, and the whole of `buildStatic`.
use microbench.Common.{
  ℕ, zero, suc, ◌+◌, ◌≤◌, ◌<◌, ◌≡◌, Bool, true, List, [], ◌∷◌, ◌++◌, length, arith, refl, some,
  get_elem?, sym, ◌∙◌, length-append, Bool-cases, inl, inr, if◌then◌else◌,
}
use mathlib.Core.List.{append_assoc, append-nil}
use microbench.Common.Run.{Run, ok, fault, ◌>>=◌, >>=-eq-ok, ok_inj, Returns}
use microbench.Massnode.{value, layer, Slot, Massnode}
use microbench.Merge.Tries.{run_slots, run_node}
use microbench.Trie.{Trie}
use microbench.Build.{
  Tree, TrieNode, at_depth, read_layer, layers_of, number_slots, trie_nodes, link, build,
}
use microbench.Build.Convert.{
  static_slots, to_trie, lv_nodes, all_nodes, tree_nodes, queue_nodes, queue_nodes-append,
  queue_nodes-at_depth, length-at_depth, lv_nodes_pos, length-le-queue_nodes,
}
use microbench.Build.Rounds.{
  Convertible, Linked, Convertible-append, Linked-append, number_slots-Numbered,
  get_elem?-append_mid,
}

pub tree_nodes-read :
    {R : Type 0} (d : ℕ) (t : Tree R (suc d)) (es : List (Slot R (Tree R d)))
    → read_layer t ≡ ok es
    → tree_nodes R (suc d) t ≡ suc (all_nodes (tree_nodes R d) (layers_of es))
unfolding tree_nodes
tree_nodes-read d t es h = rw (h, tree_nodes) refl

module _ {R V : Type 0} (static_value : R → Run V) (has_ksuf : Bool) (fits : ℕ → Bool) where
  -- The nodes made so far stay, and the new ones are the tries of the queue's layers.
  abbrev Completes : List (Massnode V ℕ) → List (TrieNode R) → List (Massnode V ℕ) → Type 0
  Completes nodes queue out =
      ((more : List (Massnode V ℕ)) × (out ≡ nodes ++ more))
      × Linked static_value has_ksuf fits out (length nodes) queue

  abbrev convert_slots : (d : ℕ) → List (Slot R (Tree R d)) → Run (Trie V (suc d))
  convert_slots d es =
      (if fits (length es)
        then static_slots static_value has_ksuf fits (to_trie static_value has_ksuf fits d) es
        else fault)
      >>= λ slots. ok (record { has_ksuf = has_ksuf; slots = slots })

  module _ (d fuel mass : ℕ) (nodes : List (Massnode V ℕ)) (queue : List (TrieNode R))
      (root : Tree R (suc d)) (t : Trie V (suc d)) (es : List (Slot R (Tree R d)))
      (slots : List (Slot V (Trie V d))) (read : read_layer root ≡ ok es)
      (fit : fits (length es) ≡ true)
      (conv : to_trie static_value has_ksuf fits (suc d) root ≡ ok t)
      (made : record { has_ksuf = has_ksuf; slots = slots } ≡ t)
      (at : mass ≡ length nodes + suc (length queue)) where
    round-Completes :
        (r : ℕ × List (Slot V ℕ))
        → number_slots static_value has_ksuf fits mass es ≡ ok r
        → ((out : List (Massnode V ℕ))
            → Linked static_value has_ksuf fits out mass (at_depth d (layers_of es))
            → run_slots (link d out) r.1 ≡ ok slots)
        → Returns
            (trie_nodes static_value has_ksuf fits fuel r.0
              (nodes ++ record { has_ksuf = has_ksuf; slots = r.1 } ∷ [])
              (queue ++ at_depth d (layers_of es)))
            (Completes
              (nodes ++ record { has_ksuf = has_ksuf; slots = r.1 } ∷ [])
              (queue ++ at_depth d (layers_of es)))
        → Returns
            (trie_nodes static_value has_ksuf fits
              (suc fuel)
              mass
              nodes
              ((suc d, layer root) ∷ queue))
            (Completes nodes ((suc d, layer root) ∷ queue))
    unfolding trie_nodes link run_node
    round-Completes r run links (out, runs, ((more, is), linked)) =
        let n : Massnode V ℕ = record { has_ksuf = has_ksuf; slots = r.1 } in
        let kids : List (TrieNode R) = at_depth d (layers_of es) in
        let len : length (nodes ++ n ∷ []) ≡ suc (length nodes) =
          omega (arith, length-append nodes (n ∷ [])) in
        let linked' : Linked static_value has_ksuf fits out (suc (length nodes)) (queue ++ kids) =
          rw len at linked in
        let (first, last) =
          Linked-append static_value has_ksuf fits out (suc (length nodes)) queue kids linked' in
        let here : suc (length nodes) + length queue ≡ mass = omega (arith, at) in
        let slots_run = links out (rw here at last) in
        let found : get_elem? out (length nodes) ≡ some n =
          rw is (get_elem?-append_mid nodes n more) in
        (
          out,
          rw (read, fit, run) runs,
          (
            (n ∷ more, is ∙ append_assoc nodes (n ∷ []) more),
            ((t, conv, rw (found, link, run_node, slots_run, made) refl), first),
          ),
        )

  to_trie-read :
      (d : ℕ) (root : Tree R (suc d)) (t : Trie V (suc d))
      → to_trie static_value has_ksuf fits (suc d) root ≡ ok t
      → (es : List (Slot R (Tree R d))) × (read_layer root ≡ ok es) × (convert_slots d es ≡ ok t)
  unfolding to_trie
  to_trie-read d root t conv = >>=-eq-ok (read_layer root) (convert_slots d) conv

  to_trie-slots :
      (d : ℕ) (es : List (Slot R (Tree R d))) (t : Trie V (suc d))
      → convert_slots d es ≡ ok t
      → (slots : List (Slot V (Trie V d))) × (static_slots static_value has_ksuf fits
            (to_trie static_value has_ksuf fits d)
            es
          ≡ ok slots)
        × (fits (length es) ≡ true)
        × (record { has_ksuf = has_ksuf; slots = slots } ≡ t)
  to_trie-slots d es t conv = elim (Bool-cases (fits (length es))) [
    | inl fit ↦
        let (slots, run, is) =
          >>=-eq-ok
            (static_slots static_value has_ksuf fits (to_trie static_value has_ksuf fits d) es)
            (λ slots. ok (record { has_ksuf = has_ksuf; slots = slots })) (rw fit at conv) in
        (slots, run, fit, ok_inj is)
    | inr odd ↦ cc (rw odd at conv)
  ]

  root_sum : (d : ℕ) (t : Tree R d) → queue_nodes ((d, layer t) ∷ []) ≡ tree_nodes R d t
  unfolding queue_nodes lv_nodes
  root_sum d t = omega arith

  trie_nodes-Completes :
      (fuel mass : ℕ) (nodes : List (Massnode V ℕ)) (queue : List (TrieNode R))
      → Convertible static_value has_ksuf fits queue
      → queue_nodes queue ≤ fuel
      → mass ≡ length nodes + length queue
      → length nodes + queue_nodes queue < 4294967296
      → Returns
          (trie_nodes static_value has_ksuf fits fuel mass nodes queue)
          (Completes nodes queue)
  unfolding trie_nodes queue_nodes lv_nodes
  trie_nodes-Completes fuel mass nodes [] all enough at bound =
      (nodes, refl, (([], sym (append-nil nodes)), tt))
  trie_nodes-Completes zero mass nodes ((d, lv) ∷ queue) all enough at bound =
      absurd (omega (arith, lv_nodes_pos d lv))
  trie_nodes-Completes (suc fuel) mass nodes ((zero, lv) ∷ queue) all enough at bound =
      elim all.0.0 [ ]
  trie_nodes-Completes (suc fuel) mass nodes ((suc d, value row) ∷ queue) all enough at bound =
      absurd (cc (all.0.1))
  trie_nodes-Completes (suc fuel) mass nodes ((suc d, layer root) ∷ queue) ((t, conv), rest) enough
        at bound =
      let (es, read, conv') = to_trie-read d root t conv in
      let (slots, run, fit, made) = to_trie-slots d es t conv' in
      let kids : List (TrieNode R) = at_depth d (layers_of es) in
      let below = tree_nodes-read d root es read in
      let sum = queue_nodes-append queue kids in
      let kids_sum = queue_nodes-at_depth d (layers_of es) in
      let most = length-le-queue_nodes kids in
      let most' = length-le-queue_nodes queue in
      let len = length-at_depth d (layers_of es) in
      let (r, numbered, (count, good, links)) =
        number_slots-Numbered static_value has_ksuf fits d mass es slots run
          (omega (arith, below, kids_sum, most, most', len, bound, at)) in
      let n : Massnode V ℕ = record { has_ksuf = has_ksuf; slots = r.1 } in
      let grown = length-append nodes (n ∷ []) in
      let queued = length-append queue kids in
      round-Completes d fuel mass nodes queue root t es slots read fit conv made at r numbered links
        (trie_nodes-Completes fuel r.0 (nodes ++ n ∷ []) (queue ++ kids)
          (Convertible-append static_value has_ksuf fits queue kids rest good)
          (omega (arith, below, sum, kids_sum, enough))
          (omega (arith, count, at, grown, queued, len))
          (omega (arith, below, sum, kids_sum, bound, grown)))

  -- The nodes of the queue, linked from the first one on, are the trie that the layers make one by one.
  pub build-to_trie :
      (fuel d : ℕ) (t : Tree R d) (out : Trie V d)
      → to_trie static_value has_ksuf fits d t ≡ ok out
      → tree_nodes R d t ≤ fuel
      → tree_nodes R d t < 4294967296
      → build static_value has_ksuf fits fuel d t ≡ ok out
  unfolding build
  build-to_trie fuel d t out conv enough bound =
      let (nodes, run, (more, ((u, conv', linked), rest))) =
        trie_nodes-Completes fuel 1 [] ((d, layer t) ∷ []) ((out, conv), tt)
          (ground (arith, root_sum d t, enough)) (omega arith)
          (ground (arith, root_sum d t, bound)) in
      let same : u ≡ out = ok_inj (sym conv' ∙ conv) in rw (run, linked, same) refl
