-- ===== src/Trie/Destroy.antt =====
-- `stcursor::destroy` of hybrid_index/masstree_get.hh, which frees the nodes of a trie.
use mathlib.Core.List.{append_assoc, append-nil}
use mathlib.Core.List.Permᴰ as Perm
use microbench.Common.{
  ℕ, zero, suc, ◌≤◌, ◌≡◌, Option, none, some, List, [], ◌∷◌, ◌++◌, length, length-append, get_elem?,
  ltb, true, false, arith, refl, sym, ap, ◌∙◌, if◌then◌else◌,
}
use microbench.Common.Run.{Run, ok, fault, ◌>>=◌, Returns}
use microbench.Massnode.{LeafValue, value, layer, Slot, keylenx_is_layer}
use microbench.Trie.{Trie}
use microbench.Trie.Holds.{Fits, IsWellFormed}

-- A node with the bound on its layers.
abbrev pub Node : Type 0 → Type 0
Node V = (d : ℕ) × Trie V d

module _ {V : Type 0} where
  -- The layers of a node that are put into the list.
  unfoldable pub layers : (d : ℕ) → List (Slot V (Trie V d)) → Run (List (Node V))
  layers d [] = ok []
  layers d (e ∷ slots) =
      let rest = layers d slots in
      if keylenx_is_layer e.ikeylen
      then elim e.lv [ value v ↦ fault | layer c ↦ rest >>= λ l. ok ((d, c) ∷ l) ]
      else rest

  -- `massnode_list`, before `bfs_cursor` and from it on. Each round visits a node.
  unfoldable pub massnode_list : ℕ → List (Node V) → List (Node V) → Run (List (Node V))
  massnode_list fuel visited [] = ok visited
  massnode_list zero visited (node ∷ list) = fault
  massnode_list (suc fuel) visited ((zero, n) ∷ list) = elim n [ ]
  massnode_list (suc fuel) visited ((suc d, n) ∷ list) =
      layers d n.slots >>= λ below. massnode_list fuel (visited ++ (suc d, n) ∷ []) (list ++ below)

  -- The nodes that are freed, in order.
  unfoldable pub destroy : ℕ → (d : ℕ) → Option (Trie V d) → Run (List (Node V))
  destroy fuel d none = ok []
  destroy fuel d (some root) = massnode_list fuel [] ((d, root) ∷ [])

  -- The nodes below slots, and those of a trie.
  abbrev nodes_below : {L : Type 0} → (L → List (Node V)) → List (Slot V L) → List (Node V)
  nodes_below nodes [] = []
  nodes_below nodes (e ∷ slots) =
      elim e.lv [ value v ↦ [] | layer c ↦ nodes c ] ++ nodes_below nodes slots

  abbrev pub nodes_of : (d : ℕ) → Trie V d → List (Node V)
  nodes_of zero n = elim n [ ]
  nodes_of (suc d) n = (suc d, n) ∷ nodes_below (nodes_of d) n.slots

  abbrev nodes_in : List (Node V) → List (Node V)
  nodes_in [] = []
  nodes_in ((d, n) ∷ list) = nodes_of d n ++ nodes_in list

  abbrev AreWellFormed : List (Node V) → Type 0
  AreWellFormed [] = Unit
  AreWellFormed ((d, n) ∷ list) = IsWellFormed V d n × AreWellFormed list

  nodes_in-append : (l m : List (Node V)) → nodes_in (l ++ m) ≡ nodes_in l ++ nodes_in m
  nodes_in-append [] m = refl
  nodes_in-append ((d, n) ∷ l) m =
      ap (λ r. nodes_of d n ++ r) (nodes_in-append l m)
      ∙ sym (append_assoc (nodes_of d n) (nodes_in l) (nodes_in m))

  AreWellFormed-append :
      (l m : List (Node V)) → AreWellFormed l → AreWellFormed m → AreWellFormed (l ++ m)
  AreWellFormed-append [] m hl hm = hm
  AreWellFormed-append ((d, n) ∷ l) m (h, hl) hm = (h, AreWellFormed-append l m hl hm)

  -- What the layers of slots are to be.
  abbrev Below : (d : ℕ) → List (Slot V (Trie V d)) → Type 0
  Below d slots =
      Returns (layers d slots)
        (λ l. (nodes_in l ≡ nodes_below (nodes_of d) slots) × AreWellFormed l)

  slot-Below :
      (d keylenx i : ℕ) (lv : LeafValue V (Trie V d)) (s : List ℕ)
      (slots : List (Slot V (Trie V d)))
      → Fits (IsWellFormed V d) keylenx lv
      → Below d slots
      → Below d (record { ikeylen = keylenx; ikey = i; lv = lv; ksuf = s } ∷ slots)
  unfolding layers
  slot-Below d keylenx i (value v) s slots fits (l, run, post) =
      let short : ltb 63 keylenx ≡ false = ground (arith, fits) in (l, rw short run, post)
  slot-Below d keylenx i (layer c) s slots (long, formed) (l, run, (are, below)) =
      let is_layer : ltb 63 keylenx ≡ true = ground (arith, long) in
      ((d, c) ∷ l, rw (is_layer, run) refl, (ap (λ r. nodes_of d c ++ r) are, (formed, below)))

  layers-Below :
      (d : ℕ) (slots : List (Slot V (Trie V d)))
      → ((p : ℕ) (e : Slot V (Trie V d))
          → get_elem? slots p ≡ some e
          → Fits (IsWellFormed V d) e.ikeylen e.lv)
      → Below d slots
  unfolding layers
  layers-Below d [] fits = ([], refl, (refl, tt))
  layers-Below d (e ∷ slots) fits =
      slot-Below d e.ikeylen e.ikey e.lv e.ksuf slots (fits 0 e refl)
        (layers-Below d slots (λ p f h. fits (suc p) f h))

  -- A node and its layers, which go to the end of the list.
  visit-Perm :
      (visited rest below : List (Node V)) (node : Node V)
      → Perm.Permᴰ ((visited ++ node ∷ []) ++ (rest ++ below)) (visited ++ (node ∷ (below ++ rest)))
  visit-Perm visited rest below node =
      rw (append_assoc visited (node ∷ []) (rest ++ below))
        (Perm.append_left visited (Perm.cons refl (Perm.append_comm rest below)))

  list-Frees :
      (fuel : ℕ) (visited list : List (Node V))
      → AreWellFormed list
      → length (nodes_in list) ≤ fuel
      → Returns (massnode_list fuel visited list) (λ l. Perm.Permᴰ l (visited ++ nodes_in list))
  unfolding massnode_list
  list-Frees fuel visited [] formed enough =
      (visited, refl, rw (append-nil visited) (Perm.refl visited))
  list-Frees zero visited ((zero, n) ∷ list) formed enough = elim n [ ]
  list-Frees zero visited ((suc d, n) ∷ list) formed enough = absurd (omega (arith, enough))
  list-Frees (suc fuel) visited ((zero, n) ∷ list) formed enough = elim n [ ]
  list-Frees (suc fuel) visited ((suc d, n) ∷ list) (h, formed) enough =
      let (l, run, (are, below)) = layers-Below d n.slots h.1 in
      let both : nodes_in (list ++ l) ≡ nodes_in list ++ nodes_below (nodes_of d) n.slots =
        nodes_in-append list l ∙ ap (λ r. nodes_in list ++ r) are in
      let total : length (nodes_in (list ++ l))
          ≡ length (nodes_in list ++ nodes_below (nodes_of d) n.slots) =
        ap length both in
      let room : length (nodes_in (list ++ l)) ≤ fuel = omega (
        arith,
        enough,
        total,
        length-append (nodes_in list) (nodes_below (nodes_of d) n.slots),
        length-append (nodes_below (nodes_of d) n.slots) (nodes_in list),
      ) in
      let (out, rest, perm) =
        list-Frees fuel (visited ++ (suc d, n) ∷ []) (list ++ l)
          (AreWellFormed-append list l formed below) room in
      (
        out,
        rw run rest,
        Perm.trans (rw both at perm)
            (visit-Perm visited (nodes_in list) (nodes_below (nodes_of d) n.slots) (suc d, n)),
      )

  -- With as many rounds as a well-formed trie has nodes, `destroy` ends without a fault, and frees
  -- each of them once.
  pub destroy-Frees :
      (d : ℕ) (t : Trie V d)
      → IsWellFormed V d t
      → Returns (destroy (length (nodes_of d t)) d (some t)) (λ l. Perm.Permᴰ l (nodes_of d t))
  unfolding destroy
  destroy-Frees d t formed =
      let same : nodes_of d t ++ [] ≡ nodes_of d t = append-nil (nodes_of d t) in
      let (out, run, perm) =
        list-Frees (length (nodes_of d t)) [] ((d, t) ∷ []) (formed, tt) (rw same (omega arith)) in
      (out, run, rw same at perm)

-- `destroy` of the tries with several values, and with values of variable length, for a key.
abbrev pub destroy_multivalue : ℕ → (d : ℕ) → Option (Trie (List ℕ) d) → Run (List (Node (List ℕ)))
destroy_multivalue = destroy

abbrev pub destroy_dynamicvalue :
    (R : Type 0) → ℕ → (d : ℕ) → Option (Trie R d) → Run (List (Node R))
destroy_dynamicvalue R = destroy
