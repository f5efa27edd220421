-- ===== src/Build/Rounds.antt =====
-- The queue of `buildStatic`: its nodes, linked, are the trie that the layers make one by one.
use microbench.Common.{
  ℕ, suc, ◌+◌, ◌<◌, ◌≡◌, Bool, true, false, List, [], ◌∷◌, ◌++◌, length, arith, refl, some,
  get_elem?, sym, ◌∙◌, Bool-cases, inl, inr,
}
use mathlib.Core.Path.{subst}
use microbench.Common.Run.{Run, ok, ◌>>=◌, ok_inj, >>=-eq-ok, Returns}
use microbench.Massnode.{LeafValue, value, layer, Slot, Massnode, keylenx_is_layer}
use microbench.Merge.Tries.{run_slots}
use microbench.Trie.{Trie}
use microbench.Build.{
  Tree, TrieNode, at_depth, layers_of, layer_lv, number_slots, link, next_id, new_slot,
}
use microbench.Build.Convert.{static_lv, static_lv-layer, static_lv-value, static_slots, to_trie}

pub get_elem?-append_mid {ℓ} :
    {A : Type ℓ} (xs : List A) (x : A) (ys : List A)
    → get_elem? ((xs ++ x ∷ []) ++ ys) (length xs) ≡ some x
get_elem?-append_mid [] x ys = refl
get_elem?-append_mid (y ∷ xs) x ys = get_elem?-append_mid xs x ys

module _ {R V : Type 0} (static_value : R → Run V) (has_ksuf : Bool) (fits : ℕ → Bool) where
  abbrev pub Converts : (d : ℕ) → LeafValue R (Tree R d) → Trie V d → Type 0
  Converts d lv t = (layer_lv lv >>= to_trie static_value has_ksuf fits d) ≡ ok t

  abbrev pub Convertible : List (TrieNode R) → Type 0
  Convertible [] = Unit
  Convertible ((d, lv) ∷ queue) = ((t : Trie V d) × Converts d lv t) × Convertible queue

  -- The nodes from `i` on are the tries of the queue's layers.
  abbrev pub Linked : List (Massnode V ℕ) → ℕ → List (TrieNode R) → Type 0
  Linked nodes i [] = Unit
  Linked nodes i ((d, lv) ∷ queue) =
      ((t : Trie V d) × Converts d lv t × (link d nodes i ≡ ok t)) × Linked nodes (suc i) queue

  pub Convertible-append :
      (p q : List (TrieNode R)) → Convertible p → Convertible q → Convertible (p ++ q)
  Convertible-append [] q hp hq = hq
  Convertible-append (x ∷ p) q hp hq = (hp.0, Convertible-append p q hp.1 hq)

  pub Linked-append :
      (nodes : List (Massnode V ℕ)) (i : ℕ) (p q : List (TrieNode R))
      → Linked nodes i (p ++ q)
      → Linked nodes i p × Linked nodes (i + length p) q
  Linked-append nodes i [] q h =
      let e : i + 0 ≡ i = omega arith in (tt, subst (λ j. Linked nodes j q) (sym e) h)
  Linked-append nodes i (x ∷ p) q h =
      let (a, b) = Linked-append nodes (suc i) p q h.1 in
      let e : suc i + length p ≡ i + suc (length p) = omega arith in
      ((h.0, a), subst (λ j. Linked nodes j q) e b)

  -- The slots of a new node: the numbers from `mass` on stand for the layers.
  abbrev pub Numbered : (d : ℕ) → ℕ → List (Slot R (Tree R d)) → List (Slot V (Trie V d)) → Type 0
  Numbered d mass es slots = Returns (number_slots static_value has_ksuf fits mass es) (λ r.
      (r.0 ≡ mass + length (layers_of es))
      × Convertible (at_depth d (layers_of es))
      × ((nodes : List (Massnode V ℕ))
          → Linked nodes mass (at_depth d (layers_of es))
          → run_slots (link d nodes) r.1 ≡ ok slots))

  module _ (d mass : ℕ) (e : Slot R (Tree R d)) (es : List (Slot R (Tree R d)))
      (slots : List (Slot V (Trie V d))) where
    number_slots-layer :
        (c : Tree R d) (t : Trie V d)
        → keylenx_is_layer e.ikeylen ≡ true
        → e.lv ≡ layer c
        → to_trie static_value has_ksuf fits d c ≡ ok t
        → suc mass < 4294967296
        → Numbered d (suc mass) es slots
        → Numbered d mass (e ∷ es) (new_slot has_ksuf e (layer t) ∷ slots)
    unfolding number_slots layers_of run_slots
    number_slots-layer c t deep is conv bound (r, run, (count, all, links)) =
        let next : next_id mass ≡ suc mass = omega arith in
        let pushed : layers_of (e ∷ es) ≡ layer c ∷ layers_of es = rw (deep, is) refl in
        (
          (r.0, new_slot has_ksuf e (layer mass) ∷ r.1),
          rw (deep, next, run) refl,
          (
            rw pushed (omega (arith, count)),
            rw pushed ((t, conv), all),
            λ nodes linked. linked_slots nodes (links nodes) (rw pushed at linked),
          ),
        )
      where
        linked_slots :
            (nodes : List (Massnode V ℕ))
            → (Linked nodes (suc mass) (at_depth d (layers_of es))
                → run_slots (link d nodes) r.1 ≡ ok slots)
            → Linked nodes mass ((d, layer c) ∷ at_depth d (layers_of es))
            → run_slots (link d nodes) (new_slot has_ksuf e (layer mass) ∷ r.1)
              ≡ ok (new_slot has_ksuf e (layer t) ∷ slots)
        linked_slots nodes more ((u, con, at), rest) =
            let same : u ≡ t = ok_inj (sym con ∙ conv) in rw (at, more rest, same) refl

    number_slots-value :
        (row : R) (v : V)
        → keylenx_is_layer e.ikeylen ≡ false
        → e.lv ≡ value row
        → static_value row ≡ ok v
        → Numbered d mass es slots
        → Numbered d mass (e ∷ es) (new_slot has_ksuf e (value v) ∷ slots)
    unfolding number_slots layers_of run_slots
    number_slots-value row v flat is has (r, run, (count, all, links)) =
        let pushed : layers_of (e ∷ es) ≡ layers_of es = rw flat refl in
        (
          (r.0, new_slot has_ksuf e (value v) ∷ r.1),
          rw (flat, is, has, run) refl,
          (
            rw pushed count,
            rw pushed all,
            λ nodes linked. rw (links nodes (rw pushed at linked)) refl,
          ),
        )

  length-layers_of_layer :
      {L : Type 0} (e : Slot R L) (es : List (Slot R L))
      → keylenx_is_layer e.ikeylen ≡ true
      → length (layers_of (e ∷ es)) ≡ suc (length (layers_of es))
  unfolding layers_of
  length-layers_of_layer e es deep = rw deep refl

  length-layers_of_value :
      {L : Type 0} (e : Slot R L) (es : List (Slot R L))
      → keylenx_is_layer e.ikeylen ≡ false
      → length (layers_of (e ∷ es)) ≡ length (layers_of es)
  unfolding layers_of
  length-layers_of_value e es flat = rw flat refl

  pub number_slots-Numbered :
      (d mass : ℕ) (es : List (Slot R (Tree R d))) (slots : List (Slot V (Trie V d)))
      → static_slots static_value has_ksuf fits (to_trie static_value has_ksuf fits d) es ≡ ok slots
      → mass + length (layers_of es) < 4294967296
      → Numbered d mass es slots
  unfolding number_slots static_slots layers_of run_slots
  number_slots-Numbered d mass [] slots h bound =
      ((mass, []), refl, (omega arith, tt, λ nodes linked. h))
  number_slots-Numbered d mass (e ∷ es) slots h bound =
      let (lv, run, h') = >>=-eq-ok (static_lv _ _ _ _ (keylenx_is_layer e.ikeylen) e.lv) _ h in
      let (rest, runs, out) = >>=-eq-ok (static_slots _ _ _ _ es) _ h' in
      let made : new_slot has_ksuf e lv ∷ rest ≡ slots = ok_inj out in
      elim (Bool-cases (keylenx_is_layer e.ikeylen)) [
        | inl deep ↦
            let (c, t, is, conv, to) = static_lv-layer _ _ _ _ e.lv lv (rw deep at run) in
            let count = length-layers_of_layer e es deep in
            let ih =
              number_slots-Numbered d (suc mass) es rest runs (omega (arith, count, bound)) in
            subst (Numbered d mass (e ∷ es)) (rw (← to) made) (
              number_slots-layer d mass e es rest c t deep is conv (omega (arith, count, bound)) ih)
        | inr flat ↦
            let (row, v, is, has, to) = static_lv-value _ _ _ _ e.lv lv (rw flat at run) in
            let count = length-layers_of_value e es flat in
            let ih = number_slots-Numbered d mass es rest runs (omega (arith, count, bound)) in
            subst (Numbered d mass (e ∷ es)) (rw (← to) made)
              (number_slots-value d mass e es rest row v flat is has ih)
      ]
