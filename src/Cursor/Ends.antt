-- ===== src/Cursor/Ends.antt =====
-- The end of a node in a scan: the stack of slices is popped once more than there are nodes.
use microbench.Common.{
  ℕ, zero, suc, ◌<◌, ◌≡◌, ◌⊎◌, inl, inr, ap, none, some, List, [], ◌∷◌, length, drop, max, refl,
  arith,
}
use microbench.Common.Run.{fault}
use microbench.Cursor.{Node, Cursor, valid_from, next_item_from_next_node_next, next_item_next}
use microbench.Trie.{Trie}

List-cases : {A : Type 0} (l : List A) → (l ≡ []) ⊎ ((a : A) × (m : List A) × (l ≡ a ∷ m))
List-cases [] = inl refl
List-cases (a ∷ m) = inr (a, m, refl)

module _ {V : Type 0} where
  -- No valid slot follows the positions of the stack.
  abbrev pub AreLast : List (Node V × ℕ) → Type 0
  AreLast [] = Unit
  AreLast (((zero, t), p) ∷ rest) = Unit
  AreLast (((suc d, t), p) ∷ rest) =
      (valid_from (suc p) (drop (suc p) t.slots) ≡ none) × AreLast rest

  climb_faults :
      (trace : List (Node V × ℕ)) (c : Cursor V)
      → length c.next_prefix < length trace
      → AreLast trace
      → next_item_from_next_node_next trace c ≡ fault
  unfolding next_item_from_next_node_next
  climb_faults [] c less last = elim less [ ]
  climb_faults (((zero, t), p) ∷ rest) c less last = elim t [ ]
  climb_faults (((suc d, t), p) ∷ rest) c less last = elim (List-cases c.next_prefix) [
    | inl empty ↦ rw empty refl
    | inr (i, prefix, is) ↦
        rw (is, last.0)
          (climb_faults rest
            (record c {
              n = some (suc d, t);
              next_prefix = prefix;
              kp = max (suc p) (length t.slots);
            })
            (omega (arith, less, ap length is)) last.1)
  ]

  -- With one slice for each node, at the last entry of the trie the code pops an empty vector before
  -- it can tell that no entry is left.
  pub next_item_next_faults :
      (d : ℕ) (t : Trie V (suc d)) (c : Cursor V)
      → length c.next_prefix ≡ length c.trace
      → valid_from (suc c.kp) (drop (suc c.kp) t.slots) ≡ none
      → AreLast c.trace
      → next_item_next d t c ≡ fault
  unfolding next_item_next
  next_item_next_faults d t c same last all = elim (List-cases c.next_prefix) [
    | inl empty ↦ rw empty refl
    | inr (i, prefix, is) ↦
        rw (is, last)
          (climb_faults c.trace
            (record c { next_prefix = prefix; kp = max (suc c.kp) (length t.slots) })
            (omega (arith, same, ap length is)) all)
  ]
