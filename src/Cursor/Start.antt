-- ===== src/Cursor/Start.antt =====
-- The searches that start a scan, `find_upper_bound` and `find_upper_bound_or_equal`, leave the stack of
-- the next slot empty, so that `find_next2` cannot go on from them.
use microbench.Common.{ℕ, zero, suc, ◌≡◌, Bool, Option, none, some, List, [], ◌∷◌, drop, refl}
use microbench.Common.Run.{Run, fault}
use microbench.Massnode.{Slot, keylenx_is_layer, ksuf_of}
use microbench.Massnode.Order.{upper_bound_or_equal_binary}
use microbench.Cursor.{
  Node, Cursor, pop, bump, valid_from, at_cur, find_leftmost, take_cur, next_item_from_next_node,
  next_item, next_item_next, resume, find_next2, walk, key_above, find_upper_bound,
  find_upper_bound_or_equal,
}
use microbench.Cursor.After.{After, After-bind, After-bool, After-if, After-lv, After-option}
use microbench.Trie.{Trie, read_slot}

module _ {V : Type 0} where
  abbrev pub HasNoNext : Cursor V → Type 0
  HasNoNext c = c.next_prefix ≡ []

  take_cur-HasNoNext :
      (d : ℕ) (t : Trie V (suc d)) (down : Trie V d → Cursor V → Run (Bool × Cursor V))
      (e : Slot V (Trie V d)) (c : Cursor V)
      → ((n : Trie V d) (a : Cursor V) → HasNoNext a → After HasNoNext (down n a))
      → HasNoNext c
      → After HasNoNext (take_cur d t down e c)
  unfolding take_cur
  take_cur-HasNoNext d t down e c h bare =
      After-bool HasNoNext (keylenx_is_layer e.ikeylen) _ _
        (After-lv HasNoNext e.lv _ (λ n. h n (at_cur d t e c) bare)) bare

  find_leftmost-HasNoNext :
      (d : ℕ) (t : Trie V d) (c : Cursor V) → HasNoNext c → After HasNoNext (find_leftmost d t c)
  unfolding find_leftmost
  find_leftmost-HasNoNext zero t c bare = elim t [ ]
  find_leftmost-HasNoNext (suc d) t c bare = After-bind HasNoNext (read_slot t 0) _ (λ e.
      take_cur-HasNoNext d t (find_leftmost d) e c (λ n a. find_leftmost-HasNoNext d n a) bare)

  climb-HasNoNext :
      (trace : List (Node V × ℕ)) (c : Cursor V)
      → HasNoNext c
      → After HasNoNext (next_item_from_next_node trace c)
  unfolding next_item_from_next_node
  climb-HasNoNext [] c bare = bare
  climb-HasNoNext (((zero, t), p) ∷ rest) c bare = elim t [ ]
  climb-HasNoNext (((suc d, t), p) ∷ rest) c bare =
      After-bind HasNoNext (pop c.cur_prefix) _ (λ prefix.
        After-option HasNoNext (valid_from (suc p) (drop (suc p) t.slots)) _ _
          (climb-HasNoNext rest _ bare)
          (λ f.
            take_cur-HasNoNext d t (find_leftmost d) f.1 _ (λ n a. find_leftmost-HasNoNext d n a)
              bare))

  next_item-HasNoNext :
      (d : ℕ) (t : Trie V (suc d)) (kp : ℕ) (c : Cursor V)
      → HasNoNext c
      → After HasNoNext (next_item d t kp c)
  unfolding next_item
  next_item-HasNoNext d t kp c bare =
      After-option HasNoNext (valid_from (suc kp) (drop (suc kp) t.slots)) _ _
        (climb-HasNoNext c.trace c bare)
        (λ f. After-bind HasNoNext (pop c.cur_prefix) _ (λ prefix.
          After-bind HasNoNext (bump c.trace) _ (λ trace.
            After-if HasNoNext (keylenx_is_layer f.1.ikeylen) _ _
              (After-option HasNoNext c.next_lv _ _ tt
                (λ lv. After-lv HasNoNext lv _ (λ b. find_leftmost-HasNoNext b.0 b.1 _ bare)))
              bare)))

  walk-HasNoNext :
      (at_equal : (d : ℕ)
        → Trie V (suc d)
        → ℕ
        → Slot V (Trie V d)
        → Cursor V
        → Run (Bool × Cursor V))
      → ((d : ℕ) (t : Trie V (suc d)) (p : ℕ) (e : Slot V (Trie V d)) (c : Cursor V)
          → HasNoNext c
          → After HasNoNext (at_equal d t p e c))
      → (d : ℕ) (t : Trie V d) (c : Cursor V) → HasNoNext c
      → After HasNoNext (walk at_equal d t c)
  unfolding walk
  walk-HasNoNext at_equal h zero t c bare = elim t [ ]
  walk-HasNoNext at_equal h (suc d) t c bare =
      After-bind HasNoNext (upper_bound_or_equal_binary t c.ka) _ (λ r.
        After-option HasNoNext (valid_from r.1 (drop r.1 t.slots)) _ _
          (climb-HasNoNext c.trace _ bare)
          (λ f.
            After-bool HasNoNext (keylenx_is_layer f.1.ikeylen) _ _
              (After-lv HasNoNext f.1.lv _ (λ b.
                After-if HasNoNext r.0 _ _ (walk-HasNoNext at_equal h d b _ bare)
                  (find_leftmost-HasNoNext d b _ bare)))
              (After-if HasNoNext r.0 _ _ (h d t f.0 f.1 _ bare) bare)))

  pub find_upper_bound-HasNoNext :
      (d : ℕ) (t : Trie V d) (c : Cursor V) → HasNoNext c → After HasNoNext (find_upper_bound d t c)
  unfolding find_upper_bound
  find_upper_bound-HasNoNext = walk-HasNoNext _ (λ d t p e c. next_item-HasNoNext d t p c)

  pub find_upper_bound_or_equal-HasNoNext :
      (d : ℕ) (t : Trie V d) (c : Cursor V)
      → HasNoNext c
      → After HasNoNext (find_upper_bound_or_equal d t c)
  unfolding find_upper_bound_or_equal
  find_upper_bound_or_equal-HasNoNext = walk-HasNoNext _ (λ d t p e c bare.
      After-bind HasNoNext (key_above c.ka (ksuf_of t e)) _
        (λ above. After-if HasNoNext above _ _ (next_item-HasNoNext d t p c bare) bare))

  next_item_next-fault :
      (d : ℕ) (t : Trie V (suc d)) (c : Cursor V) → HasNoNext c → next_item_next d t c ≡ fault
  unfolding next_item_next
  next_item_next-fault d t c bare = rw bare refl

  -- A step from a cursor without a next slot pops an empty vector.
  pub find_next2-fault : (c : Cursor V) → HasNoNext c → find_next2 c ≡ fault
  unfolding find_next2
  find_next2-fault c bare = at c.n
    where
      at : (n : Option (Node V)) → (elim n [ none ↦ fault | some m ↦ resume m.0 m.1 c ]) ≡ fault
      at none = refl
      at (some (zero, t)) = elim t [ ]
      at (some (suc d, t)) = next_item_next-fault d t c bare
