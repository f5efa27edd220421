-- ===== src/Cursor/Advance.antt =====
-- Going on with a scan: what `find_next1` and `find_next2` keep, find and do at the end of a node.
use microbench.Common.{ℕ, zero, suc, ◌≡◌, Bool, List, [], ◌∷◌, drop, refl}
use microbench.Common.Run.{Run}
use microbench.Massnode.{Slot, keylenx_is_layer}
use microbench.Cursor.{
  Node, Cursor, pop, bump, valid_from, at_next, find_next_leftmost, take_next,
  next_item_from_next_node_next, next_item_next, resume, find_next2,
}
use microbench.Cursor.After.{After, After-bind, After-bool, After-lv, After-option}
use microbench.Trie.{Trie, read_slot}

module _ {V : Type 0} where
  abbrev pub SameValue : Cursor V → Cursor V → Type 0
  SameValue c a = a.cur_lv ≡ c.cur_lv

  -- The result, if there is one, has the current slot of `c`.
  abbrev pub KeepsValue : Cursor V → Run (Bool × Cursor V) → Type 0
  KeepsValue c r = After (SameValue c) r

  take_next-KeepsValue :
      (d : ℕ) (t : Trie V (suc d)) (down : Trie V d → Cursor V → Run (Bool × Cursor V))
      (e : Slot V (Trie V d)) (c b : Cursor V)
      → ((n : Trie V d) (a : Cursor V) → a.cur_lv ≡ b.cur_lv → KeepsValue b (down n a))
      → c.cur_lv ≡ b.cur_lv
      → KeepsValue b (take_next d t down e c)
  unfolding take_next
  take_next-KeepsValue d t down e c b h same =
      After-bool (SameValue b) (keylenx_is_layer e.ikeylen) _ _
        (After-lv (SameValue b) e.lv _ (λ n. h n (at_next d t e c) same)) same

  find_next_leftmost-KeepsValue :
      (d : ℕ) (t : Trie V d) (c b : Cursor V)
      → c.cur_lv ≡ b.cur_lv
      → KeepsValue b (find_next_leftmost d t c)
  unfolding find_next_leftmost
  find_next_leftmost-KeepsValue zero t c b same = elim t [ ]
  find_next_leftmost-KeepsValue (suc d) t c b same =
      After-bind (SameValue b) (read_slot t 0) _ (λ e.
        take_next-KeepsValue d t (find_next_leftmost d) e c b
          (λ n a. find_next_leftmost-KeepsValue d n a b) same)

  climb-KeepsValue :
      (trace : List (Node V × ℕ)) (c b : Cursor V)
      → c.cur_lv ≡ b.cur_lv
      → KeepsValue b (next_item_from_next_node_next trace c)
  unfolding next_item_from_next_node_next
  climb-KeepsValue [] c b same = same
  climb-KeepsValue (((zero, t), p) ∷ rest) c b same = elim t [ ]
  climb-KeepsValue (((suc d, t), p) ∷ rest) c b same =
      After-bind (SameValue b) (pop c.next_prefix) _ (λ prefix.
        After-option (SameValue b) (valid_from (suc p) (drop (suc p) t.slots)) _ _
          (climb-KeepsValue rest _ b same)
          (λ f.
            take_next-KeepsValue d t (find_next_leftmost d) f.1 _ b
              (λ n a. find_next_leftmost-KeepsValue d n a b) same))

  next_item_next-KeepsValue :
      (d : ℕ) (t : Trie V (suc d)) (c : Cursor V) → KeepsValue c (next_item_next d t c)
  unfolding next_item_next
  next_item_next-KeepsValue d t c = After-bind (SameValue c) (pop c.next_prefix) _ (λ prefix.
      After-option (SameValue c) (valid_from (suc c.kp) (drop (suc c.kp) t.slots)) _ _
        (climb-KeepsValue c.trace _ c refl)
        (λ f. After-bind (SameValue c) (bump c.trace) _ (λ trace.
          take_next-KeepsValue d t (find_next_leftmost d) f.1 _ c
            (λ n a. find_next_leftmost-KeepsValue d n a c) refl)))

  resume-KeepsValue : (d : ℕ) (t : Trie V d) (c : Cursor V) → KeepsValue c (resume d t c)
  resume-KeepsValue zero t c = elim t [ ]
  resume-KeepsValue (suc d) t c = next_item_next-KeepsValue d t c

  -- `find_next2` goes on to the next slot, but where it returns, `cur_value` gives what it gave
  -- before.
  pub find_next2-KeepsValue : (c : Cursor V) → KeepsValue c (find_next2 c)
  unfolding find_next2
  find_next2-KeepsValue c = After-option (SameValue c) c.n _ _ tt (λ m. resume-KeepsValue m.0 m.1 c)
