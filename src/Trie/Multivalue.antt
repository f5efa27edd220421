-- ===== src/Trie/Multivalue.antt =====
-- The point lookup of the tries of multiple values, `stcursor_multivalue::find` and
-- `stcursor_dynamicvalue::find` of hybrid_index/masstree_get.hh. The walk is that of `find`, but
-- `key_compare` is the overload that drops the comparison of lengths.
use microbench.Common.{
  ℕ, zero, suc, ◌<◌, ◌≤◌, ◌≡◌, Option, some, none, Ordering, arith, length, [], ◌∷◌, Bool, true,
  false,
}
use microbench.Common.Run.{Run, ok, ◌>>=◌}
use microbench.Key.{Key, ikey, shift, key_compare_multivalue}
use microbench.Massnode.{Massnode, Slot, nkeys, ksuf_equals, invalidate, set_slot}
use microbench.Massnode.Search.{search, hit, miss}
use microbench.Trie.{Trie, Step, absent, leaf, down, classify, read_slot, value_of, put_layer}
use microbench.Trie.Siblings.{slot_of, node_of}

module _ {V L : Type 0} where
  abbrev sign : Key → Slot V L → Ordering
  sign k e = key_compare_multivalue k e.ikey e.ikeylen

  lower_bound_binary : Massnode V L → Key → Run (Option ℕ)
  lower_bound_binary n k = search (sign k) n.slots (nkeys n) 0 (nkeys n) >>= λ p. elim p [
    | hit m ↦ ok (some m)
    | miss r ↦ ok none
  ]

  step : Massnode V L → Key → Run (Step V L)
  unfolding read_slot
  step n k = lower_bound_binary n k >>= λ r. elim r [
    | none ↦ ok absent
    | some p ↦ read_slot n p >>= classify n k p
  ]

module _ (V : Type 0) where
  unfoldable pub find_multivalue : (d : ℕ) → Trie V d → Key → Run (Option V)
  unfolding step lower_bound_binary value_of
  find_multivalue zero t k = elim t [ ]
  find_multivalue (suc d) t k = step t k >>= λ s. elim s [
    | absent ↦ ok none
    | leaf p e ↦ value_of e >>= λ v. ok (some v)
    | down p e c ↦ find_multivalue d c (shift k)
  ]

  -- `remove` of both cursors.
  unfoldable pub remove_multivalue : (d : ℕ) → Trie V d → Key → Run (Bool × Trie V d)
  unfolding step lower_bound_binary
  remove_multivalue zero t k = elim t [ ]
  remove_multivalue (suc d) t k = step t k >>= λ s. elim s [
    | absent ↦ ok (false, t)
    | leaf p e ↦ ok (true, set_slot t p (invalidate e))
    | down p e c ↦ remove_multivalue d c (shift k) >>= λ r. ok (put_layer V d t p e r)
  ]

  -- `stcursor_dynamicvalue` has the same text, over rows.
  abbrev pub find_dynamicvalue : (d : ℕ) → Trie V d → Key → Run (Option V)
  find_dynamicvalue d t k = find_multivalue d t k

  abbrev pub remove_dynamicvalue : (d : ℕ) → Trie V d → Key → Run (Bool × Trie V d)
  remove_dynamicvalue d t k = remove_multivalue d t k

  -- A node stores two keys of one slice, whose lengths are positive, ascending and at most eight. A
  -- lookup of the shorter gives the value of the longer.
  find_multivalue_confuses :
      (i j : Key) (v w : V)
      → ikey i ≡ ikey j
      → 0 < length i
      → length i < length j
      → length j ≤ 8
      → find_multivalue 1 (node_of V (slot_of V i v ∷ slot_of V j w ∷ [])) i ≡ ok (some w)
  unfolding find_multivalue classify search ksuf_equals key_compare_multivalue
  find_multivalue_confuses i j v w same pos less short = ground arith

  -- A node stores two keys of one slice, whose lengths are positive, ascending and at most eight. A
  -- removal of the shorter succeeds, deletes the slot of the longer and leaves the shorter.
  remove_dynamicvalue_confuses :
      (i j : Key) (v w : V)
      → ikey i ≡ ikey j
      → 0 < length i
      → length i < length j
      → length j ≤ 8
      → remove_dynamicvalue 1 (node_of V (slot_of V i v ∷ slot_of V j w ∷ [])) i
        ≡ ok (true, node_of V (slot_of V i v ∷ invalidate (slot_of V j w) ∷ []))
  unfolding remove_multivalue classify search ksuf_equals key_compare_multivalue
  remove_dynamicvalue_confuses i j v w same pos less short = ground arith

  -- A node stores two keys of one slice, whose lengths are positive, ascending and at most eight. A
  -- multivalue lookup of the shorter gives the value of the longer, and a dynamicvalue removal of the
  -- shorter succeeds, deletes the slot of the longer and leaves the shorter.
  pub key_compare_multivalue_confuses :
      (i j : Key) (v w : V)
      → ikey i ≡ ikey j
      → 0 < length i
      → length i < length j
      → length j ≤ 8
      → (find_multivalue 1 (node_of V (slot_of V i v ∷ slot_of V j w ∷ [])) i ≡ ok (some w))
        × (remove_dynamicvalue 1 (node_of V (slot_of V i v ∷ slot_of V j w ∷ [])) i
            ≡ ok (true, node_of V (slot_of V i v ∷ invalidate (slot_of V j w) ∷ [])))
  key_compare_multivalue_confuses i j v w same pos less short = (
    find_multivalue_confuses i j v w same pos less short,
    remove_dynamicvalue_confuses i j v w same pos less short,
  )
