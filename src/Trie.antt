-- ===== src/Trie.antt =====
-- The static trie and its point cursor, `stcursor` of hybrid_index/masstree_get.hh (`find`, `remove`,
-- `update`), which `stcursor_multivalue` and `stcursor_dynamicvalue` repeat for other values.
-- A trie here has a root node; the early return for `!root_` is that of a cursor without a trie.
-- `Trie V d` has at most `d` layers. Every finite trie has such a bound, and a layer has one parent.
pub mod Holds
pub mod Round
pub mod Find
pub mod Write
pub mod Others
pub mod Update
pub mod Remove
pub mod Siblings
pub mod Single
pub mod Multivalue
pub mod Destroy
mod Examples
use microbench.Common.{
  ℕ, zero, suc, Bool, true, false, Option, none, some, if◌then◌else◌, get_elem?, not,
}
use microbench.Common.Run.{Run, ok, fault, ◌>>=◌}
use microbench.Key.{Key, shift}
use microbench.Massnode.{
  value, layer, Slot, Massnode, keylenx_is_layer, is_valid, ksuf_equals, invalidate, set_lv,
  set_slot,
}
use microbench.Massnode.Order.{lower_bound_binary}

abbrev pub Trie : Type 0 → ℕ → Type 0
Trie V zero = ⊥
Trie V (suc d) = Massnode V (Trie V d)

-- What one round from `nextNode` comes to: the key is not there, it is the slot at an index, or the
-- search goes on in a layer.
pub data Step (V L : Type 0) : Type 0 where
  absent : Step V L
  leaf : ℕ → Slot V L → Step V L
  down : ℕ → Slot V L → L → Step V L

module _ {V L : Type 0} where
  unfoldable pub read_slot : Massnode V L → ℕ → Run (Slot V L)
  read_slot n p = elim (get_elem? n.slots p) [ none ↦ fault | some e ↦ ok e ]

  -- The slot's length tells the member of its union.
  unfoldable pub classify : Massnode V L → Key → ℕ → Slot V L → Run (Step V L)
  classify n k p e =
      if keylenx_is_layer e.ikeylen
      then elim e.lv [ value v ↦ fault | layer c ↦ ok (down p e c) ]
      else if not (is_valid e)
      then ok absent
      else if ksuf_equals n e k
      then ok (leaf p e)
      else ok absent

  unfoldable pub step : Massnode V L → Key → Run (Step V L)
  unfolding read_slot
  step n k = lower_bound_binary n k >>= λ r. elim r [
    | none ↦ ok absent
    | some p ↦ read_slot n p >>= classify n k p
  ]

  pub value_of : Slot V L → Run V
  value_of e = elim e.lv [ value v ↦ ok v | layer c ↦ fault ]

module _ (V : Type 0) where
  -- The result, and the value to which `lv_` points on success.
  unfoldable pub find : (d : ℕ) → Trie V d → Key → Run (Option V)
  unfolding value_of
  find zero t k = elim t [ ]
  find (suc d) t k = step t k >>= λ s. elim s [
    | absent ↦ ok none
    | leaf p e ↦ value_of e >>= λ v. ok (some v)
    | down p e c ↦ find d c (shift k)
  ]

  -- A write below a layer: the layer's node is changed in place.
  abbrev pub put_layer :
      (d : ℕ)
      → Massnode V (Trie V d)
      → ℕ
      → Slot V (Trie V d)
      → Bool × Trie V d
      → Bool × Massnode V (Trie V d)
  put_layer d n p e (done, c) = (done, set_slot n p (set_lv (layer c) e))

  unfoldable pub remove : (d : ℕ) → Trie V d → Key → Run (Bool × Trie V d)
  remove zero t k = elim t [ ]
  remove (suc d) t k = step t k >>= λ s. elim s [
    | absent ↦ ok (false, t)
    | leaf p e ↦ ok (true, set_slot t p (invalidate e))
    | down p e c ↦ remove d c (shift k) >>= λ r. ok (put_layer d t p e r)
  ]

  unfoldable pub update : (d : ℕ) → Trie V d → Key → V → Run (Bool × Trie V d)
  update zero t k nv = elim t [ ]
  update (suc d) t k nv = step t k >>= λ s. elim s [
    | absent ↦ ok (false, t)
    | leaf p e ↦ ok (true, set_slot t p (set_lv (value nv) e))
    | down p e c ↦ update d c (shift k) nv >>= λ r. ok (put_layer d t p e r)
  ]
