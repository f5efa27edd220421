-- ===== src/Trie/Siblings.antt =====
-- Two keys with one slice and different lengths stand side by side in a node. `invalidate` sets the
-- length of a deleted slot to zero and leaves it in place, which breaks the order of the slots.
use microbench.Common.{length, true, List}
use microbench.Key.{Key, ikey, suffix}
use microbench.Key.Compare.{rank}
use microbench.Massnode.{value, Slot}
use microbench.Trie.{Trie}

module _ (V : Type 0) where
  abbrev pub slot_of : Key → V → Slot V (Trie V 0)
  slot_of k v = record { ikeylen = rank (length k); ikey = ikey k; lv = value v; ksuf = suffix k }

  abbrev pub node_of : List (Slot V (Trie V 0)) → Trie V 1
  node_of slots = record { has_ksuf = true; slots = slots }
