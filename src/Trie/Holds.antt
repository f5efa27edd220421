-- ===== src/Trie/Holds.antt =====
-- What a trie stores, stated without its searches, and when it is well formed.
use microbench.Common.{ℕ, zero, suc, ◌<◌, ◌≤◌, ◌≡◌, ◌⊎◌, some, get_elem?, length}
use microbench.Key.{Key, ikey, suffix, shift, ikey_size}
use microbench.Key.Compare.{rank}
use microbench.Massnode.{LeafValue, value, layer, Slot, Massnode, ksuf_of}
use microbench.Massnode.Order.{IsAscending}
use microbench.Trie.{Trie}

module _ {V L : Type 0} where
  -- A slot with a value has a length of at most nine; a longer one has a layer.
  abbrev pub Fits : (L → Type 0) → ℕ → LeafValue V L → Type 0
  Fits P keylenx (value v) = keylenx ≤ 9
  Fits P keylenx (layer c) = (63 < keylenx) × P c

  abbrev pub IsNode : (L → Type 0) → Massnode V L → Type 0
  IsNode P n =
      IsAscending n.slots
      × ((p : ℕ) (e : Slot V L) → get_elem? n.slots p ≡ some e → Fits P e.ikeylen e.lv)

  -- The slot has the value `v` for the key: it is not deleted, and agrees on length and suffix.
  abbrev pub Carries : (Massnode V L) → Slot V L → Key → V → Type 0
  Carries n e k v =
      (e.lv ≡ value v)
      × (0 < e.ikeylen)
      × (rank e.ikeylen ≡ rank (length k))
      × (ikey_size < length k → ksuf_of n e ≡ suffix k)

  -- The slot has a layer, and the key leads into it.
  abbrev pub InLayer : (L → Type 0) → LeafValue V L → Key → Type 0
  InLayer H lv k = (c : L) × (lv ≡ layer c) × (ikey_size < length k) × H c

module _ (V : Type 0) where
  abbrev pub IsWellFormed : (d : ℕ) → Trie V d → Type 0
  IsWellFormed zero t = ⊥
  IsWellFormed (suc d) t = IsNode (IsWellFormed d) t

  -- The trie has the value `v` under the key `k`: at a slot, or in the layer of a slot.
  abbrev pub Holds : (d : ℕ) → Trie V d → Key → V → Type 0
  Holds zero t k v = ⊥
  Holds (suc d) t k v =
      (p : ℕ) × (e : Slot V (Trie V d)) × (get_elem? t.slots p ≡ some e)
      × (e.ikey ≡ ikey k)
      × (Carries t e k v ⊎ InLayer (λ c. Holds d c (shift k) v) e.lv k)
