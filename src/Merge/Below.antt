-- ===== src/Merge/Below.antt =====
-- What a slot holds as seen from the layer below it.
use microbench.Common.{ℕ, ◌<◌, ◌≡◌, ◌⊎◌, length, arith, refl, sym, ◌∙◌, inl, inr}
use mathlib.Core.Path.{subst}
use microbench.Key.{Key, ikey, ikey_size, shift}
use microbench.Key.Slice.{AreBytes, AreBytes-drop}
use microbench.Massnode.{LeafValue, value, layer, Slot}
use microbench.Merge.{Pending, ready, next_item, ready_slot, ready_lv, task_slot}
use microbench.Merge.Holds.{AreText, HoldsItem, HoldsValue, HoldsSlot, HoldsTask, Unites}
use microbench.Trie.Holds.{InLayer}
use microbench.Merge.Keys.{next_item-HoldsItem, HoldsItem-next_item}

module _ {V L : Type 0} (H : L → Key → V → Type 0) where
  ready_lv-value : (lv : LeafValue V L) (v : V) → ready_lv lv ≡ value v → lv ≡ value v
  unfolding ready_lv
  ready_lv-value (value w) v h = cc
  ready_lv-value (layer c) v h = cc

  ready_lv-layer :
      (lv : LeafValue V L) (p : Pending V L)
      → ready_lv lv ≡ layer p
      → (c : L) × (lv ≡ layer c) × (p ≡ ready c)
  unfolding ready_lv
  ready_lv-layer (value w) p h = cc
  ready_lv-layer (layer c) p h = (c, refl, cc)

  -- A copied slot holds what it held.
  pub HoldsSlot-ready :
      (e : Slot V L) (k : Key) (v : V)
      → HoldsSlot H e k v
      → HoldsSlot (HoldsTask H) (ready_slot e) k v
  unfolding ready_lv
  HoldsSlot-ready e k v (at, inl (is, live, len, suf)) = (at, inl (rw is, live, len, suf))
  HoldsSlot-ready e k v (at, inr (c, is, long, in_layer)) =
      (at, inr (ready c, rw is, long, in_layer))

  pub ready-HoldsSlot :
      (e : Slot V L) (k : Key) (v : V)
      → HoldsSlot (HoldsTask H) (ready_slot e) k v
      → HoldsSlot H e k v
  ready-HoldsSlot e k v (at, inl (is, live, len, suf)) =
      (at, inl (ready_lv-value e.lv v is, live, len, suf))
  ready-HoldsSlot e k v (at, inr (p, is, long, in_layer)) =
      let (c, was, eq) = ready_lv-layer e.lv p is in
      (at, inr (c, was, long, subst (λ q. HoldsTask H q (shift k) v) eq in_layer))

  -- `e` holds the keys of its slice that go on with one that `A` holds, and no others.
  abbrev pub Below : Slot V L → (Key → V → Type 0) → Type 0
  Below e A =
      ((k : Key) (v : V) → AreBytes k → HoldsSlot H e k v → (ikey_size < length k) × A (shift k) v)
      × ((k : Key) (v : V)
          → AreBytes k
          → e.ikey ≡ ikey k
          → ikey_size < length k
          → A (shift k) v
          → HoldsSlot H e k v)

  pub Below-layer : (e : Slot V L) (c : L) → e.lv ≡ layer c → Below e (H c)
  Below-layer e c is =
      (λ k v bytes h. into k v h.1, λ k v bytes at long h. (at, inr (c, is, long, h)))
    where
      into :
          (k : Key) (v : V)
          → HoldsValue e k v ⊎ InLayer (λ c. H c (shift k) v) e.lv k
          → (ikey_size < length k) × H c (shift k) v
      into k v (inl (has, live, len, suf)) = cc
      into k v (inr (b, has, long, h)) =
          let same : b ≡ c = cc in (long, subst (λ q. H q (shift k) v) same h)

  pub Below-value :
      (e : Slot V L) (w : V)
      → e.lv ≡ value w
      → e.ikeylen ≡ 9
      → 0 < length e.ksuf
      → AreText e.ksuf
      → Below e (HoldsItem (next_item w e.ksuf))
  Below-value e w is nine pos text =
      (λ k v bytes h. into k v h.1, λ k v bytes at long h. out k v bytes at long h)
    where
      into :
          (k : Key) (v : V)
          → HoldsValue e k v ⊎ InLayer (λ c. H c (shift k) v) e.lv k
          → (ikey_size < length k) × HoldsItem (next_item w e.ksuf) (shift k) v
      into k v (inr (b, has, long, h)) = cc
      into k v (inl (has, live, len, suf)) =
          let long : ikey_size < length k = omega (arith, nine, len) in
          let same : w ≡ v = cc in
          (
            long,
            subst (λ x. HoldsItem (next_item w e.ksuf) (shift k) x) same
                (subst (λ t. HoldsItem (next_item w e.ksuf) t w) (suf long)
                  (HoldsItem-next_item w e.ksuf pos)),
          )

      out :
          (k : Key) (v : V)
          → AreBytes k
          → e.ikey ≡ ikey k
          → ikey_size < length k
          → HoldsItem (next_item w e.ksuf) (shift k) v
          → HoldsSlot H e k v
      out k v bytes at long h =
          let (same, suf) =
            next_item-HoldsItem w e.ksuf (shift k) v (AreBytes-drop 8 k bytes) text h in
          (at, inl (rw same at is, omega arith, omega (arith, nine), λ l. suf))

  -- A slot that waits for a layer with the keys of two slots.
  pub task_slot-Unites :
      (m n : Slot V L) (A B : Key → V → Type 0) (len : ℕ) (p : Pending V L)
      → Below m A
      → Below n B
      → n.ikey ≡ m.ikey
      → ((k : Key) (v : V) → HoldsTask H p k v → A k v ⊎ B k v)
      → ((k : Key) (v : V) → A k v ⊎ B k v → HoldsTask H p k v)
      → Unites (HoldsSlot H m) (HoldsSlot H n) (HoldsSlot (HoldsTask H) (task_slot len n.ikey p))
  task_slot-Unites m n A B len p below_m below_n same from to =
      (λ k v bytes h. split k v bytes h.0 h.1, λ k v bytes h. (v, join k v bytes h))
    where
      place :
          (k : Key) (v : V)
          → AreBytes k
          → n.ikey ≡ ikey k
          → ikey_size < length k
          → A (shift k) v ⊎ B (shift k) v
          → HoldsSlot H m k v ⊎ HoldsSlot H n k v
      place k v bytes at long (inl a) = inl (below_m.1 k v bytes (sym same ∙ at) long a)
      place k v bytes at long (inr b) = inr (below_n.1 k v bytes at long b)

      split :
          (k : Key) (v : V)
          → AreBytes k
          → n.ikey ≡ ikey k
          → HoldsValue (task_slot len n.ikey p) k v
            ⊎ InLayer {V = V} (λ c. HoldsTask H c (shift k) v) (layer p) k
          → HoldsSlot H m k v ⊎ HoldsSlot H n k v
      split k v bytes at (inl (has, live, len, suf)) = cc
      split k v bytes at (inr (q, has, long, h)) =
          let is : q ≡ p = cc in
          place k v bytes at long (from (shift k) v (subst (λ t. HoldsTask H t (shift k) v) is h))

      join :
          (k : Key) (v : V)
          → AreBytes k
          → HoldsSlot H m k v ⊎ HoldsSlot H n k v
          → HoldsSlot (HoldsTask H) (task_slot len n.ikey p) k v
      join k v bytes (inl h) =
          let (long, a) = below_m.0 k v bytes h in
          (same ∙ h.0, inr (p, refl, long, to (shift k) v (inl a)))
      join k v bytes (inr h) =
          let (long, b) = below_n.0 k v bytes h in
          (h.0, inr (p, refl, long, to (shift k) v (inr b)))
