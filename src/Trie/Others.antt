-- ===== src/Trie/Others.antt =====
-- What a write at the slot found for a key leaves alone.
use microbench.Common.{
  ℕ, suc, ◌≡◌, ◌≢◌, ◌↔◌, arith, sym, ◌∙◌, inl, inr, refl, ap, set, set-get_self,
}
use microbench.Key.{Key, ikey, shift}
use microbench.Key.Slice.{AreBytes, AreBytes-drop, key_unique}
use microbench.Massnode.{LeafValue, value, layer, Slot, set_lv, set_slot}
use microbench.Trie.{Trie, leaf, down}
use microbench.Trie.Holds.{IsWellFormed, Holds}
use microbench.Trie.Round.{Explains}
use microbench.Trie.Find.{layer_inj, leaf-Carries, down-layer}
use microbench.Trie.Write.{SlotHolds, write-Holds, Holds-write}

-- The tries hold the same values for every key but `k`.
abbrev pub SameElsewhere : (V : Type 0) (d : ℕ) → Trie V d → Trie V d → Key → Type 0
SameElsewhere V d t' t k =
    (j : Key) → AreBytes j → j ≢ k → (v : V) → Holds V d t' j v ↔ Holds V d t j v

module _ (V : Type 0) (d : ℕ) (t : Trie V (suc d)) (k : Key) (bytes : AreBytes k)
    (wf : IsWellFormed V (suc d) t) where
  module _ (p : ℕ) (e : Slot V (Trie V d)) (ex : Explains t k (leaf p e)) where
    -- At the slot found for `k` no other key has a value.
    leaf_other : (j : Key) (v : V) → AreBytes j → j ≢ k → e.ikey ≡ ikey j → ¬ SlotHolds V d t e j v
    leaf_other j v hj differ same (inl (is, pos, len, suf)) =
        let (old, samek, (isv, posk, lenk, sufk)) = leaf-Carries (IsWellFormed V d) t k p e wf ex in
        differ (
          key_unique j k hj bytes (sym same ∙ samek) (sym len ∙ lenk)
            (λ long. sym (suf (omega arith)) ∙ sufk long))
    leaf_other j v hj differ same (inr (c, is, long, h)) =
        let (old, samek, has) = leaf-Carries (IsWellFormed V d) t k p e wf ex in cc (has.0, is)

    -- A new slot there that has nothing for other keys either.
    pub leaf-SameElsewhere :
        (f : Slot V (Trie V d))
        → f.ikey ≡ e.ikey
        → ((j : Key) (v : V) → AreBytes j → j ≢ k → e.ikey ≡ ikey j → ¬ SlotHolds V d t f j v)
        → SameElsewhere V (suc d) (set_slot t p f) t k
    leaf-SameElsewhere f slice none_else j hj differ v = (
      write-Holds V d t p e f ex.0 slice j v (λ samej h. absurd (none_else j v hj differ samej h)),
      Holds-write V d t p e f ex.0 slice j v (λ samej h. absurd (leaf_other j v hj differ samej h)),
    )

    -- A new value at that slot is no other key's.
    pub value_other :
        (w : V) (j : Key) (v : V)
        → AreBytes j
        → j ≢ k
        → e.ikey ≡ ikey j
        → ¬ SlotHolds V d t (record e { lv = value w }) j v
    value_other w j v hj differ same (inl (is, pos, len, suf)) =
        let (old, samek, (isv, posk, lenk, sufk)) = leaf-Carries (IsWellFormed V d) t k p e wf ex in
        leaf_other j old hj differ same (inl (isv, pos, len, suf))
    value_other w j v hj differ same (inr (c, is, long, h)) = cc

  module _ (p : ℕ) (e : Slot V (Trie V d)) (c : Trie V d) (ex : Explains t k (down p e c)) where
    -- Another key that leads into the same layer differs below it.
    layer_other :
        (w w' : LeafValue V (Trie V d)) (a b : Trie V d) (j : Key) (v : V)
        → AreBytes j
        → j ≢ k
        → w ≡ layer a
        → w' ≡ layer b
        → (shift j ≢ shift k → Holds V d a (shift j) v → Holds V d b (shift j) v)
        → e.ikey ≡ ikey j
        → SlotHolds V d t (record e { lv = w }) j v
        → SlotHolds V d t (record e { lv = w' }) j v
    layer_other w w' a b j v hj differ isw isw' keep same (inl (is, pos, len, suf)) = cc
    layer_other w w' a b j v hj differ isw isw' keep same (inr (x, is, long, h)) =
        let (samek, longk, sub) = down-layer (IsWellFormed V d) t k p e c wf ex in
        let xa : x ≡ a = layer_inj (sym is ∙ isw) in
        inr (
          b,
          isw',
          long,
          keep (λ eq. differ (key_unique j k hj bytes (sym same ∙ samek) (omega arith) (λ _. eq)))
              (rw xa at h),
        )

    pub down-SameElsewhere :
        (c' : Trie V d)
        → SameElsewhere V d c' c (shift k)
        → SameElsewhere V (suc d) (set_slot t p (set_lv (layer c') e)) t k
    unfolding set_lv
    down-SameElsewhere c' others j hj differ v = (
      write-Holds V d t p e (record e { lv = layer c' }) ex.0 refl j v
          (layer_other (layer c') e.lv c' c j v hj differ refl ex.3
            (λ below. (others (shift j) (AreBytes-drop 8 j hj) below v).0)),
      Holds-write V d t p e (record e { lv = layer c' }) ex.0 refl j v
          (layer_other e.lv (layer c') c c' j v hj differ ex.3 refl
            (λ below. (others (shift j) (AreBytes-drop 8 j hj) below v).1)),
    )

    -- A layer that comes back as it was leaves the node as it was.
    pub down_unchanged :
        (c' : Trie V d) → c' ≡ c → ◌≡◌ {A = Trie V (suc d)} (set_slot t p (set_lv (layer c') e)) t
    unfolding set_lv
    down_unchanged c' same =
        ap (λ s. record t { slots = s })
          (ap (λ (a : Trie V d). set t.slots p (set_lv (layer a) e)) same
            ∙ ap (λ w. set t.slots p (record e { lv = w })) (sym ex.3)
            ∙ set-get_self t.slots p e ex.0)
