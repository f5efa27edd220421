-- ===== src/Trie/Single.antt =====
-- A well-formed trie has at most one value under a key.
use microbench.Common.{
  ℕ, zero, suc, ◌<◌, ◌≡◌, ◌⊎◌, some, get_elem?, Ordering, arith, inl, inr, sym, ◌∙◌, ap,
}
use mathlib.Core.Path.{subst}
use microbench.Key.{Key, ikey, shift}
use microbench.Key.Compare.{key_compare_same}
use microbench.Massnode.{Slot, LeafValue, value}
use microbench.Massnode.Order.{sign, sign-eq_unique}
use microbench.Trie.{Trie}
use microbench.Trie.Find.{layer_inj}
use microbench.Trie.Holds.{Fits, Carries, InLayer, IsWellFormed, Holds}

value_inj : {V L : Type 0} {v w : V} → ◌≡◌ {A = LeafValue V L} (value v) (value w) → v ≡ w
value_inj h = cc

module _ (V : Type 0) where
  holder_sign :
      (d : ℕ) (t : Trie V (suc d)) (k : Key) (v : V) (p : ℕ) (e : Slot V (Trie V d))
      → IsWellFormed V (suc d) t
      → get_elem? t.slots p ≡ some e
      → e.ikey ≡ ikey k
      → Carries t e k v ⊎ InLayer (λ c. Holds V d c (shift k) v) e.lv k
      → sign k e ≡ Ordering.eq
  holder_sign d t k v p e wf get same (inl (is, live, len, suf)) =
      key_compare_same k e.ikey e.ikeylen same len
  holder_sign d t k v p e wf get same (inr (c, is, long, h)) =
      let fits : (63 < e.ikeylen) × IsWellFormed V d c =
        subst (Fits (IsWellFormed V d) e.ikeylen) is (wf.1 p e get) in
      key_compare_same k e.ikey e.ikeylen same (omega arith)

  pub Holds-unique :
      (d : ℕ) (t : Trie V d) (k : Key) (v w : V)
      → IsWellFormed V d t
      → Holds V d t k v
      → Holds V d t k w
      → v ≡ w
  Holds-unique zero t k v w wf a b = elim wf [ ]
  Holds-unique (suc d) t k v w wf (p, e, get, same, x) (q, f, get', same', y) =
      let zer = holder_sign d t k v p e wf get same x in
      let zer' = holder_sign d t k w q f wf get' same' y in
      let one = sign-eq_unique k t.slots wf.0 p q e f get get' zer zer' in
      let eq : e ≡ f = ground (arith, rw one at get) in
      at_slot eq (λ c. Holds-unique d c (shift k) v w) x y
    where
      at_slot :
          e ≡ f
          → ((c : Trie V d)
              → IsWellFormed V d c
              → Holds V d c (shift k) v
              → Holds V d c (shift k) w
              → v ≡ w)
          → Carries t e k v ⊎ InLayer (λ c. Holds V d c (shift k) v) e.lv k
          → Carries t f k w ⊎ InLayer (λ c. Holds V d c (shift k) w) f.lv k
          → v ≡ w
      at_slot eq below (inl (is, live, len, suf)) (inl (is', live', len', suf')) =
          value_inj (sym is ∙ ap (λ (s : Slot V (Trie V d)). s.lv) eq ∙ is')
      at_slot eq below (inl (is, live, len, suf)) (inr (c, is', long, h)) =
          cc (sym is ∙ ap (λ (s : Slot V (Trie V d)). s.lv) eq ∙ is')
      at_slot eq below (inr (c, is, long, h)) (inl (is', live', len', suf')) =
          cc (sym is ∙ ap (λ (s : Slot V (Trie V d)). s.lv) eq ∙ is')
      at_slot eq below (inr (c, is, long, h)) (inr (b, is', long', h')) =
          let fits : (63 < e.ikeylen) × IsWellFormed V d c =
            subst (Fits (IsWellFormed V d) e.ikeylen) is (wf.1 p e get) in
          let same_layer : c ≡ b =
            layer_inj (sym is ∙ ap (λ (s : Slot V (Trie V d)). s.lv) eq ∙ is') in
          below c fits.1 h (subst (λ x. Holds V d x (shift k) w) (sym same_layer) h')
