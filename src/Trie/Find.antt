-- ===== src/Trie/Find.antt =====
-- `find` returns, and its result is what the trie holds under the key.
use microbench.Common.{
  ℕ, zero, suc, ◌<◌, ◌≡◌, Option, none, some, get_elem?, arith, length, sym, ◌∙◌, inl, inr,
}
use microbench.Common.Run.{ok, Returns}
use mathlib.Core.Path.{subst}
use microbench.Key.{Key, ikey, shift, ikey_size}
use microbench.Key.Compare.{key_compare-eq, key_compare_same}
use microbench.Massnode.{LeafValue, layer, Slot, Massnode}
use microbench.Massnode.Order.{sign-eq_unique}
use microbench.Trie.{Trie, Step, absent, leaf, down, step, find}
use microbench.Trie.Holds.{Fits, IsNode, Carries, IsWellFormed, Holds}
use microbench.Trie.Round.{Explains, step-Explains, ksuf_equals_iff, Fits-value}

module _ {V L : Type 0} (P : L → Type 0) (n : Massnode V L) (k : Key) where
  -- A value that the node holds for the key stands at a slot that the round does not refuse.
  pub absent-no_value :
      IsNode P n
      → Explains n k absent
      → (p : ℕ) (e : Slot V L) (v : V) → get_elem? n.slots p ≡ some e
      → e.ikey ≡ ikey k
      → Carries n e k v
      → ⊥
  absent-no_value node ex p e v get same (is, pos, len, suf) =
      let zer = key_compare_same k e.ikey e.ikeylen same len in
      let (flat, refused) = ex p e get zer in
      let (w, isw, short) = Fits-value P e.ikeylen e.lv (node.1 p e get) flat in
      let match = (ksuf_equals_iff n k e zer short).1 suf in ground arith

  -- Nor does the node have a layer for it.
  pub absent-no_layer :
      IsNode P n
      → Explains n k absent
      → (p : ℕ) (e : Slot V L) (c : L) → get_elem? n.slots p ≡ some e
      → e.ikey ≡ ikey k
      → e.lv ≡ layer c
      → ikey_size < length k
      → ⊥
  absent-no_layer node ex p e c get same is long =
      let fits : (63 < e.ikeylen) × P c = subst (Fits P e.ikeylen) is (node.1 p e get) in
      let zer = key_compare_same k e.ikey e.ikeylen same (omega arith) in
      let (flat, refused) = ex p e get zer in absurd (ground arith)

  -- The slot of a `leaf` result carries its value for the key.
  pub leaf-Carries :
      (p : ℕ) (e : Slot V L)
      → IsNode P n
      → Explains n k (leaf p e)
      → (v : V) × (e.ikey ≡ ikey k) × Carries n e k v
  leaf-Carries p e node (get, zer, flat, valid, match) =
      let (v, is, short) = Fits-value P e.ikeylen e.lv (node.1 p e get) flat in
      let (same, len) = key_compare-eq k e.ikey e.ikeylen zer in
      (v, same, (is, ground arith, len, (ksuf_equals_iff n k e zer short).0 match))

  -- A `down` result is taken for keys with a suffix only, into a sound layer.
  pub down-layer :
      (p : ℕ) (e : Slot V L) (c : L)
      → IsNode P n
      → Explains n k (down p e c)
      → (e.ikey ≡ ikey k) × (ikey_size < length k) × P c
  down-layer p e c node (get, zer, deep, is) =
      let fits : (63 < e.ikeylen) × P c = subst (Fits P e.ikeylen) is (node.1 p e get) in
      let (same, len) = key_compare-eq k e.ikey e.ikeylen zer in (same, omega arith, fits.1)

pub layer_inj : {V L : Type 0} {c d : L} → ◌≡◌ {A = LeafValue V L} (layer c) (layer d) → c ≡ d
layer_inj h = cc

-- The abstract answer: the value that is stored, or nothing is stored.
abbrev pub Answers : (V : Type 0) (d : ℕ) → Trie V d → Key → Option V → Type 0
Answers V d t k (some v) = Holds V d t k v
Answers V d t k none = (v : V) → ¬ Holds V d t k v

module _ (V : Type 0) where
  pub absent-Holds :
      (d : ℕ) (t : Trie V (suc d)) (k : Key)
      → IsWellFormed V (suc d) t
      → Explains t k absent
      → (v : V) → ¬ Holds V (suc d) t k v
  absent-Holds d t k wf ex v (p, e, get, same, inl has) =
      absent-no_value (IsWellFormed V d) t k wf ex p e v get same has
  absent-Holds d t k wf ex v (p, e, get, same, inr (c, is, long, sub)) =
      absent-no_layer (IsWellFormed V d) t k wf ex p e c get same is long

  -- What the trie holds for a key that leads into a layer is held there.
  pub down-Holds :
      (d : ℕ) (t : Trie V (suc d)) (k : Key) (p : ℕ) (e : Slot V (Trie V d)) (c : Trie V d) (v : V)
      → IsWellFormed V (suc d) t
      → Explains t k (down p e c)
      → ¬ Holds V d c (shift k) v
      → ¬ Holds V (suc d) t k v
  down-Holds d t k p e c v wf ex missing (q, f, get, same, inl (is, pos, len, suf)) =
      let zer = key_compare_same k f.ikey f.ikeylen same len in
      let one = sign-eq_unique k t.slots wf.0 p q e f ex.0 get ex.1 zer in
      let eq : e ≡ f = ground (arith, rw one at ex.0) in cc (rw eq at ex.3)
  down-Holds d t k p e c v wf ex missing (q, f, get, same, inr (c', is, long, sub)) =
      let fits : (63 < f.ikeylen) × IsWellFormed V d c' =
        subst (Fits (IsWellFormed V d) f.ikeylen) is (wf.1 q f get) in
      let zer = key_compare_same k f.ikey f.ikeylen same (omega arith) in
      let one = sign-eq_unique k t.slots wf.0 p q e f ex.0 get ex.1 zer in
      let eq : e ≡ f = ground (arith, rw one at ex.0) in
      let eqc : c' ≡ c = layer_inj (sym is ∙ rw eq at ex.3) in missing (rw eqc at sub)

  lift :
      (d : ℕ) (t : Trie V (suc d)) (k : Key) (p : ℕ) (e : Slot V (Trie V d)) (c : Trie V d)
      → IsWellFormed V (suc d) t
      → Explains t k (down p e c)
      → e.ikey ≡ ikey k
      → ikey_size < length k
      → (r : Option V) → Answers V d c (shift k) r
      → Answers V (suc d) t k r
  lift d t k p e c wf ex same long (some v) answer = (p, e, ex.0, same, inr (c, ex.3, long, answer))
  lift d t k p e c wf ex same long none answer = λ v. down-Holds d t k p e c v wf ex (answer v)

  -- On a well-formed trie `find` ends without a fault. A value that it returns is stored under the
  -- key, and if it returns none, no value is stored under the key.
  pub find-Answers :
      (d : ℕ) (t : Trie V d) (k : Key)
      → IsWellFormed V d t
      → Returns (find V d t k) (Answers V d t k)
  unfolding find
  find-Answers zero t k wf = elim wf [ ]
  find-Answers (suc d) t k wf =
      let (s, run, ex) = step-Explains (IsWellFormed V d) t k wf in go s run ex (find-Answers d)
    where
      go :
          (s : Step V (Trie V d))
          → step t k ≡ ok s
          → Explains t k s
          → ((c : Trie V d) (j : Key)
              → IsWellFormed V d c
              → Returns (find V d c j) (Answers V d c j))
          → Returns (find V (suc d) t k) (Answers V (suc d) t k)
      go absent run ex deeper = (none, rw run, absent-Holds d t k wf ex)
      go (leaf p e) run ex deeper =
          let (v, same, has) = leaf-Carries (IsWellFormed V d) t k p e wf ex in
          (some v, rw (run, has.0), (p, e, ex.0, same, inl has))
      go (down p e c) run ex deeper =
          let (same, long, sub) = down-layer (IsWellFormed V d) t k p e c wf ex in
          let (r, found, answer) = deeper c (shift k) sub in
          (r, rw run found, lift d t k p e c wf ex same long r answer)
