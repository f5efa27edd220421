-- ===== src/Trie/Remove.antt =====
-- `remove` of hybrid_index/masstree_get.hh.
use microbench.Common.{
  ℕ, zero, suc, ◌<◌, ◌≡◌, ◌≢◌, ◌⊎◌, some, get_elem?, Ordering, arith, true, false, sym, ◌∙◌, inl,
  inr, Bool, refl, set, ap,
}
use mathlib.Core.Path.{subst}
use microbench.Common.Run.{ok, Returns}
use microbench.Key.{Key, shift}
use microbench.Key.Slice.{AreBytes, AreBytes-drop}
use microbench.Key.Compare.{key_compare_same}
use microbench.Massnode.{layer, Slot, set_lv, set_slot, invalidate}
use microbench.Massnode.Order.{sign, sign-eq_unique, IsAscending}
use microbench.Trie.{Trie, Step, absent, leaf, down, step, remove, put_layer}
use microbench.Trie.Holds.{Fits, IsWellFormed, Holds}
use microbench.Trie.Round.{Explains, step-Explains, Fits-layer}
use microbench.Trie.Find.{layer_inj, leaf-Carries, down-layer, absent-Holds, down-Holds}
use microbench.Trie.Others.{SameElsewhere, leaf-SameElsewhere, down-SameElsewhere, down_unchanged}
use microbench.Trie.Write.{SlotHolds, get_elem?-set}

-- In each node no two slots have the same slice. So it is when all keys are of one length.
abbrev pub HasDistinctSlices : (V : Type 0) (d : ℕ) → Trie V d → Type 0
HasDistinctSlices V zero t = ⊥
HasDistinctSlices V (suc d) t =
    ((i j : ℕ) (a b : Slot V (Trie V d))
      → i < j
      → get_elem? t.slots i ≡ some a
      → get_elem? t.slots j ≡ some b
      → a.ikey ≢ b.ikey)
    × ((p : ℕ) (e : Slot V (Trie V d)) (c : Trie V d)
        → get_elem? t.slots p ≡ some e
        → e.lv ≡ layer c
        → HasDistinctSlices V d c)

-- What a run of `remove` comes to.
abbrev pub Removed : (V : Type 0) (d : ℕ) → Trie V d → Key → Bool × Trie V d → Type 0
Removed V d t k (false, t') = (t' ≡ t) × ((v : V) → ¬ Holds V d t k v)
Removed V d t k (true, t') =
    (old : V) × Holds V d t k old
    × ((v : V) → ¬ Holds V d t' k v)
    × SameElsewhere V d t' t k
    × (HasDistinctSlices V d t → IsWellFormed V d t' × HasDistinctSlices V d t')

module _ (V : Type 0) (d : ℕ) (t : Trie V (suc d)) (p : ℕ) (e f : Slot V (Trie V d))
    (get : get_elem? t.slots p ≡ some e) (slice : f.ikey ≡ e.ikey)
    (distinct : HasDistinctSlices V (suc d) t) where
  -- A slot of the new node has the slice of the old slot at its index.
  old_slot :
      (i : ℕ) (a : Slot V (Trie V d))
      → get_elem? (set t.slots p f) i ≡ some a
      → (b : Slot V (Trie V d)) × (get_elem? t.slots i ≡ some b) × (b.ikey ≡ a.ikey)
  old_slot i a at = elim (get_elem?-set t.slots p i f a at) [
    | inl (pi, fa) ↦ (e, rw (← pi) get, sym slice ∙ ap (λ (s : Slot V (Trie V d)). s.ikey) fa)
    | inr (pi, was) ↦ (a, was, refl)
  ]

  -- Where slices are distinct the order does not look at the lengths.
  set-IsAscending : IsAscending t.slots → IsAscending (set t.slots p f)
  set-IsAscending asc i j a b lt at bt =
      let (a', at', sa) = old_slot i a at in
      let (b', bt', sb) = old_slot j b bt in
      ground (arith, asc i j a' b' lt at' bt', distinct.0 i j a' b' lt at' bt')

  set-HasDistinctSlices :
      ((c : Trie V d) → f.lv ≡ layer c → HasDistinctSlices V d c)
      → HasDistinctSlices V (suc d) (set_slot t p f)
  set-HasDistinctSlices below = (
    λ i j a b lt at bt same.
        let (a', at', sa) = old_slot i a at in
        let (b', bt', sb) = old_slot j b bt in distinct.0 i j a' b' lt at' bt' (sa ∙ same ∙ sym sb),
    λ q g c at is. deeper q g c is (get_elem?-set t.slots p q f g at),
  )
    where
      deeper :
          (q : ℕ) (g : Slot V (Trie V d)) (c : Trie V d)
          → g.lv ≡ layer c
          → ((p ≡ q) × (f ≡ g)) ⊎ ((p ≢ q) × (get_elem? t.slots q ≡ some g))
          → HasDistinctSlices V d c
      deeper q g c is (inl (pq, fg)) = below c (ap (λ (s : Slot V (Trie V d)). s.lv) fg ∙ is)
      deeper q g c is (inr (pq, was)) = distinct.1 q g c was is

  -- The same node is well formed if the new slot fits.
  set-IsWellFormed :
      IsWellFormed V (suc d) t
      → Fits (IsWellFormed V d) f.ikeylen f.lv
      → IsWellFormed V (suc d) (set_slot t p f)
  set-IsWellFormed wf fits =
      (set-IsAscending wf.0, λ q g at. fitting q g (get_elem?-set t.slots p q f g at))
    where
      fitting :
          (q : ℕ) (g : Slot V (Trie V d))
          → ((p ≡ q) × (f ≡ g)) ⊎ ((p ≢ q) × (get_elem? t.slots q ≡ some g))
          → Fits (IsWellFormed V d) g.ikeylen g.lv
      fitting q g (inl (pq, fg)) =
          subst (λ (s : Slot V (Trie V d)). Fits (IsWellFormed V d) s.ikeylen s.lv) fg fits
      fitting q g (inr (pq, was)) = wf.1 q g was

module _ (V : Type 0) (d : ℕ) (t : Trie V (suc d)) (k : Key) (bytes : AreBytes k)
    (wf : IsWellFormed V (suc d) t) where
  -- Once the slot that a key selects has nothing for it, the node has nothing for it.
  cleared :
      (p : ℕ) (e f : Slot V (Trie V d)) (v : V)
      → get_elem? t.slots p ≡ some e
      → sign k e ≡ Ordering.eq
      → ¬ SlotHolds V d t f k v
      → ¬ Holds V (suc d) (set_slot t p f) k v
  cleared p e f v get zer none_here (q, g, at, same, has) =
      go (get_elem?-set t.slots p q f g at) has
    where
      go :
          ((p ≡ q) × (f ≡ g)) ⊎ ((p ≢ q) × (get_elem? t.slots q ≡ some g)) → ¬ SlotHolds V d t g k v
      go (inl (pq, fg)) h =
          none_here (subst (λ (s : Slot V (Trie V d)). SlotHolds V d t s k v) (sym fg) h)
      go (inr (pq, was)) (inl (is, pos, len, suf)) = pq (
          sign-eq_unique k t.slots wf.0 p q e g get was zer
            (key_compare_same k g.ikey g.ikeylen same len))
      go (inr (pq, was)) (inr (c, is, long, h)) =
          let fits : (63 < g.ikeylen) × IsWellFormed V d c =
            subst (Fits (IsWellFormed V d) g.ikeylen) is (wf.1 q g was) in
          pq (
            sign-eq_unique k t.slots wf.0 p q e g get was zer
              (key_compare_same k g.ikey g.ikeylen same (omega arith)))

  layer_cleared :
      (f : Slot V (Trie V d)) (c : Trie V d) (v : V)
      → f.lv ≡ layer c
      → ¬ Holds V d c (shift k) v
      → ¬ SlotHolds V d t f k v
  layer_cleared f c v is missing (inl (isv, pos, len, suf)) = cc
  layer_cleared f c v is missing (inr (x, isx, long, h)) =
      let eq : x ≡ c = layer_inj (sym isx ∙ is) in missing (rw eq at h)

  -- A deleted slot has nothing for any key.
  deleted_other :
      (p : ℕ) (e : Slot V (Trie V d))
      → Explains t k (leaf p e)
      → (j : Key) (v : V) → ¬ SlotHolds V d t (invalidate e) j v
  unfolding invalidate
  deleted_other p e ex j v (inl (is, pos, len, suf)) = absurd (omega arith)
  deleted_other p e ex j v (inr (c, is, long, h)) =
      let (old, samek, has) = leaf-Carries (IsWellFormed V d) t k p e wf ex in cc (has.0, is)

  leaf-Removed :
      (p : ℕ) (e : Slot V (Trie V d))
      → Explains t k (leaf p e)
      → Removed V (suc d) t k (true, set_slot t p (invalidate e))
  unfolding invalidate
  leaf-Removed p e ex =
      let (old, same, has) = leaf-Carries (IsWellFormed V d) t k p e wf ex in
      let f : Slot V (Trie V d) = record e { ikeylen = 0 } in
      (
        old,
        (p, e, ex.0, same, inl has),
        λ v. cleared p e f v ex.0 ex.1 (deleted_other p e ex k v),
        leaf-SameElsewhere V d t k bytes wf p e ex f refl
            (λ j v hj differ samej. deleted_other p e ex j v),
        λ distinct. (
          set-IsWellFormed V d t p e f ex.0 refl distinct wf
              (subst (Fits (IsWellFormed V d) 0) (sym has.0) (omega arith)),
          set-HasDistinctSlices V d t p e f ex.0 refl distinct (λ c. distinct.1 p e c ex.0),
        ),
      )

  down-Removed :
      (p : ℕ) (e : Slot V (Trie V d)) (c : Trie V d) (r : Bool × Trie V d)
      → Explains t k (down p e c)
      → Removed V d c (shift k) r
      → Removed V (suc d) t k (put_layer V d t p e r)
  unfolding set_lv
  down-Removed p e c (false, c') ex (same, missing) = (
    down_unchanged V d t k bytes wf p e c ex c' same,
    λ v. down-Holds V d t k p e c v wf ex (missing v),
  )
  down-Removed p e c (true, c') ex (old, was, gone, others, keeps) =
      let (samek, long, sub) = down-layer (IsWellFormed V d) t k p e c wf ex in
      let (c₁, is, deep, rest) =
        Fits-layer (IsWellFormed V d) e.ikeylen e.lv (wf.1 p e ex.0) ex.2 in
      let f : Slot V (Trie V d) = record e { lv = layer c' } in
      (
        old,
        (p, e, ex.0, samek, inr (c, ex.3, long, was)),
        λ v. cleared p e f v ex.0 ex.1 (layer_cleared f c' v refl (gone v)),
        down-SameElsewhere V d t k bytes wf p e c ex c' others,
        λ distinct.
            let (sound, apart) = keeps (distinct.1 p e c ex.0 ex.3) in
            (
              set-IsWellFormed V d t p e f ex.0 refl distinct wf (deep, sound),
              set-HasDistinctSlices V d t p e f ex.0 refl distinct
                  (λ x is. rw (← layer_inj is) apart),
            ),
      )

module _ (V : Type 0) where
  -- For a key of bytes and a well-formed trie, `remove` ends without a fault. With success the trie
  -- held the key, holds nothing under it now, and is the same at every other key of bytes; and if no
  -- node had two slots with one slice, the trie is well formed as before. Without success it held
  -- nothing under the key and is unchanged.
  pub remove-Removed :
      (d : ℕ) (t : Trie V d) (k : Key)
      → AreBytes k
      → IsWellFormed V d t
      → Returns (remove V d t k) (Removed V d t k)
  unfolding remove
  remove-Removed zero t k bytes wf = elim wf [ ]
  remove-Removed (suc d) t k bytes wf =
      let (s, run, ex) = step-Explains (IsWellFormed V d) t k wf in go s run ex (remove-Removed d)
    where
      go :
          (s : Step V (Trie V d))
          → step t k ≡ ok s
          → Explains t k s
          → ((c : Trie V d) (j : Key)
              → AreBytes j
              → IsWellFormed V d c
              → Returns (remove V d c j) (Removed V d c j))
          → Returns (remove V (suc d) t k) (Removed V (suc d) t k)
      go absent run ex deeper = ((false, t), rw run, (refl, absent-Holds V d t k wf ex))
      go (leaf p e) run ex deeper =
          ((true, set_slot t p (invalidate e)), rw run, leaf-Removed V d t k bytes wf p e ex)
      go (down p e c) run ex deeper =
          let (same, long, sub) = down-layer (IsWellFormed V d) t k p e c wf ex in
          let (r, done, post) = deeper c (shift k) (AreBytes-drop 8 k bytes) sub in
          (put_layer V d t p e r, rw (run, done), down-Removed V d t k bytes wf p e c r ex post)
