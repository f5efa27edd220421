-- ===== src/Merge/Keep.antt =====
-- What the loops of `merge_nodes` make of two nodes holds the keys of both.
use microbench.Common.{ℕ, suc, ◌≡◌, ◌⊎◌, List, [], ◌∷◌, map, arith, inl, inr}
use microbench.Key.{Key}
use microbench.Key.Slice.{AreBytes}
use microbench.Massnode.{LeafValue, value, layer, Slot}
use microbench.Massnode.Chains.{All}
use microbench.Merge.{Pending, ready_slot}
use microbench.Merge.Holds.{IsRegularSlot, IsRegular, HoldsSlot, HoldsAny, HoldsTask}
use microbench.Merge.Below.{HoldsSlot-ready, ready-HoldsSlot}
use microbench.Merge.Slots.{Merged, rest_of_n, rest_of_m, deleted, from_m, from_n, from_both}
use microbench.Merge.Union.{both-Meets}

module _ {V L : Type 0} (H : L → Key → V → Type 0) (k : Key) (v : V) where
  pub HoldsAny-ready :
      (slots : List (Slot V L))
      → HoldsAny H slots k v
      → HoldsAny (HoldsTask H) (map ready_slot slots) k v
  HoldsAny-ready [] h = h
  HoldsAny-ready (e ∷ slots) (inl h) = inl (HoldsSlot-ready H e k v h)
  HoldsAny-ready (e ∷ slots) (inr h) = inr (HoldsAny-ready slots h)

  pub ready-HoldsAny :
      (slots : List (Slot V L))
      → HoldsAny (HoldsTask H) (map ready_slot slots) k v
      → HoldsAny H slots k v
  ready-HoldsAny [] h = h
  ready-HoldsAny (e ∷ slots) (inl h) = inl (ready-HoldsSlot H e k v h)
  ready-HoldsAny (e ∷ slots) (inr h) = inr (ready-HoldsAny slots h)

in_rest_of_n : {M N S : Type 0} → M ⊎ N → M ⊎ (S ⊎ N)
in_rest_of_n (inl a) = inl a
in_rest_of_n (inr b) = inr (inr b)

in_rest_of_m : {M N R : Type 0} → M ⊎ N → (R ⊎ M) ⊎ N
in_rest_of_m (inl a) = inl (inr a)
in_rest_of_m (inr b) = inr b

in_first : {M N R S : Type 0} → R ⊎ S → (R ⊎ M) ⊎ (S ⊎ N)
in_first (inl a) = inl (inl a)
in_first (inr b) = inr (inl b)

in_rest : {M N R S : Type 0} → M ⊎ N → (R ⊎ M) ⊎ (S ⊎ N)
in_rest (inl h) = inl (inr h)
in_rest (inr h) = inr (inr h)

module _ {V L : Type 0} (H : L → Key → V → Type 0) (G : L → Type 0) (d : ℕ) where
  -- A deleted slot holds nothing.
  pub deleted_holds :
      (e : Slot V L)
      → IsRegularSlot (suc d) G e
      → e.ikeylen ≡ 0
      → (k : Key) (v : V) → HoldsSlot H e k v
      → ⊥
  deleted_holds e reg gone k v (at, inl (is, live, len, suf)) = omega (arith, live, gone)
  deleted_holds e reg gone k v (at, inr (c, is, long, h)) = long_slot e.lv reg is
    where
      long_slot : (lv : LeafValue V L) → IsRegular (suc d) G e.ikeylen e.ksuf lv → lv ≡ layer c → ⊥
      long_slot (value w) r as_layer = cc
      long_slot (layer b) r as_layer = omega (arith, gone, r.0)

  module _ (k : Key) (bytes : AreBytes k) where
    pub Merged-sound :
        {ms ns : List (Slot V L)} {rs : List (Slot V (Pending V L))}
        → Merged ms ns rs
        → All (IsRegularSlot (suc d) G) ms
        → All (IsRegularSlot (suc d) G) ns
        → (v : V) → HoldsAny (HoldsTask H) rs k v
        → HoldsAny H ms k v ⊎ HoldsAny H ns k v
    Merged-sound (rest_of_n ns) hm hn v h = inr (ready-HoldsAny H k v ns h)
    Merged-sound (rest_of_m m ms) hm hn v h = inl (ready-HoldsAny H k v (m ∷ ms) h)
    Merged-sound (deleted gone der) hm hn v h = in_rest_of_n (Merged-sound der hm hn.1 v h)
    Merged-sound (from_m {m = m} lt der) hm hn v (inl h) = inl (inl (ready-HoldsSlot H m k v h))
    Merged-sound (from_m lt der) hm hn v (inr h) = in_rest_of_m (Merged-sound der hm.1 hn v h)
    Merged-sound (from_n {n = n} lt der) hm hn v (inl h) = inr (inl (ready-HoldsSlot H n k v h))
    Merged-sound (from_n lt der) hm hn v (inr h) = in_rest_of_n (Merged-sound der hm hn.1 v h)
    Merged-sound (from_both {m = m} {n = n} {e = e} at len live run der) hm hn v (inl h) =
        in_first ((both-Meets H G d m n e hm.0 hn.0 at len live run).3.0 k v bytes h)
    Merged-sound (from_both at len live run der) hm hn v (inr h) =
        in_rest (Merged-sound der hm.1 hn.1 v h)

    after :
        (e : Slot V (Pending V L)) (rs : List (Slot V (Pending V L)))
        → (w : V) × HoldsAny (HoldsTask H) rs k w
        → (w : V) × HoldsAny (HoldsTask H) (e ∷ rs) k w
    after e rs (w, h) = (w, inr h)

    pub Merged-complete :
        {ms ns : List (Slot V L)} {rs : List (Slot V (Pending V L))}
        → Merged ms ns rs
        → All (IsRegularSlot (suc d) G) ms
        → All (IsRegularSlot (suc d) G) ns
        → (v : V) → HoldsAny H ms k v ⊎ HoldsAny H ns k v
        → (w : V) × HoldsAny (HoldsTask H) rs k w
    Merged-complete (rest_of_n ns) hm hn v (inl h) = elim h [ ]
    Merged-complete (rest_of_n ns) hm hn v (inr h) = (v, HoldsAny-ready H k v ns h)
    Merged-complete (rest_of_m m ms) hm hn v (inl h) = (v, HoldsAny-ready H k v (m ∷ ms) h)
    Merged-complete (rest_of_m m ms) hm hn v (inr h) = elim h [ ]
    Merged-complete (deleted gone der) hm hn v (inl h) = Merged-complete der hm hn.1 v (inl h)
    Merged-complete (deleted {n = n} gone der) hm hn v (inr (inl h)) =
        absurd (deleted_holds n hn.0 gone k v h)
    Merged-complete (deleted gone der) hm hn v (inr (inr h)) = Merged-complete der hm hn.1 v (inr h)
    Merged-complete (from_m {m = m} lt der) hm hn v (inl (inl h)) =
        (v, inl (HoldsSlot-ready H m k v h))
    Merged-complete (from_m lt der) hm hn v (inl (inr h)) =
        after _ _ (Merged-complete der hm.1 hn v (inl h))
    Merged-complete (from_m lt der) hm hn v (inr h) =
        after _ _ (Merged-complete der hm.1 hn v (inr h))
    Merged-complete (from_n lt der) hm hn v (inl h) =
        after _ _ (Merged-complete der hm hn.1 v (inl h))
    Merged-complete (from_n {n = n} lt der) hm hn v (inr (inl h)) =
        (v, inl (HoldsSlot-ready H n k v h))
    Merged-complete (from_n lt der) hm hn v (inr (inr h)) =
        after _ _ (Merged-complete der hm hn.1 v (inr h))
    Merged-complete (from_both {m = m} {n = n} {e = e} at len live run der) hm hn v (inl (inl h)) =
        let (w, there) = (both-Meets H G d m n e hm.0 hn.0 at len live run).3.1 k v bytes (inl h) in
        (w, inl there)
    Merged-complete (from_both {m = m} {n = n} {e = e} at len live run der) hm hn v (inr (inl h)) =
        let (w, there) = (both-Meets H G d m n e hm.0 hn.0 at len live run).3.1 k v bytes (inr h) in
        (w, inl there)
    Merged-complete (from_both at len live run der) hm hn v (inl (inr h)) =
        after _ _ (Merged-complete der hm.1 hn.1 v (inl h))
    Merged-complete (from_both at len live run der) hm hn v (inr (inr h)) =
        after _ _ (Merged-complete der hm.1 hn.1 v (inr h))
