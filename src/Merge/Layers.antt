-- ===== src/Merge/Layers.antt =====
-- The layers of a node, made one after the other: the node keeps its order and its keys.
use microbench.Common.{ℕ, suc, ◌≡◌, List, [], ◌∷◌, refl, ap, length, inl, inr}
use mathlib.Core.Path.{subst}
use microbench.Common.Run.{Run, ok, Returns}
use microbench.Key.{Key, shift}
use microbench.Key.Slice.{AreBytes, AreBytes-drop}
use microbench.Massnode.{LeafValue, value, layer, Slot}
use microbench.Merge.Holds.{IsRegular, AreRegular, HoldsSlot, HoldsAny, Passes}
use microbench.Merge.Tries.{run_lv, run_slots}
use microbench.Merge.Union.{Above}

module _ {V L M : Type 0} (run : L → Run M) (H : L → Key → V → Type 0) (K : M → Key → V → Type 0)
    (G : L → Type 0) (W : M → Type 0) (d : ℕ)
    (made : (c : L) → G c → Returns (run c) (λ b. W b × Passes (H c) (K b))) where
  with_lv : {N : Type 0} → Slot V L → LeafValue V N → Slot V N
  with_lv e lv = record { ikeylen = e.ikeylen; ikey = e.ikey; lv = lv; ksuf = e.ksuf }

  Made : Slot V L → LeafValue V M → Type 0
  Made e lv =
      IsRegular d W e.ikeylen e.ksuf lv × Passes (HoldsSlot H e) (HoldsSlot K (with_lv e lv))

  run_lv-Made :
      (e : Slot V L) (lv : LeafValue V L)
      → e.lv ≡ lv
      → IsRegular d G e.ikeylen e.ksuf lv
      → Returns (run_lv run lv) (Made e)
  unfolding run_lv with_lv Made
  run_lv-Made e (value v) is reg =
      (value v, refl, (reg, (λ k w bytes h. back k w h, λ k w bytes h. (w, forth k w h))))
    where
      back : (k : Key) (w : V) → HoldsSlot K (with_lv e (value v)) k w → HoldsSlot H e k w
      back k w (at, inl (same, live, len, suf)) =
          let one : v ≡ w = cc in (at, inl (rw (is, one) refl, live, len, suf))
      back k w (at, inr (c, same, long, h)) = cc

      forth : (k : Key) (w : V) → HoldsSlot H e k w → HoldsSlot K (with_lv e (value v)) k w
      forth k w (at, inl (same, live, len, suf)) =
          let one : v ≡ w = cc in (at, inl (rw one refl, live, len, suf))
      forth k w (at, inr (c, same, long, h)) = cc
  run_lv-Made e (layer c) is reg =
      let (b, ran, (good, passes)) = made c reg.2 in
      (
        layer b,
        rw ran refl,
        (
          (reg.0, reg.1, good),
          (λ k w bytes h. back b passes k w bytes h, λ k w bytes h. forth b passes k w bytes h),
        ),
      )
    where
      back :
          (b : M)
          → Passes (H c) (K b)
          → (k : Key) (w : V) → AreBytes k
          → HoldsSlot K (with_lv e (layer b)) k w
          → HoldsSlot H e k w
      back b passes k w bytes (at, inl (same, live, len, suf)) = cc
      back b passes k w bytes (at, inr (q, same, long, h)) =
          let one : q ≡ b = cc in
          let inside = subst (λ t. K t (shift k) w) one h in
          (at, inr (c, is, long, passes.0 (shift k) w (AreBytes-drop 8 k bytes) inside))

      forth :
          (b : M)
          → Passes (H c) (K b)
          → (k : Key) (w : V) → AreBytes k
          → HoldsSlot H e k w
          → (u : V) × HoldsSlot K (with_lv e (layer b)) k u
      forth b passes k w bytes (at, inl (same, live, len, suf)) = cc
      forth b passes k w bytes (at, inr (q, same, long, h)) =
          let one : q ≡ c = cc in
          let inside = subst (λ t. H t (shift k) w) one h in
          let (u, there) = passes.1 (shift k) w (AreBytes-drop 8 k bytes) inside in
          (u, (at, inr (b, refl, long, there)))

  -- All slots are made, and each keeps its place.
  abbrev pub AreMade : List (Slot V L) → List (Slot V M) → Type 0
  AreMade es rs =
      AreRegular d W rs
      × (length rs ≡ length es)
      × ((i x : ℕ) → Above i x es → Above i x rs)
      × Passes (HoldsAny H es) (HoldsAny K rs)

  run_cons :
      (e : Slot V L) (es : List (Slot V L)) (lv : LeafValue V M) (rs : List (Slot V M))
      → run_lv run e.lv ≡ ok lv
      → run_slots run es ≡ ok rs
      → run_slots run (e ∷ es) ≡ ok (with_lv e lv ∷ rs)
  unfolding run_slots with_lv
  run_cons e es lv rs first rest = rw (first, rest) refl

  pub run_slots-AreMade :
      (es : List (Slot V L)) → AreRegular d G es → Returns (run_slots run es) (AreMade es)
  unfolding run_slots with_lv Made
  run_slots-AreMade [] reg =
      ([], refl, (reg, refl, (λ i x h. h), (λ k v bytes h. elim h [ ], λ k v bytes h. elim h [ ])))
  run_slots-AreMade (e ∷ es) (reg, asc) =
      let (lv, first, (reg_e, passes_e)) = run_lv-Made e e.lv refl reg.0 in
      let (rs, rest, ((reg_rs, asc_rs), len, above, passes)) =
        run_slots-AreMade es (reg.1, asc.1) in
      (
        with_lv e lv ∷ rs,
        run_cons e es lv rs first rest,
        (
          ((reg_e, reg_rs), (above e.ikey e.ikeylen asc.0, asc_rs)),
          ap suc len,
          (λ i x h. (h.0, above i x h.1)),
          (
            λ k v bytes h. back lv rs passes_e passes k v bytes h,
            λ k v bytes h. forth lv rs passes_e passes k v bytes h,
          ),
        ),
      )
    where
      back :
          (lv : LeafValue V M) (rs : List (Slot V M))
          → Passes (HoldsSlot H e) (HoldsSlot K (with_lv e lv))
          → Passes (HoldsAny H es) (HoldsAny K rs)
          → (k : Key) (v : V) → AreBytes k
          → HoldsAny K (with_lv e lv ∷ rs) k v
          → HoldsAny H (e ∷ es) k v
      back lv rs p q k v bytes (inl h) = inl (p.0 k v bytes h)
      back lv rs p q k v bytes (inr h) = inr (q.0 k v bytes h)

      forth :
          (lv : LeafValue V M) (rs : List (Slot V M))
          → Passes (HoldsSlot H e) (HoldsSlot K (with_lv e lv))
          → Passes (HoldsAny H es) (HoldsAny K rs)
          → (k : Key) (v : V) → AreBytes k
          → HoldsAny H (e ∷ es) k v
          → (u : V) × HoldsAny K (with_lv e lv ∷ rs) k u
      forth lv rs p q k v bytes (inl h) = let (u, there) = p.1 k v bytes h in (u, inl there)
      forth lv rs p q k v bytes (inr h) = let (u, there) = q.1 k v bytes h in (u, inr there)
