-- ===== src/Build/Whole.antt =====
-- The slots that `buildStatic` makes of well-formed slots: they are well formed, and hold the static
-- values of the rows.
use microbench.Common.{
  ℕ, suc, ◌≡◌, ◌↔◌, List, [], ◌∷◌, length, true, false, arith, refl, inl, inr, sym, ◌∙◌, ap,
}
use mathlib.Core.Path.{subst}
use microbench.Common.Run.{Run, ok, Returns, ok_inj}
use microbench.Key.{Key, shift}
use microbench.Massnode.{LeafValue, value, layer, Slot, keylenx_is_layer}
use microbench.Massnode.Chains.{All, Ascending, Precedes}
use microbench.Merge.Holds.{IsRegular, IsRegularSlot, HoldsAny, HoldsSlot}
use microbench.Build.{new_slot}
use microbench.Build.Convert.{static_lv, static_slots}
use microbench.Build.Holds.{HasValue}

module _ {R V : Type 0} (static_value : R → Run V) where
  -- The keys of a trie are those of a tree, with the static values of its rows.
  abbrev pub Mirrors : (Key → R → Type 0) → (Key → V → Type 0) → Type 0
  Mirrors A C = (k : Key) (v : V) → C k v ↔ ((row : R) × A k row × (static_value row ≡ ok v))

  module _ {L M : Type 0} (H : L → Key → R → Type 0) (K : M → Key → V → Type 0) where
    -- A slot and what is made of it.
    abbrev pub MirrorsLv : LeafValue R L → LeafValue V M → Type 0
    MirrorsLv (value row) (value v) = static_value row ≡ ok v
    MirrorsLv (value row) (layer b) = ⊥
    MirrorsLv (layer c) (value v) = ⊥
    MirrorsLv (layer c) (layer b) = Mirrors (H c) (K b)

    abbrev pub MirrorsSlot : Slot R L → Slot V M → Type 0
    MirrorsSlot e s = (lv : LeafValue V M) × (s ≡ new_slot true e lv) × MirrorsLv e.lv lv

    abbrev pub MirrorsSlots : List (Slot R L) → List (Slot V M) → Type 0
    MirrorsSlots [] [] = Unit
    MirrorsSlots [] (s ∷ slots) = ⊥
    MirrorsSlots (e ∷ es) [] = ⊥
    MirrorsSlots (e ∷ es) (s ∷ slots) = MirrorsSlot e s × MirrorsSlots es slots

    mirror_there :
        (k : Key) (v : V) (len i : ℕ) (s : List ℕ) (lv : LeafValue R L) (lv' : LeafValue V M)
        → MirrorsLv lv lv'
        → HoldsSlot K (record { ikeylen = len; ikey = i; lv = lv'; ksuf = s }) k v
        → (row : R) × HoldsSlot H (record { ikeylen = len; ikey = i; lv = lv; ksuf = s }) k row
          × (static_value row ≡ ok v)
    mirror_there k v len i s (value row) (value w) same (at, inl (is, live, len_same, suf)) =
        (row, (at, inl (refl, live, len_same, suf)), (let e : w ≡ v = cc in rw (← e) same))
    mirror_there k v len i s (value row) (value w) same (at, inr deep) = absurd (cc (deep.1))
    mirror_there k v len i s (value row) (layer b) same h = elim same [ ]
    mirror_there k v len i s (layer c) (value w) same h = elim same [ ]
    mirror_there k v len i s (layer c) (layer b) same (at, inl has) = absurd (cc (has.0))
    mirror_there k v len i s (layer c) (layer b) same (at, inr (b', is, long, h)) =
        let e : b' ≡ b = cc in
        let (row, has, val) = (same (shift k) v).0 (subst (λ x. K x (shift k) v) e h) in
        (row, (at, inr (c, refl, long, has)), val)

    mirror_back :
        (k : Key) (v : V) (len i : ℕ) (s : List ℕ) (lv : LeafValue R L) (lv' : LeafValue V M)
        (row : R)
        → MirrorsLv lv lv'
        → HoldsSlot H (record { ikeylen = len; ikey = i; lv = lv; ksuf = s }) k row
        → static_value row ≡ ok v
        → HoldsSlot K (record { ikeylen = len; ikey = i; lv = lv'; ksuf = s }) k v
    mirror_back k v len i s (value q) (value w) row same (at, inl (is, live, len_same, suf)) val =
        let e : q ≡ row = cc in
        let f : w ≡ v = ok_inj (sym same ∙ (rw e val)) in
        (at, inl (ap value f, live, len_same, suf))
    mirror_back k v len i s (value q) (value w) row same (at, inr deep) val = absurd (cc (deep.1))
    mirror_back k v len i s (value q) (layer b) row same h val = elim same [ ]
    mirror_back k v len i s (layer c) (value w) row same h val = elim same [ ]
    mirror_back k v len i s (layer c) (layer b) row same (at, inl has) val = absurd (cc (has.0))
    mirror_back k v len i s (layer c) (layer b) row same (at, inr (c', is, long, h)) val =
        let e : c' ≡ c = cc in
        (
          at,
          inr (b, refl, long, (same (shift k) v).1 (row, subst (λ x. H x (shift k) row) e h, val)),
        )

    mirror_slot :
        (k : Key) (v : V) (e : Slot R L) (s : Slot V M)
        → MirrorsSlot e s
        → HoldsSlot K s k v ↔ ((row : R) × HoldsSlot H e k row × (static_value row ≡ ok v))
    mirror_slot k v e s (lv, is, same) = (
      λ h.
          mirror_there k v e.ikeylen e.ikey e.ksuf e.lv lv same
            (subst (λ x. HoldsSlot K x k v) is h),
      λ (row, h, val).
          subst (λ x. HoldsSlot K x k v) (sym is)
            (mirror_back k v e.ikeylen e.ikey e.ksuf e.lv lv row same h val),
    )

    pub mirror_any :
        (k : Key) (v : V) (es : List (Slot R L)) (slots : List (Slot V M))
        → MirrorsSlots es slots
        → HoldsAny K slots k v ↔ ((row : R) × HoldsAny H es k row × (static_value row ≡ ok v))
    mirror_any k v [] [] same = (λ h. elim h [ ], λ (row, h, val). elim h [ ])
    mirror_any k v [] (s ∷ slots) same = elim same [ ]
    mirror_any k v (e ∷ es) [] same = elim same [ ]
    mirror_any k v (e ∷ es) (s ∷ slots) (one, more) =
        let first = mirror_slot k v e s one in
        let rest = mirror_any k v es slots more in
        (
          λ h. elim h [
            | inl g ↦ let (row, has, val) = first.0 g in (row, inl has, val)
            | inr g ↦ let (row, has, val) = rest.0 g in (row, inr has, val)
          ],
          λ (row, h, val). elim h [
            | inl g ↦ inl (first.1 (row, g, val))
            | inr g ↦ inr (rest.1 (row, g, val))
          ],
        )

    mirror-Precedes :
        (e : Slot R L) (s : Slot V M) (es : List (Slot R L)) (slots : List (Slot V M))
        → MirrorsSlot e s
        → MirrorsSlots es slots
        → All (Precedes e) es
        → All (Precedes s) slots
    mirror-Precedes e s [] [] one same h = tt
    mirror-Precedes e s [] (x ∷ slots) one same h = elim same [ ]
    mirror-Precedes e s (a ∷ es) [] one same h = elim same [ ]
    mirror-Precedes e s (a ∷ es) (x ∷ slots) one (next, same) h =
        (rw (one.1, next.1) (h.0), mirror-Precedes e s es slots one same h.1)

    pub mirror-Ascending :
        (es : List (Slot R L)) (slots : List (Slot V M))
        → MirrorsSlots es slots
        → Ascending es
        → Ascending slots
    mirror-Ascending [] [] same h = tt
    mirror-Ascending [] (s ∷ slots) same h = elim same [ ]
    mirror-Ascending (e ∷ es) [] same h = elim same [ ]
    mirror-Ascending (e ∷ es) (s ∷ slots) (one, same) h =
        (mirror-Precedes e s es slots one same h.0, mirror-Ascending es slots same h.1)

    pub mirror_length :
        (es : List (Slot R L)) (slots : List (Slot V M))
        → MirrorsSlots es slots
        → length slots ≡ length es
    mirror_length [] [] same = refl
    mirror_length [] (s ∷ slots) same = elim same [ ]
    mirror_length (e ∷ es) [] same = elim same [ ]
    mirror_length (e ∷ es) (s ∷ slots) (one, same) = ap suc (mirror_length es slots same)

    -- A slot is converted if its layer is.
    module _ (d : ℕ) (G : L → Type 0) (Good : M → Type 0) (convert : L → Run M)
        (below : (c : L) → G c → Returns (convert c) (λ b. Good b × Mirrors (H c) (K b))) where
      static_lv-Mirrors :
          (len : ℕ) (s : List ℕ) (lv : LeafValue R L)
          → IsRegular d G len s lv
          → HasValue static_value lv
          → Returns
              (static_lv static_value true (λ n. true) convert (keylenx_is_layer len) lv)
              (λ lv'. MirrorsLv lv lv' × IsRegular d Good len s lv')
      unfolding static_lv
      static_lv-Mirrors len s (value row) reg (v, has) =
          let flat : keylenx_is_layer len ≡ false = ground (arith, reg.0) in
          (value v, rw (flat, has) refl, (has, reg))
      static_lv-Mirrors len s (layer c) reg has =
          let deep : keylenx_is_layer len ≡ true = ground (arith, reg.0) in
          let (b, run, (good, same)) = below c reg.2 in
          (layer b, rw (deep, run) refl, (same, (reg.0, reg.1, good)))

      pub static_slots-Mirrors :
          (es : List (Slot R L))
          → All (IsRegularSlot d G) es
          → All (λ e. HasValue static_value e.lv) es
          → Returns
              (static_slots static_value true (λ n. true) convert es)
              (λ slots. MirrorsSlots es slots × All (IsRegularSlot d Good) slots)
      unfolding static_slots
      static_slots-Mirrors [] reg has = ([], refl, (tt, tt))
      static_slots-Mirrors (e ∷ es) reg has =
          let (lv, run, (same, good)) = static_lv-Mirrors e.ikeylen e.ksuf e.lv reg.0 has.0 in
          let (slots, runs, (sames, goods)) = static_slots-Mirrors es reg.1 has.1 in
          (
            new_slot true e lv ∷ slots,
            rw (run, runs) refl,
            (((lv, refl, same), sames), (good, goods)),
          )
