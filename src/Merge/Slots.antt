-- ===== src/Merge/Slots.antt =====
-- The loops of `merge_nodes` as a relation, and that they end in it without a fault.
use microbench.Common.{
  ℕ, zero, suc, ◌+◌, ◌<◌, ◌≤◌, ◌≡◌, ◌⊎◌, List, [], ◌∷◌, map, length, true, false, Bool, ◌==◌, arith,
  refl, ◌∙◌, sym, inl, inr, Bool-cases, Ordering, Ordering-cases,
}
use microbench.Common.Run.{ok, Returns}
use microbench.Key.Compare.{rank, Before}
use microbench.Massnode.{LeafValue, value, layer, Slot}
use microbench.Massnode.Chains.{All}
use microbench.Merge.{Pending, meet, ready_slot, merge_slots, entry_order, keylenx_ikeylen}
use microbench.Merge.Holds.{Any, IsRegularSlot, IsRegular}
use microbench.Merge.Keys.{entry_order-lt, entry_order-gt, entry_order-eq}
use microbench.Merge.Meet.{meet-Meets}

module _ {V L : Type 0} where
  -- The slots of two nodes make those of a third.
  pub data Merged : List (Slot V L) → List (Slot V L) → List (Slot V (Pending V L)) → Type 0 where
    rest_of_n : (ns : List (Slot V L)) → Merged [] ns (map ready_slot ns)
    rest_of_m : (m : Slot V L) (ms : List (Slot V L)) → Merged (m ∷ ms) [] (map ready_slot (m ∷ ms))
    deleted :
        {m n : Slot V L} {ms ns : List (Slot V L)} {rs : List (Slot V (Pending V L))}
        → n.ikeylen ≡ 0
        → Merged (m ∷ ms) ns rs
        → Merged (m ∷ ms) (n ∷ ns) rs
    from_m :
        {m n : Slot V L} {ms ns : List (Slot V L)} {rs : List (Slot V (Pending V L))}
        → Before m.ikey m.ikeylen n.ikey n.ikeylen
        → Merged ms (n ∷ ns) rs
        → Merged (m ∷ ms) (n ∷ ns) (ready_slot m ∷ rs)
    from_n :
        {m n : Slot V L} {ms ns : List (Slot V L)} {rs : List (Slot V (Pending V L))}
        → Before n.ikey n.ikeylen m.ikey m.ikeylen
        → Merged (m ∷ ms) ns rs
        → Merged (m ∷ ms) (n ∷ ns) (ready_slot n ∷ rs)
    from_both :
        {m n : Slot V L} {e : Slot V (Pending V L)} {ms ns : List (Slot V L)}
        {rs : List (Slot V (Pending V L))}
        → m.ikey ≡ n.ikey
        → rank m.ikeylen ≡ rank n.ikeylen
        → 0 < n.ikeylen
        → meet m n ≡ ok e
        → Merged ms ns rs
        → Merged (m ∷ ms) (n ∷ ns) (e ∷ rs)

  -- Lists with no entries of one slice and length.
  abbrev pub AreApart : List (Slot V L) → List (Slot V L) → Type 0
  AreApart ms ns =
      (m n : Slot V L)
      → Any (λ e. e ≡ m) ms
      → Any (λ e. e ≡ n) ns
      → m.ikey ≡ n.ikey
      → rank m.ikeylen ≡ rank n.ikeylen
      → n.ikeylen ≡ 0

  AreApart-tail_m :
      (has_ksuf : Bool) (m : Slot V L) (ms ns : List (Slot V L))
      → (has_ksuf ≡ true) ⊎ AreApart (m ∷ ms) ns
      → (has_ksuf ≡ true) ⊎ AreApart ms ns
  AreApart-tail_m has_ksuf m ms ns (inl h) = inl h
  AreApart-tail_m has_ksuf m ms ns (inr h) = inr (λ a b p q. h a b (inr p) q)

  AreApart-tail_n :
      (has_ksuf : Bool) (n : Slot V L) (ms ns : List (Slot V L))
      → (has_ksuf ≡ true) ⊎ AreApart ms (n ∷ ns)
      → (has_ksuf ≡ true) ⊎ AreApart ms ns
  AreApart-tail_n has_ksuf n ms ns (inl h) = inl h
  AreApart-tail_n has_ksuf n ms ns (inr h) = inr (λ a b p q. h a b p (inr q))

module _ {V L : Type 0} (G : L → Type 0) (d : ℕ) where
  ikeylen_rank :
      (len : ℕ) (s : List ℕ) (lv : LeafValue V L)
      → IsRegular (suc d) G len s lv
      → (keylenx_ikeylen len ≡ rank len) × (rank (keylenx_ikeylen len) ≡ keylenx_ikeylen len)
  ikeylen_rank len s (value v) h = (omega (arith, h.0), omega (arith, h.0))
  ikeylen_rank len s (layer c) h = (omega (arith, h.0), omega (arith, h.0))

  abbrev order_of : Slot V L → Slot V L → Ordering
  order_of m n = entry_order m.ikey (keylenx_ikeylen m.ikeylen) n.ikey (keylenx_ikeylen n.ikeylen)

  module _ (m n : Slot V L) (hm : IsRegularSlot (suc d) G m) (hn : IsRegularSlot (suc d) G n) where
    order_of-lt : order_of m n ≡ Ordering.lt → Before m.ikey m.ikeylen n.ikey n.ikeylen
    order_of-lt h =
        let a = ikeylen_rank m.ikeylen m.ksuf m.lv hm in
        let b = ikeylen_rank n.ikeylen n.ksuf n.lv hn in
        ground (arith, entry_order-lt _ _ _ _ a.1 b.1 h)

    order_of-gt : order_of m n ≡ Ordering.gt → Before n.ikey n.ikeylen m.ikey m.ikeylen
    order_of-gt h =
        let a = ikeylen_rank m.ikeylen m.ksuf m.lv hm in
        let b = ikeylen_rank n.ikeylen n.ksuf n.lv hn in
        ground (arith, entry_order-gt _ _ _ _ a.1 b.1 h)

    order_of-eq : order_of m n ≡ Ordering.eq → (m.ikey ≡ n.ikey) × (rank m.ikeylen ≡ rank n.ikeylen)
    order_of-eq h =
        let a = ikeylen_rank m.ikeylen m.ksuf m.lv hm in
        let b = ikeylen_rank n.ikeylen n.ksuf n.lv hn in
        let (at, len) = entry_order-eq _ _ _ _ h in (at, sym a.0 ∙ len ∙ b.0)

  module _ (fuel : ℕ) (has_ksuf : Bool) (m n : Slot V L) (ms ns : List (Slot V L))
      (rs : List (Slot V (Pending V L))) where
    merge_slots-deleted :
        (n.ikeylen == 0) ≡ true
        → merge_slots fuel has_ksuf (m ∷ ms) ns ≡ ok rs
        → merge_slots (suc fuel) has_ksuf (m ∷ ms) (n ∷ ns) ≡ ok rs
    unfolding merge_slots
    merge_slots-deleted gone run = ground arith

    merge_slots-lt :
        (n.ikeylen == 0) ≡ false
        → order_of m n ≡ Ordering.lt
        → merge_slots fuel has_ksuf ms (n ∷ ns) ≡ ok rs
        → merge_slots (suc fuel) has_ksuf (m ∷ ms) (n ∷ ns) ≡ ok (ready_slot m ∷ rs)
    unfolding merge_slots
    merge_slots-lt live less run = rw (merge_slots, live, less, run) refl

    merge_slots-gt :
        (n.ikeylen == 0) ≡ false
        → order_of m n ≡ Ordering.gt
        → merge_slots fuel has_ksuf (m ∷ ms) ns ≡ ok rs
        → merge_slots (suc fuel) has_ksuf (m ∷ ms) (n ∷ ns) ≡ ok (ready_slot n ∷ rs)
    unfolding merge_slots
    merge_slots-gt live more run = rw (merge_slots, live, more, run) refl

    merge_slots-eq :
        (e : Slot V (Pending V L))
        → (n.ikeylen == 0) ≡ false
        → order_of m n ≡ Ordering.eq
        → has_ksuf ≡ true
        → meet m n ≡ ok e
        → merge_slots fuel has_ksuf ms ns ≡ ok rs
        → merge_slots (suc fuel) has_ksuf (m ∷ ms) (n ∷ ns) ≡ ok (e ∷ rs)
    unfolding merge_slots
    merge_slots-eq e live same suffixes met run =
        rw (merge_slots, live, same, run, suffixes, met) refl

  -- On slots that are well formed the loops end after at most as many rounds as there are slots, and
  -- without a fault, if the nodes have suffix arrays or no two entries of theirs that are not deleted
  -- agree on slice and length.
  pub merge_slots-Merged :
      (fuel : ℕ) (has_ksuf : Bool) (ms ns : List (Slot V L))
      → length ms + length ns ≤ fuel
      → All (IsRegularSlot (suc d) G) ms
      → All (IsRegularSlot (suc d) G) ns
      → (has_ksuf ≡ true) ⊎ AreApart ms ns
      → Returns (merge_slots fuel has_ksuf ms ns) (Merged ms ns)
  unfolding merge_slots
  merge_slots-Merged fuel has_ksuf [] ns enough hm hn meets =
      (map ready_slot ns, refl, rest_of_n ns)
  merge_slots-Merged fuel has_ksuf (m ∷ ms) [] enough hm hn meets =
      (map ready_slot (m ∷ ms), refl, rest_of_m m ms)
  merge_slots-Merged zero has_ksuf (m ∷ ms) (n ∷ ns) enough hm hn meets = absurd (omega arith)
  merge_slots-Merged (suc fuel) has_ksuf (m ∷ ms) (n ∷ ns) enough hm hn meets =
      elim (Bool-cases (n.ikeylen == 0)) [
        | inl gone ↦
            let (rs, run, der) =
              merge_slots-Merged fuel has_ksuf (m ∷ ms) ns (omega arith) hm hn.1
                (AreApart-tail_n has_ksuf n (m ∷ ms) ns meets) in
            (
              rs,
              merge_slots-deleted fuel has_ksuf m n ms ns rs gone run,
              deleted (ground arith) der,
            )
        | inr live ↦ elim (Ordering-cases (order_of m n)) [
          | inl less ↦
              let (rs, run, der) =
                merge_slots-Merged fuel has_ksuf ms (n ∷ ns) (omega arith) hm.1 hn
                  (AreApart-tail_m has_ksuf m ms (n ∷ ns) meets) in
              (
                ready_slot m ∷ rs,
                merge_slots-lt fuel has_ksuf m n ms ns rs live less run,
                from_m (order_of-lt m n hm.0 hn.0 less) der,
              )
          | inr (inr more) ↦
              let (rs, run, der) =
                merge_slots-Merged fuel has_ksuf (m ∷ ms) ns (omega arith) hm hn.1
                  (AreApart-tail_n has_ksuf n (m ∷ ms) ns meets) in
              (
                ready_slot n ∷ rs,
                merge_slots-gt fuel has_ksuf m n ms ns rs live more run,
                from_n (order_of-gt m n hm.0 hn.0 more) der,
              )
          | inr (inl same) ↦
              let (at, len) = order_of-eq m n hm.0 hn.0 same in
              let (rs, run, der) =
                merge_slots-Merged fuel has_ksuf ms ns (omega arith) hm.1 hn.1 (
                  AreApart-tail_m has_ksuf m ms ns
                    (AreApart-tail_n has_ksuf n (m ∷ ms) ns meets)) in
              let pos : 0 < n.ikeylen = ground arith in
              let (e, met, post) = meet-Meets (λ c k v. ⊥) G d m n at len hm.0 hn.0 pos in
              let suffixes = reads meets at len pos in
              (
                e ∷ rs,
                merge_slots-eq fuel has_ksuf m n ms ns rs e live same suffixes met run,
                from_both at len pos met der,
              )
        ]
      ]
    where
      reads :
          (has_ksuf ≡ true) ⊎ AreApart (m ∷ ms) (n ∷ ns)
          → m.ikey ≡ n.ikey
          → rank m.ikeylen ≡ rank n.ikeylen
          → 0 < n.ikeylen
          → has_ksuf ≡ true
      reads (inl h) at len pos = h
      reads (inr h) at len pos = absurd (omega (arith, h m n (inl refl) (inl refl) at len))
