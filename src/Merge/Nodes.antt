-- ===== src/Merge/Nodes.antt =====
-- `merge_nodes` as the relation of its loops, its short way of joining the arrays included.
use microbench.Common.{
  ℕ, zero, suc, ◌+◌, ◌-◌, ◌<◌, ◌≤◌, ◌≡◌, List, [], ◌∷◌, ◌++◌, map, length, true, Bool-cases, arith,
  refl, inl, inr, some, get_elem?, get_elem?-some, ltb, ltb→lt,
}
use microbench.Common.Run.{Returns}
use microbench.Massnode.{Slot, Massnode, nkeys}
use microbench.Massnode.Chains.{All, All-get, Ascending}
use microbench.Merge.{ready_slot, merge_nodes}
use microbench.Merge.Holds.{AreRegular}
use microbench.Merge.Slots.{Merged, rest_of_m, from_n, merge_slots-Merged}
use microbench.Merge.Union.{All-imp}

module _ {V L : Type 0} where
  -- The last slice of slots in order is the greatest.
  Ascending-last :
      (ns : List (Slot V L)) (i : ℕ) (l : Slot V L)
      → Ascending ns
      → length ns ≤ i + 1
      → get_elem? ns i ≡ some l
      → All (λ n. n.ikey ≤ l.ikey) ns
  Ascending-last [] i l asc end at = tt
  Ascending-last (n ∷ []) zero l asc end at = let same : n ≡ l = cc in (rw same (omega arith), tt)
  Ascending-last (n ∷ b ∷ ns) zero l asc end at = absurd (omega arith)
  Ascending-last (n ∷ ns) (suc i) l asc end at =
      let up = All-get _ ns i l asc.0 at in
      (omega (arith, up), Ascending-last ns i l asc.1 (omega arith) at)

  joined-Merged :
      (m : Slot V L) (ms ns : List (Slot V L))
      → All (λ n. n.ikey < m.ikey) ns
      → Merged (m ∷ ms) ns (map ready_slot (ns ++ (m ∷ ms)))
  joined-Merged m ms [] low = rest_of_m m ms
  joined-Merged m ms (n ∷ ns) low = from_n (inl low.0) (joined-Merged m ms ns low.1)

  module _ (G : L → Type 0) (d : ℕ) where
    -- On nodes that are well formed and not empty, `merge_nodes` does not fault.
    pub merge_nodes-Merged :
        (m n : Massnode V L)
        → m.has_ksuf ≡ true
        → n.has_ksuf ≡ true
        → 0 < nkeys m
        → 0 < nkeys n
        → AreRegular (suc d) G m.slots
        → AreRegular (suc d) G n.slots
        → Returns (merge_nodes m n) (λ r. (r.has_ksuf ≡ true) × Merged m.slots n.slots r.slots)
    unfolding merge_nodes
    merge_nodes-Merged m n km kn sm sn hm hn =
        let (l, last) = get_elem?-some n.slots (nkeys n - 1) (omega arith) in
        let (f, first) = get_elem?-some m.slots 0 sm in
        let (slots, run, der) =
          merge_slots-Merged G d (nkeys m + nkeys n) true m.slots n.slots (omega arith) hm.0 hn.0
            (inl refl) in
        elim (Bool-cases (ltb l.ikey f.ikey)) [
          | inl low ↦ (
            record { has_ksuf = true; slots = map ready_slot (n.slots ++ m.slots) },
            rw (km, last, first, low, kn) refl,
            (
              refl,
              joins m.slots n.slots l f first
                  (Ascending-last n.slots (nkeys n - 1) l hn.1 (omega arith) last) (ltb→lt _ _ low),
            ),
          )
          | inr high ↦ (
            record { has_ksuf = true; slots = slots },
            rw (km, last, first, high, kn, run) refl,
            (refl, der),
          )
        ]
      where
        joins :
            (ms ns : List (Slot V L)) (l f : Slot V L)
            → get_elem? ms 0 ≡ some f
            → All (λ n. n.ikey ≤ l.ikey) ns
            → l.ikey < f.ikey
            → Merged ms ns (map ready_slot (ns ++ ms))
        joins [] ns l f first below lt = absurd (cc)
        joins (m ∷ ms) ns l f first below lt =
            let same : m ≡ f = cc in
            joined-Merged m ms ns (All-imp ns (λ n le. rw same (omega (arith, le, lt))) below)
