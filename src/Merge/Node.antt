-- ===== src/Merge/Node.antt =====
-- The node of a merge with its layers made.
use microbench.Common.{ℕ, suc, ◌<◌, ◌≡◌, arith, List, true, length, refl}
use microbench.Common.Run.{Run, ok, Returns, ◌>>=◌}
use microbench.Key.{Key}
use microbench.Massnode.{Slot, Massnode}
use microbench.Merge.{Pending}
use microbench.Merge.Holds.{AreRegular, HoldsAny, HoldsTask, IsTask, Passes, Unites, Passes-trans}
use microbench.Merge.Keep.{Merged-sound, Merged-complete}
use microbench.Merge.Layers.{run_slots-AreMade}
use microbench.Merge.Slots.{Merged, rest_of_n, rest_of_m, deleted, from_m, from_n, from_both}
use microbench.Merge.Tries.{run_node}
use microbench.Merge.Union.{Merged-regular, Merged-Ascending}

pub run_node-bind :
    {V L M : Type 0} (run : L → Run M) (made : Run (Massnode V L)) (r : Massnode V L)
    (t : Massnode V M)
    → r.has_ksuf ≡ true
    → made ≡ ok r
    → run_node run (record { has_ksuf = true; slots = r.slots }) ≡ ok t
    → made >>= run_node run ≡ ok t
unfolding run_node
run_node-bind run made r t full is ran = rw (is, full) ran

Merged-nonempty :
    {V L : Type 0} {ms ns : List (Slot V L)} {rs : List (Slot V (Pending V L))}
    → Merged ms ns rs
    → 0 < length ms
    → 0 < length rs
Merged-nonempty (rest_of_n ns) some = absurd (omega arith)
Merged-nonempty (rest_of_m m ms) some = omega arith
Merged-nonempty (deleted gone der) some = Merged-nonempty der some
Merged-nonempty (from_m lt der) some = omega arith
Merged-nonempty (from_n lt der) some = omega arith
Merged-nonempty (from_both at len live run der) some = omega arith

module _ {V L M : Type 0} (run : Pending V L → Run M) (H : L → Key → V → Type 0)
    (K : M → Key → V → Type 0) (G : L → Type 0) (W : M → Type 0) (d : ℕ)
    (made : (p : Pending V L)
      → IsTask d G p
      → Returns (run p) (λ b. W b × Passes (HoldsTask H p) (K b))) where
  -- The node is well formed, and holds the keys of the two lists.
  abbrev pub IsUnion : List (Slot V L) → List (Slot V L) → Massnode V M → Type 0
  IsUnion ms ns t =
      (t.has_ksuf ≡ true)
      × (0 < length t.slots)
      × AreRegular (suc d) W t.slots
      × Unites (HoldsAny H ms) (HoldsAny H ns) (HoldsAny K t.slots)

  run_node-IsUnion :
      (ms ns : List (Slot V L)) (slots : List (Slot V (Pending V L)))
      → 0 < length slots
      → AreRegular (suc d) (IsTask d G) slots
      → Unites (HoldsAny H ms) (HoldsAny H ns) (HoldsAny (HoldsTask H) slots)
      → Returns (run_node run (record { has_ksuf = true; slots = slots })) (IsUnion ms ns)
  unfolding run_node
  run_node-IsUnion ms ns slots some reg unites =
      let (rs, ran, (reg_rs, len, above, passes)) =
        run_slots-AreMade run (HoldsTask H) K (IsTask d G) W (suc d) made slots reg in
      (
        record { has_ksuf = true; slots = rs },
        rw ran refl,
        (refl, omega (arith, len, some), reg_rs, Passes-trans _ _ _ unites passes),
      )

  -- The layers of a merged node are made without a fault, and the node is well formed.
  pub Merged-IsUnion :
      {ms ns : List (Slot V L)} {slots : List (Slot V (Pending V L))}
      → Merged ms ns slots
      → 0 < length ms
      → AreRegular (suc d) G ms
      → AreRegular (suc d) G ns
      → Returns (run_node run (record { has_ksuf = true; slots = slots })) (IsUnion ms ns)
  Merged-IsUnion {ms} {ns} {slots} der some hm hn =
      run_node-IsUnion ms ns slots (Merged-nonempty der some)
        (Merged-regular H G d der hm.0 hn.0, Merged-Ascending H G d der hm hn)
        (
          λ k v bytes. Merged-sound H G d k bytes der hm.0 hn.0 v,
          λ k v bytes. Merged-complete H G d k bytes der hm.0 hn.0 v,
        )
