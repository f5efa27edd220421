-- ===== src/Merge/Union.antt =====
-- What the loops of `merge_nodes` make of two nodes: a node in order, with the keys of both.
use microbench.Common.{ℕ, suc, ◌<◌, ◌≡◌, List, [], ◌∷◌, map, arith, ◌∙◌, sym}
use mathlib.Core.Path.{subst}
use microbench.Common.Run.{ok}
use microbench.Key.{Key}
use microbench.Key.Compare.{rank, Before, Before-trans}
use microbench.Massnode.{LeafValue, value, layer, Slot}
use microbench.Massnode.Chains.{All, Ascending}
use microbench.Merge.{Pending, meet, ready_slot, ready_lv}
use microbench.Merge.Holds.{IsRegularSlot, IsRegular, AreRegular, IsTask}
use microbench.Merge.Meet.{meet-Meets}
use microbench.Merge.Values.{Meets}
use microbench.Merge.Slots.{Merged, rest_of_n, rest_of_m, deleted, from_m, from_n, from_both}

pub All-imp :
    {A : Type 0} {P Q : A → Type 0} (xs : List A) → ((x : A) → P x → Q x) → All P xs → All Q xs
All-imp [] f h = h
All-imp (x ∷ xs) f h = (f x h.0, All-imp xs f h.1)

pub All-map :
    {A B : Type 0} (P : B → Type 0) (f : A → B) (xs : List A)
    → All (λ x. P (f x)) xs
    → All P (map f xs)
All-map P f [] h = h
All-map P f (x ∷ xs) h = (h.0, All-map P f xs h.1)

module _ {V L : Type 0} where
  -- The slots come after the given slice and length.
  abbrev pub Above : ℕ → ℕ → List (Slot V L) → Type 0
  Above i x = All (λ e. Before i x e.ikey e.ikeylen)

  pub Above-trans :
      (i x j y : ℕ) (slots : List (Slot V L)) → Before i x j y → Above j y slots → Above i x slots
  Above-trans i x j y slots lt h =
      All-imp slots (λ e up. Before-trans i x j y e.ikey e.ikeylen lt up) h

  pub Ascending-ready :
      (slots : List (Slot V L)) → Ascending slots → Ascending (map ready_slot slots)
  Ascending-ready [] h = h
  Ascending-ready (e ∷ slots) h = (All-map _ ready_slot slots h.0, Ascending-ready slots h.1)

-- A slot of the same slice and length in place of another.
Before-same_right : (i x j y k z : ℕ) → k ≡ j → rank z ≡ rank y → Before i x j y → Before i x k z
Before-same_right i x j y k z at len lt = ground arith

Before-same_left : (i x j y k z : ℕ) → k ≡ i → rank z ≡ rank x → Before i x j y → Before k z j y
Before-same_left i x j y k z at len lt = ground arith

module _ {V L : Type 0} (H : L → Key → V → Type 0) (G : L → Type 0) (d : ℕ) where
  pub both-Meets :
      (m n : Slot V L) (e : Slot V (Pending V L))
      → IsRegularSlot (suc d) G m
      → IsRegularSlot (suc d) G n
      → m.ikey ≡ n.ikey
      → rank m.ikeylen ≡ rank n.ikeylen
      → 0 < n.ikeylen
      → meet m n ≡ ok e
      → Meets H G d m n e
  both-Meets m n e hm hn at len live run =
      let (f, met, post) = meet-Meets H G d m n at len hm hn live in
      let same : f ≡ e = cc in subst (Meets H G d m n) same post

  ready-IsRegular :
      (len : ℕ) (s : List ℕ) (lv : LeafValue V L)
      → IsRegular (suc d) G len s lv
      → IsRegular (suc d) (IsTask d G) len s (ready_lv lv)
  unfolding ready_lv
  ready-IsRegular len s (value v) h = h
  ready-IsRegular len s (layer c) h = h

  pub ready-regular :
      (slots : List (Slot V L))
      → All (IsRegularSlot (suc d) G) slots
      → All (IsRegularSlot (suc d) (IsTask d G)) (map ready_slot slots)
  ready-regular slots h =
      All-map _ ready_slot slots
        (All-imp slots (λ e reg. ready-IsRegular e.ikeylen e.ksuf e.lv reg) h)

  pub Merged-regular :
      {ms ns : List (Slot V L)} {rs : List (Slot V (Pending V L))}
      → Merged ms ns rs
      → All (IsRegularSlot (suc d) G) ms
      → All (IsRegularSlot (suc d) G) ns
      → All (IsRegularSlot (suc d) (IsTask d G)) rs
  Merged-regular (rest_of_n ns) hm hn = ready-regular ns hn
  Merged-regular (rest_of_m m ms) hm hn = ready-regular (m ∷ ms) hm
  Merged-regular (deleted gone der) hm hn = Merged-regular der hm hn.1
  Merged-regular (from_m {m = m} lt der) hm hn =
      (ready-IsRegular m.ikeylen m.ksuf m.lv hm.0, Merged-regular der hm.1 hn)
  Merged-regular (from_n {n = n} lt der) hm hn =
      (ready-IsRegular n.ikeylen n.ksuf n.lv hn.0, Merged-regular der hm hn.1)
  Merged-regular (from_both {m = m} {n = n} {e = e} at len live run der) hm hn =
      ((both-Meets m n e hm.0 hn.0 at len live run).0, Merged-regular der hm.1 hn.1)

  Merged-Above :
      {ms ns : List (Slot V L)} {rs : List (Slot V (Pending V L))}
      → Merged ms ns rs
      → All (IsRegularSlot (suc d) G) ms
      → All (IsRegularSlot (suc d) G) ns
      → (i x : ℕ) → Above i x ms
      → Above i x ns
      → Above i x rs
  Merged-Above (rest_of_n ns) hm hn i x am an = All-map _ ready_slot ns an
  Merged-Above (rest_of_m m ms) hm hn i x am an = All-map _ ready_slot (m ∷ ms) am
  Merged-Above (deleted gone der) hm hn i x am an = Merged-Above der hm hn.1 i x am an.1
  Merged-Above (from_m lt der) hm hn i x am an = (am.0, Merged-Above der hm.1 hn i x am.1 an)
  Merged-Above (from_n lt der) hm hn i x am an = (an.0, Merged-Above der hm hn.1 i x am an.1)
  Merged-Above (from_both {m = m} {n = n} {e = e} at len live run der) hm hn i x am an =
      let met = both-Meets m n e hm.0 hn.0 at len live run in
      (
        Before-same_right i x n.ikey n.ikeylen e.ikey e.ikeylen met.1 met.2 an.0,
        Merged-Above der hm.1 hn.1 i x am.1 an.1,
      )

  -- The slots that come of merging those of two nodes, well formed and in order, are in order.
  pub Merged-Ascending :
      {ms ns : List (Slot V L)} {rs : List (Slot V (Pending V L))}
      → Merged ms ns rs
      → AreRegular (suc d) G ms
      → AreRegular (suc d) G ns
      → Ascending rs
  Merged-Ascending (rest_of_n ns) (hm, am) (hn, an) = Ascending-ready ns an
  Merged-Ascending (rest_of_m m ms) (hm, am) (hn, an) = Ascending-ready (m ∷ ms) am
  Merged-Ascending (deleted gone der) (hm, am) (hn, an) = Merged-Ascending der (hm, am) (hn.1, an.1)
  Merged-Ascending (from_m {m = m} {n = n} {ns = ns} lt der) (hm, am) (hn, an) = (
    Merged-Above der hm.1 hn m.ikey m.ikeylen am.0
        (lt, Above-trans m.ikey m.ikeylen n.ikey n.ikeylen ns lt an.0),
    Merged-Ascending der (hm.1, am.1) (hn, an),
  )
  Merged-Ascending (from_n {m = m} {n = n} {ms = ms} lt der) (hm, am) (hn, an) = (
    Merged-Above der hm hn.1 n.ikey n.ikeylen
        (lt, Above-trans n.ikey n.ikeylen m.ikey m.ikeylen ms lt am.0) an.0,
    Merged-Ascending der (hm, am) (hn.1, an.1),
  )
  Merged-Ascending (from_both {m = m} {n = n} {e = e} {ms = ms} {ns = ns} at len live run der)
        (hm, am) (hn, an) =
      let met = both-Meets m n e hm.0 hn.0 at len live run in
      (
        Merged-Above der hm.1 hn.1 e.ikey e.ikeylen
            (All-imp ms
              (λ s.
                Before-same_left m.ikey m.ikeylen s.ikey s.ikeylen e.ikey e.ikeylen (met.1 ∙ sym at)
                  (met.2 ∙ sym len))
              am.0)
            (All-imp ns
              (λ s. Before-same_left n.ikey n.ikeylen s.ikey s.ikeylen e.ikey e.ikeylen met.1 met.2)
              an.0),
        Merged-Ascending der (hm.1, am.1) (hn.1, an.1),
      )
