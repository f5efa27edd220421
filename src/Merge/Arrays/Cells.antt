-- ===== src/Merge/Arrays/Cells.antt =====
-- The arrays of `merge_nodes` in a run: the slots that are set, then a gap, then the slots of `n` that
-- are left to read.
use mathlib.Core.List.{append_assoc}
use microbench.Common.{
  ℕ, suc, ◌+◌, ◌<◌, ◌≡◌, true, false, some, List, [], ◌∷◌, ◌++◌, length, length-append, ltb, lt→ltb,
  arith, refl, ap, get_elem?-append, set-append,
}
use microbench.Common.Run.{ok}
use microbench.Massnode.{LeafValue, value, layer, Slot}
use microbench.Merge.{Pending, ready_lv, ready_slot}
use microbench.Merge.Arrays.{Cell, cells, source_lv, read_cell, write_cell}

module _ {V L : Type 0} where
  length-cells : (ns : List (Slot V L)) → length (cells ns) ≡ length ns
  length-cells [] = refl
  length-cells (n ∷ ns) = ap suc (length-cells ns)

  source-ready : (lv : LeafValue V L) → source_lv (ready_lv lv) ≡ ok lv
  unfolding ready_lv
  source-ready (value v) = refl
  source-ready (layer c) = refl

  write-next :
      (done rest arrays : List (Cell V L)) (x : Cell V L) (new_n_pos : ℕ) (e : Slot V (Pending V L))
      → arrays ≡ done ++ x ∷ rest
      → new_n_pos ≡ length done
      → write_cell arrays new_n_pos e ≡ ok ((done ++ some e ∷ []) ++ rest)
  unfolding write_cell
  write-next done rest arrays x new_n_pos e is to =
      let total : length done < length (done ++ x ∷ rest) =
        omega (arith, length-append done (x ∷ rest)) in
      rw
        (
          is,
          to,
          lt→ltb (length done) (length (done ++ x ∷ rest)) total,
          set-append done rest x (some e),
        )
        refl

  -- The slot of `n` whose turn it is, behind the slots that are set and the gap between the two.
  pub read-next :
      (done gap arrays : List (Cell V L)) (n : Slot V L) (ns : List (Slot V L)) (n_pos : ℕ)
      → arrays ≡ done ++ (gap ++ cells (n ∷ ns))
      → n_pos ≡ length done + length gap
      → read_cell arrays n_pos ≡ ok n
  unfolding read_cell
  read-next done gap arrays n ns n_pos is at =
      let first = get_elem?-append done (gap ++ cells (n ∷ ns)) n_pos (length gap) at in
      let second = get_elem?-append gap (cells (n ∷ ns)) (length gap) 0 (omega arith) in
      rw (is, first, second, source-ready n.lv) refl

  length-arrays :
      (done gap arrays : List (Cell V L)) (ns : List (Slot V L))
      → arrays ≡ done ++ (gap ++ cells ns)
      → length arrays ≡ length done + length gap + length ns
  length-arrays done gap arrays ns is =
      let outer = length-append done (gap ++ cells ns) in
      let inner = length-append gap (cells ns) in
      let total = ap length is in omega (arith, outer, inner, total, length-cells ns)

  -- A slot of `n` is left.
  pub inside :
      (done gap arrays : List (Cell V L)) (n : Slot V L) (ns : List (Slot V L)) (n_pos : ℕ)
      → arrays ≡ done ++ (gap ++ cells (n ∷ ns))
      → n_pos ≡ length done + length gap
      → ltb n_pos (length arrays) ≡ true
  inside done gap arrays n ns n_pos is at =
      let total = length-arrays done gap arrays (n ∷ ns) is in ground (arith, total, at)

  pub outside :
      (done gap arrays : List (Cell V L)) (n_pos : ℕ)
      → arrays ≡ done ++ (gap ++ [])
      → n_pos ≡ length done + length gap
      → ltb n_pos (length arrays) ≡ false
  outside done gap arrays n_pos is at =
      let total = length-arrays done gap arrays [] is in ground (arith, total, at)

  -- The arrays with the slots that are set, the gap and the slots of `n` that are left.
  abbrev pub Stand :
      List (Cell V L) → List (Cell V L) → List (Slot V L) → ℕ → ℕ → List (Cell V L) → Type 0
  Stand done gap ns n_pos new_n_pos arrays =
      (arrays ≡ done ++ (gap ++ cells ns))
      × (n_pos ≡ length done + length gap)
      × (new_n_pos ≡ length done)

  -- Past a slot of `n`, which falls to the gap.
  pub Stand-skip :
      (done gap : List (Cell V L)) (n : Slot V L) (ns : List (Slot V L)) (n_pos new_n_pos : ℕ)
      (arrays : List (Cell V L))
      → Stand done gap (n ∷ ns) n_pos new_n_pos arrays
      → Stand done (gap ++ some (ready_slot n) ∷ []) ns (suc n_pos) new_n_pos arrays
  Stand-skip done gap n ns n_pos new_n_pos arrays (is, at, to) = (
    rw (append_assoc gap (some (ready_slot n) ∷ []) (cells ns)) is,
    omega (arith, at, length-append gap (some (ready_slot n) ∷ [])),
    to,
  )

  -- A slot is written to the gap.
  pub Stand-write :
      (done gap : List (Cell V L)) (x : Cell V L) (e : Slot V (Pending V L)) (ns : List (Slot V L))
      (n_pos new_n_pos : ℕ) (arrays : List (Cell V L))
      → Stand done (x ∷ gap) ns n_pos new_n_pos arrays
      → (next : List (Cell V L)) × (write_cell arrays new_n_pos e ≡ ok next)
        × Stand (done ++ some e ∷ []) gap ns n_pos (suc new_n_pos) next
  Stand-write done gap x e ns n_pos new_n_pos arrays (is, at, to) =
      let longer = length-append done (some e ∷ []) in
      (
        (done ++ some e ∷ []) ++ (gap ++ cells ns),
        write-next done (gap ++ cells ns) arrays x new_n_pos e is to,
        (refl, omega (arith, at, longer), omega (arith, to, longer)),
      )

  -- The slot of `n` in its own place, where the gap is closed.
  pub Stand-stay :
      (done : List (Cell V L)) (n : Slot V L) (ns : List (Slot V L)) (n_pos new_n_pos : ℕ)
      (arrays : List (Cell V L))
      → Stand done [] (n ∷ ns) n_pos new_n_pos arrays
      → (next : List (Cell V L)) × (write_cell arrays new_n_pos (ready_slot n) ≡ ok next)
        × Stand (done ++ some (ready_slot n) ∷ []) [] ns (suc n_pos) (suc new_n_pos) next
  Stand-stay done n ns n_pos new_n_pos arrays (is, at, to) =
      let longer = length-append done (some (ready_slot n) ∷ []) in
      (
        (done ++ some (ready_slot n) ∷ []) ++ cells ns,
        write-next done (cells ns) arrays (some (ready_slot n)) new_n_pos (ready_slot n) is to,
        (refl, omega (arith, at, longer), omega (arith, to, longer)),
      )

  -- A slot of `n` to the front.
  pub Stand-move :
      (done gap : List (Cell V L)) (n : Slot V L) (e : Slot V (Pending V L)) (ns : List (Slot V L))
      (n_pos new_n_pos : ℕ) (arrays : List (Cell V L))
      → (x : Cell V L) → Stand done (x ∷ gap) (n ∷ ns) n_pos new_n_pos arrays
      → (next : List (Cell V L)) × (write_cell arrays new_n_pos e ≡ ok next)
        × Stand
            (done ++ some e ∷ [])
            (gap ++ some (ready_slot n) ∷ [])
            ns
            (suc n_pos)
            (suc new_n_pos)
            next
  Stand-move done gap n e ns n_pos new_n_pos arrays x stand =
      let (next, written, more) = Stand-write done gap x e (n ∷ ns) n_pos new_n_pos arrays stand in
      (next, written, Stand-skip (done ++ some e ∷ []) gap n ns n_pos (suc new_n_pos) next more)
