-- ===== src/Merge/Arrays.antt =====
-- The arrays of `merge_nodes` of hybrid_index/masstree_get.hh: the new node is made where `n` is.
-- `n` is given room for the slots of `m`, its own slots are moved to the end, and the loops write the
-- new slots from the front on, over slots that they have read. The arrays for slices, lengths, values
-- and suffixes are one array of slots.
pub mod Cells
pub mod Rounds
use microbench.Common.{
  ℕ, zero, suc, ◌+◌, Bool, true, false, Ordering, Option, none, some, List, [], ◌∷◌, ◌++◌, ◌==◌,
  map, length, take, set, get_elem?, replicate, ltb, if◌then◌else◌,
}
use microbench.Common.Run.{Run, ok, fault, ◌>>=◌}
use microbench.Massnode.{LeafValue, value, layer, Slot}
use microbench.Merge.{
  Pending, ready, merge_task, add_task, create_task, ready_slot, meet, entry_order, keylenx_ikeylen,
}

-- A slot of the arrays, which may be one that was never set.
abbrev pub Cell {ℓ} : Type ℓ → Type ℓ → Type ℓ
Cell V L = Option (Slot V (Pending V L))

-- What a round goes on with: past a deleted slot of `n`, with the next slot of one node, or of both.
pub data Choice : Type 0 where
  skip : Choice
  take_m : Choice
  take_n : Choice
  take_both : Choice

module _ {ℓ} {V L : Type ℓ} where
  abbrev pub cells : List (Slot V L) → List (Cell V L)
  cells [] = []
  cells (e ∷ l) = some (ready_slot e) ∷ cells l

  -- What the slot was in its node. A slot that waits for its layer holds nothing.
  abbrev pub source_lv : LeafValue V (Pending V L) → Run (LeafValue V L)
  source_lv (value v) = ok (value v)
  source_lv (layer (ready c)) = ok (layer c)
  source_lv (layer (merge_task m n)) = fault
  source_lv (layer (add_task i n)) = fault
  source_lv (layer (create_task i j)) = fault

  abbrev pub source_slot : Option (Cell V L) → Run (Slot V L)
  source_slot none = fault
  source_slot (some none) = fault
  source_slot (some (some e)) = source_lv e.lv >>= λ lv.
      ok (record { ikeylen = e.ikeylen; ikey = e.ikey; lv = lv; ksuf = e.ksuf })

  unfoldable pub read_cell : List (Cell V L) → ℕ → Run (Slot V L)
  read_cell arrays pos = source_slot (get_elem? arrays pos)

  unfoldable pub write_cell : List (Cell V L) → ℕ → Slot V (Pending V L) → Run (List (Cell V L))
  write_cell arrays pos e = if ltb pos (length arrays) then ok (set arrays pos (some e)) else fault

  -- The tests of a round.
  unfoldable pub choose : Slot V L → Slot V L → Choice
  choose m n = elim (n.ikeylen == 0) [
    | true ↦ skip
    | false ↦
        elim (entry_order m.ikey (keylenx_ikeylen m.ikeylen) n.ikey (keylenx_ikeylen n.ikeylen)) [
          | Ordering.lt ↦ take_m
          | Ordering.gt ↦ take_n
          | Ordering.eq ↦ take_both
        ]
  ]

  -- The loops from `n_pos`, counted from the front of the arrays, and `new_n_pos`.
  unfoldable pub merge_rounds :
      ℕ → Bool → List (Slot V L) → ℕ → ℕ → List (Cell V L) → Run (ℕ × List (Cell V L))
  merge_rounds zero has_ksuf ms n_pos new_n_pos arrays = fault
  merge_rounds (suc fuel) has_ksuf [] n_pos new_n_pos arrays = elim (ltb n_pos (length arrays)) [
    | false ↦ ok (new_n_pos, arrays)
    | true ↦ read_cell arrays n_pos >>= λ n. write_cell arrays new_n_pos (ready_slot n) >>= λ next.
        merge_rounds fuel has_ksuf [] (suc n_pos) (suc new_n_pos) next
  ]
  merge_rounds (suc fuel) has_ksuf (m ∷ ms) n_pos new_n_pos arrays =
      elim (ltb n_pos (length arrays)) [
        | false ↦ write_cell arrays new_n_pos (ready_slot m) >>= λ next.
            merge_rounds fuel has_ksuf ms n_pos (suc new_n_pos) next
        | true ↦ read_cell arrays n_pos >>= λ n. elim (choose m n) [
          | skip ↦ merge_rounds fuel has_ksuf (m ∷ ms) (suc n_pos) new_n_pos arrays
          | take_m ↦ write_cell arrays new_n_pos (ready_slot m) >>= λ next.
              merge_rounds fuel has_ksuf ms n_pos (suc new_n_pos) next
          | take_n ↦ write_cell arrays new_n_pos (ready_slot n) >>= λ next.
              merge_rounds fuel has_ksuf (m ∷ ms) (suc n_pos) (suc new_n_pos) next
          | take_both ↦ (if has_ksuf then meet m n else fault) >>= λ e.
              write_cell arrays new_n_pos e >>= λ next.
              merge_rounds fuel has_ksuf ms (suc n_pos) (suc new_n_pos) next
        ]
      ]

  -- `resize`, `memmove`, the loops, and the arrays' cut to the slots that they have set.
  unfoldable pub merge_arrays : Bool → List (Slot V L) → List (Slot V L) → Run (List (Cell V L))
  merge_arrays has_ksuf ms ns =
      let resized : List (Cell V L) = cells ns ++ replicate (length ms) none in
      let moved : List (Cell V L) = take (length ms) resized ++ cells ns in
      merge_rounds (suc (length ms + length ns)) has_ksuf ms (length ms) 0 moved >>= λ r.
      ok (take r.0 r.1)
