-- ===== src/Merge/Entries.antt =====
-- The loops of `add_item_to_node` are those of `merge_nodes` with a node of one entry.
use microbench.Common.{
  ℕ, zero, suc, ◌+◌, ◌≤◌, ◌≡◌, List, [], ◌∷◌, length, true, ◌==◌, arith, refl, Bool-cases, inl, inr,
  ◌&&◌, ltb, ltb→lt, sym, ◌∙◌, ◌%◌, Ordering-cases, Ordering,
}
use microbench.Common.Run.{ok}
use microbench.Massnode.{Slot}
use microbench.Merge.{
  create_node, create_task, next_item, task_slot, meet_values, Item, item_slot, add_slots,
  merge_slots, meet, entry_order, keylenx_ikeylen,
}
use microbench.Merge.Holds.{IsItem, Differ}
use microbench.Merge.Keys.{strncmp_zero-eq}

module _ {V L : Type 0} (i : Item V) where
  abbrev item_order : Slot V L → Ordering
  item_order n = entry_order i.ikey (keylenx_ikeylen i.ikeylen) n.ikey (keylenx_ikeylen n.ikeylen)

  -- Adding an entry to a node's slots is merging them with that one entry, with enough rounds.
  pub add_slots-merge_slots :
      (fuel : ℕ) (ns : List (Slot V L))
      → 1 + length ns ≤ fuel
      → add_slots i ns ≡ merge_slots fuel true (item_slot i ∷ []) ns
  unfolding add_slots merge_slots
  add_slots-merge_slots fuel [] enough = refl
  add_slots-merge_slots zero (n ∷ ns) enough = absurd (omega arith)
  add_slots-merge_slots (suc fuel) (n ∷ ns) enough =
      let rest = add_slots-merge_slots fuel ns (omega arith) in
      elim (Bool-cases (n.ikeylen == 0)) [
        | inl gone ↦ ground (arith, rest)
        | inr live ↦ elim (Ordering-cases (item_order n)) [
          | inl less ↦ ground arith
          | inr (inl same) ↦ ground arith
          | inr (inr more) ↦ ground (arith, rest)
        ]
      ]

module _ {V : Type 0} (i j : Item V) (d : ℕ) (hi : IsItem d i) (hj : IsItem d j)
    (differ : Differ i j) where
  long_tie : i.ikey ≡ j.ikey → i.ikeylen ≡ j.ikeylen → j.ikeylen ≡ 9
  long_tie at len = elim (Bool-cases (ltb j.ikeylen 9)) [
    | inr long ↦ ground (arith, hj.1.0)
    | inl short ↦
        let less = ltb→lt j.ikeylen 9 short in
        let none_i = hi.1.1 hi.0 (omega (arith, len, less)) in
        absurd (differ at len (none_i ∙ sym (hj.1.1 hj.0 less)))
  ]

  meet_items :
      (L : Type 0)
      → i.ikey ≡ j.ikey
      → i.ikeylen ≡ j.ikeylen
      → meet {L = L} (item_slot i) (item_slot j)
        ≡ ok (
            task_slot
              ((j.ikeylen + 64) % 256)
              j.ikey
              (create_task (next_item i.content i.ksuf) (next_item j.content j.ksuf)))
  unfolding meet meet_values
  meet_items L at len =
      let nine = long_tie at len in
      let pos = hj.1.2 nine in
      let text = strncmp_zero-eq i.ksuf j.ksuf hi.1.3 in
      let other = differ at len in ground (arith, nine, len, pos, text, other)

  -- Two well-formed entries that differ make the node that merging nodes of one entry each makes.
  pub create_node-merge_slots :
      (L : Type 0)
      → ok (create_node {L = L} i j).slots
        ≡ merge_slots 2 true (item_slot {L = L} i ∷ []) (item_slot j ∷ [])
  unfolding create_node merge_slots entry_order
  create_node-merge_slots L = elim (Bool-cases ((i.ikey == j.ikey) && (i.ikeylen == j.ikeylen))) [
    | inl tie ↦ ground (arith, meet_items L (ground arith) (ground arith))
    | inr apart ↦ ground (arith, hi.0, hj.0, hi.1.0, hj.1.0)
  ]

pub create_node-has_ksuf :
    {V : Type 0} (L : Type 0) (i j : Item V) → (create_node {L = L} i j).has_ksuf ≡ true
unfolding create_node
create_node-has_ksuf L i j = refl
