-- ===== src/Cursor/Leftmost.antt =====
-- `find_leftmost` ends at a value.
use microbench.Common.{
  ℕ, zero, suc, ◌≡◌, true, false, Bool, some, get_elem?-some, refl, ap, ◌∙◌, Bool-cases, inl, inr,
}
use microbench.Common.Run.{Run, ok, Returns}
use microbench.Cursor.{Cursor, find_leftmost, take_cur, at_cur, pointer}
use microbench.Massnode.{Slot, value, layer, keylenx_is_layer, ksuf_of}
use microbench.Massnode.Chains.{All-get}
use microbench.Merge.Holds.{IsTrie, IsRegular-layer, IsRegular-value}
use microbench.Trie.{Trie, read_slot}

module _ (V : Type 0) where
  -- The cursor has a value as the current one.
  abbrev pub HasValue : Bool × Cursor V → Type 0
  HasValue (found, c) = (found ≡ true) × (v : V) × (c.cur_lv ≡ some (value v))

  module _ (d : ℕ) (t : Trie V (suc d)) (down : Trie V d → Cursor V → Run (Bool × Cursor V))
      (e : Slot V (Trie V d)) (c : Cursor V) where
    take_cur_layer :
        (b : Trie V d)
        → keylenx_is_layer e.ikeylen ≡ true
        → e.lv ≡ layer b
        → take_cur d t down e c ≡ down b (at_cur d t e c)
    unfolding take_cur
    take_cur_layer b deep is =
        rw (take_cur, deep, is)
          (ap (λ lv. down b (record (at_cur d t e c) { cur_lv = some (pointer d lv) })) is)

    take_cur_flat :
        keylenx_is_layer e.ikeylen ≡ false
        → take_cur d t down e c ≡ ok (true, record (at_cur d t e c) { cur_suffix = ksuf_of t e })
    unfolding take_cur
    take_cur_flat flat = rw (take_cur, flat) refl

  -- In a well-formed trie `find_leftmost` ends without a fault, and at a value, whatever the cursor.
  pub find_leftmost-HasValue :
      (d : ℕ) (t : Trie V d) (c : Cursor V) → IsTrie V d t → Returns (find_leftmost d t c) HasValue
  unfolding find_leftmost read_slot
  find_leftmost-HasValue zero t c h = elim h [ ]
  find_leftmost-HasValue (suc d) t c (full, filled, (reg, asc)) =
      let (e, at) = get_elem?-some t.slots 0 filled in
      let read : read_slot t 0 ≡ ok e = rw (read_slot, at) refl in
      let good = All-get _ t.slots 0 e reg at in
      elim (Bool-cases (keylenx_is_layer e.ikeylen)) [
        | inl deep ↦
            let (b, is, rank, len, sub) =
              IsRegular-layer (suc d) (IsTrie V d) e.ikeylen e.ksuf e.lv good deep in
            let (r, run, has) = find_leftmost-HasValue d b (at_cur d t e c) sub in
            (r, rw read (take_cur_layer d t (find_leftmost d) e c b deep is ∙ run), has)
        | inr flat ↦
            let (v, is, entry) =
              IsRegular-value (suc d) (IsTrie V d) e.ikeylen e.ksuf e.lv good flat in
            (
              (true, record (at_cur d t e c) { cur_suffix = ksuf_of t e }),
              rw read (take_cur_flat d t (find_leftmost d) e c flat),
              (refl, v, rw is refl),
            )
      ]
