-- ===== src/Index/Replace.antt =====
-- `replace_first` and `replace` of hybrid_index/mtIndexAPI.hh: a value in the row of a key is
-- overwritten.
pub mod Dynamic
use microbench.Common.{
  ℕ, Bool, true, false, Option, none, some, ◌==◌, if◌then◌else◌, ltb, length, drop, ◌++◌, not, ◌&&◌,
}
use microbench.Common.Run.{Run, ok, fault, ◌>>=◌}
use microbench.Key.{Key}
use microbench.Index.{Index, secondary_index_type, find_insert, assign_row, finish, static_get}
use microbench.Index.Block.{blocks, find_block, write_block}
use microbench.Index.Interface.{Tables, Value}
use microbench.Index.Unique.{is_some}

-- The row with the value over its first bytes: a write behind the end of the new row is a fault.
unfoldable pub over_first : Value → Value → Run Value
over_first row v = if ltb (length row) (length v) then fault else ok (v ++ drop (length v) row)

module _ {D S : Type 0} (T : Tables D S) where
  abbrev pub assign_static : Index D S → Key → Value → Index D S
  assign_static x k row = record x { static_table = (T.static_update x.static_table k row).1 }

  unfoldable pub replace_first1 : Index D S → Key → Value → Run (Bool × Index D S)
  replace_first1 x k v =
      let found = if x.ic == 0 then none else T.find x.table k in
      let found_s =
        if not (is_some found) && not (x.sic == 0) then T.static_find x.static_table k else none in
      let (found_l, y) = find_insert T x k in
      elim found_s [
        | some row ↦ over_first row v >>= λ new. ok (true, assign_static x k new)
        | none ↦ elim found_l [
          | some row ↦ over_first row v >>= λ new. ok (true, finish T (assign_row T y k new))
          | none ↦ ok (false, y)
        ]
      ]

  unfoldable pub replace_first : Index D S → Key → Value → Run (Bool × Index D S)
  replace_first x k v =
      if secondary_index_type == 0 then replace_first1 x k v else replace_first1 x k v

  unfoldable pub dynamic_replace : Index D S → Key → Value → Value → Run (Bool × Index D S)
  dynamic_replace x k v old =
      let (found, y) = find_insert T x k in
      if x.ic == 0
      then ok (false, x)
      else if not (length v == length old)
      then ok (false, x)
      else elim found [
        | none ↦ ok (false, y)
        | some row ↦ find_block row old >>= λ i.
            if i == blocks row old
            then ok (false, y)
            else ok (true, finish T (assign_row T y k (write_block row v i)))
      ]

  -- `static_replace0` writes in place, `static_replace1` makes a new row.
  unfoldable pub static_replace : Index D S → Key → Value → Value → Run (Bool × Index D S)
  static_replace x k v old =
      if not (length v == length old) then ok (false, x) else elim (static_get T x k) [
        | none ↦ ok (false, x)
        | some row ↦ find_block row old >>= λ i.
            if i == blocks row old
            then ok (false, x)
            else ok (true, assign_static x k (write_block row v i))
      ]

  unfoldable pub replace : Index D S → Key → Value → Value → Run (Bool × Index D S)
  replace x k v old = dynamic_replace x k v old >>= λ (done, y).
      if done then ok (true, y) else static_replace y k v old
