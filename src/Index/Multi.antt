-- ===== src/Index/Multi.antt =====
-- The operations of a multivalue index, hybrid_index/mtIndexAPI.hh. A key's row has its values side by
-- side.
pub mod Flags
pub mod Lookup
pub mod Remove
use microbench.Common.{
  ℕ, Bool, true, false, Option, none, some, [], ◌==◌, if◌then◌else◌, ltb, length, drop, ◌++◌, not,
  ◌&&◌,
}
use microbench.Common.Run.{Run, ok, fault, ◌>>=◌}
use microbench.Key.{Key}
use microbench.Index.{
  Index, entries, secondary_index_type, find_insert, assign_row, finish, merge_nuv, put,
  dynamic_get, static_get, dynamic_remove, static_remove,
}
use microbench.Index.Block.{blocks, find_block, drop_block, write_block}
use microbench.Index.Counter.{add_int, sub_int, merge_due}
use microbench.Index.Interface.{Tables, Value}
use microbench.Index.Unique.{is_some, dynamic_get_ordered, static_get_ordered}

module _ {D S : Type 0} (T : Tables D S) where
  -- The end of both insertions: count, and merge when it is due.
  abbrev merge_if_due : Index D S → Index D S
  merge_if_due x = if merge_due x.ic x.sic then (merge_nuv T x).1 else x

  unfoldable pub put_nuv0 : Index D S → Key → Value → Index D S
  put_nuv0 x k v =
      let (found, y) = find_insert T x k in
      let row : Value = elim found [ none ↦ v | some old ↦ v ++ old ] in
      let z = finish T (assign_row T y k row) in
      merge_if_due (record z { ic = add_int z.ic (entries v) })

  -- A write through `lp_d.value()`, which points at the row of a key that was found.
  abbrev assign_static : Index D S → Key → Value → Index D S
  assign_static x k row = record x { static_table = (T.static_update x.static_table k row).1 }

  -- A key that only the static table has gets its value there, any other in the dynamic table.
  unfoldable pub put_nuv1 : Index D S → Key → Value → Index D S
  put_nuv1 x k v =
      let found = if x.ic == 0 then none else T.find x.table k in
      let found_s =
        if not (is_some found) && not (x.sic == 0) then T.static_find x.static_table k else none in
      elim found_s [
        | some old ↦
            let y = assign_static x k (v ++ old) in record y { sic = add_int y.sic (entries v) }
        | none ↦ put_nuv0 x k v
      ]

  unfoldable pub put_nuv : Index D S → Key → Value → Index D S
  put_nuv x k v = if secondary_index_type == 0 then put_nuv0 x k v else put_nuv1 x k v

  -- The two strings are the caller's, which a lookup without success leaves as they are.
  unfoldable pub get_nuv : Index D S → Key → Value → Value → Bool × Value × Value
  get_nuv x k dynamic_value static_value =
      let found = dynamic_get T x k in
      let found_s =
        if secondary_index_type == 0
        then static_get T x k
        else if is_some found
        then none
        else static_get T x k in
      elim found [
        | none ↦ elim found_s [
          | none ↦ (false, dynamic_value, static_value)
          | some w ↦ (true, [], w)
        ]
        | some v ↦ elim found_s [ none ↦ (true, v, []) | some w ↦ (false, v, w) ]
      ]

  -- As `get_nuv`, with the key left in the buffer of the table that has it. `static_get_ordered` is
  -- the lookup of the static table for SECONDARY_INDEX_TYPE 1, by its row.
  unfoldable pub get_ordered_nuv :
      Index D S → Key → Value → Value → (Bool × Value × Value) × Index D S
  get_ordered_nuv x k dynamic_value static_value =
      let (found, y) = dynamic_get_ordered T x k in
      let (found_s, z) = if is_some found then (none, y) else static_get_ordered T y k in
      (
        elim found [
          | none ↦ elim found_s [
            | none ↦ (false, dynamic_value, static_value)
            | some w ↦ (true, [], w)
          ]
          | some v ↦ elim found_s [ none ↦ (true, v, []) | some w ↦ (false, v, w) ]
        ],
        z,
      )

  unfoldable pub exist_nuv : Index D S → Key → Bool
  exist_nuv x k =
      let found = if x.ic == 0 then false else is_some (T.find x.table k) in
      if found then true else is_some (T.static_find x.static_table k)

  unfoldable pub dynamic_remove_nuv : Index D S → Key → Value → Run (Bool × Index D S)
  dynamic_remove_nuv x k v = elim (dynamic_get T x k) [
    | none ↦ ok (false, x)
    | some row ↦ find_block row v >>= λ i.
        if i == blocks row v
        then ok (false, x)
        else if length row == length v
        then ok (dynamic_remove T x k)
        else let rest = drop_block row v i in
          let y = put T x k rest in
          ok (true, record y { ic = sub_int (sub_int y.ic 1) (entries rest) })
  ]

  unfoldable pub static_remove_nuv0 : Index D S → Key → Value → Run (Bool × Index D S)
  static_remove_nuv0 x k v = elim (static_get T x k) [
    | none ↦ ok (false, x)
    | some row ↦ find_block row v >>= λ i.
        let (done, y) = static_remove T x k in
        if i == blocks row v
        then ok (false, x)
        else if not done
        then ok (false, y)
        else if length row == length v
        then ok (true, y)
        else let rest = drop_block row v i in
          let z = put_nuv0 y k rest in ok (true, record z { sic = sub_int z.sic (entries rest) })
  ]

  unfoldable pub static_remove_nuv1 : Index D S → Key → Value → Run (Bool × Index D S)
  static_remove_nuv1 x k v = elim (static_get T x k) [
    | none ↦ ok (false, x)
    | some row ↦ find_block row v >>= λ i.
        let less = record x { sic = sub_int x.sic (entries v) } in
        if i == blocks row v
        then ok (false, x)
        else if ltb (length v) (length row)
        then ok (true, assign_static less k (drop_block row v i))
        else if length row == length v
        then ok (static_remove T less k)
        else ok (false, x)
  ]

  unfoldable pub remove_nuv : Index D S → Key → Value → Run (Bool × Index D S)
  remove_nuv x k v = dynamic_remove_nuv x k v >>= λ (done, y).
      if done
      then ok (true, y)
      else if secondary_index_type == 0
      then static_remove_nuv0 y k v
      else static_remove_nuv1 y k v
