-- ===== src/Index/Unique.antt =====
-- The operations of a unique index, hybrid_index/mtIndexAPI.hh.
pub mod Sound
pub mod Insert
pub mod Ordered
pub mod Remove
pub mod Update
use microbench.Common.{Bool, true, false, Option, none, some, [], ◌==◌, if◌then◌else◌}
use microbench.Key.{Key}
use microbench.Index.{
  Index, find_insert, assign_row, finish, merge_uv, put, dynamic_get, static_get, dynamic_remove,
  static_remove,
}
use microbench.Index.Counter.{add_int, merge_due}
use microbench.Index.Interface.{Tables, Value}

abbrev pub is_some : Option Value → Bool
is_some (some v) = true
is_some none = false

module _ {D S : Type 0} (T : Tables D S) where
  unfoldable pub put_uv : Index D S → Key → Value → Bool × Index D S
  put_uv x k v =
      let (found, y) = find_insert T x k in
      elim found [
        | some old ↦ (false, finish T y)
        | none ↦
            let z = finish T (assign_row T y k v) in
            let w = record z { ic = add_int z.ic 1 } in
            let merged = merge_uv T w in if merge_due w.ic w.sic then merged else (true, w)
      ]

  unfoldable pub get : Index D S → Key → Option Value
  unfolding dynamic_get static_get
  get x k = elim (dynamic_get T x k) [ some v ↦ some v | none ↦ static_get T x k ]

  unfoldable pub exist : Index D S → Key → Bool
  exist x k =
      let found = if x.ic == 0 then false else is_some (T.find x.table k) in
      if found then true else is_some (T.static_find x.static_table k)

  unfoldable pub dynamic_exist : Index D S → Key → Bool
  dynamic_exist x k = if x.ic == 0 then false else is_some (T.find x.table k)

  -- `static_exist` and `static_exist_nuv`.
  unfoldable pub static_exist : Index D S → Key → Bool
  static_exist x k = if x.sic == 0 then false else is_some (T.static_find x.static_table k)

  -- The ordered lookups leave the key that they find in a buffer, from which a scan goes on.
  unfoldable pub dynamic_get_ordered : Index D S → Key → Option Value × Index D S
  dynamic_get_ordered x k =
      if x.ic == 0 then (none, record x { cur_key = [] }) else elim (T.find x.table k) [
        | some v ↦ (some v, record x { cur_key = k })
        | none ↦ (none, record x { cur_key = [] })
      ]

  unfoldable pub static_get_ordered : Index D S → Key → Option Value × Index D S
  static_get_ordered x k =
      if x.sic == 0
      then (none, record x { static_cur_key = [] })
      else elim (T.static_find x.static_table k) [
        | some v ↦ (some v, record x { static_cur_key = k; first_scan = true })
        | none ↦ (none, record x { static_cur_key = [] })
      ]

  unfoldable pub get_ordered : Index D S → Key → Option Value × Index D S
  unfolding dynamic_get_ordered static_get_ordered
  get_ordered x k =
      let (first, y) = dynamic_get_ordered x k in
      elim first [
        | some v ↦ (some v, record y { static_cur_key = [] })
        | none ↦
            let (second, z) = static_get_ordered y k in
            elim second [ some v ↦ (some v, record z { cur_key = [] }) | none ↦ (none, z) ]
      ]

  unfoldable pub remove : Index D S → Key → Bool × Index D S
  unfolding dynamic_remove static_remove
  remove x k =
      let (done, y) = dynamic_remove T x k in if done then (true, y) else static_remove T y k

  unfoldable pub static_update_uv : Index D S → Key → Value → Bool × Index D S
  static_update_uv x k v =
      let (done, s) = T.static_update x.static_table k v in (done, record x { static_table = s })

  -- The value has `VALUE_LEN` bytes.
  unfoldable pub update_uv : Index D S → Key → Value → Bool × Index D S
  unfolding dynamic_get put static_update_uv
  update_uv x k v = elim (dynamic_get T x k) [
    | some old ↦ (true, put T x k v)
    | none ↦ static_update_uv x k v
  ]
