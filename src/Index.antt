-- ===== src/Index.antt =====
-- The hybrid index, `mt_index` of hybrid_index/mtIndexAPI.hh: its state, and the parts that the
-- unique and the multivalue index share.
pub mod Counter
pub mod Interface
pub mod Block
pub mod Unique
pub mod Multi
pub mod Replace
pub mod Scan
pub mod Iterate
pub mod Listed
pub mod Tries
mod Examples
use microbench.Common.{
  ℕ, Bool, true, false, Option, none, some, List, [], ◌==◌, if◌then◌else◌, leb, length, ◌/◌,
}
use microbench.Key.{Key}
use microbench.Index.Counter.{add_int, sub_int, merge_due}
use microbench.Index.Interface.{Tables, Value}

-- The key buffers and their lengths are one list each; an empty list is a cursor at no key. `held`
-- says that the lock cursor `lp_mt_l` is between its `find_insert`, which locks a leaf, and its
-- `finish`. Timestamps and deferred frees are left out, since no result depends on them.
pub record Index (D S : Type 0) : Type 0 where
  pub table : D
  pub static_table : S
  pub ic : ℕ
  pub sic : ℕ
  pub key_size : ℕ
  pub multivalue : Bool
  pub held : Bool
  pub cur_key : Key
  pub static_cur_key : Key
  pub first_scan : Bool

abbrev pub value_size : ℕ
value_size = 8

-- `value.len/VALUE_LEN`
abbrev pub entries : Value → ℕ
entries v = length v / value_size

abbrev pub secondary_index_type : ℕ
secondary_index_type = 1

-- `USE_BLOOM_FILTER` is 0: the calls of the filter in the operations are not reached.
module _ {D S : Type 0} (T : Tables D S) where
  unfoldable pub setup : ℕ → Bool → Index D S
  setup keysize multivalue = record {
    table = T.empty;
    static_table = T.static_empty;
    ic = 0;
    sic = 0;
    key_size = keysize;
    multivalue = multivalue;
    held = false;
    cur_key = [];
    static_cur_key = [];
    first_scan = false;
  }

  unfoldable pub reset : Index D S → Index D S
  reset x = record x { table = T.empty; ic = 0 }

  -- `find_insert`: whether the key has a row, with the leaf locked.
  abbrev pub find_insert : Index D S → Key → Option Value × Index D S
  find_insert x k = (T.find x.table k, record x { held = true })

  -- A new row in `lp_mt_l.value()`.
  abbrev pub assign_row : Index D S → Key → Value → Index D S
  assign_row x k v = record x { table = T.put x.table k v }

  abbrev pub finish : Index D S → Index D S
  finish x = record x { held = false }

  unfoldable pub merge_uv : Index D S → Bool × Index D S
  unfolding reset
  merge_uv x =
      let built = if leb x.key_size 8 then T.build_quick x.ic x.table else T.build x.table in
      (
        true,
        reset (record x { static_table = T.merge x.static_table built; sic = add_int x.sic x.ic }),
      )

  unfoldable pub merge_nuv : Index D S → Bool × Index D S
  unfolding reset
  merge_nuv x = (
    true,
    reset (record x {
      static_table = T.merge x.static_table (T.build x.table);
      sic = add_int x.sic x.ic;
    }),
  )

  -- `merge`, which a driver may call at any time.
  unfoldable pub merge : Index D S → Bool × Index D S
  merge x = if x.multivalue then merge_nuv x else merge_uv x

  unfoldable pub put : Index D S → Key → Value → Index D S
  put x k v =
      let (found, y) = find_insert x k in
      let z = finish (assign_row y k v) in record z { ic = add_int z.ic (entries v) }

  unfoldable pub dynamic_get : Index D S → Key → Option Value
  dynamic_get x k = if x.ic == 0 then none else T.find x.table k

  unfoldable pub static_get : Index D S → Key → Option Value
  static_get x k = if x.sic == 0 then none else T.static_find x.static_table k

  unfoldable pub dynamic_remove : Index D S → Key → Bool × Index D S
  dynamic_remove x k =
      if x.ic == 0
      then (false, x)
      else let (done, d) = T.remove x.table k in
        (done, record x { table = d; ic = if done then sub_int x.ic 1 else x.ic })

  -- `static_remove`, `static_remove_nuv0` and `static_remove_nuv1` of a key.
  unfoldable pub static_remove : Index D S → Key → Bool × Index D S
  static_remove x k =
      if x.sic == 0
      then (false, x)
      else let (done, s) = T.static_remove x.static_table k in
        (done, record x { static_table = s; sic = if done then sub_int x.sic 1 else x.sic })
