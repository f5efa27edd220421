-- ===== src/Index/Multi/Lookup.antt =====
-- `get_nuv` and `exist_nuv`.
use microbench.Common.{◌≡◌, some, none, true, false, arith, [], Bool}
use microbench.Key.{Key}
use microbench.Index.{Index, dynamic_get, static_get}
use microbench.Index.Interface.{Tables, Value}
use microbench.Index.Multi.{get_nuv, exist_nuv}
use microbench.Index.Multi.Flags.{IsFlagged}
use microbench.Index.Unique.{is_some}
use microbench.Index.Unique.Sound.{view}

module _ {D S : Type 0} (T : Tables D S) (x : Index D S) (k : Key) where
  -- The row of the key is in one string and the other is empty, or none is touched.
  abbrev pub strings : Value → Value → Bool × Value × Value
  strings dv sv = elim (T.find x.table k) [
    | some v ↦ (true, v, [])
    | none ↦ elim (T.static_find x.static_table k) [
      | some w ↦ (true, [], w)
      | none ↦ (false, dv, sv)
    ]
  ]

  module _ (flags : IsFlagged T x) where
    -- Where a counter at zero means an empty table, `get_nuv` gives the row of the dynamic table, if
    -- there is one, with an empty second string, otherwise that of the static table with an empty
    -- first string, otherwise it fails and leaves both strings. It does not fail by finding the key
    -- twice.
    pub get_nuv-strings : (dv sv : Value) → get_nuv T x k dv sv ≡ strings dv sv
    unfolding get_nuv dynamic_get static_get
    get_nuv-strings dv sv = ground (arith, flags.0 k, flags.1 k)

    pub exist_nuv-view : exist_nuv T x k ≡ is_some (view T x k)
    unfolding exist_nuv
    exist_nuv-view = ground (arith, flags.0 k)
