-- ===== src/Index/Unique/Insert.antt =====
-- `put_uv`.
use microbench.Common.{if◌then◌else◌, ◌+◌, ◌≡◌, ◌≢◌, none, some, true, false, Bool}
use microbench.Key.{Key}
use microbench.Index.{Index, merge_uv, assign_row, finish, find_insert}
use microbench.Index.Counter.{add_int, merge_due}
use microbench.Index.Interface.{Tables, Value, DynamicLaws}
use microbench.Index.Unique.Sound.{view, IsCounted}

module _ {D S : Type 0} (T : Tables D S) (dl : DynamicLaws T) where
  -- The index with the new entry in its dynamic table.
  abbrev pub Grown : Index D S → Key → Value → Index D S → Type 0
  Grown x k v z =
      (T.find x.table k ≡ none)
      × IsCounted T dl z
      × (z.ic ≡ x.ic + 1)
      × (z.sic ≡ x.sic)
      × (view T z k ≡ some v)
      × ((j : Key) → j ≢ k → view T z j ≡ view T x j)

  -- With success the index has grown, and is merged if a merge is due.
  abbrev pub Inserted : Index D S → Key → Value → Bool × Index D S → Type 0
  Inserted x k v (true, y) =
      (z : Index D S) × Grown x k v z × (y ≡ (if merge_due z.ic z.sic then (merge_uv T z).1 else z))
  Inserted x k v (false, y) =
      ((old : Value) × (T.find x.table k ≡ some old))
      × IsCounted T dl y
      × ((j : Key) → view T y j ≡ view T x j)

  -- The index with the new row, before a merge.
  abbrev grown : Index D S → Key → Value → Index D S
  grown x k v =
      let z = finish T (assign_row T (find_insert T x k).1 k v) in record z { ic = add_int z.ic 1 }
