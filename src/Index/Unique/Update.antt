-- ===== src/Index/Unique/Update.antt =====
-- `update_uv` of a unique index, and `put`, by which it writes to the dynamic table.
use microbench.Common.{
  ◌+◌, ◌≡◌, ◌≢◌, refl, none, some, arith, true, false, inl, inr, Bool, Option-cases, Option, length,
}
use microbench.Key.{Key}
use microbench.Key.Slice.{AreBytes}
use microbench.Index.{Index, put}
use microbench.Index.Interface.{Tables, Value, DynamicLaws, StaticUpdates}
use microbench.Index.Unique.{update_uv, static_update_uv}
use microbench.Index.Unique.Sound.{view, IsCounted, dynamic_get-find}

module _ {D S : Type 0} (T : Tables D S) (dl : DynamicLaws T) (Good : S → Type 0)
    (sl : StaticUpdates T Good) where
  -- The dynamic counter is right after an update of the static table; after one of the dynamic table
  -- it is one too large.
  abbrev pub Counted : Index D S → Option Value → Index D S → Type 0
  Counted x none y = IsCounted T dl y
  Counted x (some old) y = (y.ic ≡ dl.count y.table + 1) × (dl.count y.table ≡ x.ic)

  abbrev pub Overwritten : Index D S → Key → Value → Bool × Index D S → Type 0
  Overwritten x k v (true, y) =
      ((old : Value) × (view T x k ≡ some old))
      × Counted x (T.find x.table k) y
      × Good y.static_table
      × (view T y k ≡ some v)
      × ((j : Key) → AreBytes j → j ≢ k → view T y j ≡ view T x j)
  Overwritten x k v (false, y) = (view T x k ≡ none) × (y ≡ x)

  module _ (x : Index D S) (k : Key) (v : Value) (h : IsCounted T dl x) (good : Good x.static_table)
      (bytes : AreBytes k) where
    update_uv_dynamic :
        (old : Value) → T.find x.table k ≡ some old → update_uv T x k v ≡ (true, put T x k v)
    unfolding update_uv
    update_uv_dynamic old is = rw (update_uv, dynamic_get-find T dl x k h, is)

    update_uv_static : T.find x.table k ≡ none → update_uv T x k v ≡ static_update_uv T x k v
    unfolding update_uv
    update_uv_static miss = rw (update_uv, dynamic_get-find T dl x k h, miss)

    put-Overwritten :
        (old : Value)
        → length v ≡ 8
        → T.find x.table k ≡ some old
        → Overwritten x k v (true, put T x k v)
    unfolding put
    put-Overwritten old size is =
        let c = dl.count-put_old x.table k v old is in
        (
          (old, rw is),
          rw is (ground arith, omega arith),
          good,
          rw (dl.find-put x.table k v),
          λ j hj differ. rw (dl.find-put_ne x.table j k v differ),
        )

    static_update_uv-Overwritten :
        T.find x.table k ≡ none → Overwritten x k v (static_update_uv T x k v)
    unfolding static_update_uv
    static_update_uv-Overwritten miss = elim (Option-cases (T.static_find x.static_table k)) [
      | inl absent ↦
          rw (sl.static_update-none x.static_table k v good bytes absent) (rw (miss, absent), refl)
      | inr (old, is) ↦
          let (s, run, fine, now, other) =
            sl.static_update-some x.static_table k v old good bytes is in
          rw run (
            (old, rw (miss, is)),
            rw miss h,
            fine,
            rw (miss, now),
            λ j hj differ. rw (other j hj differ),
          )
    ]

    -- With a right dynamic counter, a well-formed static table, a key of bytes and a value of
    -- `VALUE_LEN` bytes, `update_uv` fails exactly for a key that neither table has, and changes
    -- nothing then. Otherwise the new value is found first under the key, other keys of bytes keep
    -- theirs, and the static table is well formed. The dynamic counter stays right if the dynamic
    -- table does not have the key. If it has it, the dynamic counter, which was the number of
    -- entries, is one more than it.
    pub update_uv-Overwritten : length v ≡ 8 → Overwritten x k v (update_uv T x k v)
    update_uv-Overwritten size = elim (Option-cases (T.find x.table k)) [
      | inr (old, is) ↦ rw (update_uv_dynamic old is) (put-Overwritten old size is)
      | inl miss ↦ rw (update_uv_static miss) (static_update_uv-Overwritten miss)
    ]
