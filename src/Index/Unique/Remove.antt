-- ===== src/Index/Unique/Remove.antt =====
-- `remove` of a unique index.
use microbench.Common.{◌+◌, ◌≡◌, ◌≢◌, none, some, true, false, Bool, Option}
use microbench.Key.{Key}
use microbench.Key.Slice.{AreBytes}
use microbench.Index.{Index}
use microbench.Index.Interface.{Tables, Value, DynamicLaws, StaticRemoves}
use microbench.Index.Unique.Sound.{view, IsCounted}

module _ {D S : Type 0} (T : Tables D S) (dl : DynamicLaws T) (Good : S → Type 0)
    (sl : StaticRemoves T Good) where
  -- What the static table has under the key while the dynamic table hides it.
  abbrev pub hidden : Index D S → Key → Option Value
  hidden x k = elim (T.find x.table k) [ some v ↦ T.static_find x.static_table k | none ↦ none ]

  abbrev pub Dropped : Index D S → Key → Bool × Index D S → Type 0
  Dropped x k (true, y) =
      ((old : Value) × (view T x k ≡ some old))
      × IsCounted T dl y
      × Good y.static_table
      × (y.ic + y.sic + 1 ≡ x.ic + x.sic)
      × (view T y k ≡ hidden x k)
      × ((j : Key) → AreBytes j → j ≢ k → view T y j ≡ view T x j)
  Dropped x k (false, y) = (view T x k ≡ none) × (y ≡ x)
