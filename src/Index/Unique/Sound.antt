-- ===== src/Index/Unique/Sound.antt =====
-- What an index stores, and when its counters are right.
use microbench.Common.{◌+◌, ◌<◌, ◌≡◌, ◌==◌, Option, some, arith, Bool-cases, inl, inr}
use microbench.Key.{Key}
use microbench.Index.{Index, dynamic_get}
use microbench.Index.Interface.{Tables, Value, DynamicLaws, orelse}

module _ {D S : Type 0} (T : Tables D S) where
  -- The dynamic table's entry hides that of the static table.
  abbrev pub view : Index D S → Key → Option Value
  view x k = orelse (T.find x.table k) (T.static_find x.static_table k)

  -- The static counter is not zero while the static table has a key.
  abbrev pub IsBacked : Index D S → Type 0
  IsBacked x = (k : Key) (w : Value) → T.static_find x.static_table k ≡ some w → 0 < x.sic

  module _ (dl : DynamicLaws T) where
    -- `ic` is the number of entries of the dynamic table, and the counters are no negative `int`s.
    abbrev pub IsCounted : Index D S → Type 0
    IsCounted x = (dl.count x.table ≡ x.ic) × (x.ic + x.sic < 2147483648)

    -- With a counter at zero its table has nothing.
    pub dynamic_get-find :
        (x : Index D S) (k : Key) → IsCounted x → dynamic_get T x k ≡ T.find x.table k
    unfolding dynamic_get
    dynamic_get-find x k h = elim (Bool-cases (x.ic == 0)) [
      | inl zer ↦ ground (arith, dl.count-zero x.table k)
      | inr pos ↦ rw pos
    ]
