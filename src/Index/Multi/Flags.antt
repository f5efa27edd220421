-- ===== src/Index/Multi/Flags.antt =====
-- What a multivalue index relies on: a counter at zero means an empty table.
use microbench.Common.{◌≡◌, none}
use microbench.Key.{Key}
use microbench.Index.{Index}
use microbench.Index.Interface.{Tables}

module _ {D S : Type 0} (T : Tables D S) where
  abbrev pub IsDynamicFlagged : Index D S → Type 0
  IsDynamicFlagged x = (k : Key) → x.ic ≡ 0 → T.find x.table k ≡ none

  abbrev pub IsFlagged : Index D S → Type 0
  IsFlagged x = IsDynamicFlagged x × ((k : Key) → x.sic ≡ 0 → T.static_find x.static_table k ≡ none)
