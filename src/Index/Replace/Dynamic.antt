-- ===== src/Index/Replace/Dynamic.antt =====
-- `dynamic_replace`: what it writes, and the lock that a failure leaves held.
use microbench.Common.{ℕ, ◌<◌, ◌≡◌, some, true, false, Bool}
use microbench.Key.{Key}
use microbench.Index.{Index}
use microbench.Index.Block.{blocks, write_block}
use microbench.Index.Block.Search.{IsBlock}
use microbench.Index.Interface.{Tables, Value, DynamicLaws}

module _ {D S : Type 0} (T : Tables D S) (dl : DynamicLaws T) where
  -- Without success only the lock cursor differs.
  abbrev pub Replaced : Index D S → Key → Value → Value → Bool × Index D S → Type 0
  Replaced x k v old (false, y) =
      (y ≡ record x { held = true })
      × ((row : Value) (i : ℕ)
          → T.find x.table k ≡ some row
          → i < blocks row old
          → ¬ IsBlock row old i)
  Replaced x k v old (true, y) =
      (row : Value) × (i : ℕ) × (T.find x.table k ≡ some row)
      × (i < blocks row old)
      × IsBlock row old i
      × ((h : ℕ) → h < i → ¬ IsBlock row old h)
      × (y ≡ record x { held = false; table = T.put x.table k (write_block row v i) })
