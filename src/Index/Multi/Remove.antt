-- ===== src/Index/Multi/Remove.antt =====
-- `dynamic_remove_nuv`: one value is taken out of the row of a key.
use microbench.Common.{
  ℕ, ◌+◌, ◌<◌, ◌≡◌, ◌≢◌, none, some, true, false, Bool, Option, length, ◌==◌, if◌then◌else◌,
}
use microbench.Common.Run.{ok}
use microbench.Key.{Key}
use microbench.Index.{Index, entries, put}
use microbench.Index.Block.{blocks, find_block, drop_block}
use microbench.Index.Block.Search.{IsBlock}
use microbench.Index.Counter.{sub_int}
use microbench.Index.Interface.{Tables, Value, DynamicLaws}
use microbench.Index.Multi.Flags.{IsDynamicFlagged}

module _ {D S : Type 0} (T : Tables D S) (dl : DynamicLaws T) where
  -- The row without its block at `i`, which is none if it was its only block.
  abbrev pub remaining : Value → Value → ℕ → Option Value
  remaining row v i = if length row == length v then none else some (drop_block row v i)

  -- What the dynamic table is after the value has been taken from the row at block `i`.
  abbrev pub TakenAt : Index D S → Key → Value → Index D S → Value → ℕ → Type 0
  TakenAt x k v y row i =
      (y.ic + 1 ≡ x.ic)
      × (y.sic ≡ x.sic)
      × (y.static_table ≡ x.static_table)
      × (T.find y.table k ≡ remaining row v i)
      × ((j : Key) → j ≢ k → T.find y.table j ≡ T.find x.table j)

  abbrev pub Taken : Index D S → Key → Value → Bool × Index D S → Type 0
  Taken x k v (false, y) =
      (y ≡ x)
      × ((row : Value) (i : ℕ) → T.find x.table k ≡ some row → i < blocks row v → ¬ IsBlock row v i)
  Taken x k v (true, y) =
      (row : Value) × (i : ℕ) × (T.find x.table k ≡ some row)
      × (i < blocks row v)
      × IsBlock row v i
      × ((h : ℕ) → h < i → ¬ IsBlock row v h)
      × TakenAt x k v y row i

  module _ (x : Index D S) (k : Key) (v : Value) (flags : IsDynamicFlagged T x)
      (size : length v ≡ 8)
      (room : (row : Value) → T.find x.table k ≡ some row → x.ic + length row < 2147483648) where
    -- The branches of the code.
    module _ (row : Value) (is : T.find x.table k ≡ some row) where
      module _ (i : ℕ) (run : find_block row v ≡ ok i) where
        abbrev shorter : Index D S
        shorter =
            let y = put T x k (drop_block row v i) in
            record y { ic = sub_int (sub_int y.ic 1) (entries (drop_block row v i)) }
