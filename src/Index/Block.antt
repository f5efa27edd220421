-- ===== src/Index/Block.antt =====
-- The values of a key in a row: blocks of equal length side by side. The loop that
-- hybrid_index/mtIndexAPI.hh repeats in `dynamic_remove_nuv`, `static_remove_nuv0`,
-- `static_remove_nuv1`, `dynamic_replace`, `static_replace0` and `static_replace1`.
pub mod Search
use microbench.Common.{
  ℕ, zero, suc, ◌+◌, ◌-◌, ◌*◌, ◌/◌, ◌≤◌, ◌<◌, ◌≡◌, ◌≢◌, ◌⊎◌, inl, inr, none, some, ltb,
  if◌then◌else◌, ◌&&◌, length, get_elem?, take, drop, ◌++◌, arith, true, false, ◌==◌, refl,
}
use microbench.Common.Run.{Run, ok, fault, ◌>>=◌, Returns}
use microbench.Index.Interface.{Value}

module _ (row value : Value) where
  -- `row.len/value.len`, for a value that is not empty.
  abbrev pub blocks : ℕ
  blocks = length row / length value

  -- The loop's `i` at its end; `fault` is a read out of bounds, or no fuel.
  unfoldable pub search_block : ℕ → ℕ → ℕ → Run ℕ
  search_block zero i j = if ltb i blocks && ltb j (length value) then fault else ok i
  search_block (suc fuel) i j =
      let next = search_block fuel i (j + 1) in
      let skip = search_block fuel (i + 1) 0 in
      if ltb i blocks && ltb j (length value)
      then elim (get_elem? row (i * length value + j)) [
        | none ↦ fault
        | some a ↦ elim (get_elem? value j) [
          | none ↦ fault
          | some b ↦ if a == b then next else skip
        ]
      ]
      else ok i

  -- `i` at the end of the loop, or a division by zero.
  unfoldable pub find_block : Run ℕ
  find_block = if length value == 0 then fault else search_block (length row) 0 0

  -- `memcpy` of the bytes before and behind a block.
  unfoldable pub drop_block : ℕ → Value
  drop_block i = take (i * length value) row ++ drop (i * length value + length value) row

-- The row with a new value over the block at `i`.
unfoldable pub write_block : Value → Value → ℕ → Value
write_block row value i =
    take (i * length value) row ++ value ++ drop (i * length value + length value) row
