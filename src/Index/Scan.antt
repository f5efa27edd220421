-- ===== src/Index/Scan.antt =====
-- The ordered scan of hybrid_index/mtIndexAPI.hh: from a key that an ordered lookup found, `advance`
-- and `advance_nuv` go to the next key of the two tables. The buffers of the peeked keys only hand
-- them from a peek to `advance`, and are its local values here.
pub mod Order
pub mod Stops
mod Examples
use microbench.Common.{
  ℕ, Bool, true, false, Option, none, some, List, [], ◌∷◌, ◌==◌, if◌then◌else◌, ltb, length,
  Ordering, compare, ◌&&◌,
}
use microbench.Common.Run.{Run, ok, ◌>>=◌}
use microbench.Key.{Key}
use microbench.Index.{Index}
use microbench.Index.Interface.{Value}

abbrev pub Entry : Type 0
Entry = Key × Value

pub record Scans (D S : Type 0) : Type 0 where
  -- `run_scan`: at most so many entries in key order, from the key on.
  pub scan : D → Key → ℕ → List Entry
  -- `find_upper_bound_or_equal` and `find_next` of a static scan cursor set up at the key, and the
  -- entry that it has then. They may fault, as `find_next` does at the last key of the trie.
  pub upper_bound_or_equal : S → Key → Run (Option Entry)
  pub find_next : S → Key → Run (Option Entry)

-- The loop over `cmplen` bytes; they are compared as unsigned.
unfoldable pub compare_prefix : Key → Key → Ordering
compare_prefix [] t = Ordering.eq
compare_prefix (a ∷ s) [] = Ordering.eq
compare_prefix (a ∷ s) (b ∷ t) = elim (compare a b) [
  | Ordering.lt ↦ Ordering.lt
  | Ordering.gt ↦ Ordering.gt
  | Ordering.eq ↦ compare_prefix s t
]

-- With `same_cmp` where the loop finds no difference.
unfoldable pub compare_next : Key → Key → Ordering
compare_next s t = elim (compare_prefix s t) [
  | Ordering.lt ↦ Ordering.lt
  | Ordering.gt ↦ Ordering.gt
  | Ordering.eq ↦ if ltb (length t) (length s) then Ordering.gt else Ordering.lt
]

abbrev pub first_of : List Entry → Option Entry
first_of [] = none
first_of (e ∷ l) = some e

abbrev pub second_of : List Entry → Option Entry
second_of [] = none
second_of (e ∷ l) = first_of l

abbrev is_empty : Key → Bool
is_empty k = length k == 0

module _ {D S : Type 0} (C : Scans D S) where
  unfoldable pub dynamic_peek_static_cur : Index D S → Option Entry
  dynamic_peek_static_cur x = first_of (C.scan x.table x.static_cur_key 1)

  unfoldable pub dynamic_peek_next : Index D S → Option Entry
  dynamic_peek_next x = second_of (C.scan x.table x.cur_key 2)

  unfoldable pub static_peek_dynamic_cur : Index D S → Run (Option Entry)
  static_peek_dynamic_cur x =
      if x.sic == 0 then ok none else C.upper_bound_or_equal x.static_table x.cur_key

  unfoldable pub static_peek_next : Index D S → Run (Option Entry)
  static_peek_next x = if x.sic == 0 then ok none else C.find_next x.static_table x.static_cur_key

  abbrev move_dynamic : Index D S → Key → Index D S
  move_dynamic x k = record x { cur_key = k }

  abbrev move_static : Index D S → Key → Index D S
  move_static x k = record x { static_cur_key = k }

  -- The end of `advance`, from what the two peeks found.
  unfoldable pub advance_to : Index D S → Option Entry → Option Entry → Option Value × Index D S
  advance_to x none none = (none, x)
  advance_to x none (some (j, w)) = (some w, move_static x j)
  advance_to x (some (k, v)) none = (some v, move_dynamic x k)
  advance_to x (some (k, v)) (some (j, w)) = elim (compare_next k j) [
    | Ordering.lt ↦ (some v, move_dynamic x k)
    | Ordering.gt ↦ (some w, move_static x j)
    | Ordering.eq ↦ (none, x)
  ]

  unfoldable pub advance : Index D S → Run (Option Value × Index D S)
  advance x =
      if is_empty x.cur_key && is_empty x.static_cur_key
      then ok (none, x)
      else if is_empty x.cur_key
      then (static_peek_next x >>= λ s. ok (advance_to x (dynamic_peek_static_cur x) s))
      else if is_empty x.static_cur_key
      then (static_peek_dynamic_cur x >>= λ s. ok (advance_to x (dynamic_peek_next x) s))
      else ok (none, x)

  -- The rows that are given for the next key, and the moved cursors. A loop without a difference is
  -- one key in both tables.
  unfoldable pub advance_nuv_to :
      Index D S → Option Entry → Option Entry → Option (Value × Value) × Index D S
  advance_nuv_to x none none = (none, x)
  advance_nuv_to x none (some (j, w)) = (some ([], w), move_static x j)
  advance_nuv_to x (some (k, v)) none = (some (v, []), move_dynamic x k)
  advance_nuv_to x (some (k, v)) (some (j, w)) = elim (compare_prefix k j) [
    | Ordering.lt ↦ (some (v, []), move_dynamic x k)
    | Ordering.gt ↦ (some ([], w), move_static x j)
    | Ordering.eq ↦ (some (v, w), move_static (move_dynamic x k) j)
  ]

  unfoldable pub advance_nuv : Index D S → Run (Option (Value × Value) × Index D S)
  advance_nuv x =
      if is_empty x.cur_key && is_empty x.static_cur_key
      then ok (none, x)
      else if is_empty x.cur_key
      then (static_peek_next x >>= λ s. ok (advance_nuv_to x (dynamic_peek_static_cur x) s))
      else if is_empty x.static_cur_key
      then (static_peek_dynamic_cur x >>= λ s. ok (advance_nuv_to x (dynamic_peek_next x) s))
      else static_peek_next x >>= λ s. ok (advance_nuv_to x (dynamic_peek_next x) s)
