-- ===== src/Cursor/Examples.antt =====
-- Runs of the scan cursor, and the theorems at them.
use microbench.Common.{
  ℕ, ◌≡◌, Bool, [], ◌∷◌, ◌++◌, some, none, true, false, arith, refl, take, replicate,
}
use microbench.Common.Run.{Run, ok, fault, Returns, ◌>>=◌}
use microbench.Cursor.{
  Cursor, setup_cursor, find_leftmost, find_next_leftmost, take_cur, take_next, find_next,
  find_next1, find_next2, next_item_next, next_item, next_item_from_next_node,
  next_item_from_next_node_next, find_upper_bound_or_equal, find_upper_bound, walk, start_at,
  valid_from, slice_bytes, key_of, cur_key, next_key, cur_value, key_above, suffix_above,
}
use microbench.Cursor.Advance.{KeepsValue, find_next2-KeepsValue}
use microbench.Cursor.Bytes.{slice_bytes-make_comparable}
use microbench.Cursor.Ends.{next_item_next_faults}
use microbench.Cursor.Leftmost.{HasValue, find_leftmost-HasValue}
use microbench.Cursor.Next.{IsAt, find_next1-IsAt}
use microbench.Key.{Key, ikey, make_comparable, key_compare}
use microbench.Massnode.{value, layer, Slot}
use microbench.Massnode.Chains.{Ascending-IsAscending}
use microbench.Massnode.Order.{lower_bound_binary, upper_bound_or_equal_binary}
use microbench.Massnode.Search.{search}
use microbench.Merge.Holds.{IsTrie}
use microbench.Trie.{Trie, read_slot}

program : Unit {0}
unfolding setup_cursor find_leftmost find_next_leftmost take_cur take_next find_next find_next1
    find_next2 next_item_next next_item next_item_from_next_node next_item_from_next_node_next
    find_upper_bound_or_equal find_upper_bound walk start_at valid_from slice_bytes key_of cur_key
    next_key cur_value key_above suffix_above ikey make_comparable key_compare lower_bound_binary
    upper_bound_or_equal_binary search read_slot
program = tt

abbrev entry : ℕ → ℕ → ℕ → Slot ℕ (Trie ℕ 0)
entry len i v = record { ikeylen = len; ikey = i; lv = value v; ksuf = [] }

-- "b" is 1, "d" is 2 and "f" is 3; the slot between "b" and "d" is deleted.
abbrev letters : Trie ℕ 1
letters = record {
  has_ksuf = true;
  slots =
      entry 1 0x6200000000000000 1
      ∷ entry 0 0x6300000000000000 9
      ∷ entry 1 0x6400000000000000 2
      ∷ entry 1 0x6600000000000000 3
      ∷ [];
}

abbrev fresh : Cursor ℕ
fresh = record {
  ka = [];
  n = none;
  kp = 0;
  trace = [];
  cur_prefix = [];
  cur_suffix = [];
  cur_lv = none;
  next_prefix = [];
  next_suffix = [];
  next_lv = none;
  is_exact = false;
}

abbrev values : Run (Bool × Cursor ℕ) → Run (Key × ℕ)
values r = r >>= λ s. cur_value s.1 >>= λ v. ok (cur_key s.1, v)

-- The key "d" is given as eight bytes.
upper_bound_c :
    values (find_upper_bound_or_equal 1 letters (setup_cursor fresh (0x63 ∷ [])))
    ≡ ok (0x64 ∷ 0 ∷ 0 ∷ 0 ∷ 0 ∷ 0 ∷ 0 ∷ 0 ∷ [], 2)
unfolding program
upper_bound_c = refl

upper_bound_d :
    values (find_upper_bound 1 letters (setup_cursor fresh (0x64 ∷ [])))
    ≡ ok (0x66 ∷ 0 ∷ 0 ∷ 0 ∷ 0 ∷ 0 ∷ 0 ∷ 0 ∷ [], 3)
unfolding program
upper_bound_d = refl

-- Two steps on from "b" the value is still that of "b".
second_step :
    values (find_next1 1 letters (setup_cursor fresh (0x62 ∷ [])) >>= λ s. find_next2 s.1)
    ≡ ok (0x62 ∷ 0 ∷ 0 ∷ 0 ∷ 0 ∷ 0 ∷ 0 ∷ 0 ∷ [], 1)
unfolding program
second_step = refl

-- From the last key the code pops an empty vector.
last_step : find_next 1 letters (setup_cursor fresh (0x66 ∷ [])) ≡ fault
unfolding program
last_step = refl

-- "d" in a layer below the slice of "longkey8".
abbrev tall : Trie ℕ 2
tall = record {
  has_ksuf = true;
  slots = record { ikeylen = 73; ikey = 0x6c6f6e676b657938; lv = layer low; ksuf = [] } ∷ [];
}
  where
    low : Trie ℕ 1
    low = record { has_ksuf = true; slots = entry 1 0x6400000000000000 4 ∷ [] }

tall-IsTrie : IsTrie ℕ 2 tall
tall-IsTrie = (refl, omega arith, ground arith)

find_leftmost-HasValue_example : Returns (find_leftmost 2 tall fresh) (HasValue ℕ)
find_leftmost-HasValue_example = find_leftmost-HasValue ℕ 2 tall fresh tall-IsTrie

find_next1-IsAt_example :
    Returns (find_next1 1 letters (setup_cursor fresh (0x64 ∷ []))) (
      IsAt 0 letters
        (0x64 ∷ [])
        fresh
        (entry 1 0x6400000000000000 2)
        (entry 1 0x6600000000000000 3))
unfolding program
find_next1-IsAt_example =
    find_next1-IsAt 0 letters (0x64 ∷ []) fresh 2 3 (entry 1 0x6400000000000000 2)
      (entry 1 0x6600000000000000 3) (Ascending-IsAscending letters.slots (ground arith)) refl refl
      refl refl (omega arith, refl, refl, λ j e less more at. absurd (omega arith)) refl

-- The cursor on the way, at "b" with "d" to come.
abbrev moving : Cursor ℕ
moving = record fresh {
  n = some (1, letters);
  kp = 2;
  trace = ((1, letters), 1) ∷ [];
  cur_lv = some (value 1);
  next_prefix = 0x6400000000000000 ∷ [];
  next_lv = some (value 2);
}

find_next2-KeepsValue_example : KeepsValue moving (find_next2 moving)
find_next2-KeepsValue_example = find_next2-KeepsValue moving

abbrev ending : Cursor ℕ
ending = record moving { kp = 3; trace = ((1, letters), 3) ∷ [] }

next_item_next_faults_example : next_item_next 0 letters ending ≡ fault
unfolding program
next_item_next_faults_example = next_item_next_faults 0 letters ending refl refl (refl, tt)

slice_bytes-make_comparable_example :
    slice_bytes 8 (make_comparable 8 (0x64 ∷ 0x65 ∷ []))
    ≡ take 8 ((0x64 ∷ 0x65 ∷ []) ++ replicate 8 0)
slice_bytes-make_comparable_example =
    slice_bytes-make_comparable 8 (0x64 ∷ 0x65 ∷ []) (ground arith)
