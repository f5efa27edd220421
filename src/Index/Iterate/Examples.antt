-- ===== src/Index/Iterate/Examples.antt =====
-- Runs of iterations, and the theorems at them.
use microbench.Common.{
  ℕ, ◌≡◌, ◌++◌, Bool, true, false, Option, none, some, List, [], ◌∷◌, arith, refl, take, compare,
  Ordering, if◌then◌else◌,
}
use microbench.Common.Run.{ok, fault}
use microbench.Cursor.{
  Cursor, setup_cursor, cur_key, key_of, slice_bytes, valid_from, find_leftmost, take_cur,
  next_item, find_upper_bound_or_equal, walk, suffix_above,
}
use microbench.Index.Interface.{Value}
use microbench.Index.Iterate.{
  Iterator, dynamic_get_upper_bound_or_equal, static_get_upper_bound_or_equal,
  get_upper_bound_or_equal, get_first, get_next,
}
use microbench.Index.Iterate.Starts.{upper_bound_or_equal, run_start, run_start-get_next}
use microbench.Index.Iterate.Walk.{Lists, collect, values, get_first-collect}
use microbench.Index.Scan.{Entry}
use microbench.Key.{Key, ikey, make_comparable, key_compare}
use microbench.Massnode.{value}
use microbench.Massnode.Order.{upper_bound_or_equal_binary}
use microbench.Massnode.Search.{search}
use microbench.Trie.{Trie}

-- A table is its entries in order.
below : Key → Key → Bool
below [] [] = false
below [] (b ∷ t) = true
below (a ∷ s) [] = false
below (a ∷ s) (b ∷ t) = elim (compare a b) [
  | Ordering.lt ↦ true
  | Ordering.gt ↦ false
  | Ordering.eq ↦ below s t
]

from : Key → List Entry → List Entry
from k [] = []
from k (e ∷ entries) = let rest = from k entries in if below e.0 k then rest else e ∷ entries

abbrev scan : List Entry → Key → ℕ → List Entry
scan table k n = take n (from k table)

abbrev find : List Entry → Key → Option Value
find table k = elim (from k table) [ [] ↦ none | e ∷ rest ↦ some e.1 ]

abbrev a : Entry
a = (0x61 ∷ [], 1 ∷ [])

abbrev b : Entry
b = (0x62 ∷ [], 2 ∷ [])

ab-Lists : Lists scan (a ∷ b ∷ []) (a ∷ b ∷ [])
unfolding from below
ab-Lists = record {
  scan-lowest = λ n. refl;
  scan-key = at;
  have_bytes = (omega arith, (omega arith, tt));
}
  where
    at :
        (front : List Entry) (e : Entry) (rest : List Entry) (n : ℕ)
        → front ++ e ∷ rest ≡ a ∷ b ∷ []
        → scan (a ∷ b ∷ []) e.0 n ≡ take n (e ∷ rest)
    at [] e rest n is = let same : e ≡ a = cc in rw (is, same) refl
    at (x ∷ []) e rest n is =
        let same : e ≡ b = cc in let tail : e ∷ rest ≡ b ∷ [] = cc in rw (tail, same) refl
    at (x ∷ y ∷ []) e rest n is = absurd (cc)
    at (x ∷ y ∷ z ∷ front) e rest n is = absurd (cc)

abbrev c_slice : ℕ
c_slice = 0x6300000000000000

-- "c" in the static table.
abbrev c_trie : Trie Value 1
c_trie = record {
  has_ksuf = true;
  slots = record { ikeylen = 1; ikey = c_slice; lv = value (3 ∷ []); ksuf = [] } ∷ [];
}

abbrev fresh : Cursor Value
fresh = record {
  ka = [];
  n = none;
  kp = 0;
  trace = [];
  cur_prefix = [];
  cur_suffix = [];
  cur_lv = none;
  next_prefix = [];
  next_suffix = [];
  next_lv = none;
  is_exact = false;
}

abbrev iterator : List Entry → ℕ → ℕ → Iterator (List Entry) 1
iterator table ic sic = record {
  table = table;
  static_root = c_trie;
  ic = ic;
  sic = sic;
  cur_key = [];
  static_cur_key = [];
  static_cur_keylen = 0;
  first_scan = false;
  lp_cmt_scan = fresh;
}

get_first-collect_example :
    (y : Iterator (List Entry) 1) × (get_first find scan (iterator (a ∷ b ∷ []) 2 0) ≡ ok (true, y))
    × (collect find scan 3 y
        ≡ ok (values (a ∷ b ∷ []), record (iterator (a ∷ b ∷ []) 2 0) { cur_key = [] }))
get_first-collect_example =
    get_first-collect find scan (iterator (a ∷ b ∷ []) 2 0) a (b ∷ []) ab-Lists (omega arith) refl
      refl

-- The static table's upper bound of "b" is "c".
abbrev at_c : Iterator (List Entry) 1
at_c = record (iterator [] 0 1) {
  static_cur_key = 0x63 ∷ 0 ∷ 0 ∷ 0 ∷ 0 ∷ 0 ∷ 0 ∷ 0 ∷ [];
  static_cur_keylen = 8;
  lp_cmt_scan = record fresh {
    ka = b.0;
    n = some (1, c_trie);
    trace = ((1, c_trie), 0) ∷ [];
    cur_prefix = c_slice ∷ [];
    cur_lv = some (value (3 ∷ []));
  };
}

b_start : run_start find scan (upper_bound_or_equal b.0) (iterator [] 0 1) ≡ ok (true, at_c)
unfolding get_upper_bound_or_equal static_get_upper_bound_or_equal dynamic_get_upper_bound_or_equal
    find_upper_bound_or_equal walk setup_cursor upper_bound_or_equal_binary search key_compare ikey
    make_comparable valid_from cur_key key_of slice_bytes take_cur find_leftmost next_item
    suffix_above
b_start = refl

run_start-get_next_example : get_next find scan at_c ≡ fault
run_start-get_next_example =
    run_start-get_next find scan (upper_bound_or_equal b.0) (iterator [] 0 1) true at_c refl
      (omega arith) b_start refl (omega arith)
