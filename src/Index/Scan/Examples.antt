-- ===== src/Index/Scan/Examples.antt =====
-- Runs of the scans on listed tables, that give fixed next entries.
use microbench.Common.{◌≡◌, ◌++◌, refl, [], ◌∷◌, some, none, false, List, Ordering}
use microbench.Common.Run.{ok, fault}
use microbench.Key.{Key}
use microbench.Index.{Index}
use microbench.Index.Scan.{
  advance_to, Scans, Entry, compare_prefix, compare_next, advance, advance_nuv,
  dynamic_peek_static_cur, dynamic_peek_next, static_peek_next,
}
use microbench.Index.Scan.Order.{Ordered, compare_next-Ordered}
use microbench.Index.Scan.Stops.{advance_nuv_joins}

-- A table is its entries from the next key on.
abbrev scans : Scans (List Entry) (List Entry)
scans = record {
  scan = λ d k n. d;
  upper_bound_or_equal = λ s k. ok none;
  find_next = λ s k. elim s [ [] ↦ fault | e ∷ l ↦ ok (some e) ];
}

abbrev two_tables : List Entry → List Entry → Key → Key → Index (List Entry) (List Entry)
two_tables d s cur static_cur = record {
  table = d;
  static_table = s;
  ic = 1;
  sic = 2;
  key_size = 8;
  multivalue = false;
  held = false;
  cur_key = cur;
  static_cur_key = static_cur;
  first_scan = false;
}

abbrev key_a : Key
key_a = 0x61 ∷ []

abbrev key_b : Key
key_b = 0x62 ∷ []

abbrev key_c : Key
key_c = 0x63 ∷ []

-- At "a", with "b" in the dynamic table and "c" in the static table to come.
abbrev from_a : Index (List Entry) (List Entry)
from_a = two_tables ((key_b, 1 ∷ []) ∷ []) ((key_c, 2 ∷ []) ∷ []) [] key_a

abbrev at_b : Index (List Entry) (List Entry)
at_b = two_tables ((key_b, 1 ∷ []) ∷ []) ((key_c, 2 ∷ []) ∷ []) key_b key_a

-- `advance` gives "b" and stops there.
stops_at_both :
    (advance scans from_a ≡ ok (some (1 ∷ []), at_b)) × (advance scans at_b ≡ ok (none, at_b))
unfolding advance advance_to dynamic_peek_static_cur static_peek_next compare_next compare_prefix
stops_at_both = (refl, refl)

-- Both at "a", with "b" in the dynamic table and "bc" in the static table to come.
abbrev both_a : Index (List Entry) (List Entry)
both_a =
    two_tables ((key_a, 0 ∷ []) ∷ (key_b, 1 ∷ []) ∷ []) ((0x62 ∷ 0x63 ∷ [], 2 ∷ []) ∷ []) key_a
      key_a

advance_nuv_joins_example :
    advance_nuv scans both_a
    ≡ ok (
      some (1 ∷ [], 2 ∷ []),
      record both_a { cur_key = key_b; static_cur_key = key_b ++ 0x63 ∷ [] },
    )
unfolding dynamic_peek_next static_peek_next
advance_nuv_joins_example =
    advance_nuv_joins scans both_a 0x61 0x61 [] [] key_b [] 0x63 (1 ∷ []) (2 ∷ []) refl refl refl
      refl

compare_next-Ordered_example : Ordered key_a (0x61 ∷ 0x62 ∷ []) Ordering.lt
unfolding compare_next compare_prefix
compare_next-Ordered_example = compare_next-Ordered key_a (0x61 ∷ 0x62 ∷ []) Ordering.lt refl
