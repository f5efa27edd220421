-- ===== src/Index/Examples.antt =====
-- Runs of the index on listed tables, and on a listed table beside a trie, and the theorems at them.
use microbench.Common.{◌≡◌, none, refl, [], ◌∷◌, ◌++◌, some, true, false, arith}
use microbench.Common.Run.{Returns}
use microbench.Key.{Key}
use microbench.Index.{Index, setup, merge, dynamic_get, static_get}
use microbench.Index.Interface.{Value, Tables, DynamicLaws}
use microbench.Index.Unique.{get_ordered, put_uv, get, remove, update_uv}
use microbench.Index.Unique.Ordered.{Positioned, get_ordered-Positioned}
use microbench.Index.Unique.Sound.{IsCounted}
use microbench.Index.Unique.Update.{Overwritten, update_uv-Overwritten}
use microbench.Index.Block.{find_block}
use microbench.Index.Block.Search.{IsFirst, find_block-IsFirst}
use microbench.Index.Listed.{lookup, insert, erase}
use microbench.Index.Listed.Laws.{Listed, listed, dynamic_laws}
use microbench.Index.Tries.{Root, with_trie, IsGood, trie_updates}
use microbench.Massnode.{bytes_equal, value, Slot}
use microbench.Massnode.Chains.{Ascending-IsAscending, All-get}
use microbench.Trie.{Trie}
use microbench.Trie.Holds.{Fits, IsWellFormed}

-- "a" and "b", and two values of eight bytes.
abbrev key_a : Key
key_a = 0x61 ∷ []

abbrev key_b : Key
key_b = 0x62 ∷ []

abbrev ones : Value
ones = 1 ∷ 1 ∷ 1 ∷ 1 ∷ 1 ∷ 1 ∷ 1 ∷ 1 ∷ []

abbrev twos : Value
twos = 2 ∷ 2 ∷ 2 ∷ 2 ∷ 2 ∷ 2 ∷ 2 ∷ 2 ∷ []

-- The dynamic table has "a", the static table has "b".
abbrev mixed : Index Listed Listed
mixed = record {
  table = listed.put listed.empty key_a ones;
  static_table = listed.put listed.static_empty key_b twos;
  ic = 1;
  sic = 1;
  key_size = 8;
  multivalue = false;
  held = false;
  cur_key = [];
  static_cur_key = [];
  first_scan = false;
}

listed_program : Unit {0}
unfolding lookup insert erase merge bytes_equal put_uv get remove update_uv setup
listed_program = tt

-- A trie with "b", and the same dynamic table beside it. No example builds or merges a static table.
abbrev small : Trie Value 1
small = record {
  has_ksuf = true;
  slots = record { ikeylen = 1; ikey = 0x6200000000000000; lv = value twos; ksuf = [] } ∷ [];
}

abbrev paired : Tables Listed (Root 1)
paired = with_trie 1 record {
  empty = listed.empty;
  static_empty = none;
  find = listed.find;
  put = listed.put;
  remove = listed.remove;
  build = λ d. none;
  build_quick = λ n d. none;
  static_find = λ s k. none;
  static_remove = λ s k. (false, s);
  static_update = λ s k v. (false, s);
  merge = λ s b. s;
}

abbrev paired_laws : DynamicLaws paired
paired_laws = record {
  count = dynamic_laws.count;
  count-zero = dynamic_laws.count-zero;
  count-empty = dynamic_laws.count-empty;
  count-put_new = dynamic_laws.count-put_new;
  count-put_old = dynamic_laws.count-put_old;
  find-put = dynamic_laws.find-put;
  find-put_ne = dynamic_laws.find-put_ne;
  remove-none = dynamic_laws.remove-none;
  remove-some = dynamic_laws.remove-some;
}

abbrev beside : Index Listed (Root 1)
beside = record {
  table = mixed.table;
  static_table = some small;
  ic = 1;
  sic = 1;
  key_size = 8;
  multivalue = false;
  held = false;
  cur_key = [];
  static_cur_key = [];
  first_scan = false;
}

beside-IsCounted : IsCounted paired paired_laws beside
unfolding listed_program
beside-IsCounted = (refl, omega arith)

small-IsGood : IsGood 1 (some small)
small-IsGood = (
  Ascending-IsAscending small.slots (omega arith),
  λ p e get.
      All-get (λ (s : Slot Value (Trie Value 0)). Fits (IsWellFormed Value 0) s.ikeylen s.lv)
        small.slots p e (omega arith, tt) get,
)

get_a : get listed mixed key_a ≡ some ones
unfolding listed_program dynamic_get static_get
get_a = refl

get_b : get listed mixed key_b ≡ some twos
unfolding listed_program dynamic_get static_get
get_b = refl

get_ordered-Positioned_example : Positioned listed mixed key_b (get_ordered listed mixed key_b)
get_ordered-Positioned_example = get_ordered-Positioned listed mixed key_b

update_uv-Overwritten_example :
    Overwritten paired paired_laws
      (IsGood 1)
      (trie_updates 1 paired)
      beside
      key_b
      ones
      (update_uv paired beside key_b ones)
update_uv-Overwritten_example =
    update_uv-Overwritten paired paired_laws (IsGood 1) (trie_updates 1 paired) beside key_b ones
      beside-IsCounted small-IsGood (omega arith) refl

find_block-IsFirst_example : Returns (find_block (ones ++ twos) twos) (IsFirst (ones ++ twos) twos)
find_block-IsFirst_example = find_block-IsFirst (ones ++ twos) twos (omega arith)
