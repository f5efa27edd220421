-- ===== src/Trie/Examples.antt =====
-- Runs of the point cursor on a trie of two layers, and the theorems at it.
use mathlib.Core.List.Permᴰ as Perm
use microbench.Common.{ℕ, ◌≡◌, [], ◌∷◌, some, none, true, arith, refl}
use microbench.Common.Run.{ok, Returns}
use microbench.Key.{Key, ikey, make_comparable, key_compare}
use microbench.Massnode.{value, layer, Slot, invalidate, set_lv, ksuf_equals}
use microbench.Massnode.Search.{search}
use microbench.Massnode.Order.{
  lower_bound_binary, upper_bound_or_equal_binary, Bounds, upper_bound_or_equal_binary-Bounds,
}
use microbench.Massnode.Chains.{Ascending-IsAscending, All-get}
use microbench.Trie.{Trie, find, remove, update, step, classify}
use microbench.Trie.Destroy.{destroy, destroy-Frees}
use microbench.Trie.Holds.{Fits, IsWellFormed}
use microbench.Trie.Find.{Answers, find-Answers}
use microbench.Trie.Update.{Updated, update-Updated}
use microbench.Trie.Remove.{Removed, remove-Removed}
use microbench.Trie.Siblings.{slot_of, node_of}
use microbench.Trie.Multivalue.{
  find_multivalue, remove_dynamicvalue, key_compare_multivalue_confuses,
}

program : Unit {0}
unfolding find remove update step classify lower_bound_binary search key_compare ikey ksuf_equals
    make_comparable invalidate set_lv
program = tt

-- "longkey8" with a layer below it, that has "longkey8A" and "longkey8BB"; and "z".
abbrev lower : Trie ℕ 1
lower = record {
  has_ksuf = true;
  slots =
      record { ikeylen = 1; ikey = 0x4100000000000000; lv = value 20; ksuf = [] }
      ∷ record { ikeylen = 2; ikey = 0x4242000000000000; lv = value 21; ksuf = [] }
      ∷ [];
}

abbrev upper : Trie ℕ 2
upper = record {
  has_ksuf = true;
  slots =
      record { ikeylen = 137; ikey = 0x6c6f6e676b657938; lv = layer lower; ksuf = [] }
      ∷ record { ikeylen = 1; ikey = 0x7a00000000000000; lv = value 30; ksuf = [] }
      ∷ [];
}

abbrev long_a : Key
long_a = 0x6c ∷ 0x6f ∷ 0x6e ∷ 0x67 ∷ 0x6b ∷ 0x65 ∷ 0x79 ∷ 0x38 ∷ 0x41 ∷ []

find_long : find ℕ 2 upper long_a ≡ ok (some 20)
unfolding program
find_long = refl

find_z : find ℕ 2 upper (0x7a ∷ []) ≡ ok (some 30)
unfolding program
find_z = refl

find_absent : find ℕ 2 upper (0x7a ∷ 0x7a ∷ []) ≡ ok none
unfolding program
find_absent = refl

lower-IsWellFormed : IsWellFormed ℕ 1 lower
lower-IsWellFormed = (
  Ascending-IsAscending lower.slots (omega arith),
  λ p e get.
      All-get (λ (s : Slot ℕ (Trie ℕ 0)). Fits (IsWellFormed ℕ 0) s.ikeylen s.lv) lower.slots p e
        (omega arith) get,
)

upper-IsWellFormed : IsWellFormed ℕ 2 upper
upper-IsWellFormed = (
  Ascending-IsAscending upper.slots (omega arith),
  λ p e get.
      All-get (λ (s : Slot ℕ (Trie ℕ 1)). Fits (IsWellFormed ℕ 1) s.ikeylen s.lv) upper.slots p e
        ((omega arith, lower-IsWellFormed), (omega arith, tt)) get,
)

destroy-Frees_example :
    Returns (destroy 2 2 (some upper)) (λ l. Perm.Permᴰ l ((2, upper) ∷ (1, lower) ∷ []))
destroy-Frees_example = destroy-Frees 2 upper upper-IsWellFormed

find-Answers_example : Returns (find ℕ 2 upper long_a) (Answers ℕ 2 upper long_a)
find-Answers_example = find-Answers ℕ 2 upper long_a upper-IsWellFormed

update-Updated_example : Returns (update ℕ 2 upper long_a 99) (Updated ℕ 2 upper long_a 99)
update-Updated_example = update-Updated ℕ 2 upper long_a 99 (omega arith) upper-IsWellFormed

remove-Removed_example : Returns (remove ℕ 2 upper long_a) (Removed ℕ 2 upper long_a)
remove-Removed_example = remove-Removed ℕ 2 upper long_a (omega arith) upper-IsWellFormed

-- "abcdefgh" and "abcdefghi".
abbrev eight : Key
eight = 0x61 ∷ 0x62 ∷ 0x63 ∷ 0x64 ∷ 0x65 ∷ 0x66 ∷ 0x67 ∷ 0x68 ∷ []

abbrev nine : Key
nine = 0x61 ∷ 0x62 ∷ 0x63 ∷ 0x64 ∷ 0x65 ∷ 0x66 ∷ 0x67 ∷ 0x68 ∷ 0x69 ∷ []

-- "a", and "a" with a zero byte behind it.
upper_bound_or_equal_binary-Bounds_example :
    Returns (upper_bound_or_equal_binary lower (0x42 ∷ [])) (Bounds lower (0x42 ∷ []))
upper_bound_or_equal_binary-Bounds_example = upper_bound_or_equal_binary-Bounds lower (0x42 ∷ [])

key_compare_multivalue_confuses_example :
    (find_multivalue ℕ 1
        (node_of ℕ (slot_of ℕ (0x61 ∷ []) 1 ∷ slot_of ℕ (0x61 ∷ 0 ∷ []) 2 ∷ []))
        (0x61 ∷ [])
      ≡ ok (some 2))
    × (remove_dynamicvalue ℕ 1
          (node_of ℕ (slot_of ℕ (0x61 ∷ []) 1 ∷ slot_of ℕ (0x61 ∷ 0 ∷ []) 2 ∷ []))
          (0x61 ∷ [])
        ≡ ok (
          true,
          node_of ℕ (slot_of ℕ (0x61 ∷ []) 1 ∷ invalidate (slot_of ℕ (0x61 ∷ 0 ∷ []) 2) ∷ []),
        ))
key_compare_multivalue_confuses_example =
    key_compare_multivalue_confuses ℕ (0x61 ∷ []) (0x61 ∷ 0 ∷ []) 1 2
      (unfold ikey make_comparable in refl) (omega arith) (omega arith) (omega arith)
