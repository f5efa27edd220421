-- ===== src/Drivers/Examples.antt =====
-- The theorems on the keys of the drivers at concrete keys, and runs of the comparators.
use microbench.Common.{ℕ, ◌≡◌, ◌<◌, ◌≤◌, ◌↔◌, ◌⊎◌, Bool, true, List, [], ◌∷◌, length, refl, arith}
use microbench.Common.Run.{ok, fault, Returns, ◌>>=◌}
use microbench.Drivers.{
  strcpy, c_string, set_from_string, strcmp, generic_less, key_value_less, string_less, ints_less,
}
use microbench.Merge.Holds.{AreText}
use microbench.Drivers.Allocator.{
  Block, Heap, Reach, gives, takes, here, next, head, tail, allocate, deallocate, bytes, IsBalanced,
  Reach-IsBalanced,
}
use microbench.Drivers.Order.{Less, generic_less-Less, set_from_string-length}

-- "user1" and "user25", as the workloads have them.
abbrev user1 : List ℕ
user1 = 117 ∷ 115 ∷ 101 ∷ 114 ∷ 49 ∷ []

abbrev user25 : List ℕ
user25 = 117 ∷ 115 ∷ 101 ∷ 114 ∷ 50 ∷ 53 ∷ []

user1-AreText : AreText user1
user1-AreText = ground arith

user25-AreText : AreText user25
user25-AreText = ground arith

generic_less-Less_example :
    (a b : List ℕ) × (set_from_string 21 user1 ≡ ok a)
    × (set_from_string 21 user25 ≡ ok b)
    × Returns (generic_less a b) (λ r. (r ≡ true) ↔ Less user1 user25)
generic_less-Less_example =
    generic_less-Less 21 user1 user25 user1-AreText user25-AreText (omega arith) (omega arith)

set_from_string-length_example :
    ((length user25 < 6) × Returns (set_from_string 6 user25) (λ d. length d ≡ 6))
    ⊎ ((6 ≤ length user25) × (set_from_string 6 user25 ≡ fault))
set_from_string-length_example = set_from_string-length 6 user25 user25-AreText

-- A NUL in a `std::string` hides what is behind it from `c_str`.
string_less_cut :
    string_less
      (record { key = 97 ∷ 0 ∷ 98 ∷ []; value = 1 })
      (record { key = 97 ∷ 0 ∷ 99 ∷ []; value = 2 })
    ≡ ok Bool.false
unfolding string_less strcmp
string_less_cut = refl

key_value_less_users :
    (set_from_string 8 user1 >>= λ a. set_from_string 8 user25 >>= λ b.
    key_value_less (record { key = a; value = 1 }) (record { key = b; value = 2 }))
    ≡ ok true
unfolding key_value_less strcmp set_from_string strcpy c_string
key_value_less_users = refl

ints_less_numbers : ints_less (record { key = 3; value = 9 }) (record { key = 4; value = 0 }) ≡ true
unfolding ints_less
ints_less_numbers = refl

abbrev pair : Block
pair = record { ptr = 100; size = 2; size_of = 8 }

abbrev node : Block
node = record { ptr = 200; size = 1; size_of = 40 }

abbrev empty : Heap
empty = record { memory_size = 0; blocks = [] }

abbrev one : Heap
one = record { memory_size = 16; blocks = pair ∷ [] }

abbrev two : Heap
two = record { memory_size = 56; blocks = node ∷ pair ∷ [] }

abbrev left : Heap
left = record { memory_size = deallocate 8 2 56; blocks = node ∷ [] }

-- Two blocks are given, and the older is taken back.
calls : Reach empty left
unfolding allocate
calls =
    next (next (next here (gives empty pair 16 refl)) (gives one node 56 refl))
      (takes two pair (node ∷ []) (tail node (head [])))

Reach-IsBalanced_example : IsBalanced left
Reach-IsBalanced_example = Reach-IsBalanced {h = empty} (unfold bytes in refl) calls
