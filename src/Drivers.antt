-- ===== src/Drivers.antt =====
-- The keys and comparators of the drivers, microbench.hh, for `std::map` and the B+ tree: character
-- arrays of a fixed size, and records of a key and a value.
pub mod Order
mod Allocator
mod Examples
use microbench.Common.{
  ℕ, zero, suc, ◌-◌, ◌==◌, Bool, true, false, List, [], ◌∷◌, ◌++◌, length, replicate, if◌then◌else◌,
  ltb, Ordering, compare,
}
use microbench.Common.Run.{Run, ok, fault, ◌>>=◌}

-- The bytes of a string up to its first NUL: what `c_str` shows.
unfoldable pub c_string : List ℕ → List ℕ
c_string [] = []
c_string (b ∷ s) = if b == 0 then [] else b ∷ c_string s

-- `strcpy` of a string, with its NUL, to the beginning of an array: one byte after the other, and
-- behind the array where that ends first.
unfoldable pub strcpy : List ℕ → List ℕ → Run (List ℕ)
strcpy [] s = fault
strcpy (x ∷ array) [] = ok (0 ∷ array)
strcpy (x ∷ array) (b ∷ s) = strcpy array s >>= λ rest. ok (b ∷ rest)

unfoldable pub set_from_string : ℕ → List ℕ → Run (List ℕ)
set_from_string size key = strcpy (replicate size 0) (c_string key)

-- The sign of `strcmp`. An array without a NUL is read behind its end.
unfoldable pub strcmp : List ℕ → List ℕ → Run Ordering
strcmp [] t = fault
strcmp (a ∷ s) [] = fault
strcmp (a ∷ s) (b ∷ t) = elim (compare a b) [
  | Ordering.lt ↦ ok Ordering.lt
  | Ordering.gt ↦ ok Ordering.gt
  | Ordering.eq ↦ if a == 0 then ok Ordering.eq else strcmp s t
]

abbrev pub is_lt : Ordering → Bool
is_lt Ordering.lt = true
is_lt Ordering.eq = false
is_lt Ordering.gt = false

-- `GenericComparator`
unfoldable pub generic_less : List ℕ → List ℕ → Run Bool
generic_less lhs rhs = strcmp lhs rhs >>= λ diff. ok (is_lt diff)

-- `GenericKeyValue` and `IntsKeyValue`
pub record KeyValue (K : Type 0) : Type 0 where
  pub key : K
  pub value : ℕ

unfoldable pub key_value_less : KeyValue (List ℕ) → KeyValue (List ℕ) → Run Bool
key_value_less lhs rhs = strcmp lhs.key rhs.key >>= λ diff. ok (is_lt diff)

-- `StringKeyValueComparator`: `c_str` puts a NUL behind a string.
unfoldable pub string_less : KeyValue (List ℕ) → KeyValue (List ℕ) → Run Bool
string_less lhs rhs = strcmp (lhs.key ++ (0 ∷ [])) (rhs.key ++ (0 ∷ [])) >>= λ diff. ok (is_lt diff)

unfoldable pub ints_less : KeyValue ℕ → KeyValue ℕ → Bool
ints_less lhs rhs = ltb lhs.key rhs.key
