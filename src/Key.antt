-- ===== src/Key.antt =====
-- hybrid_index/masstree_key.hh and the part of hybrid_index/string_slice.hh that it calls.
-- A cursor's key is the bytes from `s_` on: `len_` is their number, and `ikey0_` is the first eight
-- as a big-endian number, which every constructor and `shift` keep so.
pub mod Compare
pub mod Slice
use microbench.Common.{
  ℕ, zero, suc, ◌+◌, ◌*◌, ◌^◌, ◌≤◌, Bool, List, [], ◌∷◌, Ordering, compare, length, drop, leb, ltb,
  if◌then◌else◌,
}

abbrev pub ikey_size : ℕ
ikey_size = 8

abbrev pub Key : Type 0
Key = List ℕ

-- The first `n` bytes as a big-endian number, zero bytes standing for those that are missing.
unfoldable pub make_comparable : ℕ → List ℕ → ℕ
make_comparable zero s = 0
make_comparable (suc n) [] = 0
make_comparable (suc n) (b ∷ s) = b * 256 ^ n + make_comparable n s

unfoldable pub ikey : Key → ℕ
ikey k = make_comparable ikey_size k

abbrev pub has_suffix : Key → Bool
has_suffix k = ltb ikey_size (length k)

abbrev pub suffix : Key → List ℕ
suffix k = drop ikey_size k

abbrev pub shift : Key → Key
shift k = drop ikey_size k

-- The sign of an `int cmp` is an `Ordering`: negative is `lt`, positive is `gt`.
unfoldable pub compare_ikey : Key → ℕ → Ordering
compare_ikey k i = compare (ikey k) i

unfoldable pub compare_len : Key → ℕ → Ordering
compare_len k keylenx =
    if ltb ikey_size (length k)
    then (if leb keylenx ikey_size then Ordering.gt else Ordering.eq)
    else compare (length k) keylenx

-- The overload for `massnode`.
unfoldable pub key_compare : Key → ℕ → ℕ → Ordering
unfolding compare_ikey compare_len
key_compare k i keylenx = elim (compare_ikey k i) [
  | Ordering.eq ↦ compare_len k keylenx
  | Ordering.lt ↦ Ordering.lt
  | Ordering.gt ↦ Ordering.gt
]

-- The overloads for `massnode_multivalue` and `massnode_dynamicvalue`: the result of `compare_len`
-- is dropped.
unfoldable pub key_compare_multivalue : Key → ℕ → ℕ → Ordering
unfolding compare_ikey
key_compare_multivalue k i keylenx = compare_ikey k i
