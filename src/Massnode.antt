-- ===== src/Massnode.antt =====
-- hybrid_index/masstree_struct.hh: the nodes of the static trie. The parallel arrays of a node
-- (lengths, slices, values, suffix offsets, suffix bytes) are one list of slots.
pub mod Search
pub mod Order
pub mod Chains
use microbench.Common.{
  ℕ, ◌==◌, Bool, true, false, not, ◌||◌, List, ltb, if◌then◌else◌, length, set, [], ◌∷◌, ◌&&◌,
}
use microbench.Key.{Key, ikey_size, suffix}
use Prim.Native.Nat.{◌+◌}

-- `leafvalue_static`: a union, whose member the slot's length tells.
pub data LeafValue {ℓ} (V L : Type ℓ) : Type ℓ where
  value : V → LeafValue V L
  layer : L → LeafValue V L

pub record Slot {ℓ} (V L : Type ℓ) : Type ℓ where
  pub ikeylen : ℕ
  pub ikey : ℕ
  pub lv : LeafValue V L
  pub ksuf : List ℕ

-- `nkeys_` is the length of `slots`. A node without suffix arrays reads every suffix as empty.
pub record Massnode {ℓ} (V L : Type ℓ) : Type ℓ where
  pub has_ksuf : Bool
  pub slots : List (Slot V L)

abbrev pub keylenx_is_layer : ℕ → Bool
keylenx_is_layer keylenx = ltb 63 keylenx

abbrev pub keylenx_has_ksuf : ℕ → Bool
keylenx_has_ksuf keylenx = keylenx == ikey_size + 1

-- `string_slice::equals_sloppy` on as many bytes as both strings have, after the test of lengths.
unfoldable pub bytes_equal : List ℕ → List ℕ → Bool
bytes_equal [] [] = true
bytes_equal [] (b ∷ t) = false
bytes_equal (a ∷ s) [] = false
bytes_equal (a ∷ s) (b ∷ t) = a == b && bytes_equal s t

module _ {ℓ} {V L : Type ℓ} where
  abbrev pub nkeys : Massnode V L → ℕ
  nkeys n = length n.slots

  abbrev pub is_valid : Slot V L → Bool
  is_valid e = not (e.ikeylen == 0)

  -- `ksuf(p)`
  abbrev pub ksuf_of : Massnode V L → Slot V L → List ℕ
  ksuf_of n e = if n.has_ksuf then e.ksuf else []

  unfoldable pub equals_sloppy : Massnode V L → Slot V L → Key → Bool
  unfolding bytes_equal
  equals_sloppy n e k = bytes_equal (ksuf_of n e) (suffix k)

  unfoldable pub ksuf_equals : Massnode V L → Slot V L → Key → Bool
  unfolding equals_sloppy
  ksuf_equals n e k = not (keylenx_has_ksuf e.ikeylen) || equals_sloppy n e k

  -- `invalidate(p)` sets the length of a slot to zero.
  unfoldable pub invalidate : Slot V L → Slot V L
  invalidate e = record e { ikeylen = 0 }

  -- `set_lv(p, v)` with a value.
  unfoldable pub set_lv : LeafValue V L → Slot V L → Slot V L
  set_lv v e = record e { lv = v }

  -- A write at position `p` of the node's arrays.
  abbrev pub set_slot : Massnode V L → ℕ → Slot V L → Massnode V L
  set_slot n p e = record n { slots = set n.slots p e }
