-- ===== src/Massnode/Order.antt =====
-- The order of a node's slots, and what the searches of a cursor find in an ordered node.
use microbench.Common.{
  ℕ, ◌<◌, ◌≤◌, ◌≡◌, ◌≢◌, Option, none, some, List, Ordering, length, get_elem?, get_elem?-lt, arith,
  Bool, true, false,
}
use microbench.Common.Run.{Run, ok, ◌>>=◌, Returns}
use microbench.Key.{Key, ikey, key_compare}
use microbench.Key.Compare.{
  Before, Before-trans, key_compare-lt, key_compare-gt, key_compare-eq, Before-key_compare,
  key_compare_after,
}
use microbench.Massnode.{Massnode, Slot, nkeys}
use microbench.Massnode.Search
use microbench.Massnode.Search.{
  Probe, hit, miss, search, IsMonotone, Explains, search_returns, outside,
}

module _ {ℓ} {V L : Type ℓ} where
  -- Slots in ascending order of slice and length.
  abbrev pub IsAscending : List (Slot V L) → Type ℓ
  IsAscending slots =
      (i j : ℕ) (a b : Slot V L)
      → i < j
      → get_elem? slots i ≡ some a
      → get_elem? slots j ≡ some b
      → Before a.ikey a.ikeylen b.ikey b.ikeylen

  abbrev pub sign : Key → Slot V L → Ordering
  sign k e = key_compare k e.ikey e.ikeylen

  pub IsAscending-monotone :
      (k : Key) (slots : List (Slot V L)) → IsAscending slots → IsMonotone (sign k) slots
  IsAscending-monotone k slots asc i j a b lt at bt = (
    λ pos. key_compare_after k a.ikey a.ikeylen (
        Before-trans a.ikey a.ikeylen b.ikey b.ikeylen (ikey k) (length k) (asc i j a b lt at bt)
          (key_compare-gt k b.ikey b.ikeylen pos)),
    λ neg. Before-key_compare k b.ikey b.ikeylen (
        Before-trans (ikey k) (length k) a.ikey a.ikeylen b.ikey b.ikeylen
          (key_compare-lt k a.ikey a.ikeylen neg) (asc i j a b lt at bt)),
  )

  node_search :
      (n : Massnode V L) (k : Key)
      → Returns (search (sign k) n.slots (nkeys n) 0 (nkeys n)) (Explains (sign k) n.slots)
  node_search n k =
      search_returns (sign k) n.slots (nkeys n) 0 (nkeys n) (omega arith) (omega arith)
        (omega arith)
        (λ mono. (
          λ i e get lt. absurd (omega arith),
          λ i e get le. absurd (omega (arith, get_elem?-lt n.slots i e get)),
        ))

  -- `stcursor::lower_bound_binary`: `none` is the result -1.
  unfoldable pub lower_bound_binary : Massnode V L → Key → Run (Option ℕ)
  lower_bound_binary n k = search (sign k) n.slots (nkeys n) 0 (nkeys n) >>= λ p. elim p [
    | hit m ↦ ok (some m)
    | miss r ↦ ok none
  ]

  -- `stcursor_scan::upper_bound_or_equal_binary`, with the value that it leaves in `isExact_`.
  unfoldable pub upper_bound_or_equal_binary : Massnode V L → Key → Run (Bool × ℕ)
  upper_bound_or_equal_binary n k = search (sign k) n.slots (nkeys n) 0 (nkeys n) >>= λ p. elim p [
    | hit m ↦ ok (true, m)
    | miss r ↦ ok (false, r)
  ]

  -- Exact: the slot at the index equals the key. Otherwise, in a node in order, exactly the slots
  -- before the index are below the key.
  abbrev pub Bounds : Massnode V L → Key → Bool × ℕ → Type ℓ
  Bounds n k (true, p) = (e : Slot V L) × (get_elem? n.slots p ≡ some e) × (sign k e ≡ Ordering.eq)
  Bounds n k (false, p) = (p ≤ nkeys n) × (IsAscending n.slots → Search.Bounds (sign k) n.slots p p)

  -- The search ends without a read out of bounds. With `true` its index is a slot that compares
  -- equal to the key; with `false` the index is at most the number of slots, and if the slots are in
  -- order, the key is above exactly those before the index and below the others.
  pub upper_bound_or_equal_binary-Bounds :
      (n : Massnode V L) (k : Key) → Returns (upper_bound_or_equal_binary n k) (Bounds n k)
  unfolding upper_bound_or_equal_binary
  upper_bound_or_equal_binary-Bounds n k =
      let (p, run, ex) = node_search n k in Probe-Bounds p run ex
    where
      Probe-Bounds :
          (p : Probe)
          → search (sign k) n.slots (nkeys n) 0 (nkeys n) ≡ ok p
          → Explains (sign k) n.slots p
          → Returns (upper_bound_or_equal_binary n k) (Bounds n k)
      Probe-Bounds (hit m) run ex = ((true, m), rw run, ex)
      Probe-Bounds (miss r) run ex =
          ((false, r), rw run, (ex.0, λ asc. ex.1 (IsAscending-monotone k n.slots asc)))

  -- In a node in order, a result is the slot that equals the key, or no slot does.
  abbrev pub Locates : Massnode V L → Key → Option ℕ → Type ℓ
  Locates n k (some p) = (e : Slot V L) × (get_elem? n.slots p ≡ some e) × (sign k e ≡ Ordering.eq)
  Locates n k none =
      IsAscending n.slots
      → (i : ℕ) (e : Slot V L) → get_elem? n.slots i ≡ some e
      → sign k e ≢ Ordering.eq

  -- The search ends without a read out of bounds. An index that it returns is of a slot that compares
  -- equal to the key, and if it returns none and the slots are in order, no slot does.
  pub lower_bound_binary-Locates :
      (n : Massnode V L) (k : Key) → Returns (lower_bound_binary n k) (Locates n k)
  unfolding lower_bound_binary
  lower_bound_binary-Locates n k = let (p, run, ex) = node_search n k in Probe-Locates p run ex
    where
      Probe-Locates :
          (p : Probe)
          → search (sign k) n.slots (nkeys n) 0 (nkeys n) ≡ ok p
          → Explains (sign k) n.slots p
          → Returns (lower_bound_binary n k) (Locates n k)
      Probe-Locates (hit m) run ex = (some m, rw run, ex)
      Probe-Locates (miss r) run ex = (
        none,
        rw run,
        λ asc i e get zer.
            outside (sign k) n.slots r (ex.1 (IsAscending-monotone k n.slots asc)) i e get zer,
      )

  -- Two slots of a node in order that equal the key are one.
  pub sign-eq_unique :
      (k : Key) (slots : List (Slot V L))
      → IsAscending slots
      → (i j : ℕ) (a b : Slot V L) → get_elem? slots i ≡ some a
      → get_elem? slots j ≡ some b
      → sign k a ≡ Ordering.eq
      → sign k b ≡ Ordering.eq
      → i ≡ j
  sign-eq_unique k slots asc i j a b at bt ea eb = ground (
    arith,
    asc i j a b,
    asc j i b a,
    key_compare-eq k a.ikey a.ikeylen ea,
    key_compare-eq k b.ikey b.ikeylen eb,
  )
