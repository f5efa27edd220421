-- ===== src/Merge/Keys.antt =====
-- The comparisons of a merge: entries by slice and length, suffixes by `strncmp`.
use microbench.Common.{
  ℕ, zero, suc, ◌+◌, ◌*◌, ◌<◌, ◌≤◌, ◌≡◌, ◌≢◌, List, [], ◌∷◌, length, drop, length-drop, Ordering,
  true, arith, refl, sym, ap, ◌∙◌,
}
use microbench.Key.{Key, ikey}
use microbench.Key.Compare.{rank, Before}
use microbench.Key.Slice.{AreBytes, key_unique, drop-short}
use microbench.Merge.{entry_order, strncmp_zero, next_item, convert_to_ikeylen}
use microbench.Merge.Holds.{AreText, AreText-AreBytes, IsItem, Differ, HoldsItem}

module _ (i x j y : ℕ) where
  pub entry_order-lt : rank x ≡ x → rank y ≡ y → entry_order i x j y ≡ Ordering.lt → Before i x j y
  unfolding entry_order
  entry_order-lt p q h = ground arith

  pub entry_order-gt : rank x ≡ x → rank y ≡ y → entry_order i x j y ≡ Ordering.gt → Before j y i x
  unfolding entry_order
  entry_order-gt p q h = ground arith

  pub entry_order-eq : entry_order i x j y ≡ Ordering.eq → (i ≡ j) × (x ≡ y)
  unfolding entry_order
  entry_order-eq h = ground arith

-- Equal lengths and no NUL: `strncmp` tells whether the strings are equal.
pub strncmp_zero-eq :
    (s t : List ℕ) → AreText s → length s ≡ length t → strncmp_zero s t ≡ true → s ≡ t
unfolding strncmp_zero
strncmp_zero-eq [] [] text len h = refl
strncmp_zero-eq [] (b ∷ t) text len h = absurd (omega arith)
strncmp_zero-eq (a ∷ s) [] text len h = absurd (omega arith)
strncmp_zero-eq (a ∷ s) (b ∷ t) text len h = ground (arith, strncmp_zero-eq s t text.2)

pub strncmp_zero_same : (s : List ℕ) → strncmp_zero s s ≡ true
unfolding strncmp_zero
strncmp_zero_same [] = refl
strncmp_zero_same (a ∷ s) = ground (arith, strncmp_zero_same s)

pub length-zero : (s : List ℕ) → length s ≡ 0 → s ≡ []
length-zero [] h = refl
length-zero (a ∷ s) h = absurd (omega arith)

AreText-drop : (n : ℕ) (s : List ℕ) → AreText s → AreText (drop n s)
AreText-drop zero s h = h
AreText-drop (suc n) [] h = h
AreText-drop (suc n) (b ∷ s) h = AreText-drop n s h.2

-- Convert only keeps the rank of a length.
pub rank-convert : (n : ℕ) → rank (convert_to_ikeylen n) ≡ rank n
unfolding convert_to_ikeylen
rank-convert n = ground arith

module _ {V : Type 0} (v : V) (s : List ℕ) where
  -- An entry goes on a layer down, where there is one layer less.
  pub next_item-IsItem :
      (d : ℕ) → 0 < length s → AreText s → length s + 8 ≤ 8 * (suc d) → IsItem d (next_item v s)
  unfolding next_item convert_to_ikeylen
  next_item-IsItem d pos text fits =
      let len = length-drop 8 s in
      (
        ground arith,
        (
          ground arith,
          λ p q. drop-short 8 s (ground arith),
          λ q. ground (arith, len),
          AreText-drop 8 s text,
          omega (arith, len),
        ),
      )

  pub next_item-HoldsItem :
      (k : Key) (w : V) → AreBytes k → AreText s → HoldsItem (next_item v s) k w → (v ≡ w) × (s ≡ k)
  unfolding next_item ikey
  next_item-HoldsItem k w bytes text (same, at, pos, len, suf) = (
    same,
    key_unique s k (AreText-AreBytes s text) bytes at (sym (rank-convert (length s)) ∙ len) suf,
  )

  pub HoldsItem-next_item : 0 < length s → HoldsItem (next_item v s) s v
  unfolding next_item ikey convert_to_ikeylen
  HoldsItem-next_item pos = (refl, refl, ground arith, ground arith, λ long. refl)

-- Entries of different suffixes remain different.
pub next_item-Differ :
    {V : Type 0} (v w : V) (s t : List ℕ)
    → AreText s
    → AreText t
    → s ≢ t
    → Differ (next_item v s) (next_item w t)
unfolding next_item ikey
next_item-Differ v w s t hs ht ne at len suf = ne (
    key_unique s t (AreText-AreBytes s hs) (AreText-AreBytes t ht) at
      (sym (rank-convert (length s)) ∙ ap rank len ∙ rank-convert (length t)) (λ long. suf))
