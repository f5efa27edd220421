-- ===== src/Key/Compare.antt =====
-- The order that `key_compare` puts on slots: by slice, then by length up to nine.
use microbench.Common.{ℕ, ◌<◌, ◌≡◌, ◌⊎◌, min, Ordering, length, arith}
use microbench.Key.{Key, ikey, key_compare}

-- A length as the order sees it: nine stands for every longer key and for a layer.
abbrev pub rank : ℕ → ℕ
rank len = min len 9

-- Slot (i, x) is before slot (j, y).
abbrev pub Before : ℕ → ℕ → ℕ → ℕ → Type 0
Before i x j y = (i < j) ⊎ ((i ≡ j) × (rank x < rank y))

module _ (k : Key) (i x : ℕ) where
  pub key_compare-lt : key_compare k i x ≡ Ordering.lt → Before (ikey k) (length k) i x
  unfolding key_compare
  key_compare-lt h = ground arith

  pub key_compare-gt : key_compare k i x ≡ Ordering.gt → Before i x (ikey k) (length k)
  unfolding key_compare
  key_compare-gt h = ground arith

  pub key_compare-eq : key_compare k i x ≡ Ordering.eq → (i ≡ ikey k) × (rank x ≡ rank (length k))
  unfolding key_compare
  key_compare-eq h = ground arith

  pub Before-key_compare : Before (ikey k) (length k) i x → key_compare k i x ≡ Ordering.lt
  unfolding key_compare
  Before-key_compare h = ground arith

  pub key_compare_after : Before i x (ikey k) (length k) → key_compare k i x ≡ Ordering.gt
  unfolding key_compare
  key_compare_after h = ground arith

  pub key_compare_same : i ≡ ikey k → rank x ≡ rank (length k) → key_compare k i x ≡ Ordering.eq
  unfolding key_compare
  key_compare_same p q = ground arith

pub Before-trans : (i x j y k z : ℕ) → Before i x j y → Before j y k z → Before i x k z
Before-trans i x j y k z p q = ground arith
