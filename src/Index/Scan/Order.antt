-- ===== src/Index/Scan/Order.antt =====
-- The order in which `advance` takes the keys of the two tables.
use microbench.Common.{
  ℕ, ◌<◌, sym, ◌≡◌, ◌∙◌, ap, refl, ◌⊎◌, inl, inr, [], ◌∷◌, ◌++◌, Ordering, Ordering-cases, compare,
  arith,
}
use mathlib.Core.Path.{subst}
use microbench.Key.{Key}
use microbench.Index.Scan.{compare_prefix, compare_next}

-- A prefix, or a smaller byte behind a common prefix.
abbrev pub Below : Key → Key → Type 0
Below s t =
    ((r : Key) × (t ≡ s ++ r))
    ⊎ ((p u w : Key) × (a b : ℕ) × (s ≡ p ++ a ∷ u) × (t ≡ p ++ b ∷ w) × (a < b))

-- What the comparison says of two keys.
abbrev pub Ordered : Key → Key → Ordering → Type 0
Ordered s t Ordering.lt = Below s t
Ordered s t Ordering.eq = ⊥
Ordered s t Ordering.gt = Below t s

Below-cons : (a : ℕ) (s t : Key) → Below s t → Below (a ∷ s) (a ∷ t)
Below-cons a s t (inl (r, e)) = inl (r, ap (λ l. a ∷ l) e)
Below-cons a s t (inr (p, u, w, b, c, es, et, less)) =
    inr (a ∷ p, u, w, b, c, ap (λ l. a ∷ l) es, ap (λ l. a ∷ l) et, less)

-- The comparison by its first bytes.
empty_next : (t : Key) → compare_next [] t ≡ Ordering.lt
unfolding compare_next compare_prefix
empty_next t = ground arith

next_empty : (a : ℕ) (s : Key) → compare_next (a ∷ s) [] ≡ Ordering.gt
unfolding compare_next compare_prefix
next_empty a s = ground arith

module _ (a b : ℕ) (s t : Key) where
  next_lt : compare a b ≡ Ordering.lt → compare_next (a ∷ s) (b ∷ t) ≡ Ordering.lt
  unfolding compare_next compare_prefix
  next_lt less = ground (arith, less)

  next_gt : compare a b ≡ Ordering.gt → compare_next (a ∷ s) (b ∷ t) ≡ Ordering.gt
  unfolding compare_next compare_prefix
  next_gt more = ground (arith, more)

  next_eq : compare a b ≡ Ordering.eq → compare_next (a ∷ s) (b ∷ t) ≡ compare_next s t
  unfolding compare_next compare_prefix
  next_eq same = ground (arith, same)

Ordered-cons : (a : ℕ) (s t : Key) (o : Ordering) → Ordered s t o → Ordered (a ∷ s) (a ∷ t) o
Ordered-cons a s t Ordering.lt h = Below-cons a s t h
Ordered-cons a s t Ordering.gt h = Below-cons a t s h
Ordered-cons a s t Ordering.eq h = h

-- `compare_next` is never zero. It is negative only if the first key is below the second as a byte
-- string, or equal to it, and positive only if the second is below the first or equal to it.
pub compare_next-Ordered : (s t : Key) (o : Ordering) → compare_next s t ≡ o → Ordered s t o
compare_next-Ordered [] t o h = subst (Ordered [] t) (sym (empty_next t) ∙ h) (inl (t, refl))
compare_next-Ordered (a ∷ s) [] o h =
    subst (Ordered (a ∷ s) []) (sym (next_empty a s) ∙ h) (inl (a ∷ s, refl))
compare_next-Ordered (a ∷ s) (b ∷ t) o h = elim (Ordering-cases (compare a b)) [
  | inl lt ↦
      subst (Ordered (a ∷ s) (b ∷ t)) (sym (next_lt a b s t lt) ∙ h)
        (inr ([], s, t, a, b, refl, refl, ground arith))
  | inr (inl eq) ↦
      let same : a ≡ b = ground arith in
      rw (← same) (Ordered-cons a s t o (compare_next-Ordered s t o (sym (next_eq a b s t eq) ∙ h)))
  | inr (inr gt) ↦
      subst (Ordered (a ∷ s) (b ∷ t)) (sym (next_gt a b s t gt) ∙ h)
        (inr ([], t, s, b, a, refl, refl, ground arith))
]
