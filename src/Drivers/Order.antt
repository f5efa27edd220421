-- ===== src/Drivers/Order.antt =====
-- The comparators against the order of byte strings.
use microbench.Common.{
  zero, ℕ, suc, ◌-◌, ◌<◌, ◌≤◌, ◌≡◌, ◌↔◌, true, List, [], ◌∷◌, ◌++◌, length, replicate, ltb,
  Ordering, Ordering-cases, Bool-cases, ◌⊎◌, compare, inl, inr, arith, refl, ap, sym, length-append,
  length-replicate,
}
use mathlib.Core.Path.{subst}
use microbench.Common.Run.{ok, fault, Returns}
use microbench.Drivers.{strcpy, c_string, set_from_string, strcmp, generic_less, is_lt}
use microbench.Merge.Holds.{AreText}

-- The order of byte strings: at the first difference, or a beginning before the whole.
pub data Less : List ℕ → List ℕ → Type 0 where
  shorter : (b : ℕ) (t : List ℕ) → Less [] (b ∷ t)
  here : {a b : ℕ} (s t : List ℕ) → a < b → Less (a ∷ s) (b ∷ t)
  there : {a b : ℕ} {s t : List ℕ} → a ≡ b → Less s t → Less (a ∷ s) (b ∷ t)

abbrev pub Decides : List ℕ → List ℕ → Ordering → Type 0
Decides s t Ordering.lt = Less s t
Decides s t Ordering.eq = s ≡ t
Decides s t Ordering.gt = Less t s

Decides-cons : (a : ℕ) (s t : List ℕ) (o : Ordering) → Decides s t o → Decides (a ∷ s) (a ∷ t) o
Decides-cons a s t Ordering.lt h = there refl h
Decides-cons a s t Ordering.eq h = ap (λ l. a ∷ l) h
Decides-cons a s t Ordering.gt h = there refl h

strcmp-Decides :
    (s t x y : List ℕ)
    → AreText s
    → AreText t
    → Returns (strcmp (s ++ (0 ∷ x)) (t ++ (0 ∷ y))) (Decides s t)
unfolding strcmp
strcmp-Decides [] [] x y hs ht = (Ordering.eq, refl, refl)
strcmp-Decides [] (b ∷ t) x y hs ht = (Ordering.lt, ground (arith, ht.0), shorter b t)
strcmp-Decides (a ∷ s) [] x y hs ht = (Ordering.gt, ground (arith, hs.0), shorter a s)
strcmp-Decides (a ∷ s) (b ∷ t) x y hs ht = elim (Ordering-cases (compare a b)) [
  | inl less ↦ (Ordering.lt, ground arith, here s t (ground arith))
  | inr (inr more) ↦ (Ordering.gt, ground arith, here t s (ground arith))
  | inr (inl same) ↦
      let (o, run, dec) = strcmp-Decides s t x y hs.2 ht.2 in
      let eq : a ≡ b = ground arith in
      (
        o,
        ground (arith, hs.0, run),
        subst (λ c. Decides (a ∷ s) (c ∷ t) o) eq (Decides-cons a s t o dec),
      )
]

Less-asymmetric : {s t : List ℕ} → Less s t → Less t s → ⊥
Less-asymmetric (shorter b t) h = elim h [ ]
Less-asymmetric (here s t lt) (here t' s' gt) = omega arith
Less-asymmetric (here s t lt) (there e h) = omega arith
Less-asymmetric (there e h) (here s t gt) = omega arith
Less-asymmetric (there e h) (there d g) = Less-asymmetric h g

is_lt_iff : (s t : List ℕ) (o : Ordering) → Decides s t o → (is_lt o ≡ true) ↔ Less s t
is_lt_iff s t Ordering.lt h = (λ e. h, λ g. refl)
is_lt_iff s t Ordering.eq h = (
  λ e. cc,
  λ g. let loop : Less s s = subst (λ u. Less s u) (sym h) g in absurd (Less-asymmetric loop loop),
)
is_lt_iff s t Ordering.gt h = (λ e. cc, λ g. absurd (Less-asymmetric g h))

c_string-text : (s : List ℕ) → AreText s → c_string s ≡ s
unfolding c_string
c_string-text [] h = refl
c_string-text (b ∷ s) h = ground (arith, h.0, c_string-text s h.2)

-- What follows the text in the array starts with a NUL.
abbrev padding : ℕ → List ℕ → List ℕ
padding size s = replicate (size - suc (length s)) 0

strcpy-fits :
    (size : ℕ) (s : List ℕ)
    → length s < size
    → strcpy (replicate size 0) s ≡ ok (s ++ (0 ∷ padding size s))
unfolding strcpy
strcpy-fits zero s fits = absurd (omega (arith, fits))
strcpy-fits (suc size) [] fits = let rest : suc size - 1 ≡ size = omega arith in rw rest refl
strcpy-fits (suc size) (b ∷ s) fits =
    let rest : suc size - suc (suc (length s)) ≡ size - suc (length s) = omega arith in
    rw (strcpy-fits size s (omega (arith, fits)), rest) refl

strcpy-long : (size : ℕ) (s : List ℕ) → size ≤ length s → strcpy (replicate size 0) s ≡ fault
unfolding strcpy
strcpy-long zero s over = refl
strcpy-long (suc size) [] over = absurd (omega (arith, over))
strcpy-long (suc size) (b ∷ s) over = rw (strcpy-long size s (omega (arith, over))) refl

set_from_string-text :
    (size : ℕ) (s : List ℕ)
    → AreText s
    → length s < size
    → set_from_string size s ≡ ok (s ++ (0 ∷ padding size s))
unfolding set_from_string
set_from_string-text size s h fits = rw (c_string-text s h) (strcpy-fits size s fits)

set_from_string-long :
    (size : ℕ) (s : List ℕ) → AreText s → size ≤ length s → set_from_string size s ≡ fault
unfolding set_from_string
set_from_string-long size s h over = rw (c_string-text s h) (strcpy-long size s over)

-- A text without NUL is either shorter than the array, which keeps its length, or written behind the
-- array.
pub set_from_string-length :
    (size : ℕ) (s : List ℕ)
    → AreText s
    → ((length s < size) × Returns (set_from_string size s) (λ d. length d ≡ size))
      ⊎ ((size ≤ length s) × (set_from_string size s ≡ fault))
set_from_string-length size s h = elim (Bool-cases (ltb (length s) size)) [
  | inr long ↦
      let over : size ≤ length s = ground arith in inr (over, set_from_string-long size s h over)
  | inl short ↦
      let fits : length s < size = ground arith in
      inl (
        fits,
        (
          s ++ (0 ∷ padding size s),
          set_from_string-text size s h fits,
          omega (
            arith,
            length-append s (0 ∷ padding size s),
            length-replicate {A = ℕ} (size - suc (length s)) 0,
            fits,
          ),
        ),
      )
]

-- For texts without NUL that are shorter than the arrays, the comparator of the arrays that are set
-- from them ends in the arrays, and says whether the first is below the second as a byte string.
pub generic_less-Less :
    (size : ℕ) (s t : List ℕ)
    → AreText s
    → AreText t
    → length s < size
    → length t < size
    → (a b : List ℕ) × (set_from_string size s ≡ ok a)
      × (set_from_string size t ≡ ok b)
      × Returns (generic_less a b) (λ r. (r ≡ true) ↔ Less s t)
unfolding generic_less
generic_less-Less size s t hs ht fits_s fits_t =
    let (o, run, dec) = strcmp-Decides s t (padding size s) (padding size t) hs ht in
    (
      s ++ (0 ∷ padding size s),
      t ++ (0 ∷ padding size t),
      set_from_string-text size s hs fits_s,
      set_from_string-text size t ht fits_t,
      (is_lt o, rw run refl, is_lt_iff s t o dec),
    )
