-- ===== src/Index/Listed.antt =====
-- Tables as association lists without a second entry of a key: an instance of the interface that
-- the examples of the index run on.
pub mod Laws
use microbench.Common.{
  ℕ, zero, suc, ◌+◌, ◌≤◌, ◌≡◌, ◌≢◌, ◌∙◌, refl, sym, ap, inl, inr, Bool, true, false, Option, none,
  some, List, [], ◌∷◌, if◌then◌else◌, length, arith, Bool-cases, Option-cases, ◌==◌,
}
use microbench.Key.{Key}
use microbench.Index.Interface.{Tables, Value, DynamicLaws, orelse}
use microbench.Massnode.{bytes_equal}

pub bytes_equal_self : (s : List ℕ) → bytes_equal s s ≡ true
unfolding bytes_equal
bytes_equal_self [] = refl
bytes_equal_self (a ∷ s) = ground (arith, bytes_equal_self s)

pub bytes_equal-eq : (s t : List ℕ) → bytes_equal s t ≡ true → s ≡ t
unfolding bytes_equal
bytes_equal-eq [] [] h = refl
bytes_equal-eq [] (b ∷ t) h = absurd (cc h)
bytes_equal-eq (a ∷ s) [] h = absurd (cc h)
bytes_equal-eq (a ∷ s) (b ∷ t) h = ground (arith, bytes_equal-eq s t)

abbrev pub Entries : Type 0
Entries = List (Key × Value)

unfoldable pub lookup : Entries → Key → Option Value
lookup [] k = none
lookup ((j, w) ∷ l) k = if bytes_equal j k then some w else lookup l k

unfoldable pub insert : Entries → Key → Value → Entries
insert [] k v = (k, v) ∷ []
insert ((j, w) ∷ l) k v =
    let rest = insert l k v in if bytes_equal j k then (k, v) ∷ l else (j, w) ∷ rest

unfoldable pub erase : Entries → Key → Entries
erase [] k = []
erase ((j, w) ∷ l) k = let rest = erase l k in if bytes_equal j k then l else (j, w) ∷ rest

pub bytes_equal_ne : (j k : Key) → j ≢ k → bytes_equal j k ≡ false
bytes_equal_ne j k differ = elim (Bool-cases (bytes_equal j k)) [
  | inl same ↦ absurd (differ (bytes_equal-eq j k same))
  | inr ne ↦ ne
]

pub lookup-insert : (l : Entries) (k : Key) (v : Value) → lookup (insert l k v) k ≡ some v
unfolding lookup insert
lookup-insert [] k v = rw (bytes_equal_self k)
lookup-insert ((j, w) ∷ l) k v = elim (Bool-cases (bytes_equal j k)) [
  | inl same ↦ rw (same, bytes_equal_self k)
  | inr ne ↦ rw (ne, ne, lookup-insert l k v)
]

pub lookup-insert_ne :
    (l : Entries) (i k : Key) (v : Value) → i ≢ k → lookup (insert l k v) i ≡ lookup l i
unfolding lookup insert
lookup-insert_ne [] i k v differ = rw (bytes_equal_ne k i (λ e. differ (sym e)))
lookup-insert_ne ((j, w) ∷ l) i k v differ = elim (Bool-cases (bytes_equal j k)) [
  | inl same ↦
      let e : j ≡ k = bytes_equal-eq j k same in
      rw (
        same,
        bytes_equal_ne k i (λ e. differ (sym e)),
        e,
        bytes_equal_ne k i (λ e. differ (sym e)),
      )
  | inr ne ↦ rw (ne, lookup-insert_ne l i k v differ)
]

pub length-insert_new :
    (l : Entries) (k : Key) (v : Value) → lookup l k ≡ none → length (insert l k v) ≡ length l + 1
unfolding lookup insert
length-insert_new [] k v miss = refl
length-insert_new ((j, w) ∷ l) k v miss = ground (arith, length-insert_new l k v)

pub length-insert_old :
    (l : Entries) (k : Key) (v w : Value) → lookup l k ≡ some w → length (insert l k v) ≡ length l
unfolding lookup insert
length-insert_old [] k v w is = absurd (cc is)
length-insert_old ((j, x) ∷ l) k v w is = ground (arith, length-insert_old l k v w)

pub lookup-erase_ne : (l : Entries) (i k : Key) → i ≢ k → lookup (erase l k) i ≡ lookup l i
unfolding lookup erase
lookup-erase_ne [] i k differ = refl
lookup-erase_ne ((j, w) ∷ l) i k differ = elim (Bool-cases (bytes_equal j k)) [
  | inl same ↦
      let e : j ≡ k = bytes_equal-eq j k same in
      rw (same, e, bytes_equal_ne k i (λ e. differ (sym e)))
  | inr ne ↦ rw (ne, lookup-erase_ne l i k differ)
]

pub length-erase :
    (l : Entries) (k : Key) (w : Value) → lookup l k ≡ some w → length l ≡ length (erase l k) + 1
unfolding lookup erase
length-erase [] k w is = absurd (cc is)
length-erase ((j, x) ∷ l) k w is = ground (arith, length-erase l k w)

abbrev pub IsDistinct : Entries → Type 0
IsDistinct [] = Unit
IsDistinct ((j, w) ∷ l) = (lookup l j ≡ none) × IsDistinct l

pub insert-IsDistinct :
    (l : Entries) (k : Key) (v : Value) → IsDistinct l → IsDistinct (insert l k v)
unfolding lookup insert
insert-IsDistinct [] k v h = (refl, tt)
insert-IsDistinct ((j, w) ∷ l) k v h = elim (Bool-cases (bytes_equal j k)) [
  | inl same ↦ let e : j ≡ k = bytes_equal-eq j k same in rw (same, ← e) h
  | inr ne ↦ rw ne (
    lookup-insert_ne l j k v (λ e. absurd (cc (ne, e, bytes_equal_self k))) ∙ h.0,
    insert-IsDistinct l k v h.1,
  )
]

pub erase-IsDistinct : (l : Entries) (k : Key) → IsDistinct l → IsDistinct (erase l k)
unfolding erase
erase-IsDistinct [] k h = tt
erase-IsDistinct ((j, w) ∷ l) k h = elim (Bool-cases (bytes_equal j k)) [
  | inl same ↦ rw same h.1
  | inr ne ↦ rw ne (
    lookup-erase_ne l j k (λ e. absurd (cc (ne, e, bytes_equal_self k))) ∙ h.0,
    erase-IsDistinct l k h.1,
  )
]

pub lookup-erase : (l : Entries) (k : Key) → IsDistinct l → lookup (erase l k) k ≡ none
unfolding lookup erase
lookup-erase [] k h = refl
lookup-erase ((j, w) ∷ l) k h = elim (Bool-cases (bytes_equal j k)) [
  | inl same ↦ rw (same, ← bytes_equal-eq j k same) h.0
  | inr ne ↦ rw (ne, ne, lookup-erase l k h.1)
]
