-- ===== src/Index/Listed/Laws.antt =====
-- The listed tables satisfy the laws of the interface.
use microbench.Common.{
  ◌+◌, ◌≤◌, ◌≡◌, ◌≢◌, ◌∙◌, refl, inl, inr, Bool, true, false, none, some, [], ◌∷◌, if◌then◌else◌,
  length, arith, Bool-cases, Option-cases, ◌==◌,
}
use microbench.Key.{Key}
use microbench.Index.Interface.{Tables, Value, DynamicLaws, orelse}
use microbench.Massnode.{bytes_equal}
use microbench.Index.Listed.{
  Entries, lookup, insert, erase, IsDistinct, lookup-insert, lookup-insert_ne, length-insert_new,
  length-insert_old, lookup-erase_ne, length-erase, insert-IsDistinct, erase-IsDistinct,
  lookup-erase, bytes_equal_self, bytes_equal-eq,
}

abbrev pub Listed : Type 0
Listed = (l : Entries) × IsDistinct l

abbrev pub put : Listed → Key → Value → Listed
put d k v = (insert d.0 k v, insert-IsDistinct d.0 k v d.1)

abbrev pub remove : Listed → Key → Bool × Listed
remove d k = elim (lookup d.0 k) [
  | none ↦ (false, d)
  | some w ↦ (true, (erase d.0 k, erase-IsDistinct d.0 k d.1))
]

abbrev pub update : Listed → Key → Value → Bool × Listed
update d k v = elim (lookup d.0 k) [ none ↦ (false, d) | some w ↦ (true, put d k v) ]

pub remove-none : (d : Listed) (k : Key) → lookup d.0 k ≡ none → remove d k ≡ (false, d)
remove-none d k miss = rw (remove, miss)

pub update-none :
    (d : Listed) (k : Key) (v : Value) → lookup d.0 k ≡ none → update d k v ≡ (false, d)
update-none d k v miss = rw (update, miss)

pub update-some :
    (d : Listed) (k : Key) (v w : Value) → lookup d.0 k ≡ some w → update d k v ≡ (true, put d k v)
update-some d k v w is = rw (update, is)

unfoldable pub merge : Listed → Entries → Listed
merge s [] = s
merge s ((k, v) ∷ b) = put (merge s b) k v

abbrev pub listed : Tables Listed Listed
listed = record {
  empty = ([], tt);
  static_empty = ([], tt);
  find = λ d k. lookup d.0 k;
  put = put;
  remove = remove;
  build = λ d. d;
  build_quick = λ n d. if n == length d.0 then d else ([], tt);
  static_find = λ s k. lookup s.0 k;
  static_remove = remove;
  static_update = update;
  merge = λ s b. merge s b.0;
}

pub count-zero : (d : Listed) (k : Key) → length d.0 ≡ 0 → lookup d.0 k ≡ none
unfolding lookup
count-zero ([], h) k zer = refl
count-zero ((e ∷ l), h) k zer = absurd (omega arith)

pub remove-some :
    (d : Listed) (k : Key) (w : Value)
    → lookup d.0 k ≡ some w
    → (d' : Listed) × (remove d k ≡ (true, d'))
      × (lookup d'.0 k ≡ none)
      × (length d.0 ≡ length d'.0 + 1)
      × ((j : Key) → j ≢ k → lookup d'.0 j ≡ lookup d.0 j)
remove-some d k w is = (
  (erase d.0 k, erase-IsDistinct d.0 k d.1),
  rw (remove, is),
  lookup-erase d.0 k d.1,
  length-erase d.0 k w is,
  λ j differ. lookup-erase_ne d.0 j k differ,
)

pub lookup-merge :
    (s : Listed) (b : Entries) (k : Key)
    → lookup (merge s b).0 k ≡ orelse (lookup b k) (lookup s.0 k)
unfolding lookup merge
lookup-merge s [] k = refl
lookup-merge s ((j, v) ∷ b) k = elim (Bool-cases (bytes_equal j k)) [
  | inl same ↦
      let e : j ≡ k = bytes_equal-eq j k same in
      rw (e, bytes_equal_self k) (lookup-insert (merge s b).0 k v)
  | inr ne ↦ rw ne (
      lookup-insert_ne (merge s b).0 k j v (λ e. absurd (cc (ne, e, bytes_equal_self k)))
      ∙ lookup-merge s b k)
]

pub length-merge : (s : Listed) (b : Entries) → length (merge s b).0 ≤ length s.0 + length b
unfolding merge
length-merge s [] = omega arith
length-merge s ((j, v) ∷ b) = elim (Option-cases (lookup (merge s b).0 j)) [
  | inl new ↦ omega (arith, length-insert_new (merge s b).0 j v new, length-merge s b)
  | inr (w, old) ↦ omega (arith, length-insert_old (merge s b).0 j v w old, length-merge s b)
]

abbrev pub dynamic_laws : DynamicLaws listed
dynamic_laws = record {
  count = λ d. length d.0;
  count-zero = count-zero;
  count-empty = refl;
  count-put_new = λ d k v new. length-insert_new d.0 k v new;
  count-put_old = λ d k v w old. length-insert_old d.0 k v w old;
  find-put = λ d k v. lookup-insert d.0 k v;
  find-put_ne = λ d j k v differ. lookup-insert_ne d.0 j k v differ;
  remove-none = remove-none;
  remove-some = remove-some;
}
