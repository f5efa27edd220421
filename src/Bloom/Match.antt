-- ===== src/Bloom/Match.antt =====
-- A key that was inserted is matched, whatever was inserted before and after it.
use microbench.Common.{
  ltb, lt→ltb, ℕ, zero, suc, ◌+◌, ◌*◌, ◌/◌, ◌%◌, ◌<◌, ◌≡◌, ◌∙◌, refl, Bool, true, false, some, List,
  [], ◌∷◌, length, get_elem?, set, replicate, ◌==◌, arith, Bool-cases, inl, inr, length-set,
  get_elem?-set_self, get_elem?-set_ne, length-replicate,
}
use microbench.Common.Run.{◌>>=◌, ok, Returns}
use microbench.Key.{Key}
use microbench.Bloom.{
  insert_loop, match_loop, insert_to_filter, key_may_match, insert_all, create_empty_filter,
  bloom_hash, delta_of, word,
}
use native.Mathlib.Nat.{mod-lt}

-- No bit is lost.
abbrev Grows : List Bool → List Bool → Type 0
Grows f g =
    (length g ≡ length f) × ((i : ℕ) → get_elem? f i ≡ some true → get_elem? g i ≡ some true)

Grows-trans : (f g h : List Bool) → Grows f g → Grows g h → Grows f h
Grows-trans f g h a b = (b.0 ∙ a.0, λ i on. b.1 i (a.1 i on))

set-Grows : (f : List Bool) (p : ℕ) → p < length f → Grows f (set f p true)
set-Grows f p less = (
  length-set f p true,
  λ i on. elim (Bool-cases (p == i)) [
    | inl same ↦ let e : p ≡ i = ground arith in rw (← e) (get_elem?-set_self f p true less)
    | inr ne ↦ get_elem?-set_ne f true (λ e. ground (arith, ne, e)) ∙ on
  ],
)

-- The insertion sets every bit that the match reads.
abbrev Inserted : ℕ → ℕ → ℕ → List Bool → List Bool → Type 0
Inserted j h delta f g = Grows f g × (match_loop j h delta g ≡ ok true)

-- One round of each loop.
module _ (j h delta : ℕ) (f : List Bool) where
  insert_round :
      0 < length f
      → insert_loop (suc j) h delta f
        ≡ insert_loop j (word (h + delta)) delta (set f (h % length f) true)
  unfolding insert_loop
  insert_round pos = ground arith

  match_round :
      0 < length f
      → get_elem? f (h % length f) ≡ some true
      → match_loop (suc j) h delta f ≡ match_loop j (word (h + delta)) delta f
  unfolding match_loop
  match_round pos on = let some_bits : (length f == 0) ≡ false = ground arith in rw (some_bits, on)

  match_round_inv :
      match_loop (suc j) h delta f ≡ ok true
      → (0 < length f)
        × (get_elem? f (h % length f) ≡ some true)
        × (match_loop j (word (h + delta)) delta f ≡ ok true)
  unfolding match_loop
  match_round_inv m = ground (arith, m)

match_loop-Grows :
    (j h delta : ℕ) (f g : List Bool)
    → Grows f g
    → match_loop j h delta f ≡ ok true
    → match_loop j h delta g ≡ ok true
unfolding match_loop
match_loop-Grows zero h delta f g grows m = refl
match_loop-Grows (suc j) h delta f g (same, more) m =
    let (pos, on, rest) = match_round_inv j h delta f m in
    let on_g : get_elem? g (h % length g) ≡ some true = rw same (more (h % length f) on) in
    match_round j h delta g (omega arith) on_g
    ∙ match_loop-Grows j (word (h + delta)) delta f g (same, more) rest

insert_loop-Inserted :
    (j h delta : ℕ) (f : List Bool)
    → 0 < length f
    → Returns (insert_loop j h delta f) (Inserted j h delta f)
unfolding insert_loop match_loop
insert_loop-Inserted zero h delta f pos = (f, refl, ((refl, λ i on. on), refl))
insert_loop-Inserted (suc j) h delta f pos =
    let p = h % length f in
    let less : p < length f = mod-lt h pos in
    let f' = set f p true in
    let grown = set-Grows f p less in
    let (g, run, ((same, more), m)) =
      insert_loop-Inserted j (word (h + delta)) delta f' (omega (arith, grown.0)) in
    let len : length g ≡ length f = same ∙ grown.0 in
    let on : get_elem? g (h % length g) ≡ some true =
      rw len (more p (get_elem?-set_self f p true less)) in
    (
      g,
      insert_round j h delta f pos ∙ run,
      (Grows-trans f f' g grown (same, more), match_round j h delta g (omega (arith, len)) on ∙ m),
    )

-- One key.
insert_to_filter-Grows :
    (k : Key) (f : List Bool)
    → 0 < length f
    → Returns (insert_to_filter k f) (λ g. Grows f g × (key_may_match k g ≡ ok true))
unfolding insert_to_filter key_may_match
insert_to_filter-Grows k f pos =
    insert_loop-Inserted 2 (bloom_hash k) (delta_of (bloom_hash k)) f pos

found :
    (j : Key) (keys : List Key) (g out : List Bool)
    → Grows g out
    → key_may_match j g ≡ ok true
    → ((i : ℕ) (k : Key) → get_elem? keys i ≡ some k → key_may_match k out ≡ ok true)
    → (i : ℕ) (k : Key) → get_elem? (j ∷ keys) i ≡ some k
    → key_may_match k out ≡ ok true
unfolding key_may_match
found j keys g out more here there zero k is =
    let e : j ≡ k = cc is in
    rw (← e) (match_loop-Grows 2 (bloom_hash j) (delta_of (bloom_hash j)) g out more here)
found j keys g out more here there (suc i) k is = there i k is

insert_all-Grows :
    (keys : List Key) (f : List Bool)
    → 0 < length f
    → Returns (insert_all keys f) (λ g.
      Grows f g × ((i : ℕ) (k : Key) → get_elem? keys i ≡ some k → key_may_match k g ≡ ok true))
unfolding insert_all key_may_match
insert_all-Grows [] f pos = (f, refl, ((refl, λ i on. on), λ i k is. absurd (cc is)))
insert_all-Grows (j ∷ keys) f pos =
    let (g, run, (grown, here)) = insert_to_filter-Grows j f pos in
    let (out, rest, (more, there)) = insert_all-Grows keys g (omega (arith, grown.0)) in
    (out, rw (run, rest), (Grows-trans f g out grown more, found j keys g out more here there))

-- For at least one key, and fewer than 2 ^ 28, making an empty filter and inserting any list of keys
-- ends without a fault, and every key that was inserted is matched.
pub insert_all-match :
    (n : ℕ) (keys : List Key)
    → 0 < n
    → n < 268435456
    → Returns
        (create_empty_filter n >>= insert_all keys)
        (λ g. (i : ℕ) (k : Key) → get_elem? keys i ≡ some k → key_may_match k g ≡ ok true)
unfolding create_empty_filter
insert_all-match n keys pos bound =
    let fits : ltb (n * 8) 2147483648 ≡ true = lt→ltb (n * 8) 2147483648 (omega (arith, bound)) in
    let (g, run, (grown, all)) =
      insert_all-Grows keys (replicate ((n * 8 + 7) / 8 * 8) false)
        (omega (arith, length-replicate ((n * 8 + 7) / 8 * 8) false)) in
    (g, rw fits run, all)
