-- ===== src/Cursor/Next.antt =====
-- `find_next1` in one node: from a key's slot to the next valid one.
use microbench.Common.{
  ℕ, zero, suc, ◌+◌, ◌-◌, ◌<◌, ◌≡◌, Bool, true, false, none, some, Option, List, [], ◌∷◌, ◌++◌,
  get_elem?, drop, refl, sym, ◌∙◌, ap, arith, Ordering,
}
use microbench.Common.Run.{Run, ok, Returns}
use microbench.Key.{Key, ikey_size}
use microbench.Massnode.{Slot, keylenx_is_layer, is_valid, ksuf_of}
use microbench.Massnode.Order.{
  IsAscending, sign, lower_bound_binary, Locates, lower_bound_binary-Locates, sign-eq_unique,
}
use microbench.Cursor.{
  Cursor, setup_cursor, find_next1, next_item_next, take_next, find_next_leftmost, valid_from,
  start_at, at_both, at_next, next_key, cur_key, key_of, slice_bytes, pointer,
}
use microbench.Trie.{Trie, read_slot}

get_elem?-drop :
    {A : Type 0} (b i : ℕ) (xs : List A) → get_elem? (drop b xs) i ≡ get_elem? xs (b + i)
get_elem?-drop zero i xs = ap (get_elem? xs) (omega arith)
get_elem?-drop (suc b) i [] = refl
get_elem?-drop (suc b) i (x ∷ xs) =
    get_elem?-drop b i xs ∙ ap (get_elem? (x ∷ xs)) {x = suc (b + i)} (omega arith)

module _ {V L : Type 0} where
  valid_from-some :
      (b i q : ℕ) (slots : List (Slot V L)) (f : Slot V L)
      → b + i ≡ q
      → get_elem? slots i ≡ some f
      → is_valid f ≡ true
      → ((j : ℕ) (e : Slot V L) → j < i → get_elem? slots j ≡ some e → is_valid e ≡ false)
      → valid_from b slots ≡ some (q, f)
  unfolding valid_from
  valid_from-some b i q [] f sum at valid between = absurd (cc)
  valid_from-some b zero q (e ∷ slots) f sum at valid between =
      let same : e ≡ f = cc in
      let start : b ≡ q = omega (arith, sum) in rw (same, valid, start) refl
  valid_from-some b (suc i) q (e ∷ slots) f sum at valid between =
      rw (between zero e (omega arith) refl) (
        valid_from-some (suc b) i q slots f (omega (arith, sum)) at valid
          (λ j g lt. between (suc j) g (omega (arith, lt))))

  -- The slot `q` is the first valid one behind `p`.
  abbrev pub IsNext : List (Slot V L) → ℕ → ℕ → Slot V L → Type 0
  IsNext slots p q f =
      (p < q)
      × (get_elem? slots q ≡ some f)
      × (is_valid f ≡ true)
      × ((j : ℕ) (e : Slot V L) → p < j → j < q → get_elem? slots j ≡ some e → is_valid e ≡ false)

  valid_from-IsNext :
      (slots : List (Slot V L)) (p q : ℕ) (f : Slot V L)
      → IsNext slots p q f
      → valid_from (suc p) (drop (suc p) slots) ≡ some (q, f)
  valid_from-IsNext slots p q f (less, at, valid, between) =
      let i = q - suc p in
      let sum : suc p + i ≡ q = omega (arith, less) in
      valid_from-some (suc p) i q (drop (suc p) slots) f sum
        (get_elem?-drop (suc p) i slots ∙ ap (get_elem? slots) sum ∙ at) valid
        (λ j e lt get.
          between (suc p + j) e (omega arith) (omega (arith, lt, less))
            (sym (get_elem?-drop (suc p) j slots) ∙ get))

module _ {V : Type 0} (d : ℕ) (t : Trie V (suc d)) (k : Key) (c : Cursor V) where
  -- The cursor has the slot `e` as the current one and `f` as the next.
  abbrev pub IsAt : Slot V (Trie V d) → Slot V (Trie V d) → Bool × Cursor V → Type 0
  IsAt e f (more, b) =
      (more ≡ true)
      × (b.cur_lv ≡ some (pointer d e.lv))
      × (cur_key b ≡ slice_bytes ikey_size e.ikey ++ ksuf_of t e)
      × (b.next_lv ≡ some (pointer d f.lv))
      × (next_key b ≡ slice_bytes ikey_size f.ikey ++ ksuf_of t f)

  lower_bound_binary-some :
      (p : ℕ) (e : Slot V (Trie V d))
      → IsAscending t.slots
      → get_elem? t.slots p ≡ some e
      → sign k e ≡ Ordering.eq
      → lower_bound_binary t k ≡ ok (some p)
  lower_bound_binary-some p e asc at zer =
      let (r, run, found) = lower_bound_binary-Locates t k in go r run found
    where
      go :
          (r : Option ℕ)
          → lower_bound_binary t k ≡ ok r
          → Locates t k r
          → lower_bound_binary t k ≡ ok (some p)
      go none run found = absurd (found asc p e at zer)
      go (some q) run (g, get, same) =
          let one : q ≡ p = sign-eq_unique k t.slots asc q p g e get at same zer in
          run ∙ ap (λ i. ok (some i)) one

  abbrev reached : ℕ → ℕ → Slot V (Trie V d) → Slot V (Trie V d) → Cursor V
  reached p q e f = record c {
    ka = k;
    n = some (suc d, t);
    kp = q;
    trace = ((suc d, t), suc p) ∷ [];
    cur_prefix = e.ikey ∷ [];
    cur_suffix = ksuf_of t e;
    cur_lv = some (pointer d e.lv);
    next_prefix = f.ikey ∷ [];
    next_suffix = ksuf_of t f;
    next_lv = some (pointer d f.lv);
  }

  take_next_flat :
      (down : Trie V d → Cursor V → Run (Bool × Cursor V)) (f : Slot V (Trie V d)) (b : Cursor V)
      → keylenx_is_layer f.ikeylen ≡ false
      → take_next d t down f b ≡ ok (true, record (at_next d t f b) { next_suffix = ksuf_of t f })
  unfolding take_next
  take_next_flat down f b flat = rw (take_next, flat) refl

  start_at_flat :
      (down : Trie V d → Cursor V → Run (Bool × Cursor V)) (b : Cursor V) (p : ℕ)
      (e : Slot V (Trie V d))
      → keylenx_is_layer e.ikeylen ≡ false
      → is_valid e ≡ true
      → start_at d t down b p e
        ≡ next_item_next d t (record (at_both d t p e b) { cur_suffix = ksuf_of t e })
  unfolding start_at
  start_at_flat down b p e flat valid = rw (start_at, flat, valid) refl

  next_item_next-reached :
      (p q : ℕ) (e f : Slot V (Trie V d))
      → IsNext t.slots p q f
      → keylenx_is_layer f.ikeylen ≡ false
      → next_item_next d t
          (record (at_both d t p e (setup_cursor c k)) { cur_suffix = ksuf_of t e })
        ≡ ok (true, reached p q e f)
  unfolding next_item_next setup_cursor
  next_item_next-reached p q e f next flat =
      rw (valid_from-IsNext t.slots p q f next) (take_next_flat (find_next_leftmost d) f _ flat)

  -- In a root in order, from a key of a valid slot `p` without a layer, `find_next1` goes to the
  -- first valid slot behind it, if that has no layer either: the cursor has the values of both, and
  -- their keys as whole slices followed by the suffixes.
  pub find_next1-IsAt :
      (p q : ℕ) (e f : Slot V (Trie V d))
      → IsAscending t.slots
      → get_elem? t.slots p ≡ some e
      → sign k e ≡ Ordering.eq
      → is_valid e ≡ true
      → keylenx_is_layer e.ikeylen ≡ false
      → IsNext t.slots p q f
      → keylenx_is_layer f.ikeylen ≡ false
      → Returns (find_next1 (suc d) t (setup_cursor c k)) (IsAt e f)
  unfolding find_next1 setup_cursor cur_key next_key key_of read_slot
  find_next1-IsAt p q e f asc at zer valid flat next flat_f =
      let low = lower_bound_binary-some p e asc at zer in
      let read : read_slot t p ≡ ok e = rw (read_slot, at) refl in
      (
        (true, reached p q e f),
        rw low (
            rw read (
              start_at_flat (find_next1 d) (setup_cursor c k) p e flat valid
              ∙ next_item_next-reached p q e f next flat_f)),
        (refl, refl, refl, refl, refl),
      )
