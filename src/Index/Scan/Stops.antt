-- ===== src/Index/Scan/Stops.antt =====
-- A fault of the scans: `advance_nuv` takes a key and its extension in the other table for one key.
use microbench.Common.{ℕ, ◌≡◌, refl, [], ◌∷◌, ◌++◌, Ordering, some, false, arith, ◌==◌, length}
use microbench.Common.Run.{ok}
use microbench.Key.{Key}
use microbench.Index.{Index}
use microbench.Index.Interface.{Value}
use microbench.Index.Scan.{
  Scans, compare_prefix, static_peek_next, dynamic_peek_next, advance_nuv, advance_nuv_to,
}

compare_prefix-append : (s r : Key) → compare_prefix s (s ++ r) ≡ Ordering.eq
unfolding compare_prefix
compare_prefix-append [] r = refl
compare_prefix-append (a ∷ s) r = ground (arith, compare_prefix-append s r)

module _ {D S : Type 0} (C : Scans D S) (x : Index D S) (b c : ℕ) (cs bs : Key) where
  -- Both cursors of `advance_nuv` stand at a key. The next key of the static table is an extension
  -- of the next key of the dynamic table. Both rows are given as those of one key, and both cursors
  -- move, so that no later step gives the rows apart.
  pub advance_nuv_joins :
      (k r : Key) (e : ℕ) (v w : Value)
      → x.cur_key ≡ b ∷ bs
      → x.static_cur_key ≡ c ∷ cs
      → dynamic_peek_next C x ≡ some (k, v)
      → static_peek_next C x ≡ ok (some (k ++ e ∷ r, w))
      → advance_nuv C x ≡ ok (some (v, w), record x { cur_key = k; static_cur_key = k ++ e ∷ r })
  unfolding advance_nuv advance_nuv_to
  advance_nuv_joins k r e v w at_dynamic at_static first second =
      let dynamic_stands : (length x.cur_key == 0) ≡ false = ground (arith, at_dynamic) in
      let stands : (length x.static_cur_key == 0) ≡ false = ground (arith, at_static) in
      rw (dynamic_stands, stands, first, second, advance_nuv_to, compare_prefix-append k (e ∷ r))
