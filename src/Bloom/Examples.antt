-- ===== src/Bloom/Examples.antt =====
-- Runs of the filter.
use microbench.Common.{ℕ, ◌≡◌, arith, [], ◌∷◌, List, true, get_elem?, some}
use microbench.Common.Run.{ok, Returns, ◌>>=◌}
use microbench.Key.{Key}
use microbench.Bloom.{insert_all, create_empty_filter, key_may_match}
use microbench.Bloom.Match.{insert_all-match}

abbrev words : List Key
words = (0x61 ∷ 0x62 ∷ 0x63 ∷ 0x64 ∷ 0x65 ∷ []) ∷ (0x7a ∷ []) ∷ []

insert_all-match_example :
    Returns
      (create_empty_filter 4 >>= insert_all words)
      (λ g. (i : ℕ) (k : Key) → get_elem? words i ≡ some k → key_may_match k g ≡ ok true)
insert_all-match_example = insert_all-match 4 words (omega arith) (omega arith)
