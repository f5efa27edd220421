-- ===== src/Build/Tables.antt =====
-- The calls of hybrid_index/kvrow.hh by which `merge_uv` of hybrid_index/mtIndexAPI.hh merges the
-- dynamic table into the static one.
use microbench.Common.{ℕ, List, Option, some, none, leb, if◌then◌else◌}
use microbench.Common.Run.{Run, ok, ◌>>=◌}
use microbench.Key.{Key}
use microbench.Merge.Tries.{merge}
use microbench.Trie.{Trie, find}
use microbench.Build.{Tree, build_static}
use microbench.Build.Quick.{build_static_quick}

-- The roots of a table. A row is the bytes of its column.
pub record Table (d : ℕ) : Type 0 where
  pub root : Tree (List ℕ) d
  pub static_root : Option (Trie (List ℕ) d)

module _ {d : ℕ} where
  unfoldable pub run_build_static : ℕ → Table d → Run (Table d)
  run_build_static fuel t =
      build_static fuel d t.root >>= λ b. ok (record t { static_root = some b })

  unfoldable pub run_build_static_quick : ℕ → ℕ → Table d → Run (Table d)
  run_build_static_quick nkeys fuel t =
      build_static_quick nkeys fuel d t.root >>= λ b. ok (record t { static_root = some b })

  unfoldable pub run_merge : Table d → Table d → Run (Table d)
  run_merge s t =
      merge (List ℕ) d t.static_root s.static_root >>= λ r. ok (record s { static_root = r.1 })

  -- `merge_uv`: the new static table.
  unfoldable pub merge_tables : ℕ → ℕ → ℕ → Table d → Table d → Run (Table d)
  unfolding run_build_static run_build_static_quick run_merge
  merge_tables key_size ic fuel s t =
      (if leb key_size 8 then run_build_static_quick ic fuel t else run_build_static fuel t)
      >>= λ b. run_merge s b

module _ (d : ℕ) where
  -- A lookup in the static table: a cursor without a trie finds nothing.
  abbrev pub static_find : Option (Trie (List ℕ) d) → Key → Run (Option (List ℕ))
  static_find none k = ok none
  static_find (some s) k = find (List ℕ) d s k
