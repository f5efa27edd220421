-- ===== src/Build/Gather.antt =====
-- The merge of the dynamic table into the static one, as lookups see it.
use microbench.Common.{
  ℕ, ◌<◌, ◌≤◌, ◌≡◌, List, Option, some, none, leb, false, arith, refl, sym, ◌∙◌,
}
use mathlib.Core.Path.{subst}
use microbench.Common.Run.{ok, Returns, ok_inj}
use microbench.Key.{Key}
use microbench.Key.Slice.{AreBytes}
use microbench.Merge.Find.{Joins, merge-Finds}
use microbench.Merge.Holds.{IsTrie}
use microbench.Merge.{merge_task}
use microbench.Merge.Tries.{merge}
use microbench.Merge.Tries.Steady.{IsSteady}
use microbench.Trie.{Trie}
use microbench.Build.{leafvalue_static, build_static}
use microbench.Build.Convert.{tree_nodes}
use microbench.Build.Find.{TreeAnswers, find-TreeAnswers}
use microbench.Build.Holds.{IsTree}
use microbench.Build.Tables.{Table, run_merge, merge_tables, static_find}
use microbench.Build.Trees.{Built, build-Built}

Joins-none : (o : Option (List ℕ)) → Joins (List ℕ) o none o
Joins-none none = refl
Joins-none (some v) = refl

module _ (d : ℕ) where
  -- A table without a static trie, or with a well-formed one.
  abbrev pub IsRoot : Option (Trie (List ℕ) d) → Type 0
  IsRoot none = Unit
  IsRoot (some s) = IsTrie (List ℕ) d s

  -- What lookups find in the new static table, from what the two old tables have.
  abbrev pub Gathers : Table d → Table d → Table d → Type 0
  Gathers s t out =
      IsRoot out.static_root
      × ((k : Key)
          → AreBytes k
          → (om on ot : Option (List ℕ)) × TreeAnswers leafvalue_static d t.root k om
            × (static_find d s.static_root k ≡ ok on)
            × (static_find d out.static_root k ≡ ok ot)
            × Joins (List ℕ) om on ot)

  -- Every entry that the merge adds to a layer makes it longer or leaves a task there.
  abbrev pub IsSteadyMerge : Trie (List ℕ) d → Option (Trie (List ℕ) d) → Type 0
  IsSteadyMerge b none = Unit
  IsSteadyMerge b (some old) = IsSteady (List ℕ) d (merge_task b old)

  -- With a built trie in the dynamic table.
  run_merge-Gathers :
      (s t : Table d) (b : Trie (List ℕ) d)
      → IsTree leafvalue_static d t.root
      → Built leafvalue_static d t.root b
      → (old : Option (Trie (List ℕ) d)) → old ≡ s.static_root
      → IsRoot old
      → IsSteadyMerge b old
      → Returns (run_merge s (record t { static_root = some b })) (Gathers s t)
  unfolding run_merge merge
  run_merge-Gathers s t b ht built none is hs steady = (
    record s { static_root = some b },
    rw (← is) refl,
    (
      built.0,
      λ k bytes.
          let (om, fm, am) = find-TreeAnswers leafvalue_static d t.root b k ht built in
          (om, none, om, am, rw (← is) refl, fm, Joins-none om),
    ),
  )
  run_merge-Gathers s t b ht built (some old) is hs steady =
      let (r, run, (done, new, at, good, finds)) = merge-Finds (List ℕ) d b old built.0 hs steady in
      (
        record s { static_root = some new },
        rw (← is, run, at) refl,
        (
          good,
          λ k bytes.
              let (om, on, ot, fm, fn, ft, joins) = finds k bytes in
              let (o, fo, ao) = find-TreeAnswers leafvalue_static d t.root b k ht built in
              let same : o ≡ om = ok_inj (sym fo ∙ fm) in
              (
                om,
                on,
                ot,
                subst (TreeAnswers leafvalue_static d t.root k) same ao,
                rw (← is) fn,
                ft,
                joins,
              ),
        ),
      )

  -- For keys of more than eight bytes, a well-formed dynamic tree of fewer than 2 ^ 32 layers, as
  -- many rounds, and a static table that is empty or well formed, all without an empty key and
  -- without NUL in a suffix, the merge ends without a fault, if every entry that it adds to a layer
  -- makes that layer longer or leaves a task there. In the new static table a key of one table has
  -- its value there, a key of both one of its two values, and no other key is found.
  pub merge_tables-Gathers :
      (key_size ic fuel : ℕ) (s t : Table d)
      → 8 < key_size
      → IsTree leafvalue_static d t.root
      → IsRoot s.static_root
      → tree_nodes (List ℕ) d t.root ≤ fuel
      → tree_nodes (List ℕ) d t.root < 4294967296
      → ((b : Trie (List ℕ) d) → build_static fuel d t.root ≡ ok b → IsSteadyMerge b s.static_root)
      → Returns (merge_tables key_size ic fuel s t) (Gathers s t)
  unfolding merge_tables
  merge_tables-Gathers key_size ic fuel s t long ht hs enough bound steady =
      let (b, run, built) = build-Built leafvalue_static fuel d t.root ht enough bound in
      let wide : leb key_size 8 ≡ false = ground arith in
      let (out, runs, gathers) =
        run_merge-Gathers s t b ht built s.static_root refl hs (steady b run) in
      (out, rw (wide, run) runs, gathers)
