-- ===== src/Build/Trees.antt =====
-- The trie that `buildStatic` makes of a well-formed dynamic tree.
use microbench.Common.{ℕ, zero, suc, ◌<◌, ◌≤◌, true, arith, refl}
use microbench.Common.Run.{Run, Returns}
use microbench.Merge.Holds.{IsTrie, HoldsKey}
use microbench.Trie.{Trie}
use microbench.Build.{Tree, build}
use microbench.Build.Convert.{to_trie, tree_nodes}
use microbench.Build.Holds.{HoldsTree, IsTree, read_layer-HoldsAny}
use microbench.Build.Queue.{build-to_trie}
use microbench.Build.Whole.{
  Mirrors, mirror_any, mirror-Ascending, mirror_length, static_slots-Mirrors,
}

module _ {R V : Type 0} (static_value : R → Run V) where
  -- The trie is well formed, and its keys are those of the tree, with the static values of its rows.
  abbrev pub Built : (d : ℕ) → Tree R d → Trie V d → Type 0
  Built d t out = IsTrie V d out × Mirrors static_value (HoldsTree d t) (HoldsKey V d out)

  to_trie-Built :
      (d : ℕ) (t : Tree R d)
      → IsTree static_value d t
      → Returns (to_trie static_value true (λ n. true) d t) (Built d t)
  unfolding to_trie
  to_trie-Built zero t h = elim h [ ]
  to_trie-Built (suc d) t (es, read, pos, (reg, asc), has) =
      let (slots, run, (same, good)) =
        static_slots-Mirrors static_value (HoldsTree d) (HoldsKey V d) (suc d)
          (IsTree static_value d) (IsTrie V d) (to_trie static_value true (λ n. true) d)
          (λ c g. to_trie-Built d c g) es reg has in
      let out : Trie V (suc d) = record { has_ksuf = true; slots = slots } in
      let len = mirror_length static_value (HoldsTree d) (HoldsKey V d) es slots same in
      let up = mirror-Ascending static_value (HoldsTree d) (HoldsKey V d) es slots same asc in
      (
        out,
        rw (read, run) refl,
        (
          (refl, omega (arith, len, pos.0), (good, up)),
          λ k v.
              let any = mirror_any static_value (HoldsTree d) (HoldsKey V d) k v es slots same in
              let leaves = λ (row : R).
                read_layer-HoldsAny (suc d) (IsTree static_value d) (HoldsTree d) k row t es read
                  reg in
              (
                λ h. let (row, at, val) = any.0 h in (row, (leaves row).0 at, val),
                λ (row, at, val). any.1 (row, (leaves row).1 at, val),
              ),
        ),
      )

  -- From a well-formed dynamic tree without the empty key and without NUL in a suffix, with as many
  -- rounds as it has layers and fewer than 2 ^ 32 of them, `buildStatic` ends without a fault in a
  -- well-formed trie that has the keys of the tree with the static values of their rows, and no
  -- other.
  pub build-Built :
      (fuel d : ℕ) (t : Tree R d)
      → IsTree static_value d t
      → tree_nodes R d t ≤ fuel
      → tree_nodes R d t < 4294967296
      → Returns (build static_value true (λ n. true) fuel d t) (Built d t)
  build-Built fuel d t h enough bound =
      let (out, run, built) = to_trie-Built d t h in
      (out, build-to_trie static_value true (λ n. true) fuel d t out run enough bound, built)
