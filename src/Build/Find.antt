-- ===== src/Build/Find.antt =====
-- Lookups in the trie that `buildStatic` makes, by what the dynamic tree holds.
use microbench.Common.{ℕ, zero, suc, ◌≡◌, List, [], ◌∷◌, Option, some, none, inl, inr}
use mathlib.Core.Path.{subst}
use microbench.Common.Run.{Run, ok, Returns}
use microbench.Key.{Key, shift}
use microbench.Massnode.{value, layer, Slot}
use microbench.Massnode.Chains.{All}
use microbench.Merge.Holds.{IsRegular, IsRegularSlot, HoldsAny}
use microbench.Merge.Find.{IsTrie-IsWellFormed, HoldsKey-Holds, Holds-HoldsKey}
use microbench.Trie.{Trie, find}
use microbench.Trie.Find.{Answers, find-Answers}
use microbench.Build.{Tree}
use microbench.Build.Holds.{HoldsTree, HasValue, IsTree, read_layer-HoldsAny}
use microbench.Build.Trees.{Built}

module _ {R V : Type 0} (static_value : R → Run V) where
  -- The abstract answer of a tree: the static value of a row that it holds, or it holds none.
  abbrev pub TreeAnswers : (d : ℕ) → Tree R d → Key → Option V → Type 0
  TreeAnswers d t k (some v) = (row : R) × HoldsTree d t k row × (static_value row ≡ ok v)
  TreeAnswers d t k none = (row : R) → ¬ HoldsTree d t k row

  -- A row that a slot holds has a static value.
  HoldsAny-HasValue :
      {L : Type 0} (H : L → Key → R → Type 0) (d : ℕ) (G : L → Type 0) (k : Key) (row : R)
      → ((c : L) → G c → H c (shift k) row → (v : V) × (static_value row ≡ ok v))
      → (es : List (Slot R L)) → All (IsRegularSlot d G) es
      → All (λ e. HasValue static_value e.lv) es
      → HoldsAny H es k row
      → (v : V) × (static_value row ≡ ok v)
  HoldsAny-HasValue H d G k row below [] reg has h = elim h [ ]
  HoldsAny-HasValue {L} H d G k row below (e ∷ es) reg has (inl (at, inl (is, rest, len, suf))) =
      let val : HasValue {L = L} static_value (value row) =
        subst (HasValue static_value) is has.0 in
      val
  HoldsAny-HasValue {L} H d G k row below (e ∷ es) reg has (inl (at, inr (c, is, long, h))) =
      let good : IsRegular {V = R} d G e.ikeylen e.ksuf (layer c) =
        subst (IsRegular {V = R} d G e.ikeylen e.ksuf) is reg.0 in
      below c good.2 h
  HoldsAny-HasValue H d G k row below (e ∷ es) reg has (inr h) =
      HoldsAny-HasValue H d G k row below es reg.1 has.1 h

  HoldsTree-HasValue :
      (d : ℕ) (t : Tree R d) (k : Key) (row : R)
      → IsTree static_value d t
      → HoldsTree d t k row
      → (v : V) × (static_value row ≡ ok v)
  HoldsTree-HasValue zero t k row h held = elim h [ ]
  HoldsTree-HasValue (suc d) t k row (es, read, pos, (reg, asc), has) held =
      let at =
        read_layer-HoldsAny (suc d) (IsTree static_value d) (HoldsTree d) k row t es read reg in
      HoldsAny-HasValue (HoldsTree d) (suc d) (IsTree static_value d) k row
        (λ c g. HoldsTree-HasValue d c (shift k) row g) es reg has (at.1 held)

  -- What `find` gives in the built trie is the answer of the tree.
  Answers-TreeAnswers :
      (d : ℕ) (t : Tree R d) (out : Trie V d) (k : Key)
      → IsTree static_value d t
      → Built static_value d t out
      → (o : Option V) → Answers V d out k o
      → TreeAnswers d t k o
  Answers-TreeAnswers d t out k h (good, same) (some v) found =
      (same k v).0 (Holds-HoldsKey V d out k v good found)
  Answers-TreeAnswers d t out k h (good, same) none missing = λ row held.
      let (v, val) = HoldsTree-HasValue d t k row h held in
      missing v (HoldsKey-Holds V d out k v good ((same k v).1 (row, held, val)))

  pub find-TreeAnswers :
      (d : ℕ) (t : Tree R d) (out : Trie V d) (k : Key)
      → IsTree static_value d t
      → Built static_value d t out
      → Returns (find V d out k) (TreeAnswers d t k)
  find-TreeAnswers d t out k h built =
      let (o, run, found) = find-Answers V d out k (IsTrie-IsWellFormed V d out built.0) in
      (o, run, Answers-TreeAnswers d t out k h built o found)
