-- ===== src/Index/Tries.antt =====
-- The static trie and its point cursor as the static table of an index: the laws that
-- Index/Interface states of the static table's `remove` and of its updates, shown of the code of
-- hybrid_index/masstree_get.hh.
use microbench.Common.{ℕ, ◌≡◌, ◌≢◌, ◌↔◌, Option, none, some, Bool, true, false, refl, ap}
use microbench.Common.Run.{Run, ok, fault}
use microbench.Key.{Key}
use microbench.Key.Slice.{AreBytes}
use microbench.Index.Interface.{Tables, Value, StaticRemoves, StaticUpdates}
use microbench.Trie.{Trie, find, remove, update}
use microbench.Trie.Find.{Answers, find-Answers}
use microbench.Trie.Holds.{IsWellFormed, Holds}
use microbench.Trie.Others.{SameElsewhere}
use microbench.Trie.Remove.{HasDistinctSlices, Removed, remove-Removed}
use microbench.Trie.Single.{Holds-unique}
use microbench.Trie.Update.{Updated, update-Updated}

-- The root of a static table, null for a table without a trie.
abbrev pub Root : ℕ → Type 0
Root d = Option (Trie Value d)

-- The answers of the cursor. A fault counts as a miss here; on well-formed tries there is none.
abbrev given : Run (Option Value) → Option Value
given fault = none
given (ok o) = o

abbrev changed : (d : ℕ) → Trie Value d → Run (Bool × Trie Value d) → Bool × Root d
changed d t fault = (false, some t)
changed d t (ok r) = (r.0, some r.1)

abbrev pub trie_find : (d : ℕ) → Root d → Key → Option Value
trie_find d none k = none
trie_find d (some t) k = given (find Value d t k)

abbrev pub trie_remove : (d : ℕ) → Root d → Key → Bool × Root d
trie_remove d none k = (false, none)
trie_remove d (some t) k = changed d t (remove Value d t k)

abbrev pub trie_update : (d : ℕ) → Root d → Key → Value → Bool × Root d
trie_update d none k v = (false, none)
trie_update d (some t) k v = changed d t (update Value d t k v)

-- A dynamic table beside the trie. Build and merge are any functions: what follows does not use them.
abbrev pub with_trie : {D : Type 0} (d : ℕ) → Tables D (Root d) → Tables D (Root d)
with_trie d T = record T {
  static_empty = none;
  static_find = trie_find d;
  static_remove = trie_remove d;
  static_update = trie_update d;
}

module _ (d : ℕ) where
  abbrev pub IsGood : Root d → Type 0
  IsGood none = Unit
  IsGood (some t) = IsWellFormed Value d t

  -- Also, no two slots of a node have the same slice.
  abbrev pub IsDistinct : Root d → Type 0
  IsDistinct none = Unit
  IsDistinct (some t) = IsWellFormed Value d t × HasDistinctSlices Value d t

  trie_find-Answers :
      (t : Trie Value d) (k : Key)
      → IsWellFormed Value d t
      → Answers Value d t k (trie_find d (some t) k)
  trie_find-Answers t k wf = let (o, run, answers) = find-Answers Value d t k wf in rw run answers

  -- The answer is decided by what the trie holds.
  Answers-eq :
      (t u : Trie Value d) (j : Key)
      → IsWellFormed Value d t
      → ((v : Value) → Holds Value d u j v ↔ Holds Value d t j v)
      → (o p : Option Value) → Answers Value d u j o
      → Answers Value d t j p
      → o ≡ p
  Answers-eq t u j wf same none none a b = refl
  Answers-eq t u j wf same none (some w) a b = absurd (a w ((same w).1 b))
  Answers-eq t u j wf same (some v) none a b = absurd (b v ((same v).0 a))
  Answers-eq t u j wf same (some v) (some w) a b =
      ap some (Holds-unique Value d t j v w wf ((same v).0 a) b)

  find-elsewhere :
      (t u : Trie Value d) (k : Key)
      → IsWellFormed Value d t
      → IsWellFormed Value d u
      → SameElsewhere Value d u t k
      → (j : Key) → AreBytes j
      → j ≢ k
      → trie_find d (some u) j ≡ trie_find d (some t) j
  find-elsewhere t u k ht hu same j bytes differ =
      Answers-eq t u j ht (same j bytes differ) (trie_find d (some u) j) (trie_find d (some t) j)
        (trie_find-Answers u j hu) (trie_find-Answers t j ht)

  find-none :
      (t : Trie Value d) (k : Key)
      → IsWellFormed Value d t
      → ((v : Value) → ¬ Holds Value d t k v)
      → trie_find d (some t) k ≡ none
  find-none t k wf missing = from (trie_find d (some t) k) (trie_find-Answers t k wf)
    where
      from : (o : Option Value) → Answers Value d t k o → o ≡ none
      from none a = refl
      from (some v) a = absurd (missing v a)

  find-some :
      (t : Trie Value d) (k : Key) (v : Value)
      → IsWellFormed Value d t
      → Holds Value d t k v
      → trie_find d (some t) k ≡ some v
  find-some t k v wf has = from (trie_find d (some t) k) (trie_find-Answers t k wf)
    where
      from : (o : Option Value) → Answers Value d t k o → o ≡ some v
      from none a = absurd (a v has)
      from (some w) a = ap some (Holds-unique Value d t k w v wf a has)

  none-Holds :
      (t : Trie Value d) (k : Key)
      → IsWellFormed Value d t
      → trie_find d (some t) k ≡ none
      → (v : Value) → ¬ Holds Value d t k v
  none-Holds t k wf is v has = cc (is, find-some t k v wf has)

  some-Holds :
      (t : Trie Value d) (k : Key) (w : Value)
      → IsWellFormed Value d t
      → trie_find d (some t) k ≡ some w
      → Holds Value d t k w
  some-Holds t k w wf is = rw is at (trie_find-Answers t k wf)

  -- A run that changes a trie, by what it comes to.
  remove_miss :
      (t : Trie Value d) (k : Key) (r : Bool × Trie Value d)
      → ((v : Value) → ¬ Holds Value d t k v)
      → Removed Value d t k r
      → r ≡ (false, t)
  remove_miss t k (false, u) missing (same, gone) = rw same refl
  remove_miss t k (true, u) missing (old, was, gone, others, keeps) = absurd (missing old was)

  update_miss :
      (t : Trie Value d) (k : Key) (v : Value) (r : Bool × Trie Value d)
      → ((w : Value) → ¬ Holds Value d t k w)
      → Updated Value d t k v r
      → r ≡ (false, t)
  update_miss t k v (false, u) missing (same, gone) = rw same refl
  update_miss t k v (true, u) missing (old, was, fine, now, others) = absurd (missing old was)

  -- What `StaticRemoves` asks of a removal of a stored key.
  abbrev Gone : Trie Value d → Key → Bool × Root d → Type 0
  Gone t k r =
      (s : Root d) × (r ≡ (true, s))
      × IsDistinct s
      × (trie_find d s k ≡ none)
      × ((j : Key) → AreBytes j → j ≢ k → trie_find d s j ≡ trie_find d (some t) j)

  remove_hit :
      (t : Trie Value d) (k : Key) (w : Value) (r : Bool × Trie Value d)
      → IsDistinct (some t)
      → Holds Value d t k w
      → Removed Value d t k r
      → Gone t k (r.0, some r.1)
  remove_hit t k w (false, u) good has (same, missing) = absurd (missing w has)
  remove_hit t k w (true, u) good has (old, was, gone, others, keeps) =
      let fine = keeps good.1 in
      (some u, refl, fine, find-none u k fine.0 gone, find-elsewhere t u k good.0 fine.0 others)

  abbrev Written : Trie Value d → Key → Value → Bool × Root d → Type 0
  Written t k v r =
      (s : Root d) × (r ≡ (true, s))
      × IsGood s
      × (trie_find d s k ≡ some v)
      × ((j : Key) → AreBytes j → j ≢ k → trie_find d s j ≡ trie_find d (some t) j)

  update_hit :
      (t : Trie Value d) (k : Key) (v w : Value) (r : Bool × Trie Value d)
      → IsWellFormed Value d t
      → Holds Value d t k w
      → Updated Value d t k v r
      → Written t k v (r.0, some r.1)
  update_hit t k v w (false, u) wf has (same, missing) = absurd (missing w has)
  update_hit t k v w (true, u) wf has (old, was, fine, now, others) =
      (some u, refl, fine, find-some u k v fine now, find-elsewhere t u k wf fine others)

  module _ {D : Type 0} (T : Tables D (Root d)) where
    removes_none :
        (s : Root d) (k : Key)
        → IsDistinct s
        → AreBytes k
        → trie_find d s k ≡ none
        → trie_remove d s k ≡ (false, s)
    removes_none none k good bytes miss = refl
    removes_none (some t) k good bytes miss =
        let (r, run, post) = remove-Removed Value d t k bytes good.0 in
        rw (run, remove_miss t k r (none-Holds t k good.0 miss) post) refl

    removes_some :
        (s : Root d) (k : Key) (w : Value)
        → IsDistinct s
        → AreBytes k
        → trie_find d s k ≡ some w
        → (s' : Root d) × (trie_remove d s k ≡ (true, s'))
          × IsDistinct s'
          × (trie_find d s' k ≡ none)
          × ((j : Key) → AreBytes j → j ≢ k → trie_find d s' j ≡ trie_find d s j)
    removes_some none k w good bytes hit = cc
    removes_some (some t) k w good bytes hit =
        let (r, run, post) = remove-Removed Value d t k bytes good.0 in
        let has = some-Holds t k w good.0 hit in rw run (remove_hit t k w r good has post)

    updates_none :
        (s : Root d) (k : Key) (v : Value)
        → IsGood s
        → AreBytes k
        → trie_find d s k ≡ none
        → trie_update d s k v ≡ (false, s)
    updates_none none k v good bytes miss = refl
    updates_none (some t) k v good bytes miss =
        let (r, run, post) = update-Updated Value d t k v bytes good in
        rw (run, update_miss t k v r (none-Holds t k good miss) post) refl

    updates_some :
        (s : Root d) (k : Key) (v w : Value)
        → IsGood s
        → AreBytes k
        → trie_find d s k ≡ some w
        → (s' : Root d) × (trie_update d s k v ≡ (true, s'))
          × IsGood s'
          × (trie_find d s' k ≡ some v)
          × ((j : Key) → AreBytes j → j ≢ k → trie_find d s' j ≡ trie_find d s j)
    updates_some none k v w good bytes hit = cc
    updates_some (some t) k v w good bytes hit =
        let (r, run, post) = update-Updated Value d t k v bytes good in
        let has = some-Holds t k w good hit in rw run (update_hit t k v w r good has post)

    -- The trie's cursor keeps the laws of `remove`, in tries with one key for a slice in a node.
    pub trie_removes : StaticRemoves (with_trie d T) IsDistinct
    trie_removes = record { static_remove-none = removes_none; static_remove-some = removes_some }

    pub trie_updates : StaticUpdates (with_trie d T) IsGood
    trie_updates = record { static_update-none = updates_none; static_update-some = updates_some }
