-- ===== src/Merge/Find.antt =====
-- The merge as the searches see it: `find` in the new trie against `find` in the two old ones.
use microbench.Common.{
  ℕ, zero, suc, ◌≡◌, ◌⊎◌, List, [], ◌∷◌, true, Bool, refl, ap, sym, inl, inr, arith, some, Option,
  none, get_elem?, if◌then◌else◌,
}
use mathlib.Core.Path.{subst}
use microbench.Common.Run.{ok, Returns}
use microbench.Key.{Key, suffix, shift}
use microbench.Key.Slice.{AreBytes}
use microbench.Massnode.{LeafValue, value, layer, Slot}
use microbench.Massnode.Chains.{All-get, Ascending-IsAscending}
use microbench.Merge.{merge_task}
use microbench.Merge.Holds.{Any, IsRegular, IsRegularSlot, HoldsValue, Unites, IsTrie, HoldsKey}
use microbench.Merge.Tries.{merge}
use microbench.Merge.Tries.Steady.{IsSteady, run_task-settle}
use microbench.Merge.Whole.{settle-Done}
use microbench.Trie.{Trie, find}
use microbench.Trie.Find.{Answers, find-Answers}
use microbench.Trie.Holds.{Fits, Carries, InLayer, IsWellFormed, Holds}
use microbench.Trie.Single.{Holds-unique}

Any-get :
    {A : Type 0} (P : A → Type 0) (xs : List A)
    → Any P xs
    → (i : ℕ) × (x : A) × (get_elem? xs i ≡ some x) × P x
Any-get P [] h = elim h [ ]
Any-get P (x ∷ xs) (inl h) = (zero, x, refl, h)
Any-get P (x ∷ xs) (inr h) = let (i, y, get, has) = Any-get P xs h in (suc i, y, get, has)

get-Any :
    {A : Type 0} (P : A → Type 0) (xs : List A) (i : ℕ) (x : A)
    → get_elem? xs i ≡ some x
    → P x
    → Any P xs
get-Any P [] i x get h = absurd (cc)
get-Any P (y ∷ xs) zero x get h = let same : x ≡ y = cc in inl (subst P same h)
get-Any P (y ∷ xs) (suc i) x get h = inr (get-Any P xs i x get h)

module _ (V : Type 0) where
  pub IsTrie-IsWellFormed : (d : ℕ) (t : Trie V d) → IsTrie V d t → IsWellFormed V d t
  IsTrie-IsWellFormed zero t h = h
  IsTrie-IsWellFormed (suc d) t (full, filled, (reg, asc)) = (
    Ascending-IsAscending t.slots asc,
    λ p e get. fits (IsTrie-IsWellFormed d) e.ikeylen e.ksuf e.lv (All-get _ t.slots p e reg get),
  )
    where
      fits :
          ((c : Trie V d) → IsTrie V d c → IsWellFormed V d c)
          → (len : ℕ) (s : List ℕ) (lv : LeafValue V (Trie V d))
          → IsRegular (suc d) (IsTrie V d) len s lv
          → Fits (IsWellFormed V d) len lv
      fits below len s (value v) h = h.0
      fits below len s (layer c) h = (omega (arith, h.0), below c h.2)

  pub HoldsKey-Holds :
      (d : ℕ) (t : Trie V d) (k : Key) (v : V) → IsTrie V d t → HoldsKey V d t k v → Holds V d t k v
  HoldsKey-Holds zero t k v h has = has
  HoldsKey-Holds (suc d) t k v (full, filled, (reg, asc)) has =
      let (p, e, get, (at, x)) = Any-get _ t.slots has in
      (
        p,
        e,
        get,
        at,
        inside e (All-get _ t.slots p e reg get) (λ c good. HoldsKey-Holds d c (shift k) v good) x,
      )
    where
      inside :
          (e : Slot V (Trie V d))
          → IsRegularSlot (suc d) (IsTrie V d) e
          → ((c : Trie V d) → IsTrie V d c → HoldsKey V d c (shift k) v → Holds V d c (shift k) v)
          → HoldsValue e k v ⊎ InLayer {V = V} (λ c. HoldsKey V d c (shift k) v) e.lv k
          → Carries t e k v ⊎ InLayer {V = V} (λ c. Holds V d c (shift k) v) e.lv k
      inside e r below (inl (is, live, len, suf)) = inl (is, live, len, λ long. rw full (suf long))
      inside e r below (inr (c, is, long, h)) =
          let good : IsRegular {V = V} (suc d) (IsTrie V d) e.ikeylen e.ksuf (layer c) =
            subst (IsRegular {V = V} (suc d) (IsTrie V d) e.ikeylen e.ksuf) is r in
          inr (c, is, long, below c good.2 h)

  pub Holds-HoldsKey :
      (d : ℕ) (t : Trie V d) (k : Key) (v : V) → IsTrie V d t → Holds V d t k v → HoldsKey V d t k v
  Holds-HoldsKey zero t k v h has = has
  Holds-HoldsKey (suc d) t k v (full, filled, (reg, asc)) (p, e, get, at, x) =
      get-Any _ t.slots p e get (
        at,
        inside (All-get _ t.slots p e reg get) (λ c good. Holds-HoldsKey d c (shift k) v good) x,
      )
    where
      inside :
          IsRegularSlot (suc d) (IsTrie V d) e
          → ((c : Trie V d) → IsTrie V d c → Holds V d c (shift k) v → HoldsKey V d c (shift k) v)
          → Carries t e k v ⊎ InLayer {V = V} (λ c. Holds V d c (shift k) v) e.lv k
          → HoldsValue e k v ⊎ InLayer {V = V} (λ c. HoldsKey V d c (shift k) v) e.lv k
      inside r below (inl (is, live, len, suf)) = inl (
        is,
        live,
        len,
        λ long. subst (λ b. (if b then e.ksuf else []) ≡ suffix k) full (suf long),
      )
      inside r below (inr (c, is, long, h)) =
          let good : IsRegular {V = V} (suc d) (IsTrie V d) e.ikeylen e.ksuf (layer c) =
            subst (IsRegular {V = V} (suc d) (IsTrie V d) e.ikeylen e.ksuf) is r in
          inr (c, is, long, below c good.2 h)

  -- What `find` gives in the new trie, from what it gives in the old ones.
  abbrev pub Joins : Option V → Option V → Option V → Type 0
  Joins none none o = o ≡ none
  Joins none (some b) o = o ≡ some b
  Joins (some a) none o = o ≡ some a
  Joins (some a) (some b) o = (o ≡ some a) ⊎ (o ≡ some b)

  module _ (d : ℕ) (m n t : Trie V d) (hm : IsTrie V d m) (hn : IsTrie V d n)
      (unites : Unites (HoldsKey V d m) (HoldsKey V d n) (HoldsKey V d t)) (ht : IsTrie V d t)
      (k : Key) (bytes : AreBytes k) where
    -- A value in the new trie is the one that an old trie has.
    origin :
        (c : V)
        → Holds V d t k c
        → (om on : Option V) → Answers V d m k om
        → Answers V d n k on
        → (om ≡ some c) ⊎ (on ≡ some c)
    origin c has om on am an = from om on am an (unites.0 k c bytes (Holds-HoldsKey d t k c ht has))
      where
        from :
            (om on : Option V)
            → Answers V d m k om
            → Answers V d n k on
            → HoldsKey V d m k c ⊎ HoldsKey V d n k c
            → (om ≡ some c) ⊎ (on ≡ some c)
        from none on am an (inl h) = absurd (am c (HoldsKey-Holds d m k c hm h))
        from om none am an (inr h) = absurd (an c (HoldsKey-Holds d n k c hn h))
        from (some a) on am an (inl h) = inl (
            ap some (
              Holds-unique V d m k a c (IsTrie-IsWellFormed d m hm) am
                (HoldsKey-Holds d m k c hm h)))
        from om (some b) am an (inr h) = inr (
            ap some (
              Holds-unique V d n k b c (IsTrie-IsWellFormed d n hn) an
                (HoldsKey-Holds d n k c hn h)))

    Answers-Joins :
        (om on ot : Option V)
        → Answers V d m k om
        → Answers V d n k on
        → Answers V d t k ot
        → Joins om on ot
    Answers-Joins none none none am an at = refl
    Answers-Joins none none (some c) am an at = elim (origin c at none none am an) [
      | inl e ↦ cc
      | inr e ↦ cc
    ]
    Answers-Joins none (some b) none am an at =
        let (w, has) = unites.1 k b bytes (inr (Holds-HoldsKey d n k b hn an)) in
        absurd (at w (HoldsKey-Holds d t k w ht has))
    Answers-Joins none (some b) (some c) am an at = elim (origin c at none (some b) am an) [
      | inl e ↦ cc
      | inr e ↦ sym e
    ]
    Answers-Joins (some a) on none am an at =
        let (w, has) = unites.1 k a bytes (inl (Holds-HoldsKey d m k a hm am)) in
        absurd (at w (HoldsKey-Holds d t k w ht has))
    Answers-Joins (some a) none (some c) am an at = elim (origin c at (some a) none am an) [
      | inl e ↦ sym e
      | inr e ↦ cc
    ]
    Answers-Joins (some a) (some b) (some c) am an at = elim (origin c at (some a) (some b) am an) [
      | inl e ↦ inl (sym e)
      | inr e ↦ inr (sym e)
    ]

  -- What `merge` comes to, as the searches see it.
  abbrev pub Finds : (d : ℕ) → Trie V d → Trie V d → Bool × Option (Trie V d) → Type 0
  Finds d m n r =
      (r.0 ≡ true)
      × (t : Trie V d) × (r.1 ≡ some t)
      × IsTrie V d t
      × ((k : Key)
          → AreBytes k
          → (om on ot : Option V) × (find V d m k ≡ ok om)
            × (find V d n k ≡ ok on)
            × (find V d t k ≡ ok ot)
            × Joins om on ot)

  -- Merging two tries that are well formed, with suffixes without NUL, ends without a fault, answers
  -- true, and makes a well-formed trie, if every entry that is added to a layer makes it longer or
  -- leaves a task there.
  -- Lookups of a key of bytes return in all three. In the new trie a key of one trie has its value
  -- there, a key of both one of its two values, and no other key is found.
  pub merge-Finds :
      (d : ℕ) (m n : Trie V d)
      → IsTrie V d m
      → IsTrie V d n
      → IsSteady V d (merge_task m n)
      → Returns (merge V d (some m) (some n)) (Finds d m n)
  unfolding merge
  merge-Finds d m n hm hn steady =
      let (t, run, (ht, unites)) = settle-Done V d (merge_task m n) (hm, hn) in
      (
        (true, some t),
        rw (run_task-settle V d (merge_task m n) steady, run) refl,
        (
          refl,
          t,
          refl,
          ht,
          λ k bytes.
              let (om, fm, am) = find-Answers V d m k (IsTrie-IsWellFormed d m hm) in
              let (on, fn, an) = find-Answers V d n k (IsTrie-IsWellFormed d n hn) in
              let (ot, ft, at) = find-Answers V d t k (IsTrie-IsWellFormed d t ht) in
              (
                om,
                on,
                ot,
                fm,
                fn,
                ft,
                Answers-Joins d m n t hm hn unites ht k bytes om on ot am an at,
              ),
        ),
      )
