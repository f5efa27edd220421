-- ===== src/Trie/Update.antt =====
-- `update`.
use microbench.Common.{ℕ, zero, suc, ◌≡◌, true, false, inl, inr, Bool, refl}
use microbench.Common.Run.{ok, Returns}
use microbench.Key.{Key, shift}
use microbench.Key.Slice.{AreBytes, AreBytes-drop}
use microbench.Massnode.{value, layer, Slot, set_lv, set_slot}
use microbench.Trie.{Trie, Step, absent, leaf, down, step, update, put_layer}
use microbench.Trie.Holds.{IsWellFormed, Holds}
use microbench.Trie.Round.{Explains, step-Explains, Fits-layer, Fits-value}
use microbench.Trie.Find.{leaf-Carries, down-layer, absent-Holds, down-Holds}
use microbench.Trie.Others.{
  SameElsewhere, leaf-SameElsewhere, value_other, down-SameElsewhere, down_unchanged,
}
use microbench.Trie.Write.{set_lv-IsNode, written-Holds}

-- What a run of `update` with the value `nv` comes to.
abbrev pub Updated : (V : Type 0) (d : ℕ) → Trie V d → Key → V → Bool × Trie V d → Type 0
Updated V d t k nv (false, t') = (t' ≡ t) × ((v : V) → ¬ Holds V d t k v)
Updated V d t k nv (true, t') =
    (old : V) × Holds V d t k old
    × IsWellFormed V d t'
    × Holds V d t' k nv
    × SameElsewhere V d t' t k

module _ (V : Type 0) (d : ℕ) (t : Trie V (suc d)) (k : Key) (bytes : AreBytes k)
    (wf : IsWellFormed V (suc d) t) where
  leaf-Updated :
      (nv : V) (p : ℕ) (e : Slot V (Trie V d))
      → Explains t k (leaf p e)
      → Updated V (suc d) t k nv (true, set_slot t p (set_lv (value nv) e))
  unfolding set_lv
  leaf-Updated nv p e ex =
      let (old, same, has) = leaf-Carries (IsWellFormed V d) t k p e wf ex in
      let fit = (Fits-value (IsWellFormed V d) e.ikeylen e.lv (wf.1 p e ex.0) ex.2).2 in
      let f : Slot V (Trie V d) = record e { lv = value nv } in
      (
        old,
        (p, e, ex.0, same, inl has),
        set_lv-IsNode (IsWellFormed V d) t p e (value nv) wf ex.0 fit,
        written-Holds V d t p e f ex.0 refl k nv same (inl (refl, has.1, has.2, has.3)),
        leaf-SameElsewhere V d t k bytes wf p e ex f refl (value_other V d t k bytes wf p e ex nv),
      )

  down-Updated :
      (nv : V) (p : ℕ) (e : Slot V (Trie V d)) (c : Trie V d) (r : Bool × Trie V d)
      → Explains t k (down p e c)
      → Updated V d c (shift k) nv r
      → Updated V (suc d) t k nv (put_layer V d t p e r)
  unfolding set_lv
  down-Updated nv p e c (false, c') ex (same, missing) = (
    down_unchanged V d t k bytes wf p e c ex c' same,
    λ v. down-Holds V d t k p e c v wf ex (missing v),
  )
  down-Updated nv p e c (true, c') ex (old, was, sound, now, others) =
      let (samek, long, sub) = down-layer (IsWellFormed V d) t k p e c wf ex in
      let (c₁, is, deep, rest) =
        Fits-layer (IsWellFormed V d) e.ikeylen e.lv (wf.1 p e ex.0) ex.2 in
      let f : Slot V (Trie V d) = record e { lv = layer c' } in
      (
        old,
        (p, e, ex.0, samek, inr (c, ex.3, long, was)),
        set_lv-IsNode (IsWellFormed V d) t p e (layer c') wf ex.0 (deep, sound),
        written-Holds V d t p e f ex.0 refl k nv samek (inr (c', refl, long, now)),
        down-SameElsewhere V d t k bytes wf p e c ex c' others,
      )

module _ (V : Type 0) where
  -- For a key of bytes and a well-formed trie, `update` ends without a fault. With success the trie
  -- held the key, is still well formed, holds the new value there, and is the same at every other
  -- key of bytes. Without, it held nothing under the key and is unchanged.
  pub update-Updated :
      (d : ℕ) (t : Trie V d) (k : Key) (nv : V)
      → AreBytes k
      → IsWellFormed V d t
      → Returns (update V d t k nv) (Updated V d t k nv)
  unfolding update
  update-Updated zero t k nv bytes wf = elim wf [ ]
  update-Updated (suc d) t k nv bytes wf =
      let (s, run, ex) = step-Explains (IsWellFormed V d) t k wf in go s run ex (update-Updated d)
    where
      go :
          (s : Step V (Trie V d))
          → step t k ≡ ok s
          → Explains t k s
          → ((c : Trie V d) (j : Key) (w : V)
              → AreBytes j
              → IsWellFormed V d c
              → Returns (update V d c j w) (Updated V d c j w))
          → Returns (update V (suc d) t k nv) (Updated V (suc d) t k nv)
      go absent run ex deeper = ((false, t), rw run, (refl, absent-Holds V d t k wf ex))
      go (leaf p e) run ex deeper = (
        (true, set_slot t p (set_lv (value nv) e)),
        rw run,
        leaf-Updated V d t k bytes wf nv p e ex,
      )
      go (down p e c) run ex deeper =
          let (same, long, sub) = down-layer (IsWellFormed V d) t k p e c wf ex in
          let (r, done, post) = deeper c (shift k) nv (AreBytes-drop 8 k bytes) sub in
          (put_layer V d t p e r, rw (run, done), down-Updated V d t k bytes wf nv p e c r ex post)
