-- ===== src/Trie/Round.antt =====
-- One round of the cursor's walk: what `step` tells of a node that is well formed.
use microbench.Common.{
  ℕ, ◌<◌, ◌≤◌, ◌≡◌, ◌↔◌, Option, none, some, get_elem?, Ordering, arith, length, true, false, ltb,
  ◌&&◌, refl, List, [], ◌∷◌, ltb→lt, Bool-cases, inl, inr,
}
use microbench.Common.Run.{ok, Returns}
use microbench.Key.{Key, suffix, ikey_size}
use microbench.Key.Compare.{key_compare-eq}
use microbench.Massnode.{
  LeafValue, value, layer, Slot, Massnode, ksuf_of, ksuf_equals, is_valid, bytes_equal,
  keylenx_is_layer,
}
use microbench.Massnode.Order.{
  IsAscending, sign, lower_bound_binary, Locates, lower_bound_binary-Locates, sign-eq_unique,
}
use microbench.Trie.{Step, absent, leaf, down, step, classify, read_slot}
use microbench.Trie.Holds.{Fits, IsNode}

pub bytes_equal_iff : (s t : List ℕ) → (bytes_equal s t ≡ true) ↔ (s ≡ t)
unfolding bytes_equal
bytes_equal_iff [] [] = (λ h. refl, λ h. refl)
bytes_equal_iff [] (b ∷ t) = (λ h. cc, λ h. cc)
bytes_equal_iff (a ∷ s) [] = (λ h. cc, λ h. cc)
bytes_equal_iff (a ∷ s) (b ∷ t) =
    (λ h. ground (arith, bytes_equal_iff s t), λ h. ground (arith, bytes_equal_iff s t))

module _ {V L : Type 0} (n : Massnode V L) (k : Key) (e : Slot V L) where
  -- The test of the suffixes, at a slot that `key_compare` finds equal.
  pub ksuf_equals_iff :
      sign k e ≡ Ordering.eq
      → e.ikeylen ≤ 9
      → (ksuf_equals n e k ≡ true) ↔ (ikey_size < length k → ksuf_of n e ≡ suffix k)
  unfolding ksuf_equals
  ksuf_equals_iff same fits =
      let r = key_compare-eq k e.ikey e.ikeylen same in
      let b = bytes_equal_iff (ksuf_of n e) (suffix k) in
      (
        λ h long. ground (arith, b.0),
        λ h. elim (Bool-cases (ltb ikey_size (length k))) [
          | inl long ↦ ground (arith, b.1 (h (ltb→lt _ _ long)))
          | inr short ↦ ground arith
        ],
      )

-- What the result of a round tells.
abbrev pub Explains : {V L : Type 0} → Massnode V L → Key → Step V L → Type 0
Explains {V} {L} n k absent =
    (p : ℕ) (e : Slot V L)
    → get_elem? n.slots p ≡ some e
    → sign k e ≡ Ordering.eq
    → (keylenx_is_layer e.ikeylen ≡ false) × (is_valid e && ksuf_equals n e k ≡ false)
Explains n k (leaf p e) =
    (get_elem? n.slots p ≡ some e)
    × (sign k e ≡ Ordering.eq)
    × (keylenx_is_layer e.ikeylen ≡ false)
    × (is_valid e ≡ true)
    × (ksuf_equals n e k ≡ true)
Explains n k (down p e c) =
    (get_elem? n.slots p ≡ some e)
    × (sign k e ≡ Ordering.eq)
    × (keylenx_is_layer e.ikeylen ≡ true)
    × (e.lv ≡ layer c)

module _ {V L : Type 0} (P : L → Type 0) where
  pub Fits-layer :
      (len : ℕ) (lv : LeafValue V L)
      → Fits P len lv
      → keylenx_is_layer len ≡ true
      → (c : L) × (lv ≡ layer c) × (63 < len) × P c
  Fits-layer len (value v) fits deep = absurd (omega (arith, ltb→lt 63 len deep))
  Fits-layer len (layer c) fits deep = (c, refl, fits.0, fits.1)

  pub Fits-value :
      (len : ℕ) (lv : LeafValue V L)
      → Fits P len lv
      → keylenx_is_layer len ≡ false
      → (v : V) × (lv ≡ value v) × (len ≤ 9)
  Fits-value len (value v) fits flat = (v, refl, fits)
  Fits-value len (layer c) fits flat = absurd (ground arith)

module _ {V L : Type 0} (P : L → Type 0) (n : Massnode V L) (k : Key) where
  -- The slot at which the search stopped is the only one that equals the key.
  classify_down :
      (p : ℕ) (e : Slot V L) (c : L)
      → keylenx_is_layer e.ikeylen ≡ true
      → e.lv ≡ layer c
      → classify n k p e ≡ ok (down p e c)
  unfolding classify
  classify_down p e c deep is = ground arith

  only :
      (p : ℕ) (e : Slot V L)
      → IsAscending n.slots
      → get_elem? n.slots p ≡ some e
      → sign k e ≡ Ordering.eq
      → keylenx_is_layer e.ikeylen ≡ false
      → is_valid e && ksuf_equals n e k ≡ false
      → Explains n k absent
  only p e asc get same flat refused q f at zer =
      let one : p ≡ q = sign-eq_unique k n.slots asc p q e f get at same zer in
      let is : e ≡ f = ground (arith, rw one at get) in (rw (← is) flat, rw (← is) refused)

  classify-Explains :
      (p : ℕ) (e : Slot V L)
      → IsNode P n
      → get_elem? n.slots p ≡ some e
      → sign k e ≡ Ordering.eq
      → Returns (classify n k p e) (Explains n k)
  unfolding classify
  classify-Explains p e node get same = elim (Bool-cases (keylenx_is_layer e.ikeylen)) [
    | inl deep ↦
        let (c, is, long, sub) = Fits-layer P e.ikeylen e.lv (node.1 p e get) deep in
        (down p e c, classify_down p e c deep is, (get, same, deep, is))
    | inr flat ↦ elim (Bool-cases (is_valid e)) [
      | inr gone ↦ (absent, ground arith, only p e node.0 get same flat (rw gone))
      | inl here ↦ elim (Bool-cases (ksuf_equals n e k)) [
        | inl match ↦ (leaf p e, ground arith, (get, same, flat, here, match))
        | inr differ ↦ (absent, ground arith, only p e node.0 get same flat (rw (here, differ)))
      ]
    ]
  ]

  pub step-Explains : IsNode P n → Returns (step n k) (Explains n k)
  unfolding step
  step-Explains node = let (r, run, at) = lower_bound_binary-Locates n k in go r run at
    where
      go :
          (r : Option ℕ)
          → lower_bound_binary n k ≡ ok r
          → Locates n k r
          → Returns (step n k) (Explains n k)
      go none run at = (absent, rw run, λ p e get same. absurd (at node.0 p e get same))
      go (some p) run (e, get, same) =
          let (s, done, ex) = classify-Explains p e node get same in
          (s, rw (run, get, read_slot) done, ex)
