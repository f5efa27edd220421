-- ===== src/Massnode/Search.antt =====
-- The binary searches of hybrid_index/masstree_get.hh (`lower_bound_binary`,
-- `upper_bound_or_equal_binary`), over the sign that `key_compare` gives at a slot.
use microbench.Common.{
  ℕ, zero, suc, ◌+◌, ◌-◌, ◌/◌, ◌≤◌, ◌<◌, ◌≡◌, ◌≢◌, none, some, List, Ordering, ltb, if◌then◌else◌,
  length, get_elem?, get_elem?-some, arith, true, false, inl, inr, Ordering-cases, Bool-cases,
  ltb→lt, ◌∙◌,
}
use microbench.Common.Run.{Run, ok, fault, Returns}

-- The index of an equal slot, or the index at which the two bounds met.
pub data Probe : Type 0 where
  hit : ℕ → Probe
  miss : ℕ → Probe

module _ {ℓ} {A : Type ℓ} (cmp : A → Ordering) (slots : List A) where
  -- `while (l < r)`; `fault` is a read outside the arrays, or no fuel. A node is smaller than 2 ^ 32
  -- bytes and a slot takes 17, so that `l + r` does not overflow.
  unfoldable pub search : ℕ → ℕ → ℕ → Run Probe
  search zero l r = if ltb l r then fault else ok (miss r)
  search (suc fuel) l r = elim (ltb l r) [
    | false ↦ ok (miss r)
    | true ↦ elim (get_elem? slots ((l + r) / 2)) [
      | none ↦ fault
      | some e ↦ elim (cmp e) [
        | Ordering.lt ↦ search fuel l ((l + r) / 2)
        | Ordering.eq ↦ ok (hit ((l + r) / 2))
        | Ordering.gt ↦ search fuel ((l + r) / 2 + 1) r
      ]
    ]
  ]

  -- The signs along the slots: positive, then zero, then negative.
  abbrev pub IsMonotone : Type ℓ
  IsMonotone =
      (i j : ℕ) (a b : A)
      → i < j
      → get_elem? slots i ≡ some a
      → get_elem? slots j ≡ some b
      → (cmp b ≡ Ordering.gt → cmp a ≡ Ordering.gt) × (cmp a ≡ Ordering.lt → cmp b ≡ Ordering.lt)

  -- Positive below `l`, negative from `r` on.
  abbrev pub Bounds : ℕ → ℕ → Type ℓ
  Bounds l r =
      ((i : ℕ) (e : A) → get_elem? slots i ≡ some e → i < l → cmp e ≡ Ordering.gt)
      × ((i : ℕ) (e : A) → get_elem? slots i ≡ some e → r ≤ i → cmp e ≡ Ordering.lt)

  abbrev pub Explains : Probe → Type ℓ
  Explains (hit p) = (e : A) × (get_elem? slots p ≡ some e) × (cmp e ≡ Ordering.eq)
  Explains (miss p) = (p ≤ length slots) × (IsMonotone → Bounds p p)

  -- The halves of the range keep the bounds.
  lower_half :
      (l r m : ℕ) (e : A)
      → get_elem? slots m ≡ some e
      → cmp e ≡ Ordering.lt
      → (IsMonotone → Bounds l r)
      → IsMonotone
      → Bounds l m
  lower_half l r m e at neg old mono = (
    (old mono).0,
    λ i a get le. elim (Bool-cases (ltb m i)) [
      | inl lt ↦ (mono m i e a (ground arith) at get).1 neg
      | inr ge ↦ let same : m ≡ i = ground arith in ground (arith, rw same at at)
    ],
  )

  upper_half :
      (l r m : ℕ) (e : A)
      → get_elem? slots m ≡ some e
      → cmp e ≡ Ordering.gt
      → (IsMonotone → Bounds l r)
      → IsMonotone
      → Bounds (m + 1) r
  upper_half l r m e at pos old mono = (
    λ i a get lt. elim (Bool-cases (ltb i m)) [
      | inl less ↦ (mono i m a e (ground arith) get at).0 pos
      | inr ge ↦ let same : m ≡ i = ground arith in ground (arith, rw same at at)
    ],
    (old mono).1,
  )

  -- One round, by the sign at the middle slot.
  module _ (fuel l r : ℕ) (e : A) (more : ltb l r ≡ true)
      (get : get_elem? slots ((l + r) / 2) ≡ some e) where
    search_lt : cmp e ≡ Ordering.lt → search (suc fuel) l r ≡ search fuel l ((l + r) / 2)
    unfolding search
    search_lt sign = ground arith

    search_eq : cmp e ≡ Ordering.eq → search (suc fuel) l r ≡ ok (hit ((l + r) / 2))
    unfolding search
    search_eq sign = ground arith

    search_gt : cmp e ≡ Ordering.gt → search (suc fuel) l r ≡ search fuel ((l + r) / 2 + 1) r
    unfolding search
    search_gt sign = ground arith

  -- The loop ends by its test, reads inside the arrays, and its result is explained.
  pub search_returns :
      (fuel l r : ℕ)
      → l ≤ r
      → r ≤ length slots
      → r - l ≤ fuel
      → (IsMonotone → Bounds l r)
      → Returns (search fuel l r) Explains
  unfolding search
  search_returns zero l r a b c old =
      let same : l ≡ r = omega arith in (miss r, ground arith, (b, λ mono. rw same at (old mono)))
  search_returns (suc fuel) l r a b c old = elim (Bool-cases (ltb l r)) [
    | inr stop ↦
        let same : l ≡ r = ground arith in
        (miss r, ground arith, (b, λ mono. rw same at (old mono)))
    | inl more ↦
        let m = (l + r) / 2 in
        let lt : l < r = ltb→lt l r more in
        let (e, get) = get_elem?-some slots m (omega arith) in
        elim (Ordering-cases (cmp e)) [
          | inl neg ↦
              let (out, run, ex) =
                search_returns fuel l m (omega arith) (omega arith) (omega arith)
                  (lower_half l r m e get neg old) in
              (out, search_lt fuel l r e more get neg ∙ run, ex)
          | inr (inl zer) ↦ (hit m, search_eq fuel l r e more get zer, (e, get, zer))
          | inr (inr pos) ↦
              let (out, run, ex) =
                search_returns fuel (m + 1) r (omega arith) (omega arith) (omega arith)
                  (upper_half l r m e get pos old) in
              (out, search_gt fuel l r e more get pos ∙ run, ex)
        ]
  ]

  -- Where the two bounds have met no slot is equal.
  pub outside :
      (p : ℕ) → Bounds p p → (i : ℕ) (e : A) → get_elem? slots i ≡ some e → cmp e ≢ Ordering.eq
  outside p b i e get zer = elim (Bool-cases (ltb i p)) [
    | inl lt ↦ ground (arith, b.0 i e get (ground arith))
    | inr ge ↦ ground (arith, b.1 i e get (ground arith))
  ]
