-- ===== src/Index/Block/Search.antt =====
-- The search for a block in a row ends in bounds, at the first equal block.
use microbench.Common.{
  ℕ, zero, suc, ◌+◌, ◌*◌, ◌≤◌, ◌<◌, ◌≡◌, ◌⊎◌, inl, inr, some, ltb, ◌&&◌, length, get_elem?, arith,
  true, false, ◌==◌, Bool-cases, get_elem?-some, ◌∙◌, sym,
}
use microbench.Common.Run.{ok, Returns}
use microbench.Index.Block.{blocks, search_block, find_block}
use microbench.Index.Interface.{Value}
use native.Mathlib.Nat.{mul-le-mul_right, div-mul-le_self, suc-mul}

module _ (row value : Value) where
  -- The value stands in the row from its `i`-th multiple on.
  abbrev pub IsBlock : ℕ → Type 0
  IsBlock i = (j : ℕ) → j < length value → get_elem? row (i * length value + j) ≡ get_elem? value j

  abbrev pub IsFirst : ℕ → Type 0
  IsFirst i =
      ((i ≡ blocks row value) ⊎ ((i < blocks row value) × IsBlock i))
      × ((h : ℕ) → h < i → ¬ IsBlock h)

  -- Bytes of a block lie in the row.
  in_row : (i j : ℕ) → i < blocks row value → j < length value → i * length value + j < length row
  in_row i j less short =
      let a : suc i * length value ≤ blocks row value * length value =
        mul-le-mul_right (length value) less in
      let b : blocks row value * length value ≤ length row =
        div-mul-le_self (length row) (length value) in
      let c : suc i * length value ≡ i * length value + length value = suc-mul i (length value) in
      omega arith

  pub first-IsBlock :
      (i : ℕ) → IsFirst i → (i == blocks row value) ≡ false → (i < blocks row value) × IsBlock i
  first-IsBlock i (inl same, before) differ = absurd (ground (arith, same))
  first-IsBlock i (inr block, before) differ = block

  pub first-not_IsBlock :
      (i : ℕ)
      → IsFirst i
      → (i == blocks row value) ≡ true
      → (h : ℕ) → h < blocks row value
      → ¬ IsBlock h
  first-not_IsBlock i first same h less = first.1 h (ground (arith, same, less))

  -- The bytes of the block that have been compared.
  abbrev Same : ℕ → ℕ → Type 0
  Same i j = (h : ℕ) → h < j → get_elem? row (i * length value + h) ≡ get_elem? value h

  module _ (fuel i j : ℕ) where
    search_stop :
        (ltb i (blocks row value) && ltb j (length value)) ≡ false
        → search_block row value (suc fuel) i j ≡ ok i
    unfolding search_block
    search_stop stop = rw stop

    module _ (a b : ℕ) (more : (ltb i (blocks row value) && ltb j (length value)) ≡ true)
        (at : get_elem? row (i * length value + j) ≡ some a) (bt : get_elem? value j ≡ some b) where
      search_next :
          (a == b) ≡ true
          → search_block row value (suc fuel) i j ≡ search_block row value fuel i (j + 1)
      unfolding search_block
      search_next same = rw (more, at, bt, same)

      search_skip :
          (a == b) ≡ false
          → search_block row value (suc fuel) i j ≡ search_block row value fuel (i + 1) 0
      unfolding search_block
      search_skip differ = rw (more, at, bt, differ)

  -- Where the loop stops.
  stopped :
      (i j : ℕ)
      → i ≤ blocks row value
      → j ≤ length value
      → (ltb i (blocks row value) && ltb j (length value)) ≡ false
      → Same i j
      → (i ≡ blocks row value) ⊎ ((i < blocks row value) × IsBlock i)
  stopped i j a b stop same = elim (Bool-cases (ltb i (blocks row value))) [
    | inr out ↦ inl (ground arith)
    | inl less ↦
        let full : length value ≤ j = ground arith in
        inr (ground arith, λ h short. same h (omega arith))
  ]

  -- One more byte agrees.
  longer :
      (i j c : ℕ)
      → Same i j
      → get_elem? row (i * length value + j) ≡ some c
      → get_elem? value j ≡ some c
      → Same i (j + 1)
  longer i j c same at bt h less = elim (Bool-cases (ltb h j)) [
    | inl old ↦ same h (ground arith)
    | inr new ↦ let is : h ≡ j = ground arith in rw is (at ∙ sym bt)
  ]

  -- A block with a different byte is not equal.
  further :
      (i j x y : ℕ)
      → ((h : ℕ) → h < i → ¬ IsBlock h)
      → j < length value
      → get_elem? row (i * length value + j) ≡ some x
      → get_elem? value j ≡ some y
      → (x == y) ≡ false
      → (h : ℕ) → h < i + 1
      → ¬ IsBlock h
  further i j x y before short at bt ne h less block = elim (Bool-cases (ltb h i)) [
    | inl old ↦ before h (ground arith) block
    | inr new ↦
        let is : h ≡ i = ground arith in
        let here : get_elem? row (h * length value + j) ≡ some x = rw is at in
        let there : some x ≡ some y = sym here ∙ block j short ∙ bt in ground (arith, there)
  ]

  -- Fuel: the bytes from (i, j) to the end of the last block.
  search_block-IsFirst :
      (fuel i j : ℕ)
      → i ≤ blocks row value
      → j ≤ length value
      → blocks row value * length value ≤ fuel + (i * length value + j)
      → Same i j
      → ((h : ℕ) → h < i → ¬ IsBlock h)
      → Returns (search_block row value fuel i j) IsFirst
  unfolding search_block
  search_block-IsFirst zero i j a b c same before =
      elim (Bool-cases (ltb i (blocks row value) && ltb j (length value))) [
        | inr stop ↦ (i, rw stop, (stopped i j a b stop same, before))
        | inl more ↦
            let less : i < blocks row value = ground arith in
            let short : j < length value = ground arith in
            absurd (omega (arith, mul-le-mul_right (length value) less, suc-mul i (length value)))
      ]
  search_block-IsFirst (suc fuel) i j a b c same before =
      elim (Bool-cases (ltb i (blocks row value) && ltb j (length value))) [
        | inr stop ↦ (i, search_stop fuel i j stop, (stopped i j a b stop same, before))
        | inl more ↦
            let less : i < blocks row value = ground arith in
            let short : j < length value = ground arith in
            let (x, at) = get_elem?-some row (i * length value + j) (in_row i j less short) in
            let (y, bt) = get_elem?-some value j short in
            elim (Bool-cases (x == y)) [
              | inl eq ↦
                  let is : x ≡ y = ground arith in
                  let (out, run, first) =
                    search_block-IsFirst fuel i (j + 1) a (omega arith) (omega arith)
                      (longer i j y same (rw (← is) at) bt) before in
                  (out, search_next fuel i j x y more at bt eq ∙ run, first)
              | inr ne ↦
                  let (out, run, first) =
                    search_block-IsFirst fuel (i + 1) 0 (omega arith) (omega arith)
                      (omega (arith, suc-mul i (length value))) (λ h none_yet. absurd (omega arith))
                      (further i j x y before short at bt ne) in
                  (out, search_skip fuel i j x y more at bt ne ∙ run, first)
            ]
      ]

  -- For a value that is not empty the search ends without a read out of bounds. Its result is the
  -- number of blocks or the index of an equal block, and no block before it is equal.
  pub find_block-IsFirst : 0 < length value → Returns (find_block row value) IsFirst
  unfolding find_block
  find_block-IsFirst pos =
      let (out, run, first) =
        search_block-IsFirst (length row) 0 0 (omega arith) (omega arith)
          (omega (arith, div-mul-le_self (length row) (length value)))
          (λ h less. absurd (omega arith)) (λ h less. absurd (omega arith)) in
      (out, ground (arith, run), first)
