-- ===== src/Index/Iterate/Walk.antt =====
-- Iterations over an index before its first merge: `get_next` comes to every entry.
use microbench.Common.{
  ℕ, zero, suc, ◌<◌, ◌≡◌, true, false, Option, none, some, List, [], ◌∷◌, ◌++◌, ◌==◌, length, take,
  map, arith, refl, ◌∙◌,
}
use mathlib.Core.List.{append_assoc}
use microbench.Common.Run.{Run, ok, ◌>>=◌}
use microbench.Index.Interface.{Value}
use microbench.Index.Iterate.{
  Iterator, lowest, dynamic_get_next, dynamic_get_first, static_get_first, get_first, get_next,
}
use microbench.Index.Scan.{Entry}
use microbench.Key.{Key}
use microbench.Massnode.Chains.{All}

abbrev pub HasBytes : Entry → Type 0
HasBytes e = 0 < length e.0

module _ {D : Type 0} (scan : D → Key → ℕ → List Entry) where
  -- The documented behaviour of `run_scan` on a table with these entries in order: from a key of the
  -- table it gives so many of the entries from it on, and "\0" is below every key.
  pub record Lists (table : D) (entries : List Entry) : Type 0 where
    pub scan-lowest : (n : ℕ) → scan table lowest n ≡ take n entries
    pub scan-key :
        (front : List Entry) (e : Entry) (rest : List Entry) (n : ℕ)
        → front ++ e ∷ rest ≡ entries
        → scan table e.0 n ≡ take n (e ∷ rest)
    pub have_bytes : All HasBytes entries

abbrev first_key : List Entry → Key
first_key [] = []
first_key (e ∷ rest) = e.0

abbrev pub values : List Entry → List Value
values entries = map (λ (e : Entry). e.1) entries

All-middle :
    {A : Type 0} (P : A → Type 0) (xs : List A) (y : A) (ys : List A) → All P (xs ++ y ∷ ys) → P y
All-middle P [] y ys h = h.0
All-middle P (x ∷ xs) y ys h = All-middle P xs y ys h.1

module _ {D : Type 0} {d : ℕ} (find : D → Key → Option Value)
    (scan : D → Key → ℕ → List Entry) where
  -- `while (get_next(value))`, for at most so many rounds: the values, and the index after it.
  abbrev pub collect : ℕ → Iterator D d → Run (List Value × Iterator D d)
  collect zero x = ok ([], x)
  collect (suc n) x = get_next find scan x >>= λ r. elim r.0 [
    | none ↦ ok ([], r.1)
    | some v ↦ collect n r.1 >>= λ q. ok (v ∷ q.0, q.1)
  ]

  module _ (x : Iterator D d) where
    next_dynamic :
        (e : Entry) (rest : List Entry)
        → scan x.table x.cur_key 2 ≡ take 2 (e ∷ rest)
        → 0 < length x.cur_key
        → x.static_cur_keylen ≡ 0
        → get_next find scan x ≡ ok (some e.1, record x { cur_key = first_key rest })
    unfolding get_next dynamic_get_next
    next_dynamic e [] at pos bare =
        let stands : (length x.cur_key == 0) ≡ false = ground arith in
        let alone : (x.static_cur_keylen == 0) ≡ true = ground arith in
        rw (stands, alone, dynamic_get_next, at) refl
    next_dynamic e (f ∷ more) at pos bare =
        let stands : (length x.cur_key == 0) ≡ false = ground arith in
        let alone : (x.static_cur_keylen == 0) ≡ true = ground arith in
        rw (stands, alone, dynamic_get_next, at) refl

    next_none : x.cur_key ≡ [] → x.static_cur_keylen ≡ 0 → get_next find scan x ≡ ok (none, x)
    unfolding get_next
    next_none gone bare =
        let ended : (length x.cur_key == 0) ≡ true = ground (arith, gone) in
        let alone : (x.static_cur_keylen == 0) ≡ true = ground arith in rw (ended, alone) refl

  -- From the key of an entry on, the rounds give its value and those of the entries behind it.
  collect-from :
      (x : Iterator D d) (entries front : List Entry) (e : Entry) (rest : List Entry)
      → Lists scan x.table entries
      → front ++ e ∷ rest ≡ entries
      → x.cur_key ≡ e.0
      → x.static_cur_keylen ≡ 0
      → collect (suc (suc (length rest))) x ≡ ok (values (e ∷ rest), record x { cur_key = [] })
  collect-from x entries front e [] table is at bare =
      let pos : 0 < length e.0 = All-middle HasBytes front e [] (rw is table.have_bytes) in
      let seen : scan x.table x.cur_key 2 ≡ take 2 (e ∷ []) =
        rw at (table.scan-key front e [] 2 is) in
      let one = next_dynamic x e [] seen (rw at pos) bare in
      let end = next_none (record x { cur_key = [] }) refl bare in rw (one, end) refl
  collect-from x entries front e (f ∷ rest) table is at bare =
      let pos : 0 < length e.0 = All-middle HasBytes front e (f ∷ rest) (rw is table.have_bytes) in
      let seen : scan x.table x.cur_key 2 ≡ take 2 (e ∷ f ∷ rest) =
        rw at (table.scan-key front e (f ∷ rest) 2 is) in
      let one = next_dynamic x e (f ∷ rest) seen (rw at pos) bare in
      let longer : (front ++ e ∷ []) ++ f ∷ rest ≡ entries =
        append_assoc front (e ∷ []) (f ∷ rest) ∙ is in
      let more =
        collect-from (record x { cur_key = f.0 }) entries (front ++ e ∷ []) f rest table longer refl
          bare in
      rw (one, more) refl

  -- In an index that was never merged and whose cursor of the static table is at no key, `get_first`
  -- finds the first entry of a dynamic table with entries, and `get_next` then gives the values of
  -- all entries in order, and no other, before it fails.
  pub get_first-collect :
      (x : Iterator D d) (e : Entry) (rest : List Entry)
      → Lists scan x.table (e ∷ rest)
      → 0 < x.ic
      → x.sic ≡ 0
      → x.static_cur_keylen ≡ 0
      → (y : Iterator D d) × (get_first find scan x ≡ ok (true, y))
        × (collect (suc (suc (length rest))) y ≡ ok (values (e ∷ rest), record x { cur_key = [] }))
  unfolding get_first dynamic_get_first static_get_first
  get_first-collect x e rest table some_keys unmerged bare =
      let filled : (x.ic == 0) ≡ false = ground arith in
      let empty : (x.sic == 0) ≡ true = ground arith in
      (
        record x { cur_key = e.0 },
        rw (filled, table.scan-lowest 1, empty) refl,
        collect-from (record x { cur_key = e.0 }) (e ∷ rest) [] e rest table refl refl bare,
      )
