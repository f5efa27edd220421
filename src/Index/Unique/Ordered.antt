-- ===== src/Index/Unique/Ordered.antt =====
-- `get_ordered`: a lookup that leaves the scan at the key.
use microbench.Common.{◌≡◌, ◌⊎◌, inl, inr, refl, arith, some, none, Option, Option-cases, [], true}
use microbench.Key.{Key}
use microbench.Index.{Index, dynamic_get, static_get}
use microbench.Index.Interface.{Tables, Value}
use microbench.Index.Unique.{get, get_ordered, dynamic_get_ordered, static_get_ordered}

module _ {D S : Type 0} (T : Tables D S) where
  -- The cursor of the table whose lookup finds the key is at the key and the other at none; of two,
  -- that of the dynamic table.
  abbrev pub Positioned : Index D S → Key → Option Value × Index D S → Type 0
  Positioned x k (some v, y) =
      (get T x k ≡ some v)
      × (((dynamic_get T x k ≡ some v) × (y.cur_key ≡ k) × (y.static_cur_key ≡ []))
          ⊎ ((dynamic_get T x k ≡ none)
              × (static_get T x k ≡ some v)
              × (y.cur_key ≡ [])
              × (y.static_cur_key ≡ k)
              × (y.first_scan ≡ true)))
  Positioned x k (none, y) = (get T x k ≡ none) × (y.cur_key ≡ []) × (y.static_cur_key ≡ [])

  module _ (x : Index D S) (k : Key) where
    ordered_dynamic :
        (v : Value)
        → dynamic_get T x k ≡ some v
        → (get T x k ≡ some v)
          × (get_ordered T x k ≡ (some v, record x { cur_key = k; static_cur_key = [] }))
    unfolding get_ordered dynamic_get_ordered static_get_ordered dynamic_get get
    ordered_dynamic v is = (ground (arith, is), ground (arith, is))

    ordered_static :
        (w : Value)
        → dynamic_get T x k ≡ none
        → static_get T x k ≡ some w
        → (get T x k ≡ some w)
          × (get_ordered T x k
              ≡ (some w, record x { cur_key = []; static_cur_key = k; first_scan = true }))
    unfolding get_ordered dynamic_get_ordered static_get_ordered dynamic_get static_get get
    ordered_static w miss is = (ground (arith, miss, is), ground (arith, miss, is))

    ordered_none :
        dynamic_get T x k ≡ none
        → static_get T x k ≡ none
        → (get T x k ≡ none)
          × (get_ordered T x k ≡ (none, record x { cur_key = []; static_cur_key = [] }))
    unfolding get_ordered dynamic_get_ordered static_get_ordered dynamic_get static_get get
    ordered_none miss static_miss =
        (ground (arith, miss, static_miss), ground (arith, miss, static_miss))

    -- `get_ordered` gives what `get` gives. If it finds the key, the scan cursor of the table that
    -- has it is at the key and the other at none; otherwise both are at none.
    pub get_ordered-Positioned : Positioned x k (get_ordered T x k)
    get_ordered-Positioned = elim (Option-cases (dynamic_get T x k)) [
      | inr (v, is) ↦ let (same, run) = ordered_dynamic v is in rw run (same, inl (is, refl, refl))
      | inl miss ↦ elim (Option-cases (static_get T x k)) [
        | inr (w, is) ↦
            let (same, run) = ordered_static w miss is in
            rw run (same, inr (miss, is, refl, refl, refl))
        | inl static_miss ↦
            let (same, run) = ordered_none miss static_miss in rw run (same, refl, refl)
      ]
    ]
