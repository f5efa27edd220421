-- ===== src/Cursor.antt =====
-- The scan cursor of the static trie, `stcursor_scan` of hybrid_index/masstree_tcursor.hh and
-- hybrid_index/masstree_get.hh. A pointer to a node is a trie with the bound on its layers, and a
-- pointer to a value or layer is what it points to, since no trie changes during a scan. The stacks
-- have their top first. A read of a pointer that was never set is a fault.
pub mod Bytes
pub mod After
pub mod Advance
pub mod Start
pub mod Ends
pub mod Next
pub mod Leftmost
mod Examples
use microbench.Common.{
  ltb, ℕ, zero, suc, ◌+◌, ◌/◌, ◌%◌, ◌^◌, max, Bool, true, false, Option, none, some, List, [], ◌∷◌,
  ◌++◌, if◌then◌else◌, get_elem?, drop, not, Ordering, compare, length,
}
use microbench.Common.Run.{Run, ok, fault, ◌>>=◌}
use microbench.Key.{Key, ikey_size, shift, suffix}
use microbench.Massnode.{
  LeafValue, value, layer, Slot, Massnode, keylenx_is_layer, is_valid, ksuf_of,
}
use microbench.Massnode.Order.{lower_bound_binary, upper_bound_or_equal_binary}
use microbench.Trie.{Trie, read_slot}

abbrev pub Node : Type 0 → Type 0
Node V = (d : ℕ) × Trie V d

pub record Cursor (V : Type 0) : Type 0 where
  pub ka : Key
  pub n : Option (Node V)
  pub kp : ℕ
  pub trace : List (Node V × ℕ)
  pub cur_prefix : List ℕ
  pub cur_suffix : List ℕ
  pub cur_lv : Option (LeafValue V (Node V))
  pub next_prefix : List ℕ
  pub next_suffix : List ℕ
  pub next_lv : Option (LeafValue V (Node V))
  pub is_exact : Bool

-- The bytes of a slice, the highest first.
unfoldable pub slice_bytes : ℕ → ℕ → List ℕ
slice_bytes zero i = []
slice_bytes (suc n) i = i / 256 ^ n ∷ slice_bytes n (i % 256 ^ n)

-- The slices of a stack, then the suffix.
unfoldable pub key_of : List ℕ → List ℕ → Key
key_of [] s = s
key_of (i ∷ prefix) s = key_of prefix (slice_bytes ikey_size i ++ s)

-- `pop_back`: of an empty vector it is undefined.
abbrev pub pop : List ℕ → Run (List ℕ)
pop [] = fault
pop (i ∷ l) = ok l

-- The first valid slot of a list that starts at position `p`.
unfoldable pub valid_from : {V L : Type 0} → ℕ → List (Slot V L) → Option (ℕ × Slot V L)
valid_from p [] = none
valid_from p (e ∷ slots) = if is_valid e then some (p, e) else valid_from (suc p) slots

-- `memcmp` of the key's suffix with that of the slot, over the length of the key's, is positive.
-- Behind the slot's suffix it reads bytes that are not of the slot.
unfoldable pub suffix_above : List ℕ → List ℕ → Run Bool
suffix_above [] t = ok false
suffix_above (a ∷ s) [] = fault
suffix_above (a ∷ s) (b ∷ t) = elim (compare a b) [
  | Ordering.lt ↦ ok false
  | Ordering.gt ↦ ok true
  | Ordering.eq ↦ suffix_above s t
]

-- The call for a cursor's key. Of a key of fewer than eight bytes the length of the suffix is
-- negative, and `memcmp` gets it as a `size_t`.
unfoldable pub key_above : Key → List ℕ → Run Bool
key_above ka t = if ltb (length ka) ikey_size then fault else suffix_above (suffix ka) t

module _ {V : Type 0} where
  abbrev pub pointer : (d : ℕ) → LeafValue V (Trie V d) → LeafValue V (Node V)
  pointer d (value v) = value v
  pointer d (layer c) = layer (d, c)

  unfoldable pub setup_cursor : Cursor V → Key → Cursor V
  setup_cursor c k = record c { ka = k; trace = []; cur_prefix = []; next_prefix = [] }

  unfoldable pub cur_key : Cursor V → Key
  cur_key c = key_of c.cur_prefix c.cur_suffix

  unfoldable pub next_key : Cursor V → Key
  next_key c = key_of c.next_prefix c.next_suffix

  unfoldable pub cur_value : Cursor V → Run V
  cur_value c = elim c.cur_lv [
    | none ↦ fault
    | some lv ↦ elim lv [ value v ↦ ok v | layer b ↦ fault ]
  ]

  -- The slot `e` becomes the current one, and the next one.
  abbrev pub at_cur : (d : ℕ) → Trie V (suc d) → Slot V (Trie V d) → Cursor V → Cursor V
  at_cur d t e c = record c {
    n = some (suc d, t);
    cur_prefix = e.ikey ∷ c.cur_prefix;
    cur_lv = some (pointer d e.lv);
  }

  abbrev pub at_next : (d : ℕ) → Trie V (suc d) → Slot V (Trie V d) → Cursor V → Cursor V
  at_next d t e c = record c {
    n = some (suc d, t);
    next_prefix = e.ikey ∷ c.next_prefix;
    next_lv = some (pointer d e.lv);
  }

  -- The end of a search at the slot `e` of `t`: into its layer, or its suffix.
  unfoldable pub take_cur :
      (d : ℕ)
      → Trie V (suc d)
      → (Trie V d → Cursor V → Run (Bool × Cursor V))
      → Slot V (Trie V d)
      → Cursor V
      → Run (Bool × Cursor V)
  take_cur d t down e c = elim (keylenx_is_layer e.ikeylen) [
    | true ↦ elim e.lv [ value v ↦ fault | layer b ↦ down b (at_cur d t e c) ]
    | false ↦ ok (true, record (at_cur d t e c) { cur_suffix = ksuf_of t e })
  ]

  unfoldable pub find_leftmost : (d : ℕ) → Trie V d → Cursor V → Run (Bool × Cursor V)
  find_leftmost zero t c = elim t [ ]
  find_leftmost (suc d) t c = read_slot t 0 >>= λ e. take_cur d t (find_leftmost d) e c

  unfoldable pub take_next :
      (d : ℕ)
      → Trie V (suc d)
      → (Trie V d → Cursor V → Run (Bool × Cursor V))
      → Slot V (Trie V d)
      → Cursor V
      → Run (Bool × Cursor V)
  take_next d t down e c = elim (keylenx_is_layer e.ikeylen) [
    | true ↦ elim e.lv [ value v ↦ fault | layer b ↦ down b (at_next d t e c) ]
    | false ↦ ok (true, record (at_next d t e c) { next_suffix = ksuf_of t e })
  ]

  unfoldable pub find_next_leftmost : (d : ℕ) → Trie V d → Cursor V → Run (Bool × Cursor V)
  find_next_leftmost zero t c = elim t [ ]
  find_next_leftmost (suc d) t c = read_slot t 0 >>= λ e. take_next d t (find_next_leftmost d) e c

  -- The loops that go back to a parent with a valid slot behind the one that was left.
  unfoldable pub next_item_from_next_node : List (Node V × ℕ) → Cursor V → Run (Bool × Cursor V)
  next_item_from_next_node [] c = ok (false, record c { trace = [] })
  next_item_from_next_node (((zero, t), p) ∷ rest) c = elim t [ ]
  next_item_from_next_node (((suc d, t), p) ∷ rest) c = pop c.cur_prefix >>= λ prefix.
      elim (valid_from (suc p) (drop (suc p) t.slots)) [
        | none ↦
            next_item_from_next_node rest (record c { n = some (suc d, t); cur_prefix = prefix })
        | some f ↦
            take_cur d t (find_leftmost d) f.1
              (record c { cur_prefix = prefix; trace = ((suc d, t), f.0) ∷ rest })
      ]

  unfoldable pub next_item_from_next_node_next :
      List (Node V × ℕ) → Cursor V → Run (Bool × Cursor V)
  next_item_from_next_node_next [] c = ok (false, record c { trace = [] })
  next_item_from_next_node_next (((zero, t), p) ∷ rest) c = elim t [ ]
  next_item_from_next_node_next (((suc d, t), p) ∷ rest) c = pop c.next_prefix >>= λ prefix.
      elim (valid_from (suc p) (drop (suc p) t.slots)) [
        | none ↦ next_item_from_next_node_next rest (record c {
          n = some (suc d, t);
          next_prefix = prefix;
          kp = max (suc p) (length t.slots);
        })
        | some f ↦
            take_next d t (find_next_leftmost d) f.1
              (record c { next_prefix = prefix; kp = f.0; trace = ((suc d, t), f.0) ∷ rest })
      ]

  -- `posTrace_[posTrace_.size() - 1]++`
  abbrev pub bump : List (Node V × ℕ) → Run (List (Node V × ℕ))
  bump [] = fault
  bump ((n, p) ∷ rest) = ok ((n, suc p) ∷ rest)

  -- Behind the slot `kp` of `t`. Into a layer the code goes by `next_lv_`.
  unfoldable pub next_item : (d : ℕ) → Trie V (suc d) → ℕ → Cursor V → Run (Bool × Cursor V)
  next_item d t kp c = elim (valid_from (suc kp) (drop (suc kp) t.slots)) [
    | none ↦ next_item_from_next_node c.trace c
    | some f ↦ pop c.cur_prefix >>= λ prefix. bump c.trace >>= λ trace.
        let moved : Cursor V = at_cur d t f.1 (record c { cur_prefix = prefix; trace = trace }) in
        if keylenx_is_layer f.1.ikeylen
        then elim c.next_lv [
          | none ↦ fault
          | some lv ↦ elim lv [ value v ↦ fault | layer b ↦ find_leftmost b.0 b.1 moved ]
        ]
        else ok (true, record moved { cur_suffix = ksuf_of t f.1 })
  ]

  -- On the member `kp_`; the overloads with an argument are these on a copy of it.
  unfoldable pub next_item_next : (d : ℕ) → Trie V (suc d) → Cursor V → Run (Bool × Cursor V)
  next_item_next d t c = pop c.next_prefix >>= λ prefix.
      elim (valid_from (suc c.kp) (drop (suc c.kp) t.slots)) [
        | none ↦
            next_item_from_next_node_next c.trace
              (record c { next_prefix = prefix; kp = max (suc c.kp) (length t.slots) })
        | some f ↦ bump c.trace >>= λ trace.
            take_next d t (find_next_leftmost d) f.1
              (record c { next_prefix = prefix; kp = f.0; trace = trace })
      ]

  abbrev pub resume : (d : ℕ) → Trie V d → Cursor V → Run (Bool × Cursor V)
  resume zero t c = elim t [ ]
  resume (suc d) t c = next_item_next d t c

  unfoldable pub find_next2 : Cursor V → Run (Bool × Cursor V)
  find_next2 c = elim c.n [ none ↦ fault | some m ↦ resume m.0 m.1 c ]

  abbrev pub at_both : (d : ℕ) → Trie V (suc d) → ℕ → Slot V (Trie V d) → Cursor V → Cursor V
  at_both d t p e c = record c {
    n = some (suc d, t);
    kp = p;
    trace = ((suc d, t), p) ∷ c.trace;
    cur_prefix = e.ikey ∷ c.cur_prefix;
    cur_lv = some (pointer d e.lv);
    next_prefix = e.ikey ∷ c.next_prefix;
  }

  -- At the slot of the key: into its layer, or on from it.
  unfoldable pub start_at :
      (d : ℕ)
      → Trie V (suc d)
      → (Trie V d → Cursor V → Run (Bool × Cursor V))
      → Cursor V
      → ℕ
      → Slot V (Trie V d)
      → Run (Bool × Cursor V)
  start_at d t down c p e = elim (keylenx_is_layer e.ikeylen) [
    | true ↦ elim e.lv [
      | value v ↦ fault
      | layer b ↦ down b (record (at_both d t p e c) { ka = shift c.ka })
    ]
    | false ↦
        if is_valid e
        then next_item_next d t (record (at_both d t p e c) { cur_suffix = ksuf_of t e })
        else ok (false, at_both d t p e c)
  ]

  -- The walk of `find_next1` from the root. That a failed one leaves `kp_` at -1 is left out: the
  -- index sets the cursor up again.
  unfoldable pub find_next1 : (d : ℕ) → Trie V d → Cursor V → Run (Bool × Cursor V)
  find_next1 zero t c = elim t [ ]
  find_next1 (suc d) t c = lower_bound_binary t c.ka >>= λ r. elim r [
    | none ↦ ok (false, record c { n = some (suc d, t) })
    | some p ↦ read_slot t p >>= start_at d t (find_next1 d) c p
  ]

  -- `find_next`, which leaves `kp_`.
  unfoldable pub find_next : (d : ℕ) → Trie V d → Cursor V → Run (Bool × Cursor V)
  find_next d t c = find_next1 d t c >>= λ r. ok (r.0, record r.1 { kp = c.kp })

  -- The walks of `find_upper_bound_or_equal` and `find_upper_bound`, and their ends at an equal slot.
  unfoldable pub walk :
      (at_equal : (d : ℕ)
        → Trie V (suc d)
        → ℕ
        → Slot V (Trie V d)
        → Cursor V
        → Run (Bool × Cursor V))
      → (d : ℕ) → Trie V d
      → Cursor V
      → Run (Bool × Cursor V)
  walk at_equal zero t c = elim t [ ]
  walk at_equal (suc d) t c = upper_bound_or_equal_binary t c.ka >>= λ r.
      let started : Cursor V = record c { n = some (suc d, t); is_exact = r.0 } in
      elim (valid_from r.1 (drop r.1 t.slots)) [
        | none ↦ next_item_from_next_node c.trace started
        | some f ↦
            let found : Cursor V = record (at_cur d t f.1 started) {
              trace = ((suc d, t), f.0) ∷ c.trace;
            } in
            elim (keylenx_is_layer f.1.ikeylen) [
              | true ↦ elim f.1.lv [
                | value v ↦ fault
                | layer b ↦
                    let below : Cursor V = record found { ka = shift c.ka } in
                    if r.0 then walk at_equal d b below else find_leftmost d b below
              ]
              | false ↦
                  if r.0
                  then at_equal d t f.0 f.1 found
                  else ok (true, record found { cur_suffix = ksuf_of t f.1 })
            ]
      ]

  unfoldable pub find_upper_bound_or_equal : (d : ℕ) → Trie V d → Cursor V → Run (Bool × Cursor V)
  find_upper_bound_or_equal d t c =
      walk
        (λ d t p e found. key_above found.ka (ksuf_of t e) >>= λ above.
          if above
          then next_item d t p found
          else ok (true, record found { cur_suffix = ksuf_of t e }))
        d t c

  unfoldable pub find_upper_bound : (d : ℕ) → Trie V d → Cursor V → Run (Bool × Cursor V)
  find_upper_bound d t c = walk (λ d t p e found. next_item d t p found) d t c
