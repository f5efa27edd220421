-- ===== src/Index/Iterate/Starts.antt =====
-- Two faults of iterations: the static table's scan cannot go on from an upper bound, and there is none
-- above the last key of the dynamic table.
use microbench.Common.{
  ℕ, ◌<◌, ◌≡◌, Bool, true, false, Option, none, some, List, [], ◌∷◌, ◌++◌, ◌==◌, ◌||◌, length, take,
  arith, refl, ap, ◌∙◌, Bool-cases, inl, inr,
}
use microbench.Common.Run.{Run, ok, fault, ◌>>=◌, >>=-eq-ok, ok_inj}
use microbench.Cursor.{Cursor, setup_cursor, find_upper_bound, find_upper_bound_or_equal}
use microbench.Cursor.After.{After}
use microbench.Cursor.Start.{
  HasNoNext, find_upper_bound-HasNoNext, find_upper_bound_or_equal-HasNoNext, find_next2-fault,
}
use microbench.Index.Interface.{Value}
use microbench.Index.Iterate.{
  Iterator, lowest, static_found, dynamic_get_upper_bound_or_equal, static_get_upper_bound_or_equal,
  get_upper_bound_or_equal, dynamic_get_upper_bound, static_get_upper_bound, get_upper_bound,
  dynamic_get_first, static_get_first, get_first, dynamic_get_next, dynamic_exist, static_get_next,
  moved_on, above_equal, get_next,
}
use microbench.Index.Iterate.Walk.{Lists}
use microbench.Index.Scan.{Entry}
use microbench.Key.{Key}

-- A call that starts an iteration.
pub data Start : Type 0 where
  first : Start
  upper_bound_or_equal : Key → Start
  upper_bound : Key → Start

module _ {D : Type 0} {d : ℕ} (find : D → Key → Option Value)
    (scan : D → Key → ℕ → List Entry) where
  -- The cursor of the static table stands where `find_next2` cannot go on.
  abbrev Stuck : Iterator D d → Type 0
  Stuck y = (y.first_scan ≡ false) × (0 < y.sic) × HasNoNext y.lp_cmt_scan

  static_get_next-fault : (y : Iterator D d) → Stuck y → static_get_next find scan y ≡ fault
  unfolding static_get_next
  static_get_next-fault y (later, some_keys, bare) =
      let filled : (y.sic == 0) ≡ false = ground arith in
      rw (filled, later, find_next2-fault y.lp_cmt_scan bare) refl

  get_next-fault :
      (y : Iterator D d)
      → Stuck y
      → y.cur_key ≡ []
      → 0 < y.static_cur_keylen
      → get_next find scan y ≡ fault
  unfolding get_next
  get_next-fault y stuck gone pos =
      let ended : (length y.cur_key == 0) ≡ true = ground (arith, gone) in
      let stands : (y.static_cur_keylen == 0) ≡ false = ground arith in
      rw (ended, stands) (static_get_next-fault y stuck)

  found-Stuck :
      (x : Iterator D d) (r : Bool × Cursor Value)
      → x.first_scan ≡ false
      → 0 < x.sic
      → HasNoNext r.1
      → Stuck (static_found find scan x r).1
  found-Stuck x (false, c) later some_keys bare = (later, some_keys, bare)
  found-Stuck x (true, c) later some_keys bare = (later, some_keys, bare)

  -- A static search from a cursor that is set up anew.
  search-Stuck :
      (x : Iterator D d) (run : Run (Bool × Cursor Value)) (out : Bool × Iterator D d)
      → x.first_scan ≡ false
      → 0 < x.sic
      → After HasNoNext run
      → (run >>= λ r. ok (static_found find scan x r)) ≡ ok out
      → Stuck out.1
  search-Stuck x fault out later some_keys bare h = absurd (cc)
  search-Stuck x (ok r) out later some_keys bare h =
      rw (← (ok_inj h)) (found-Stuck x r later some_keys bare)

  module _ (x : Iterator D d) (k : Key) (out : Bool × Iterator D d) (later : x.first_scan ≡ false)
      (some_keys : 0 < x.sic) where
    static_upper_bound_or_equal-Stuck :
        static_get_upper_bound_or_equal find scan x k ≡ ok out → Stuck out.1
    unfolding static_get_upper_bound_or_equal setup_cursor
    static_upper_bound_or_equal-Stuck h =
        let filled : (x.sic == 0) ≡ false = ground arith in
        let start = setup_cursor x.lp_cmt_scan k in
        search-Stuck x (find_upper_bound_or_equal d x.static_root start) out later some_keys
          (find_upper_bound_or_equal-HasNoNext d x.static_root start refl) (rw filled at h)

    static_upper_bound-Stuck : static_get_upper_bound find scan x k ≡ ok out → Stuck out.1
    unfolding static_get_upper_bound setup_cursor
    static_upper_bound-Stuck h =
        let filled : (x.sic == 0) ≡ false = ground arith in
        let start = setup_cursor x.lp_cmt_scan k in
        search-Stuck x (find_upper_bound d x.static_root start) out later some_keys
          (find_upper_bound-HasNoNext d x.static_root start refl) (rw filled at h)

  -- The searches of the dynamic table leave the static one alone.
  abbrev Kept : Iterator D d → Iterator D d → Type 0
  Kept x y = (y.first_scan ≡ x.first_scan) × (y.sic ≡ x.sic)

  upper_bound_or_equal-Kept :
      (x : Iterator D d) (k : Key) → Kept x (dynamic_get_upper_bound_or_equal find scan x k).1
  unfolding dynamic_get_upper_bound_or_equal
  upper_bound_or_equal-Kept x k = (ground arith, ground arith)

  dynamic_get_next-Kept : (x : Iterator D d) → Kept x (dynamic_get_next find scan x).1
  unfolding dynamic_get_next
  dynamic_get_next-Kept x = (ground arith, ground arith)

  moved_on-Kept :
      (x : Iterator D d) (r : Option Value × Iterator D d)
      → Kept x r.1
      → Kept x (moved_on find scan r).1
  moved_on-Kept x (none, y) kept = kept
  moved_on-Kept x (some v, y) kept = kept

  above_equal-Kept :
      (x : Iterator D d) (k : Key) (r : Bool × Iterator D d)
      → Kept x r.1
      → Kept x (above_equal find scan k r).1
  above_equal-Kept x k (false, y) kept = kept
  above_equal-Kept x k (true, y) kept =
      let next = dynamic_get_next-Kept y in
      let further =
        moved_on-Kept x (dynamic_get_next find scan y) (next.0 ∙ kept.0, next.1 ∙ kept.1) in
      elim (Bool-cases (dynamic_exist find scan y k)) [
        | inl is ↦ rw is further
        | inr is ↦ rw is kept
      ]

  upper_bound-Kept : (x : Iterator D d) (k : Key) → Kept x (dynamic_get_upper_bound find scan x k).1
  unfolding dynamic_get_upper_bound
  upper_bound-Kept x k =
      let found =
        above_equal-Kept x k (dynamic_get_upper_bound_or_equal find scan x k)
          (upper_bound_or_equal-Kept x k) in
      elim (Bool-cases (x.ic == 0)) [ inl is ↦ rw is (refl, refl) | inr is ↦ rw is found ]

  abbrev pub run_start : Start → Iterator D d → Run (Bool × Iterator D d)
  run_start first x = get_first find scan x
  run_start (upper_bound_or_equal k) x = get_upper_bound_or_equal find scan x k
  run_start (upper_bound k) x = get_upper_bound find scan x k

  -- The static search that follows one of the dynamic table.
  second-Stuck :
      (x y : Iterator D d) (b : Bool) (run : Run (Bool × Iterator D d)) (out : Bool × Iterator D d)
      → x.first_scan ≡ false
      → 0 < x.sic
      → Kept x y
      → ((r : Bool × Iterator D d) → y.first_scan ≡ false → 0 < y.sic → run ≡ ok r → Stuck r.1)
      → (run >>= λ r. ok (b || r.0, r.1)) ≡ ok out
      → Stuck out.1
  second-Stuck x y b run out later some_keys kept stuck h =
      let (r, runs, is) = >>=-eq-ok run (λ r. ok (b || r.0, r.1)) h in
      let end : r.1 ≡ out.1 = ap (λ (q : Bool × Iterator D d). q.1) (ok_inj is) in
      rw (← end) (stuck r (rw (kept.0) later) (omega (arith, kept.1, some_keys)) runs)

  run_start-Stuck :
      (s : Start) (x : Iterator D d) (out : Bool × Iterator D d)
      → x.first_scan ≡ false
      → 0 < x.sic
      → run_start s x ≡ ok out
      → Stuck out.1
  unfolding get_first get_upper_bound get_upper_bound_or_equal dynamic_get_first static_get_first
  run_start-Stuck first x out later some_keys h =
      second-Stuck x (dynamic_get_upper_bound_or_equal find scan x lowest).1
        (dynamic_get_upper_bound_or_equal find scan x lowest).0 _ out later some_keys
        (upper_bound_or_equal-Kept x lowest)
        (static_upper_bound_or_equal-Stuck (dynamic_get_upper_bound_or_equal find scan x lowest).1
          lowest)
        h
  run_start-Stuck (upper_bound_or_equal k) x out later some_keys h =
      second-Stuck x (dynamic_get_upper_bound_or_equal find scan x k).1
        (dynamic_get_upper_bound_or_equal find scan x k).0 _ out later some_keys
        (upper_bound_or_equal-Kept x k)
        (static_upper_bound_or_equal-Stuck (dynamic_get_upper_bound_or_equal find scan x k).1 k) h
  run_start-Stuck (upper_bound k) x out later some_keys h =
      second-Stuck x (dynamic_get_upper_bound find scan x k).1
        (dynamic_get_upper_bound find scan x k).0 _ out later some_keys (upper_bound-Kept x k)
        (static_upper_bound-Stuck (dynamic_get_upper_bound find scan x k).1 k) h

  -- Where `first_scan` is not set and the static table has keys, a start that finds a key in the
  -- static table only is followed by a fault: `get_next` pops an empty vector.
  pub run_start-get_next :
      (s : Start) (x : Iterator D d) (b : Bool) (y : Iterator D d)
      → x.first_scan ≡ false
      → 0 < x.sic
      → run_start s x ≡ ok (b, y)
      → y.cur_key ≡ []
      → 0 < y.static_cur_keylen
      → get_next find scan y ≡ fault
  run_start-get_next s x b y later some_keys h gone stands =
      get_next-fault y (run_start-Stuck s x (b, y) later some_keys h) gone stands

  at_key :
      (x : Iterator D d) (e : Entry) (rest : List Entry)
      → scan x.table e.0 1 ≡ take 1 (e ∷ rest)
      → 0 < x.ic
      → dynamic_get_upper_bound_or_equal find scan x e.0 ≡ (true, record x { cur_key = e.0 })
  unfolding dynamic_get_upper_bound_or_equal
  at_key x e rest seen some_keys =
      let filled : (x.ic == 0) ≡ false = ground arith in rw (filled, seen) refl

  after_last :
      (x : Iterator D d) (e : Entry)
      → scan x.table x.cur_key 2 ≡ e ∷ []
      → dynamic_get_next find scan x ≡ (some e.1, record x { cur_key = [] })
  unfolding dynamic_get_next
  after_last x e seen = rw (seen, dynamic_get_next) refl

  -- From the last key of the dynamic table, `dynamic_get_upper_bound` answers true, with its cursor
  -- at no key.
  dynamic_get_upper_bound_last :
      (x : Iterator D d) (front : List Entry) (e : Entry)
      → Lists scan x.table (front ++ e ∷ [])
      → 0 < x.ic
      → find x.table e.0 ≡ some e.1
      → dynamic_get_upper_bound find scan x e.0 ≡ (true, record x { cur_key = [] })
  unfolding dynamic_get_upper_bound dynamic_exist
  dynamic_get_upper_bound_last x front e table some_keys has =
      let filled : (x.ic == 0) ≡ false = ground arith in
      let one = at_key x e [] (table.scan-key front e [] 1 refl) some_keys in
      let two = after_last (record x { cur_key = e.0 }) e (table.scan-key front e [] 2 refl) in
      rw (one, filled, has, two) refl
