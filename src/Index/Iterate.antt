-- ===== src/Index/Iterate.antt =====
-- The iteration of hybrid_index/mtIndexAPI.hh over an index of unique keys: from the first key, or
-- from an upper bound of a key, `get_next` gives value after value of the two tables in order. The
-- static table is a trie with its scan cursor `lp_cmt_scan`, which keeps its place between calls; the
-- dynamic table is its `run_scan`.
pub mod Walk
pub mod Starts
mod Examples
use microbench.Common.{
  ℕ, zero, suc, Bool, true, false, Option, none, some, List, [], ◌∷◌, ◌++◌, ◌==◌, ◌&&◌, ◌||◌,
  if◌then◌else◌, length, take, drop, ltb, leb, min, Ordering,
}
use microbench.Common.Run.{Run, ok, fault, ◌>>=◌}
use microbench.Cursor.{
  Cursor, setup_cursor, cur_key, next_key, cur_value, find_next1, find_next2, find_upper_bound,
  find_upper_bound_or_equal,
}
use microbench.Index.Interface.{Value}
use microbench.Index.Scan.{Entry, compare_prefix}
use microbench.Key.{Key}
use microbench.Trie.{Trie}

-- An empty `cur_key` is a cursor of the dynamic table at no key. Of the static table's, the buffer and
-- the length of the key change apart from one another. The sizes of the buffers are left out.
pub record Iterator (D : Type 0) (d : ℕ) : Type 0 where
  pub table : D
  pub static_root : Trie Value d
  pub ic : ℕ
  pub sic : ℕ
  pub cur_key : Key
  pub static_cur_key : List ℕ
  pub static_cur_keylen : ℕ
  pub first_scan : Bool
  pub lp_cmt_scan : Cursor Value

-- `memcpy` to the beginning of a buffer.
abbrev pub overwrite : List ℕ → List ℕ → List ℕ
overwrite s buffer = s ++ drop (length s) buffer

-- The buffer as far as the loop compares it: behind what was written it is not set.
abbrev pub read_buffer : List ℕ → ℕ → Run (List ℕ)
read_buffer buffer n = if leb n (length buffer) then ok (take n buffer) else fault

-- `Str("\0", 1)`
abbrev pub lowest : Key
lowest = 0 ∷ []

module _ {D : Type 0} {d : ℕ} (find : D → Key → Option Value)
    (scan : D → Key → ℕ → List Entry) where
  unfoldable pub dynamic_get_upper_bound_or_equal : Iterator D d → Key → Bool × Iterator D d
  dynamic_get_upper_bound_or_equal x k = if x.ic == 0 then (false, x) else elim (scan x.table k 1) [
    | [] ↦ (false, record x { cur_key = [] })
    | e ∷ rest ↦ (true, record x { cur_key = e.0 })
  ]

  -- The end of the static searches: the key is copied to the buffer.
  abbrev pub static_found : Iterator D d → Bool × Cursor Value → Bool × Iterator D d
  static_found x (false, c) = (false, record x { lp_cmt_scan = c; static_cur_keylen = 0 })
  static_found x (true, c) = (
    true,
    record x {
      lp_cmt_scan = c;
      static_cur_key = overwrite (cur_key c) x.static_cur_key;
      static_cur_keylen = length (cur_key c);
    },
  )

  unfoldable pub static_get_upper_bound_or_equal : Iterator D d → Key → Run (Bool × Iterator D d)
  static_get_upper_bound_or_equal x k =
      if x.sic == 0
      then ok (false, x)
      else find_upper_bound_or_equal d x.static_root (setup_cursor x.lp_cmt_scan k) >>= λ r.
          ok (static_found x r)

  unfoldable pub get_upper_bound_or_equal : Iterator D d → Key → Run (Bool × Iterator D d)
  get_upper_bound_or_equal x k =
      let (first, y) = dynamic_get_upper_bound_or_equal x k in
      static_get_upper_bound_or_equal y k >>= λ r. ok (first || r.0, r.1)

  -- The value of the entry at the cursor, which goes on to the next entry of the dynamic table.
  unfoldable pub dynamic_get_next : Iterator D d → Option Value × Iterator D d
  dynamic_get_next x = elim (scan x.table x.cur_key 2) [
    | [] ↦ (none, x)
    | e ∷ rest ↦ elim rest [
      | [] ↦ (some e.1, record x { cur_key = [] })
      | f ∷ more ↦ (some e.1, record x { cur_key = f.0 })
    ]
  ]

  unfoldable pub dynamic_exist : Iterator D d → Key → Bool
  dynamic_exist x k =
      if x.ic == 0 then false else elim (find x.table k) [ none ↦ false | some v ↦ true ]

  -- Behind the key itself.
  abbrev pub moved_on : Option Value × Iterator D d → Bool × Iterator D d
  moved_on (none, y) = (false, record y { cur_key = [] })
  moved_on (some v, y) = (true, y)

  abbrev pub above_equal : Key → Bool × Iterator D d → Bool × Iterator D d
  above_equal k (false, y) = (false, y)
  above_equal k (true, y) = if dynamic_exist y k then moved_on (dynamic_get_next y) else (true, y)

  unfoldable pub dynamic_get_upper_bound : Iterator D d → Key → Bool × Iterator D d
  dynamic_get_upper_bound x k =
      if x.ic == 0 then (false, x) else above_equal k (dynamic_get_upper_bound_or_equal x k)

  unfoldable pub static_get_upper_bound : Iterator D d → Key → Run (Bool × Iterator D d)
  static_get_upper_bound x k =
      if x.sic == 0
      then ok (false, x)
      else find_upper_bound d x.static_root (setup_cursor x.lp_cmt_scan k) >>= λ r.
          ok (static_found x r)

  unfoldable pub get_upper_bound : Iterator D d → Key → Run (Bool × Iterator D d)
  get_upper_bound x k =
      let (first, y) = dynamic_get_upper_bound x k in
      static_get_upper_bound y k >>= λ r. ok (first || r.0, r.1)

  unfoldable pub dynamic_get_first : Iterator D d → Bool × Iterator D d
  unfolding dynamic_get_upper_bound_or_equal
  dynamic_get_first x = dynamic_get_upper_bound_or_equal x lowest

  unfoldable pub static_get_first : Iterator D d → Run (Bool × Iterator D d)
  unfolding static_get_upper_bound_or_equal
  static_get_first x = static_get_upper_bound_or_equal x lowest

  unfoldable pub get_first : Iterator D d → Run (Bool × Iterator D d)
  get_first x =
      let (first, y) = dynamic_get_first x in static_get_first y >>= λ r. ok (first || r.0, r.1)

  -- The first call goes by `find_next1`, those after it by `find_next2`.
  unfoldable pub static_get_next : Iterator D d → Run (Option Value × Iterator D d)
  static_get_next x =
      if x.sic == 0
      then ok (none, x)
      else (if x.first_scan
          then find_next1 d x.static_root x.lp_cmt_scan
          else find_next2 x.lp_cmt_scan)
        >>= λ r. cur_value r.1 >>= λ v. ok (
          some v,
          record x {
            first_scan = false;
            lp_cmt_scan = r.1;
            static_cur_keylen = if r.0 then length (next_key r.1) else 0;
          },
        )

  -- Both cursors are at a key: the smaller one goes first, and of two equal ones that of the dynamic
  -- table. The buffer gets the next key of the static cursor first.
  unfoldable pub get_next_of_both : Iterator D d → Run (Option Value × Iterator D d)
  get_next_of_both x =
      let y : Iterator D d = record x {
        static_cur_key = overwrite (next_key x.lp_cmt_scan) x.static_cur_key;
      } in
      read_buffer y.static_cur_key (min (length x.cur_key) x.static_cur_keylen) >>= λ s.
      elim (compare_prefix x.cur_key s) [
        | Ordering.lt ↦ ok (dynamic_get_next y)
        | Ordering.gt ↦ static_get_next y
        | Ordering.eq ↦
            if ltb x.static_cur_keylen (length x.cur_key)
            then static_get_next y
            else ok (dynamic_get_next y)
      ]

  unfoldable pub get_next : Iterator D d → Run (Option Value × Iterator D d)
  get_next x =
      if (length x.cur_key == 0) && (x.static_cur_keylen == 0)
      then ok (none, x)
      else if length x.cur_key == 0
      then static_get_next x
      else if x.static_cur_keylen == 0
      then ok (dynamic_get_next x)
      else get_next_of_both x
