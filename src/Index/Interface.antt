-- ===== src/Index/Interface.antt =====
-- The two tables of an index, as hybrid_index/mtIndexAPI.hh uses them: the dynamic Masstree table,
-- which is a library's, and the static trie behind its cursors.
use microbench.Common.{ℕ, ◌+◌, ◌≡◌, ◌≢◌, Option, none, some, Bool, true, false, List}
use microbench.Key.{Key}
use microbench.Key.Slice.{AreBytes}

abbrev pub Value : Type 0
Value = List ℕ

pub record Tables (D S : Type 0) : Type 0 where
  -- `initialize`.
  pub empty : D
  pub static_empty : S
  -- `find_unlocked`, and the answer of `find_insert`.
  pub find : D → Key → Option Value
  -- `find_insert`, a new row in `value()`, `finish`.
  pub put : D → Key → Value → D
  -- `run_remove`.
  pub remove : D → Key → Bool × D
  -- `run_buildStatic`, and `run_buildStatic_quick` with a number of entries.
  pub build : D → S
  pub build_quick : ℕ → D → S
  -- `find`, `remove`, and a new value in place, of the static cursors. The multivalue cursor has
  -- the values of a key side by side, the dynamicvalue cursor has them in a row.
  pub static_find : S → Key → Option Value
  pub static_remove : S → Key → Bool × S
  pub static_update : S → Key → Value → Bool × S
  -- `run_merge`: the static table with the entries of a built one.
  pub merge : S → S → S

abbrev pub orelse : Option Value → Option Value → Option Value
orelse (some v) o = some v
orelse none o = o

-- A finite map under `find` has `count` entries.
module _ {D S : Type 0} (T : Tables D S) where
  -- The documented behaviour of the dynamic table.
  pub record DynamicLaws : Type 0 where
    pub count : D → ℕ
    pub count-zero : (d : D) (k : Key) → count d ≡ 0 → T.find d k ≡ none
    pub count-empty : count T.empty ≡ 0
    pub count-put_new :
        (d : D) (k : Key) (v : Value) → T.find d k ≡ none → count (T.put d k v) ≡ count d + 1
    pub count-put_old :
        (d : D) (k : Key) (v w : Value) → T.find d k ≡ some w → count (T.put d k v) ≡ count d
    pub find-put : (d : D) (k : Key) (v : Value) → T.find (T.put d k v) k ≡ some v
    pub find-put_ne : (d : D) (j k : Key) (v : Value) → j ≢ k → T.find (T.put d k v) j ≡ T.find d j
    pub remove-none : (d : D) (k : Key) → T.find d k ≡ none → T.remove d k ≡ (false, d)
    pub remove-some :
        (d : D) (k : Key) (w : Value)
        → T.find d k ≡ some w
        → (d' : D) × (T.remove d k ≡ (true, d'))
          × (T.find d' k ≡ none)
          × (count d ≡ count d' + 1)
          × ((j : Key) → j ≢ k → T.find d' j ≡ T.find d j)

  -- What `remove` and the update of a value do in a static table that is well formed, under keys of
  -- bytes. Index/Tries shows it of the trie's own cursor.
  pub record StaticRemoves (Good : S → Type 0) : Type 0 where
    pub static_remove-none :
        (s : S) (k : Key)
        → Good s
        → AreBytes k
        → T.static_find s k ≡ none
        → T.static_remove s k ≡ (false, s)
    pub static_remove-some :
        (s : S) (k : Key) (w : Value)
        → Good s
        → AreBytes k
        → T.static_find s k ≡ some w
        → (s' : S) × (T.static_remove s k ≡ (true, s'))
          × Good s'
          × (T.static_find s' k ≡ none)
          × ((j : Key) → AreBytes j → j ≢ k → T.static_find s' j ≡ T.static_find s j)

  pub record StaticUpdates (Good : S → Type 0) : Type 0 where
    pub static_update-none :
        (s : S) (k : Key) (v : Value)
        → Good s
        → AreBytes k
        → T.static_find s k ≡ none
        → T.static_update s k v ≡ (false, s)
    pub static_update-some :
        (s : S) (k : Key) (v w : Value)
        → Good s
        → AreBytes k
        → T.static_find s k ≡ some w
        → (s' : S) × (T.static_update s k v ≡ (true, s'))
          × Good s'
          × (T.static_find s' k ≡ some v)
          × ((j : Key) → AreBytes j → j ≢ k → T.static_find s' j ≡ T.static_find s j)
