-- ===== src/Merge/Holds.antt =====
-- What slots, entries and tasks hold, and when they are well formed: of a layer it is given what it
-- holds (`H`) and that it is well formed (`G`).
use microbench.Common.{
  ℕ, zero, suc, ◌+◌, ◌*◌, ◌<◌, ◌≤◌, ◌≡◌, ◌≢◌, ◌⊎◌, List, [], ◌∷◌, length, true, false, arith, refl,
  ltb→lt,
}
use microbench.Key.{Key, ikey, ikey_size, suffix, shift}
use microbench.Key.Compare.{rank}
use microbench.Key.Slice.{AreBytes}
use microbench.Massnode.{LeafValue, value, layer, Slot, keylenx_is_layer}
use microbench.Massnode.Chains.{All, Ascending}
use microbench.Merge.{Item, Pending, ready, merge_task, add_task, create_task}
use microbench.Trie.{Trie}
use microbench.Trie.Holds.{InLayer}

abbrev pub Any : {A : Type 0} → (A → Type 0) → List A → Type 0
Any P [] = ⊥
Any P (x ∷ xs) = P x ⊎ Any P xs

-- Bytes other than NUL.
abbrev pub AreText : List ℕ → Type 0
AreText [] = Unit
AreText (b ∷ s) = (0 < b) × (b < 256) × AreText s

pub AreText-AreBytes : (s : List ℕ) → AreText s → AreBytes s
AreText-AreBytes [] h = h
AreText-AreBytes (b ∷ s) h = (h.1, AreText-AreBytes s h.2)

-- A length and a suffix that go together, in a trie of at most `d` layers.
abbrev pub IsEntry : ℕ → ℕ → List ℕ → Type 0
IsEntry d len s =
    (len ≤ 9)
    × (0 < len → len < 9 → s ≡ [])
    × (len ≡ 9 → 0 < length s)
    × AreText s
    × (length s + 8 ≤ 8 * d)

module _ {V : Type 0} where
  abbrev pub IsItem : ℕ → Item V → Type 0
  IsItem d i = (0 < i.ikeylen) × IsEntry d i.ikeylen i.ksuf

  abbrev pub Differ : Item V → Item V → Type 0
  Differ i j = i.ikey ≡ j.ikey → i.ikeylen ≡ j.ikeylen → i.ksuf ≢ j.ksuf

  abbrev pub HoldsItem : Item V → Key → V → Type 0
  HoldsItem i k v =
      (i.content ≡ v)
      × (i.ikey ≡ ikey k)
      × (0 < i.ikeylen)
      × (rank i.ikeylen ≡ rank (length k))
      × (ikey_size < length k → i.ksuf ≡ suffix k)

module _ {V L : Type 0} where
  abbrev pub HoldsValue : Slot V L → Key → V → Type 0
  HoldsValue e k v =
      (e.lv ≡ value v)
      × (0 < e.ikeylen)
      × (rank e.ikeylen ≡ rank (length k))
      × (ikey_size < length k → e.ksuf ≡ suffix k)

  abbrev pub HoldsSlot : (L → Key → V → Type 0) → Slot V L → Key → V → Type 0
  HoldsSlot H e k v = (e.ikey ≡ ikey k) × (HoldsValue e k v ⊎ InLayer (λ c. H c (shift k) v) e.lv k)

  abbrev pub IsRegular : ℕ → (L → Type 0) → ℕ → List ℕ → LeafValue V L → Type 0
  IsRegular d G len s (value v) = IsEntry d len s
  IsRegular d G len s (layer c) = ((len ≡ 73) ⊎ (len ≡ 137)) × (s ≡ []) × G c

  abbrev pub IsRegularSlot : ℕ → (L → Type 0) → Slot V L → Type 0
  IsRegularSlot d G e = IsRegular d G e.ikeylen e.ksuf e.lv

  abbrev pub HoldsAny : (L → Key → V → Type 0) → List (Slot V L) → Key → V → Type 0
  HoldsAny H slots k v = Any (λ e. HoldsSlot H e k v) slots

  abbrev pub AreRegular : ℕ → (L → Type 0) → List (Slot V L) → Type 0
  AreRegular d G slots = All (IsRegularSlot d G) slots × Ascending slots

  pub IsRegular-layer :
      (d : ℕ) (G : L → Type 0) (len : ℕ) (s : List ℕ) (lv : LeafValue V L)
      → IsRegular d G len s lv
      → keylenx_is_layer len ≡ true
      → (c : L) × (lv ≡ layer c) × (rank len ≡ 9) × ((len ≡ 73) ⊎ (len ≡ 137)) × G c
  IsRegular-layer d G len s (value v) h deep = absurd (omega (arith, ltb→lt 63 len deep))
  IsRegular-layer d G len s (layer c) h deep = (c, refl, omega (arith, h.0), h.0, h.2)

  pub IsRegular-value :
      (d : ℕ) (G : L → Type 0) (len : ℕ) (s : List ℕ) (lv : LeafValue V L)
      → IsRegular d G len s lv
      → keylenx_is_layer len ≡ false
      → (v : V) × (lv ≡ value v) × IsEntry d len s
  IsRegular-value d G len s (value v) h flat = (v, refl, h)
  IsRegular-value d G len s (layer c) h flat = absurd (ground arith)

  -- What a layer in the making is to hold, and from what.
  abbrev pub HoldsTask : (L → Key → V → Type 0) → Pending V L → Key → V → Type 0
  HoldsTask H (ready c) k v = H c k v
  HoldsTask H (merge_task a b) k v = H a k v ⊎ H b k v
  HoldsTask H (add_task i c) k v = HoldsItem i k v ⊎ H c k v
  HoldsTask H (create_task i j) k v = HoldsItem i k v ⊎ HoldsItem j k v

  abbrev pub IsTask : ℕ → (L → Type 0) → Pending V L → Type 0
  IsTask d G (ready c) = G c
  IsTask d G (merge_task a b) = G a × G b
  IsTask d G (add_task i c) = IsItem d i × G c
  IsTask d G (create_task i j) = IsItem d i × IsItem d j × Differ i j

-- `C` holds the keys of `A`, with values of theirs.
abbrev pub Passes : {V : Type 0} → (Key → V → Type 0) → (Key → V → Type 0) → Type 0
Passes {V} A C =
    ((k : Key) (v : V) → AreBytes k → C k v → A k v)
    × ((k : Key) (v : V) → AreBytes k → A k v → (w : V) × C k w)

-- `C` holds the keys of `A` and `B`, with values of theirs.
abbrev pub Unites :
    {V : Type 0} → (Key → V → Type 0) → (Key → V → Type 0) → (Key → V → Type 0) → Type 0
Unites A B C = Passes (λ k v. A k v ⊎ B k v) C

pub Passes-trans : {V : Type 0} (A B C : Key → V → Type 0) → Passes A B → Passes B C → Passes A C
Passes-trans A B C f g = (
  λ k v bytes h. f.0 k v bytes (g.0 k v bytes h),
  λ k v bytes h. let (w, b) = f.1 k v bytes h in g.1 k w bytes b,
)

module _ (V : Type 0) where
  -- Every node has suffix arrays and at least one slot, and is in order. Lengths and suffixes go
  -- together, and no suffix has a NUL, at which the merge's `strncmp` stops.
  abbrev pub IsTrie : (d : ℕ) → Trie V d → Type 0
  IsTrie zero t = ⊥
  IsTrie (suc d) t =
      (t.has_ksuf ≡ true) × (0 < length t.slots) × AreRegular (suc d) (IsTrie d) t.slots

  abbrev pub HoldsKey : (d : ℕ) → Trie V d → Key → V → Type 0
  HoldsKey zero t k v = ⊥
  HoldsKey (suc d) t k v = HoldsAny (HoldsKey d) t.slots k v
