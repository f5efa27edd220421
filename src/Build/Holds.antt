-- ===== src/Build/Holds.antt =====
-- What a dynamic tree holds, stated without the code that reads it, and when it is well formed.
use microbench.Common.{
  ℕ, zero, suc, ◌<◌, ◌≡◌, ◌⊎◌, ◌↔◌, ◌++◌, List, [], ◌∷◌, length, get_elem?, some, true, arith, refl,
  inl, inr, Option-cases, sym, ◌∙◌,
}
use mathlib.Core.Path.{subst}
use microbench.Common.Run.{Run, ok, ◌>>=◌, >>=-eq-ok, ok_inj}
use microbench.Key.{Key, ikey_size}
use microbench.Key.Compare.{rank}
use microbench.Massnode.{LeafValue, value, layer, Slot, keylenx_has_ksuf}
use microbench.Massnode.Chains.{All}
use microbench.Merge.Holds.{Any, AreRegular, IsRegular, IsRegularSlot, HoldsAny, HoldsSlot}
use microbench.Build.{Leaf, Tree, extract, read_slots, read_layer}

module _ {R : Type 0} where
  -- The leaf has a row for the key, at an index of its permutation.
  abbrev pub HoldsLeaf : {L : Type 0} → (L → Key → R → Type 0) → Leaf R L → Key → R → Type 0
  HoldsLeaf {L} H n k row =
      Any (λ kp. (e : Slot R L) × (get_elem? n.slots kp ≡ some e) × HoldsSlot H e k row)
        n.permutation

  abbrev pub HoldsTree : (d : ℕ) → Tree R d → Key → R → Type 0
  HoldsTree zero t k row = ⊥
  HoldsTree (suc d) t k row = Any (λ n. HoldsLeaf (HoldsTree d) n k row) t

  -- A row in a slot has a static value.
  abbrev pub HasValue : {V L : Type 0} → (R → Run V) → LeafValue R L → Type 0
  HasValue {V} static_value (value row) = (v : V) × (static_value row ≡ ok v)
  HasValue static_value (layer c) = Unit

  -- Every layer has an entry, its indices are in bounds, and in the order of its leaves and of their
  -- permutations it is in order. No entry has length zero: the tree does not have the empty key, whose
  -- entry `buildStatic` makes a deleted slot. No suffix has a NUL.
  abbrev pub IsTree : {V : Type 0} → (R → Run V) → (d : ℕ) → Tree R d → Type 0
  IsTree static_value zero t = ⊥
  IsTree static_value (suc d) t =
      (es : List (Slot R (Tree R d))) × (read_layer t ≡ ok es)
      × ((0 < length es) × All (λ e. 0 < e.ikeylen) es)
      × AreRegular (suc d) (IsTree static_value d) es
      × All (λ e. HasValue static_value e.lv) es

All-append {ℓ κ} :
    {A : Type ℓ} (P : A → Type κ) (xs ys : List A) → All P (xs ++ ys) → All P xs × All P ys
All-append P [] ys h = (tt, h)
All-append P (x ∷ xs) ys h = let (a, b) = All-append P xs ys h.1 in ((h.0, a), b)

sum_iff : {A B C D : Type 0} → A ↔ B → C ↔ D → (A ⊎ C) ↔ (B ⊎ D)
sum_iff {A} {B} {C} {D} f g = (there, back)
  where
    there : A ⊎ C → B ⊎ D
    there (inl a) = inl (f.0 a)
    there (inr c) = inr (g.0 c)

    back : B ⊎ D → A ⊎ C
    back (inl b) = inl (f.1 b)
    back (inr d) = inr (g.1 d)

sum_assoc : {A B C : Type 0} → (A ⊎ (B ⊎ C)) ↔ ((A ⊎ B) ⊎ C)
sum_assoc {A} {B} {C} = (there, back)
  where
    there : A ⊎ (B ⊎ C) → (A ⊎ B) ⊎ C
    there (inl a) = inl (inl a)
    there (inr (inl b)) = inl (inr b)
    there (inr (inr c)) = inr c

    back : (A ⊎ B) ⊎ C → A ⊎ (B ⊎ C)
    back (inl (inl a)) = inl a
    back (inl (inr b)) = inr (inl b)
    back (inr c) = inr (inr c)

iff_trans : {A B C : Type 0} → A ↔ B → B ↔ C → A ↔ C
iff_trans f g = (λ a. g.0 (f.0 a), λ c. f.1 (g.1 c))

-- A hit with a suffix is at a slot with a suffix, so dropping the suffix of the others loses nothing.
module _ {R L : Type 0} (d : ℕ) (G : L → Type 0) (H : L → Key → R → Type 0) (k : Key)
    (row : R) where
  suffix_kept :
      (e : Slot R L)
      → IsRegularSlot d G (extract e)
      → e.lv ≡ value row
      → rank e.ikeylen ≡ rank (length k)
      → ikey_size < length k
      → (extract e).ksuf ≡ e.ksuf
  suffix_kept e reg is len long =
      let short : IsRegular {V = R} d G e.ikeylen (extract e).ksuf (value row) =
        subst (IsRegular {V = R} d G e.ikeylen (extract e).ksuf) is reg in
      let nine : e.ikeylen ≡ 9 = omega (arith, len, long, short.0) in
      let has : keylenx_has_ksuf e.ikeylen ≡ true = rw nine refl in rw has refl

  HoldsSlot-extract :
      (e : Slot R L)
      → IsRegularSlot d G (extract e)
      → HoldsSlot H (extract e) k row ↔ HoldsSlot H e k row
  HoldsSlot-extract e reg = (there, back)
    where
      there : HoldsSlot H (extract e) k row → HoldsSlot H e k row
      there (at, inl (is, live, len, suf)) =
          (at, inl (is, live, len, λ long. sym (suffix_kept e reg is len long) ∙ suf long))
      there (at, inr deep) = (at, inr deep)

      back : HoldsSlot H e k row → HoldsSlot H (extract e) k row
      back (at, inl (is, live, len, suf)) =
          (at, inl (is, live, len, λ long. suffix_kept e reg is len long ∙ suf long))
      back (at, inr deep) = (at, inr deep)

  found_iff :
      (slots : List (Slot R L)) (kp : ℕ) (e : Slot R L)
      → get_elem? slots kp ≡ some e
      → HoldsSlot H e k row ↔ ((f : Slot R L) × (get_elem? slots kp ≡ some f) × HoldsSlot H f k row)
  found_iff slots kp e get = (
    λ h. (e, get, h),
    λ (f, at, h). let same : f ≡ e = cc in subst (λ g. HoldsSlot H g k row) same h,
  )

  -- The slots that are read hold what the leaf holds.
  read_slots-HoldsAny :
      (slots : List (Slot R L)) (perm : List ℕ) (es : List (Slot R L))
      → read_slots slots perm ≡ ok es
      → All (IsRegularSlot d G) es
      → HoldsAny H es k row
        ↔ Any (λ kp. (e : Slot R L) × (get_elem? slots kp ≡ some e) × HoldsSlot H e k row) perm
  unfolding read_slots
  read_slots-HoldsAny slots [] es run reg =
      let none_read : [] ≡ es = ok_inj run in
      (λ h. subst (λ l. HoldsAny H l k row) (sym none_read) h, λ h. elim h [ ])
  read_slots-HoldsAny slots (kp ∷ perm) es run reg = elim (Option-cases (get_elem? slots kp)) [
    | inl out ↦ cc (rw (out, read_slots) at run)
    | inr (e, get) ↦
        let (rest, runs, is) =
          >>=-eq-ok (read_slots slots perm) (λ rest. ok (extract e ∷ rest))
            (rw (get, read_slots) at run) in
        let read : es ≡ extract e ∷ rest = sym (ok_inj is) in
        let regs : All (IsRegularSlot d G) (extract e ∷ rest) = rw read at reg in
        let ih = read_slots-HoldsAny slots perm rest runs regs.1 in
        let one = HoldsSlot-extract e regs.0 in
        subst
          (λ l.
            HoldsAny H l k row
            ↔ Any (λ i. (f : Slot R L) × (get_elem? slots i ≡ some f) × HoldsSlot H f k row)
                (kp ∷ perm))
          (sym read) (sum_iff (iff_trans one (found_iff slots kp e get)) ih)
  ]

  HoldsAny-append :
      (xs ys : List (Slot R L))
      → HoldsAny H (xs ++ ys) k row ↔ (HoldsAny H xs k row ⊎ HoldsAny H ys k row)
  HoldsAny-append [] ys = (λ h. inr h, λ h. elim h [ inl a ↦ elim a [ ] | inr b ↦ b ])
  HoldsAny-append (x ∷ xs) ys =
      iff_trans (sum_iff (λ h. h, λ h. h) (HoldsAny-append xs ys)) sum_assoc

  -- So do those of a layer.
  pub read_layer-HoldsAny :
      (leaves : List (Leaf R L)) (es : List (Slot R L))
      → read_layer leaves ≡ ok es
      → All (IsRegularSlot d G) es
      → HoldsAny H es k row ↔ Any (λ n. HoldsLeaf H n k row) leaves
  unfolding read_layer
  read_layer-HoldsAny [] es run reg =
      let none_read : [] ≡ es = ok_inj run in
      (λ h. subst (λ l. HoldsAny H l k row) (sym none_read) h, λ h. elim h [ ])
  read_layer-HoldsAny (n ∷ leaves) es run reg =
      let (first, one, more) =
        >>=-eq-ok (read_slots n.slots n.permutation)
          (λ first. read_layer leaves >>= λ rest. ok (first ++ rest)) run in
      let (rest, runs, is) = >>=-eq-ok (read_layer leaves) (λ rest. ok (first ++ rest)) more in
      let read : es ≡ first ++ rest = sym (ok_inj is) in
      let regs = All-append (IsRegularSlot d G) first rest (rw read at reg) in
      subst (λ l. HoldsAny H l k row ↔ Any (λ n. HoldsLeaf H n k row) (n ∷ leaves)) (sym read)
        (iff_trans (HoldsAny-append first rest) (
          sum_iff (read_slots-HoldsAny n.slots n.permutation first one regs.0)
            (read_layer-HoldsAny leaves rest runs regs.1)))
