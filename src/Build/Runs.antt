-- ===== src/Build/Runs.antt =====
-- The loops of `buildStatic_quick` on the slots of a layer, and on those of short keys.
use microbench.Common.{
  ℕ, zero, suc, ◌+◌, ◌<◌, ◌≤◌, ◌≡◌, ◌∙◌, ap, inl, inr, List, [], ◌∷◌, ◌++◌, length, take, none,
  some, get_elem?, set, replicate, ltb, leb, true, false, arith, refl, length-append,
  length-replicate, Option-cases,
}
use mathlib.Core.List.{append_assoc, append-nil}
use microbench.Common.Run.{Run, ok, fault, ◌>>=◌, >>=-eq-ok}
use microbench.Massnode.{LeafValue, value, layer, Slot, keylenx_is_layer}
use microbench.Massnode.Chains.{All}
use microbench.Build.{Leaf, read_slots, read_layer, layers_of, leafvalue_static, extract}
use microbench.Build.Quick.{NewNode, Progress, quick_slot, quick_slots, quick_leaves, written}

>>=-ext :
    {A B : Type 0} (run : Run A) {f g : A → Run B}
    → ((a : A) → f a ≡ g a)
    → (run >>= f) ≡ (run >>= g)
>>=-ext fault h = refl
>>=-ext (ok a) h = h a

pub >>=-assoc :
    {A B C : Type 0} (run : Run A) (f : A → Run B) (g : B → Run C)
    → (run >>= λ a. f a >>= g) ≡ ((run >>= f) >>= g)
>>=-assoc fault f g = refl
>>=-assoc (ok a) f g = refl

-- A slot of a key of at most eight bytes, as it is read, with a row of at least eight.
abbrev pub IsShort : {L : Type 0} → Slot (List ℕ) L → Type 0
IsShort e = (e.ikeylen ≤ 8) × (e.ksuf ≡ []) × (row : List ℕ) × (e.lv ≡ value row) × (8 ≤ length row)

abbrev pub short_lv : {L M : Type 0} → LeafValue (List ℕ) L → LeafValue (List ℕ) M
short_lv (value row) = value (take 8 row)
short_lv (layer c) = value []

-- The static slots of short ones.
abbrev pub short_slots : {L M : Type 0} → List (Slot (List ℕ) L) → List (Slot (List ℕ) M)
short_slots [] = []
short_slots (e ∷ es) =
    record { ikeylen = e.ikeylen; ikey = e.ikey; lv = short_lv e.lv; ksuf = [] } ∷ short_slots es

-- A node whose first slots are set.
abbrev pub filled : List (Slot (List ℕ) ℕ) → ℕ → NewNode
filled [] r = replicate r none
filled (e ∷ es) r = some e ∷ filled es r

set-filled :
    (done : List (Slot (List ℕ) ℕ)) (r : ℕ) (e : Slot (List ℕ) ℕ)
    → set (filled done (suc r)) (length done) (some e) ≡ filled (done ++ e ∷ []) r
set-filled [] r e = refl
set-filled (x ∷ done) r e = ap (λ l. some x ∷ l) (set-filled done r e)

length-filled : (done : List (Slot (List ℕ) ℕ)) (r : ℕ) → length (filled done r) ≡ length done + r
length-filled [] r = length-replicate r none ∙ omega arith
length-filled (x ∷ done) r = omega (arith, length-filled done r)

pub written-filled : (done : List (Slot (List ℕ) ℕ)) → written (filled done 0) ≡ ok done
unfolding written
written-filled [] = refl
written-filled (x ∷ done) = rw (written-filled done) refl

pub written-short : (done : List (Slot (List ℕ) ℕ)) (r : ℕ) → written (filled done (suc r)) ≡ fault
unfolding written
written-short [] r = refl
written-short (x ∷ done) r = rw (written-short done r) refl

module _ {L : Type 0} where
  -- The loops with `done` written, in a node with room for `r` more.
  abbrev pub at : ℕ → List (Slot (List ℕ) ℕ) → ℕ → Progress L
  at mass done r = record {
    mass_id = mass;
    cur_pos = length done;
    new_node = filled done r;
    pushed = [];
  }

  unfoldable pub quick_run : List (Slot (List ℕ) L) → Progress L → Run (Progress L)
  quick_run [] s = ok s
  quick_run (e ∷ es) s = quick_slot e s >>= quick_run es

  quick_run-append :
      (es fs : List (Slot (List ℕ) L)) (s : Progress L)
      → quick_run (es ++ fs) s ≡ (quick_run es s >>= quick_run fs)
  unfolding quick_run
  quick_run-append [] fs s = refl
  quick_run-append (e ∷ es) fs s =
      >>=-ext (quick_slot e s) (λ u. quick_run-append es fs u)
      ∙ >>=-assoc (quick_slot e s) (quick_run es) (quick_run fs)

  quick_slot-extract :
      (e : Slot (List ℕ) L) (s : Progress L) → quick_slot (extract e) s ≡ quick_slot e s
  unfolding quick_slot
  quick_slot-extract e s = refl

  quick_slots-run :
      (slots : List (Slot (List ℕ) L)) (perm : List ℕ) (es : List (Slot (List ℕ) L))
      → read_slots slots perm ≡ ok es
      → (s : Progress L) → quick_slots slots perm s ≡ quick_run es s
  unfolding read_slots quick_slots quick_run
  quick_slots-run slots [] es h s = let e : [] ≡ es = cc in rw (← e) refl
  quick_slots-run slots (kp ∷ perm) es h s = elim (Option-cases (get_elem? slots kp)) [
    | inl out ↦ absurd (cc (rw (out, read_slots) at h))
    | inr (e, is) ↦
        let g = rw (is, read_slots) at h in
        let (rest, run, same) =
          >>=-eq-ok (read_slots slots perm) (λ rest. ok (extract e ∷ rest)) g in
        let split : extract e ∷ rest ≡ es = cc same in
        rw (is, quick_slots, ← split, quick_slot-extract e s)
          (>>=-ext (quick_slot e s) (λ u. quick_slots-run slots perm rest run u))
  ]

  pub quick_leaves-run :
      (leaves : List (Leaf (List ℕ) L)) (es : List (Slot (List ℕ) L))
      → read_layer leaves ≡ ok es
      → (s : Progress L) → quick_leaves leaves s ≡ quick_run es s
  unfolding read_layer quick_leaves quick_run
  quick_leaves-run [] es h s = let e : [] ≡ es = cc in rw (← e) refl
  quick_leaves-run (n ∷ leaves) es h s =
      let (first, run, g) =
        >>=-eq-ok (read_slots n.slots n.permutation)
          (λ es. read_layer leaves >>= λ rest. ok (es ++ rest)) h in
      let (rest, more, same) = >>=-eq-ok (read_layer leaves) (λ rest. ok (first ++ rest)) g in
      let split : first ++ rest ≡ es = cc same in
      rw (← split, quick_run-append first rest s, quick_slots-run n.slots n.permutation first run s)
        (>>=-ext (quick_run first s) (λ u. quick_leaves-run leaves rest more u))

  -- A short slot is written if there is room, and behind the node otherwise.
  short_slot :
      (mass r : ℕ) (done : List (Slot (List ℕ) ℕ)) (e : Slot (List ℕ) L)
      → IsShort e
      → quick_slot e (at mass done (suc r)) ≡ ok (at mass (done ++ short_slots (e ∷ [])) r)
  unfolding quick_slot leafvalue_static
  short_slot mass r done e (len, bare, row, is, size) =
      let flat : keylenx_is_layer e.ikeylen ≡ false = ground (arith, len) in
      let long : leb 8 (length row) ≡ true = ground (arith, size) in
      let room : ltb (length done) (length (filled done (suc r))) ≡ true =
        ground (arith, length-filled done (suc r)) in
      rw (length-append done (short_slots (e ∷ [])), flat, is, long, room, set-filled done r) refl

  slot_behind :
      (mass : ℕ) (done : List (Slot (List ℕ) ℕ)) (e : Slot (List ℕ) L)
      → IsShort e
      → quick_slot e (at mass done 0) ≡ fault
  unfolding quick_slot leafvalue_static
  slot_behind mass done e (len, bare, row, is, size) =
      let flat : keylenx_is_layer e.ikeylen ≡ false = ground (arith, len) in
      let long : leb 8 (length row) ≡ true = ground (arith, size) in
      let full : ltb (length done) (length (filled done 0)) ≡ false =
        ground (arith, length-filled done 0) in
      rw (flat, is, long, full) refl

  pub short_run :
      (mass n r : ℕ) (done : List (Slot (List ℕ) ℕ)) (es : List (Slot (List ℕ) L))
      → All IsShort es
      → n ≡ length es + r
      → quick_run es (at mass done n) ≡ ok (at mass (done ++ short_slots es) r)
  unfolding quick_run
  short_run mass n r done [] h is =
      let same : n ≡ r = omega (arith, is) in rw (same, append-nil done) refl
  short_run mass zero r done (e ∷ es) h is = absurd (omega (arith, is))
  short_run mass (suc n) r done (e ∷ es) (short, h) is =
      rw
        (
          short_slot mass n done e short,
          short_run mass n r (done ++ short_slots (e ∷ [])) es h (omega (arith, is)),
          append_assoc done (short_slots (e ∷ [])) (short_slots es),
        )
        refl

  pub run_behind :
      (mass r : ℕ) (done : List (Slot (List ℕ) ℕ)) (es : List (Slot (List ℕ) L))
      → All IsShort es
      → r < length es
      → quick_run es (at mass done r) ≡ fault
  unfolding quick_run
  run_behind mass r done [] h over = absurd (omega (arith, over))
  run_behind mass zero done (e ∷ es) (short, h) over = rw (slot_behind mass done e short) refl
  run_behind mass (suc r) done (e ∷ es) (short, h) over =
      rw (short_slot mass r done e short)
        (run_behind mass r (done ++ short_slots (e ∷ [])) es h (omega (arith, over)))

  pub short_layers : (es : List (Slot (List ℕ) L)) → All IsShort es → layers_of es ≡ []
  unfolding layers_of
  short_layers [] h = refl
  short_layers (e ∷ es) h =
      let flat : keylenx_is_layer e.ikeylen ≡ false = ground (arith, h.0.0) in
      rw flat (short_layers es h.1)
