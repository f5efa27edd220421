-- ===== src/Merge/Arrays/Rounds.antt =====
-- The rounds of `merge_nodes`, in its arrays and on lists of slots, by what they go on with.
use microbench.Common.{
  ℕ, suc, ◌≡◌, Bool, true, false, List, [], ◌∷◌, map, length, ◌⊎◌, inl, inr, ltb, arith, refl,
  if◌then◌else◌,
}
use microbench.Common.Run.{ok, fault, ◌>>=◌}
use microbench.Massnode.{Slot}
use microbench.Merge.{ready_slot, meet, merge_slots, push}
use microbench.Merge.Arrays.{
  Cell, Choice, skip, take_m, take_n, take_both, choose, read_cell, write_cell, merge_rounds,
}

pub Choice-cases : (c : Choice) → (c ≡ skip) ⊎ ((c ≡ take_m) ⊎ ((c ≡ take_n) ⊎ (c ≡ take_both)))
Choice-cases skip = inl refl
Choice-cases take_m = inr (inl refl)
Choice-cases take_n = inr (inr (inl refl))
Choice-cases take_both = inr (inr (inr refl))

module _ {V L : Type 0} where
  pub rounds-end :
      (fuel : ℕ) (has_ksuf : Bool) (n_pos new_n_pos : ℕ) (arrays : List (Cell V L))
      → ltb n_pos (length arrays) ≡ false
      → merge_rounds (suc fuel) has_ksuf [] n_pos new_n_pos arrays ≡ ok (new_n_pos, arrays)
  unfolding merge_rounds
  rounds-end fuel has_ksuf n_pos new_n_pos arrays out = rw (merge_rounds, out) refl

  module _ (fuel : ℕ) (has_ksuf : Bool) (m n : Slot V L) (ms : List (Slot V L))
      (n_pos new_n_pos : ℕ) (arrays next : List (Cell V L)) where
    pub rounds-rest_m :
        ltb n_pos (length arrays) ≡ false
        → write_cell arrays new_n_pos (ready_slot m) ≡ ok next
        → merge_rounds (suc fuel) has_ksuf (m ∷ ms) n_pos new_n_pos arrays
          ≡ merge_rounds fuel has_ksuf ms n_pos (suc new_n_pos) next
    unfolding merge_rounds
    rounds-rest_m out written = rw (merge_rounds, out, written) refl

    module _ (inside : ltb n_pos (length arrays) ≡ true)
        (seen : read_cell arrays n_pos ≡ ok n) where
      pub rounds-rest_n :
          write_cell arrays new_n_pos (ready_slot n) ≡ ok next
          → merge_rounds (suc fuel) has_ksuf [] n_pos new_n_pos arrays
            ≡ merge_rounds fuel has_ksuf [] (suc n_pos) (suc new_n_pos) next
      unfolding merge_rounds
      rounds-rest_n written = rw (merge_rounds, inside, seen, written) refl

      pub rounds-skip :
          choose m n ≡ skip
          → merge_rounds (suc fuel) has_ksuf (m ∷ ms) n_pos new_n_pos arrays
            ≡ merge_rounds fuel has_ksuf (m ∷ ms) (suc n_pos) new_n_pos arrays
      unfolding merge_rounds
      rounds-skip gone = cc

      pub rounds-take_m :
          choose m n ≡ take_m
          → write_cell arrays new_n_pos (ready_slot m) ≡ ok next
          → merge_rounds (suc fuel) has_ksuf (m ∷ ms) n_pos new_n_pos arrays
            ≡ merge_rounds fuel has_ksuf ms n_pos (suc new_n_pos) next
      unfolding merge_rounds
      rounds-take_m less written = cc

      pub rounds-take_n :
          choose m n ≡ take_n
          → write_cell arrays new_n_pos (ready_slot n) ≡ ok next
          → merge_rounds (suc fuel) has_ksuf (m ∷ ms) n_pos new_n_pos arrays
            ≡ merge_rounds fuel has_ksuf (m ∷ ms) (suc n_pos) (suc new_n_pos) next
      unfolding merge_rounds
      rounds-take_n more written = cc

      pub rounds-take_both :
          choose m n ≡ take_both
          → merge_rounds (suc fuel) has_ksuf (m ∷ ms) n_pos new_n_pos arrays ≡ (
              (if has_ksuf then meet m n else fault) >>= λ e.
              write_cell arrays new_n_pos e >>= λ next.
              merge_rounds fuel has_ksuf ms (suc n_pos) (suc new_n_pos) next)
      unfolding merge_rounds
      rounds-take_both same = cc

  module _ (fuel : ℕ) (has_ksuf : Bool) (m n : Slot V L) (ms ns : List (Slot V L)) where
    pub slots-skip :
        choose m n ≡ skip
        → merge_slots (suc fuel) has_ksuf (m ∷ ms) (n ∷ ns) ≡ merge_slots fuel has_ksuf (m ∷ ms) ns
    unfolding merge_slots choose
    slots-skip gone = ground arith

    pub slots-take_m :
        choose m n ≡ take_m
        → merge_slots (suc fuel) has_ksuf (m ∷ ms) (n ∷ ns)
          ≡ (merge_slots fuel has_ksuf ms (n ∷ ns) >>= push (ready_slot m))
    unfolding merge_slots choose
    slots-take_m less = ground arith

    pub slots-take_n :
        choose m n ≡ take_n
        → merge_slots (suc fuel) has_ksuf (m ∷ ms) (n ∷ ns)
          ≡ (merge_slots fuel has_ksuf (m ∷ ms) ns >>= push (ready_slot n))
    unfolding merge_slots choose
    slots-take_n more = ground arith

    pub slots-take_both :
        choose m n ≡ take_both
        → merge_slots (suc fuel) has_ksuf (m ∷ ms) (n ∷ ns) ≡ (
            (if has_ksuf then meet m n else fault) >>= λ e.
            merge_slots fuel has_ksuf ms ns >>= push e)
    unfolding merge_slots choose
    slots-take_both same = ground arith

  pub slots-rest_m :
      (fuel : ℕ) (has_ksuf : Bool) (ms : List (Slot V L))
      → merge_slots fuel has_ksuf ms [] ≡ ok (map ready_slot ms)
  unfolding merge_slots
  slots-rest_m fuel has_ksuf [] = refl
  slots-rest_m fuel has_ksuf (m ∷ ms) = refl
