-- ===== src/Merge/InPlace.antt =====
-- The arrays of `merge_nodes`: no slot is written over before it is read.
use mathlib.Core.List.{append_assoc, append-nil}
use microbench.Common.{
  ℕ, zero, suc, ◌+◌, ◌≤◌, ◌≡◌, Bool, true, none, some, List, [], ◌∷◌, ◌++◌, map, length,
  length-append, length-take, length-replicate, inl, inr, take, replicate, ltb, arith, refl, sym,
  ap, if◌then◌else◌, take-append,
}
use microbench.Common.Run.{Run, ok, fault, ◌>>=◌, Run-cases}
use microbench.Massnode.{Slot}
use microbench.Merge.{Pending, ready_slot, meet, merge_slots, push}
use microbench.Merge.Arrays.{Cell, choose, cells, read_cell, merge_rounds, merge_arrays}
use microbench.Merge.Arrays.Cells.{
  Stand, Stand-skip, Stand-write, Stand-stay, Stand-move, inside, outside, read-next,
}
use microbench.Merge.Arrays.Rounds.{
  Choice-cases, rounds-end, rounds-rest_m, rounds-rest_n, rounds-skip, rounds-take_m, rounds-take_n,
  rounds-take_both, slots-skip, slots-take_m, slots-take_n, slots-take_both, slots-rest_m,
}

module _ {V L : Type 0} where
  abbrev pub set_cells : List (Slot V (Pending V L)) → List (Cell V L)
  set_cells l = map (λ e. some e) l

  -- A slot that is put in front of what a run leaves.
  push-done :
      (run : Run (List (Slot V (Pending V L)))) (done : List (Cell V L)) (e : Slot V (Pending V L))
      → (run >>= push e >>= λ l. ok (done ++ set_cells l))
        ≡ (run >>= λ l. ok ((done ++ some e ∷ []) ++ set_cells l))
  push-done fault done e = refl
  push-done (ok l) done e = ap ok (sym (append_assoc done (some e ∷ []) (set_cells l)))

  -- The arrays of a run as far as they are set.
  abbrev final : ℕ × List (Cell V L) → Run (List (Cell V L))
  final r = ok (take r.0 r.1)

  -- The two loops after a slot is written.
  one_written :
      (run more : Run (ℕ × List (Cell V L))) (whole rest : Run (List (Slot V (Pending V L))))
      (done : List (Cell V L)) (e : Slot V (Pending V L))
      → run ≡ more
      → whole ≡ (rest >>= push e)
      → (more >>= final) ≡ (rest >>= λ l. ok ((done ++ some e ∷ []) ++ set_cells l))
      → (run >>= final) ≡ (whole >>= λ l. ok (done ++ set_cells l))
  one_written run more whole rest done e step slots ih = rw (step, slots, push-done rest done e) ih

  module _ (has_ksuf : Bool) where
    abbrev Comes :
        ℕ → List (Slot V L) → List (Slot V L) → List (Cell V L) → ℕ → ℕ → List (Cell V L) → Type 0
    Comes fuel ms ns done n_pos new_n_pos arrays =
        (merge_rounds (suc fuel) has_ksuf ms n_pos new_n_pos arrays >>= final)
        ≡ (merge_slots fuel has_ksuf ms ns >>= λ l. ok (done ++ set_cells l))

    rest_of_n-Comes :
        (fuel : ℕ) (ns : List (Slot V L)) (done gap : List (Cell V L)) (n_pos new_n_pos : ℕ)
        (arrays : List (Cell V L))
        → length ns ≤ fuel
        → Stand done gap ns n_pos new_n_pos arrays
        → Comes fuel [] ns done n_pos new_n_pos arrays
    unfolding merge_slots
    rest_of_n-Comes fuel [] done gap n_pos new_n_pos arrays enough stand =
        let (is, at, to) = stand in
        let step =
          rounds-end fuel has_ksuf n_pos new_n_pos arrays (outside done gap arrays n_pos is at) in
        rw (step, is, to, take-append done (gap ++ []), append-nil done) refl
    rest_of_n-Comes zero (n ∷ ns) done gap n_pos new_n_pos arrays enough stand =
        absurd (omega (arith, enough))
    rest_of_n-Comes (suc fuel) (n ∷ ns) done [] n_pos new_n_pos arrays enough stand =
        let (is, at, to) = stand in
        let has = inside done [] arrays n ns n_pos is at in
        let seen = read-next done [] arrays n ns n_pos is at in
        let (next, written, more) = Stand-stay done n ns n_pos new_n_pos arrays stand in
        let step =
          rounds-rest_n (suc fuel) has_ksuf n n [] n_pos new_n_pos arrays next has seen written in
        one_written _ _ _ (ok (map ready_slot ns)) done (ready_slot n) step refl (
          rest_of_n-Comes fuel ns (done ++ some (ready_slot n) ∷ []) [] (suc n_pos) (suc new_n_pos)
            next (omega arith) more)
    rest_of_n-Comes (suc fuel) (n ∷ ns) done (x ∷ gap) n_pos new_n_pos arrays enough stand =
        let (is, at, to) = stand in
        let has = inside done (x ∷ gap) arrays n ns n_pos is at in
        let seen = read-next done (x ∷ gap) arrays n ns n_pos is at in
        let (next, written, more) =
          Stand-move done gap n (ready_slot n) ns n_pos new_n_pos arrays x stand in
        let step =
          rounds-rest_n (suc fuel) has_ksuf n n [] n_pos new_n_pos arrays next has seen written in
        one_written _ _ _ (ok (map ready_slot ns)) done (ready_slot n) step refl (
          rest_of_n-Comes fuel ns (done ++ some (ready_slot n) ∷ [])
            (gap ++ some (ready_slot n) ∷ []) (suc n_pos) (suc new_n_pos) next (omega arith) more)

    rest_of_m-Comes :
        (fuel : ℕ) (ms : List (Slot V L)) (done gap : List (Cell V L)) (n_pos new_n_pos : ℕ)
        (arrays : List (Cell V L))
        → length ms ≤ fuel
        → length ms ≤ length gap
        → Stand done gap [] n_pos new_n_pos arrays
        → Comes fuel ms [] done n_pos new_n_pos arrays
    unfolding merge_slots
    rest_of_m-Comes fuel [] done gap n_pos new_n_pos arrays enough room stand =
        rest_of_n-Comes fuel [] done gap n_pos new_n_pos arrays (omega arith) stand
    rest_of_m-Comes zero (m ∷ ms) done gap n_pos new_n_pos arrays enough room stand =
        absurd (omega (arith, enough))
    rest_of_m-Comes (suc fuel) (m ∷ ms) done [] n_pos new_n_pos arrays enough room stand =
        absurd (omega (arith, room))
    rest_of_m-Comes (suc fuel) (m ∷ ms) done (x ∷ gap) n_pos new_n_pos arrays enough room stand =
        let (is, at, to) = stand in
        let (next, written, more) =
          Stand-write done gap x (ready_slot m) [] n_pos new_n_pos arrays stand in
        let step =
          rounds-rest_m (suc fuel) has_ksuf m m ms n_pos new_n_pos arrays next
            (outside done (x ∷ gap) arrays n_pos is at) written in
        let ih =
          rest_of_m-Comes fuel ms (done ++ some (ready_slot m) ∷ []) gap n_pos (suc new_n_pos) next
            (omega arith) (omega arith) more in
        one_written _ _ (ok (map ready_slot (m ∷ ms))) (merge_slots fuel has_ksuf ms []) done
          (ready_slot m) step (rw (slots-rest_m fuel has_ksuf ms) refl) ih

    -- The loops in place come to the slots of `merge_slots`.
    rounds-Comes :
        (fuel : ℕ) (ms ns : List (Slot V L)) (done gap : List (Cell V L)) (n_pos new_n_pos : ℕ)
        (arrays : List (Cell V L))
        → length ms + length ns ≤ fuel
        → length ms ≤ length gap
        → Stand done gap ns n_pos new_n_pos arrays
        → Comes fuel ms ns done n_pos new_n_pos arrays
    rounds-Comes fuel [] ns done gap n_pos new_n_pos arrays enough room stand =
        rest_of_n-Comes fuel ns done gap n_pos new_n_pos arrays (omega arith) stand
    rounds-Comes fuel (m ∷ ms) [] done gap n_pos new_n_pos arrays enough room stand =
        rest_of_m-Comes fuel (m ∷ ms) done gap n_pos new_n_pos arrays (omega arith) room stand
    rounds-Comes zero (m ∷ ms) (n ∷ ns) done gap n_pos new_n_pos arrays enough room stand =
        absurd (omega (arith, enough))
    rounds-Comes (suc fuel) (m ∷ ms) (n ∷ ns) done [] n_pos new_n_pos arrays enough room stand =
        absurd (omega (arith, room))
    rounds-Comes (suc fuel) (m ∷ ms) (n ∷ ns) done (x ∷ gap) n_pos new_n_pos arrays enough room
          stand =
        elim (Choice-cases (choose m n)) [
          | inl gone ↦
              let step =
                rounds-skip (suc fuel) has_ksuf m n ms n_pos new_n_pos arrays arrays has seen
                  gone in
              let slots = slots-skip fuel has_ksuf m n ms ns gone in
              rw (step, slots)
                (rounds-Comes fuel (m ∷ ms) ns done (x ∷ gap ++ some (ready_slot n) ∷ [])
                  (suc n_pos) new_n_pos arrays (omega arith) (omega (arith, longer))
                  (Stand-skip done (x ∷ gap) n ns n_pos new_n_pos arrays stand))
          | inr (inl less) ↦
              let (next, written, more) =
                Stand-write done gap x (ready_slot m) (n ∷ ns) n_pos new_n_pos arrays stand in
              let step =
                rounds-take_m (suc fuel) has_ksuf m n ms n_pos new_n_pos arrays next has seen less
                  written in
              one_written _ _ _ (merge_slots fuel has_ksuf ms (n ∷ ns)) done (ready_slot m) step
                (slots-take_m fuel has_ksuf m n ms ns less)
                (rounds-Comes fuel ms (n ∷ ns) (done ++ some (ready_slot m) ∷ []) gap n_pos
                  (suc new_n_pos) next (omega arith) (omega arith) more)
          | inr (inr (inl more_m)) ↦
              let (next, written, more) =
                Stand-move done gap n (ready_slot n) ns n_pos new_n_pos arrays x stand in
              let step =
                rounds-take_n (suc fuel) has_ksuf m n ms n_pos new_n_pos arrays next has seen more_m
                  written in
              one_written _ _ _ (merge_slots fuel has_ksuf (m ∷ ms) ns) done (ready_slot n) step
                (slots-take_n fuel has_ksuf m n ms ns more_m)
                (rounds-Comes fuel (m ∷ ms) ns (done ++ some (ready_slot n) ∷ [])
                  (gap ++ some (ready_slot n) ∷ []) (suc n_pos) (suc new_n_pos) next (omega arith)
                  (omega (arith, longer)) more)
          | inr (inr (inr same)) ↦
              let step =
                rounds-take_both (suc fuel) has_ksuf m n ms n_pos new_n_pos arrays arrays has seen
                  same in
              let slots = slots-take_both fuel has_ksuf m n ms ns same in
              elim (Run-cases (if has_ksuf then meet m n else fault)) [
                | inl met ↦ rw (step, slots, met) refl
                | inr (e, met) ↦
                    let (next, written, more) =
                      Stand-move done gap n e ns n_pos new_n_pos arrays x stand in
                    one_written _ _ _ (merge_slots fuel has_ksuf ms ns) done e
                      (rw (step, met, written) refl) (rw (slots, met) refl)
                      (rounds-Comes fuel ms ns (done ++ some e ∷ [])
                        (gap ++ some (ready_slot n) ∷ []) (suc n_pos) (suc new_n_pos) next
                        (omega arith) (omega (arith, longer)) more)
              ]
        ]
      where
        has : ltb n_pos (length arrays) ≡ true
        has = inside done (x ∷ gap) arrays n ns n_pos stand.0 stand.1

        seen : read_cell arrays n_pos ≡ ok n
        seen = read-next done (x ∷ gap) arrays n ns n_pos stand.0 stand.1

        longer : length (gap ++ some (ready_slot n) ∷ []) ≡ length gap + 1
        longer = length-append gap (some (ready_slot n) ∷ [])

  -- Where the new node is made in the place of `n`, no slot is written over before it is read: the
  -- arrays hold in the end what the loops make of two lists of slots, and a fault is one of both.
  pub merge_arrays-merge_slots :
      (has_ksuf : Bool) (ms ns : List (Slot V L))
      → merge_arrays has_ksuf ms ns
        ≡ (merge_slots (length ms + length ns) has_ksuf ms ns >>= λ l. ok (set_cells l))
  unfolding merge_arrays
  merge_arrays-merge_slots has_ksuf ms ns =
      let resized : List (Cell V L) = cells ns ++ replicate (length ms) none in
      let gap : length (take (length ms) resized) ≡ length ms = omega (
        arith,
        length-take (length ms) resized,
        length-append (cells ns) (replicate (length ms) none),
        length-replicate {A = Cell V L} (length ms) none,
      ) in
      rounds-Comes has_ksuf (length ms + length ns) ms ns [] (take (length ms) resized) (length ms)
        0 _ (omega arith) (omega (arith, gap)) (refl, omega (arith, gap), refl)
