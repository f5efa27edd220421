-- ===== src/Merge/Losses.antt =====
-- Where a merge loses an entry: suffixes that differ only behind a NUL.
use microbench.Common.{ℕ, ◌≡◌, List, [], ◌∷◌, ◌++◌, length, length-append, true, arith, refl}
use microbench.Common.Run.{ok}
use microbench.Massnode.{value}
use microbench.Merge.{strncmp_zero, meet, meet_values, ready_slot}

-- `strncmp` reads no further than a NUL.
strncmp_zero-nul : (s t u : List ℕ) → strncmp_zero (s ++ (0 ∷ t)) (s ++ (0 ∷ u)) ≡ true
unfolding strncmp_zero
strncmp_zero-nul [] t u = refl
strncmp_zero-nul (a ∷ s) t u = ground (arith, strncmp_zero-nul s t u)

module _ {V L : Type 0} where
  -- Of two entries whose suffixes have one length and are equal up to a NUL, only that of `m` comes
  -- into the new node, though the keys may differ behind the NUL.
  pub meet-nul :
      (i : ℕ) (v w : V) (s t u : List ℕ)
      → length t ≡ length u
      → meet {L = L}
          (record { ikeylen = 9; ikey = i; lv = value v; ksuf = s ++ (0 ∷ t) })
          (record { ikeylen = 9; ikey = i; lv = value w; ksuf = s ++ (0 ∷ u) })
        ≡ ok (ready_slot (record { ikeylen = 9; ikey = i; lv = value v; ksuf = s ++ (0 ∷ t) }))
  unfolding meet meet_values
  meet-nul i v w s t u len =
      let a = length-append s (0 ∷ t) in
      let b = length-append s (0 ∷ u) in ground (arith, strncmp_zero-nul s t u)
