-- ===== src/Build/Short.antt =====
-- `buildStatic_quick` against `buildStatic`, for a dynamic tree of one layer of short keys.
use microbench.Common.{
  ℕ, zero, suc, ◌+◌, ◌<◌, ◌≤◌, ◌≡◌, ◌≢◌, ◌⊎◌, sym, inl, inr, List, [], ◌∷◌, length, leb, true,
  false, arith, refl,
}
use microbench.Common.Run.{Run, ok, fault, ◌>>=◌}
use microbench.Massnode.{Slot, keylenx_is_layer}
use microbench.Massnode.Chains.{All}
use microbench.Merge.Tries.{run_node, run_slots, run_lv}
use microbench.Trie.{Trie}
use microbench.Build.{Tree, read_layer, leafvalue_static, build_static, link}
use microbench.Build.Convert.{static_lv, static_slots, to_trie, all_nodes, tree_nodes}
use microbench.Build.Queue.{build-to_trie, tree_nodes-read}
use microbench.Build.Quick.{quick_nodes, written, written_nodes, build_static_quick}
use microbench.Build.Runs.{
  IsShort, short_slots, filled, at, quick_run, >>=-assoc, written-filled, written-short,
  quick_leaves-run, short_run, run_behind, short_layers,
}

-- Too few, as many, or more.
ℕ-order : (a b : ℕ) → (a < b) ⊎ ((a ≡ b) ⊎ ((r : ℕ) × (a ≡ b + suc r)))
ℕ-order zero zero = inr (inl refl)
ℕ-order zero (suc b) = inl (omega arith)
ℕ-order (suc a) zero = inr (inr (a, omega arith))
ℕ-order (suc a) (suc b) = elim (ℕ-order a b) [
  | inl less ↦ inl (omega (arith, less))
  | inr (inl same) ↦ inr (inl (omega (arith, same)))
  | inr (inr (r, more)) ↦ inr (inr (r, omega (arith, more)))
]

module _ {L M : Type 0} where
  static_slots-short :
      (convert : L → Run M) (es : List (Slot (List ℕ) L))
      → All IsShort es
      → static_slots leafvalue_static true (λ n. true) convert es ≡ ok (short_slots es)
  unfolding static_slots static_lv leafvalue_static
  static_slots-short convert [] h = refl
  static_slots-short convert (e ∷ es) ((len, bare, row, is, size), h) =
      let flat : keylenx_is_layer e.ikeylen ≡ false = ground (arith, len) in
      let long : leb 8 (length row) ≡ true = ground (arith, size) in
      rw (flat, is, long, static_slots-short convert es h, bare) refl

  -- The slots of a node of short keys have no layers to link.
  run_slots-short_slots :
      {N : Type 0} (run : L → Run M) (es : List (Slot (List ℕ) N))
      → All IsShort es
      → run_slots run (short_slots es) ≡ ok (short_slots es)
  unfolding run_slots run_lv
  run_slots-short_slots run [] h = refl
  run_slots-short_slots run (e ∷ es) ((len, bare, row, is, size), h) =
      rw (is, run_slots-short_slots run es h) refl

module _ (d fuel nkeys : ℕ) (t : Tree (List ℕ) (suc d))
    (es : List (Slot (List ℕ) (Tree (List ℕ) d))) (read : read_layer t ≡ ok es)
    (short : All IsShort es) where
  one_node : tree_nodes (List ℕ) (suc d) t ≡ 1
  unfolding all_nodes
  one_node =
      let nodes = tree_nodes-read d t es read in
      let flat = short_layers es short in rw flat at nodes

  -- The node when the loops are done, and what is read of it.
  quick_filled :
      (done : List (Slot (List ℕ) ℕ)) (r : ℕ)
      → quick_run es (at 1 [] nkeys) ≡ ok (at 1 done r)
      → build_static_quick nkeys (suc fuel) (suc d) t ≡ (
          written (filled done r) >>= λ slots.
          ok (record { has_ksuf = false; slots = slots } ∷ []) >>= λ made. link (suc d) made 0)
  unfolding build_static_quick quick_nodes written_nodes
  quick_filled done r run =
      rw (quick_leaves-run t es read, run)
        (sym (
          >>=-assoc (written (filled done r))
            (λ slots. ok (record { has_ksuf = false; slots = slots } ∷ []))
            (λ made. link (suc d) made 0)))

  quick-enough :
      length es ≡ nkeys
      → build_static_quick nkeys (suc fuel) (suc d) t
        ≡ ok (record { has_ksuf = false; slots = short_slots es })
  unfolding link run_node
  quick-enough is =
      rw
        (
          quick_filled (short_slots es) 0 (short_run 1 nkeys 0 [] es short (omega (arith, is))),
          written-filled (short_slots es),
          run_slots-short_slots (link d (record { has_ksuf = false; slots = short_slots es } ∷ []))
              es short,
        )
        refl

  quick-behind : nkeys < length es → build_static_quick nkeys (suc fuel) (suc d) t ≡ fault
  unfolding build_static_quick quick_nodes
  quick-behind over = rw (quick_leaves-run t es read, run_behind 1 nkeys [] es short over) refl

  quick-unset :
      (r : ℕ) → nkeys ≡ length es + suc r → build_static_quick nkeys (suc fuel) (suc d) t ≡ fault
  quick-unset r is =
      rw
        (
          quick_filled (short_slots es) (suc r) (short_run 1 nkeys (suc r) [] es short is),
          written-short (short_slots es) r,
        )
        refl

  -- Of a dynamic tree of one layer of short keys with rows of at least eight bytes,
  -- `buildStatic_quick` makes the node that `buildStatic` makes, without suffix arrays, if it is
  -- given the number of the keys. With a smaller number it writes behind its node, and with a
  -- larger one it reads slots that it has not set: both are a fault.
  pub quick-static :
      ((length es ≡ nkeys)
        × (out : Trie (List ℕ) (suc d)) × (build_static (suc fuel) (suc d) t ≡ ok out)
        × (build_static_quick nkeys (suc fuel) (suc d) t ≡ ok (record out { has_ksuf = false })))
      ⊎ ((length es ≢ nkeys) × (build_static_quick nkeys (suc fuel) (suc d) t ≡ fault))
  unfolding to_trie
  quick-static = elim (ℕ-order nkeys (length es)) [
    | inl over ↦ inr (omega (arith, over), quick-behind over)
    | inr (inl even) ↦
        let few : tree_nodes (List ℕ) (suc d) t ≤ suc fuel = omega (arith, one_node) in
        let bound : tree_nodes (List ℕ) (suc d) t < 4294967296 = omega (arith, one_node) in
        let out : Trie (List ℕ) (suc d) = record { has_ksuf = true; slots = short_slots es } in
        inl (
          sym even,
          out,
          build-to_trie leafvalue_static true (λ n. true) (suc fuel) (suc d) t out
              (rw (read, static_slots-short (to_trie leafvalue_static true (λ n. true) d) es short)
                refl)
              few bound,
          quick-enough (sym even),
        )
    | inr (inr (r, under)) ↦ inr (omega (arith, under), quick-unset r under)
  ]
