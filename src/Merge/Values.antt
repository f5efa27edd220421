-- ===== src/Merge/Values.antt =====
-- Two entries of one slice and length in a merge, neither of them a layer.
use microbench.Common.{
  ℕ, suc, ◌+◌, ◌%◌, ◌<◌, ◌≡◌, ◌≢◌, ◌⊎◌, length, true, false, ◌&&◌, ◌==◌, arith, refl, sym, ◌∙◌, inl,
  inr, Bool-cases, ltb, ltb→lt, ap,
}
use mathlib.Core.Path.{subst}
use microbench.Common.Run.{Returns}
use microbench.Key.{Key}
use microbench.Key.Compare.{rank}
use microbench.Massnode.{value, Slot, keylenx_is_layer}
use microbench.Merge.{
  Pending, create_task, meet, meet_values, next_item, strncmp_zero, ready_slot, ready_lv, task_slot,
}
use microbench.Merge.Holds.{
  IsEntry, HoldsItem, HoldsSlot, HoldsTask, IsTask, IsRegularSlot, IsRegular-value, Unites,
}
use microbench.Merge.Below.{Below-value, task_slot-Unites, HoldsSlot-ready, ready-HoldsSlot}
use microbench.Merge.Keys.{
  strncmp_zero-eq, strncmp_zero_same, length-zero, next_item-IsItem, next_item-Differ,
}

module _ {V L : Type 0} (H : L → Key → V → Type 0) (G : L → Type 0) (d : ℕ) where
  -- What becomes of two entries of one slice and length.
  abbrev pub Meets : Slot V L → Slot V L → Slot V (Pending V L) → Type 0
  Meets m n e =
      IsRegularSlot (suc d) (IsTask d G) e
      × (e.ikey ≡ n.ikey)
      × (rank e.ikeylen ≡ rank n.ikeylen)
      × Unites (HoldsSlot H m) (HoldsSlot H n) (HoldsSlot (HoldsTask H) e)

  module _ (m n : Slot V L) (at : m.ikey ≡ n.ikey) (len : rank m.ikeylen ≡ rank n.ikeylen) where
    ready_regular :
        (v : V)
        → m.lv ≡ value v
        → IsEntry (suc d) m.ikeylen m.ksuf
        → IsRegularSlot (suc d) (IsTask d G) (ready_slot m)
    unfolding ready_lv
    ready_regular v is entry = rw is entry

    -- Two entries of different keys, both with suffixes.
    apart :
        (v w : V)
        → m.lv ≡ value v
        → n.lv ≡ value w
        → IsEntry (suc d) m.ikeylen m.ksuf
        → IsEntry (suc d) n.ikeylen n.ksuf
        → 0 < n.ikeylen
        → (length m.ksuf == 0) && (length n.ksuf == 0) ≡ false
        → m.ksuf ≢ n.ksuf
        → Meets m n (
            task_slot
              ((n.ikeylen + 64) % 256)
              n.ikey
              (create_task (next_item v m.ksuf) (next_item w n.ksuf)))
    apart v w is_v is_w entry_m entry_n live some other =
        let nine : n.ikeylen ≡ 9 = elim (Bool-cases (ltb n.ikeylen 9)) [
          | inr long ↦ ground (arith, entry_n.0)
          | inl short ↦
              let less = ltb→lt n.ikeylen 9 short in
              let none_n = entry_n.1 live less in
              let none_m = entry_m.1 (omega (arith, len)) (omega (arith, len)) in
              absurd (ground (arith, ap length none_n, ap length none_m))
        ] in
        let nine_m : m.ikeylen ≡ 9 = omega (arith, nine, len, entry_m.0) in
        let pos_m = entry_m.2 nine_m in
        let pos_n = entry_n.2 nine in
        let i = next_item v m.ksuf in
        let j = next_item w n.ksuf in
        (
          (
            inl (omega (arith, nine)),
            refl,
            (
              next_item-IsItem v m.ksuf d pos_m entry_m.3 entry_m.4,
              next_item-IsItem w n.ksuf d pos_n entry_n.3 entry_n.4,
              next_item-Differ v w m.ksuf n.ksuf entry_m.3 entry_n.3 other,
            ),
          ),
          refl,
          omega (arith, nine),
          task_slot-Unites H m n (HoldsItem i) (HoldsItem j) ((n.ikeylen + 64) % 256)
              (create_task i j) (Below-value H m v is_v nine_m pos_m entry_m.3)
              (Below-value H n w is_w nine pos_n entry_n.3) (sym at) (λ k u h. h) (λ k u h. h),
        )

    -- The entry of `n` is dropped where its key is that of `m`.
    kept :
        (v w : V)
        → m.lv ≡ value v
        → n.lv ≡ value w
        → m.ksuf ≡ n.ksuf
        → 0 < n.ikeylen
        → Unites (HoldsSlot H m) (HoldsSlot H n) (HoldsSlot (HoldsTask H) (ready_slot m))
    kept v w is_v is_w suf live =
        (λ k u bytes h. inl (ready-HoldsSlot H m k u h), λ k u bytes h. keep k u h)
      where
        keep :
            (k : Key) (u : V)
            → HoldsSlot H m k u ⊎ HoldsSlot H n k u
            → (x : V) × HoldsSlot (HoldsTask H) (ready_slot m) k x
        keep k u (inl h) = (u, HoldsSlot-ready H m k u h)
        keep k u (inr (there, inr (c, is, long, h))) = cc
        keep k u (inr (there, inl (is, pos, rank_n, suf_n))) = (
          v,
          HoldsSlot-ready H m k v
              (at ∙ there, inl (is_v, omega (arith, len), len ∙ rank_n, λ long. suf ∙ suf_n long)),
        )

    pub two_values :
        keylenx_is_layer m.ikeylen ≡ false
        → keylenx_is_layer n.ikeylen ≡ false
        → IsRegularSlot (suc d) G m
        → IsRegularSlot (suc d) G n
        → 0 < n.ikeylen
        → Returns (meet m n) (Meets m n)
    unfolding meet meet_values
    two_values flat_m flat_n hm hn live =
        let (v, is_v, entry_m) = IsRegular-value _ G m.ikeylen m.ksuf m.lv hm flat_m in
        let (w, is_w, entry_n) = IsRegular-value _ G n.ikeylen n.ksuf n.lv hn flat_n in
        elim (Bool-cases ((length m.ksuf == 0) && (length n.ksuf == 0))) [
          | inl none ↦ (
            ready_slot m,
            rw (flat_n, flat_m, none) refl,
            (
              ready_regular v is_v entry_m,
              at,
              len,
              kept v w is_v is_w
                  (length-zero m.ksuf (ground arith) ∙ sym (length-zero n.ksuf (ground arith)))
                  live,
            ),
          )
          | inr some ↦
              elim (Bool-cases ((length m.ksuf == length n.ksuf) && strncmp_zero m.ksuf n.ksuf)) [
                | inl same ↦ (
                  ready_slot m,
                  rw (flat_n, flat_m, some, same) refl,
                  (
                    ready_regular v is_v entry_m,
                    at,
                    len,
                    kept v w is_v is_w
                        (strncmp_zero-eq m.ksuf n.ksuf entry_m.3 (ground arith) (ground arith))
                        live,
                  ),
                )
                | inr other ↦ (
                  task_slot ((n.ikeylen + 64) % 256) n.ikey
                      (create_task (next_item v m.ksuf) (next_item w n.ksuf)),
                  rw (flat_n, flat_m, some, other, is_v, is_w) refl,
                  apart v w is_v is_w entry_m entry_n live some (λ e. ground (
                    arith,
                    ap length e,
                    subst (λ t. strncmp_zero m.ksuf t ≡ true) e (strncmp_zero_same m.ksuf),
                  )),
                )
              ]
        ]
