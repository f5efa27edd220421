-- ===== src/Merge/Meet.antt =====
-- Two entries of one slice and length in a merge: what becomes of them holds the keys of both.
use microbench.Common.{ℕ, suc, ◌<◌, ◌≡◌, ◌⊎◌, true, false, arith, refl, sym, inl, inr, Bool-cases}
use mathlib.Core.Path.{subst}
use microbench.Common.Run.{Returns}
use microbench.Key.{Key}
use microbench.Key.Compare.{rank}
use microbench.Massnode.{Slot, keylenx_is_layer}
use microbench.Merge.{merge_task, add_task, meet, next_item, task_slot}
use microbench.Merge.Holds.{
  HoldsItem, HoldsSlot, HoldsTask, IsRegularSlot, IsRegular-layer, IsRegular-value, Unites,
}
use microbench.Merge.Below.{Below-layer, Below-value, task_slot-Unites}
use microbench.Merge.Values.{Meets, two_values}
use microbench.Merge.Keys.{next_item-IsItem}

module _ {V L : Type 0} (H : L → Key → V → Type 0) (G : L → Type 0) (d : ℕ) where
  swap : {A B : Type 0} → A ⊎ B → B ⊎ A
  swap (inl a) = inr a
  swap (inr b) = inl b

  module _ (m n : Slot V L) (at : m.ikey ≡ n.ikey) (len : rank m.ikeylen ≡ rank n.ikeylen) where
    both_layers :
        keylenx_is_layer m.ikeylen ≡ true
        → keylenx_is_layer n.ikeylen ≡ true
        → IsRegularSlot (suc d) G m
        → IsRegularSlot (suc d) G n
        → Returns (meet m n) (Meets H G d m n)
    unfolding meet
    both_layers deep_m deep_n hm hn =
        let (a, is_a, rank_a, len_a, ga) = IsRegular-layer _ G m.ikeylen m.ksuf m.lv hm deep_m in
        let (b, is_b, rank_b, len_b, gb) = IsRegular-layer _ G n.ikeylen n.ksuf n.lv hn deep_n in
        (
          task_slot n.ikeylen n.ikey (merge_task a b),
          rw (deep_n, deep_m, is_a, is_b) refl,
          (
            (len_b, refl, (ga, gb)),
            refl,
            refl,
            task_slot-Unites H m n (H a) (H b) n.ikeylen (merge_task a b) (Below-layer H m a is_a)
                (Below-layer H n b is_b) (sym at) (λ k v h. h) (λ k v h. h),
          ),
        )

    layer_of_n :
        keylenx_is_layer m.ikeylen ≡ false
        → keylenx_is_layer n.ikeylen ≡ true
        → IsRegularSlot (suc d) G m
        → IsRegularSlot (suc d) G n
        → Returns (meet m n) (Meets H G d m n)
    unfolding meet
    layer_of_n flat_m deep_n hm hn =
        let (v, is_v, entry) = IsRegular-value _ G m.ikeylen m.ksuf m.lv hm flat_m in
        let (b, is_b, rank_b, len_b, gb) = IsRegular-layer _ G n.ikeylen n.ksuf n.lv hn deep_n in
        let nine : m.ikeylen ≡ 9 = omega (arith, entry.0, len, rank_b) in
        let pos = entry.2 nine in
        (
          task_slot n.ikeylen n.ikey (add_task (next_item v m.ksuf) b),
          rw (deep_n, flat_m, is_v, is_b) refl,
          (
            (len_b, refl, (next_item-IsItem v m.ksuf d pos entry.3 entry.4, gb)),
            refl,
            refl,
            task_slot-Unites H m n (HoldsItem (next_item v m.ksuf)) (H b) n.ikeylen
                (add_task (next_item v m.ksuf) b) (Below-value H m v is_v nine pos entry.3)
                (Below-layer H n b is_b) (sym at) (λ k v h. h) (λ k v h. h),
          ),
        )

    layer_of_m :
        keylenx_is_layer m.ikeylen ≡ true
        → keylenx_is_layer n.ikeylen ≡ false
        → IsRegularSlot (suc d) G m
        → IsRegularSlot (suc d) G n
        → Returns (meet m n) (Meets H G d m n)
    unfolding meet
    layer_of_m deep_m flat_n hm hn =
        let (w, is_w, entry) = IsRegular-value _ G n.ikeylen n.ksuf n.lv hn flat_n in
        let (a, is_a, rank_a, len_a, ga) = IsRegular-layer _ G m.ikeylen m.ksuf m.lv hm deep_m in
        let nine : n.ikeylen ≡ 9 = omega (arith, entry.0, len, rank_a) in
        let pos = entry.2 nine in
        (
          task_slot m.ikeylen m.ikey (add_task (next_item w n.ksuf) a),
          rw (deep_m, flat_n, is_w, is_a) refl,
          (
            (len_a, refl, (next_item-IsItem w n.ksuf d pos entry.3 entry.4, ga)),
            at,
            len,
            subst
                (λ i. Unites (HoldsSlot H m) (HoldsSlot H n) (
                  HoldsSlot (HoldsTask H)
                    (task_slot m.ikeylen i (add_task (next_item w n.ksuf) a))))
                (sym at)
                (task_slot-Unites H m n (H a) (HoldsItem (next_item w n.ksuf)) m.ikeylen
                  (add_task (next_item w n.ksuf) a) (Below-layer H m a is_a)
                  (Below-value H n w is_w nine pos entry.3) (sym at) (λ k v h. swap h)
                  (λ k v h. swap h)),
          ),
        )

    -- Whether they are values or layers, the code neither faults nor loses a key.
    pub meet-Meets :
        IsRegularSlot (suc d) G m
        → IsRegularSlot (suc d) G n
        → 0 < n.ikeylen
        → Returns (meet m n) (Meets H G d m n)
    meet-Meets hm hn live = elim (Bool-cases (keylenx_is_layer m.ikeylen)) [
      | inl deep_m ↦ elim (Bool-cases (keylenx_is_layer n.ikeylen)) [
        | inl deep_n ↦ both_layers deep_m deep_n hm hn
        | inr flat_n ↦ layer_of_m deep_m flat_n hm hn
      ]
      | inr flat_m ↦ elim (Bool-cases (keylenx_is_layer n.ikeylen)) [
        | inl deep_n ↦ layer_of_n flat_m deep_n hm hn
        | inr flat_n ↦ two_values H G d m n at len flat_m flat_n hm hn live
      ]
    ]
