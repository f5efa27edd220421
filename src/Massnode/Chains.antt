-- ===== src/Massnode/Chains.antt =====
-- The conditions on a node's slots by recursion on the list, for proofs by induction and for nodes
-- that are given.
use microbench.Common.{ℕ, zero, suc, ◌≡◌, List, [], ◌∷◌, some, get_elem?, arith}
use mathlib.Core.Path.{subst}
use microbench.Key.Compare.{Before}
use microbench.Massnode.{Slot}
use microbench.Massnode.Order.{IsAscending}

abbrev pub All {ℓ κ} : {A : Type ℓ} → (A → Type κ) → List A → Type κ
All P [] = Unit
All P (x ∷ xs) = P x × All P xs

pub All-get {ℓ κ} :
    {A : Type ℓ} (P : A → Type κ) (xs : List A) (i : ℕ) (x : A)
    → All P xs
    → get_elem? xs i ≡ some x
    → P x
All-get P [] i x h at = absurd (cc)
All-get P (y ∷ xs) zero x h at = let e : y ≡ x = cc in subst P e h.0
All-get P (y ∷ xs) (suc i) x h at = All-get P xs i x h.1 at

module _ {ℓ} {V L : Type ℓ} where
  abbrev pub Precedes : Slot V L → Slot V L → Type 0
  Precedes a b = Before a.ikey a.ikeylen b.ikey b.ikeylen

  abbrev pub Ascending : List (Slot V L) → Type 0
  Ascending [] = Unit
  Ascending (a ∷ slots) = All (Precedes a) slots × Ascending slots

  pub Ascending-IsAscending : (slots : List (Slot V L)) → Ascending slots → IsAscending slots
  Ascending-IsAscending [] h i j a b lt at bt = absurd (cc)
  Ascending-IsAscending (x ∷ slots) h zero zero a b lt at bt = absurd (omega arith)
  Ascending-IsAscending (x ∷ slots) h zero (suc j) a b lt at bt =
      let e : x ≡ a = cc in
      subst (λ (s : Slot V L). Precedes s b) e (All-get (Precedes x) slots j b h.0 bt)
  Ascending-IsAscending (x ∷ slots) h (suc i) zero a b lt at bt = absurd (omega arith)
  Ascending-IsAscending (x ∷ slots) h (suc i) (suc j) a b lt at bt =
      Ascending-IsAscending slots h.1 i j a b (omega arith) at bt
