-- ===== src/Cursor/After.antt =====
-- What holds of a scan cursor after a piece of the code, if it returns.
use microbench.Common.{Bool, true, false, Option, none, some, if◌then◌else◌}
use microbench.Common.Run.{Run, ok, fault, ◌>>=◌}
use microbench.Massnode.{LeafValue, value, layer}
use microbench.Cursor.{Cursor}

module _ {V : Type 0} where
  abbrev pub After : (Cursor V → Type 0) → Run (Bool × Cursor V) → Type 0
  After P fault = Unit
  After P (ok r) = P r.1

  module _ (P : Cursor V → Type 0) where
    pub After-bind :
        {A : Type 0} (r : Run A) (f : A → Run (Bool × Cursor V))
        → ((a : A) → After P (f a))
        → After P (r >>= f)
    After-bind fault f h = tt
    After-bind (ok a) f h = h a

    pub After-bool :
        (b : Bool) (x y : Run (Bool × Cursor V))
        → After P x
        → After P y
        → After P (elim b [ true ↦ x | false ↦ y ])
    After-bool true x y hx hy = hx
    After-bool false x y hx hy = hy

    pub After-if :
        (b : Bool) (x y : Run (Bool × Cursor V))
        → After P x
        → After P y
        → After P (if b then x else y)
    After-if true x y hx hy = hx
    After-if false x y hx hy = hy

    pub After-lv :
        {L : Type 0} (lv : LeafValue V L) (f : L → Run (Bool × Cursor V))
        → ((b : L) → After P (f b))
        → After P (elim lv [ value v ↦ fault | layer b ↦ f b ])
    After-lv (value v) f h = tt
    After-lv (layer b) f h = h b

    pub After-option :
        {A : Type 0} (o : Option A) (x : Run (Bool × Cursor V)) (f : A → Run (Bool × Cursor V))
        → After P x
        → ((a : A) → After P (f a))
        → After P (elim o [ none ↦ x | some a ↦ f a ])
    After-option none x f hx hf = hx
    After-option (some a) x f hx hf = hf a
