-- ===== src/Trie/Write.antt =====
-- Writes to one slot of a node.
use microbench.Common.{
  ℕ, zero, suc, ◌<◌, ◌≡◌, ◌≢◌, ◌⊎◌, List, [], ◌∷◌, some, refl, inl, inr, get_elem?, get_elem?-lt,
  get_elem?-set_self, get_elem?-set_ne, set, arith, ap, sym, ◌∙◌,
}
use native.Mathlib.Decide.{ℕ_discrete}
use mathlib.Core.Path.{subst}
use microbench.Key.Compare.{Before}
use microbench.Massnode.{LeafValue, Slot, Massnode, set_lv, set_slot}
use microbench.Key.{Key, ikey, shift}
use microbench.Trie.{Trie}
use microbench.Trie.Holds.{Fits, IsNode, Carries, InLayer, Holds}

pub some_inj {ℓ} : {A : Type ℓ} {a b : A} → some a ≡ some b → a ≡ b
some_inj h = cc

-- A read after a write is of the new element, or of an old one at another index.
pub get_elem?-set {ℓ} :
    {A : Type ℓ} (xs : List A) (p q : ℕ) (a b : A)
    → get_elem? (set xs p a) q ≡ some b
    → ((p ≡ q) × (a ≡ b)) ⊎ ((p ≢ q) × (get_elem? xs q ≡ some b))
get_elem?-set [] p q a b h = inr (λ e. cc, h)
get_elem?-set (x ∷ xs) zero zero a b h = inl (refl, some_inj h)
get_elem?-set (x ∷ xs) zero (suc q) a b h = inr (λ e. omega arith, h)
get_elem?-set (x ∷ xs) (suc p) zero a b h = inr (λ e. omega arith, h)
get_elem?-set (x ∷ xs) (suc p) (suc q) a b h = elim (get_elem?-set xs p q a b h) [
  | inl (e, f) ↦ inl (ap suc e, f)
  | inr (e, f) ↦ inr (λ g. e (omega arith), f)
]

module _ {V L : Type 0} (P : L → Type 0) (n : Massnode V L) (p : ℕ) (e : Slot V L)
    (lv : LeafValue V L) where
  -- A new value or layer at a slot of a node keeps the node well formed, if it fits the slot's length.
  pub set_lv-IsNode :
      IsNode P n
      → get_elem? n.slots p ≡ some e
      → Fits P e.ikeylen lv
      → IsNode P (set_slot n p (set_lv lv e))
  unfolding set_lv
  set_lv-IsNode node get fits = (
    λ i j a b lt at bt.
        ordered i j a b lt (get_elem?-set n.slots p i _ a at) (get_elem?-set n.slots p j _ b bt),
    λ q f at. fitting q f (get_elem?-set n.slots p q _ f at),
  )
    where
      ordered :
          (i j : ℕ) (a b : Slot V L)
          → i < j
          → ((p ≡ i) × (record e { lv = lv } ≡ a)) ⊎ ((p ≢ i) × (get_elem? n.slots i ≡ some a))
          → ((p ≡ j) × (record e { lv = lv } ≡ b)) ⊎ ((p ≢ j) × (get_elem? n.slots j ≡ some b))
          → Before a.ikey a.ikeylen b.ikey b.ikeylen
      ordered i j a b lt (inl (pi, ea)) (inl (pj, eb)) = absurd (omega arith)
      ordered i j a b lt (inl (pi, ea)) (inr (pj, bt)) =
          subst (λ (s : Slot V L). Before s.ikey s.ikeylen b.ikey b.ikeylen) ea
            (node.0 i j e b lt (rw (← pi) get) bt)
      ordered i j a b lt (inr (pi, at)) (inl (pj, eb)) =
          subst (λ (s : Slot V L). Before a.ikey a.ikeylen s.ikey s.ikeylen) eb
            (node.0 i j a e lt at (rw (← pj) get))
      ordered i j a b lt (inr (pi, at)) (inr (pj, bt)) = node.0 i j a b lt at bt

      fitting :
          (q : ℕ) (f : Slot V L)
          → ((p ≡ q) × (record e { lv = lv } ≡ f)) ⊎ ((p ≢ q) × (get_elem? n.slots q ≡ some f))
          → Fits P f.ikeylen f.lv
      fitting q f (inl (pq, ef)) = subst (λ (s : Slot V L). Fits P s.ikeylen s.lv) ef fits
      fitting q f (inr (pq, at)) = node.1 q f at

-- What one slot of a node has for the key.
abbrev pub SlotHolds : (V : Type 0) (d : ℕ) → Trie V (suc d) → Slot V (Trie V d) → Key → V → Type 0
SlotHolds V d t s k v = Carries t s k v ⊎ InLayer (λ c. Holds V d c (shift k) v) s.lv k

-- A write of the slot `f` over the slot `e`.
module _ (V : Type 0) (d : ℕ) (t : Trie V (suc d)) (p : ℕ) (e f : Slot V (Trie V d))
    (get : get_elem? t.slots p ≡ some e) (slice : f.ikey ≡ e.ikey) (k : Key) (v : V) where
  -- It changes what the trie holds for a key only through that slot.
  pub write-Holds :
      (e.ikey ≡ ikey k → SlotHolds V d t f k v → SlotHolds V d t e k v)
      → Holds V (suc d) (set_slot t p f) k v
      → Holds V (suc d) t k v
  write-Holds old (q, g, at, same, has) = go (get_elem?-set t.slots p q f g at)
    where
      go : ((p ≡ q) × (f ≡ g)) ⊎ ((p ≢ q) × (get_elem? t.slots q ≡ some g)) → Holds V (suc d) t k v
      go (inl (pq, fg)) =
          let r : (f.ikey ≡ ikey k) × SlotHolds V d t f k v =
            subst (λ (s : Slot V (Trie V d)). (s.ikey ≡ ikey k) × SlotHolds V d t s k v) (sym fg)
              (same, has) in
          (p, e, get, sym slice ∙ r.0, old (sym slice ∙ r.0) r.1)
      go (inr (pq, was)) = (q, g, was, same, has)

  pub written-Holds : e.ikey ≡ ikey k → SlotHolds V d t f k v → Holds V (suc d) (set_slot t p f) k v
  written-Holds same has =
      (p, f, get_elem?-set_self t.slots p f (get_elem?-lt t.slots p e get), slice ∙ same, has)

  pub Holds-write :
      (e.ikey ≡ ikey k → SlotHolds V d t e k v → SlotHolds V d t f k v)
      → Holds V (suc d) t k v
      → Holds V (suc d) (set_slot t p f) k v
  Holds-write new (q, g, at, same, has) = elim (ℕ_discrete p q) [
    | yes pq ↦
        let ge : g ≡ e = some_inj (sym at ∙ rw pq at get) in
        let r : (e.ikey ≡ ikey k) × SlotHolds V d t e k v =
          subst (λ (s : Slot V (Trie V d)). (s.ikey ≡ ikey k) × SlotHolds V d t s k v) ge
            (same, has) in
        written-Holds r.0 (new r.0 r.1)
    | no pq ↦ (q, g, get_elem?-set_ne t.slots f pq ∙ at, same, has)
  ]
