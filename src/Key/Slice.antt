-- ===== src/Key/Slice.antt =====
-- What the slice of a key says of its bytes: slices and lengths together determine a key's prefix.
use microbench.Common.{
  ◌∙◌, sym, ◌++◌, take-append-drop, Bool-cases, ltb, ltb→lt, refl, ◌≤◌, ◌≡◌, take, length, drop, ap,
  ℕ, zero, suc, ◌+◌, ◌*◌, ◌^◌, ◌<◌, List, [], ◌∷◌, arith, Ordering-cases, compare, inl, inr, min,
}
use mathlib.Core.Path.{ap₂}
use native.Mathlib.Nat.{pow-suc, one-le-pow, mul-le-mul_right}
use microbench.Key.{ikey_size, Key, ikey, make_comparable, suffix}
use microbench.Key.Compare.{rank}

-- Every element is a byte.
abbrev pub AreBytes : List ℕ → Type 0
AreBytes [] = Unit
AreBytes (b ∷ s) = (b < 256) × AreBytes s

pub AreBytes-drop : (n : ℕ) (s : List ℕ) → AreBytes s → AreBytes (drop n s)
AreBytes-drop zero s h = h
AreBytes-drop (suc n) [] h = h
AreBytes-drop (suc n) (b ∷ s) h = AreBytes-drop n s h.1

-- A slice of `n` bytes is below 256 ^ n.
pub make_comparable-lt : (n : ℕ) (s : List ℕ) → AreBytes s → make_comparable n s < 256 ^ n
unfolding make_comparable
make_comparable-lt zero s h = omega arith
make_comparable-lt (suc n) [] h = omega (arith, one-le-pow (suc n) 256 (omega arith))
make_comparable-lt (suc n) (b ∷ s) h = grind (arith, make_comparable-lt n s, pow-suc)

-- Quotient and remainder by `w` are unique.
pub digit_unique : (w b c x y : ℕ) → x < w → y < w → b * w + x ≡ c * w + y → (b ≡ c) × (x ≡ y)
digit_unique w b c x y hx hy e = elim (Ordering-cases (compare b c)) [
  | inr (inl same) ↦ let p : b ≡ c = ground arith in (p, omega (arith, ap (λ (t : ℕ). t * w) p))
  | inl less ↦ let p : b + 1 ≤ c = ground arith in absurd (omega (arith, mul-le-mul_right w p))
  | inr (inr more) ↦
      let p : c + 1 ≤ b = ground arith in absurd (omega (arith, mul-le-mul_right w p))
]

-- Equal slices of equally many bytes come from equal bytes.
pub make_comparable-injective :
    (n : ℕ) (s t : List ℕ)
    → AreBytes s
    → AreBytes t
    → min (length s) n ≡ min (length t) n
    → make_comparable n s ≡ make_comparable n t
    → take n s ≡ take n t
unfolding make_comparable
make_comparable-injective zero s t hs ht len e = refl
make_comparable-injective (suc n) [] [] hs ht len e = refl
make_comparable-injective (suc n) [] (c ∷ t) hs ht len e = absurd (omega arith)
make_comparable-injective (suc n) (b ∷ s) [] hs ht len e = absurd (omega arith)
make_comparable-injective (suc n) (b ∷ s) (c ∷ t) hs ht len e =
    let same =
      digit_unique (256 ^ n) b c (make_comparable n s) (make_comparable n t)
        (make_comparable-lt n s hs.1) (make_comparable-lt n t ht.1) e in
    ap₂ (λ x r. x ∷ r) same.0 (make_comparable-injective n s t hs.1 ht.1 (omega arith) same.1)

pub drop-short : (n : ℕ) (s : List ℕ) → length s ≤ n → drop n s ≡ []
drop-short zero [] h = refl
drop-short zero (b ∷ s) h = absurd (omega arith)
drop-short (suc n) [] h = refl
drop-short (suc n) (b ∷ s) h = drop-short n s (omega arith)

-- Slice, length up to nine and suffix determine a key.
pub key_unique :
    (j k : Key)
    → AreBytes j
    → AreBytes k
    → ikey j ≡ ikey k
    → rank (length j) ≡ rank (length k)
    → (ikey_size < length k → suffix j ≡ suffix k)
    → j ≡ k
unfolding ikey
key_unique j k hj hk same len suf =
    let front = make_comparable-injective 8 j k hj hk (omega arith) same in
    let back = elim (Bool-cases (ltb 8 (length k))) as (λ _. suffix j ≡ suffix k) [
      | inl long ↦ suf (ltb→lt 8 (length k) long)
      | inr short ↦ drop-short 8 j (ground arith) ∙ sym (drop-short 8 k (ground arith))
    ] in
    sym (take-append-drop 8 j) ∙ ap₂ (λ a b. a ++ b) front back ∙ take-append-drop 8 k
