-- ===== src/Cursor/Bytes.antt =====
-- The bytes that a cursor makes of slices, against the slices that are made of bytes.
use microbench.Common.{
  ℕ, zero, suc, ◌+◌, ◌*◌, ◌/◌, ◌%◌, ◌^◌, ◌<◌, ◌≤◌, ◌≡◌, List, [], ◌∷◌, ◌++◌, take, replicate, arith,
  refl, ap, sym, ◌∙◌,
}
use mathlib.Core.Path.{subst}
use native.Mathlib.Nat.{one-le-pow, mod-lt, div-add-mod, mul_comm}
use microbench.Cursor.{slice_bytes}
use microbench.Key.{make_comparable}
use microbench.Key.Slice.{AreBytes, make_comparable-lt, digit_unique}

-- The quotient and the remainder by `w` are found again.
digits : (w b r : ℕ) → r < w → ((b * w + r) / w ≡ b) × ((b * w + r) % w ≡ r)
digits w b r h =
    let x = b * w + r in
    digit_unique w (x / w) b (x % w) r (mod-lt x (omega arith)) h
      (omega (arith, div-add-mod x w, mul_comm w (x / w)))

slice_bytes-cons :
    (n b r : ℕ) → r < 256 ^ n → slice_bytes (suc n) (b * 256 ^ n + r) ≡ b ∷ slice_bytes n r
unfolding slice_bytes
slice_bytes-cons n b r h = let (high, low) = digits (256 ^ n) b r h in rw (high, low) refl

slice_bytes-zero : (n : ℕ) → slice_bytes (suc n) 0 ≡ 0 ∷ slice_bytes n 0
slice_bytes-zero n =
    let same : 0 * 256 ^ n + 0 ≡ 0 = omega arith in
    subst (λ x. slice_bytes (suc n) x ≡ 0 ∷ slice_bytes n 0) same
      (slice_bytes-cons n 0 0 (one-le-pow n 256 (omega arith)))

make_comparable-nil : (n : ℕ) → make_comparable n [] ≡ 0
unfolding make_comparable
make_comparable-nil zero = refl
make_comparable-nil (suc n) = refl

take-append-replicate :
    (n m : ℕ) (s : List ℕ) → n ≤ m → take n (s ++ replicate (suc m) 0) ≡ take n (s ++ replicate m 0)
take-append-replicate zero m s h = refl
take-append-replicate (suc n) zero s h = absurd (omega arith)
take-append-replicate (suc n) (suc m) [] h =
    ap (λ l. 0 ∷ l) (take-append-replicate n m [] (omega arith))
take-append-replicate (suc n) (suc m) (b ∷ s) h =
    ap (λ l. b ∷ l) (take-append-replicate n (suc m) s (omega arith))

-- The bytes of a key's slice are the key's first bytes, with zero bytes where there are none.
pub slice_bytes-make_comparable :
    (n : ℕ) (s : List ℕ)
    → AreBytes s
    → slice_bytes n (make_comparable n s) ≡ take n (s ++ replicate n 0)
unfolding slice_bytes make_comparable
slice_bytes-make_comparable zero s h = refl
slice_bytes-make_comparable (suc n) [] h =
    slice_bytes-zero n
    ∙ ap (λ l. 0 ∷ l)
        (ap (slice_bytes n) (sym (make_comparable-nil n)) ∙ slice_bytes-make_comparable n [] h)
slice_bytes-make_comparable (suc n) (b ∷ s) h =
    slice_bytes-cons n b (make_comparable n s) (make_comparable-lt n s h.1)
    ∙ ap (λ l. b ∷ l)
        (slice_bytes-make_comparable n s h.1 ∙ sym (take-append-replicate n n s (omega arith)))
