-- ===== src/Index/Counter.antt =====
-- The counters `ic` and `sic` of hybrid_index/mtIndexAPI.hh: 32-bit `int`s as their bit patterns. A
-- signed overflow, which C++ leaves undefined, is taken to wrap around.
use microbench.Common.{ℕ, ◌+◌, ◌-◌, ◌*◌, ◌%◌, ◌<◌, ◌≤◌, ◌≡◌, Bool, true, ◌&&◌, leb, arith}

abbrev pub add_int : ℕ → ℕ → ℕ
add_int a b = (a + b) % 4294967296

abbrev pub sub_int : ℕ → ℕ → ℕ
sub_int a b = (a + (4294967296 - b % 4294967296)) % 4294967296

-- The signed value of a pattern, with 2 ^ 31 added.
abbrev pub signed : ℕ → ℕ
signed a = (a + 2147483648) % 4294967296

-- `MERGE_THRESHOLD`, `MERGE_RATIO`: `(ic * merge_ratio) >= sic && ic >= MERGE_THRESHOLD`. The ratio
-- is the `double` 10, by which the product is exact.
unfoldable pub merge_due : ℕ → ℕ → Bool
merge_due ic sic =
    leb (signed sic + 10 * 2147483648) (10 * signed ic + 2147483648)
    && leb (2147483648 + 100) (signed ic)

-- While no counter has reached 2 ^ 31 this is the comparison of the numbers.
pub merge_due-le :
    (ic sic : ℕ)
    → ic < 2147483648
    → sic < 2147483648
    → merge_due ic sic ≡ true
    → (sic ≤ 10 * ic) × (100 ≤ ic)
unfolding merge_due
merge_due-le ic sic a b h = ground arith
