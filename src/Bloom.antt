-- ===== src/Bloom.antt =====
-- The bloom filter of hybrid_index/mtIndexAPI.hh. Its bytes are one list of bits: bit `p % 8` of byte
-- `p / 8` is entry `p`, and `bits` is the length.
pub mod Match
mod Examples
use microbench.Common.{
  ltb, ℕ, zero, suc, ◌+◌, ◌*◌, ◌/◌, ◌%◌, Bool, true, false, Option, none, some, List, [], ◌∷◌,
  length, get_elem?, set, replicate, ◌==◌, if◌then◌else◌,
}
use microbench.Common.Run.{Run, ok, fault, ◌>>=◌}
use microbench.Key.{Key}
use Prim.Native.Nat.{bit_xor, bit_or}

abbrev pub word : ℕ → ℕ
word n = n % 4294967296

-- `DecodeFixed32` on a little-endian machine.
abbrev decode_fixed32 : ℕ → ℕ → ℕ → ℕ → ℕ
decode_fixed32 a b c d = a + b * 256 + c * 65536 + d * 16777216

-- The loop over four bytes at a time, and the `switch` on the remaining ones.
unfoldable pub hash_bytes : ℕ → List ℕ → ℕ
hash_bytes h (a ∷ b ∷ c ∷ d ∷ rest) =
    let g = word (word (h + decode_fixed32 a b c d) * 0xc6a4a793) in
    hash_bytes (bit_xor g (g / 65536)) rest
hash_bytes h (a ∷ b ∷ c ∷ []) =
    let g = word (word (h + c * 65536 + b * 256 + a) * 0xc6a4a793) in bit_xor g (g / 16777216)
hash_bytes h (a ∷ b ∷ []) =
    let g = word (word (h + b * 256 + a) * 0xc6a4a793) in bit_xor g (g / 16777216)
hash_bytes h (a ∷ []) = let g = word (word (h + a) * 0xc6a4a793) in bit_xor g (g / 16777216)
hash_bytes h [] = h

unfoldable pub hash : Key → ℕ → ℕ
hash data_bytes seed = hash_bytes (bit_xor seed (word (length data_bytes * 0xc6a4a793))) data_bytes

unfoldable pub bloom_hash : Key → ℕ
bloom_hash data_bytes = hash data_bytes 0xbc9f1d34

abbrev pub probes : ℕ
probes = 2

-- `(h >> 17) | (h << 15)`
unfoldable pub delta_of : ℕ → ℕ
delta_of h = bit_or (h / 131072) (word (h * 32768))

-- The number of bits is a product of two `int`s, which may not overflow.
unfoldable pub create_empty_filter : ℕ → Run (List Bool)
create_empty_filter n =
    let bits = n * 8 in
    if ltb bits 2147483648 then ok (replicate ((bits + 7) / 8 * 8) false) else fault

-- Without bits the code divides by zero.
unfoldable pub insert_loop : ℕ → ℕ → ℕ → List Bool → Run (List Bool)
insert_loop zero h delta filter = ok filter
insert_loop (suc j) h delta filter =
    let next = insert_loop j (word (h + delta)) delta (set filter (h % length filter) true) in
    if length filter == 0 then fault else next

unfoldable pub insert_to_filter : Key → List Bool → Run (List Bool)
insert_to_filter k filter = insert_loop probes (bloom_hash k) (delta_of (bloom_hash k)) filter

unfoldable pub match_loop : ℕ → ℕ → ℕ → List Bool → Run Bool
match_loop zero h delta filter = ok true
match_loop (suc j) h delta filter =
    let next = match_loop j (word (h + delta)) delta filter in
    if length filter == 0 then fault else elim (get_elem? filter (h % length filter)) [
      | none ↦ fault
      | some b ↦ if b then next else ok false
    ]

unfoldable pub key_may_match : Key → List Bool → Run Bool
key_may_match k filter = match_loop probes (bloom_hash k) (delta_of (bloom_hash k)) filter

-- The insertions of a list of keys.
unfoldable pub insert_all : List Key → List Bool → Run (List Bool)
insert_all [] filter = ok filter
insert_all (k ∷ keys) filter = insert_to_filter k filter >>= insert_all keys
