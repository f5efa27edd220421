-- ===== src/Drivers/Allocator.antt =====
-- The allocator of the drivers, allocatortracker.hh, which counts the bytes of the blocks that
-- `std::allocator` gives it. The instances for all types share one count, an `int64_t` as its bit
-- pattern, which wraps around.
use microbench.Common.{
  ℕ, ◌+◌, ◌-◌, ◌*◌, ◌%◌, ◌≡◌, List, [], ◌∷◌, Option, some, none, arith, refl, sym,
}

-- 2 ^ 64
abbrev word : ℕ
word = 18446744073709551616

-- The count after `allocate`, when the base has given a block or has thrown.
unfoldable pub allocate : ℕ → ℕ → Option ℕ → ℕ → Option (ℕ × ℕ)
allocate size_of size none memory_size = none
allocate size_of size (some ptr) memory_size =
    some (ptr, (memory_size + (size * size_of) % word) % word)

unfoldable pub deallocate : ℕ → ℕ → ℕ → ℕ
deallocate size_of size memory_size = (memory_size + (word - (size * size_of) % word)) % word

-- A block that is in use: its place, its number of items, and the size of one.
pub record Block : Type 0 where
  pub ptr : ℕ
  pub size : ℕ
  pub size_of : ℕ

-- A list without one of its blocks.
pub data Without (b : Block) : List Block → List Block → Type 0 where
  head : (bs : List Block) → Without b (b ∷ bs) bs
  tail : (c : Block) {bs rest : List Block} → Without b bs rest → Without b (c ∷ bs) (c ∷ rest)

pub record Heap : Type 0 where
  pub memory_size : ℕ
  pub blocks : List Block

-- Calls of the containers: a block is given back with its own size and type.
pub data Step : Heap → Heap → Type 0 where
  gives :
      (h : Heap) (b : Block) (m : ℕ)
      → allocate b.size_of b.size (some b.ptr) h.memory_size ≡ some (b.ptr, m)
      → Step h (record { memory_size = m; blocks = b ∷ h.blocks })
  throws :
      (h : Heap) (size_of size : ℕ) → allocate size_of size none h.memory_size ≡ none → Step h h
  takes :
      (h : Heap) (b : Block) (rest : List Block)
      → Without b h.blocks rest
      → Step h (record { memory_size = deallocate b.size_of b.size h.memory_size; blocks = rest })

pub data Reach (s : Heap) : Heap → Type 0 where
  here : Reach s s
  next : {t u : Heap} → Reach s t → Step t u → Reach s u

unfoldable pub bytes : List Block → ℕ
bytes [] = 0
bytes (b ∷ bs) = b.size * b.size_of + bytes bs

-- The count is right up to the width of the word.
abbrev pub IsBalanced : Heap → Type 0
IsBalanced h = h.memory_size ≡ bytes h.blocks % word

add_word : (m n k : ℕ) → m ≡ n % word → (m + k % word) % word ≡ (k + n) % word
add_word m n k e = omega (arith, e)

sub_word : (m n k : ℕ) → m ≡ (k + n) % word → (m + (word - k % word)) % word ≡ n % word
sub_word m n k e = omega (arith, e)

Without-bytes :
    (b : Block) {bs rest : List Block}
    → Without b bs rest
    → bytes bs ≡ b.size * b.size_of + bytes rest
unfolding bytes
Without-bytes b (head bs) = refl
Without-bytes b (tail c {bs = bs} {rest = rest} w) = let ih = Without-bytes b w in omega (arith, ih)

gives-IsBalanced :
    (h : Heap) (b : Block) (m : ℕ)
    → IsBalanced h
    → allocate b.size_of b.size (some b.ptr) h.memory_size ≡ some (b.ptr, m)
    → m ≡ bytes (b ∷ h.blocks) % word
unfolding allocate bytes
gives-IsBalanced h b m e run =
    let count = add_word h.memory_size (bytes h.blocks) (b.size * b.size_of) e in cc

Step-IsBalanced : {h g : Heap} → Step h g → IsBalanced h → IsBalanced g
unfolding deallocate
Step-IsBalanced (gives h b m run) e = gives-IsBalanced h b m e run
Step-IsBalanced (throws h size_of size run) e = e
Step-IsBalanced (takes h b rest w) e =
    sub_word h.memory_size (bytes rest) (b.size * b.size_of) (rw (sym (Without-bytes b w)) e)

-- If the count of a heap is the bytes of its blocks up to the width of the word, so it is after every
-- sequence of calls that give blocks, throw, or take back a block with its own size and type.
pub Reach-IsBalanced : {h g : Heap} → IsBalanced h → Reach h g → IsBalanced g
Reach-IsBalanced e here = e
Reach-IsBalanced e (next r s) = Step-IsBalanced s (Reach-IsBalanced e r)
