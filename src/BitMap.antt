-- ===== src/BitMap.antt =====
-- BitMap of pine/array.hpp, whose `NumBits` is `num_bits`, on 32-bit words. `none` is an index past the
-- array of words or a shift by a word's width or more.
pub mod Bits
mod Tests
use pinyon.Prelude.{
  ℕ, ◌+◌, ◌-◌, ◌/◌, ◌%◌, ◌^◌, Bool, true, false, ltb, ◌==◌, if◌then◌else◌, Option, none, some,
  ◌>>=◌, List, get_elem?, set,
}

-- `(size_t)1 << index`
unfoldable pub shifted : ℕ → Option ℕ
shifted index = if ltb index 32 then some (2 ^ index) else none

unfoldable pub has : ℕ → ℕ → Bool
has word index = word / 2 ^ index % 2 == 1

module _ (num_bits : ℕ) where
  unfoldable pub word_at : ℕ → List ℕ → Option ℕ
  word_at index bitmap = get_elem? bitmap (index / num_bits)

  unfoldable pub bit : ℕ → List ℕ → Option Bool
  bit index bitmap = do word ← word_at index bitmap; _ ← shifted index; some (has word index)

  -- `(word & ~(value << index)) | (value << index)`: with false, the word as it was.
  unfoldable pub mark_bit : ℕ → Bool → List ℕ → Option (List ℕ)
  mark_bit index value bitmap = do
    word ← word_at index bitmap
    one ← shifted index
    let marked = if has word index then word else word + one
    some (set bitmap (index / num_bits) (if value then marked else word))

  -- `word ^ (1 << index)`
  unfoldable pub set_bit : ℕ → List ℕ → Option (List ℕ)
  set_bit index bitmap = do
    word ← word_at index bitmap
    one ← shifted index
    some (set bitmap (index / num_bits) (if has word index then word - one else word + one))

  unfoldable pub clear_bit : ℕ → List ℕ → Option (List ℕ)
  clear_bit index bitmap = do
    word ← word_at index bitmap
    one ← shifted index
    some (set bitmap (index / num_bits) (if has word index then word - one else word))
