-- ===== src/BitMap/Tests.antt =====
-- Two words of bits.
use pinyon.Prelude.{◌≡◌, refl, false, none, some, [], ◌∷◌}
use pinyon.BitMap.{shifted, has, word_at, bit, mark_bit, set_bit, clear_bit}

set_twice : set_bit 64 3 (8 ∷ 0 ∷ []) ≡ some (0 ∷ 0 ∷ [])
unfolding set_bit word_at shifted has
set_twice = refl

clear_run : clear_bit 64 3 (9 ∷ 0 ∷ []) ≡ some (1 ∷ 0 ∷ [])
unfolding clear_bit word_at shifted has
clear_run = refl

mark_false : mark_bit 64 3 false (8 ∷ 0 ∷ []) ≡ some (8 ∷ 0 ∷ [])
unfolding mark_bit word_at shifted has
mark_false = refl

second_word : bit 64 40 (8 ∷ 1 ∷ []) ≡ none
unfolding bit word_at shifted has
second_word = refl
