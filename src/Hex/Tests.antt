-- ===== src/Hex/Tests.antt =====
-- A hexadecimal number in a buffer of nine bytes.
use pinyon.Prelude.{◌≡◌, refl, true, [], ◌∷◌}
use pinyon.Hex.{hex_char, fill_zeros, put_digits, to_strbuf_hex}

hex_run :
    to_strbuf_hex (9 ∷ 9 ∷ 9 ∷ 9 ∷ 9 ∷ 9 ∷ 9 ∷ 9 ∷ 9 ∷ []) 9 43981 true
    ≡ 48 ∷ 48 ∷ 48 ∷ 48 ∷ 65 ∷ 66 ∷ 67 ∷ 68 ∷ 0 ∷ []
unfolding to_strbuf_hex put_digits fill_zeros hex_char
hex_run = refl
