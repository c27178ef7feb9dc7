-- ===== src/Strings/Tests.antt =====
-- Runs on "hi" and "him".
use pinyon.Prelude.{ℕ, suc, ◌≤◌, ◌<◌, ◌≡◌, ◌↔◌, ◌⊎◌, refl, arith, some, List, [], ◌∷◌}
use pinyon.Files.{ℤ, pos}
use pinyon.Strings.{strlen, strcmp, strbufcopy, strcopy, strcopy_loop}
use pinyon.Strings.Compare.{strcmp-same, strlen-text}
use pinyon.Strings.Copy.{Copied, strbufcopy-Copied}

abbrev hi : List ℕ
hi = 104 ∷ 105 ∷ []

strcopy_run : strcopy (9 ∷ 9 ∷ 9 ∷ 9 ∷ []) (104 ∷ 105 ∷ 0 ∷ []) ≡ some (2, 104 ∷ 105 ∷ 0 ∷ 9 ∷ [])
unfolding strcopy strcopy_loop
strcopy_run = refl

strcmp-same_example :
    (r : ℤ) × (strcmp (104 ∷ 105 ∷ 0 ∷ []) (104 ∷ 105 ∷ 0 ∷ 7 ∷ []) ≡ some r)
    × ((r ≡ pos 0) ↔ (hi ≡ hi))
strcmp-same_example =
    strcmp-same hi hi [] (7 ∷ []) (omega arith, (omega arith, tt)) (omega arith, (omega arith, tt))

strlen-text_example : strlen (104 ∷ 105 ∷ 0 ∷ []) ≡ some 2
strlen-text_example = strlen-text hi [] (omega arith, (omega arith, tt))

strbufcopy-Copied_example :
    (n : ℕ) × (buf' : List ℕ) × (strbufcopy (9 ∷ 9 ∷ 9 ∷ []) 2 (104 ∷ 105 ∷ 0 ∷ [])
      ≡ some (n, buf'))
    × (n ≤ 2)
    × (n < 2)
    × ((n ≡ 2) ⊎ (suc n ≡ 2))
    × Copied hi (9 ∷ 9 ∷ 9 ∷ []) n buf'
strbufcopy-Copied_example =
    strbufcopy-Copied 2 hi [] (9 ∷ 9 ∷ 9 ∷ []) (omega arith, (omega arith, tt)) (omega arith)
      (omega arith)
