-- ===== src/Print/Tests.antt =====
-- "up %us" of 72.
use pinyon.Prelude.{false, ℕ, suc, ◌+◌, ◌≡◌, arith, some, List, [], ◌∷◌, ◌++◌, length, replicate}
use pinyon.Math.{log}
use pinyon.Print.{word, vsbufprintf}
use pinyon.Print.Directives.{Prints, plain_char, unsigned, done, plain}
use pinyon.Print.Prefix.{vsbufprintf-take}

abbrev up : List ℕ
up = 117 ∷ 112 ∷ 32 ∷ 37 ∷ 117 ∷ 115 ∷ []

abbrev up_72 : List ℕ
up_72 = 117 ∷ 112 ∷ 32 ∷ 55 ∷ 50 ∷ 115 ∷ []

up-Prints : Prints up (word 72 ∷ []) up_72
unfolding log
up-Prints = plain_char 117 (omega arith) (omega arith) (
    plain_char 112 (omega arith) (omega arith) (
      plain_char 32 (omega arith) (omega arith) (
        unsigned false plain (115 ∷ []) 72 (omega arith)
          (plain_char 115 (omega arith) (omega arith) done))))

vsbufprintf-take_example :
    (rest : List ℕ) × (vsbufprintf (replicate 8 9) 5 (up ++ (0 ∷ [])) (word 72 ∷ [])
      ≡ some (4, 117 ∷ 112 ∷ 32 ∷ 55 ∷ 0 ∷ rest))
    × (suc (4 + length rest) ≡ 8)
vsbufprintf-take_example =
    vsbufprintf-take (replicate 8 9) 5 up [] (word 72 ∷ []) up_72
      (omega arith, (omega arith, (omega arith, (omega arith, (omega arith, (omega arith, tt))))))
      (omega arith) (omega arith) (omega arith) up-Prints
