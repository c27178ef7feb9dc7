-- ===== src/Userspace/Tests.antt =====
-- A program that prints "up %us" of 7.
use pinyon.Prelude.{false, ℕ, ◌≡◌, refl, arith, Option, some, List, [], ◌∷◌, ◌++◌}
use pinyon.Math.{log}
use pinyon.FreeList.{Allocation}
use pinyon.Print.{word}
use pinyon.Print.Directives.{Prints, plain_char, unsigned, done, plain}
use pinyon.Userspace.{Program, printf, free}
use pinyon.Userspace.Prints.{printf-written}

-- The process counts the memory that it has.
abbrev program : Program ℕ
program = record {
  process = 0;
  free_pages = record { size_at = λ address. 0; free_list = [] };
  malloc_stats = record { heap_size = 0; used_size = 0; num_mallocs = 0; num_frees = 0 };
  bytes = λ place. 0;
  written = [];
}

abbrev no_sbrk : ℕ → ℕ → Option (ℕ × ℕ)
no_sbrk increase held = some (0, held)

abbrev buffer : Allocation
buffer = record { ptr = 8192; size = 64 }

abbrev gives_buffer : ℕ → Program ℕ → Option (Allocation × Program ℕ)
gives_buffer n u = some (buffer, u)

abbrev up : List ℕ
up = 117 ∷ 112 ∷ 32 ∷ 37 ∷ 117 ∷ 115 ∷ []

up-Prints : Prints up (word 7 ∷ []) (117 ∷ 112 ∷ 32 ∷ 55 ∷ 115 ∷ [])
unfolding log
up-Prints = plain_char 117 (omega arith) (omega arith) (
    plain_char 112 (omega arith) (omega arith) (
      plain_char 32 (omega arith) (omega arith) (
        unsigned false plain (115 ∷ []) 7 (omega arith)
          (plain_char 115 (omega arith) (omega arith) done))))

printf-written_example :
    (bytes : ℕ → ℕ) × (printf gives_buffer (up ++ (0 ∷ [])) (word 7 ∷ []) program
      ≡ free buffer (record program { bytes = bytes; written = 117 ∷ 112 ∷ 32 ∷ 55 ∷ 115 ∷ [] }))
printf-written_example =
    printf-written gives_buffer up [] (word 7 ∷ []) (117 ∷ 112 ∷ 32 ∷ 55 ∷ 115 ∷ []) program program
      buffer
      (omega arith, (omega arith, (omega arith, (omega arith, (omega arith, (omega arith, tt))))))
      up-Prints (omega arith) (omega arith) refl (omega arith)
