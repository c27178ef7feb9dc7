-- ===== src/FreeList/Tests.antt =====
-- Runs of the free list with one block of 256 bytes at 4096.
use pinyon.Prelude.{◌==◌, if◌then◌else◌, ◌≡◌, refl, arith, [], ◌∷◌}
use pinyon.TwoMath.{align_up_two}
use pinyon.FreeList.{
  FreeList, Allocation, to_node_ptr, allocate, free, min_allocation_size, preferred_size,
}
use pinyon.FreeList.Allocate.{IsApart, TakenBlock, allocate-TakenBlock}
use pinyon.FreeList.Free.{FreedBlock, free-FreedBlock}

abbrev nothing : FreeList
nothing = record { size_at = λ _. 0; free_list = [] }

abbrev one_block : FreeList
one_block = record { size_at = λ p. if p == 4096 then 240 else 0; free_list = 4096 ∷ [] }

one_block-IsApart : IsApart one_block
one_block-IsApart = record { once = λ byte. ground arith; in_space = λ byte h. ground arith }

-- A block is given out beside the free one.
abbrev given_out : FreeList
given_out = record {
  size_at = λ p. if p == 4096 then 48 else if p == 4160 then 32 else 0;
  free_list = 4096 ∷ [];
}

given_out-IsApart : IsApart given_out
given_out-IsApart = record { once = λ byte. ground arith; in_space = λ byte h. ground arith }

abbrev handed : Allocation
handed = record { ptr = 4176; size = 32 }

allocate-TakenBlock_example : TakenBlock 100 one_block (allocate 100 one_block)
allocate-TakenBlock_example = allocate-TakenBlock 100 one_block one_block-IsApart

free-FreedBlock_example : FreedBlock 4160 given_out (free handed given_out)
unfolding to_node_ptr
free-FreedBlock_example =
    free-FreedBlock handed given_out given_out-IsApart (λ byte. ground arith) (omega arith)

preferred_size_run : preferred_size 100 ≡ 4096
unfolding preferred_size min_allocation_size align_up_two
preferred_size_run = refl
