-- ===== src/Vector/Tests.antt =====
-- The first append to a vector of 12-byte items.
use pinyon.Prelude.{ℕ, ◌≡◌, refl, true, some, [], ◌∷◌}
use pinyon.Math.{max}
use pinyon.TwoMath.{align_up_to_power, align_down_to_power, bit_width}
use pinyon.Vector.{align_capacity, resize, ensure, append}

-- Memory for 8 items is allocated, and the capacity says 96.
append_run :
    append {A = ℕ} 12 (λ bytes. some bytes) 5 (record { contents = []; capacity = 0 })
    ≡ (true, record { contents = 5 ∷ []; capacity = 96 })
unfolding append ensure resize align_capacity max align_up_to_power align_down_to_power bit_width
append_run = refl
