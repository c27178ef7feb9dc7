-- ===== src/Display/Tests.antt =====
-- A display of 64 by 48 pixels, and a font of full cells.
use pinyon.Prelude.{ℕ, arith, Bool, true, [], ◌∷◌}
use pinyon.Display.{Display, draw_string}
use pinyon.Display.Bounds.{IsDrawn, draw_string-IsDrawn}

abbrev screen : Display
screen = record {
  width = 64;
  height = 48;
  depth = 32;
  pitch = 256;
  buffer = 16777216;
  size = 12288;
  pixels = λ place. 0;
}

abbrev full : (ch x y : ℕ) → Bool
full ch x y = true

draw_string-IsDrawn_example :
    IsDrawn 64 screen (draw_string full (72 ∷ 105 ∷ 10 ∷ 33 ∷ []) 20 20 2219391 screen)
draw_string-IsDrawn_example =
    draw_string-IsDrawn full 64 (72 ∷ 105 ∷ 10 ∷ 33 ∷ []) 20 20 2219391 screen
      (record {
        depth = omega arith;
        pitch = omega arith;
        small = omega arith;
        narrow = omega arith;
      })
      (omega arith)
