-- ===== src/Display.antt =====
-- Display of kernel/device/bcm2835/display.cpp, on a machine with 32-bit pointers. The mailbox is a
-- function of the message, and the font one of a char and a place in its cell.
pub mod Bounds
mod Tests
use pinyon.Prelude.{
  ℕ, zero, suc, ◌+◌, ◌-◌, ◌*◌, ◌/◌, ◌%◌, Bool, true, false, ◌&&◌, ltb, ◌==◌, if◌then◌else◌, Option,
  none, some, ◌>>=◌, List, [], ◌∷◌,
}

abbrev pub word : ℕ
word = 4294967296

-- font::width and font::height
abbrev pub font_width : ℕ
font_width = 8

abbrev pub font_height : ℕ
font_height = 19

-- The fields of DisplayMailboxMessage that are set or read.
pub record DisplayMailboxMessage : Type 0 where
  pub phys_width : ℕ
  pub phys_height : ℕ
  pub virt_width : ℕ
  pub virt_height : ℕ
  pub depth : ℕ
  pub allocation : ℕ
  pub allocation_size : ℕ
  pub pitch : ℕ

-- `pixels` is the memory behind `m_buffer`, by the index of a word.
pub record Display : Type 0 where
  pub width : ℕ
  pub height : ℕ
  pub depth : ℕ
  pub pitch : ℕ
  pub buffer : ℕ
  pub size : ℕ
  pub pixels : ℕ → ℕ

-- sizeof(m_buffer) * CHAR_BIT
abbrev pub display_depth : ℕ
display_depth = 32

unfoldable pub request : (width height : ℕ) → DisplayMailboxMessage
request width height = record {
  phys_width = width;
  phys_height = height;
  virt_width = width;
  virt_height = height;
  depth = display_depth;
  allocation = 4096;
  allocation_size = 0;
  pitch = 0;
}

-- `none` is a panic; `send` gives none if the mailbox refuses.
unfoldable pub init :
    (send : DisplayMailboxMessage → Option DisplayMailboxMessage) (pixels : ℕ → ℕ)
    (width height : ℕ)
    → Option Display
init send pixels width height = do
  message ← send (request width height)
  if message.phys_width == message.virt_width
        && message.phys_height == message.virt_height
        && message.depth == display_depth
      then some (record {
        width = message.phys_width;
        height = message.phys_height;
        depth = message.depth;
        pitch = message.pitch;
        buffer = message.allocation % 1073741824;
        size = message.allocation_size;
        pixels = pixels;
      })
      else none

unfoldable pub draw_pixel : (x y color : ℕ) → Display → Display
draw_pixel x y color d =
    let bytes_per_pixel = d.depth / 8 in
    let offset = (x + y * d.pitch % word / bytes_per_pixel) % word in
    let pixels = d.pixels in
    record d { pixels = λ place. if place == offset then color else pixels place }

module _ (visible : (ch x y : ℕ) → Bool) where
  -- The loop over `font_x`, of which `left` rounds are left.
  unfoldable pub draw_row : (left font_x font_y ch x y color : ℕ) → Display → Display
  draw_row zero font_x font_y ch x y color d = d
  draw_row (suc left) font_x font_y ch x y color d =
      let drawn =
        if visible ch font_x font_y
        then draw_pixel ((x + font_x) % word) ((y + font_y) % word) color d
        else d in
      draw_row left (font_x + 1) font_y ch x y color drawn

  -- The loop over `font_y`.
  unfoldable pub draw_rows : (left font_y ch x y color : ℕ) → Display → Display
  draw_rows zero font_y ch x y color d = d
  draw_rows (suc left) font_y ch x y color d =
      draw_rows left (font_y + 1) ch x y color (draw_row font_width 0 font_y ch x y color d)

  unfoldable pub draw_character : (ch x y color : ℕ) → Display → Display
  draw_character ch x y color d = draw_rows font_height 0 ch x y color d

  -- The loop over the string, where the line starts at `original_x`.
  unfoldable pub draw_chars : (original_x : ℕ) → List ℕ → (x y color : ℕ) → Display → Display
  draw_chars original_x [] x y color d = d
  draw_chars original_x (ch ∷ string) x y color d =
      let line = draw_chars original_x string original_x ((y + font_height + 2) % word) color d in
      let skipped = draw_chars original_x string x y color d in
      let drawn =
        draw_chars original_x string ((x + font_width + 2) % word) y color
          (draw_character ch x y color d) in
      if ch == 10
      then line
      else if ltb d.width ((x + font_width) % word)
      then skipped
      else if ltb d.width y
      then skipped
      else drawn

  unfoldable pub draw_string : List ℕ → (x y color : ℕ) → Display → Display
  draw_string string x y color d = draw_chars x string x y color d
