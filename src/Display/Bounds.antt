-- ===== src/Display/Bounds.antt =====
-- Which pixels a string is drawn on.
use native.Mathlib.Nat.{mul-le-mul_right}
use pinyon.Prelude.{
  ℕ, zero, suc, ◌+◌, ◌*◌, ◌/◌, ◌%◌, ◌≤◌, ◌<◌, ◌≡◌, ◌≢◌, refl, ap, ◌∙◌, inl, inr, arith, Bool, false,
  ltb, ltb→le, ◌==◌, Bool-cases, List, [], ◌∷◌,
}
use pinyon.Display.{
  Display, font_width, font_height, draw_pixel, draw_row, draw_rows, draw_character, draw_chars,
  draw_string,
}

-- The geometry of a display of 32-bit pixels, with rows of `stride` of them, on which nothing wraps.
pub record IsGeometry (stride : ℕ) (d : Display) : Type 0 where
  pub depth : d.depth ≡ 32
  pub pitch : d.pitch ≡ 4 * stride
  pub small : (d.width + 19) * d.pitch + d.width < 4294967296
  pub narrow : d.width < 4294967000

-- The same geometry, and the same pixels but in the first `width` columns and the first `width + 19`
-- rows.
pub record IsDrawn (stride : ℕ) (d d' : Display) : Type 0 where
  pub width : d'.width ≡ d.width
  pub geometry : IsGeometry stride d'
  pub others :
      (place : ℕ)
      → ((x y : ℕ) → x < d.width → y < d.width + 19 → place ≢ x + y * stride)
      → d'.pixels place ≡ d.pixels place

IsDrawn-refl : (stride : ℕ) (d : Display) → IsGeometry stride d → IsDrawn stride d d
IsDrawn-refl stride d g = record { width = refl; geometry = g; others = λ place away. refl }

IsDrawn-trans :
    (stride : ℕ) (d d' d'' : Display)
    → IsDrawn stride d d'
    → IsDrawn stride d' d''
    → IsDrawn stride d d''
IsDrawn-trans stride d d' d'' p q = record {
  width = q.width ∙ p.width;
  geometry = q.geometry;
  others = λ place away.
      q.others place (λ x y h k. away x y (omega (arith, h, p.width)) (omega (arith, k, p.width)))
      ∙ p.others place away;
}

draw_pixel-IsDrawn :
    (stride x y color : ℕ) (d : Display)
    → IsGeometry stride d
    → x < d.width
    → y < d.width + 19
    → IsDrawn stride d (draw_pixel x y color d)
unfolding draw_pixel
draw_pixel-IsDrawn stride x y color d g h k =
    let row : y * d.pitch ≤ (d.width + 19) * d.pitch =
      mul-le-mul_right d.pitch (omega (arith, k)) in
    let pitch : y * d.pitch ≡ 4 * (y * stride) = ap (λ (p : ℕ). y * p) g.pitch ∙ omega arith in
    let total : (x + y * d.pitch % 4294967296 / (d.depth / 8)) % 4294967296 ≡ x + y * stride =
      rw g.depth omega (arith, row, pitch, g.small, h) in
    record {
      width = refl;
      geometry = record { depth = g.depth; pitch = g.pitch; small = g.small; narrow = g.narrow };
      others = λ place away.
          let d' : (place == (x + y * d.pitch % 4294967296 / (d.depth / 8)) % 4294967296) ≡ false =
            ground (arith, total, away x y h k) in
          rw d' refl;
    }

module _ (visible : (ch x y : ℕ) → Bool) (stride ch x y color : ℕ) where
  draw_row-IsDrawn :
      (left font_x font_y : ℕ) (d : Display)
      → IsGeometry stride d
      → font_x + left ≡ 8
      → x + 8 ≤ d.width
      → y + font_y < d.width + 19
      → IsDrawn stride d (draw_row visible left font_x font_y ch x y color d)
  unfolding draw_row
  draw_row-IsDrawn zero font_x font_y d g e h k = IsDrawn-refl stride d g
  draw_row-IsDrawn (suc left) font_x font_y d g e h k =
      let px : (x + font_x) % 4294967296 ≡ x + font_x = omega (arith, g.narrow, h, e) in
      let py : (y + font_y) % 4294967296 ≡ y + font_y = omega (arith, g.narrow, k) in
      elim (Bool-cases (visible ch font_x font_y)) [
        | inr hidden ↦ rw hidden (draw_row-IsDrawn left (font_x + 1) font_y d g (omega arith) h k)
        | inl seen ↦
            let p =
              draw_pixel-IsDrawn stride (x + font_x) (y + font_y) color d g (omega (arith, h, e))
                k in
            rw (seen, px, py)
              (IsDrawn-trans stride d (draw_pixel (x + font_x) (y + font_y) color d) _ p (
                draw_row-IsDrawn left (font_x + 1) font_y
                  (draw_pixel (x + font_x) (y + font_y) color d) p.geometry (omega arith)
                  (omega (arith, h, p.width)) (omega (arith, k, p.width))))
      ]

  draw_rows-IsDrawn :
      (left font_y : ℕ) (d : Display)
      → IsGeometry stride d
      → font_y + left ≡ 19
      → x + 8 ≤ d.width
      → y ≤ d.width
      → IsDrawn stride d (draw_rows visible left font_y ch x y color d)
  unfolding draw_rows
  draw_rows-IsDrawn zero font_y d g e h k = IsDrawn-refl stride d g
  draw_rows-IsDrawn (suc left) font_y d g e h k =
      let p = draw_row-IsDrawn 8 0 font_y d g (omega arith) h (omega (arith, e, k)) in
      IsDrawn-trans stride d (draw_row visible 8 0 font_y ch x y color d) _ p (
        draw_rows-IsDrawn left (font_y + 1) (draw_row visible 8 0 font_y ch x y color d) p.geometry
          (omega (arith, e)) (omega (arith, h, p.width)) (omega (arith, k, p.width)))

draw_chars-IsDrawn :
    (visible : (ch x y : ℕ) → Bool) (stride original_x color : ℕ) (string : List ℕ) (x y : ℕ)
    (d : Display)
    → IsGeometry stride d
    → original_x < 4294967000
    → x < 4294967200
    → IsDrawn stride d (draw_chars visible original_x string x y color d)
unfolding draw_chars draw_character
draw_chars-IsDrawn visible stride original_x color [] x y d g o h = IsDrawn-refl stride d g
draw_chars-IsDrawn visible stride original_x color (ch ∷ string) x y d g o h =
    elim (Bool-cases (ch == 10)) [
      | inl newline ↦ rw newline (
          draw_chars-IsDrawn visible stride original_x color string original_x
            ((y + font_height + 2) % 4294967296) d g o (omega (arith, o)))
      | inr other ↦ elim (Bool-cases (ltb d.width ((x + font_width) % 4294967296))) [
        | inl wide ↦
            rw (other, wide) (draw_chars-IsDrawn visible stride original_x color string x y d g o h)
        | inr fits ↦ elim (Bool-cases (ltb d.width y)) [
          | inl low ↦
              rw (other, fits, low)
                (draw_chars-IsDrawn visible stride original_x color string x y d g o h)
          | inr inside ↦
              let p =
                draw_rows-IsDrawn visible stride ch x y color 19 0 d g (omega arith)
                  (omega (arith, h, ltb→le d.width ((x + font_width) % 4294967296) fits))
                  (ltb→le d.width y inside) in
              rw (other, fits, inside)
                (IsDrawn-trans stride d (draw_rows visible 19 0 ch x y color d) _ p (
                  draw_chars-IsDrawn visible stride original_x color string
                    ((x + font_width + 2) % 4294967296) y (draw_rows visible 19 0 ch x y color d)
                    p.geometry o
                    (omega
                      (arith, h, g.narrow, ltb→le d.width ((x + font_width) % 4294967296) fits))))
        ]
      ]
    ]

-- On a display of 32-bit pixels whose rows are `stride` of them and on which nothing wraps, `draw_string`
-- from a column below 4294967000 changes pixels only in the columns below the width and in the
-- rows below the width and 19, whatever the height is and whatever the font shows.
pub draw_string-IsDrawn :
    (visible : (ch x y : ℕ) → Bool) (stride : ℕ) (string : List ℕ) (x y color : ℕ) (d : Display)
    → IsGeometry stride d
    → x < 4294967000
    → IsDrawn stride d (draw_string visible string x y color d)
unfolding draw_string
draw_string-IsDrawn visible stride string x y color d g h =
    draw_chars-IsDrawn visible stride x color string x y d g h (omega (arith, h))
