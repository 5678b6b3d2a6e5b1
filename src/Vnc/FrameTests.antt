-- ===== src/Vnc/FrameTests.antt =====
-- Drawing into a small framebuffer, and the theorem at a concrete update.
use rust_desk_enhanced.Prelude.{ℕ, none, List, [], ◌∷◌, ◌++◌, length, replicate, ◌≡◌, refl, some}
use rust_desk_enhanced.Vnc.{raw_rectangle, copy_rectangle, solid, resize}
use rust_desk_enhanced.Vnc.Pixel.{
  preferred_pixel_format, decode_pixel, bytes_per_pixel, colour_of, pack, component, pixel_value,
  fold_bytes,
}
use rust_desk_enhanced.Vnc.Frame.{
  repeat, splice, put_pixel, on_row, blit_pixel, blit_raw, stage_row, land_row, copy_rect,
  fill_pixel, fill_rows, fill_solid, draw_rectangles, reallocated, apply_rectangles,
}
use rust_desk_enhanced.Vnc.FrameBounds.{apply_rectangles-length}

-- Two rows of two pixels.
abbrev blank : List ℕ
blank = replicate 16 0

abbrev red : List ℕ
red = 255 ∷ 0 ∷ 0 ∷ 255 ∷ []

abbrev clear : List ℕ
clear = replicate 4 0

everything : Unit {0}
unfolding repeat splice put_pixel on_row blit_pixel blit_raw stage_row land_row copy_rect fill_pixel
    fill_rows fill_solid draw_rectangles reallocated apply_rectangles decode_pixel bytes_per_pixel
    colour_of pack component pixel_value fold_bytes
everything = tt

-- A raw pixel, sent as blue, green, red, is drawn in the right corner of the second row.
raw_red :
    apply_rectangles 2 2 preferred_pixel_format
      (raw_rectangle 1 1 1 1 (0 ∷ 0 ∷ 255 ∷ 0 ∷ []) ∷ [])
      blank
    ≡ (none, clear ++ clear ++ clear ++ red)
unfolding everything
raw_red = refl

-- A solid rectangle is clipped to the framebuffer.
solid_red :
    apply_rectangles 2 2 preferred_pixel_format (solid 1 0 9 9 (0 ∷ 0 ∷ 255 ∷ 0 ∷ []) ∷ []) blank
    ≡ (none, clear ++ red ++ clear ++ red)
unfolding everything
solid_red = refl

-- A copy is not: what does not fit into the row lands in the next one.
copy_wraps :
    apply_rectangles 2 2 preferred_pixel_format
      (copy_rectangle 1 0 2 1 0 0 ∷ [])
      (red ++ red ++ clear ++ clear)
    ≡ (none, red ++ red ++ red ++ clear)
unfolding everything
copy_wraps = refl

apply_rectangles-length_example :
    ((apply_rectangles 2 2 preferred_pixel_format
        (copy_rectangle 1 0 2 1 0 0 ∷ resize 3 2 ∷ [])
        (red ++ red ++ clear ++ clear)).0
      ≡ some (3, 2))
    × (length
          (apply_rectangles 2 2 preferred_pixel_format
            (copy_rectangle 1 0 2 1 0 0 ∷ resize 3 2 ∷ [])
            (red ++ red ++ clear ++ clear)).1
        ≡ 24)
unfolding everything
apply_rectangles-length_example =
    apply_rectangles-length 2 2 preferred_pixel_format
      (copy_rectangle 1 0 2 1 0 0 ∷ resize 3 2 ∷ []) (red ++ red ++ clear ++ clear) refl
