-- ===== src/Vnc/Frame.antt =====
-- crates/rd-engine/src/vnc/live.rs: drawing rectangles into the framebuffer, four bytes a pixel.
-- A loop over rows or columns is `repeat`; `break` and `return` both end it, since nothing follows the loops.
use rust_desk_enhanced.Prelude.{
  ℕ, zero, suc, ◌+◌, ◌*◌, ◌/◌, ◌%◌, ◌^◌, max, Option, none, some, List, [], ◌∷◌, ◌++◌, length, take,
  drop, replicate, ltb, leb, if◌then◌else◌, Result, ok, err,
}
use rust_desk_enhanced.Vnc.{VncError, Rectangle, raw_rectangle, copy_rectangle, solid, resize}
use rust_desk_enhanced.Vnc.Pixel.{PixelFormat, bytes_per_pixel, decode_pixel}

-- Where a loop stands: it goes on, or has ended.
pub data Drawing : Type 0 where
  going stopped : List ℕ → Drawing

abbrev pub frame_of : Drawing → List ℕ
frame_of (going frame) = frame
frame_of (stopped frame) = frame

abbrev pub continue : Drawing → (List ℕ → Drawing) → Drawing
continue (going frame) next = next frame
continue (stopped frame) next = stopped frame

-- `for index in …`, with the number of rounds that are left.
unfoldable pub repeat : (ℕ → List ℕ → Drawing) → (left index : ℕ) → List ℕ → Drawing
repeat body zero index frame = going frame
repeat body (suc left) index frame = continue (body index frame) (repeat body left (suc index))

-- `copy_from_slice` into a part of the buffer.
unfoldable pub splice : (start : ℕ) → List ℕ → List ℕ → List ℕ
splice start bytes frame = take start frame ++ bytes ++ drop (start + length bytes) frame

abbrev pub pixel_bytes : ℕ → List ℕ
pixel_bytes rgb = rgb / 2 ^ 16 % 256 ∷ rgb / 2 ^ 8 % 256 ∷ rgb % 256 ∷ 255 ∷ []

unfoldable pub put_pixel : ℕ → List ℕ → Result VncError ℕ → Drawing
put_pixel target frame (err e) = stopped frame
put_pixel target frame (ok rgb) = going (splice target (pixel_bytes rgb) frame)

module _ (width height : ℕ) where
  -- A row that lies in the framebuffer.
  unfoldable pub on_row : (y : ℕ) → (ℕ → List ℕ → Drawing) → ℕ → List ℕ → Drawing
  on_row y body row frame = if leb height (y + row) then stopped frame else body row frame

  unfoldable pub blit_pixel :
      PixelFormat → (x y rect_width : ℕ) → List ℕ → (row column : ℕ) → List ℕ → Drawing
  blit_pixel format x y rect_width pixels row column frame =
      let step = max (bytes_per_pixel format) 1 in
      let source = (row * rect_width + column) * step in
      let target = ((y + row) * width + (x + column)) * 4 in
      if leb width (x + column)
      then going frame
      else if ltb (length pixels) (source + step)
      then stopped frame
      else if ltb (length frame) (target + 4)
      then stopped frame
      else put_pixel target frame (decode_pixel format (drop source pixels))

  unfoldable pub blit_raw :
      PixelFormat → (x y rect_width rect_height : ℕ) → List ℕ → List ℕ → List ℕ
  blit_raw format x y rect_width rect_height pixels frame = frame_of (
      repeat (on_row y (λ row. repeat (blit_pixel format x y rect_width pixels row) rect_width 0))
        rect_height 0 frame)

  -- One row into the staging buffer.
  unfoldable pub stage_row : (rect_width src_x src_y : ℕ) → List ℕ → ℕ → List ℕ → Drawing
  stage_row rect_width src_x src_y frame row staging =
      let start = ((src_y + row) * width + src_x) * 4 in
      if leb height (src_y + row)
      then stopped staging
      else if ltb (length frame) (start + rect_width * 4)
      then stopped staging
      else going
          (splice (row * (rect_width * 4)) (take (rect_width * 4) (drop start frame)) staging)

  -- One row out of it.
  unfoldable pub land_row : (x y rect_width : ℕ) → List ℕ → ℕ → List ℕ → Drawing
  land_row x y rect_width staging row frame =
      let start = ((y + row) * width + x) * 4 in
      if leb height (y + row)
      then stopped frame
      else if ltb (length frame) (start + rect_width * 4)
      then stopped frame
      else going
          (splice start (take (rect_width * 4) (drop (row * (rect_width * 4)) staging)) frame)

  unfoldable pub copy_rect : (x y rect_width rect_height src_x src_y : ℕ) → List ℕ → List ℕ
  copy_rect x y rect_width rect_height src_x src_y frame =
      let staging = frame_of (
        repeat (stage_row rect_width src_x src_y frame) rect_height 0
          (replicate (rect_width * 4 * rect_height) 0)) in
      frame_of (repeat (land_row x y rect_width staging) rect_height 0 frame)

  unfoldable pub fill_pixel : (x y rgb row column : ℕ) → List ℕ → Drawing
  fill_pixel x y rgb row column frame =
      let target = ((y + row) * width + (x + column)) * 4 in
      if leb width (x + column)
      then going frame
      else if ltb (length frame) (target + 4)
      then stopped frame
      else put_pixel target frame (ok rgb)

  unfoldable pub fill_rows : (x y rect_width rect_height : ℕ) → Result VncError ℕ → List ℕ → List ℕ
  fill_rows x y rect_width rect_height (err e) frame = frame
  fill_rows x y rect_width rect_height (ok rgb) frame =
      frame_of (
        repeat (on_row y (λ row. repeat (fill_pixel x y rgb row) rect_width 0)) rect_height 0 frame)

  unfoldable pub fill_solid :
      PixelFormat → (x y rect_width rect_height : ℕ) → List ℕ → List ℕ → List ℕ
  fill_solid format x y rect_width rect_height pixel frame =
      fill_rows x y rect_width rect_height (decode_pixel format pixel) frame

  -- The loop over the rectangles, with the last new size.
  unfoldable pub draw_rectangles :
      PixelFormat → List Rectangle → Option (ℕ × ℕ) → List ℕ → Option (ℕ × ℕ) × List ℕ
  draw_rectangles format [] size frame = (size, frame)
  draw_rectangles format (raw_rectangle x y w h pixels ∷ rest) size frame =
      draw_rectangles format rest size (blit_raw format x y w h pixels frame)
  draw_rectangles format (copy_rectangle x y w h src_x src_y ∷ rest) size frame =
      draw_rectangles format rest size (copy_rect x y w h src_x src_y frame)
  draw_rectangles format (solid x y w h pixel ∷ rest) size frame =
      draw_rectangles format rest size (fill_solid format x y w h pixel frame)
  draw_rectangles format (resize w h ∷ rest) size frame =
      draw_rectangles format rest (some (w, h)) frame

  -- A new size gives a new framebuffer of zeros.
  unfoldable pub reallocated : Option (ℕ × ℕ) → List ℕ → Option (ℕ × ℕ) × List ℕ
  reallocated none frame = (none, frame)
  reallocated (some (w, h)) frame = (some (w, h), replicate (w * h * 4) 0)

  unfoldable pub apply_rectangles : PixelFormat → List Rectangle → List ℕ → Option (ℕ × ℕ) × List ℕ
  apply_rectangles format rectangles frame =
      let (size, drawn) = draw_rectangles format rectangles none frame in reallocated size drawn
