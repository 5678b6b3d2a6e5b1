-- ===== src/Vnc/FrameBounds.antt =====
-- crates/rd-engine/src/vnc/live.rs: the length of the framebuffer through an update.
use rust_desk_enhanced.Prelude.{
  refl, ap, ℕ, zero, suc, ◌+◌, ◌*◌, ◌≤◌, max, false, Option, none, some, List, [], ◌∷◌, ◌++◌,
  length, take, drop, ltb, leb, Result, ok, err, ◌≡◌, ◌∙◌, arith, length-append, length-take,
  length-drop, length-replicate, if-both,
}
use rust_desk_enhanced.Vnc.{VncError, Rectangle, raw_rectangle, copy_rectangle, solid, resize}
use rust_desk_enhanced.Vnc.Pixel.{PixelFormat, bytes_per_pixel, decode_pixel}
use rust_desk_enhanced.Vnc.Frame.{
  Drawing, going, stopped, frame_of, continue, repeat, splice, pixel_bytes, put_pixel, on_row,
  blit_pixel, blit_raw, land_row, copy_rect, fill_pixel, fill_rows, fill_solid, draw_rectangles,
  reallocated, apply_rectangles,
}

-- The buffer has this length.
abbrev Has : ℕ → Drawing → Type 0
Has n d = length (frame_of d) ≡ n

-- A round keeps the length.
abbrev Keeps : ℕ → (List ℕ → Drawing) → Type 0
Keeps n body = (frame : List ℕ) → length frame ≡ n → Has n (body frame)

length-splice :
    (start : ℕ) (bytes frame : List ℕ)
    → start + length bytes ≤ length frame
    → length (splice start bytes frame) ≡ length frame
unfolding splice
length-splice start bytes frame h = omega (
  arith,
  h,
  length-append (take start frame ++ bytes) (drop (start + length bytes) frame),
  length-append (take start frame) bytes,
  length-take start frame,
  length-drop (start + length bytes) frame,
)

continue-Has :
    (n : ℕ) (d : Drawing) (next : List ℕ → Drawing)
    → Has n d
    → Keeps n next
    → Has n (continue d next)
continue-Has n (going frame) next h k = k frame h
continue-Has n (stopped frame) next h k = h

repeat-Keeps :
    (n : ℕ) (body : ℕ → List ℕ → Drawing) (left index : ℕ)
    → ((i : ℕ) → Keeps n (body i))
    → Keeps n (repeat body left index)
unfolding repeat
repeat-Keeps n body zero index k frame h = h
repeat-Keeps n body (suc left) index k frame h =
    continue-Has n (body index frame) (repeat body left (suc index)) (k index frame h)
      (repeat-Keeps n body left (suc index) k)

put_pixel-Has :
    (n target : ℕ) (frame : List ℕ) (r : Result VncError ℕ)
    → length frame ≡ n
    → target + 4 ≤ n
    → Has n (put_pixel target frame r)
unfolding put_pixel
put_pixel-Has n target frame (err e) h b = h
put_pixel-Has n target frame (ok rgb) h b =
    length-splice target (pixel_bytes rgb) frame (omega (arith, h, b)) ∙ h

fits : (a b : ℕ) → ltb a b ≡ false → b ≤ a
fits a b e = ground (arith, e)

module _ (width height : ℕ) where
  on_row-Keeps :
      (n y : ℕ) (body : ℕ → List ℕ → Drawing)
      → ((i : ℕ) → Keeps n (body i))
      → (i : ℕ) → Keeps n (on_row width height y body i)
  unfolding on_row
  on_row-Keeps n y body k i frame h =
      if-both (Has n) (leb height (y + i)) (λ _. h) (λ _. k i frame h)

  blit_pixel-Keeps :
      (n : ℕ) (format : PixelFormat) (x y rect_width : ℕ) (pixels : List ℕ) (row column : ℕ)
      → Keeps n (blit_pixel width height format x y rect_width pixels row column)
  unfolding blit_pixel
  blit_pixel-Keeps n format x y rect_width pixels row column frame h =
      let target = ((y + row) * width + (x + column)) * 4 in
      if-both (Has n) (leb width (x + column)) (λ _. h)
        (λ _.
          if-both (Has n)
            (ltb (length pixels) (
              (row * rect_width + column) * max (bytes_per_pixel format) 1
              + max (bytes_per_pixel format) 1))
            (λ _. h)
            (λ _.
              if-both (Has n) (ltb (length frame) (target + 4)) (λ _. h)
                (λ b.
                  put_pixel-Has n target frame _ h
                    (omega (arith, fits (length frame) (target + 4) b, h)))))

  fill_pixel-Keeps :
      (n x y rgb row column : ℕ) → Keeps n (fill_pixel width height x y rgb row column)
  unfolding fill_pixel
  fill_pixel-Keeps n x y rgb row column frame h =
      let target = ((y + row) * width + (x + column)) * 4 in
      if-both (Has n) (leb width (x + column)) (λ _. h)
        (λ _.
          if-both (Has n) (ltb (length frame) (target + 4)) (λ _. h)
            (λ b.
              put_pixel-Has n target frame (ok rgb) h
                (omega (arith, fits (length frame) (target + 4) b, h))))

  land_row-Keeps :
      (n x y rect_width : ℕ) (staging : List ℕ) (row : ℕ)
      → Keeps n (land_row width height x y rect_width staging row)
  unfolding land_row
  land_row-Keeps n x y rect_width staging row frame h =
      let start = ((y + row) * width + x) * 4 in
      let bytes = take (rect_width * 4) (drop (row * (rect_width * 4)) staging) in
      if-both (Has n) (leb height (y + row)) (λ _. h)
        (λ _.
          if-both (Has n) (ltb (length frame) (start + rect_width * 4)) (λ _. h)
            (λ b.
              length-splice start bytes frame (
                omega (
                  arith,
                  fits (length frame) (start + rect_width * 4) b,
                  length-take (rect_width * 4) (drop (row * (rect_width * 4)) staging),
                ))
              ∙ h))

  blit_raw-length :
      (n : ℕ) (format : PixelFormat) (x y rect_width rect_height : ℕ) (pixels frame : List ℕ)
      → length frame ≡ n
      → length (blit_raw width height format x y rect_width rect_height pixels frame) ≡ n
  unfolding blit_raw
  blit_raw-length n format x y rect_width rect_height pixels frame h =
      repeat-Keeps n _ rect_height 0
        (on_row-Keeps n y _ (λ row.
          repeat-Keeps n _ rect_width 0 (blit_pixel-Keeps n format x y rect_width pixels row)))
        frame h

  copy_rect-length :
      (n x y rect_width rect_height src_x src_y : ℕ) (frame : List ℕ)
      → length frame ≡ n
      → length (copy_rect width height x y rect_width rect_height src_x src_y frame) ≡ n
  unfolding copy_rect
  copy_rect-length n x y rect_width rect_height src_x src_y frame h =
      repeat-Keeps n _ rect_height 0 (land_row-Keeps n x y rect_width _) frame h

  fill_rows-length :
      (n x y rect_width rect_height : ℕ) (r : Result VncError ℕ) (frame : List ℕ)
      → length frame ≡ n
      → length (fill_rows width height x y rect_width rect_height r frame) ≡ n
  unfolding fill_rows
  fill_rows-length n x y rect_width rect_height (err e) frame h = h
  fill_rows-length n x y rect_width rect_height (ok rgb) frame h =
      repeat-Keeps n _ rect_height 0
        (on_row-Keeps n y _ (λ row. repeat-Keeps n _ rect_width 0 (fill_pixel-Keeps n x y rgb row)))
        frame h

  draw_rectangles-length :
      (n : ℕ) (format : PixelFormat) (rectangles : List Rectangle) (size : Option (ℕ × ℕ))
      (frame : List ℕ)
      → length frame ≡ n
      → length ((draw_rectangles width height format rectangles size frame).1) ≡ n
  unfolding draw_rectangles fill_solid
  draw_rectangles-length n format [] size frame h = h
  draw_rectangles-length n format (raw_rectangle x y w k pixels ∷ rest) size frame h =
      draw_rectangles-length n format rest size _ (blit_raw-length n format x y w k pixels frame h)
  draw_rectangles-length n format (copy_rectangle x y w k src_x src_y ∷ rest) size frame h =
      draw_rectangles-length n format rest size _ (copy_rect-length n x y w k src_x src_y frame h)
  draw_rectangles-length n format (solid x y w k pixel ∷ rest) size frame h =
      draw_rectangles-length n format rest size _
        (fill_rows-length n x y w k (decode_pixel format pixel) frame h)
  draw_rectangles-length n format (resize w k ∷ rest) size frame h =
      draw_rectangles-length n format rest (some (w, k)) frame h

  -- The bytes that the framebuffer of an answer has.
  abbrev pub size_after : Option (ℕ × ℕ) → ℕ
  size_after none = width * height * 4
  size_after (some (w, h)) = w * h * 4

  reallocated-length :
      (size : Option (ℕ × ℕ)) (frame : List ℕ)
      → length frame ≡ width * height * 4
      → length ((reallocated width height size frame).1)
        ≡ size_after ((reallocated width height size frame).0)
  unfolding reallocated
  reallocated-length none frame h = h
  reallocated-length (some (w, k)) frame h = length-replicate (w * k * 4) 0

  -- The size that the last resize of an update asks for.
  abbrev pub last_size : Option (ℕ × ℕ) → List Rectangle → Option (ℕ × ℕ)
  last_size size [] = size
  last_size size (resize w h ∷ rest) = last_size (some (w, h)) rest
  last_size size (_ ∷ rest) = last_size size rest

  draw_rectangles-last_size :
      (format : PixelFormat) (rectangles : List Rectangle) (size : Option (ℕ × ℕ)) (frame : List ℕ)
      → (draw_rectangles width height format rectangles size frame).0 ≡ last_size size rectangles
  unfolding draw_rectangles
  draw_rectangles-last_size format [] size frame = refl
  draw_rectangles-last_size format (raw_rectangle x y w k pixels ∷ rest) size frame =
      draw_rectangles-last_size format rest size _
  draw_rectangles-last_size format (copy_rectangle x y w k src_x src_y ∷ rest) size frame =
      draw_rectangles-last_size format rest size _
  draw_rectangles-last_size format (solid x y w k pixel ∷ rest) size frame =
      draw_rectangles-last_size format rest size _
  draw_rectangles-last_size format (resize w k ∷ rest) size frame =
      draw_rectangles-last_size format rest (some (w, k)) frame

  reallocated-size :
      (size : Option (ℕ × ℕ)) (frame : List ℕ) → (reallocated width height size frame).0 ≡ size
  unfolding reallocated
  reallocated-size none frame = refl
  reallocated-size (some (w, k)) frame = refl

  -- Whatever rectangles a server sends: the size that an update answers is that of its last resize, none when it has
  -- none; and a framebuffer of four bytes a pixel is again one, of that size or else of the old one.
  pub apply_rectangles-length :
      (format : PixelFormat) (rectangles : List Rectangle) (frame : List ℕ)
      → length frame ≡ width * height * 4
      → ((apply_rectangles width height format rectangles frame).0 ≡ last_size none rectangles)
        × (length ((apply_rectangles width height format rectangles frame).1)
            ≡ size_after (last_size none rectangles))
  unfolding apply_rectangles
  apply_rectangles-length format rectangles frame h =
      let drawn = draw_rectangles width height format rectangles none frame in
      let same =
        reallocated-size drawn.0 drawn.1 ∙ draw_rectangles-last_size format rectangles none frame in
      (
        same,
        reallocated-length drawn.0 drawn.1
              (draw_rectangles-length (width * height * 4) format rectangles none frame h)
            ∙ ap size_after same,
      )
