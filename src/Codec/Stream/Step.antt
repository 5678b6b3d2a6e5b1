-- ===== src/Codec/Stream/Step.antt =====
-- One call of `decode` on some bytes, and on the same bytes when more have come.
use rust_desk_enhanced.Prelude.{
  ℕ, suc, ◌≤◌, ◌<◌, ◌≡◌, refl, sym, ◌∙◌, List, ◌++◌, false, ok, err, none, some, length, take, drop,
  arith, ltb, le→ltb_false, lt→ltb, length-append, length-drop, take-append_le, drop-append_le,
  Option, Result, if◌then◌else◌,
}
use native.Mathlib.Decide.{dec_le}
use rust_desk_enhanced.Codec.{
  BytesCodec, Outcome, Error, DecodeState, invalid_data, head, body, decode_head, decode_data,
  decode, after_head, after_data,
}
use rust_desk_enhanced.Codec.RoundTrip.{buffer}
use rust_desk_enhanced.Codec.Stream.Head.{HeadCase, head_case, waits, refuses, reads}

-- What a call of `decode` shows: its result, the codec and the bytes left.
abbrev pub View : Type 0
View = Result Error (Option (List ℕ)) × BytesCodec × List ℕ

abbrev pub view : Outcome → View
view o = (o.result, o.codec, o.src.bytes)

unfoldable pub next : BytesCodec → List ℕ → View
next c bytes = view (decode c (buffer bytes 0))

abbrev body_view : BytesCodec → ℕ → List ℕ → View
body_view c n bytes =
    if ltb (length bytes) n
    then (ok none, c, bytes)
    else (ok (some (take n bytes)), record c { state = head }, drop n bytes)

-- The room that was asked for does not enter.
view-after_data :
    (c : BytesCodec) (n : ℕ) (bytes : List ℕ) (k : ℕ)
    → view (after_data c (decode_data n (buffer bytes k))) ≡ body_view c n bytes
unfolding after_data decode_data
view-after_data c n bytes k = ground arith

-- A codec that frames, with its state and its limit.
abbrev pub framing : DecodeState → ℕ → BytesCodec
framing s m = record { state = s; raw = false; max_packet_length = m }

next_body :
    (n m : ℕ) (bytes : List ℕ)
    → next (framing (body n) m) bytes ≡ body_view (framing (body n) m) n bytes
unfolding next decode
next_body n m bytes = view-after_data (framing (body n) m) n bytes 0

next_head :
    (m : ℕ) (bytes : List ℕ) (r : Result Error (Option ℕ)) (rest : List ℕ) (j : ℕ)
    → decode_head (framing head m) (buffer bytes 0) ≡ (r, buffer rest j)
    → next (framing head m) bytes ≡ view (after_head (framing head m) (r, buffer rest j))
unfolding next decode
next_head m bytes r rest j e = rw e

next_reads :
    (n m : ℕ) (bytes rest : List ℕ) (j : ℕ)
    → decode_head (framing head m) (buffer bytes 0) ≡ (ok (some n), buffer rest j)
    → next (framing head m) bytes ≡ body_view (framing (body n) m) n rest
unfolding after_head
next_reads n m bytes rest j e =
    next_head m bytes (ok (some n)) rest j e ∙ view-after_data (framing (body n) m) n rest j

-- Bytes still to be read, and one more inside a frame: what every frame uses up.
abbrev pub work : DecodeState → List ℕ → ℕ
work head bytes = length bytes
work (body n) bytes = suc (length bytes)

-- One call on some bytes, and on the same bytes when more have come.
pub data Step (s : DecodeState) (m : ℕ) (bytes more : List ℕ) : Type 0 where
  stuck :
      (s' : DecodeState) (rest : List ℕ)
      → next (framing s m) bytes ≡ (ok none, framing s' m, rest)
      → next (framing s m) (bytes ++ more) ≡ next (framing s' m) (rest ++ more)
      → work s' (rest ++ more) ≤ work s (bytes ++ more)
      → Step s m bytes more
  frame :
      (p : List ℕ) (rest : List ℕ)
      → next (framing s m) bytes ≡ (ok (some p), framing head m, rest)
      → next (framing s m) (bytes ++ more) ≡ (ok (some p), framing head m, rest ++ more)
      → work head rest < work s bytes
      → work head (rest ++ more) < work s (bytes ++ more)
      → Step s m bytes more
  fails :
      next (framing s m) bytes ≡ (err invalid_data, framing s m, bytes)
      → next (framing s m) (bytes ++ more) ≡ (err invalid_data, framing s m, bytes ++ more)
      → Step s m bytes more

module _ (c : BytesCodec) (n : ℕ) (bytes : List ℕ) where
  body_view_short : length bytes < n → body_view c n bytes ≡ (ok none, c, bytes)
  body_view_short short = rw (lt→ltb (length bytes) n short)

  body_view_whole :
      n ≤ length bytes
      → body_view c n bytes ≡ (ok (some (take n bytes)), record c { state = head }, drop n bytes)
  body_view_whole whole = rw (le→ltb_false (length bytes) n whole)

  body_view_more :
      (more : List ℕ)
      → n ≤ length bytes
      → body_view c n (bytes ++ more)
        ≡ (ok (some (take n bytes)), record c { state = head }, drop n bytes ++ more)
  body_view_more more whole =
      rw (le→ltb_false (length (bytes ++ more)) n (omega (arith, length-append bytes more)))
        (rw (take-append_le n bytes more whole) (rw (drop-append_le n bytes more whole)))

body-Step : (n m : ℕ) (bytes more : List ℕ) → Step (body n) m bytes more
body-Step n m bytes more = elim (dec_le n (length bytes)) [
  | no short ↦
      stuck (body n) bytes
        (next_body n m bytes ∙ body_view_short (framing (body n) m) n bytes (omega arith)) refl
        (omega arith)
  | yes whole ↦
      frame (take n bytes) (drop n bytes)
        (next_body n m bytes ∙ body_view_whole (framing (body n) m) n bytes whole)
        (next_body n m (bytes ++ more) ∙ body_view_more (framing (body n) m) n bytes more whole)
        (omega (arith, length-drop n bytes))
        (omega
          (arith, length-drop n bytes, length-append (drop n bytes) more, length-append bytes more))
]

read-Step :
    (n m : ℕ) (bytes rest more : List ℕ)
    → next (framing head m) bytes ≡ body_view (framing (body n) m) n rest
    → next (framing head m) (bytes ++ more) ≡ body_view (framing (body n) m) n (rest ++ more)
    → length rest < length bytes
    → Step head m bytes more
read-Step n m bytes rest more e e' lt = elim (dec_le n (length rest)) [
  | no short ↦
      stuck (body n) rest (e ∙ body_view_short (framing (body n) m) n rest (omega arith))
        (e' ∙ sym (next_body n m (rest ++ more)))
        (omega (arith, length-append rest more, length-append bytes more))
  | yes whole ↦
      frame (take n rest) (drop n rest) (e ∙ body_view_whole (framing (body n) m) n rest whole)
        (e' ∙ body_view_more (framing (body n) m) n rest more whole)
        (omega (arith, length-drop n rest))
        (omega
          (arith, length-drop n rest, length-append (drop n rest) more, length-append bytes more))
]

head-Step :
    (m : ℕ) (bytes more : List ℕ) → HeadCase (framing head m) bytes 0 more → Step head m bytes more
unfolding after_head
head-Step m bytes more (waits e) =
    stuck head bytes (next_head m bytes (ok none) bytes 0 e) refl (omega arith)
head-Step m bytes more (refuses e e') =
    fails (next_head m bytes (err invalid_data) bytes 0 e)
      (next_head m (bytes ++ more) (err invalid_data) (bytes ++ more) 0 e')
head-Step m bytes more (reads n rest j j' e e' lt) =
    read-Step n m bytes rest more (next_reads n m bytes rest j e)
      (next_reads n m (bytes ++ more) (rest ++ more) j' e') lt

pub step : (s : DecodeState) (m : ℕ) (bytes more : List ℕ) → Step s m bytes more
step head m bytes more = head-Step m bytes more (head_case (framing head m) bytes 0 more)
step (body n) m bytes more = body-Step n m bytes more
