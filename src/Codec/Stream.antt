-- ===== src/Codec/Stream.antt =====
-- A reader of the stream: it calls `decode` until no whole frame is left, then waits for more bytes.
-- This is how a framed transport drives the codec; the transport itself is not part of the source.
mod Head
mod Step
pub mod Frames
use rust_desk_enhanced.Prelude.{
  ℕ, zero, suc, ◌+◌, ◌≤◌, ◌<◌, ◌≡◌, refl, sym, ap, ◌∙◌, List, [], ◌∷◌, ◌++◌, true, false, ok, err,
  none, some, length, arith, length-append, append_assoc, append-nil, Option, Result, leb, All,
}
use rust_desk_enhanced.Codec.{BytesCodec, Buffer, Error, DecodeState, head, body, encode}
use rust_desk_enhanced.Codec.Header.{Announces, encode_head-Announces}
use rust_desk_enhanced.Codec.RoundTrip.{buffer, decode-Announces}
use mathlib.Core.List.{flatten}
unfoldable pub use Step.{framing, view, next, work}
use Step.{View, next, framing, work, step, stuck, frame, fails, view}

-- The frames so far, and where the reader stands. After an error nothing more is decoded.
pub record Reading : Type 0 where
  pub frames : List (List ℕ)
  pub codec : BytesCodec
  pub pending : List ℕ
  pub error : Option Error

abbrev pub join : List (List ℕ) → Reading → Reading
join ps r = record r { frames = ps ++ r.frames }

-- What a call of `decode` means to the loop.
abbrev pub settle : (BytesCodec → List ℕ → Reading) → View → Reading
settle again (ok (some p), c, rest) = join (p ∷ []) (again c rest)
settle again (ok none, c, rest) = record { frames = []; codec = c; pending = rest; error = none }
settle again (err e, c, rest) = record { frames = []; codec = c; pending = rest; error = some e }

pub drain : ℕ → BytesCodec → List ℕ → Reading
drain zero c bytes = record { frames = []; codec = c; pending = bytes; error = none }
drain (suc f) c bytes = settle (drain f) (next c bytes)

-- Each frame takes a byte at least, but the payload of a frame that has begun may be empty.
pub read : BytesCodec → List ℕ → Reading
unfolding drain
read c bytes = drain (suc (suc (length bytes))) c bytes

pub read_more : Reading → List ℕ → Reading
read_more r chunk = elim r.error [
  | none ↦ join r.frames (read r.codec (r.pending ++ chunk))
  | some e ↦ record r { pending = r.pending ++ chunk }
]

pub read_chunks : Reading → List (List ℕ) → Reading
read_chunks r [] = r
read_chunks r (chunk ∷ chunks) = read_chunks (read_more r chunk) chunks

pub drain_fuel :
    (f g : ℕ) (s : DecodeState) (m : ℕ) (bytes : List ℕ)
    → work s bytes < f
    → work s bytes < g
    → drain f (framing s m) bytes ≡ drain g (framing s m) bytes
unfolding drain
drain_fuel zero g s m bytes p q = absurd (omega arith)
drain_fuel (suc f) zero s m bytes p q = absurd (omega arith)
drain_fuel (suc f) (suc g) s m bytes p q = elim (step s m bytes []) [
  | stuck s' rest e _ _ ↦ rw e
  | frame x rest e _ lt _ ↦
      rw e (ap (join (x ∷ [])) (drain_fuel f g head m rest (omega arith) (omega arith)))
  | fails e _ ↦ rw e
]

read_more-join :
    (p : List ℕ) (r : Reading) (more : List ℕ)
    → read_more (join (p ∷ []) r) more ≡ join (p ∷ []) (read_more r more)
unfolding read_more
read_more-join p r more = ground arith

pub work-le : (s : DecodeState) (bytes : List ℕ) → work s bytes ≤ suc (length bytes)
work-le head bytes = omega arith
work-le (body n) bytes = omega arith

drain-append :
    (f g : ℕ) (s : DecodeState) (m : ℕ) (bytes more : List ℕ)
    → work s bytes < f
    → work s (bytes ++ more) < g
    → drain g (framing s m) (bytes ++ more) ≡ read_more (drain f (framing s m) bytes) more
unfolding drain read_more read
drain-append zero g s m bytes more p q = absurd (omega arith)
drain-append (suc f) zero s m bytes more p q = absurd (omega arith)
drain-append (suc f) (suc g) s m bytes more p q = elim (step s m bytes more) [
  | stuck s' rest e e' le ↦ rw e (
      rw e' (
        drain_fuel (suc g) (suc (suc (length (rest ++ more)))) s' m (rest ++ more) (omega arith)
          (omega (arith, work-le s' (rest ++ more)))))
  | frame x rest e e' lt lt' ↦ rw e (
      rw e' (
        ap (join (x ∷ [])) (drain-append f g head m rest more (omega arith) (omega arith))
        ∙ sym (read_more-join x (drain f (framing head m) rest) more)))
  | fails e e' ↦ rw e (rw e')
]

read-append :
    (s : DecodeState) (m : ℕ) (bytes more : List ℕ)
    → read_more (read (framing s m) bytes) more ≡ read (framing s m) (bytes ++ more)
unfolding read
read-append s m bytes more = sym (
    drain-append (suc (suc (length bytes))) (suc (suc (length (bytes ++ more)))) s m bytes more
      (omega (arith, work-le s bytes)) (omega (arith, work-le s (bytes ++ more))))

read_chunks-framing :
    (s : DecodeState) (m : ℕ) (bytes : List ℕ) (chunks : List (List ℕ))
    → read_chunks (read (framing s m) bytes) chunks ≡ read (framing s m) (bytes ++ flatten chunks)
unfolding read_chunks flatten
read_chunks-framing s m bytes [] = ap (read (framing s m)) (sym (append-nil bytes))
read_chunks-framing s m bytes (chunk ∷ chunks) = rw (read-append s m bytes chunk) (
    read_chunks-framing s m (bytes ++ chunk) chunks
    ∙ ap (read (framing s m)) (append_assoc bytes chunk (flatten chunks)))

pub framing_lem : (c : BytesCodec) → c.raw ≡ false → framing c.state c.max_packet_length ≡ c
framing_lem c cooked = ground arith

-- A framing reader that takes the bytes of a stream in chunks ends as one that takes them all at
-- once: with the same frames, the same codec, the same bytes pending and the same error, however
-- the stream was cut.
pub read_chunks-read :
    (c : BytesCodec) (bytes : List ℕ) (chunks : List (List ℕ))
    → c.raw ≡ false
    → read_chunks (read c bytes) chunks ≡ read c (bytes ++ flatten chunks)
read_chunks-read c bytes chunks cooked =
    rw (framing_lem c cooked) at (read_chunks-framing c.state c.max_packet_length bytes chunks)
