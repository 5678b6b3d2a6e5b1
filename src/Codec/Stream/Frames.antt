-- ===== src/Codec/Stream/Frames.antt =====
-- Payloads written one after the other, and read back from the stream.
use rust_desk_enhanced.Prelude.{
  ℕ, suc, ◌≤◌, ◌≡◌, refl, sym, ap, ◌∙◌, List, [], ◌∷◌, ◌++◌, false, ok, err, none, some, length,
  arith, length-append, append_assoc, append-nil, Result, All,
}
use rust_desk_enhanced.Codec.{BytesCodec, Buffer, Error, head, decode, encode}
use rust_desk_enhanced.Codec.Header.{Announces, encode_head-Announces}
use rust_desk_enhanced.Codec.RoundTrip.{buffer, decode-Announces}
use rust_desk_enhanced.Codec.Stream.{
  read, read_chunks, read_chunks-read, drain, drain_fuel, join, view, next, framing,
}
use mathlib.Core.List.{flatten}

-- `encode` of several payloads into one buffer, in their order.
pub encode_all : BytesCodec → List (List ℕ) → Buffer → Result Error Buffer
encode_all e [] buf = ok buf
encode_all e (p ∷ ps) buf = elim (encode e p buf) [ ok buf' ↦ encode_all e ps buf' | err x ↦ err x ]

abbrev pub FitsWithin : ℕ → List ℕ → Type 0
FitsWithin m p = (length p ≤ 0x3FFFFFFF) × (length p ≤ m)

next-Announces :
    (m : ℕ) (h p rest : List ℕ)
    → Announces (length p) h
    → length p ≤ m
    → next (framing head m) (h ++ (p ++ rest)) ≡ (ok (some p), framing head m, rest)
unfolding next
next-Announces m h p rest a fits =
    ap view (decode-Announces (framing head m) (length p) h p rest 0 refl refl a refl fits)

read_frame :
    (m : ℕ) (h p rest : List ℕ)
    → Announces (length p) h
    → length p ≤ m
    → read (framing head m) (h ++ (p ++ rest)) ≡ join (p ∷ []) (read (framing head m) rest)
unfolding read drain
read_frame m h p rest a fits = rw (next-Announces m h p rest a fits) (
    ap (join (p ∷ [])) (
      drain_fuel (suc (length (h ++ (p ++ rest)))) (suc (suc (length rest))) head m rest
        (omega (arith, a.nonempty, length-append h (p ++ rest), length-append p rest))
        (omega arith)))

encode-Announces :
    (e : BytesCodec) (p b : List ℕ)
    → e.raw ≡ false
    → length p ≤ 0x3FFFFFFF
    → (h : List ℕ) × (encode e p (buffer b 0) ≡ ok (buffer ((b ++ h) ++ p) 0))
      × Announces (length p) h
unfolding encode
encode-Announces e p b plain len =
    let (h, wrote, a) = encode_head-Announces (length p) len in
    (h, rw (plain, encode) (rw wrote), a)

encode_all-read :
    (e : BytesCodec) (m : ℕ) (ps : List (List ℕ)) (b : List ℕ)
    → e.raw ≡ false
    → All (FitsWithin m) ps
    → (wire : List ℕ) × (encode_all e ps (buffer b 0) ≡ ok (buffer (b ++ wire) 0))
      × ((rest : List ℕ)
          → read (framing head m) (wire ++ rest) ≡ join ps (read (framing head m) rest))
unfolding encode_all
encode_all-read e m [] b plain t =
    ([], ap (λ (x : List ℕ). ok (buffer x 0)) (sym (append-nil b)), λ rest. refl)
encode_all-read e m (p ∷ ps) b plain (f, t) =
    let (h, wrote, a) = encode-Announces e p b plain f.0 in
    let (wire, wrote', reads) = encode_all-read e m ps ((b ++ h) ++ p) plain t in
    (
      h ++ (p ++ wire),
      rw (wrote, encode_all)
          (rw wrote' (rw (append_assoc (b ++ h) p wire) (rw (append_assoc b h (p ++ wire))))),
      λ rest. rw (append_assoc h (p ++ wire) rest) (
          rw (append_assoc p wire rest)
            (read_frame m h p (wire ++ rest) a f.1 ∙ ap (join (p ∷ [])) (reads rest))),
    )

read_nothing :
    (m : ℕ)
    → read (framing head m) []
      ≡ record { frames = []; codec = framing head m; pending = []; error = none }
unfolding read drain next decode
read_nothing m = refl

-- Payloads within the limits are all written, and a reader at a frame boundary that is handed the
-- bytes in any chunks returns the same payloads, in order, without an error and with nothing left.
pub read_chunks-encode_all :
    (e d : BytesCodec) (ps : List (List ℕ))
    → e.raw ≡ false
    → d.raw ≡ false
    → d.state ≡ head
    → All (FitsWithin d.max_packet_length) ps
    → (wire : List ℕ) × (encode_all e ps (buffer [] 0) ≡ ok (buffer wire 0))
      × ((chunks : List (List ℕ))
          → flatten chunks ≡ wire
          → read_chunks (read d []) chunks
            ≡ record { frames = ps; codec = d; pending = []; error = none })
read_chunks-encode_all e d ps plain cooked start t =
    let (wire, wrote, reads) = encode_all-read e d.max_packet_length ps [] plain t in
    (
      wire,
      wrote,
      λ chunks cut.
          read_chunks-read d [] chunks cooked
          ∙ ap (read d) (cut ∙ sym (append-nil wire))
          ∙ ap (λ (c : BytesCodec). read c (wire ++ [])) (sym boundary)
          ∙ reads []
          ∙ ap (join ps) (read_nothing d.max_packet_length)
          ∙ (λ i. record {
            frames = append-nil ps i;
            codec = boundary i;
            pending = [];
            error = none;
          }),
    )
  where
    boundary : framing head d.max_packet_length ≡ d
    boundary = ground arith
