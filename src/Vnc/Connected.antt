-- ===== src/Vnc/Connected.antt =====
-- crates/rd-engine/src/vnc/mod.rs: what holds of a session once it is connected.
use rust_desk_enhanced.Prelude.{
  ◌++◌, length, leb, to_u32, ℕ, ◌*◌, ◌<◌, ◌≤◌, true, false, ◌||◌, Option, List, [], ◌∷◌, take, drop,
  get_or, ltb, ◌==◌, ok, ◌≡◌, ◌≢◌, inl, inr, refl, sym, ap, ◌∙◌, arith, if-both, Bool-cases, OnOk,
  OnOk-and_then_ok, OnOk-any, OnOk-implies,
}
use mathlib.Core.Path.{subst}
use rust_desk_enhanced.Vnc.{raw, encoding_code}
use rust_desk_enhanced.Vnc.Bytes.{from_u16_be}
use rust_desk_enhanced.Vnc.Pixel.{PixelFormat, preferred_pixel_format, encode, decode}
use rust_desk_enhanced.Vnc.Client.{encode_set_pixel_format, encode_set_encodings}
use rust_desk_enhanced.Vnc.Banner.{
  Utf8, parse_banner, answer_to, version_text, protocol_version_3_3,
}
use rust_desk_enhanced.Vnc.Session.{
  ServerInfo, VncSession, read, write, number_of, negotiate_security, announce, on_format,
  on_header, initialise, on_version, handshake, connect_inner, max_framebuffer_pixels,
}
use rust_desk_enhanced.Vnc.Negotiation.{
  HasRead, read-HasRead, Wrote, write-Wrote, written_after, wanted, wanted_code, Negotiated,
  negotiate_security-Negotiated,
}

-- A framebuffer that has pixels.
abbrev pub HasPixels : ServerInfo → Type 0
HasPixels info = (0 < info.width) × (0 < info.height)

-- What the initialisation finds out: a framebuffer that has pixels and is not too large. The rest is as before.
abbrev pub FoundOut : ServerInfo → ServerInfo → Type 0
FoundOut before info =
    HasPixels info
    × (info.width * info.height ≤ max_framebuffer_pixels)
    × (info.security ≡ before.security)
    × (info.version ≡ before.version)
    × (info.negotiated_version ≡ before.negotiated_version)

-- The settings that end the connection's start: the pixel format, and one encoding, raw.
abbrev pub settings : List ℕ
settings =
    (0 ∷ 0 ∷ 0 ∷ 0 ∷ 32 ∷ 24 ∷ 0 ∷ 1 ∷ 0 ∷ 255 ∷ 0 ∷ 255 ∷ 0 ∷ 255 ∷ 16 ∷ 8 ∷ 0 ∷ 0 ∷ 0 ∷ 0 ∷ [])
    ++ (2 ∷ 0 ∷ 0 ∷ 1 ∷ 0 ∷ 0 ∷ 0 ∷ 0 ∷ [])

unfoldable pub Initialised : VncSession → VncSession → Type 0
Initialised before s = FoundOut before.info s.info × (s.outgoing ≡ before.outgoing ++ settings)

Announced : ServerInfo → List ℕ → VncSession → Type 0
Announced info before s = (s.info ≡ info) × (s.outgoing ≡ before ++ settings)

format_bytes :
    encode_set_pixel_format preferred_pixel_format
    ≡ (0 ∷ 0 ∷ 0 ∷ 0 ∷ 32 ∷ 24 ∷ 0 ∷ 1 ∷ 0 ∷ 255 ∷ 0 ∷ 255 ∷ 0 ∷ 255 ∷ 16 ∷ 8 ∷ 0 ∷ 0 ∷ 0 ∷ 0 ∷ [])
unfolding encode_set_pixel_format encode
format_bytes = refl

encodings_bytes : encode_set_encodings (raw ∷ []) ≡ ok (2 ∷ 0 ∷ 0 ∷ 1 ∷ 0 ∷ 0 ∷ 0 ∷ 0 ∷ [])
unfolding encode_set_encodings encoding_code to_u32
encodings_bytes = refl

announce-Announced :
    (info : ServerInfo) (s : VncSession) → OnOk (Announced info s.outgoing) (announce info s)
unfolding announce Announced
announce-Announced info s =
    rw (format_bytes, encodings_bytes)
      (OnOk-and_then_ok (Wrote (take 20 settings) (record s { info = info }))
        (Announced info s.outgoing) (write (take 20 settings) (record s { info = info })) _
        (write-Wrote (take 20 settings) (record s { info = info }))
        (λ s' (k, w).
          OnOk-implies (Wrote (drop 20 settings) (record s' { encodings = raw ∷ [] }))
            (Announced info s.outgoing)
            (write (drop 20 settings) (record s' { encodings = raw ∷ [] }))
            (write-Wrote (drop 20 settings) (record s' { encodings = raw ∷ [] }))
            (λ t (l, x). (
              l ∙ k,
              written_after s.outgoing s'.outgoing t.outgoing (take 20 settings) (drop 20 settings)
                  w x,
            ))))

answer_to-older : (minor : ℕ) → ltb minor 7 ≡ true → answer_to minor ≡ protocol_version_3_3
unfolding answer_to
answer_to-older minor e = ground (arith, e)

answer_to-newer :
    (minor : ℕ)
    → version_text (answer_to minor) ≢ version_text protocol_version_3_3
    → ltb minor 7 ≡ false
answer_to-newer minor n = elim (Bool-cases (ltb minor 7)) [
  | inl older ↦ absurd (n (ap version_text (answer_to-older minor older)))
  | inr newer ↦ newer
]

module _ (utf8 : Utf8) where
  on_format-Initialised :
      (width height name_length : ℕ) (format : PixelFormat) (s : VncSession)
      → (0 < width) × (0 < height) × (width * height ≤ max_framebuffer_pixels)
      → OnOk (Initialised s) (on_format utf8 width height name_length format s)
  unfolding on_format Initialised OnOk Announced
  on_format-Initialised width height name_length format s (w, h, a) =
      if-both (OnOk (Initialised s)) (ltb 4096 name_length) (λ _. tt)
        (λ _.
          OnOk-and_then_ok (HasRead s) (Initialised s) (read name_length s) _
            (read-HasRead name_length s)
            (λ (name, s') (k, silent).
              let info : ServerInfo = record s'.info {
                width = width;
                height = height;
                name = utf8.lossy name;
                format = format;
              } in
              OnOk-implies (Announced info s'.outgoing) (Initialised s) (announce info s')
                (announce-Announced info s')
                (λ t (e, f). (
                  subst (FoundOut s.info) (sym e) (
                    (w, h),
                    a,
                    ap (λ (i : ServerInfo). i.security) k,
                    ap (λ (i : ServerInfo). i.version) k,
                    ap (λ (i : ServerInfo). i.negotiated_version) k,
                  ),
                  f ∙ ap (λ o. o ++ settings) silent,
                ))))

  pixels : (w h : ℕ) → (w == 0 || h == 0) ≡ false → (0 < w) × (0 < h)
  pixels w h e = ground (arith, e)

  bounded : (a : ℕ) → ltb max_framebuffer_pixels a ≡ false → a ≤ max_framebuffer_pixels
  bounded a e = ground (arith, e)

  on_header-Initialised :
      (header : List ℕ) (s : VncSession) → OnOk (Initialised s) (on_header utf8 header s)
  unfolding on_header OnOk
  on_header-Initialised header s =
      let width = from_u16_be (get_or header 0 0) (get_or header 1 0) in
      let height = from_u16_be (get_or header 2 0) (get_or header 3 0) in
      if-both (OnOk (Initialised s)) (width == 0 || height == 0) (λ _. tt)
        (λ some_pixels.
          if-both (OnOk (Initialised s)) (ltb max_framebuffer_pixels (width * height)) (λ _. tt)
            (λ few.
              let (w, h) = pixels width height some_pixels in
              OnOk-and_then_ok (λ _. Unit {0}) (Initialised s) (decode (take 16 (drop 4 header))) _
                (OnOk-any (decode (take 16 (drop 4 header))))
                (λ format _.
                  on_format-Initialised width height (number_of (drop 20 header)) format s
                    (w, h, bounded (width * height) few))))

  Initialised-read :
      {A : Type 0} (s s' t : VncSession) (a : A)
      → HasRead s (a, s')
      → Initialised s' t
      → Initialised s t
  unfolding Initialised
  Initialised-read s s' t a (e, f) (found, w) =
      (subst (λ i. FoundOut i t.info) e found, w ∙ ap (λ o. o ++ settings) f)

  initialise-Initialised : (s : VncSession) → OnOk (Initialised s) (initialise utf8 s)
  unfolding initialise
  initialise-Initialised s =
      OnOk-and_then_ok (HasRead s) (Initialised s) (read 24 s) _ (read-HasRead 24 s)
        (λ (header, s') k.
          OnOk-implies (Initialised s') (Initialised s) (on_header utf8 header s')
            (on_header-Initialised header s') (λ t i. Initialised-read s s' t header k i))

  -- What a client that speaks a newer version than 3.3 wrote: a line of twelve bytes, the code of the type that it wanted,
  -- and what that type asks for.
  abbrev pub AskedFor : Option (List ℕ) → List ℕ → Type 0
  AskedFor password bytes =
      (line : List ℕ) × (more : List ℕ) × (length line ≡ 12)
      × (bytes ≡ line ++ (wanted_code password ∷ more))

  -- What is known of a connected session.
  unfoldable pub IsConnected : Option (List ℕ) → VncSession → Type 0
  IsConnected password s =
      HasPixels s.info
      × (s.info.width * s.info.height ≤ max_framebuffer_pixels)
      × ((before : List ℕ) × (s.outgoing ≡ before ++ settings)
          × (s.info.negotiated_version ≢ version_text protocol_version_3_3
              → (s.info.security ≡ wanted password) × AskedFor password before))

  length-answer_to : (minor : ℕ) → length (answer_to minor) ≡ 12
  unfolding answer_to
  length-answer_to minor =
      if-both (λ (x : List ℕ). length x ≡ 12) (leb 8 minor) (λ _. refl)
        (λ _. if-both (λ (x : List ℕ). length x ≡ 12) (minor == 7) (λ _. refl) (λ _. refl))

  on_version-IsConnected :
      (password : Option (List ℕ)) (v : List ℕ × ℕ) (s : VncSession)
      → s.outgoing ≡ []
      → OnOk (IsConnected password) (on_version utf8 password v s)
  unfolding on_version IsConnected Negotiated Initialised
  on_version-IsConnected password (version, minor) s start =
      OnOk-and_then_ok (Wrote (answer_to minor) s) (IsConnected password)
        (write (answer_to minor) s) _ (write-Wrote (answer_to minor) s)
        (λ s' (_, w).
          let told : VncSession = record s' {
            info = record s'.info {
              version = version;
              negotiated_version = version_text (answer_to minor);
            };
          } in
          OnOk-and_then_ok (Negotiated minor password told) (IsConnected password)
            (negotiate_security minor password told) _
            (negotiate_security-Negotiated minor password told)
            (λ (security, t) (c, k).
              let ready : VncSession = record t { info = record t.info { security = security } } in
              OnOk-implies (Initialised ready) (IsConnected password) (initialise utf8 ready)
                (initialise-Initialised ready)
                (λ u ((p, a, e, _, n), f). (
                  p,
                  a,
                  (
                    t.outgoing,
                    f,
                    λ newer.
                        let (is, (more, x)) = c (
                          answer_to-newer minor (λ q.
                            newer (n ∙ ap (λ (i : ServerInfo). i.negotiated_version) k ∙ q))) in
                        (
                          e ∙ is,
                          (
                            answer_to minor,
                            more,
                            length-answer_to minor,
                            x
                                ∙ ap (λ o. o ++ (wanted_code password ∷ more))
                                    (w ∙ ap (λ o. o ++ answer_to minor) start),
                          ),
                        ),
                  ),
                ))))

  handshake-OnOk :
      (password : Option (List ℕ)) (s : VncSession)
      → s.outgoing ≡ []
      → OnOk (IsConnected password) (handshake utf8 password s)
  unfolding handshake
  handshake-OnOk password s start =
      OnOk-and_then_ok (HasRead s) (IsConnected password) (read 12 s) _ (read-HasRead 12 s)
        (λ (banner, s') (_, silent).
          OnOk-and_then_ok (λ _. Unit {0}) (IsConnected password) (parse_banner (utf8.lossy banner))
            _ (OnOk-any (parse_banner (utf8.lossy banner)))
            (λ v _. on_version-IsConnected password v s' (silent ∙ start)))

  pub connect_inner-OnOk :
      (incoming : List ℕ) (writes : ℕ) (password : Option (List ℕ))
      → OnOk (IsConnected password) (connect_inner utf8 incoming writes password)
  unfolding connect_inner
  connect_inner-OnOk incoming writes password = handshake-OnOk password _ refl
