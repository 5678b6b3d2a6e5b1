-- ===== src/Transport/Delivery.antt =====
-- crates/rd-engine/src/transport.rs: what one end sends, the other receives.
use rust_desk_enhanced.Prelude.{
  ℕ, Bool, true, false, Option, none, some, List, [], ◌∷◌, ◌++◌, length, ltb, ◌==◌, if◌then◌else◌,
  ok, err, ◌≡◌, refl, sym, ap, arith, if-both,
}
use rust_desk_enhanced.Cipher.{Sodium, Encrypt, enc}
use rust_desk_enhanced.Cipher.Records.{dec_one}
use rust_desk_enhanced.Transport.{
  Protobuf, max_message_bytes, TransportError, disconnected, oversized, unserializable, Packet,
  frame, read_error, Connection, split, cancel, Output, whole, torn, Fate, flushes, too_slow, fails,
  dropped, overtaken, Answer, deliver, seal, unseal, send_bytes, send, decoded, take_packet, recv,
  kept, sends, receives,
}

-- What a peer sees of what reached the socket: a torn record breaks the framing.
abbrev pub arrivals : List Output → List Packet
arrivals [] = []
arrivals (whole bytes ∷ rest) = frame bytes ∷ arrivals rest
arrivals (torn bytes ∷ rest) = read_error ∷ arrivals rest

-- The other end's cipher: the same key, and as many records counted as were sent. `k`: what it has sent itself.
abbrev pub faces : ℕ → Option Encrypt → Option Encrypt
faces k none = none
faces k (some e) = some (record { key = e.key; sent = k; received = e.sent })

abbrev reader : List Packet → Option Encrypt → Option Encrypt → Bool → Connection
reader stream reader_cipher writer_cipher has_deadline = record {
  stream = stream;
  reader_cipher = reader_cipher;
  writer_cipher = writer_cipher;
  has_deadline = has_deadline;
  closed = false;
}

when_true : {A : Type 0} (b : Bool) (x y : A) → b ≡ true → (if b then x else y) ≡ x
when_true true x y e = refl
when_true false x y e = absurd (ground (arith, e))

module _ (sodium : Sodium) {M : Type 0} (protobuf : Protobuf M) where
  unseal-seal :
      (k : ℕ) (cipher : Option Encrypt) (bytes : List ℕ)
      → unseal sodium (faces k cipher) (seal sodium cipher bytes).0
        ≡ (ok bytes, faces k (seal sodium cipher bytes).1)
  unfolding unseal seal enc
  unseal-seal k none bytes = refl
  unseal-seal k (some e) bytes = rw (dec_one sodium e.key bytes e.sent k 0) refl

  send_closed :
      (m : M) (c : Connection) (fate : Fate)
      → c.closed ≡ true
      → send sodium protobuf m c fate ≡ (some (err disconnected), [], c)
  unfolding send
  send_closed m c fate e = when_true c.closed _ _ e

  -- A connection that is closed writes nothing and succeeds in nothing.
  sends_closed :
      (c : Connection) (calls : List (M × Fate))
      → c.closed ≡ true
      → sends sodium protobuf c calls ≡ ([], [])
  unfolding sends
  sends_closed c [] e = refl
  sends_closed c ((m, fate) ∷ rest) e = rw (send_closed m c fate e, sends_closed c rest e) refl

  -- The peer receives what is still to be sent.
  Delivers : ℕ → Connection → Option Encrypt → List (M × Fate) → Type 0
  Delivers k c cipher calls =
      (wc : Option Encrypt) (hd : Bool)
      → receives sodium protobuf (length (arrivals (sends sodium protobuf c calls).1))
          (reader (arrivals (sends sodium protobuf c calls).1) (faces k cipher) wc hd)
        ≡ (sends sodium protobuf c calls).0

  -- The same after one call, given what it answered and left.
  After : ℕ → Option Encrypt → M → List (M × Fate) → Answer × List Output × Connection → Type 0
  After k cipher m rest (answer, output, c) =
      (wc : Option Encrypt) (hd : Bool)
      → receives sodium protobuf (length (arrivals (output ++ (sends sodium protobuf c rest).1)))
          (reader (arrivals (output ++ (sends sodium protobuf c rest).1)) (faces k cipher) wc hd)
        ≡ kept sodium protobuf answer m (sends sodium protobuf c rest).0

  torn-After :
      (k : ℕ) (cipher : Option Encrypt) (m : M) (rest : List (M × Fate)) (e : TransportError)
      (bytes : List ℕ) (c : Connection)
      → c.closed ≡ true
      → After k cipher m rest (some (err e), torn bytes ∷ [], c)
  unfolding After receives recv take_packet
  torn-After k cipher m rest e bytes c h wc hd =
      sym (ap (λ (r : List M × List Output). r.0) (sends_closed c rest h))

  dropped-After :
      (k : ℕ) (cipher : Option Encrypt) (m : M) (rest : List (M × Fate)) (bytes : List ℕ)
      (c : Connection)
      → c.closed ≡ true
      → After k cipher m rest (none, torn bytes ∷ [], c)
  unfolding After receives recv take_packet
  dropped-After k cipher m rest bytes c h wc hd =
      sym (ap (λ (r : List M × List Output). r.0) (sends_closed c rest h))

  decoded_whole :
      (m : M) (bytes : List ℕ)
      → protobuf.write_to_bytes m ≡ some bytes
      → ltb max_message_bytes (protobuf.compute_size m) ≡ false
      → decoded sodium protobuf (ok bytes) ≡ ok m
  unfolding decoded
  decoded_whole m bytes w s =
      rw (protobuf.length-write m bytes w, s, protobuf.parse-write m bytes w) refl

  whole-After :
      (k : ℕ) (cipher : Option Encrypt) (m : M) (bytes : List ℕ) (rest : List (M × Fate))
      (c : Connection)
      → protobuf.write_to_bytes m ≡ some bytes
      → ltb max_message_bytes (protobuf.compute_size m) ≡ false
      → Delivers k c (seal sodium cipher bytes).1 rest
      → After k cipher m rest (some (ok tt), whole (seal sodium cipher bytes).0 ∷ [], c)
  unfolding After Delivers receives recv take_packet
  whole-After k cipher m bytes rest c w s d wc hd =
      rw (unseal-seal k cipher bytes, decoded_whole m bytes w s) (ap (◌∷◌ m) (d wc hd))

  deliver-After :
      (k : ℕ) (cipher : Option Encrypt) (m : M) (bytes : List ℕ) (rest : List (M × Fate))
      (c : Connection) (fate : Fate)
      → protobuf.write_to_bytes m ≡ some bytes
      → ltb max_message_bytes (protobuf.compute_size m) ≡ false
      → Delivers k c (seal sodium cipher bytes).1 rest
      → After k cipher m rest (deliver (seal sodium cipher bytes).0 c fate)
  unfolding deliver cancel
  deliver-After k cipher m bytes rest c flushes w s d = whole-After k cipher m bytes rest c w s d
  deliver-After k cipher m bytes rest c (too_slow n) w s d =
      if-both (After k cipher m rest) c.has_deadline
        (λ _. torn-After k cipher m rest _ _ (cancel c) refl)
        (λ _. whole-After k cipher m bytes rest c w s d)
  deliver-After k cipher m bytes rest c (fails n) w s d =
      torn-After k cipher m rest _ _ (cancel c) refl
  deliver-After k cipher m bytes rest c (dropped n) w s d =
      dropped-After k cipher m rest _ (cancel c) refl
  deliver-After k cipher m bytes rest c (overtaken n) w s d =
      torn-After k cipher m rest _ _ (cancel c) refl

  -- A call that writes nothing changes nothing.
  silent-After :
      (k : ℕ) (m : M) (rest : List (M × Fate)) (e : TransportError) (c : Connection)
      → Delivers k c c.writer_cipher rest
      → After k c.writer_cipher m rest (some (err e), [], c)
  unfolding After Delivers
  silent-After k m rest e c d = d

  send_bytes-After :
      (k : ℕ) (m : M) (bytes : Option (List ℕ)) (rest : List (M × Fate)) (c : Connection)
      (fate : Fate)
      → protobuf.write_to_bytes m ≡ bytes
      → ltb max_message_bytes (protobuf.compute_size m) ≡ false
      → ((c' : Connection) → Delivers k c' c'.writer_cipher rest)
      → After k c.writer_cipher m rest (send_bytes sodium protobuf bytes c fate)
  unfolding send_bytes
  send_bytes-After k m none rest c fate w s d = silent-After k m rest unserializable c (d c)
  send_bytes-After k m (some bytes) rest c fate w s d =
      deliver-After k c.writer_cipher m bytes rest
        (record c { writer_cipher = (seal sodium c.writer_cipher bytes).1 }) fate w s
        (d (record c { writer_cipher = (seal sodium c.writer_cipher bytes).1 }))

  send-After :
      (k : ℕ) (m : M) (rest : List (M × Fate)) (c : Connection) (fate : Fate)
      → ((c' : Connection) → Delivers k c' c'.writer_cipher rest)
      → After k c.writer_cipher m rest (send sodium protobuf m c fate)
  unfolding send
  send-After k m rest c fate d =
      if-both (After k c.writer_cipher m rest) c.closed
        (λ _. silent-After k m rest disconnected c (d c))
        (λ _.
          if-both (After k c.writer_cipher m rest) (ltb max_message_bytes (protobuf.compute_size m))
            (λ _. silent-After k m rest oversized c (d c))
            (λ s. send_bytes-After k m (protobuf.write_to_bytes m) rest c fate refl s d))

  sends-Delivers :
      (k : ℕ) (c : Connection) (calls : List (M × Fate)) → Delivers k c c.writer_cipher calls
  unfolding sends Delivers After receives
  sends-Delivers k c [] wc hd = refl
  sends-Delivers k c ((m, fate) ∷ rest) wc hd =
      send-After k m rest c fate (λ c'. sends-Delivers k c' rest) wc hd

  -- Whatever is sent on a connection, in whatever order, and whatever becomes of each write: a peer that starts with the
  -- same cipher receives exactly the messages whose send succeeded, in their order, encrypted or not.
  pub receives-sends :
      (cipher : Option Encrypt) (timeout peer_timeout k : ℕ) (inbound : List Packet)
      (calls : List (M × Fate))
      → receives sodium protobuf
          (length (arrivals (sends sodium protobuf (split inbound cipher timeout) calls).1))
          (split
            (arrivals (sends sodium protobuf (split inbound cipher timeout) calls).1)
            (faces k cipher)
            peer_timeout)
        ≡ (sends sodium protobuf (split inbound cipher timeout) calls).0
  unfolding split Delivers
  receives-sends cipher timeout peer_timeout k inbound calls =
      sends-Delivers k (split inbound cipher timeout) calls (faces k cipher)
        (if peer_timeout == 0 then false else true)
