-- ===== src/Transport.antt =====
-- crates/rd-engine/src/transport.rs: reading and writing in full duplex after the handshake.
-- The two halves share one cancellation token, which is one field here. Protobuf is a parameter with its laws; what
-- becomes of a write is an argument of `send`.
pub mod Delivery
mod Tests
use rust_desk_enhanced.Prelude.{
  ℕ, zero, suc, ◌*◌, Bool, true, false, Option, none, some, List, [], ◌∷◌, ◌++◌, take, length, ltb,
  ◌==◌, if◌then◌else◌, Result, ok, err, ◌≡◌,
}
use rust_desk_enhanced.Cipher.{Sodium, Encrypt, DecryptionError, dec, enc}

-- What the transport takes of protobuf for one type of messages.
pub record Protobuf (M : Type 0) : Type 0 where
  pub compute_size : M → ℕ
  pub write_to_bytes : M → Option (List ℕ)
  pub parse_from_bytes : List ℕ → Option M
  pub parse-write :
      (m : M) (bytes : List ℕ) → write_to_bytes m ≡ some bytes → parse_from_bytes bytes ≡ some m
  pub length-write :
      (m : M) (bytes : List ℕ) → write_to_bytes m ≡ some bytes → length bytes ≡ compute_size m

abbrev pub max_message_bytes : ℕ
max_message_bytes = 64 * 1024 * 1024

pub data TransportError : Type 0 where
  disconnected oversized unserializable unparsable undecipherable read_failed write_failed
        write_timeout :
      TransportError

-- What a wait for a packet gives: the token may be cancelled meanwhile.
pub data Packet : Type 0 where
  frame : List ℕ → Packet
  read_error cancelled : Packet

-- `WireReader` and `WireWriter`
pub record Connection : Type 0 where
  pub stream : List Packet
  pub reader_cipher : Option Encrypt
  pub writer_cipher : Option Encrypt
  pub has_deadline : Bool
  pub closed : Bool

-- `split`: both halves start with the cipher of the wire; a timeout of zero is none.
unfoldable pub split : List Packet → Option Encrypt → (timeout : ℕ) → Connection
split stream cipher timeout = record {
  stream = stream;
  reader_cipher = cipher;
  writer_cipher = cipher;
  has_deadline = if timeout == 0 then false else true;
  closed = false;
}

unfoldable pub cancel : Connection → Connection
cancel c = record c { closed = true }

-- What reaches the socket of one write.
pub data Output : Type 0 where
  whole torn : List ℕ → Output

-- What becomes of a write: it may be too slow for a deadline, fail, be dropped by its caller or be overtaken by
-- the token, after so many bytes.
pub data Fate : Type 0 where
  flushes : Fate
  too_slow fails dropped overtaken : ℕ → Fate

-- `none`: the caller dropped the call.
abbrev pub Answer : Type 0
Answer = Option (Result TransportError (Unit {0}))

-- The `tokio::select!` of `send`, with the drop of `PendingWrite`.
unfoldable pub deliver : List ℕ → Connection → Fate → Answer × List Output × Connection
deliver bytes c flushes = (some (ok tt), whole bytes ∷ [], c)
deliver bytes c (too_slow n) =
    if c.has_deadline
    then (some (err write_timeout), torn (take n bytes) ∷ [], cancel c)
    else (some (ok tt), whole bytes ∷ [], c)
deliver bytes c (fails n) = (some (err write_failed), torn (take n bytes) ∷ [], cancel c)
deliver bytes c (dropped n) = (none, torn (take n bytes) ∷ [], cancel c)
deliver bytes c (overtaken n) = (some (err disconnected), torn (take n bytes) ∷ [], cancel c)

-- A reader's failure cancels the token.
abbrev pub checked :
    {A : Type 0}
    → Result TransportError A
    → Connection
    → Result TransportError (Option A) × Connection
checked (ok a) c = (ok (some a), c)
checked (err e) c = (err e, cancel c)

module _ (sodium : Sodium) where
  unfoldable pub seal : Option Encrypt → List ℕ → List ℕ × Option Encrypt
  seal none bytes = (bytes, none)
  seal (some e) bytes = let (sealed, e') = enc sodium e bytes in (sealed, some e')

  abbrev pub deciphered : Result DecryptionError (List ℕ) → Result TransportError (List ℕ)
  deciphered (ok bytes) = ok bytes
  deciphered (err e) = err undecipherable

  unfoldable pub unseal : Option Encrypt → List ℕ → Result TransportError (List ℕ) × Option Encrypt
  unseal none bytes = (ok bytes, none)
  unseal (some e) bytes = let (r, e') = dec sodium e bytes in (deciphered r, some e')

  module _ {M : Type 0} (protobuf : Protobuf M) where
    unfoldable pub send_bytes :
        Option (List ℕ) → Connection → Fate → Answer × List Output × Connection
    send_bytes none c fate = (some (err unserializable), [], c)
    send_bytes (some bytes) c fate =
        let (sealed, cipher) = seal c.writer_cipher bytes in
        deliver sealed (record c { writer_cipher = cipher }) fate

    -- `WireWriter::send`: the answer, what reaches the socket, and the connection.
    unfoldable pub send : M → Connection → Fate → Answer × List Output × Connection
    send m c fate =
        if c.closed
        then (some (err disconnected), [], c)
        else if ltb max_message_bytes (protobuf.compute_size m)
        then (some (err oversized), [], c)
        else send_bytes (protobuf.write_to_bytes m) c fate

    abbrev pub parsed : Option M → Result TransportError M
    parsed none = err unparsable
    parsed (some m) = ok m

    unfoldable pub decoded : Result TransportError (List ℕ) → Result TransportError M
    decoded (err e) = err e
    decoded (ok bytes) =
        if ltb max_message_bytes (length bytes)
        then err oversized
        else parsed (protobuf.parse_from_bytes bytes)

    -- `WireReader::decode` on a packet, with what `recv` does after it.
    unfoldable pub take_packet :
        List Packet → Connection → Result TransportError (Option M) × Connection
    take_packet [] c = (ok none, cancel c)
    take_packet (cancelled ∷ rest) c = (err disconnected, cancel (record c { stream = rest }))
    take_packet (read_error ∷ rest) c = (err read_failed, cancel (record c { stream = rest }))
    take_packet (frame bytes ∷ rest) c =
        let (r, cipher) = unseal c.reader_cipher bytes in
        checked (decoded r) (record c { stream = rest; reader_cipher = cipher })

    -- `WireReader::recv`; the end of the stream is `ok none`.
    unfoldable pub recv : Connection → Result TransportError (Option M) × Connection
    recv c = if c.closed then (err disconnected, c) else take_packet c.stream c

    -- Writes in a row: the messages whose send succeeded, and what reaches the socket.
    abbrev pub kept : Answer → M → List M → List M
    kept (some (ok u)) m later = m ∷ later
    kept _ m later = later

    unfoldable pub sends : Connection → List (M × Fate) → List M × List Output
    sends c [] = ([], [])
    sends c ((m, fate) ∷ rest) =
        let (answer, output, c') = send m c fate in
        let (later, more) = sends c' rest in (kept answer m later, output ++ more)

    -- Receives until the first that gives no message, and at most so many.
    abbrev pub next_message : Result TransportError (Option M) → List M → List M
    next_message (ok (some m)) later = m ∷ later
    next_message (ok none) later = []
    next_message (err e) later = []

    unfoldable pub receives : ℕ → Connection → List M
    receives zero c = []
    receives (suc n) c = let later = receives n (recv c).1 in next_message (recv c).0 later
