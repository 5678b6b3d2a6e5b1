-- ===== src/Handshake.antt =====
-- crates/rd-engine/src/handshake.rs: the choice between an encrypted and a plain connection, on both sides.
-- The socket is the list of records that will arrive and the list of messages written; `sodiumoxide`, the
-- serialization of an `IdPk` and fresh keys are parameters. A string is its bytes.
pub mod Sides
pub mod Pinned
pub mod Agreement
mod Tests
use rust_desk_enhanced.Prelude.{
  ℕ, ◌≤◌, Bool, true, false, not, ◌&&◌, ◌||◌, Option, none, some, and_then, List, [], ◌∷◌, ◌*◌,
  ◌++◌, replicate, length, is_empty, is_some, ltb, ◌==◌, bytes_eq, if◌then◌else◌, Result, ok, err,
  map_option, ◌≡◌,
}
use rust_desk_enhanced.Messages.{Payload}
use rust_desk_enhanced.Cipher.{Sodium, Encrypt, new, KeyError, decode_key}

-- `IdPk`
pub record IdPk : Type 0 where
  pub id : List ℕ
  pub pk : List ℕ

-- The cryptography and the serialization of a signed identity.
pub record Suite : Type 0 where
  pub sodium : Sodium
  pub init_ok : Bool
  pub write_id_pk : IdPk → Option (List ℕ)
  pub parse_id_pk : List ℕ → Option IdPk
  pub parse-write :
      (v : IdPk) (bytes : List ℕ) → write_id_pk v ≡ some bytes → parse_id_pk bytes ≡ some v

pub data ViewerIdentity : Type 0 where
  legacy_unverified : ViewerIdentity
  pinned_host : (expected_id peer_signing_key : List ℕ) → ViewerIdentity
  rendezvous : (expected_id signed_id_pk server_key : List ℕ) → ViewerIdentity

pub data HostIdentity : Type 0 where
  legacy_host : HostIdentity
  signed_host : (id secret_key : List ℕ) → HostIdentity

pub data Security : Type 0 where
  encrypted : (peer_id : Option (List ℕ)) → Security
  legacy_plain : (registration_key_refresh : Bool) → Security

-- A message by its `union`; those that the handshake does not tell apart are `any_other`,
-- which keeps them.
pub data Message : Type 0 where
  empty : Message
  signed_id : (id : List ℕ) → Message
  public_key : (asymmetric_value symmetric_value : List ℕ) → Message
  any_other : Payload → Message

-- What the socket gives next.
pub data Inbound : Type 0 where
  message : Message → Inbound
  unparsable io_failure : Inbound

-- How a write ends: in full; with an error; or not before its caller gives it up, which a deadline or a dropped
-- call does.
pub data Fate : Type 0 where
  completes breaks hangs : Fate

-- `FramedStream`: what arrives; the records that were written in full; the one that a write cut short, of which any
-- part may have been written, up to all of it; the fates of the writes to come, which complete when none is left;
-- the cipher; and the limit of its codec.
pub record Wire : Type 0 where
  pub inbound : List Inbound
  pub outbound : List Message
  pub cut : Option Message
  pub fates : List Fate
  pub cipher : Option Encrypt
  pub max_packet_length : ℕ

pub record Established : Type 0 where
  pub wire : Wire
  pub security : Security
  pub prefetched : Option Message

pub data Error : Type 0 where
  crypto_initialization write_failed closed read_failed invalid_message signature_mismatch
        invalid_signed_identity :
      Error
  invalid_public_key_length key_transition_completed invalid_pinned_identity invalid_box_key
        pinned_identity_mismatch :
      Error
  pinned_verification_failed pinned_signed_id_required serialization_failed invalid_key_exchange
        unexpected_message :
      Error
  timeout : Error

-- A step of the handshake: its result, and the socket as it leaves it.
abbrev pub Step : Type 0 → Type 0
Step A = Result Error A × Wire

abbrev pub then_step : {A B : Type 0} → Step A → (A → Wire → Step B) → Step B
then_step (ok a, wire) next = next a wire
then_step (err e, wire) next = (err e, wire)

-- A write that ends like this; no cipher is set while the handshake writes.
unfoldable pub sent_as : List Fate → Wire → Message → Step (Unit {0})
sent_as [] wire m = (ok tt, record wire { outbound = wire.outbound ++ (m ∷ []) })
sent_as (completes ∷ fates) wire m =
    (ok tt, record wire { outbound = wire.outbound ++ (m ∷ []); fates = fates })
sent_as (breaks ∷ fates) wire m = (err write_failed, record wire { cut = some m; fates = fates })
sent_as (hangs ∷ fates) wire m = (err timeout, record wire { cut = some m; fates = fates })

unfoldable pub send : Wire → Message → Step (Unit {0})
send wire m = sent_as wire.fates wire m

received : List Inbound → Wire → Step Message
received [] wire = (err closed, wire)
received (message m ∷ rest) wire = (ok m, record wire { inbound = rest })
received (unparsable ∷ rest) wire = (err invalid_message, record wire { inbound = rest })
received (io_failure ∷ rest) wire = (err read_failed, record wire { inbound = rest })

-- `expired`: the deadline of the handshake passes before a record arrives.
unfoldable pub recv : (expired : Bool) → Wire → Step Message
unfolding received
recv expired wire = if expired then (err timeout, wire) else received wire.inbound wire

checked_length : IdPk → Result Error IdPk
checked_length value =
    if not (length value.pk == 32) then err invalid_public_key_length else ok value

parsed : Option IdPk → Result Error IdPk
unfolding checked_length
parsed none = err invalid_signed_identity
parsed (some value) = checked_length value

verified_bytes : Suite → Option (List ℕ) → Result Error IdPk
unfolding parsed
verified_bytes suite none = err signature_mismatch
verified_bytes suite (some bytes) = parsed (suite.parse_id_pk bytes)

unfoldable pub id_pk : Suite → (signed key : List ℕ) → Result Error IdPk
unfolding verified_bytes
id_pk suite signed key = verified_bytes suite (suite.sodium.verify signed key)

abbrev pub auth_max_record_bytes : ℕ
auth_max_record_bytes = 64 * 1024

unfoldable pub prepare : Wire → Step (Unit {0})
prepare wire =
    if is_some wire.cipher
    then (err key_transition_completed, wire)
    else (ok tt, record wire { max_packet_length = auth_max_record_bytes })

unfoldable pub set_key : Wire → List ℕ → Wire
set_key wire key = record wire { cipher = some (new key) }

-- `PublicKey::from_slice`
abbrev pub from_slice : List ℕ → Option (List ℕ)
from_slice bytes = if length bytes == 32 then some bytes else none
