-- ===== src/Handshake/Sides.antt =====
-- crates/rd-engine/src/handshake.rs: `viewer` and `host`.
use rust_desk_enhanced.Prelude.{
  ℕ, Bool, true, false, not, ◌||◌, Option, none, some, List, [], replicate, length, is_empty, ltb,
  bytes_eq, if◌then◌else◌, Result, ok, err, map_option,
}
use rust_desk_enhanced.Cipher.{KeyError, decode_key}
use rust_desk_enhanced.Handshake.{
  IdPk, Suite, ViewerIdentity, legacy_unverified, pinned_host, rendezvous, HostIdentity,
  legacy_host, signed_host, Security, encrypted, legacy_plain, Message, empty, signed_id,
  public_key, any_other, Wire, Established, Error, crypto_initialization, invalid_pinned_identity,
  invalid_box_key, pinned_identity_mismatch, pinned_verification_failed, pinned_signed_id_required,
  serialization_failed, invalid_key_exchange, unexpected_message, Step, then_step, send, recv,
  id_pk, prepare, set_key, from_slice,
}

-- The fresh secrets of a viewer: its box key and the record key.
pub record Fresh : Type 0 where
  pub secret : List ℕ
  pub key : List ℕ

abbrev pub is_strict : ViewerIdentity → Bool
is_strict (pinned_host expected_id peer_signing_key) = true
is_strict identity = false

-- `.ok().filter(|v| v.id == expected_id).and_then(…)`
unfoldable pub rendezvous_key : List ℕ → Result Error IdPk → Option (List ℕ × List ℕ)
rendezvous_key expected_id (err e) = none
rendezvous_key expected_id (ok v) =
    if bytes_eq v.id expected_id
    then map_option (λ pk. (expected_id, pk)) (from_slice v.pk)
    else none

-- The identity that the viewer will hold the peer to, with the peer's signing key.
unfoldable pub verified : Suite → ViewerIdentity → Result Error (Option (List ℕ × List ℕ))
verified suite legacy_unverified = ok none
verified suite (pinned_host expected_id peer_signing_key) =
    if is_empty expected_id || ltb 512 (length expected_id)
    then err invalid_pinned_identity
    else ok (some (expected_id, peer_signing_key))
verified suite (rendezvous expected_id signed_id_pk server_key) =
    ok (rendezvous_key expected_id (id_pk suite signed_id_pk server_key))

-- The answer to a verified identity: the record key sealed for the peer.
unfoldable pub key_reply : Suite → Fresh → List ℕ → Message
key_reply suite fresh their_pk =
    public_key (suite.sodium.box_public fresh.secret)
      (suite.sodium.box_seal fresh.key (replicate 24 0) their_pk fresh.secret)

unfoldable pub established : Wire → Security → Option Message → Step Established
established wire security prefetched =
    (ok (record { wire = wire; security = security; prefetched = prefetched }), wire)

unfoldable pub exchange : Suite → Fresh → List ℕ → Option (List ℕ) → Wire → Step Established
exchange suite fresh expected_id none wire = (err invalid_box_key, wire)
exchange suite fresh expected_id (some their_pk) wire =
    then_step (send wire (key_reply suite fresh their_pk))
      (λ sent wire'. established (set_key wire' fresh.key) (encrypted (some expected_id)) none)

-- The compatibility answer, after which the connection is plain.
unfoldable pub fall_back : Message → Security → Option Message → Wire → Step Established
fall_back reply security prefetched wire =
    then_step (send wire reply) (λ sent wire'. established wire' security prefetched)

-- The `match` on the signed identity of the peer.
unfoldable pub viewer_identity :
    Suite → Fresh → Bool → List ℕ → Result Error IdPk → Wire → Step Established
viewer_identity suite fresh strict expected_id (ok v) wire =
    if bytes_eq v.id expected_id
    then exchange suite fresh expected_id (from_slice v.pk) wire
    else if strict
    then (err pinned_identity_mismatch, wire)
    else fall_back empty (legacy_plain false) none wire
viewer_identity suite fresh strict expected_id (err e) wire =
    if strict
    then (err pinned_verification_failed, wire)
    else fall_back (public_key [] []) (legacy_plain true) none wire

-- A first record that is no signed identity.
unfoldable pub viewer_other : Bool → Message → Wire → Step Established
viewer_other strict m wire =
    if strict
    then (err pinned_signed_id_required, wire)
    else fall_back empty (legacy_plain false) (some m) wire

unfoldable pub viewer_message :
    Suite → Fresh → Bool → (expected_id sign_key : List ℕ) → Message → Wire → Step Established
viewer_message suite fresh strict expected_id sign_key (signed_id id) wire =
    viewer_identity suite fresh strict expected_id (id_pk suite id sign_key) wire
viewer_message suite fresh strict expected_id sign_key m wire = viewer_other strict m wire

-- `expired`: the deadline passes before the peer's record arrives. (It may also pass during a write, which then
-- `hangs`.)
unfoldable pub viewer_from :
    Suite
    → Fresh
    → (expired strict : Bool) → Result Error (Option (List ℕ × List ℕ))
    → Wire
    → Step Established
viewer_from suite fresh expired strict (err e) wire = (err e, wire)
viewer_from suite fresh expired strict (ok none) wire =
    fall_back empty (legacy_plain false) none wire
viewer_from suite fresh expired strict (ok (some (expected_id, sign_key))) wire =
    then_step (recv expired wire)
      (λ m wire'. viewer_message suite fresh strict expected_id sign_key m wire')

unfoldable pub viewer : Suite → Fresh → (expired : Bool) → Wire → ViewerIdentity → Step Established
viewer suite fresh expired wire identity =
    if not suite.init_ok
    then (err crypto_initialization, wire)
    else then_step (prepare wire) (λ ready wire'.
      viewer_from suite fresh expired (is_strict identity) (verified suite identity) wire')

-- The host takes the record key that the viewer sealed.
unfoldable pub host_key : Result KeyError (List ℕ) → Wire → Step Established
host_key (err e) wire = (err invalid_key_exchange, wire)
host_key (ok key) wire = established (set_key wire key) (encrypted none) none

unfoldable pub host_reply : Suite → List ℕ → Message → Wire → Step Established
host_reply suite secret (public_key asymmetric_value symmetric_value) wire =
    if is_empty asymmetric_value
    then established wire (legacy_plain true) none
    else host_key (decode_key suite.sodium symmetric_value asymmetric_value secret) wire
host_reply suite secret empty wire = established wire (legacy_plain false) none
host_reply suite secret (signed_id id) wire = (err unexpected_message, wire)
host_reply suite secret (any_other n) wire = (err unexpected_message, wire)

unfoldable pub host_from :
    Suite
    → (expired : Bool) → (secret secret_key : List ℕ) → Option (List ℕ)
    → Wire
    → Step Established
host_from suite expired secret secret_key none wire = (err serialization_failed, wire)
host_from suite expired secret secret_key (some bytes) wire =
    then_step (send wire (signed_id (suite.sodium.sign bytes secret_key))) (λ sent wire'.
      then_step (recv expired wire') (λ reply wire''. host_reply suite secret reply wire''))

unfoldable pub host_identity :
    Suite → (expired : Bool) → List ℕ → HostIdentity → Wire → Step Established
host_identity suite expired secret legacy_host wire = established wire (legacy_plain false) none
host_identity suite expired secret (signed_host id secret_key) wire =
    host_from suite expired secret secret_key
      (suite.write_id_pk (record { id = id; pk = suite.sodium.box_public secret })) wire

unfoldable pub host :
    Suite → (secret : List ℕ) → (expired : Bool) → Wire → HostIdentity → Step Established
host suite secret expired wire identity =
    if not suite.init_ok
    then (err crypto_initialization, wire)
    else then_step (prepare wire) (λ ready wire'. host_identity suite expired secret identity wire')
