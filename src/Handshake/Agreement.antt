-- ===== src/Handshake/Agreement.antt =====
-- crates/rd-engine/src/handshake.rs: a signed host and a viewer that pinned it, connected to each other.
use rust_desk_enhanced.Prelude.{
  ℕ, true, false, ◌||◌, none, some, List, [], ◌-◌, ◌^◌, ◌∷◌, replicate, length, is_empty, ltb,
  bytes_eq_iff, ok, ◌≡◌, refl, arith,
}
use rust_desk_enhanced.Cipher.{new, decode_key, key_of}
use rust_desk_enhanced.Handshake.{
  IdPk, Suite, pinned_host, signed_host, encrypted, Message, signed_id, message, Wire, Established,
  send, sent_as, recv, received, id_pk, verified_bytes, parsed, checked_length, prepare, set_key,
}
use rust_desk_enhanced.Handshake.Sides.{
  Fresh, verified, key_reply, established, exchange, viewer_identity, viewer_message, viewer_from,
  viewer, host_key, host_reply, host_from, host_identity, host,
}

-- A new connection on which one record will arrive.
abbrev pub fresh_wire : Message → Wire
fresh_wire m = record {
  inbound = message m ∷ [];
  outbound = [];
  cut = none;
  fates = [];
  cipher = none;
  max_packet_length = 2 ^ 64 - 1;
}

-- The identity of the host, signed.
abbrev pub identity_of : Suite → (id secret : List ℕ) → IdPk
identity_of suite id secret = record { id = id; pk = suite.sodium.box_public secret }

-- The identity that a host signs is the one that a viewer with its public key reads.
id_pk-sign :
    (suite : Suite) (id secret sk bytes : List ℕ)
    → suite.write_id_pk (identity_of suite id secret) ≡ some bytes
    → id_pk suite (suite.sodium.sign bytes sk) (suite.sodium.sign_public sk)
      ≡ ok (identity_of suite id secret)
unfolding id_pk verified_bytes parsed checked_length
id_pk-sign suite id secret sk bytes w =
    rw
      (
        suite.sodium.verify-sign bytes sk,
        suite.parse-write (identity_of suite id secret) bytes w,
        suite.sodium.length-box_public secret,
      )
      refl

viewer_side :
    (suite : Suite) (fresh : Fresh) (id secret sk bytes : List ℕ)
    → suite.init_ok ≡ true
    → suite.write_id_pk (identity_of suite id secret) ≡ some bytes
    → (is_empty id || ltb 512 (length id)) ≡ false
    → viewer suite fresh false
        (fresh_wire (signed_id (suite.sodium.sign bytes sk)))
        (pinned_host id (suite.sodium.sign_public sk))
      ≡ established
          (set_key
            (record (fresh_wire (signed_id [])) {
              inbound = [];
              outbound = key_reply suite fresh (suite.sodium.box_public secret) ∷ [];
              max_packet_length = 65536;
            })
            fresh.key)
          (encrypted (some id))
          none
unfolding viewer prepare viewer_from verified recv received viewer_message viewer_identity exchange
    send sent_as established set_key id_pk key_reply new
viewer_side suite fresh id secret sk bytes i w l =
    rw
      (
        i,
        l,
        id_pk-sign suite id secret sk bytes w,
        (bytes_eq_iff id id).1 refl,
        suite.sodium.length-box_public secret,
      )
      refl

key_round :
    (suite : Suite) (fresh : Fresh) (secret : List ℕ)
    → length fresh.key ≡ 32
    → decode_key suite.sodium
        (suite.sodium.box_seal fresh.key
          (replicate 24 0)
          (suite.sodium.box_public secret)
          fresh.secret)
        (suite.sodium.box_public fresh.secret)
        secret
      ≡ ok fresh.key
unfolding decode_key key_of
key_round suite fresh secret k =
    rw
      (
        suite.sodium.length-box_public fresh.secret,
        suite.sodium.box_open-seal fresh.key (replicate 24 0) fresh.secret secret,
        k,
      )
      refl

nonempty : (xs : List ℕ) → length xs ≡ 32 → is_empty xs ≡ false
nonempty [] h = absurd (omega (arith, h))
nonempty (x ∷ xs) h = refl

host_side :
    (suite : Suite) (fresh : Fresh) (id secret sk bytes : List ℕ)
    → suite.init_ok ≡ true
    → suite.write_id_pk (identity_of suite id secret) ≡ some bytes
    → length fresh.key ≡ 32
    → host suite secret false
        (fresh_wire (key_reply suite fresh (suite.sodium.box_public secret)))
        (signed_host id sk)
      ≡ established
          (set_key
            (record (fresh_wire (signed_id [])) {
              inbound = [];
              outbound = signed_id (suite.sodium.sign bytes sk) ∷ [];
              max_packet_length = 65536;
            })
            fresh.key)
          (encrypted none)
          none
unfolding host prepare host_identity host_from recv received host_reply host_key send sent_as
    established set_key key_reply new
host_side suite fresh id secret sk bytes i w k =
    rw
      (
        i,
        w,
        nonempty (suite.sodium.box_public fresh.secret)
            (suite.sodium.length-box_public fresh.secret),
        key_round suite fresh secret k,
      )
      refl

-- A signed host and a viewer that pinned its signing key, each given the record that the other writes, both end encrypted under
-- the key that the viewer made: the viewer for the pinned id, the host for a peer that is not yet a user.
pub viewer-host :
    (suite : Suite) (fresh : Fresh) (id secret sk bytes : List ℕ)
    → suite.init_ok ≡ true
    → suite.write_id_pk (identity_of suite id secret) ≡ some bytes
    → (is_empty id || ltb 512 (length id)) ≡ false
    → length fresh.key ≡ 32
    → (v : Established) × (h : Established) × (viewer suite fresh false
          (fresh_wire (signed_id (suite.sodium.sign bytes sk)))
          (pinned_host id (suite.sodium.sign_public sk))
        ≡ (ok v, v.wire))
      × (host suite secret false
            (fresh_wire (key_reply suite fresh (suite.sodium.box_public secret)))
            (signed_host id sk)
          ≡ (ok h, h.wire))
      × (h.wire.outbound ≡ signed_id (suite.sodium.sign bytes sk) ∷ [])
      × (v.wire.outbound ≡ key_reply suite fresh (suite.sodium.box_public secret) ∷ [])
      × (v.security ≡ encrypted (some id))
      × (h.security ≡ encrypted none)
      × (v.wire.cipher ≡ some (new fresh.key))
      × (h.wire.cipher ≡ some (new fresh.key))
unfolding established set_key
viewer-host suite fresh id secret sk bytes i w l k = (
  _,
  _,
  viewer_side suite fresh id secret sk bytes i w l,
  host_side suite fresh id secret sk bytes i w k,
  refl,
  refl,
  refl,
  refl,
  refl,
  refl,
)
