-- ===== src/Handshake/Tests.antt =====
-- Handshakes, and the theorems at concrete inputs.
use rust_desk_enhanced.Prelude.{
  ℕ, true, false, Option, none, some, List, [], ◌∷◌, ◌++◌, replicate, length, drop, take,
  take-append, drop-append, sym, arith, ok, err, ◌≡◌, refl,
}
use rust_desk_enhanced.Messages.{any_payload}
use rust_desk_enhanced.Cipher.{new}
use rust_desk_enhanced.Cipher.Toy.{toy_sodium}
use rust_desk_enhanced.Handshake.{
  IdPk, Suite, pinned_host, signed_host, encrypted, signed_id, any_other, Wire, Established,
  pinned_signed_id_required, breaks, send, sent_as, recv, received, id_pk, verified_bytes, parsed,
  checked_length, prepare, set_key,
}
use rust_desk_enhanced.Handshake.Sides.{
  Fresh, verified, key_reply, established, exchange, viewer_identity, viewer_other, viewer_message,
  viewer_from, viewer, host,
}
use rust_desk_enhanced.Handshake.Agreement.{fresh_wire, viewer-host}

everything : Unit {0}
unfolding send sent_as recv received id_pk verified_bytes parsed checked_length prepare set_key
    verified key_reply established exchange viewer_identity viewer_other viewer_message viewer_from
    viewer new
everything = tt

-- A serialization: the length of the key, the key, the id.
abbrev write_toy : IdPk → Option (List ℕ)
write_toy v = some (length v.pk ∷ (v.pk ++ v.id))

abbrev parse_toy : List ℕ → Option IdPk
parse_toy [] = none
parse_toy (n ∷ rest) = some (record { id = drop n rest; pk = take n rest })

bytes_of :
    (v : IdPk) (bytes : List ℕ) → write_toy v ≡ some bytes → (length v.pk ∷ (v.pk ++ v.id)) ≡ bytes
bytes_of v bytes e = ground (arith, e)

parse-write_toy : (v : IdPk) (bytes : List ℕ) → write_toy v ≡ some bytes → parse_toy bytes ≡ some v
parse-write_toy v bytes e =
    rw (sym (bytes_of v bytes e), take-append v.pk v.id, drop-append v.pk v.id) refl

abbrev suite : Suite
suite = record {
  sodium = toy_sodium;
  init_ok = true;
  write_id_pk = write_toy;
  parse_id_pk = parse_toy;
  parse-write = parse-write_toy;
}

abbrev fresh : Fresh
fresh = record { secret = 5 ∷ []; key = replicate 32 8 }

abbrev signed_identity : List ℕ
signed_identity = 32 ∷ (replicate 32 0 ++ (9 ∷ []))

abbrev reached : Established
reached = record {
  wire = record {
    inbound = [];
    outbound = key_reply suite fresh (replicate 32 0) ∷ [];
    cut = none;
    fates = [];
    cipher = some (record { key = replicate 32 8; sent = 0; received = 0 });
    max_packet_length = 65536;
  };
  security = encrypted (some (9 ∷ []));
  prefetched = none;
}

-- A plain greeting instead of an identity.
pinned_refused :
    (viewer suite fresh false
      (fresh_wire (any_other (any_payload 1)))
      (pinned_host (9 ∷ []) (4 ∷ []))).0
    ≡ err pinned_signed_id_required
unfolding everything
pinned_refused = refl

-- The right identity, on a connection that breaks under the key.
abbrev breaking : Wire
breaking = record (fresh_wire (signed_id signed_identity)) { fates = breaks ∷ [] }

abbrev left : Wire
left = record {
  inbound = [];
  outbound = [];
  cut = some (key_reply suite fresh (replicate 32 0));
  fates = [];
  cipher = none;
  max_packet_length = 65536;
}

viewer-host_example :
    (v : Established) × (h : Established) × (viewer suite fresh false
        (fresh_wire (signed_id signed_identity))
        (pinned_host (9 ∷ []) (4 ∷ []))
      ≡ (ok v, v.wire))
    × (host suite
          (6 ∷ [])
          false
          (fresh_wire (key_reply suite fresh (replicate 32 0)))
          (signed_host (9 ∷ []) (4 ∷ []))
        ≡ (ok h, h.wire))
    × (h.wire.outbound ≡ signed_id signed_identity ∷ [])
    × (v.wire.outbound ≡ key_reply suite fresh (replicate 32 0) ∷ [])
    × (v.security ≡ encrypted (some (9 ∷ [])))
    × (h.security ≡ encrypted none)
    × (v.wire.cipher ≡ some (new fresh.key))
    × (h.wire.cipher ≡ some (new fresh.key))
viewer-host_example =
    viewer-host suite fresh (9 ∷ []) (6 ∷ []) (4 ∷ []) signed_identity refl refl refl refl
