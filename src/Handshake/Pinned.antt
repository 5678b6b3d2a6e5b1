-- ===== src/Handshake/Pinned.antt =====
-- crates/rd-engine/src/handshake.rs: what a viewer that pinned its host accepts.
use rust_desk_enhanced.Prelude.{ℕ, some, List, ◌∷◌, ok, err, ◌≡◌, ◌⊎◌}
use rust_desk_enhanced.Cipher.{new}
use rust_desk_enhanced.Handshake.{
  IdPk, Suite, encrypted, Message, signed_id, Inbound, message, Wire, Established, Step, id_pk,
}
use rust_desk_enhanced.Handshake.Sides.{Fresh, key_reply}

-- The peer proved the identity `id`: its first record is a signature under the key, of an identity with that id.
abbrev pub Proves : Suite → (id key : List ℕ) → Message → Type 0
Proves suite id key m =
    (signed : List ℕ) × (v : IdPk) × (m ≡ signed_id signed)
    × (id_pk suite signed key ≡ ok v)
    × (v.id ≡ id)

-- A connection that is encrypted for the peer under the fresh key.
abbrev pub IsSecured : Fresh → List ℕ → Established → Type 0
IsSecured fresh id e = (e.security ≡ encrypted (some id)) × (e.wire.cipher ≡ some (new fresh.key))

-- The peer proved the identity, with this key to seal for.
abbrev pub ProvesKey : Suite → (id key : List ℕ) → Message → List ℕ → Type 0
ProvesKey suite id key m pk =
    (signed : List ℕ) × (v : IdPk) × (m ≡ signed_id signed)
    × (id_pk suite signed key ≡ ok v)
    × (v.id ≡ id)
    × (v.pk ≡ pk)

-- What a strict step may end in. A failure has written no whole record; a record that it cut short is the key reply.
Strict : Suite → Fresh → (id : List ℕ) → Wire → (List ℕ → Type 0) → Step Established → Type 0
Strict suite fresh id before P (ok e, wire') = IsSecured fresh id e × ((pk : List ℕ) × P pk)
Strict suite fresh id before P (err e, wire') =
    (wire'.outbound ≡ before.outbound)
    × ((wire'.cut ≡ before.cut)
        ⊎ ((pk : List ℕ) × P pk × (wire'.cut ≡ some (key_reply suite fresh pk))))

-- The first record of the connection proves the identity.
abbrev pub Seen : Suite → (id key : List ℕ) → List Inbound → Type 0
Seen suite id key arriving =
    (m : Message) × (rest : List Inbound) × (arriving ≡ message m ∷ rest) × Proves suite id key m

-- It proves it with this key.
abbrev pub SeenKey : Suite → (id key : List ℕ) → List Inbound → List ℕ → Type 0
SeenKey suite id key arriving pk =
    (m : Message) × (rest : List Inbound) × (arriving ≡ message m ∷ rest)
    × ProvesKey suite id key m pk
