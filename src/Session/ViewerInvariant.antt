-- ===== src/Session/ViewerInvariant.antt =====
-- crates/rd-engine/src/session.rs: what holds of a viewer between any two calls.
use rust_desk_enhanced.Prelude.{
  ℕ, ◌-◌, Bool, true, false, Option, none, some, List, [], ◌∷◌, ◌++◌, append_assoc, ltb,
  if◌then◌else◌, ok, err, ◌≡◌, refl, arith,
}
use rust_desk_enhanced.Messages.{LoginRequest, Hash, PeerInfo, login_request}
use rust_desk_enhanced.Auth.Types.{Permissions, no_permissions}
use rust_desk_enhanced.Handshake.{Message, any_other, Wire, Fate, completes, breaks, hangs}
use rust_desk_enhanced.Session.{
  SessionError, oversized, SessionIo, written_as, wrote_one, terminate_io, Sent, write, send_on,
  send_io, overhead,
}
use rust_desk_enhanced.Session.Viewer.{
  ViewerState, await_hash, await_login, await_approval, await_2fa, active, closed, ViewerSession,
  is_closed, terminate,
}

-- The request was written on the wire, with whatever password; what is kept of it has none.
unfoldable pub Asked : Option Wire → LoginRequest → Type 0
Asked wire kept =
    (w : Wire) × (full : LoginRequest) × (before : List Message) × (later : List Message) × (wire
      ≡ some w)
    × (w.outbound ≡ before ++ (any_other (login_request full) ∷ later))
    × (kept ≡ record full { password = [] })

-- What is known of a request: none was made, or it was written.
unfoldable pub Known : Option Wire → Option LoginRequest → Type 0
Known wire none = Unit {0}
Known wire (some kept) = Asked wire kept

-- The fields that each state fixes.
unfoldable pub Holds :
    ViewerState
    → SessionIo
    → Option Hash
    → Option LoginRequest
    → Permissions
    → Option PeerInfo
    → Type 0
Holds await_hash io hash request permissions info = (hash ≡ none) × (request ≡ none)
Holds active io hash request permissions info =
    (kept : LoginRequest) × (peer : PeerInfo) × (request ≡ some kept)
    × (info ≡ some peer)
    × Asked io.wire kept
Holds closed io hash request permissions info =
    (io ≡ terminate_io)
    × (hash ≡ none)
    × (request ≡ none)
    × (permissions ≡ no_permissions)
    × (info ≡ none)
Holds state io hash request permissions info = (h : Hash) × (hash ≡ some h) × Known io.wire request

abbrev pub IsValid : ViewerSession → Type 0
IsValid v = Holds v.state v.io v.hash v.request v.permissions v.peer_info

pub terminate-IsValid : (v : ViewerSession) → IsValid (terminate v)
unfolding terminate Holds
terminate-IsValid v = (refl, refl, refl, refl, refl)

-- A wire that carries at least the messages of another.
unfoldable pub Extends : Option Wire → Option Wire → Type 0
Extends wire wire' =
    (w : Wire)
    → wire ≡ some w
    → (w' : Wire) × (more : List Message) × (wire' ≡ some w') × (w'.outbound ≡ w.outbound ++ more)

pub Asked-Extends :
    (wire wire' : Option Wire) (kept : LoginRequest)
    → Extends wire wire'
    → Asked wire kept
    → Asked wire' kept
unfolding Asked Extends
Asked-Extends wire wire' kept x (w, full, before, later, e, f, g) =
    let (w', more, e', f') = x w e in
    (
      w',
      full,
      before,
      later ++ more,
      e',
      rw (f', f) (append_assoc before (any_other (login_request full) ∷ later) more),
      g,
    )

Known-Extends :
    (wire wire' : Option Wire) (request : Option LoginRequest)
    → Extends wire wire'
    → Known wire request
    → Known wire' request
unfolding Known
Known-Extends wire wire' none x k = tt
Known-Extends wire wire' (some kept) x k = Asked-Extends wire wire' kept x k

-- Every state but a closed one is kept when the wire only grows.
pub Holds-Extends :
    (state : ViewerState) (io io' : SessionIo) (hash : Option Hash) (request : Option LoginRequest)
    (p : Permissions) (info : Option PeerInfo)
    → is_closed state ≡ false
    → Extends io.wire io'.wire
    → Holds state io hash request p info
    → Holds state io' hash request p info
unfolding Holds
Holds-Extends await_hash io io' hash request p info c x k = k
Holds-Extends await_login io io' hash request p info c x (h, e, k) =
    (h, e, Known-Extends io.wire io'.wire request x k)
Holds-Extends await_approval io io' hash request p info c x (h, e, k) =
    (h, e, Known-Extends io.wire io'.wire request x k)
Holds-Extends await_2fa io io' hash request p info c x (h, e, k) =
    (h, e, Known-Extends io.wire io'.wire request x k)
Holds-Extends active io io' hash request p info c x (kept, peer, e, f, k) =
    (kept, peer, e, f, Asked-Extends io.wire io'.wire kept x k)
Holds-Extends closed io io' hash request p info c x k = absurd (ground (arith, c))

-- Reports change permissions, which only a closed state fixes.
pub Holds-permissions :
    (state : ViewerState) (io : SessionIo) (hash : Option Hash) (request : Option LoginRequest)
    (p q : Permissions) (info : Option PeerInfo)
    → is_closed state ≡ false
    → Holds state io hash request p info
    → Holds state io hash request q info
unfolding Holds
Holds-permissions await_hash io hash request p q info c k = k
Holds-permissions await_login io hash request p q info c k = k
Holds-permissions await_approval io hash request p q info c k = k
Holds-permissions await_2fa io hash request p q info c k = k
Holds-permissions active io hash request p q info c k = k
Holds-permissions closed io hash request p q info c k = absurd (ground (arith, c))

-- A send that succeeds has added its message to the wire.
unfoldable pub Written : Option Wire → Message → Sent → Type 0
Written wire m (err e, io) = Unit {0}
Written wire m (ok u, io) =
    (w : Wire) × (w' : Wire) × (wire ≡ some w)
    × (io.wire ≡ some w')
    × (w'.outbound ≡ w.outbound ++ (m ∷ []))

written_as-Written :
    (fates : List Fate) (w : Wire) (prefetched : Option Message) (m : Message)
    → Written (some w) m (written_as fates w prefetched m)
unfolding written_as wrote_one Written
written_as-Written [] w prefetched m = (w, wrote_one w m, refl, refl, refl)
written_as-Written (completes ∷ fates) w prefetched m =
    (w, record (wrote_one w m) { fates = fates }, refl, refl, refl)
written_as-Written (breaks ∷ fates) w prefetched m = tt
written_as-Written (hangs ∷ fates) w prefetched m = tt

write-Written :
    (w : Wire) (prefetched : Option Message) (m : Message)
    → Written (some w) m (write w prefetched m)
unfolding write
write-Written w prefetched m = written_as-Written w.fates w prefetched m

send_if-Written :
    (b : Bool) (wire : Option Wire) (m : Message) (e : SessionError) (io : SessionIo) (s : Sent)
    → Written wire m s
    → Written wire m (if b then (err e, io) else s)
unfolding Written
send_if-Written true wire m e io s k = tt
send_if-Written false wire m e io s k = k

send_on-Written :
    (size : Message → ℕ) (wire : Option Wire) (prefetched : Option Message) (m : Message)
    → Written wire m (send_on size wire prefetched m)
unfolding send_on Written
send_on-Written size none prefetched m = tt
send_on-Written size (some w) prefetched m =
    send_if-Written (ltb (65536 - overhead w) (size m)) (some w) m oversized
      (record { wire = some w; prefetched = prefetched }) (write w prefetched m)
      (write-Written w prefetched m)

pub send_io-Written :
    (size : Message → ℕ) (io : SessionIo) (m : Message) → Written io.wire m (send_io size io m)
unfolding send_io
send_io-Written size io m = send_on-Written size io.wire io.prefetched m

-- The wire grows, in particular.
pub Written-Extends :
    (io io' : SessionIo) (m : Message) → Written io.wire m (ok tt, io') → Extends io.wire io'.wire
unfolding Written Extends
Written-Extends io io' m (w, w', e, e', f) v g = (w', m ∷ [], e', cc)
