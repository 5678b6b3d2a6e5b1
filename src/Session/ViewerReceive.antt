-- ===== src/Session/ViewerReceive.antt =====
-- crates/rd-engine/src/session.rs: every record keeps what holds of a viewer.
use Prim.Native.String.{String}
use package.text.Mathlib.Text.{◌==◌ as str_eq}
use mathlib.Core.Path.{subst}
use rust_desk_enhanced.Prelude.{
  ℕ, Bool, true, false, not, ◌&&◌, ◌||◌, Option, none, some, List, [], ◌∷◌, append-nil, ltb,
  is_some, ok, err, if-both, ◌≡◌, refl, sym, arith,
}
use rust_desk_enhanced.Messages.{
  LoginRequest, Hash, PeerInfo, PermissionInfo, Permission, permission_value, LoginResponse,
  refused, accepted, unset, Misc, close_reason, permission_info, chat_message, any_misc, TestDelay,
  Payload, test_delay, hash_payload, login_request, login_response, auth_2fa, misc, message_box,
  any_payload, is_empty_text,
}
use rust_desk_enhanced.Auth.Types.{Permissions}
use rust_desk_enhanced.Handshake.{
  Message, empty, signed_id, public_key, any_other, Inbound, message, unparsable, io_failure, Wire,
}
use rust_desk_enhanced.Session.{
  SessionIo, Incoming, got, ended, timed_out, failed, next_record, recv_from, recv_io, Sent,
  is_close,
}
use rust_desk_enhanced.Session.Viewer.{
  ViewerState, await_hash, await_login, await_approval, await_2fa, active, closed, ViewerEvent,
  ViewerSession, is_active, is_closed, is_await_hash, record_permission, record_known,
  set_permission, Outcome,
}
use rust_desk_enhanced.Session.Dispatch.{
  is_plain, unclaimed, after_echo, on_probe, on_hash, refused_state, on_response, on_permission,
  on_notice, on_misc, on_payload, dispatch, on_incoming, deadline_at, recv_inner, finish, recv,
}
use rust_desk_enhanced.Session.ViewerInvariant.{
  Asked, Known, Holds, IsValid, terminate-IsValid, Extends, Holds-Extends, Holds-permissions,
  Written, send_io-Written, Written-Extends,
}

-- A record that arrives leaves at most the wire behind it.
unfoldable Kept : SessionIo → Incoming × SessionIo → Type 0
Kept io (got m, io') = Extends io.wire io'.wire
Kept io (ended, io') = Unit {0}
Kept io (timed_out, io') = Unit {0}
Kept io (failed e, io') = Unit {0}

next_record-Kept :
    (w : Wire) (inbound : List Inbound) (prefetched : Option Message)
    → Kept (record { wire = some w; prefetched = prefetched }) (next_record w inbound)
unfolding next_record Kept Extends
next_record-Kept w [] prefetched = tt
next_record-Kept w (message m ∷ rest) prefetched = λ v e. (_, [], refl, cc (append-nil v.outbound))
next_record-Kept w (unparsable ∷ rest) prefetched = tt
next_record-Kept w (io_failure ∷ rest) prefetched = tt

recv_from-Kept :
    (late : Bool) (wire : Option Wire) (prefetched : Option Message)
    → Kept (record { wire = wire; prefetched = prefetched }) (recv_from late wire prefetched)
unfolding recv_from Kept Extends
recv_from-Kept late wire (some m) = λ v e. (v, [], e, sym (append-nil v.outbound))
recv_from-Kept late none none = tt
recv_from-Kept true (some w) none = tt
recv_from-Kept false (some w) none = next_record-Kept w w.inbound none

recv_io-Kept : (deadline arrival : ℕ) (io : SessionIo) → Kept io (recv_io deadline arrival io)
unfolding recv_io
recv_io-Kept deadline arrival io = recv_from-Kept (ltb deadline arrival) io.wire io.prefetched

-- What a receive leaves, before an error or an end terminates.
unfoldable Fine : Outcome ViewerEvent → Type 0
Fine (err e, v) = Unit {0}
Fine (ok e, v) = is_closed v.state ≡ false → IsValid v

finish-IsValid : (o : Outcome ViewerEvent) → Fine o → IsValid (finish o).1
unfolding finish Fine
finish-IsValid (err e, v) f = terminate-IsValid v
finish-IsValid (ok e, v) f =
    if-both (λ (o : Outcome ViewerEvent). IsValid o.1) (is_closed v.state)
      (λ c. terminate-IsValid v) (λ c. f c)

unclaimed-Fine : (v : ViewerSession) (m : Message) → IsValid v → Fine (unclaimed v m)
unfolding unclaimed Fine
unclaimed-Fine v m k = if-both Fine (is_active v.state) (λ a. λ _. k) (λ a. tt)

after_echo-Fine :
    (v : ViewerSession) (m : Message) (s : Sent)
    → Written v.io.wire m s
    → IsValid v
    → Fine (after_echo v s)
unfolding after_echo Fine
after_echo-Fine v m (err e, io) x k = tt
after_echo-Fine v m (ok u, io) x k = λ c.
    Holds-Extends v.state v.io io v.hash v.request v.permissions v.peer_info c
      (Written-Extends v.io io m x) k

on_probe-Fine :
    (size : Message → ℕ) (v : ViewerSession) (probe : TestDelay)
    → IsValid v
    → Fine (on_probe size v probe)
unfolding on_probe Fine
on_probe-Fine size v probe k =
    if-both Fine (is_active v.state) (λ a. λ _. k)
      (λ a.
        if-both Fine (not probe.from_client)
          (λ t. after_echo-Fine v _ _ (send_io-Written size v.io (any_other (test_delay probe))) k)
          (λ t. λ _. k))

-- A state fixes the request and the challenge.
unrequested :
    (state : ViewerState) (io : SessionIo) (hash : Option Hash) (request : Option LoginRequest)
    (p : Permissions) (info : Option PeerInfo)
    → not (is_await_hash state) ≡ false
    → Holds state io hash request p info
    → request ≡ none
unfolding Holds
unrequested await_hash io hash request p info e (_, r) = r
unrequested await_login io hash request p info e k = absurd (ground (arith, e))
unrequested await_approval io hash request p info e k = absurd (ground (arith, e))
unrequested await_2fa io hash request p info e k = absurd (ground (arith, e))
unrequested active io hash request p info e k = absurd (ground (arith, e))
unrequested closed io hash request p info e k = absurd (ground (arith, e))

requested :
    (state : ViewerState) (io : SessionIo) (hash : Option Hash) (kept : LoginRequest)
    (p : Permissions) (info : Option PeerInfo)
    → is_active state ≡ false
    → Holds state io hash (some kept) p info
    → (h : Hash) × (hash ≡ some h) × Asked io.wire kept
unfolding Holds Known
requested await_hash io hash kept p info a (_, r) = absurd (ground (arith, r))
requested await_login io hash kept p info a k = k
requested await_approval io hash kept p info a k = k
requested await_2fa io hash kept p info a k = k
requested active io hash kept p info a k = absurd (ground (arith, a))
requested closed io hash kept p info a (_, _, r, _, _) = absurd (ground (arith, r))

on_hash-Fine : (v : ViewerSession) (h : Hash) → IsValid v → Fine (on_hash v h)
unfolding on_hash Fine Holds Known
on_hash-Fine v h k =
    if-both Fine (not (is_await_hash v.state))
      (λ a. unclaimed-Fine v (any_other (hash_payload h)) k)
      (λ a.
        if-both Fine (is_empty_text h.challenge) (λ t. tt)
          (λ t. λ _. (
            h,
            refl,
            subst (Known v.io.wire)
                (sym (unrequested v.state v.io v.hash v.request v.permissions v.peer_info a k)) tt,
          )))

refused_state-Holds :
    (error : String) (io : SessionIo) (hash : Option Hash) (request : Option LoginRequest)
    (p : Permissions) (info : Option PeerInfo) (h : Hash)
    → hash ≡ some h
    → Known io.wire request
    → Holds (refused_state error) io hash request p info
unfolding refused_state Holds
refused_state-Holds error io hash request p info h e k =
    if-both (λ s. Holds s io hash request p info)
      (str_eq error "2FA Required"
        || str_eq error "Wrong 2FA Code"
        || str_eq error "2FA verification unsupported")
      (λ _. (h, e, k))
      (λ _.
        if-both (λ s. Holds s io hash request p info) (str_eq error "No Password Access")
          (λ _. (h, e, k)) (λ _. (h, e, k)))

-- A session that is not active but has made a request: its challenge and the request that was written.
Pending : ViewerSession → Type 0
Pending v =
    (kept : LoginRequest) × (h : Hash) × (v.request ≡ some kept)
    × (v.hash ≡ some h)
    × Asked v.io.wire kept

request_written :
    (v : ViewerSession) (request : Option LoginRequest)
    → v.request ≡ request
    → not (is_some request) ≡ false
    → is_active v.state ≡ false
    → IsValid v
    → Pending v
unfolding Pending
request_written v none e s a k = absurd (ground (arith, s))
request_written v (some kept) e s a k =
    let (h, f, asked) =
      requested v.state v.io v.hash kept v.permissions v.peer_info a
        (subst (λ r. Holds v.state v.io v.hash r v.permissions v.peer_info) e k) in
    (kept, h, e, f, asked)

on_response-Fine :
    (v : ViewerSession) (response : LoginResponse)
    → is_active v.state ≡ false
    → IsValid v
    → Fine (on_response v response)
unfolding on_response Fine Holds Known Pending
on_response-Fine v (refused error) a k =
    if-both Fine (not (is_some v.request)) (λ t. λ c. absurd (ground (arith, c)))
      (λ t. λ c.
        let (kept, h, e, f, asked) = request_written v v.request refl t a k in
        refused_state-Holds error v.io v.hash v.request v.permissions v.peer_info h f
          (subst (Known v.io.wire) (sym e) asked))
on_response-Fine v (accepted info) a k =
    if-both Fine (not (is_some v.request)) (λ t. tt)
      (λ t. λ c.
        let (kept, h, e, f, asked) = request_written v v.request refl t a k in
        (kept, info, e, refl, asked))
on_response-Fine v unset a k = tt

-- Reports change permissions only.
record_known-Holds :
    (permission : Option Permission) (info : PermissionInfo) (v : ViewerSession)
    → is_closed v.state ≡ false
    → IsValid v
    → IsValid (record_known permission info v)
unfolding record_known
record_known-Holds none info v c k = k
record_known-Holds (some permission) info v c k =
    Holds-permissions v.state v.io v.hash v.request v.permissions
      (set_permission permission info.enabled v.permissions) v.peer_info c k

record_known-state :
    (permission : Option Permission) (info : PermissionInfo) (v : ViewerSession)
    → (record_known permission info v).state ≡ v.state
unfolding record_known
record_known-state none info v = refl
record_known-state (some permission) info v = refl

on_permission-Fine :
    (v : ViewerSession) (info : PermissionInfo) → IsValid v → Fine (on_permission v info)
unfolding on_permission record_permission Fine
on_permission-Fine v info k = λ c.
    record_known-Holds (permission_value info.permission) info v
      (subst (λ s. is_closed s ≡ false)
        (record_known-state (permission_value info.permission) info v) c)
      k

on_notice-Fine : (v : ViewerSession) (m : Message) → IsValid v → Fine (on_notice v m)
unfolding on_notice Fine
on_notice-Fine v m k = if-both Fine (is_active v.state) (λ a. λ _. k) (λ a. λ _. k)

on_misc-Fine : (v : ViewerSession) (m : Misc) → IsValid v → Fine (on_misc v m)
unfolding on_misc
on_misc-Fine v (permission_info info) k = on_permission-Fine v info k
on_misc-Fine v (chat_message content) k = on_notice-Fine v _ k
on_misc-Fine v (close_reason reason) k = unclaimed-Fine v _ k
on_misc-Fine v (any_misc content) k = unclaimed-Fine v _ k

on_payload-Fine :
    (size : Message → ℕ) (v : ViewerSession) (p : Payload) → IsValid v → Fine (on_payload size v p)
unfolding on_payload
on_payload-Fine size v (test_delay probe) k = on_probe-Fine size v probe k
on_payload-Fine size v (hash_payload h) k = on_hash-Fine v h k
on_payload-Fine size v (login_response response) k =
    if-both Fine (is_active v.state) (λ a. unclaimed-Fine v _ k)
      (λ a. on_response-Fine v response a k)
on_payload-Fine size v (misc m) k = on_misc-Fine v m k
on_payload-Fine size v (message_box content) k = on_notice-Fine v _ k
on_payload-Fine size v (login_request request) k = unclaimed-Fine v _ k
on_payload-Fine size v (auth_2fa code) k = unclaimed-Fine v _ k
on_payload-Fine size v (any_payload content) k = unclaimed-Fine v _ k

dispatch-Fine :
    (size : Message → ℕ) (v : ViewerSession) (m : Message) → IsValid v → Fine (dispatch size v m)
unfolding dispatch Fine
dispatch-Fine size v empty k = λ _. k
dispatch-Fine size v (signed_id id) k =
    if-both Fine (is_await_hash v.state && is_plain v.security) (λ _. λ _. k)
      (λ _. unclaimed-Fine v _ k)
dispatch-Fine size v (public_key a s) k = unclaimed-Fine v _ k
dispatch-Fine size v (any_other p) k = on_payload-Fine size v p k

on_incoming-Fine :
    (size : Message → ℕ) (v : ViewerSession) (i : Incoming × SessionIo)
    → is_closed v.state ≡ false
    → Kept v.io i
    → IsValid v
    → Fine (on_incoming size v i)
unfolding on_incoming Fine Kept
on_incoming-Fine size v (got m, io) o x k =
    if-both Fine (is_close m) (λ _. λ c. absurd (ground (arith, c)))
      (λ _.
        dispatch-Fine size (record v { io = io }) m
          (Holds-Extends v.state v.io io v.hash v.request v.permissions v.peer_info o x k))
on_incoming-Fine size v (ended, io) o x k = λ c. absurd (ground (arith, c))
on_incoming-Fine size v (failed e, io) o x k = tt
on_incoming-Fine size v (timed_out, io) o x k = tt

recv_inner-Fine :
    (size : Message → ℕ) (now arrival : ℕ) (v : ViewerSession)
    → IsValid v
    → Fine (recv_inner size now arrival v)
unfolding recv_inner Fine
recv_inner-Fine size now arrival v k =
    if-both Fine (is_closed v.state) (λ c. λ _. k)
      (λ o.
        on_incoming-Fine size v (recv_io (deadline_at now v) arrival v.io) o
          (recv_io-Kept (deadline_at now v) arrival v.io) k)

pub recv-IsValid :
    (size : Message → ℕ) (now arrival : ℕ) (v : ViewerSession)
    → IsValid v
    → IsValid (recv size now arrival v).1
unfolding recv
recv-IsValid size now arrival v k =
    finish-IsValid (recv_inner size now arrival v) (recv_inner-Fine size now arrival v k)
