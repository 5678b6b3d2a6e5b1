-- ===== src/Session/Dispatch.antt =====
-- crates/rd-engine/src/session.rs: what `ViewerSession` does with a record, and the end of a session.
use Prim.Native.String.{String}
use package.text.Mathlib.Text.{◌==◌ as str_eq}
use rust_desk_enhanced.Prelude.{
  ℕ, ◌+◌, Bool, true, false, not, ◌&&◌, ◌||◌, Option, none, some, is_some, if◌then◌else◌, Result,
  ok, err, is_err,
}
use rust_desk_enhanced.Messages.{
  LoginRequest, Hash, is_empty_text, PermissionInfo, LoginResponse, refused, accepted, unset, Misc,
  close_reason, permission_info, chat_message, any_misc, TestDelay, Payload, test_delay,
  hash_payload, login_request, login_response, auth_2fa, misc, message_box, any_payload,
}
use rust_desk_enhanced.Handshake.{
  Message, empty, signed_id, public_key, any_other, Wire, Security, encrypted, legacy_plain,
}
use rust_desk_enhanced.Session.{
  SessionError, invalid_challenge, unsolicited_success, empty_response, early_payload,
  not_authenticated, missing_request, receive_timeout, SessionIo, Incoming, got, ended, timed_out,
  failed, recv_io, Sent, send_io, take_parts, close_message, is_close, claims_of, viewer_side,
  AuthenticatedParts,
}
use rust_desk_enhanced.Session.Viewer.{
  ViewerState, await_login, await_approval, await_2fa, active, closed, ViewerEvent, challenge,
  progress, closed_event, login_failed, authorized_event, permission_changed, pre_auth_control,
  payload, ViewerSession, is_active, is_closed, is_await_hash, terminate, record_permission,
  Outcome,
}

abbrev pub is_plain : Security → Bool
is_plain (legacy_plain refresh) = true
is_plain (encrypted peer_id) = false

-- The end of `recv_inner`: a payload, which only an active session takes.
unfoldable pub unclaimed : ViewerSession → Message → Outcome ViewerEvent
unclaimed v m =
    if is_active v.state
    then (ok (payload m), v)
    else (err early_payload, record v { state = closed })

unfoldable pub after_echo : ViewerSession → Sent → Outcome ViewerEvent
after_echo v (err e, io) = (err e, record v { io = io })
after_echo v (ok u, io) = (ok progress, record v { io = io })

unfoldable pub on_probe : (Message → ℕ) → ViewerSession → TestDelay → Outcome ViewerEvent
on_probe size v probe =
    let m = any_other (test_delay probe) in
    if is_active v.state
    then (ok (payload m), v)
    else if not probe.from_client
    then after_echo v (send_io size v.io m)
    else (ok progress, v)

unfoldable pub on_hash : ViewerSession → Hash → Outcome ViewerEvent
on_hash v h =
    if not (is_await_hash v.state)
    then unclaimed v (any_other (hash_payload h))
    else if is_empty_text h.challenge
    then (err invalid_challenge, record v { state = closed })
    else (ok challenge, record v { hash = some h; state = await_login })

-- The state after the error of a login.
unfoldable pub refused_state : String → ViewerState
refused_state error =
    if str_eq error "2FA Required"
      || str_eq error "Wrong 2FA Code"
      || str_eq error "2FA verification unsupported"
    then await_2fa
    else if str_eq error "No Password Access"
    then await_approval
    else await_login

unfoldable pub on_response : ViewerSession → LoginResponse → Outcome ViewerEvent
on_response v (refused error) =
    if not (is_some v.request)
    then (ok (login_failed error), record v { state = closed })
    else (ok (login_failed error), record v { state = refused_state error })
on_response v (accepted info) =
    if not (is_some v.request)
    then (err unsolicited_success, v)
    else (ok (authorized_event info), record v { state = active; peer_info = some info })
on_response v unset = (err empty_response, record v { state = closed })

unfoldable pub on_permission : ViewerSession → PermissionInfo → Outcome ViewerEvent
on_permission v info =
    let v' = record_permission info v in
    (
      ok (
          if is_active v.state
          then permission_changed v'.permissions
          else pre_auth_control (any_other (misc (permission_info info)))),
      v',
    )

-- What a peer may show before the login succeeds.
unfoldable pub on_notice : ViewerSession → Message → Outcome ViewerEvent
on_notice v m = if is_active v.state then (ok (payload m), v) else (ok (pre_auth_control m), v)

unfoldable pub on_misc : ViewerSession → Misc → Outcome ViewerEvent
on_misc v (permission_info info) = on_permission v info
on_misc v (chat_message content) = on_notice v (any_other (misc (chat_message content)))
on_misc v (close_reason reason) = unclaimed v (any_other (misc (close_reason reason)))
on_misc v (any_misc content) = unclaimed v (any_other (misc (any_misc content)))

unfoldable pub on_payload : (Message → ℕ) → ViewerSession → Payload → Outcome ViewerEvent
on_payload size v (test_delay probe) = on_probe size v probe
on_payload size v (hash_payload h) = on_hash v h
on_payload size v (login_response response) =
    if is_active v.state
    then unclaimed v (any_other (login_response response))
    else on_response v response
on_payload size v (misc m) = on_misc v m
on_payload size v (message_box content) = on_notice v (any_other (message_box content))
on_payload size v (login_request request) = unclaimed v (any_other (login_request request))
on_payload size v (auth_2fa code) = unclaimed v (any_other (auth_2fa code))
on_payload size v (any_payload content) = unclaimed v (any_other (any_payload content))

-- The `match &message.union`, with what follows it.
unfoldable pub dispatch : (Message → ℕ) → ViewerSession → Message → Outcome ViewerEvent
dispatch size v empty = (ok progress, v)
dispatch size v (signed_id id) =
    if is_await_hash v.state && is_plain v.security
    then (ok progress, v)
    else unclaimed v (signed_id id)
dispatch size v (public_key a s) = unclaimed v (public_key a s)
dispatch size v (any_other p) = on_payload size v p

unfoldable pub on_incoming :
    (Message → ℕ) → ViewerSession → Incoming × SessionIo → Outcome ViewerEvent
on_incoming size v (got m, io) =
    if is_close m
    then (ok closed_event, record v { io = io; state = closed })
    else dispatch size (record v { io = io }) m
on_incoming size v (ended, io) = (ok closed_event, record v { io = io; state = closed })
on_incoming size v (failed e, io) = (err e, record v { io = io; state = closed })
on_incoming size v (timed_out, io) = (err receive_timeout, record v { io = io; state = closed })

abbrev pub deadline_at : ℕ → ViewerSession → ℕ
deadline_at now v = if is_active v.state then now + v.idle_timeout else v.auth_deadline

unfoldable pub recv_inner : (Message → ℕ) → (now arrival : ℕ) → ViewerSession → Outcome ViewerEvent
recv_inner size now arrival v =
    if is_closed v.state
    then (ok closed_event, v)
    else on_incoming size v (recv_io (deadline_at now v) arrival v.io)

-- An error or a closed state terminates.
unfoldable pub finish : Outcome ViewerEvent → Outcome ViewerEvent
finish (r, v) = if is_err r || is_closed v.state then (r, terminate v) else (r, v)

unfoldable pub recv : (Message → ℕ) → (now arrival : ℕ) → ViewerSession → Outcome ViewerEvent
recv size now arrival v = finish (recv_inner size now arrival v)

unfoldable pub close : (Message → ℕ) → ViewerSession → Outcome (Unit {0})
close size v =
    if is_closed v.state then (ok tt, v) else ((send_io size v.io close_message).0, terminate v)

unfoldable pub parts_with :
    ViewerSession → LoginRequest → Result SessionError Wire → Result SessionError AuthenticatedParts
parts_with v request (err e) = err e
parts_with v request (ok wire) = ok (record {
  wire = wire;
  side = viewer_side;
  security = v.security;
  permissions = v.permissions;
  permission_reports = v.permission_reports;
  claims = claims_of request;
  peer_info = v.peer_info;
})

unfoldable pub parts_of :
    ViewerSession → Option LoginRequest → Result SessionError AuthenticatedParts
parts_of v none = err missing_request
parts_of v (some request) = parts_with v request (take_parts v.io)

unfoldable pub into_authenticated_parts : ViewerSession → Result SessionError AuthenticatedParts
into_authenticated_parts v =
    if not (is_active v.state) then err not_authenticated else parts_of v v.request
