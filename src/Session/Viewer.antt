-- ===== src/Session/Viewer.antt =====
-- crates/rd-engine/src/session.rs: `ViewerSession`. Its owner closes a viewer whose call was dropped in a write, which
-- has lost its wire; here it is closed at once, as after a failed write.
use Prim.Native.String.{String}
use package.text.Mathlib.Text.{◌==◌ as str_eq}
use rust_desk_enhanced.Prelude.{
  ℕ, ◌+◌, Bool, true, false, not, ◌||◌, Option, none, some, List, [], ◌∷◌, leb, ◌==◌, is_some,
  if◌then◌else◌, Result, ok, err,
}
use rust_desk_enhanced.Messages.{
  LoginRequest, Hash, PeerInfo, is_empty_text, PermissionInfo, Permission, keyboard, clipboard,
  audio, file, permission_value, login_request, auth_2fa,
}
use rust_desk_enhanced.Auth.Credentials.{Crypto, salted_password, password_response}
use rust_desk_enhanced.Auth.Types.{Permissions, no_permissions}
use rust_desk_enhanced.Handshake.{Message, any_other, Security, Established}
use rust_desk_enhanced.Session.{
  SessionError, deadline_expired, login_not_allowed, no_challenge, desktop_only,
  os_login_unsupported, changed_identity, empty_password, not_awaiting_code, SessionIo, new_io,
  terminate_io, Sent, send_io, viewer_remote_defaults,
}

pub data ViewerState : Type 0 where
  await_hash await_login await_approval await_2fa active closed : ViewerState

pub data ViewerEvent : Type 0 where
  challenge progress closed_event : ViewerEvent
  login_failed : String → ViewerEvent
  authorized_event : PeerInfo → ViewerEvent
  permission_changed : Permissions → ViewerEvent
  pre_auth_control : Message → ViewerEvent
  payload : Message → ViewerEvent

pub record ViewerSession : Type 0 where
  pub io : SessionIo
  pub security : Security
  pub state : ViewerState
  pub hash : Option Hash
  pub request : Option LoginRequest
  pub permissions : Permissions
  pub permission_reports : List PermissionInfo
  pub peer_info : Option PeerInfo
  pub auth_deadline : ℕ
  pub idle_timeout : ℕ

unfoldable pub from_established : Established → (now auth_timeout idle_timeout : ℕ) → ViewerSession
from_established e now auth_timeout idle_timeout = record {
  io = new_io e.wire e.prefetched;
  security = e.security;
  state = await_hash;
  hash = none;
  request = none;
  permissions = viewer_remote_defaults;
  permission_reports = [];
  peer_info = none;
  auth_deadline = now + auth_timeout;
  idle_timeout = idle_timeout;
}

abbrev pub is_active : ViewerState → Bool
is_active active = true
is_active _ = false

abbrev pub is_closed : ViewerState → Bool
is_closed closed = true
is_closed _ = false

abbrev pub is_await_hash : ViewerState → Bool
is_await_hash await_hash = true
is_await_hash _ = false

abbrev pub is_await_2fa : ViewerState → Bool
is_await_2fa await_2fa = true
is_await_2fa _ = false

-- The states in which `login` is allowed.
abbrev pub may_login : ViewerState → Bool
may_login await_login = true
may_login await_approval = true
may_login await_2fa = true
may_login _ = false

-- `ViewerSession::permissions`
unfoldable pub remote_permissions : ViewerSession → Permissions
remote_permissions v = if is_active v.state then v.permissions else no_permissions

unfoldable pub terminate : ViewerSession → ViewerSession
terminate v = record v {
  state = closed;
  permissions = no_permissions;
  hash = none;
  request = none;
  permission_reports = [];
  peer_info = none;
  io = terminate_io;
}

-- The `match permission`.
unfoldable pub set_permission : Permission → Bool → Permissions → Permissions
set_permission keyboard enabled p = record p { keyboard = enabled }
set_permission clipboard enabled p = record p { clipboard = enabled }
set_permission audio enabled p = record p { audio = enabled }
set_permission file enabled p = record p { file = enabled }
set_permission _ enabled p = p

-- A report replaces the earlier one of its permission, or is added.
unfoldable pub update_report : PermissionInfo → List PermissionInfo → List PermissionInfo
update_report info [] = info ∷ []
update_report info (old ∷ rest) =
    let later = update_report info rest in
    if old.permission == info.permission then info ∷ rest else old ∷ later

unfoldable pub record_known : Option Permission → PermissionInfo → ViewerSession → ViewerSession
record_known none info v = v
record_known (some permission) info v = record v {
  permissions = set_permission permission info.enabled v.permissions;
  permission_reports = update_report info v.permission_reports;
}

unfoldable pub record_permission : PermissionInfo → ViewerSession → ViewerSession
record_permission info v = record_known (permission_value info.permission) info v

-- The answer of a call, with the session that it leaves.
abbrev pub Outcome : Type 0 → Type 0
Outcome A = Result SessionError A × ViewerSession

abbrev pub another_scope : Option LoginRequest → LoginRequest → Bool
another_scope none request = false
another_scope (some first) request =
    not (str_eq first.username request.username)
    || not (str_eq first.my_id request.my_id)
    || not (first.session_id == request.session_id)

-- The checks of `login` on the request that it is given.
unfoldable pub request_error : Option LoginRequest → LoginRequest → Option SessionError
request_error first request =
    if is_some request.union || is_empty_text request.username || is_empty_text request.my_id
    then some desktop_only
    else if not (is_empty_text request.os_login.username)
        || not (is_empty_text request.os_login.password)
    then some os_login_unsupported
    else if another_scope first request
    then some changed_identity
    else none

-- The password field of the request: nothing, or the response to the challenge.
unfoldable pub credential : Crypto → Hash → Option (List ℕ) → Result SessionError (List ℕ)
credential crypto hash none = ok []
credential crypto hash (some []) = err empty_password
credential crypto hash (some (b ∷ password)) =
    ok (password_response crypto (salted_password crypto (b ∷ password) hash.salt) hash.challenge)

unfoldable pub after_login_send : LoginRequest → ViewerSession → Sent → Outcome (Unit {0})
after_login_send retained v (err e, io) = (err e, terminate v)
after_login_send retained v (ok u, io) =
    (ok tt, record v { io = io; request = some retained; state = await_login })

unfoldable pub login_with :
    (Message → ℕ) → LoginRequest → Result SessionError (List ℕ) → ViewerSession → Outcome (Unit {0})
login_with size request (err e) v = (err e, v)
login_with size request (ok password) v =
    after_login_send (record request { password = [] }) v
      (send_io size v.io (any_other (login_request (record request { password = password }))))

unfoldable pub login_checked :
    (Message → ℕ)
    → Crypto
    → Option SessionError
    → LoginRequest
    → Option (List ℕ)
    → Hash
    → ViewerSession
    → Outcome (Unit {0})
login_checked size crypto (some e) request password h v = (err e, v)
login_checked size crypto none request password h v =
    login_with size request (credential crypto h password) v

unfoldable pub login_challenged :
    (Message → ℕ)
    → Crypto
    → LoginRequest
    → Option (List ℕ)
    → Option Hash
    → ViewerSession
    → Outcome (Unit {0})
login_challenged size crypto request password none v = (err no_challenge, v)
login_challenged size crypto request password (some h) v =
    login_checked size crypto (request_error v.request request) request password h v

unfoldable pub login :
    (Message → ℕ)
    → Crypto
    → (now : ℕ) → LoginRequest
    → Option (List ℕ)
    → ViewerSession
    → Outcome (Unit {0})
login size crypto now request password v =
    if leb v.auth_deadline now
    then (err deadline_expired, terminate v)
    else if not (may_login v.state)
    then (err login_not_allowed, v)
    else login_challenged size crypto request password v.hash v

-- A failed send terminates.
unfoldable pub after_send : ViewerSession → Sent → Outcome (Unit {0})
after_send v (err e, io) = (err e, terminate v)
after_send v (ok u, io) = (ok tt, record v { io = io })

unfoldable pub send_second_factor :
    (Message → ℕ) → (now : ℕ) → String → ViewerSession → Outcome (Unit {0})
send_second_factor size now code v =
    if leb v.auth_deadline now
    then (err deadline_expired, terminate v)
    else if not (is_await_2fa v.state)
    then (err not_awaiting_code, v)
    else after_send v (send_io size v.io (any_other (auth_2fa (record { code = code }))))
