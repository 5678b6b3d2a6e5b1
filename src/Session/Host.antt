-- ===== src/Session/Host.antt =====
-- crates/rd-engine/src/session.rs: `HostSession`, around the login of Auth. A call that is dropped while it waits for a
-- record has changed nothing; one that is dropped while it writes is `abandoned` at that write.
use Prim.Native.String.{String}
use rust_desk_enhanced.Prelude.{
  ℕ, ◌+◌, Bool, true, false, not, ◌&&◌, ◌||◌, Option, none, some, List, [], ◌∷◌, leb, if◌then◌else◌,
  Result, ok, err, is_err, leb_int,
}
use rust_desk_enhanced.Messages.{
  LoginRequest, Permission, keyboard, clipboard, audio, file, permission_code, accepted,
  permission_info, misc, TestDelay, Payload, test_delay, hash_payload, login_request,
  login_response, auth_2fa,
}
use rust_desk_enhanced.Version.{get_version_number}
use rust_desk_enhanced.Auth.Credentials.{Crypto}
use rust_desk_enhanced.Auth.Types.{
  Permissions, no_permissions, HostAuthState, authorized, closed, AuthAction, error,
  pending_approval_action, authorized_action, ignored, HostAuthConfig, HostAuth,
}
use rust_desk_enhanced.Handshake.{
  Message, empty, signed_id, public_key, any_other, Wire, Security, Established,
}
use rust_desk_enhanced.Session.{
  SessionError, early_payload, not_authenticated, missing_request, receive_timeout, abandoned,
  deadline_expired, configuration, SessionIo, new_io, terminate_io, Incoming, got, ended, timed_out,
  failed, recv_io, Sent, send_io, take_parts, login_error, close_message, is_close, claims_of,
  host_side, AuthenticatedParts,
}
use rust_desk_enhanced.Auth.Machine as Machine

pub data HostEvent : Type 0 where
  progress await_approval_event unsupported closed_event : HostEvent
  login_rejected : String → HostEvent
  authorized_event : Permissions → HostEvent

pub record HostSession (W : Type 0) : Type 0 where
  pub io : SessionIo
  pub auth : HostAuth W
  pub security : Security
  pub permissions : Permissions
  pub ready : Bool
  pub auth_deadline : ℕ
  pub idle_timeout : ℕ

abbrev pub is_authorized : HostAuthState → Bool
is_authorized authorized = true
is_authorized _ = false

abbrev pub is_closed : HostAuthState → Bool
is_closed closed = true
is_closed _ = false

-- One `PermissionInfo` message.
abbrev pub report : Permission → Bool → Message
report permission enabled =
    any_other (
      misc
        (permission_info (record { permission = permission_code permission; enabled = enabled })))

-- The reports that follow a successful login.
abbrev pub reports : Permissions → List Message
reports p =
    report keyboard p.keyboard
    ∷ report clipboard p.clipboard
    ∷ report audio p.audio
    ∷ report file p.file
    ∷ []

abbrev pub version_of : Option LoginRequest → Bool
version_of none = false
version_of (some request) =
    leb_int (get_version_number "1.2.0") (get_version_number request.version)

-- The call was dropped during a write: nothing after its `await` was run.
abbrev pub is_abandoned_error : SessionError → Bool
is_abandoned_error abandoned = true
is_abandoned_error _ = false

abbrev pub is_abandoned : {A : Type 0} → Result SessionError A → Bool
is_abandoned (err e) = is_abandoned_error e
is_abandoned (ok a) = false

-- The answer of a call, with the session that it leaves.
abbrev pub Outcome : Type 0 → Type 0 → Type 0
Outcome W A = Result SessionError A × HostSession W

module _ {W : Type 0} where
  -- `self.io.send(…).await?`, and what follows it.
  unfoldable pub after :
      HostSession W → Sent → (HostSession W → Outcome W HostEvent) → Outcome W HostEvent
  after h (err e, io) next = (err e, record h { io = io })
  after h (ok u, io) next = next (record h { io = io })

  -- The loop over the permission reports.
  unfoldable pub send_all :
      (Message → ℕ)
      → List Message
      → HostSession W
      → (HostSession W → Outcome W HostEvent)
      → Outcome W HostEvent
  send_all size [] h next = next h
  send_all size (m ∷ ms) h next = after h (send_io size h.io m) (λ h'. send_all size ms h' next)

  -- A new session, once its challenge is sent.
  unfoldable pub greeted :
      Established
      → (now auth_timeout idle_timeout : ℕ) → HostAuth W
      → Sent
      → Result SessionError (HostSession W)
  greeted e now auth_timeout idle_timeout auth (err x, io) = err x
  greeted e now auth_timeout idle_timeout auth (ok u, io) = ok (record {
    io = io;
    auth = auth;
    security = e.security;
    permissions = no_permissions;
    ready = false;
    auth_deadline = now + auth_timeout;
    idle_timeout = idle_timeout;
  })

  unfoldable pub from_new :
      (Message → ℕ)
      → Established
      → (now auth_timeout idle_timeout : ℕ) → Result String (HostAuth W)
      → Result SessionError (HostSession W)
  from_new size e now auth_timeout idle_timeout (err m) = err (configuration m)
  from_new size e now auth_timeout idle_timeout (ok auth) =
      greeted e now auth_timeout idle_timeout auth
        (send_io size (new_io e.wire e.prefetched) (any_other (hash_payload auth.hash)))

  -- `HostSession::from_established`, given whether the crypto library starts and six random draws.
  unfoldable pub from_established :
      (Message → ℕ)
      → Bool
      → List ℕ
      → Established
      → HostAuthConfig W
      → W
      → (now auth_timeout idle_timeout : ℕ) → Result SessionError (HostSession W)
  from_established size starts draws e config w now auth_timeout idle_timeout =
      from_new size e now auth_timeout idle_timeout (Machine.new starts draws config w)

  unfoldable pub shut : HostSession W → HostSession W
  shut h = record h { auth = Machine.close h.auth; permissions = no_permissions; io = terminate_io }

  -- An error or a closed login ends the session; a call that was dropped leaves it as it was then.
  unfoldable pub finish : Outcome W HostEvent → Outcome W HostEvent
  finish (r, h) =
      if (is_err r || is_closed h.auth.state) && not (is_abandoned r) then (r, shut h) else (r, h)

  unfoldable pub apply_inner : (Message → ℕ) → HostSession W → AuthAction → Outcome W HostEvent
  apply_inner size h ignored = (ok progress, h)
  apply_inner size h pending_approval_action =
      if version_of h.auth.request
      then after h (send_io size h.io (login_error "No Password Access"))
          (λ h'. (ok await_approval_event, h'))
      else (ok await_approval_event, h)
  apply_inner size h (error message is_terminal) =
      after h (send_io size h.io (login_error message)) (λ h'. (ok (login_rejected message), h'))
  apply_inner size h (authorized_action info permissions) =
      after h (send_io size h.io (any_other (login_response (accepted info)))) (λ h'.
        send_all size (reports permissions) (record h' { permissions = permissions })
          (λ h''. (ok (authorized_event permissions), record h'' { ready = true })))

  -- `apply` on what a call of the login returned.
  unfoldable pub apply :
      (Message → ℕ) → HostSession W → AuthAction × HostAuth W → Outcome W HostEvent
  apply size h (action, auth) = finish (apply_inner size (record h { auth = auth }) action)

  unfoldable pub poll_approval : (Message → ℕ) → (now : ℕ) → HostSession W → Outcome W HostEvent
  poll_approval size now h =
      if leb h.auth_deadline now && not (is_authorized h.auth.state)
      then (err deadline_expired, record h { auth = Machine.close h.auth; io = terminate_io })
      else apply size h (Machine.poll_approval h.auth)

  unfoldable pub on_probe : (Message → ℕ) → HostSession W → TestDelay → Outcome W HostEvent
  on_probe size h probe =
      if probe.from_client
      then after h (send_io size h.io (any_other (test_delay probe))) (λ h'. (ok progress, h'))
      else (ok progress, h)

  -- A record that is neither a probe nor part of a login.
  unfoldable pub unclaimed : (Message → ℕ) → HostSession W → Outcome W HostEvent
  unclaimed size h =
      if not (is_authorized h.auth.state)
      then after h (send_io size h.io (login_error "Connection not allowed"))
          (λ h'. (err early_payload, record h' { auth = Machine.close h'.auth }))
      else (ok unsupported, h)

  unfoldable pub on_payload : (Message → ℕ) → Crypto → HostSession W → Payload → Outcome W HostEvent
  on_payload size crypto h (test_delay probe) = on_probe size h probe
  on_payload size crypto h (login_request request) =
      apply size h (Machine.login crypto h.auth request)
  on_payload size crypto h (auth_2fa code) = apply size h (Machine.second_factor h.auth code)
  on_payload size crypto h p = unclaimed size h

  unfoldable pub dispatch : (Message → ℕ) → Crypto → HostSession W → Message → Outcome W HostEvent
  dispatch size crypto h empty = (ok progress, h)
  dispatch size crypto h (signed_id id) = unclaimed size h
  dispatch size crypto h (public_key a s) = unclaimed size h
  dispatch size crypto h (any_other p) = on_payload size crypto h p

  abbrev pub close_auth : HostSession W → SessionIo → HostSession W
  close_auth h io = record h { auth = Machine.close h.auth; io = io }

  unfoldable pub on_incoming :
      (Message → ℕ) → Crypto → HostSession W → Incoming × SessionIo → Outcome W HostEvent
  on_incoming size crypto h (got m, io) =
      if is_close m
      then (ok closed_event, close_auth h io)
      else dispatch size crypto (record h { io = io }) m
  on_incoming size crypto h (ended, io) = (ok closed_event, close_auth h io)
  on_incoming size crypto h (failed e, io) = (err e, close_auth h io)
  on_incoming size crypto h (timed_out, io) = (err receive_timeout, close_auth h io)

  abbrev pub deadline_at : ℕ → HostSession W → ℕ
  deadline_at now h = if is_authorized h.auth.state then now + h.idle_timeout else h.auth_deadline

  -- `notified`: an approval was announced before the record was taken.
  unfoldable pub recv_inner :
      (Message → ℕ)
      → Crypto
      → (notified : Bool) → (now arrival : ℕ) → HostSession W
      → Outcome W HostEvent
  recv_inner size crypto notified now arrival h =
      if is_closed h.auth.state
      then (ok closed_event, h)
      else if notified
      then poll_approval size now h
      else on_incoming size crypto h (recv_io (deadline_at now h) arrival h.io)

  unfoldable pub recv :
      (Message → ℕ)
      → Crypto
      → (notified : Bool) → (now arrival : ℕ) → HostSession W
      → Outcome W HostEvent
  recv size crypto notified now arrival h = finish (recv_inner size crypto notified now arrival h)

  -- The login is closed and the permissions are gone before the message is written.
  unfoldable pub closed_after : HostSession W → Sent → Outcome W (Unit {0})
  closed_after h (r, io) = if is_abandoned r then (r, record (shut h) { io = io }) else (r, shut h)

  unfoldable pub close : (Message → ℕ) → HostSession W → Outcome W (Unit {0})
  close size h =
      if is_closed h.auth.state
      then (ok tt, h)
      else closed_after h (send_io size h.io close_message)

  unfoldable pub parts_with :
      HostSession W
      → LoginRequest
      → Result SessionError Wire
      → Result SessionError AuthenticatedParts
  parts_with h request (err e) = err e
  parts_with h request (ok wire) = ok (record {
    wire = wire;
    side = host_side;
    security = h.security;
    permissions = h.permissions;
    permission_reports = [];
    claims = claims_of request;
    peer_info = none;
  })

  unfoldable pub parts_of :
      HostSession W → Option LoginRequest → Result SessionError AuthenticatedParts
  parts_of h none = err missing_request
  parts_of h (some request) = parts_with h request (take_parts h.io)

  unfoldable pub into_authenticated_parts : HostSession W → Result SessionError AuthenticatedParts
  into_authenticated_parts h =
      if not (is_authorized h.auth.state) || not h.ready
      then err not_authenticated
      else parts_of h h.auth.request
