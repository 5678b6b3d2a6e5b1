-- ===== src/Session/ViewerEvents.antt =====
-- crates/rd-engine/src/session.rs: in which state a viewer reports what.
use mathlib.Core.Path.{subst}
use rust_desk_enhanced.Prelude.{
  ℕ, Bool, true, false, not, ◌&&◌, is_some, ok, err, if-both, ◌≡◌, ◌≢◌, refl, ap, arith,
}
use rust_desk_enhanced.Messages.{
  Hash, PermissionInfo, LoginResponse, refused, accepted, unset, Misc, close_reason,
  permission_info, chat_message, any_misc, TestDelay, Payload, test_delay, hash_payload,
  login_request, login_response, auth_2fa, misc, message_box, any_payload, is_empty_text,
}
use rust_desk_enhanced.Handshake.{Message, empty, signed_id, public_key, any_other}
use rust_desk_enhanced.Session.{SessionIo, Incoming, got, ended, timed_out, failed, Sent, is_close}
use rust_desk_enhanced.Session.Viewer.{
  ViewerState, await_hash, await_login, await_approval, await_2fa, active, closed, ViewerEvent,
  challenge, progress, closed_event, login_failed, authorized_event, permission_changed,
  pre_auth_control, payload, ViewerSession, is_active, is_closed, is_await_hash, Outcome,
}
use rust_desk_enhanced.Session.Dispatch.{
  is_plain, unclaimed, after_echo, on_probe, on_hash, on_response, on_permission, on_notice,
  on_misc, on_payload, dispatch, on_incoming, recv_inner, finish, recv,
}

-- The state that an event needs. `asked`: there is a request.
unfoldable pub Allowed : ViewerState → (asked : Bool) → ViewerEvent → Type 0
Allowed s asked (payload m) = s ≡ active
Allowed s asked (permission_changed p) = s ≡ active
Allowed s asked (pre_auth_control m) = s ≢ active
Allowed s asked (authorized_event info) = (s ≢ active) × (asked ≡ true)
Allowed s asked challenge = s ≡ await_hash
Allowed s asked (login_failed m) = s ≢ active
Allowed s asked progress = s ≢ closed
Allowed s asked closed_event = Unit {0}

-- The event that a call reports, if it does, is allowed in `s`.
unfoldable Reports : ViewerState → Bool → Outcome ViewerEvent → Type 0
Reports s asked (err e, v) = Unit {0}
Reports s asked (ok e, v) = Allowed s asked e

abbrev From : ViewerSession → Outcome ViewerEvent → Type 0
From v o = Reports v.state (is_some v.request) o

is_active-active : (s : ViewerState) → is_active s ≡ true → s ≡ active
is_active-active active e = refl
is_active-active await_hash e = absurd (ground (arith, e))
is_active-active await_login e = absurd (ground (arith, e))
is_active-active await_approval e = absurd (ground (arith, e))
is_active-active await_2fa e = absurd (ground (arith, e))
is_active-active closed e = absurd (ground (arith, e))

active-is_active : (s : ViewerState) → is_active s ≡ false → s ≢ active
active-is_active s a = λ e. ground (arith, a, e)

closed-is_closed : (s : ViewerState) → is_closed s ≡ false → s ≢ closed
closed-is_closed s a = λ e. ground (arith, a, e)

is_await_hash-await_hash : (s : ViewerState) → not (is_await_hash s) ≡ false → s ≡ await_hash
is_await_hash-await_hash await_hash e = refl
is_await_hash-await_hash active e = absurd (ground (arith, e))
is_await_hash-await_hash await_login e = absurd (ground (arith, e))
is_await_hash-await_hash await_approval e = absurd (ground (arith, e))
is_await_hash-await_hash await_2fa e = absurd (ground (arith, e))
is_await_hash-await_hash closed e = absurd (ground (arith, e))

unclaimed-From : (v : ViewerSession) (m : Message) → From v (unclaimed v m)
unfolding unclaimed Reports Allowed
unclaimed-From v m =
    if-both (From v) (is_active v.state) (λ a. is_active-active v.state a) (λ a. tt)

on_notice-From : (v : ViewerSession) (m : Message) → From v (on_notice v m)
unfolding on_notice Reports Allowed
on_notice-From v m =
    if-both (From v) (is_active v.state) (λ a. is_active-active v.state a)
      (λ a. active-is_active v.state a)

after_echo-From :
    (v : ViewerSession) (s : Sent) → is_closed v.state ≡ false → From v (after_echo v s)
unfolding after_echo Reports Allowed
after_echo-From v (err e, io) o = tt
after_echo-From v (ok u, io) o = closed-is_closed v.state o

on_probe-From :
    (size : Message → ℕ) (v : ViewerSession) (probe : TestDelay)
    → is_closed v.state ≡ false
    → From v (on_probe size v probe)
unfolding on_probe Reports Allowed
on_probe-From size v probe o =
    if-both (From v) (is_active v.state) (λ a. is_active-active v.state a)
      (λ a.
        if-both (From v) (not probe.from_client) (λ t. after_echo-From v _ o)
          (λ t. closed-is_closed v.state o))

on_hash-From : (v : ViewerSession) (h : Hash) → From v (on_hash v h)
unfolding on_hash Reports Allowed
on_hash-From v h =
    if-both (From v) (not (is_await_hash v.state)) (λ a. unclaimed-From v _)
      (λ a.
        if-both (From v) (is_empty_text h.challenge) (λ t. tt)
          (λ t. is_await_hash-await_hash v.state a))

on_response-From :
    (v : ViewerSession) (response : LoginResponse)
    → is_active v.state ≡ false
    → From v (on_response v response)
unfolding on_response Reports Allowed
on_response-From v (refused error) a =
    if-both (From v) (not (is_some v.request)) (λ t. active-is_active v.state a)
      (λ t. active-is_active v.state a)
on_response-From v (accepted info) a =
    if-both (From v) (not (is_some v.request)) (λ t. tt)
      (λ t. (active-is_active v.state a, ground (arith, t)))
on_response-From v unset a = tt

on_permission-From : (v : ViewerSession) (info : PermissionInfo) → From v (on_permission v info)
unfolding on_permission Reports Allowed
on_permission-From v info =
    if-both (Allowed v.state (is_some v.request)) (is_active v.state)
      (λ a. is_active-active v.state a) (λ a. active-is_active v.state a)

on_misc-From : (v : ViewerSession) (m : Misc) → From v (on_misc v m)
unfolding on_misc
on_misc-From v (permission_info info) = on_permission-From v info
on_misc-From v (chat_message content) = on_notice-From v _
on_misc-From v (close_reason reason) = unclaimed-From v _
on_misc-From v (any_misc content) = unclaimed-From v _

on_payload-From :
    (size : Message → ℕ) (v : ViewerSession) (p : Payload)
    → is_closed v.state ≡ false
    → From v (on_payload size v p)
unfolding on_payload
on_payload-From size v (test_delay probe) o = on_probe-From size v probe o
on_payload-From size v (hash_payload h) o = on_hash-From v h
on_payload-From size v (login_response response) o =
    if-both (From v) (is_active v.state) (λ a. unclaimed-From v _)
      (λ a. on_response-From v response a)
on_payload-From size v (misc m) o = on_misc-From v m
on_payload-From size v (message_box content) o = on_notice-From v _
on_payload-From size v (login_request request) o = unclaimed-From v _
on_payload-From size v (auth_2fa code) o = unclaimed-From v _
on_payload-From size v (any_payload content) o = unclaimed-From v _

dispatch-From :
    (size : Message → ℕ) (v : ViewerSession) (m : Message)
    → is_closed v.state ≡ false
    → From v (dispatch size v m)
unfolding dispatch Reports Allowed
dispatch-From size v empty o = closed-is_closed v.state o
dispatch-From size v (signed_id id) o =
    if-both (From v) (is_await_hash v.state && is_plain v.security)
      (λ _. closed-is_closed v.state o) (λ _. unclaimed-From v _)
dispatch-From size v (public_key a s) o = unclaimed-From v _
dispatch-From size v (any_other p) o = on_payload-From size v p o

on_incoming-From :
    (size : Message → ℕ) (v : ViewerSession) (i : Incoming × SessionIo)
    → is_closed v.state ≡ false
    → From v (on_incoming size v i)
unfolding on_incoming Reports Allowed
on_incoming-From size v (got m, io) o =
    if-both (From v) (is_close m) (λ _. tt) (λ _. dispatch-From size (record v { io = io }) m o)
on_incoming-From size v (ended, io) o = tt
on_incoming-From size v (failed e, io) o = tt
on_incoming-From size v (timed_out, io) o = tt

recv_inner-From :
    (size : Message → ℕ) (now arrival : ℕ) (v : ViewerSession)
    → From v (recv_inner size now arrival v)
unfolding recv_inner Reports Allowed
recv_inner-From size now arrival v =
    if-both (From v) (is_closed v.state) (λ c. tt) (λ o. on_incoming-From size v _ o)

-- The end of a receive changes no report.
finish-From : (v : ViewerSession) (o : Outcome ViewerEvent) → From v o → From v (finish o)
unfolding finish Reports
finish-From v (err e, w) f = tt
finish-From v (ok e, w) f = if-both (From v) (is_closed w.state) (λ _. f) (λ _. f)

From-event :
    (v : ViewerSession) (o : Outcome ViewerEvent) (e : ViewerEvent)
    → From v o
    → o.0 ≡ ok e
    → Allowed v.state (is_some v.request) e
unfolding Reports
From-event v (err x, w) e f h = absurd (ground (arith, h))
From-event v (ok e', w) e f h = subst (Reports v.state (is_some v.request)) (ap (λ r. (r, w)) h) f

-- Whatever a peer sends: a receive hands over an application record or a permission change only in an
-- active session, reports that a login was accepted only when a login request was made and the session is
-- not active yet, takes a challenge only while it waits for the first one, and shows a notice or a login's
-- failure only before the session is active.
pub recv-Allowed :
    (size : Message → ℕ) (now arrival : ℕ) (v : ViewerSession) (e : ViewerEvent)
    → (recv size now arrival v).0 ≡ ok e
    → Allowed v.state (is_some v.request) e
unfolding recv
recv-Allowed size now arrival v e h =
    From-event v (recv size now arrival v) e (finish-From v _ (recv_inner-From size now arrival v))
      h
