-- ===== src/Session/HostSteps.antt =====
-- crates/rd-engine/src/session.rs: every call keeps what holds of a host session.
use mathlib.Core.Path.{subst}
use rust_desk_enhanced.Prelude.{
  ℕ, Bool, false, not, ◌&&◌, List, [], ◌∷◌, leb, ok, err, ◌≡◌, inl, inr, refl, sym, arith, if-both,
}
use rust_desk_enhanced.Messages.{
  LoginRequest, Auth2fa, TestDelay, Payload, test_delay, hash_payload, login_request,
  login_response, auth_2fa, misc, message_box, any_payload,
}
use rust_desk_enhanced.Auth.Credentials.{Crypto}
use rust_desk_enhanced.Auth.Types.{
  Permissions, no_permissions, HostAuthState, await_login, await_approval, await_2fa, authorized,
  closed, AuthAction, error, pending_approval_action, authorized_action, ignored, HostAuth,
}
use rust_desk_enhanced.Auth.Machine as Machine
use rust_desk_enhanced.Auth.Outcomes.{
  IsOpen, Settles, Decides, login-Decides, poll_approval-Decides, second_factor-Decides,
}
use rust_desk_enhanced.Handshake.{Message, empty, signed_id, public_key, any_other}
use rust_desk_enhanced.Session.{
  SessionIo, terminate_io, Incoming, got, ended, timed_out, failed, is_close, close_message, Sent,
}
use rust_desk_enhanced.Session.Host.{
  HostEvent, HostSession, is_authorized, is_closed, reports, version_of, Outcome, send_all,
  apply_inner, apply, poll_approval, on_probe, unclaimed, on_payload, dispatch, on_incoming,
  deadline_at, recv_inner, recv, closed_after, is_abandoned, shut, close,
}
use rust_desk_enhanced.Session.Arrivals.{
  Claims, ClaimsNext, ClaimsOn, Arrives, Read, recv_io-Read, Unread, send_io-Unread,
}
use rust_desk_enhanced.Session.HostInvariant.{
  Chain, Gate, IsSound, Fine, Chain-step, Chain-close, shut-IsSound, finish-IsSound, after-Fine,
}

Gate-open :
    (s : HostAuthState) (p grant : Permissions) → IsOpen s → Gate s p grant → p ≡ no_permissions
Gate-open authorized p grant o g = absurd o
Gate-open await_login p grant o g = g
Gate-open await_approval p grant o g = g
Gate-open await_2fa p grant o g = g
Gate-open closed p grant o g = g

open-Gate :
    (s : HostAuthState) (p grant : Permissions) → IsOpen s → p ≡ no_permissions → Gate s p grant
open-Gate authorized p grant o g = absurd o
open-Gate await_login p grant o g = g
open-Gate await_approval p grant o g = g
open-Gate await_2fa p grant o g = g
open-Gate closed p grant o g = g

not_authorized-IsOpen : (s : HostAuthState) → is_authorized s ≡ false → IsOpen s
not_authorized-IsOpen authorized e = absurd (ground (arith, e))
not_authorized-IsOpen await_login e = tt
not_authorized-IsOpen await_approval e = tt
not_authorized-IsOpen await_2fa e = tt
not_authorized-IsOpen closed e = tt

module _ {W : Type 0} (crypto : Crypto) (Asked : LoginRequest → Type 0)
    (Coded : Auth2fa → Type 0) where
  send_all-Fine :
      (size : Message → ℕ) (a : HostAuth W) (ms : List Message) (h : HostSession W)
      (next : HostSession W → Outcome W HostEvent)
      → Chain crypto Asked Coded a h.auth
      → Arrives Asked Coded h.io
      → Gate h.auth.state h.permissions h.auth.grant
      → ((io : SessionIo)
          → Arrives Asked Coded io
          → Fine crypto Asked Coded a (next (record h { io = io })))
      → Fine crypto Asked Coded a (send_all size ms h next)
  unfolding send_all
  send_all-Fine size a [] h next k r g f = f h.io r
  send_all-Fine size a (m ∷ ms) h next k r g f =
      after-Fine crypto Asked Coded a h size m _ k r g
        (λ io r'. send_all-Fine size a ms (record h { io = io }) next k r' g f)

  -- What an answer of the login does to the session, when the permissions were none.
  apply_inner-Fine :
      (size : Message → ℕ) (a : HostAuth W) (h : HostSession W) (action : AuthAction)
      → h.permissions ≡ no_permissions
      → Settles (action, h.auth)
      → Chain crypto Asked Coded a h.auth
      → Arrives Asked Coded h.io
      → Fine crypto Asked Coded a (apply_inner size h action)
  unfolding apply_inner Fine Settles
  apply_inner-Fine size a h ignored n s k r =
      (k, λ _. (r, open-Gate h.auth.state h.permissions _ s n))
  apply_inner-Fine size a h pending_approval_action n s k r =
      if-both (Fine crypto Asked Coded a) (version_of h.auth.request)
        (λ _.
          after-Fine crypto Asked Coded a h size _ _ k r
            (open-Gate h.auth.state h.permissions _ s n)
            (λ io r'. (k, λ _. (r', open-Gate h.auth.state h.permissions _ s n))))
        (λ _. (k, λ _. (r, open-Gate h.auth.state h.permissions _ s n)))
  apply_inner-Fine size a h (error m t) n s k r =
      after-Fine crypto Asked Coded a h size _ _ k r (open-Gate h.auth.state h.permissions _ s n)
        (λ io r'. (k, λ _. (r', open-Gate h.auth.state h.permissions _ s n)))
  apply_inner-Fine size a h (authorized_action info p) n (s, g) k r =
      let granted : Gate h.auth.state p h.auth.grant =
        subst (λ x. Gate x p h.auth.grant) (sym s) (inr (sym g)) in
      after-Fine crypto Asked Coded a h size _ _ k r
        (subst (λ x. Gate x h.permissions h.auth.grant) (sym s) (inl n))
        (λ io r'.
          send_all-Fine size a (reports p) (record h { io = io; permissions = p }) _ k r' granted
            (λ io' r''. (k, λ _. (r'', granted))))

  ignored-Fine :
      (size : Message → ℕ) (a : HostAuth W) (h : HostSession W)
      → IsSound crypto Asked Coded a h
      → Fine crypto Asked Coded a (apply_inner size h ignored)
  unfolding apply_inner Fine IsSound
  ignored-Fine size a h (k, g, r) = (k, λ _. (r, g))

  -- `apply` after a call of the login.
  apply-IsSound :
      (size : Message → ℕ) (a : HostAuth W) (h : HostSession W) (r : AuthAction × HostAuth W)
      → Decides h.auth r
      → Chain crypto Asked Coded a r.1
      → IsSound crypto Asked Coded a h
      → IsSound crypto Asked Coded a (apply size h r).1
  unfolding apply IsSound Decides
  apply-IsSound size a h r (inl e) k s =
      subst (λ x. IsSound crypto Asked Coded a (apply size h x).1) (sym e)
        (finish-IsSound crypto Asked Coded a _ (ignored-Fine size a h s))
  apply-IsSound size a h (action, auth) (inr (o, s)) k (k', g, r) =
      finish-IsSound crypto Asked Coded a _ (
        apply_inner-Fine size a (record h { auth = auth }) action
          (Gate-open h.auth.state h.permissions _ o g) s k r)

  -- A sound session is one that a call may leave.
  Fine-IsSound :
      (a : HostAuth W) (o : Outcome W HostEvent)
      → IsSound crypto Asked Coded a o.1
      → Fine crypto Asked Coded a o
  unfolding Fine IsSound
  Fine-IsSound a (err e, h) (k, g, r) = (k, λ _. (r, g))
  Fine-IsSound a (ok e, h) (k, g, r) = (k, λ _. (r, g))

  pub poll_approval-IsSound :
      (size : Message → ℕ) (now : ℕ) (a : HostAuth W) (h : HostSession W)
      → IsSound crypto Asked Coded a h
      → IsSound crypto Asked Coded a (poll_approval size now h).1
  unfolding poll_approval IsSound Machine.close Machine.step terminate_io ClaimsNext ClaimsOn
  poll_approval-IsSound size now a h (k, g, r) =
      if-both (λ (o : Outcome W HostEvent). IsSound crypto Asked Coded a o.1)
        (leb h.auth_deadline now && not (is_authorized h.auth.state))
        (λ late. (
          Chain-close crypto Asked Coded a h.auth k,
          Gate-open h.auth.state h.permissions _
              (not_authorized-IsOpen h.auth.state (ground (arith, late))) g,
          (tt, tt),
        ))
        (λ _.
          apply-IsSound size a h _ (poll_approval-Decides h.auth)
            (Chain-step crypto Asked Coded a h.auth Machine.polls tt k) (k, g, r))

  on_probe-Fine :
      (size : Message → ℕ) (a : HostAuth W) (h : HostSession W) (probe : TestDelay)
      → IsSound crypto Asked Coded a h
      → Fine crypto Asked Coded a (on_probe size h probe)
  unfolding on_probe IsSound Fine
  on_probe-Fine size a h probe (k, g, r) =
      if-both (Fine crypto Asked Coded a) probe.from_client
        (λ _. after-Fine crypto Asked Coded a h size _ _ k r g (λ io r'. (k, λ _. (r', g))))
        (λ _. (k, λ _. (r, g)))

  unclaimed-Fine :
      (size : Message → ℕ) (a : HostAuth W) (h : HostSession W)
      → IsSound crypto Asked Coded a h
      → Fine crypto Asked Coded a (unclaimed size h)
  unfolding unclaimed IsSound Fine
  unclaimed-Fine size a h (k, g, r) =
      if-both (Fine crypto Asked Coded a) (not (is_authorized h.auth.state))
        (λ _.
          after-Fine crypto Asked Coded a h size _ _ k r g
            (λ io r'. (Chain-close crypto Asked Coded a h.auth k, λ x. absurd (ground (arith, x)))))
        (λ _. (k, λ _. (r, g)))

  on_payload-Fine :
      (size : Message → ℕ) (a : HostAuth W) (h : HostSession W) (p : Payload)
      → Claims Asked Coded (any_other p)
      → IsSound crypto Asked Coded a h
      → Fine crypto Asked Coded a (on_payload size crypto h p)
  unfolding on_payload IsSound Claims Machine.step
  on_payload-Fine size a h (test_delay probe) c s = on_probe-Fine size a h probe s
  on_payload-Fine size a h (login_request request) c (k, g, r) = Fine-IsSound a _ (
      apply-IsSound size a h _ (login-Decides crypto h.auth request)
        (Chain-step crypto Asked Coded a h.auth (Machine.logs_in request) c k) (k, g, r))
  on_payload-Fine size a h (auth_2fa code) c (k, g, r) = Fine-IsSound a _ (
      apply-IsSound size a h _ (second_factor-Decides h.auth code)
        (Chain-step crypto Asked Coded a h.auth (Machine.sends_code code) c k) (k, g, r))
  on_payload-Fine size a h (hash_payload x) c s = unclaimed-Fine size a h s
  on_payload-Fine size a h (login_response x) c s = unclaimed-Fine size a h s
  on_payload-Fine size a h (misc x) c s = unclaimed-Fine size a h s
  on_payload-Fine size a h (message_box x) c s = unclaimed-Fine size a h s
  on_payload-Fine size a h (any_payload x) c s = unclaimed-Fine size a h s

  dispatch-Fine :
      (size : Message → ℕ) (a : HostAuth W) (h : HostSession W) (m : Message)
      → Claims Asked Coded m
      → IsSound crypto Asked Coded a h
      → Fine crypto Asked Coded a (dispatch size crypto h m)
  unfolding dispatch IsSound Fine
  dispatch-Fine size a h empty c (k, g, r) = (k, λ _. (r, g))
  dispatch-Fine size a h (signed_id x) c s = unclaimed-Fine size a h s
  dispatch-Fine size a h (public_key x y) c s = unclaimed-Fine size a h s
  dispatch-Fine size a h (any_other p) c s = on_payload-Fine size a h p c s

  on_incoming-Fine :
      (size : Message → ℕ) (a : HostAuth W) (h : HostSession W) (i : Incoming × SessionIo)
      → Read Asked Coded i
      → IsSound crypto Asked Coded a h
      → Fine crypto Asked Coded a (on_incoming size crypto h i)
  unfolding on_incoming IsSound Fine Read Machine.close Machine.step
  on_incoming-Fine size a h (got m, io) (c, r') (k, g, r) =
      if-both (Fine crypto Asked Coded a) (is_close m)
        (λ _. (Chain-close crypto Asked Coded a h.auth k, λ x. absurd (ground (arith, x))))
        (λ _. dispatch-Fine size a (record h { io = io }) m c (k, g, r'))
  on_incoming-Fine size a h (ended, io) c (k, g, r) =
      (Chain-close crypto Asked Coded a h.auth k, λ x. absurd (ground (arith, x)))
  on_incoming-Fine size a h (failed e, io) c (k, g, r) =
      (Chain-close crypto Asked Coded a h.auth k, λ x. absurd (ground (arith, x, c)))
  on_incoming-Fine size a h (timed_out, io) c (k, g, r) =
      (Chain-close crypto Asked Coded a h.auth k, λ x. absurd (ground (arith, x)))

  recv_inner-Fine :
      (size : Message → ℕ) (notified : Bool) (now arrival : ℕ) (a : HostAuth W) (h : HostSession W)
      → IsSound crypto Asked Coded a h
      → Fine crypto Asked Coded a (recv_inner size crypto notified now arrival h)
  unfolding recv_inner IsSound Fine
  recv_inner-Fine size notified now arrival a h (k, g, r) =
      if-both (Fine crypto Asked Coded a) (is_closed h.auth.state) (λ c. (k, λ _. (r, g)))
        (λ o.
          if-both (Fine crypto Asked Coded a) notified
            (λ _. Fine-IsSound a _ (poll_approval-IsSound size now a h (k, g, r)))
            (λ _.
              on_incoming-Fine size a h _
                (recv_io-Read Asked Coded (deadline_at now h) arrival h.io r) (k, g, r)))

  pub recv-IsSound :
      (size : Message → ℕ) (notified : Bool) (now arrival : ℕ) (a : HostAuth W) (h : HostSession W)
      → IsSound crypto Asked Coded a h
      → IsSound crypto Asked Coded a (recv size crypto notified now arrival h).1
  unfolding recv
  recv-IsSound size notified now arrival a h s =
      finish-IsSound crypto Asked Coded a _ (recv_inner-Fine size notified now arrival a h s)

  closed_after-IsSound :
      (a : HostAuth W) (h : HostSession W) (s : Sent)
      → Unread Asked Coded h.io s
      → IsSound crypto Asked Coded a h
      → IsSound crypto Asked Coded a (closed_after h s).1
  unfolding closed_after IsSound Unread shut Machine.close
  closed_after-IsSound a h (r, io) x (k, g, y) =
      if-both (λ (o : Outcome W (Unit {0})). IsSound crypto Asked Coded a o.1) (is_abandoned r)
        (λ _. (Chain-close crypto Asked Coded a h.auth k, refl, x y))
        (λ _. shut-IsSound crypto Asked Coded a h k)

  pub close-IsSound :
      (size : Message → ℕ) (a : HostAuth W) (h : HostSession W)
      → IsSound crypto Asked Coded a h
      → IsSound crypto Asked Coded a (close size h).1
  unfolding close IsSound
  close-IsSound size a h (k, g, r) =
      if-both (λ (o : Outcome W (Unit {0})). IsSound crypto Asked Coded a o.1)
        (is_closed h.auth.state) (λ _. (k, g, r))
        (λ _.
          closed_after-IsSound a h _ (send_io-Unread Asked Coded size h.io close_message) (k, g, r))
