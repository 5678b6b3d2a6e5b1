-- ===== src/Session/ViewerSteps.antt =====
-- crates/rd-engine/src/session.rs: every call of a viewer keeps what holds of it.
use Prim.Native.String.{String}
use rust_desk_enhanced.Prelude.{
  ℕ, false, not, Option, none, some, List, [], leb, Result, ok, err, if-both, ◌≡◌, refl, arith,
}
use rust_desk_enhanced.Messages.{LoginRequest, Hash, login_request, auth_2fa}
use rust_desk_enhanced.Auth.Credentials.{Crypto}
use rust_desk_enhanced.Handshake.{Message, any_other}
use rust_desk_enhanced.Session.{SessionError, Sent}
use rust_desk_enhanced.Session.Viewer.{
  ViewerState, await_hash, await_login, await_approval, await_2fa, active, closed, ViewerSession,
  is_closed, is_await_2fa, may_login, Outcome, request_error, credential, after_login_send,
  login_with, login_checked, login_challenged, login, after_send, send_second_factor,
}
use rust_desk_enhanced.Session.Dispatch.{close}
use rust_desk_enhanced.Session.ViewerInvariant.{
  Asked, Known, Holds, IsValid, terminate-IsValid, Holds-Extends, Written, send_io-Written,
  Written-Extends,
}

-- A login leaves a valid session, whatever it answers.
abbrev pub Good : Outcome (Unit {0}) → Type 0
Good o = IsValid o.1

after_login_send-Good :
    (full : LoginRequest) (password : List ℕ) (h : Hash) (v : ViewerSession) (s : Sent)
    → v.hash ≡ some h
    → Written v.io.wire (any_other (login_request (record full { password = password }))) s
    → Good (after_login_send (record full { password = [] }) v s)
unfolding after_login_send Written Holds Known Asked
after_login_send-Good full password h v (err e, io) eh k = terminate-IsValid v
after_login_send-Good full password h v (ok u, io) eh (w, w', e, e', f) =
    (h, eh, (w', record full { password = password }, w.outbound, [], e', f, refl))

login_with-Good :
    (size : Message → ℕ) (request : LoginRequest) (password : Result SessionError (List ℕ))
    (h : Hash) (v : ViewerSession)
    → v.hash ≡ some h
    → IsValid v
    → Good (login_with size request password v)
unfolding login_with
login_with-Good size request (err e) h v eh k = k
login_with-Good size request (ok password) h v eh k =
    after_login_send-Good request password h v _ eh (
      send_io-Written size v.io
        (any_other (login_request (record request { password = password }))))

login_checked-Good :
    (size : Message → ℕ) (crypto : Crypto) (e : Option SessionError) (request : LoginRequest)
    (password : Option (List ℕ)) (h : Hash) (v : ViewerSession)
    → v.hash ≡ some h
    → IsValid v
    → Good (login_checked size crypto e request password h v)
unfolding login_checked
login_checked-Good size crypto (some e) request password h v eh k = k
login_checked-Good size crypto none request password h v eh k =
    login_with-Good size request (credential crypto h password) h v eh k

login_challenged-Good :
    (size : Message → ℕ) (crypto : Crypto) (request : LoginRequest) (password : Option (List ℕ))
    (hash : Option Hash) (v : ViewerSession)
    → v.hash ≡ hash
    → IsValid v
    → Good (login_challenged size crypto request password hash v)
unfolding login_challenged
login_challenged-Good size crypto request password none v eh k = k
login_challenged-Good size crypto request password (some h) v eh k =
    login_checked-Good size crypto (request_error v.request request) request password h v eh k

pub login-Good :
    (size : Message → ℕ) (crypto : Crypto) (now : ℕ) (request : LoginRequest)
    (password : Option (List ℕ)) (v : ViewerSession)
    → IsValid v
    → Good (login size crypto now request password v)
unfolding login
login-Good size crypto now request password v k =
    if-both Good (leb v.auth_deadline now) (λ late. terminate-IsValid v)
      (λ early.
        if-both Good (not (may_login v.state)) (λ refused. k)
          (λ allowed. login_challenged-Good size crypto request password v.hash v refl k))

after_send-Good :
    (v : ViewerSession) (m : Message) (s : Sent)
    → is_closed v.state ≡ false
    → Written v.io.wire m s
    → IsValid v
    → Good (after_send v s)
unfolding after_send
after_send-Good v m (err e, io) c x k = terminate-IsValid v
after_send-Good v m (ok u, io) c x k =
    Holds-Extends v.state v.io io v.hash v.request v.permissions v.peer_info c
      (Written-Extends v.io io m x) k

is_await_2fa-open : (s : ViewerState) → not (is_await_2fa s) ≡ false → is_closed s ≡ false
is_await_2fa-open await_2fa e = refl
is_await_2fa-open closed e = ground (arith, e)
is_await_2fa-open await_hash e = refl
is_await_2fa-open await_login e = refl
is_await_2fa-open await_approval e = refl
is_await_2fa-open active e = refl

pub send_second_factor-Good :
    (size : Message → ℕ) (now : ℕ) (code : String) (v : ViewerSession)
    → IsValid v
    → Good (send_second_factor size now code v)
unfolding send_second_factor
send_second_factor-Good size now code v k =
    if-both Good (leb v.auth_deadline now) (λ late. terminate-IsValid v)
      (λ early.
        if-both Good (not (is_await_2fa v.state)) (λ refused. k)
          (λ allowed.
            after_send-Good v _ _ (is_await_2fa-open v.state allowed)
              (send_io-Written size v.io (any_other (auth_2fa (record { code = code })))) k))

pub close-Good : (size : Message → ℕ) (v : ViewerSession) → IsValid v → Good (close size v)
unfolding close
close-Good size v k = if-both Good (is_closed v.state) (λ c. k) (λ o. terminate-IsValid v)
