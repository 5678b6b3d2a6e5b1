-- ===== src/Session/HostInvariant.antt =====
-- crates/rd-engine/src/session.rs: what holds of a host session between any two calls.
use rust_desk_enhanced.Prelude.{
  ℕ, true, false, List, [], ◌∷◌, ◌++◌, ok, err, ◌≡◌, ◌⊎◌, not, ◌&&◌, arith, refl, ap, All,
  All-append, if-both,
}
use rust_desk_enhanced.Messages.{LoginRequest, Auth2fa}
use rust_desk_enhanced.Auth.Credentials.{Crypto}
use rust_desk_enhanced.Auth.Types.{Permissions, no_permissions, HostAuthState, authorized, HostAuth}
use rust_desk_enhanced.Auth.Machine as Machine
use rust_desk_enhanced.Auth.Moves as Moves
use rust_desk_enhanced.Handshake.{Message}
use rust_desk_enhanced.Session.{SessionIo, terminate_io, Sent, send_io}
use rust_desk_enhanced.Session.Host.{
  HostEvent, HostSession, is_abandoned_error, is_closed, Outcome, after, shut, finish,
}
use rust_desk_enhanced.Session.Arrivals.{ClaimsNext, ClaimsOn, Arrives, Unread, send_io-Unread}

-- What the permissions are in each state. An authorized session has none yet when its call was dropped while it
-- wrote the answer to the login.
abbrev pub Gate : HostAuthState → Permissions → Permissions → Type 0
Gate authorized p grant = (p ≡ no_permissions) ⊎ (p ≡ grant)
Gate _ p grant = p ≡ no_permissions

-- `Asked` and `Coded`: what the peer sent.
module _ {W : Type 0} (crypto : Crypto) (Asked : LoginRequest → Type 0)
    (Coded : Auth2fa → Type 0) where
  -- The login was reached by calls that the peer's records justify.
  unfoldable pub Chain : HostAuth W → HostAuth W → Type 0
  Chain a b =
      (cs : List Machine.Call) × All (Moves.Sent Asked Coded) cs × (b ≡ Machine.run crypto a cs)

  abbrev pub Gated : HostSession W → Type 0
  Gated h = Gate h.auth.state h.permissions h.auth.grant

  unfoldable pub IsSound : HostAuth W → HostSession W → Type 0
  IsSound a h = Chain a h.auth × Gated h × Arrives Asked Coded h.io

  -- What a call leaves, before an error or an end terminates.
  unfoldable pub Fine : HostAuth W → Outcome W HostEvent → Type 0
  Fine a (err e, h) =
      Chain a h.auth × (is_abandoned_error e ≡ true → Arrives Asked Coded h.io × Gated h)
  Fine a (ok e, h) =
      Chain a h.auth × (is_closed h.auth.state ≡ false → Arrives Asked Coded h.io × Gated h)

  run-append :
      (a : HostAuth W) (cs : List Machine.Call) (c : Machine.Call)
      → Machine.run crypto a (cs ++ (c ∷ [])) ≡ (Machine.step crypto (Machine.run crypto a cs) c).1
  unfolding Machine.run
  run-append a [] c = refl
  run-append a (d ∷ cs) c = run-append (Machine.step crypto a d).1 cs c

  pub Chain-step :
      (a b : HostAuth W) (c : Machine.Call)
      → Moves.Sent Asked Coded c
      → Chain a b
      → Chain a (Machine.step crypto b c).1
  unfolding Chain
  Chain-step a b c s (cs, t, e) = (
    cs ++ (c ∷ []),
    All-append (Moves.Sent Asked Coded) cs (c ∷ []) t (s, tt),
    rw (run-append a cs c) (ap (λ x. (Machine.step crypto x c).1) e),
  )

  pub Chain-close : (a b : HostAuth W) → Chain a b → Chain a (Machine.close b)
  unfolding Machine.step
  Chain-close a b k = Chain-step a b Machine.closes tt k

  pub shut-IsSound : (a : HostAuth W) (h : HostSession W) → Chain a h.auth → IsSound a (shut h)
  unfolding IsSound shut Machine.close ClaimsNext ClaimsOn terminate_io
  shut-IsSound a h k = (Chain-close a h.auth k, refl, (tt, tt))

  pub finish-IsSound :
      (a : HostAuth W) (o : Outcome W HostEvent) → Fine a o → IsSound a (finish o).1
  unfolding finish Fine IsSound
  finish-IsSound a (err e, h) (k, f) =
      if-both (λ (o : Outcome W HostEvent). IsSound a o.1) (not (is_abandoned_error e))
        (λ c. shut-IsSound a h k) (λ o. let (r, g) = f (ground (arith, o)) in (k, g, r))
  finish-IsSound a (ok e, h) (k, f) =
      if-both (λ (o : Outcome W HostEvent). IsSound a o.1) (is_closed h.auth.state && true)
        (λ c. shut-IsSound a h k) (λ o. let (r, g) = f (ground (arith, o)) in (k, g, r))

  sent-Fine :
      (a : HostAuth W) (h : HostSession W) (s : Sent) (next : HostSession W → Outcome W HostEvent)
      → Unread Asked Coded h.io s
      → Chain a h.auth
      → Arrives Asked Coded h.io
      → Gated h
      → ((io : SessionIo) → Arrives Asked Coded io → Fine a (next (record h { io = io })))
      → Fine a (after h s next)
  unfolding after Fine Unread
  sent-Fine a h (err e, io) next x k r g f = (k, λ _. (x r, g))
  sent-Fine a h (ok u, io) next x k r g f = f io (x r)

  pub after-Fine :
      (a : HostAuth W) (h : HostSession W) (size : Message → ℕ) (m : Message)
      (next : HostSession W → Outcome W HostEvent)
      → Chain a h.auth
      → Arrives Asked Coded h.io
      → Gated h
      → ((io : SessionIo) → Arrives Asked Coded io → Fine a (next (record h { io = io })))
      → Fine a (after h (send_io size h.io m) next)
  after-Fine a h size m next k r g f =
      sent-Fine a h _ next (send_io-Unread Asked Coded size h.io m) k r g f
