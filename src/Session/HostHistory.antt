-- ===== src/Session/HostHistory.antt =====
-- crates/rd-engine/src/session.rs: the calls of a host session, in any order.
use Prim.Native.String.{String}
use mathlib.Core.Path.{subst}
use rust_desk_enhanced.Prelude.{
  ℕ, Bool, List, [], ◌∷◌, Result, ok, err, ◌≡◌, ◌≢◌, refl, sym, ap, ◌∙◌, inl, inr,
}
use rust_desk_enhanced.Messages.{LoginRequest, Auth2fa}
use rust_desk_enhanced.Auth.Credentials.{Crypto}
use rust_desk_enhanced.Auth.Types.{
  Permissions, no_permissions, HostAuthState, await_login, await_approval, await_2fa, authorized,
  closed, HostAuthConfig, HostAuth,
}
use rust_desk_enhanced.Auth.Machine as Machine
use rust_desk_enhanced.Auth.Evidence.{Primary, Second, new-await_login, authorized-Earned}
use rust_desk_enhanced.Handshake.{Message, Established}
use rust_desk_enhanced.Session.{SessionError, new_io, Sent}
use rust_desk_enhanced.Session.Host.{
  HostSession, greeted, from_new, from_established, poll_approval, recv, close,
}
use rust_desk_enhanced.Session.Arrivals.{Arrives, Unread, send_io-Unread}
use rust_desk_enhanced.Session.HostInvariant.{Chain, Gate, IsSound}
use rust_desk_enhanced.Session.HostSteps.{poll_approval-IsSound, recv-IsSound, close-IsSound}

-- A call of a host session. `notified`: an approval was announced before a record arrived.
pub data Call : Type 0 where
  receives : (notified : Bool) → (now arrival : ℕ) → Call
  polls : (now : ℕ) → Call
  closes : Call

pub Gate-authorized :
    (s : HostAuthState) (p grant : Permissions)
    → Gate s p grant
    → p ≢ no_permissions
    → (s ≡ authorized) × (p ≡ grant)
Gate-authorized authorized p grant (inl e) n = absurd (n e)
Gate-authorized authorized p grant (inr e) n = (refl, e)
Gate-authorized await_login p grant g n = absurd (n g)
Gate-authorized await_approval p grant g n = absurd (n g)
Gate-authorized await_2fa p grant g n = absurd (n g)
Gate-authorized closed p grant g n = absurd (n g)

module _ {W : Type 0} where
  unfoldable pub step : (Message → ℕ) → Crypto → HostSession W → Call → HostSession W
  step size crypto h (receives notified now arrival) = (recv size crypto notified now arrival h).1
  step size crypto h (polls now) = (poll_approval size now h).1
  step size crypto h closes = (close size h).1

  unfoldable pub run : (Message → ℕ) → Crypto → HostSession W → List Call → HostSession W
  run size crypto h [] = h
  run size crypto h (c ∷ cs) = run size crypto (step size crypto h c) cs

module _ {W : Type 0} (crypto : Crypto) (Asked : LoginRequest → Type 0)
    (Coded : Auth2fa → Type 0) where
  step-IsSound :
      (size : Message → ℕ) (a : HostAuth W) (h : HostSession W) (c : Call)
      → IsSound crypto Asked Coded a h
      → IsSound crypto Asked Coded a (step size crypto h c)
  unfolding step
  step-IsSound size a h (receives notified now arrival) s =
      recv-IsSound crypto Asked Coded size notified now arrival a h s
  step-IsSound size a h (polls now) s = poll_approval-IsSound crypto Asked Coded size now a h s
  step-IsSound size a h closes s = close-IsSound crypto Asked Coded size a h s

  run-IsSound :
      (size : Message → ℕ) (a : HostAuth W) (h : HostSession W) (cs : List Call)
      → IsSound crypto Asked Coded a h
      → IsSound crypto Asked Coded a (run size crypto h cs)
  unfolding run
  run-IsSound size a h [] s = s
  run-IsSound size a h (c ∷ cs) s =
      run-IsSound size a (step size crypto h c) cs (step-IsSound size a h c s)

  -- What a new session holds: a new login, no permissions, and the records of its connection.
  Begins : Result String (HostAuth W) → Result SessionError (HostSession W) → Type 0
  Begins r (err e) = Unit {0}
  Begins r (ok h) =
      (r ≡ ok h.auth) × (h.auth.state ≡ await_login → IsSound crypto Asked Coded h.auth h)

  greeted-Begins :
      (e : Established) (now auth_timeout idle_timeout : ℕ) (a : HostAuth W) (s : Sent)
      → Arrives Asked Coded (new_io e.wire e.prefetched)
      → Unread Asked Coded (new_io e.wire e.prefetched) s
      → Begins (ok a) (greeted e now auth_timeout idle_timeout a s)
  unfolding greeted Begins IsSound Chain Unread Machine.run
  greeted-Begins e now auth_timeout idle_timeout a (err x, io) r u = tt
  greeted-Begins e now auth_timeout idle_timeout a (ok x, io) r u =
      (refl, λ s. (([], tt, refl), subst (λ t. Gate t no_permissions a.grant) (sym s) refl, u r))

  from_new-Begins :
      (size : Message → ℕ) (e : Established) (now auth_timeout idle_timeout : ℕ)
      (r : Result String (HostAuth W))
      → Arrives Asked Coded (new_io e.wire e.prefetched)
      → Begins r (from_new size e now auth_timeout idle_timeout r)
  unfolding from_new Begins
  from_new-Begins size e now auth_timeout idle_timeout (err m) arrives = tt
  from_new-Begins size e now auth_timeout idle_timeout (ok a) arrives =
      greeted-Begins e now auth_timeout idle_timeout a _ arrives
        (send_io-Unread Asked Coded size (new_io e.wire e.prefetched) _)

  -- Every session is reached by calls of its login.
  pub reached :
      (size : Message → ℕ) (starts : Bool) (draws : List ℕ) (e : Established) (c : HostAuthConfig W)
      (w : W) (now auth_timeout idle_timeout : ℕ) (h : HostSession W) (cs : List Call)
      → Arrives Asked Coded (new_io e.wire e.prefetched)
      → from_established size starts draws e c w now auth_timeout idle_timeout ≡ ok h
      → (Machine.new starts draws c w ≡ ok h.auth)
        × IsSound crypto Asked Coded h.auth (run size crypto h cs)
  unfolding Begins from_established
  reached size starts draws e c w now auth_timeout idle_timeout h cs r f =
      let (new, s) =
        subst (Begins (Machine.new starts draws c w)) f
          (from_new-Begins size e now auth_timeout idle_timeout (Machine.new starts draws c w) r) in
      let (_, state) = new-await_login crypto Asked Coded starts draws c w h.auth new in
      (new, run-IsSound size h.auth h cs (s state))

  -- Whatever is called on a new session, in whatever order, with calls dropped or failing in any of their writes, and
  -- whatever its peer sends: when the session has any permission, then the login is authorized with exactly these; one
  -- of the peer's login requests carried a matching password that the policy takes, or the local provider approved one
  -- of them, without its password, and the policy asks it; and the second factor was not required, or the provider
  -- verified a code that the peer sent. (`Asked` and `Coded` are any properties of the requests and codes in the
  -- records that are still to be read when the session starts.)
  pub permissions-Earned :
      (size : Message → ℕ) (starts : Bool) (draws : List ℕ) (e : Established) (c : HostAuthConfig W)
      (w : W) (now auth_timeout idle_timeout : ℕ) (h : HostSession W) (cs : List Call)
      → Arrives Asked Coded (new_io e.wire e.prefetched)
      → from_established size starts draws e c w now auth_timeout idle_timeout ≡ ok h
      → (run size crypto h cs).permissions ≢ no_permissions
      → ((run size crypto h cs).auth.state ≡ authorized)
        × ((run size crypto h cs).permissions ≡ (run size crypto h cs).auth.grant)
        × Primary crypto Asked Coded c h.auth.hash
        × Second crypto Asked Coded c
  unfolding IsSound Chain
  permissions-Earned size starts draws e c w now auth_timeout idle_timeout h cs r f n =
      let (new, ((calls, sent, k), g, _)) =
        reached size starts draws e c w now auth_timeout idle_timeout h cs r f in
      let (s, same) = Gate-authorized _ _ _ g n in
      let (first, second) =
        authorized-Earned crypto Asked Coded starts draws c w h.auth calls new sent
          (ap (λ (a : HostAuth W). a.state) (sym k) ∙ s) in
      (s, same, first, second)
