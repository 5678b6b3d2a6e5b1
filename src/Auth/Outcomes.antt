-- ===== src/Auth/Outcomes.antt =====
-- What each answer of a host login says of the state that it leaves.
use Prim.Native.String.{String}
use rust_desk_enhanced.Prelude.{
  Bool, true, false, not, ◌&&◌, Option, none, some, Result, ok, err, ◌≡◌, ◌⊎◌, refl, arith, inl,
  inr, is_empty, if-both,
}
use rust_desk_enhanced.Messages.{LoginRequest, Auth2fa}
use rust_desk_enhanced.Auth.Credentials.{Crypto, verify}
use rust_desk_enhanced.Auth.Types.{
  PrimaryPolicy, password_only, click_only, password_or_click, Approval, pending, denied, approved,
  FactorResult, verified, wrong, unsupported, HostAuthState, await_login, await_approval, await_2fa,
  authorized, closed, AuthAction, error, pending_approval_action, authorized_action, ignored,
  HostAuth,
}
use rust_desk_enhanced.Auth.Machine.{
  refusal, scrub, close, fail, authorize, after_primary, check_approval, poll_request,
  poll_approval, wrong_unless_decided, unmatched, after_verify, check_password, login_primary,
  login_checked, login_open, login, check_factor, try_factor, second_factor, is_await_approval,
  is_click_only, is_settled, is_await_2fa,
}

abbrev pub IsOpen : HostAuthState → Type 0
IsOpen authorized = ⊥
IsOpen _ = Unit {0}

is_settled-IsOpen : (s : HostAuthState) → is_settled s ≡ false → IsOpen s
is_settled-IsOpen authorized e = absurd (ground (arith, e))
is_settled-IsOpen closed e = tt
is_settled-IsOpen await_login e = tt
is_settled-IsOpen await_approval e = tt
is_settled-IsOpen await_2fa e = tt

is_await_approval-IsOpen : (s : HostAuthState) → is_await_approval s ≡ true → IsOpen s
is_await_approval-IsOpen await_approval e = tt
is_await_approval-IsOpen authorized e = absurd (ground (arith, e))
is_await_approval-IsOpen closed e = tt
is_await_approval-IsOpen await_login e = tt
is_await_approval-IsOpen await_2fa e = tt

is_await_2fa-IsOpen : (s : HostAuthState) → is_await_2fa s ≡ true → IsOpen s
is_await_2fa-IsOpen await_2fa e = tt
is_await_2fa-IsOpen authorized e = absurd (ground (arith, e))
is_await_2fa-IsOpen closed e = tt
is_await_2fa-IsOpen await_login e = tt
is_await_2fa-IsOpen await_approval e = tt

module _ {W : Type 0} where
  -- An authorization carries the grant that is kept; every other answer leaves the login open.
  unfoldable pub Settles : AuthAction × HostAuth W → Type 0
  Settles (authorized_action info p, a) = (a.state ≡ authorized) × (a.grant ≡ p)
  Settles (error m t, a) = IsOpen a.state
  Settles (pending_approval_action, a) = IsOpen a.state
  Settles (ignored, a) = IsOpen a.state

  -- A call is ignored, or its answer is that of an open login.
  unfoldable pub Decides : HostAuth W → AuthAction × HostAuth W → Type 0
  Decides a r = (r ≡ (ignored, a)) ⊎ (IsOpen a.state × Settles r)

  fail-Settles : (a : HostAuth W) (m : String) (t : Bool) → IsOpen a.state → Settles (fail a m t)
  unfolding fail Settles close
  fail-Settles a m true o = tt
  fail-Settles a m false o = o

  authorize-Settles : (a : HostAuth W) → Settles (authorize a)
  unfolding authorize Settles
  authorize-Settles a = (refl, refl)

  after_primary-Settles : (a : HostAuth W) → Settles (after_primary a)
  unfolding after_primary
  after_primary-Settles a =
      if-both Settles (a.config.second_factor.required a.world) (λ n. fail-Settles _ _ _ tt)
        (λ n. authorize-Settles a)

  check_approval-Settles :
      (a : HostAuth W) (r : Approval × W) → IsOpen a.state → Settles (check_approval a r)
  unfolding check_approval Settles
  check_approval-Settles a (pending, w) o = o
  check_approval-Settles a (denied, w) o = fail-Settles (record a { world = w }) _ _ o
  check_approval-Settles a (approved grant, w) o = after_primary-Settles _

  poll_request-Settles :
      (a : HostAuth W) (r : Option LoginRequest) → IsOpen a.state → Settles (poll_request a r)
  unfolding poll_request Settles
  poll_request-Settles a none o = o
  poll_request-Settles a (some r) o = check_approval-Settles a _ o

  poll_approval-Settles : (a : HostAuth W) → IsOpen a.state → Settles (poll_approval a)
  unfolding poll_approval Settles
  poll_approval-Settles a o =
      if-both Settles (is_await_approval a.state) (λ _. poll_request-Settles a _ o) (λ _. o)

  wrong_unless_decided-Settles :
      (p : PrimaryPolicy) (b : Bool) (r : AuthAction × HostAuth W)
      → Settles r
      → Settles (wrong_unless_decided p b r)
  unfolding Settles
  wrong_unless_decided-Settles password_or_click true (pending_approval_action, a) s =
      fail-Settles a _ _ s
  wrong_unless_decided-Settles password_or_click true (error m t, a) s = s
  wrong_unless_decided-Settles password_or_click true (authorized_action i p, a) s = s
  wrong_unless_decided-Settles password_or_click true (ignored, a) s = s
  wrong_unless_decided-Settles password_or_click false r s = s
  wrong_unless_decided-Settles password_only b r s = s
  wrong_unless_decided-Settles click_only b r s = s

  unmatched-Settles :
      (p : PrimaryPolicy) (b : Bool) (a : HostAuth W) → IsOpen a.state → Settles (unmatched p b a)
  unfolding unmatched
  unmatched-Settles password_only b a o = fail-Settles a _ _ o
  unmatched-Settles click_only b a o =
      wrong_unless_decided-Settles click_only b _ (poll_approval-Settles _ tt)
  unmatched-Settles password_or_click b a o =
      wrong_unless_decided-Settles password_or_click b _ (poll_approval-Settles _ tt)

  after_verify-Settles :
      (a : HostAuth W) (r : LoginRequest) (nonempty valid : Bool)
      → IsOpen a.state
      → Settles (after_verify a r nonempty valid)
  unfolding after_verify
  after_verify-Settles a r nonempty valid o =
      if-both Settles valid (λ _. after_primary-Settles _)
        (λ _. unmatched-Settles a.config.policy nonempty (record a { request = some (scrub r) }) o)

  check_password-Settles :
      (crypto : Crypto) (a : HostAuth W) (r : LoginRequest) (x : Result String (Unit {0}) × W)
      → IsOpen a.state
      → Settles (check_password crypto a r x)
  unfolding check_password
  check_password-Settles crypto a r (err e, w) o = fail-Settles (record a { world = w }) _ _ o
  check_password-Settles crypto a r (ok u, w) o =
      after_verify-Settles
        (record a {
          world =
              a.config.attempts.outcome false (verify crypto a.config.passwords a.hash r.password)
                w;
        })
        r _ _ o

  login_primary-Settles :
      (crypto : Crypto) (a : HostAuth W) (r : LoginRequest)
      → IsOpen a.state
      → Settles (login_primary crypto a r)
  unfolding login_primary
  login_primary-Settles crypto a r o =
      if-both Settles (not (is_click_only a.config.policy) && not (is_empty r.password))
        (λ _. check_password-Settles crypto a r _ o) (λ _. after_verify-Settles a r _ _ o)

  login_checked-Settles :
      (crypto : Crypto) (a : HostAuth W) (r : LoginRequest) (m : Option String)
      → IsOpen a.state
      → Settles (login_checked crypto a r m)
  unfolding login_checked
  login_checked-Settles crypto a r (some m) o = fail-Settles a m true o
  login_checked-Settles crypto a r none o =
      login_primary-Settles crypto (record a { state = await_login }) r tt

  pub login-Decides :
      (crypto : Crypto) (a : HostAuth W) (r : LoginRequest) → Decides a (login crypto a r)
  unfolding login login_open Decides
  login-Decides crypto a r =
      if-both (Decides a) (is_settled a.state) (λ _. inl refl)
        (λ s.
          let o = is_settled-IsOpen a.state s in
          inr
            (o, login_checked-Settles crypto a r (refusal a.config.accepted_targets a.request r) o))

  pub poll_approval-Decides : (a : HostAuth W) → Decides a (poll_approval a)
  unfolding poll_approval Decides
  poll_approval-Decides a =
      if-both (Decides a) (is_await_approval a.state)
        (λ s.
          let o = is_await_approval-IsOpen a.state s in inr (o, poll_request-Settles a a.request o))
        (λ _. inl refl)

  check_factor-Settles :
      (a : HostAuth W) (r : FactorResult × W) → IsOpen a.state → Settles (check_factor a r)
  unfolding check_factor
  check_factor-Settles a (verified, w) o = authorize-Settles _
  check_factor-Settles a (wrong, w) o =
      fail-Settles (record a { world = a.config.attempts.outcome true false w }) _ _ o
  check_factor-Settles a (unsupported, w) o = fail-Settles (record a { world = w }) _ _ o

  try_factor-Settles :
      (a : HostAuth W) (c : Auth2fa) (r : Result String (Unit {0}) × W)
      → IsOpen a.state
      → Settles (try_factor a c r)
  unfolding try_factor
  try_factor-Settles a c (err e, w) o = fail-Settles (record a { world = w }) _ _ o
  try_factor-Settles a c (ok u, w) o = check_factor-Settles (record a { world = w }) _ o

  pub second_factor-Decides : (a : HostAuth W) (c : Auth2fa) → Decides a (second_factor a c)
  unfolding second_factor Decides
  second_factor-Decides a c =
      if-both (Decides a) (is_await_2fa a.state)
        (λ s. let o = is_await_2fa-IsOpen a.state s in inr (o, try_factor-Settles a c _ o))
        (λ _. inl refl)
