-- ===== src/Auth/Moves.antt =====
-- An abstract account of a host login: the moves that its state can make, each with what it takes.
-- Every call of the code is a chain of such moves.
use Prim.Native.String.{String}
use rust_desk_enhanced.Prelude.{
  Bool, true, false, not, ◌&&◌, Option, none, some, Result, ok, err, ◌≡◌, ◌≢◌, refl, arith,
  is_empty, inl, inr, Bool-cases,
}
use rust_desk_enhanced.Messages.{LoginRequest, Auth2fa}
use rust_desk_enhanced.Auth.Credentials.{Crypto, verify}
use rust_desk_enhanced.Auth.Types.{
  Permissions, intersect, PrimaryPolicy, password_only, click_only, password_or_click, Approval,
  pending, denied, approved, FactorResult, verified, wrong, unsupported, await_login,
  await_approval, await_2fa, AuthAction, pending_approval_action, HostAuth,
}
use rust_desk_enhanced.Auth.Machine.{
  scrub, close, fail, authorize, after_primary, check_approval, poll_request, poll_approval,
  unmatched, after_verify, check_password, login_primary, login_checked, login_open, login,
  check_factor, try_factor, second_factor, is_await_approval, wrong_unless_decided, is_click_only,
  is_settled, is_await_2fa, Call, logs_in, polls, sends_code, closes, step,
}

-- What a call needs for its moves: the peer sent what it carries.
abbrev pub Sent : (LoginRequest → Type 0) → (Auth2fa → Type 0) → Call → Type 0
Sent Asked Coded (logs_in r) = Asked r
Sent Asked Coded (sends_code code) = Coded code
Sent Asked Coded polls = Unit {0}
Sent Asked Coded closes = Unit {0}

-- `Asked r`: the peer sent the login request `r`; `Coded c`: it sent the code `c`.
module _ {W : Type 0} (crypto : Crypto) (Asked : LoginRequest → Type 0)
    (Coded : Auth2fa → Type 0) where
  pub data Move (a : HostAuth W) : HostAuth W → Type 0 where
    -- A trait object was called.
    consults : (w : W) → Move a (record a { world = w })
    drops : Move a (close a)
    restarts : is_settled a.state ≡ false → Move a (record a { state = await_login })
    keeps :
        (r : LoginRequest)
        → Asked r
        → a.state ≡ await_login
        → Move a (record a { request = some (scrub r) })
    asks_user : a.config.policy ≢ password_only → Move a (record a { state = await_approval })
    by_password :
        (r : LoginRequest)
        → Asked r
        → is_click_only a.config.policy ≡ false
        → verify crypto a.config.passwords a.hash r.password ≡ true
        → Move a
            (after_primary
              (record a { grant = intersect a.config.password_permissions a.config.ceiling })).1
    by_approval :
        (r : LoginRequest) {p : Permissions} {w w' : W}
        → a.request ≡ some r
        → a.state ≡ await_approval
        → a.config.approval.check r w ≡ (approved p, w')
        → Move a (after_primary (record a { world = w'; grant = intersect p a.config.ceiling })).1
    by_factor :
        (code : Auth2fa) {w w' : W}
        → Coded code
        → a.state ≡ await_2fa
        → a.config.second_factor.verify_code code w ≡ (verified, w')
        → Move a (authorize a).1

  -- A chain of moves.
  pub data Moves (a : HostAuth W) : HostAuth W → Type 0 where
    here : Moves a a
    next : {b c : HostAuth W} → Moves a b → Move b c → Moves a c

  one : {a b : HostAuth W} → Move a b → Moves a b
  one m = next here m

  fail-Moves : (a b : HostAuth W) (m : String) (t : Bool) → Moves a b → Moves a (fail b m t).1
  unfolding fail
  fail-Moves a b m true ms = next ms drops
  fail-Moves a b m false ms = ms

  check_approval-Moves :
      (a : HostAuth W) (r : LoginRequest) (w : W) (x : Approval × W)
      → a.request ≡ some r
      → a.state ≡ await_approval
      → a.config.approval.check r w ≡ x
      → Moves a (check_approval a x).1
  unfolding check_approval
  check_approval-Moves a r w (pending, w') q e h = one (consults w')
  check_approval-Moves a r w (denied, w') q e h = fail-Moves a _ _ true (one (consults w'))
  check_approval-Moves a r w (approved p, w') q e h = one (by_approval r q e h)

  poll_request-Moves :
      (a : HostAuth W) (o : Option LoginRequest)
      → a.request ≡ o
      → a.state ≡ await_approval
      → Moves a (poll_request a o).1
  unfolding poll_request
  poll_request-Moves a (some r) q e = check_approval-Moves a r a.world _ q e refl
  poll_request-Moves a none q e = here

  poll-Moves : (a : HostAuth W) → Moves a (poll_approval a).1
  unfolding poll_approval
  poll-Moves a = elim (Bool-cases (is_await_approval a.state)) [
    | inr away ↦ rw away here
    | inl waits ↦ rw waits (poll_request-Moves a a.request refl (ground arith))
  ]

  append : {a b c : HostAuth W} → Moves a b → Moves b c → Moves a c
  append ms here = ms
  append ms (next ns m) = next (append ms ns) m

  wrong-Moves :
      (a : HostAuth W) (p : PrimaryPolicy) (nonempty : Bool) (r : AuthAction × HostAuth W)
      → Moves a r.1
      → Moves a (wrong_unless_decided p nonempty r).1
  wrong-Moves a password_or_click true (pending_approval_action, b) ms = fail-Moves a b _ false ms
  wrong-Moves a _ _ r ms = ms

  asked-Moves :
      (a : HostAuth W)
      → a.config.policy ≢ password_only
      → Moves a (poll_approval (record a { state = await_approval })).1
  asked-Moves a p = append (one (asks_user p)) (poll-Moves (record a { state = await_approval }))

  unmatched-Moves :
      (p : PrimaryPolicy) (nonempty : Bool) (a : HostAuth W)
      → a.config.policy ≡ p
      → Moves a (unmatched p nonempty a).1
  unfolding unmatched
  unmatched-Moves password_only nonempty a e = fail-Moves a a _ false here
  unmatched-Moves click_only nonempty a e =
      wrong-Moves a click_only nonempty (poll_approval (record a { state = await_approval }))
        (asked-Moves a (λ q. cc))
  unmatched-Moves password_or_click nonempty a e =
      wrong-Moves a password_or_click nonempty (poll_approval (record a { state = await_approval }))
        (asked-Moves a (λ q. cc))

  after_verify-Moves :
      (a : HostAuth W) (r : LoginRequest) (nonempty valid : Bool)
      → Asked r
      → a.state ≡ await_login
      → (valid ≡ true
          → (is_click_only a.config.policy ≡ false)
            × (verify crypto a.config.passwords a.hash r.password ≡ true))
      → Moves a (after_verify a r nonempty valid).1
  unfolding after_verify
  after_verify-Moves a r nonempty true asked e h =
      next (one (keeps r asked e)) (by_password r asked (h refl).0 (h refl).1)
  after_verify-Moves a r nonempty false asked e h =
      append (one (keeps r asked e)) (unmatched-Moves a.config.policy nonempty _ refl)

  check_password-Moves :
      (a : HostAuth W) (r : LoginRequest) (p : Result String (Unit {0}) × W)
      → Asked r
      → a.state ≡ await_login
      → is_click_only a.config.policy ≡ false
      → Moves a (check_password crypto a r p).1
  unfolding check_password
  check_password-Moves a r (err m, w) asked e c = fail-Moves a _ m false (one (consults w))
  check_password-Moves a r (ok u, w) asked e c =
      append (one (consults _)) (after_verify-Moves _ r true _ asked e (λ v. (c, v)))

  login_primary-Moves :
      (a : HostAuth W) (r : LoginRequest)
      → Asked r
      → a.state ≡ await_login
      → Moves a (login_primary crypto a r).1
  unfolding login_primary
  login_primary-Moves a r asked e =
      elim (Bool-cases (not (is_click_only a.config.policy) && not (is_empty r.password))) [
        | inl asks ↦ rw asks (check_password-Moves a r _ asked e (ground arith))
        | inr skips ↦ rw skips (after_verify-Moves a r _ false asked e (λ v. absurd (cc)))
      ]

  login_checked-Moves :
      (a : HostAuth W) (r : LoginRequest) (o : Option String)
      → Asked r
      → is_settled a.state ≡ false
      → Moves a (login_checked crypto a r o).1
  unfolding login_checked
  login_checked-Moves a r (some m) asked live = fail-Moves a a m true here
  login_checked-Moves a r none asked live =
      append (one (restarts live))
        (login_primary-Moves (record a { state = await_login }) r asked refl)

  check_factor-Moves :
      (a : HostAuth W) (code : Auth2fa) (w : W) (x : FactorResult × W)
      → Coded code
      → a.state ≡ await_2fa
      → a.config.second_factor.verify_code code w ≡ x
      → Moves a (check_factor a x).1
  unfolding check_factor
  check_factor-Moves a code w (verified, w') coded e h =
      next (one (consults _)) (by_factor code coded e h)
  check_factor-Moves a code w (wrong, w') coded e h = fail-Moves a _ _ false (one (consults _))
  check_factor-Moves a code w (unsupported, w') coded e h =
      fail-Moves a _ _ false (one (consults w'))

  try_factor-Moves :
      (a : HostAuth W) (code : Auth2fa) (r : Result String (Unit {0}) × W)
      → Coded code
      → a.state ≡ await_2fa
      → Moves a (try_factor a code r).1
  unfolding try_factor
  try_factor-Moves a code (err m, w) coded e = fail-Moves a _ m false (one (consults w))
  try_factor-Moves a code (ok u, w) coded e =
      append (one (consults w)) (check_factor-Moves (record a { world = w }) code w _ coded e refl)

  -- Every call of the code is a chain of moves of the abstract account.
  pub step-Moves : (a : HostAuth W) (c : Call) → Sent Asked Coded c → Moves a (step crypto a c).1
  unfolding step login login_open second_factor
  step-Moves a (logs_in r) asked = elim (Bool-cases (is_settled a.state)) [
    | inl settled ↦ rw settled here
    | inr live ↦ rw live (login_checked-Moves a r _ asked live)
  ]
  step-Moves a polls u = poll-Moves a
  step-Moves a (sends_code code) coded = elim (Bool-cases (is_await_2fa a.state)) [
    | inl waits ↦ rw waits (try_factor-Moves a code _ coded (ground arith))
    | inr away ↦ rw away here
  ]
  step-Moves a closes u = one drops
