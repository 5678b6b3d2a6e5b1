-- ===== src/Auth/Invariant.antt =====
-- What holds of a host login between two calls, whatever the trait objects answer.
use Prim.Native.String.{String}
use rust_desk_enhanced.Prelude.{
  ℕ, Bool, true, false, not, ◌&&◌, Option, none, some, List, [], ◌∷◌, Result, ok, err, ◌≡◌, ◌≢◌,
  refl, arith, is_some, is_empty, ap, sym, inl, inr, Bool-cases,
}
use rust_desk_enhanced.Messages.{OptionMessage, LoginRequest, Auth2fa}
use rust_desk_enhanced.Auth.Credentials.{Crypto}
use rust_desk_enhanced.Auth.Types.{
  Permissions, no_permissions, intersect, PrimaryPolicy, password_only, click_only,
  password_or_click, Approval, pending, denied, approved, FactorResult, verified, wrong,
  unsupported, HostAuthState, await_login, await_approval, await_2fa, closed, AuthAction,
  pending_approval_action, HostAuthConfig, HostAuth,
}
use rust_desk_enhanced.Auth.Machine.{
  scrub, restrict, option_of, close, fail, authorize, after_primary, check_approval, poll_request,
  poll_approval, unmatched, after_verify, check_password, login_primary, login_checked, login_open,
  login, check_factor, try_factor, second_factor, new, is_await_approval, wrong_unless_decided,
  is_click_only, is_settled, is_await_2fa, Call, logs_in, polls, sends_code, closes, step, run,
}

-- Every permission of `p` is one of `q`.
pub record Within (p q : Permissions) : Type 0 where
  pub keyboard : p.keyboard ≡ true → q.keyboard ≡ true
  pub clipboard : p.clipboard ≡ true → q.clipboard ≡ true
  pub audio : p.audio ≡ true → q.audio ≡ true
  pub file : p.file ≡ true → q.file ≡ true

abbrev pub has_request : HostAuthState → Bool
has_request await_login = false
has_request closed = false
has_request _ = true

-- No password and no OS credentials are kept.
abbrev pub IsScrubbed : Option LoginRequest → Type 0
IsScrubbed none = Unit {0}
IsScrubbed (some r) = (r.password ≡ []) × (r.os_login.username ≡ "") × (r.os_login.password ≡ "")

pub record IsValid {W : Type 0} (a : HostAuth W) : Type 0 where
  pub known : has_request a.state ≡ true → is_some a.request ≡ true
  pub scrubbed : IsScrubbed a.request
  pub bounded : Within a.grant a.config.ceiling
  pub bare : a.state ≡ closed → (a.grant ≡ no_permissions) × (a.request ≡ none)

intersect-Within : (p q : Permissions) → Within (intersect p q) q
unfolding intersect
intersect-Within p q = ground arith

restrict-Within :
    (o : Option OptionMessage) (p q : Permissions) → Within p q → Within (restrict o p) q
unfolding restrict
restrict-Within none p q h = h
restrict-Within (some o) p q h = ground arith

module _ {W : Type 0} where
  pub close-IsValid : (a : HostAuth W) → IsValid (close a)
  unfolding close
  close-IsValid a = ground arith

  fail-IsValid : (a : HostAuth W) (m : String) (t : Bool) → IsValid a → IsValid (fail a m t).1
  unfolding fail
  fail-IsValid a m true v = close-IsValid a
  fail-IsValid a m false v = v

  -- What the primary factor leaves behind: a kept request and a bounded grant.
  record IsKnown (a : HostAuth W) : Type 0 where
    known : is_some a.request ≡ true
    scrubbed : IsScrubbed a.request
    bounded : Within a.grant a.config.ceiling

  authorize-IsValid : (a : HostAuth W) → IsKnown a → IsValid (authorize a).1
  unfolding authorize
  authorize-IsValid a k = record {
    known = λ _. k.known;
    scrubbed = k.scrubbed;
    bounded = restrict-Within (option_of a.request) a.grant a.config.ceiling k.bounded;
    bare = λ e. ground arith;
  }

  after_primary-IsValid : (a : HostAuth W) → IsKnown a → IsValid (after_primary a).1
  unfolding after_primary
  after_primary-IsValid a k = elim (Bool-cases (a.config.second_factor.required a.world)) [
    | inl needed ↦
        rw (needed, after_primary)
          (fail-IsValid (record a { state = await_2fa }) _ false (ground arith))
    | inr free ↦ rw (free, after_primary) (authorize-IsValid a k)
  ]

  world-IsValid : (a : HostAuth W) (w : W) → IsValid a → IsValid (record a { world = w })
  world-IsValid a w v = record {
    known = v.known;
    scrubbed = v.scrubbed;
    bounded = v.bounded;
    bare = v.bare;
  }

  check_approval-IsValid :
      (a : HostAuth W) (r : Approval × W)
      → IsValid a
      → is_some a.request ≡ true
      → IsValid (check_approval a r).1
  unfolding check_approval
  check_approval-IsValid a (pending, w) v k = world-IsValid a w v
  check_approval-IsValid a (denied, w) v k = fail-IsValid _ _ true (world-IsValid a w v)
  check_approval-IsValid a (approved p, w) v k =
      after_primary-IsValid _
        (record { known = k; scrubbed = v.scrubbed; bounded = intersect-Within p a.config.ceiling })

  poll_request-IsValid :
      (a : HostAuth W) (o : Option LoginRequest)
      → IsValid a
      → is_some o ≡ is_some a.request
      → IsValid (poll_request a o).1
  unfolding poll_request
  poll_request-IsValid a (some r) v e = check_approval-IsValid a _ v (sym e)
  poll_request-IsValid a none v e = v

  poll_approval-IsValid : (a : HostAuth W) → IsValid a → IsValid (poll_approval a).1
  unfolding poll_approval
  poll_approval-IsValid a v = elim (Bool-cases (is_await_approval a.state)) [
    | inr away ↦ rw away v
    | inl waits ↦ rw waits (poll_request-IsValid a a.request v refl)
  ]

  wrong-IsValid :
      (p : PrimaryPolicy) (nonempty : Bool) (r : AuthAction × HostAuth W)
      → IsValid r.1
      → IsValid (wrong_unless_decided p nonempty r).1
  wrong-IsValid password_or_click true (pending_approval_action, a) v = fail-IsValid a _ false v
  wrong-IsValid _ _ r v = v

  unmatched-IsValid :
      (p : PrimaryPolicy) (nonempty : Bool) (a : HostAuth W)
      → IsValid a
      → IsValid (record a { state = await_approval })
      → IsValid (unmatched p nonempty a).1
  unfolding unmatched
  unmatched-IsValid password_only nonempty a v w = fail-IsValid a _ false v
  unmatched-IsValid click_only nonempty a v w =
      wrong-IsValid click_only nonempty (poll_approval (record a { state = await_approval }))
        (poll_approval-IsValid _ w)
  unmatched-IsValid password_or_click nonempty a v w =
      wrong-IsValid password_or_click nonempty (poll_approval (record a { state = await_approval }))
        (poll_approval-IsValid _ w)

  after_verify-IsValid :
      (a : HostAuth W) (r : LoginRequest) (nonempty valid : Bool)
      → IsValid a
      → a.state ≡ await_login
      → IsValid (after_verify a r nonempty valid).1
  unfolding after_verify scrub
  after_verify-IsValid a r nonempty true v e =
      after_primary-IsValid _
        (record { known = refl; scrubbed = (refl, refl, refl); bounded = intersect-Within _ _ })
  after_verify-IsValid a r nonempty false v e =
      unmatched-IsValid a.config.policy nonempty _ (kept a.state (rw e (λ c. cc)))
        (kept await_approval (λ c. cc))
    where
      kept :
          (s : HostAuthState)
          → s ≢ closed
          → IsValid (record a { request = some (scrub r); state = s })
      kept s live = record {
        known = λ _. refl;
        scrubbed = (refl, refl, refl);
        bounded = v.bounded;
        bare = λ c. absurd (live c);
      }

  check_password-IsValid :
      (crypto : Crypto) (a : HostAuth W) (r : LoginRequest) (p : Result String (Unit {0}) × W)
      → IsValid a
      → a.state ≡ await_login
      → IsValid (check_password crypto a r p).1
  unfolding check_password
  check_password-IsValid crypto a r (err m, w) v e = fail-IsValid _ m false (world-IsValid a w v)
  check_password-IsValid crypto a r (ok u, w) v e =
      after_verify-IsValid _ r true _ (world-IsValid a _ v) e

  check_factor-IsValid :
      (a : HostAuth W) (r : FactorResult × W)
      → IsValid a
      → a.state ≡ await_2fa
      → IsValid (check_factor a r).1
  unfolding check_factor
  check_factor-IsValid a (verified, w) v e =
      authorize-IsValid _
        (record { known = v.known (ap has_request e); scrubbed = v.scrubbed; bounded = v.bounded })
  check_factor-IsValid a (wrong, w) v e = fail-IsValid _ _ false (world-IsValid a _ v)
  check_factor-IsValid a (unsupported, w) v e = fail-IsValid _ _ false (world-IsValid a w v)

  try_factor-IsValid :
      (a : HostAuth W) (code : Auth2fa) (r : Result String (Unit {0}) × W)
      → IsValid a
      → a.state ≡ await_2fa
      → IsValid (try_factor a code r).1
  unfolding try_factor
  try_factor-IsValid a code (err m, w) v e = fail-IsValid _ m false (world-IsValid a w v)
  try_factor-IsValid a code (ok u, w) v e = check_factor-IsValid _ _ (world-IsValid a w v) e

  login_primary-IsValid :
      (crypto : Crypto) (a : HostAuth W) (r : LoginRequest)
      → IsValid a
      → a.state ≡ await_login
      → IsValid (login_primary crypto a r).1
  unfolding login_primary
  login_primary-IsValid crypto a r v e =
      elim (Bool-cases (not (is_click_only a.config.policy) && not (is_empty r.password))) [
        | inl asks ↦ rw asks (check_password-IsValid crypto a r _ v e)
        | inr skips ↦ rw skips (after_verify-IsValid a r _ false v e)
      ]

  login_checked-IsValid :
      (crypto : Crypto) (a : HostAuth W) (r : LoginRequest) (o : Option String)
      → IsValid a
      → IsValid (login_checked crypto a r o).1
  unfolding login_checked
  login_checked-IsValid crypto a r (some m) v = fail-IsValid a m true v
  login_checked-IsValid crypto a r none v =
      login_primary-IsValid crypto (record a { state = await_login }) r
        (record { known = λ h. cc; scrubbed = v.scrubbed; bounded = v.bounded; bare = λ c. cc })
        refl

  -- Every call keeps the invariant, whatever the trait objects answer.
  pub step-IsValid :
      (crypto : Crypto) (a : HostAuth W) (c : Call) → IsValid a → IsValid (step crypto a c).1
  unfolding step login login_open second_factor
  step-IsValid crypto a (logs_in r) v = elim (Bool-cases (is_settled a.state)) [
    | inl settled ↦ rw settled v
    | inr live ↦ rw live (login_checked-IsValid crypto a r _ v)
  ]
  step-IsValid crypto a polls v = poll_approval-IsValid a v
  step-IsValid crypto a (sends_code code) v = elim (Bool-cases (is_await_2fa a.state)) [
    | inl waits ↦ rw waits (try_factor-IsValid a code _ v (ground arith))
    | inr away ↦ rw away v
  ]
  step-IsValid crypto a closes v = close-IsValid a

  run-IsValid :
      (crypto : Crypto) (a : HostAuth W) (cs : List Call) → IsValid a → IsValid (run crypto a cs)
  unfolding run
  run-IsValid crypto a [] v = v
  run-IsValid crypto a (c ∷ cs) v =
      run-IsValid crypto (step crypto a c).1 cs (step-IsValid crypto a c v)

  new-IsValid :
      (starts : Bool) (draws : List ℕ) (c : HostAuthConfig W) (w : W) (a : HostAuth W)
      → new starts draws c w ≡ ok a
      → IsValid a
  unfolding new
  new-IsValid starts draws c w a e = ground arith

  -- After any history from a fresh login the invariant holds: a login that waits for an approval or
  -- a code, or is authorized, knows its request; what it keeps of it has no password and no OS
  -- credentials; the grant never exceeds the ceiling; and a closed login has neither grant nor
  -- request.
  pub run-new-IsValid :
      (crypto : Crypto) (starts : Bool) (draws : List ℕ) (c : HostAuthConfig W) (w : W)
      (a : HostAuth W) (cs : List Call)
      → new starts draws c w ≡ ok a
      → IsValid (run crypto a cs)
  run-new-IsValid crypto starts draws c w a cs e =
      run-IsValid crypto a cs (new-IsValid starts draws c w a e)
