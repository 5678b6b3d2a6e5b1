-- ===== src/Auth/Machine.antt =====
-- authentication.rs: the operations of `HostAuthentication`. Each returns its action and the new state.
use Prim.Native.String.{String}
use Prim.Native.Char.{Char}
use text.Mathlib.Text.{◌==◌ as str_eq}
use rust_desk_enhanced.Prelude.{
  ℕ, zero, suc, Bool, true, false, not, ◌&&◌, ◌||◌, Option, none, some, List, [], ◌∷◌, Result, ok,
  err, is_empty, if◌then◌else◌,
}
use rust_desk_enhanced.Messages.{
  BoolOption, answer_no, answer_yes, bool_option, OptionMessage, LoginUnion, file_transfer,
  port_forward, view_camera, terminal, LoginRequest, Auth2fa, is_empty_text,
}
use rust_desk_enhanced.Auth.Credentials.{Crypto, verify}
use rust_desk_enhanced.Auth.Types.{
  Permissions, no_permissions, intersect, PrimaryPolicy, password_only, click_only,
  password_or_click, Approval, pending, denied, approved, FactorResult, verified, wrong,
  unsupported, HostAuthState, await_login, await_approval, await_2fa, authorized, closed,
  AuthAction, error, pending_approval_action, authorized_action, ignored, HostAuthConfig, HostAuth,
  wrong_password, two_factor_required,
}

abbrev pub contains : List String → String → Bool
contains [] s = false
contains (t ∷ ts) s = str_eq t s || contains ts s

-- The error of a login for another role than the desktop. (The source's `_` case is never met.)
unfoldable pub role_error : LoginUnion → String
role_error file_transfer = "No permission of file transfer"
role_error port_forward = "No permission of IP tunneling"
role_error view_camera = "No permission of viewing camera"
role_error terminal = "No permission of terminal"

abbrev pub another_id : Option LoginRequest → String → Bool
another_id none my_id = false
another_id (some first) my_id = not (str_eq first.my_id my_id)

-- The early returns of `login` that close the connection, in their order.
unfoldable pub refusal : List String → Option LoginRequest → LoginRequest → Option String
unfolding role_error
refusal targets first request =
    let tail : Option String =
      if not (is_empty_text request.os_login.username)
        || not (is_empty_text request.os_login.password)
      then some "OS login is unsupported for this session"
      else if another_id first request.my_id
      then some "Connection not allowed"
      else if is_empty_text request.my_id
      then some "Connection not allowed"
      else none in
    if not (contains targets request.username)
    then some "Offline"
    else elim request.union [ some role ↦ some (role_error role) | none ↦ tail ]

-- What is kept of a request: no wire password and no OS credentials.
unfoldable pub scrub : LoginRequest → LoginRequest
scrub request = record request { password = []; os_login = record { username = ""; password = "" } }

abbrev pub disables : Option BoolOption → BoolOption → Bool
disables (some answer_yes) answer_yes = true
disables (some answer_no) answer_no = true
disables _ _ = false

-- The viewer's options only take permissions away.
unfoldable pub restrict : Option OptionMessage → Permissions → Permissions
unfolding bool_option
restrict none p = p
restrict (some o) p = record {
  keyboard = p.keyboard && not (disables (bool_option o.disable_keyboard) answer_yes);
  clipboard = p.clipboard && not (disables (bool_option o.disable_clipboard) answer_yes);
  audio = p.audio && not (disables (bool_option o.disable_audio) answer_yes);
  file = p.file && not (disables (bool_option o.enable_file_transfer) answer_no);
}

abbrev pub option_of : Option LoginRequest → Option OptionMessage
option_of none = none
option_of (some request) = request.option

abbrev pub is_await_approval : HostAuthState → Bool
is_await_approval await_approval = true
is_await_approval _ = false

abbrev pub is_click_only : PrimaryPolicy → Bool
is_click_only click_only = true
is_click_only _ = false

abbrev pub is_settled : HostAuthState → Bool
is_settled closed = true
is_settled authorized = true
is_settled _ = false

abbrev pub is_await_2fa : HostAuthState → Bool
is_await_2fa await_2fa = true
is_await_2fa _ = false

abbrev alphabet : String
alphabet = "0123456789abcdefghijklmnopqrstuvwxyzABCDEFGHIJKLMNOPQRSTUVWXYZ"

-- `ALPHABET[i]`. (The draws are below its length, so the first clause is not met.)
abbrev char_at : String → ℕ → Char
char_at String.[] i = "0"
char_at (String.◌∷◌ c s) zero = c
char_at (String.◌∷◌ c s) (suc i) = char_at s i

-- The challenge spelled by the numbers that `randombytes_uniform` drew.
unfoldable pub challenge_of : List ℕ → String
challenge_of [] = String.[]
challenge_of (i ∷ draws) = String.◌∷◌ (char_at alphabet i) (challenge_of draws)

-- What can happen to a login, in any order.
pub data Call : Type 0 where
  logs_in : LoginRequest → Call
  polls : Call
  sends_code : Auth2fa → Call
  closes : Call

module _ {W : Type 0} where
  -- `HostAuthentication::new`, given whether the crypto library starts and six random draws.
  unfoldable pub new : Bool → List ℕ → HostAuthConfig W → W → Result String (HostAuth W)
  new starts draws config w =
      let fresh : Result String (HostAuth W) = ok (record {
        config = config;
        hash = record { salt = config.salt; challenge = challenge_of draws };
        state = await_login;
        request = none;
        grant = no_permissions;
        world = w;
      }) in
      if not starts then err "Crypto initialization failed" else elim config.accepted_targets [
        | [] ↦ err "Missing explicit authentication configuration"
        | t ∷ ts ↦ fresh
      ]

  unfoldable pub close : HostAuth W → HostAuth W
  close a = record a { state = closed; grant = no_permissions; request = none }

  -- `HostAuthentication::error`
  unfoldable pub fail : HostAuth W → String → Bool → AuthAction × HostAuth W
  fail a message is_terminal = (error message is_terminal, if is_terminal then close a else a)

  unfoldable pub authorize : HostAuth W → AuthAction × HostAuth W
  authorize a =
      let grant = restrict (option_of a.request) a.grant in
      (authorized_action a.config.peer_info grant, record a { grant = grant; state = authorized })

  unfoldable pub after_primary : HostAuth W → AuthAction × HostAuth W
  after_primary a =
      if a.config.second_factor.required a.world
      then fail (record a { state = await_2fa }) two_factor_required false
      else authorize a

  unfoldable pub check_approval : HostAuth W → Approval × W → AuthAction × HostAuth W
  check_approval a (pending, w) = (pending_approval_action, record a { world = w })
  check_approval a (denied, w) = fail (record a { world = w }) "Connection not allowed" true
  check_approval a (approved grant, w) =
      after_primary (record a { world = w; grant = intersect grant a.config.ceiling })

  -- `poll_approval` once the state is right: the provider sees the request that is kept.
  unfoldable pub poll_request : HostAuth W → Option LoginRequest → AuthAction × HostAuth W
  poll_request a (some request) = check_approval a (a.config.approval.check request a.world)
  poll_request a none = (ignored, a)

  unfoldable pub poll_approval : HostAuth W → AuthAction × HostAuth W
  poll_approval a = if is_await_approval a.state then poll_request a a.request else (ignored, a)

  -- The end of `login`: a click-only or mixed host asks for approval, and answers a wrong password
  -- in the mixed case unless the approval has already been given or denied.
  abbrev pub wrong_unless_decided :
      PrimaryPolicy → Bool → AuthAction × HostAuth W → AuthAction × HostAuth W
  wrong_unless_decided password_or_click true (pending_approval_action, a) =
      fail a wrong_password false
  wrong_unless_decided _ _ r = r

  -- No password matched: a click-only or mixed host asks for approval.
  unfoldable pub unmatched : PrimaryPolicy → Bool → HostAuth W → AuthAction × HostAuth W
  unmatched password_only nonempty kept =
      fail kept (if nonempty then wrong_password else "Empty Password") false
  unmatched policy nonempty kept =
      wrong_unless_decided policy nonempty (poll_approval (record kept { state = await_approval }))

  unfoldable pub after_verify : HostAuth W → LoginRequest → Bool → Bool → AuthAction × HostAuth W
  after_verify a request nonempty valid =
      let kept = record a { request = some (scrub request) } in
      if valid
      then after_primary
          (record kept { grant = intersect a.config.password_permissions a.config.ceiling })
      else unmatched a.config.policy nonempty kept

  unfoldable pub check_password :
      Crypto → HostAuth W → LoginRequest → Result String (Unit {0}) × W → AuthAction × HostAuth W
  check_password crypto a request (err e, w) = fail (record a { world = w }) e false
  check_password crypto a request (ok u, w) =
      let valid = verify crypto a.config.passwords a.hash request.password in
      after_verify (record a { world = a.config.attempts.outcome false valid w }) request true valid

  unfoldable pub login_primary : Crypto → HostAuth W → LoginRequest → AuthAction × HostAuth W
  login_primary crypto a request =
      let nonempty = not (is_empty request.password) in
      if not (is_click_only a.config.policy) && nonempty
      then check_password crypto a request (a.config.attempts.allow false a.world)
      else after_verify a request nonempty false

  -- `login` past its checks, or with the message of the check that failed.
  unfoldable pub login_checked :
      Crypto → HostAuth W → LoginRequest → Option String → AuthAction × HostAuth W
  login_checked crypto a request (some message) = fail a message true
  login_checked crypto a request none =
      login_primary crypto (record a { state = await_login }) request

  unfoldable pub login_open : Crypto → HostAuth W → LoginRequest → AuthAction × HostAuth W
  login_open crypto a request =
      login_checked crypto a request (refusal a.config.accepted_targets a.request request)

  unfoldable pub login : Crypto → HostAuth W → LoginRequest → AuthAction × HostAuth W
  login crypto a request = if is_settled a.state then (ignored, a) else login_open crypto a request

  unfoldable pub check_factor : HostAuth W → FactorResult × W → AuthAction × HostAuth W
  check_factor a (verified, w) =
      authorize (record a { world = a.config.attempts.outcome true true w })
  check_factor a (wrong, w) =
      fail (record a { world = a.config.attempts.outcome true false w }) "Wrong 2FA Code" false
  check_factor a (unsupported, w) =
      fail (record a { world = w }) "2FA verification unsupported" false

  unfoldable pub try_factor :
      HostAuth W → Auth2fa → Result String (Unit {0}) × W → AuthAction × HostAuth W
  try_factor a code (err e, w) = fail (record a { world = w }) e false
  try_factor a code (ok u, w) =
      check_factor (record a { world = w }) (a.config.second_factor.verify_code code w)

  unfoldable pub second_factor : HostAuth W → Auth2fa → AuthAction × HostAuth W
  second_factor a code =
      if is_await_2fa a.state
      then try_factor a code (a.config.attempts.allow true a.world)
      else (ignored, a)

  unfoldable pub step : Crypto → HostAuth W → Call → AuthAction × HostAuth W
  step crypto a (logs_in request) = login crypto a request
  step crypto a polls = poll_approval a
  step crypto a (sends_code code) = second_factor a code
  step crypto a closes = (ignored, close a)

  -- A history, with the actions left out.
  unfoldable pub run : Crypto → HostAuth W → List Call → HostAuth W
  run crypto a [] = a
  run crypto a (c ∷ cs) = run crypto (step crypto a c).1 cs
