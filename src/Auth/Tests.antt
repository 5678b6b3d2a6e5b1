-- ===== src/Auth/Tests.antt =====
-- Runs of a host login, and its theorems at concrete inputs. The providers count their calls.
use Prim.Native.String.{String}
use Prim.Native.Char.{code}
use rust_desk_enhanced.Prelude.{
  ℕ, suc, true, false, none, some, List, [], ◌∷◌, ◌++◌, ok, ◌≡◌, ◌↔◌, refl, take, replicate, length,
  bytes_eq, bytes_eq_iff,
}
use rust_desk_enhanced.Messages.{LoginRequest, Auth2fa, PeerInfo, terminal, bool_option}
use rust_desk_enhanced.Auth.Credentials.{Crypto, password_response, verify, verify_loop}
use rust_desk_enhanced.Auth.Types.{
  Permissions, no_permissions, intersect, password_only, await_login, authorized, error, HostAuth,
  HostAuthConfig, pending, unsupported, unsupported_second_factor, two_factor_required,
}
use rust_desk_enhanced.Auth.Machine.{
  challenge_of, new, scrub, restrict, close, fail, authorize, after_primary, check_approval,
  poll_request, poll_approval, unmatched, after_verify, check_password, login_primary,
  login_checked, login_open, login, check_factor, try_factor, second_factor, refusal, logs_in,
  polls, closes, step, run,
}
use rust_desk_enhanced.Auth.Invariant.{IsValid, run-new-IsValid}
use rust_desk_enhanced.Auth.Evidence.{Primary, Second, authorized-Earned}
use rust_desk_enhanced.Auth.Decisions.{
  Answers, verify_iff, login_refuses, run-authorized, run-closed,
}

abbrev pub codes : String → List ℕ
codes String.[] = []
codes (String.◌∷◌ c s) = code c ∷ codes s

-- A stand-in for SHA-256: the first 32 bytes, padded.
abbrev pub toy_crypto : Crypto
toy_crypto = record {
  sha256 = λ bytes. take 32 (bytes ++ replicate 32 0);
  memcmp = bytes_eq;
  as_bytes = codes;
  memcmp_iff = bytes_eq_iff;
}

abbrev pub all_permissions : Permissions
all_permissions = record { keyboard = true; clipboard = true; audio = true; file = true }

abbrev pub no_files : Permissions
no_files = record { keyboard = true; clipboard = true; audio = true; file = false }

abbrev pub this_host : PeerInfo
this_host = record { username = "me"; hostname = "box"; platform = "Windows"; version = "1.4.9" }

abbrev pub stored : List ℕ
stored = take 32 (codes "pw" ++ codes "salt" ++ replicate 32 0)

abbrev pub host_config : HostAuthConfig ℕ
host_config = record {
  accepted_targets = "box" ∷ [];
  salt = "salt";
  passwords = stored ∷ [];
  policy = password_only;
  ceiling = no_files;
  password_permissions = all_permissions;
  peer_info = this_host;
  approval = record { check = λ r w. (pending, w) };
  second_factor = record { required = λ w. false; verify_code = λ c w. (unsupported, w) };
  attempts = record { allow = λ second w. (ok tt, suc w); outcome = λ second accepted w. suc w };
}

abbrev pub fresh : HostAuth ℕ
fresh = record {
  config = host_config;
  hash = record { salt = "salt"; challenge = "012ABC" };
  state = await_login;
  request = none;
  grant = no_permissions;
  world = 0;
}

abbrev pub right_response : List ℕ
right_response = take 32 (stored ++ codes "012ABC" ++ replicate 32 0)

-- The viewer turns the clipboard off.
abbrev pub right_request : LoginRequest
right_request = record {
  username = "box";
  password = right_response;
  my_id = "123";
  my_name = "peer";
  option = some (record {
    disable_audio = 0;
    disable_clipboard = 2;
    enable_file_transfer = 0;
    disable_keyboard = 1;
  });
  union = none;
  video_ack_required = false;
  session_id = 1;
  version = "1.4.9";
  os_login = record { username = ""; password = "" };
  my_platform = "Linux";
}

abbrev terminal_request : LoginRequest
terminal_request = record right_request { union = some terminal }

-- All that a run of the machine computes with.
unfoldable pub everything : Unit {0}
unfolding new challenge_of run step login login_open login_checked login_primary check_password
    after_verify unmatched after_primary authorize fail close check_approval poll_request
    poll_approval second_factor try_factor check_factor refusal scrub restrict bool_option intersect
    verify verify_loop password_response
everything = tt

fresh_lem : new true (0 ∷ 1 ∷ 2 ∷ 36 ∷ 37 ∷ 38 ∷ []) host_config 0 ≡ ok fresh
unfolding everything
fresh_lem = refl

let_in : (run toy_crypto fresh (logs_in right_request ∷ [])).state ≡ authorized
unfolding everything
let_in = refl

-- The file permission is above the ceiling, and the clipboard was turned off.
let_in_grant :
    (run toy_crypto fresh (logs_in right_request ∷ [])).grant
    ≡ record { keyboard = true; clipboard = false; audio = true; file = false }
unfolding everything
let_in_grant = refl

-- With a factor that nothing can verify the right password is not enough.
abbrev locked : HostAuth ℕ
locked = record fresh {
  config = record host_config { second_factor = unsupported_second_factor ℕ };
}

locked_out : (login toy_crypto locked right_request).0 ≡ error two_factor_required false
unfolding everything unsupported_second_factor
locked_out = refl

run-new-IsValid_example : IsValid (run toy_crypto fresh (logs_in right_request ∷ closes ∷ []))
run-new-IsValid_example =
    run-new-IsValid toy_crypto true (0 ∷ 1 ∷ 2 ∷ 36 ∷ 37 ∷ 38 ∷ []) host_config 0 fresh
      (logs_in right_request ∷ closes ∷ []) fresh_lem

abbrev IsRight : LoginRequest → Type 0
IsRight r = r ≡ right_request

abbrev AnyCode : Auth2fa → Type 0
AnyCode c = Unit {0}

authorized-Earned_example :
    Primary toy_crypto IsRight AnyCode host_config fresh.hash
    × Second toy_crypto IsRight AnyCode host_config
authorized-Earned_example =
    authorized-Earned toy_crypto IsRight AnyCode true (0 ∷ 1 ∷ 2 ∷ 36 ∷ 37 ∷ 38 ∷ []) host_config 0
      fresh (logs_in right_request ∷ []) fresh_lem (refl, tt) let_in

verify_iff_example :
    (verify toy_crypto (stored ∷ []) fresh.hash right_response ≡ true)
    ↔ ((length right_response ≡ 32) × Answers toy_crypto (stored ∷ []) fresh.hash right_response)
verify_iff_example = verify_iff toy_crypto (stored ∷ []) fresh.hash right_response

login_refuses_example :
    (message : String) × (login toy_crypto fresh terminal_request
      ≡ (error message true, close fresh))
login_refuses_example = login_refuses toy_crypto fresh terminal_request refl (λ h. cc (h.desktop))

admitted : refusal ("box" ∷ []) none right_request ≡ none
unfolding refusal
admitted = refl

right : verify toy_crypto (stored ∷ []) fresh.hash right_response ≡ true
unfolding everything
right = refl

run-authorized_example :
    run toy_crypto (record fresh { state = authorized }) (logs_in right_request ∷ polls ∷ [])
    ≡ record fresh { state = authorized }
run-authorized_example =
    run-authorized toy_crypto (record fresh { state = authorized })
      (logs_in right_request ∷ polls ∷ []) refl tt

run-closed_example : run toy_crypto (close fresh) (logs_in right_request ∷ []) ≡ close fresh
run-closed_example = run-closed toy_crypto fresh (logs_in right_request ∷ [])
