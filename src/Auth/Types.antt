-- ===== src/Auth/Types.antt =====
-- authentication.rs: permissions, policies, the trait objects and the state of one host login.
-- The trait objects share one state `W`, which their calls pass on.
use Prim.Native.String.{String}
use rust_desk_enhanced.Prelude.{ℕ, Bool, true, false, ◌&&◌, Option, List, Result}
use rust_desk_enhanced.Messages.{LoginRequest, Auth2fa, Hash, PeerInfo}

abbrev pub wrong_password : String
wrong_password = "Wrong Password"

abbrev pub two_factor_required : String
two_factor_required = "2FA Required"

pub record Permissions : Type 0 where
  pub keyboard : Bool
  pub clipboard : Bool
  pub audio : Bool
  pub file : Bool

-- `Permissions::default()` denies all.
abbrev pub no_permissions : Permissions
no_permissions = record { keyboard = false; clipboard = false; audio = false; file = false }

unfoldable pub intersect : Permissions → Permissions → Permissions
intersect p q = record {
  keyboard = p.keyboard && q.keyboard;
  clipboard = p.clipboard && q.clipboard;
  audio = p.audio && q.audio;
  file = p.file && q.file;
}

pub data PrimaryPolicy : Type 0 where
  password_only click_only password_or_click : PrimaryPolicy

pub data Approval : Type 0 where
  pending denied : Approval
  approved : Permissions → Approval

pub data FactorResult : Type 0 where
  verified wrong unsupported : FactorResult

pub record ApprovalProvider (W : Type 0) : Type 0 where
  pub check : LoginRequest → W → Approval × W

pub record SecondFactorProvider (W : Type 0) : Type 0 where
  pub required : W → Bool
  pub verify_code : Auth2fa → W → FactorResult × W

pub record AttemptPolicy (W : Type 0) : Type 0 where
  pub allow : Bool → W → Result String (Unit {0}) × W
  pub outcome : Bool → Bool → W → W

-- `PendingApproval`, `NoSecondFactor` and `UnsupportedSecondFactor`
unfoldable pub pending_approval : (W : Type 0) → ApprovalProvider W
pending_approval W = record { check = λ request w. (pending, w) }

unfoldable pub no_second_factor : (W : Type 0) → SecondFactorProvider W
no_second_factor W = record { required = λ w. false; verify_code = λ code w. (unsupported, w) }

unfoldable pub unsupported_second_factor : (W : Type 0) → SecondFactorProvider W
unsupported_second_factor W = record {
  required = λ w. true;
  verify_code = λ code w. (unsupported, w);
}

pub data HostAuthState : Type 0 where
  await_login await_approval await_2fa authorized closed : HostAuthState

pub data AuthAction : Type 0 where
  error : (message : String) → (is_terminal : Bool) → AuthAction
  pending_approval_action : AuthAction
  authorized_action : (info : PeerInfo) → (permissions : Permissions) → AuthAction
  ignored : AuthAction

pub record HostAuthConfig (W : Type 0) : Type 0 where
  pub accepted_targets : List String
  pub salt : String
  pub passwords : List (List ℕ)
  pub policy : PrimaryPolicy
  pub ceiling : Permissions
  pub password_permissions : Permissions
  pub peer_info : PeerInfo
  pub approval : ApprovalProvider W
  pub second_factor : SecondFactorProvider W
  pub attempts : AttemptPolicy W

-- `HostAuthentication`, with the state of its trait objects beside it.
pub record HostAuth (W : Type 0) : Type 0 where
  pub config : HostAuthConfig W
  pub hash : Hash
  pub state : HostAuthState
  pub request : Option LoginRequest
  pub grant : Permissions
  pub world : W
