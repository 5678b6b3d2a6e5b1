-- ===== src/Messages.antt =====
-- The peer messages that the connection setup reads or writes: libs/hbb_common/protos/message.proto.
-- Fields that no modelled code reads are left out. A wire enum is its code, which may be unknown.
use Prim.Native.String.{String}
use text.Mathlib.Text.{◌==◌ as str_eq}
use rust_desk_enhanced.Prelude.{ℕ, ℤ, Bool, Option, none, some, List, ◌==◌, if◌then◌else◌}

pub record OsLogin : Type 0 where
  pub username : String
  pub password : String

-- `OptionMessage.BoolOption`
pub data BoolOption : Type 0 where
  not_set answer_no answer_yes : BoolOption

-- `EnumOrUnknown::enum_value`
unfoldable pub bool_option : ℕ → Option BoolOption
bool_option code =
    if code == 0
    then some not_set
    else if code == 1
    then some answer_no
    else if code == 2
    then some answer_yes
    else none

pub record OptionMessage : Type 0 where
  pub disable_audio : ℕ
  pub disable_clipboard : ℕ
  pub enable_file_transfer : ℕ
  pub disable_keyboard : ℕ

-- The `oneof` of a login request: a role other than the desktop.
pub data LoginUnion : Type 0 where
  file_transfer port_forward view_camera terminal : LoginUnion

pub record LoginRequest : Type 0 where
  pub username : String
  pub password : List ℕ
  pub my_id : String
  pub my_name : String
  pub option : Option OptionMessage
  pub union : Option LoginUnion
  pub video_ack_required : Bool
  pub session_id : ℕ
  pub version : String
  pub os_login : OsLogin
  pub my_platform : String

pub record Auth2fa : Type 0 where
  pub code : String

pub record Hash : Type 0 where
  pub salt : String
  pub challenge : String

pub record PeerInfo : Type 0 where
  pub username : String
  pub hostname : String
  pub platform : String
  pub version : String

pub record MouseEvent : Type 0 where
  pub mask : ℤ
  pub x : ℤ
  pub y : ℤ

abbrev pub is_empty_text : String → Bool
is_empty_text s = str_eq s ""

-- `PermissionInfo`: the permission is its wire code.
pub record PermissionInfo : Type 0 where
  pub permission : ℕ
  pub enabled : Bool

-- `permission_info::Permission`
pub data Permission : Type 0 where
  keyboard clipboard audio file restart recording block_input privacy_mode : Permission

-- `EnumOrUnknown::enum_value`
unfoldable pub permission_value : ℕ → Option Permission
permission_value code =
    if code == 0
    then some keyboard
    else if code == 2
    then some clipboard
    else if code == 3
    then some audio
    else if code == 4
    then some file
    else if code == 5
    then some restart
    else if code == 6
    then some recording
    else if code == 7
    then some block_input
    else if code == 8
    then some privacy_mode
    else none

unfoldable pub permission_code : Permission → ℕ
permission_code keyboard = 0
permission_code clipboard = 2
permission_code audio = 3
permission_code file = 4
permission_code restart = 5
permission_code recording = 6
permission_code block_input = 7
permission_code privacy_mode = 8

-- The `oneof` of a login response.
pub data LoginResponse : Type 0 where
  refused : (message : String) → LoginResponse
  accepted : PeerInfo → LoginResponse
  unset : LoginResponse

-- The `oneof` of `Misc`, as far as it is told apart.
pub data Misc : Type 0 where
  close_reason : String → Misc
  permission_info : PermissionInfo → Misc
  chat_message : (content : ℕ) → Misc
  any_misc : (content : ℕ) → Misc

pub record TestDelay : Type 0 where
  pub time : ℕ
  pub from_client : Bool

-- The `union` of a message beyond the handshake's own; what no modelled code tells apart is `any_payload`.
pub data Payload : Type 0 where
  test_delay : TestDelay → Payload
  hash_payload : Hash → Payload
  login_request : LoginRequest → Payload
  login_response : LoginResponse → Payload
  auth_2fa : Auth2fa → Payload
  misc : Misc → Payload
  message_box : (content : ℕ) → Payload
  any_payload : (content : ℕ) → Payload
