-- ===== src/Session.antt =====
-- crates/rd-engine/src/session.rs: the wire of a session before its media, and what both sides share.
-- A call is handed the instant `now` and the instant at which the next record arrives. The serialized size of a
-- message comes from outside.
pub mod Viewer
pub mod Dispatch
pub mod Host
pub mod Arrivals
pub mod HostInvariant
pub mod HostSteps
pub mod HostHistory
pub mod HostCeiling
pub mod ViewerInvariant
pub mod ViewerSteps
pub mod ViewerReceive
pub mod ViewerHistory
pub mod ViewerEvents
pub mod Agreement
mod Tests
use Prim.Native.String.{String}
use rust_desk_enhanced.Prelude.{
  ℕ, ◌+◌, ◌-◌, ◌*◌, Bool, true, false, Option, none, some, List, [], ◌∷◌, ◌++◌, is_some, ltb, leb,
  if◌then◌else◌, Result, ok, err, map_option,
}
use rust_desk_enhanced.Cipher.{Encrypt, bump}
use rust_desk_enhanced.Messages.{
  OptionMessage, PermissionInfo, PeerInfo, LoginRequest, Payload, login_response, refused, misc,
  close_reason, any_payload,
}
use rust_desk_enhanced.Auth.Types.{Permissions}
use rust_desk_enhanced.Handshake.{
  Message, any_other, Inbound, message, unparsable, io_failure, Fate, completes, breaks, hangs,
  Wire, Security, auth_max_record_bytes,
}

-- The `io::Error`s of a session. A call that is dropped while it writes answers nothing; its outcome is `abandoned`.
pub data SessionError : Type 0 where
  invalid_message read_failure session_closed oversized write_failure undispatched_record
        receive_timeout :
      SessionError
  deadline_expired login_not_allowed no_challenge desktop_only os_login_unsupported changed_identity
        empty_password :
      SessionError
  not_awaiting_code invalid_challenge unsolicited_success empty_response early_payload
        not_authenticated missing_request :
      SessionError
  abandoned : SessionError
  configuration : String → SessionError

-- `SessionIo`
pub record SessionIo : Type 0 where
  pub wire : Option Wire
  pub prefetched : Option Message

-- `SessionIo::new`
unfoldable pub new_io : Wire → Option Message → SessionIo
new_io wire prefetched = record {
  wire = some (record wire { max_packet_length = auth_max_record_bytes });
  prefetched = prefetched;
}

unfoldable pub terminate_io : SessionIo
terminate_io = record { wire = none; prefetched = none }

-- How a receive ends.
pub data Incoming : Type 0 where
  got : Message → Incoming
  ended timed_out : Incoming
  failed : SessionError → Incoming

-- A record that is read or written moves the counter of its direction. (An unsealed record of at most one byte, which
-- `dec` passes on without counting it, is not told apart here.)
abbrev pub count_received : Encrypt → Encrypt
count_received e = record e { received = bump e.received }

abbrev pub count_sent : Encrypt → Encrypt
count_sent e = record e { sent = bump e.sent }

-- `wire.next()`
unfoldable pub next_record : Wire → List Inbound → Incoming × SessionIo
next_record wire [] = (ended, terminate_io)
next_record wire (message m ∷ rest) = (
  got m,
  record {
    wire = some (record wire { inbound = rest; cipher = map_option count_received wire.cipher });
    prefetched = none;
  },
)
next_record wire (unparsable ∷ rest) = (failed invalid_message, terminate_io)
next_record wire (io_failure ∷ rest) = (failed read_failure, terminate_io)

-- A record may have to be waited for; one that was prefetched is there.
unfoldable pub recv_from : Bool → Option Wire → Option Message → Incoming × SessionIo
recv_from late wire (some m) = (got m, record { wire = wire; prefetched = none })
recv_from late none none = (ended, record { wire = none; prefetched = none })
recv_from late (some wire) none =
    if late
    then (timed_out, record { wire = some wire; prefetched = none })
    else next_record wire wire.inbound

-- `timeout_at(deadline, io.recv())`
unfoldable pub recv_io : (deadline arrival : ℕ) → SessionIo → Incoming × SessionIo
recv_io deadline arrival io = recv_from (ltb deadline arrival) io.wire io.prefetched

abbrev pub overhead : Wire → ℕ
overhead wire = if is_some wire.cipher then 16 else 0

abbrev pub Sent : Type 0
Sent = Result SessionError (Unit {0}) × SessionIo

-- A wire on which a message was written.
unfoldable pub wrote_one : Wire → Message → Wire
wrote_one wire m = record wire {
  outbound = wire.outbound ++ (m ∷ []);
  cipher = map_option count_sent wire.cipher;
}

-- A send that fails has consumed the wire, and so has one that is dropped.
unfoldable pub written_as : List Fate → Wire → Option Message → Message → Sent
written_as [] wire prefetched m =
    (ok tt, record { wire = some (wrote_one wire m); prefetched = prefetched })
written_as (completes ∷ fates) wire prefetched m = (
  ok tt,
  record { wire = some (record (wrote_one wire m) { fates = fates }); prefetched = prefetched },
)
written_as (breaks ∷ fates) wire prefetched m =
    (err write_failure, record { wire = none; prefetched = prefetched })
written_as (hangs ∷ fates) wire prefetched m =
    (err abandoned, record { wire = none; prefetched = prefetched })

unfoldable pub write : Wire → Option Message → Message → Sent
write wire prefetched m = written_as wire.fates wire prefetched m

unfoldable pub send_on : (Message → ℕ) → Option Wire → Option Message → Message → Sent
send_on size none prefetched m =
    (err session_closed, record { wire = none; prefetched = prefetched })
send_on size (some wire) prefetched m =
    if ltb (auth_max_record_bytes - overhead wire) (size m)
    then (err oversized, record { wire = some wire; prefetched = prefetched })
    else write wire prefetched m

unfoldable pub send_io : (Message → ℕ) → SessionIo → Message → Sent
send_io size io m = send_on size io.wire io.prefetched m

unfoldable pub take_wire : Option Wire → Option Message → Result SessionError Wire
take_wire wire (some m) = err undispatched_record
take_wire none none = err session_closed
take_wire (some wire) none = ok wire

unfoldable pub take_parts : SessionIo → Result SessionError Wire
take_parts io = take_wire io.wire io.prefetched

-- `login_error`, `close_message` and `is_close`
unfoldable pub login_error : String → Message
login_error error = any_other (login_response (refused error))

abbrev pub close_message : Message
close_message = any_other (misc (close_reason ""))

unfoldable pub is_close : Message → Bool
is_close (any_other (misc (close_reason s))) = true
is_close m = false

pub record SessionClaims : Type 0 where
  pub target : String
  pub controller_id : String
  pub controller_name : String
  pub controller_platform : String
  pub controller_version : String
  pub session_id : ℕ
  pub video_ack_required : Bool
  pub options : Option OptionMessage

-- `SessionClaims::from`
unfoldable pub claims_of : LoginRequest → SessionClaims
claims_of request = record {
  target = request.username;
  controller_id = request.my_id;
  controller_name = request.my_name;
  controller_platform = request.my_platform;
  controller_version = request.version;
  session_id = request.session_id;
  video_ack_required = request.video_ack_required;
  options = request.option;
}

-- `VIEWER_REMOTE_DEFAULTS`
abbrev pub viewer_remote_defaults : Permissions
viewer_remote_defaults = record { keyboard = true; clipboard = true; audio = true; file = true }

pub data AuthenticatedSide : Type 0 where
  viewer_side host_side : AuthenticatedSide

-- `AuthenticatedParts` with its context; the wire is not yet split.
pub record AuthenticatedParts : Type 0 where
  pub wire : Wire
  pub side : AuthenticatedSide
  pub security : Security
  pub permissions : Permissions
  pub permission_reports : List PermissionInfo
  pub claims : SessionClaims
  pub peer_info : Option PeerInfo
