-- ===== src/Session/Tests.antt =====
-- Sessions, and their theorems at concrete inputs.
use rust_desk_enhanced.Prelude.{
  ℕ, ltb, ◌≡◌, ◌≢◌, refl, sym, ◌∙◌, true, false, none, some, List, [], ◌∷◌, ok, err, arith,
}
use rust_desk_enhanced.Messages.{
  LoginRequest, Auth2fa, accepted, hash_payload, login_request, login_response, misc,
  permission_info, permission_code, file, any_payload, permission_value,
}
use rust_desk_enhanced.Auth.Types.{no_permissions, authorized}
use rust_desk_enhanced.Auth.Credentials.{verify, password_response, salted_password}
use rust_desk_enhanced.Auth.Invariant.{Within}
use rust_desk_enhanced.Auth.Evidence.{Primary, Second}
use rust_desk_enhanced.Auth.Machine.{refusal}
use rust_desk_enhanced.Auth.Tests as Login
use rust_desk_enhanced.Handshake.{
  Message, any_other, Inbound, message, completes, hangs, legacy_plain, Wire, Established,
}
use rust_desk_enhanced.Session.{
  early_payload, new_io, next_record, recv_from, recv_io, write, written_as, wrote_one, send_on,
  send_io, login_error, claims_of, is_close, terminate_io,
}
use rust_desk_enhanced.Session.Viewer as Viewer
use rust_desk_enhanced.Session.Dispatch as Dispatch
use rust_desk_enhanced.Session.Host as Host
use rust_desk_enhanced.Session.Arrivals.{Arrives, Claims, ClaimsIn, ClaimsNext, ClaimsOn}
use rust_desk_enhanced.Session.ViewerInvariant.{IsValid}
use rust_desk_enhanced.Session.ViewerHistory as ViewerHistory
use rust_desk_enhanced.Session.ViewerEvents.{Allowed, recv-Allowed}
use rust_desk_enhanced.Session.HostHistory as HostHistory
use rust_desk_enhanced.Session.HostHistory.{permissions-Earned}
use rust_desk_enhanced.Session.Agreement.{
  LetsIn, Agrees, granted, holding, facing, arriving, answers, five, login-Agrees,
}
use rust_desk_enhanced.Session.HostCeiling.{permissions-Within}

abbrev small : Message → ℕ
small m = 100

abbrev established : List Inbound → Established
established inbound = record {
  wire = record {
    inbound = inbound;
    outbound = [];
    cut = none;
    fates = [];
    cipher = none;
    max_packet_length = 65536;
  };
  security = legacy_plain false;
  prefetched = none;
}

everything : Unit {0}
unfolding new_io next_record recv_from recv_io write written_as wrote_one send_on send_io
    login_error claims_of is_close terminate_io Viewer.from_established Viewer.terminate
    Viewer.login Viewer.login_challenged Viewer.login_checked Viewer.login_with Viewer.credential
    Viewer.request_error Viewer.after_login_send Viewer.record_permission Viewer.record_known
    Viewer.set_permission Viewer.update_report permission_value Dispatch.recv Dispatch.recv_inner
    Dispatch.finish Dispatch.on_incoming Dispatch.dispatch Dispatch.on_payload Dispatch.on_hash
    Dispatch.on_response Dispatch.on_misc Dispatch.on_permission Dispatch.unclaimed
    Dispatch.refused_state Dispatch.close Host.from_established Host.from_new Host.greeted Host.recv
    Host.recv_inner Host.finish Host.shut Host.on_incoming Host.dispatch Host.on_payload Host.apply
    Host.apply_inner Host.after Host.send_all Host.unclaimed permission_code password_response
    salted_password
everything = tt

abbrev viewer_request : LoginRequest
viewer_request = record Login.right_request { password = [] }

-- What the host writes on a successful login.
abbrev welcome : List Inbound
welcome =
    message (any_other (hash_payload (record { salt = "salt"; challenge = "012ABC" })))
    ∷ message (any_other (login_response (accepted Login.this_host)))
    ∷ message (
        any_other
          (misc (permission_info (record { permission = permission_code file; enabled = false }))))
    ∷ message (any_other (any_payload 7))
    ∷ []

abbrev viewer_calls : List ViewerHistory.Call
viewer_calls =
    ViewerHistory.receives 0 0
    ∷ ViewerHistory.logs_in 1 viewer_request (some (Login.codes "pw"))
    ∷ ViewerHistory.receives 2 2
    ∷ ViewerHistory.receives 3 3
    ∷ []

abbrev viewer_run : Viewer.ViewerSession
viewer_run =
    ViewerHistory.run small Login.toy_crypto (Viewer.from_established (established welcome) 0 90 30)
      viewer_calls

logged_in : viewer_run.state ≡ Viewer.active
unfolding everything permission_code ViewerHistory.run ViewerHistory.step
logged_in = refl

-- The viewer wrote the response that the host accepts.
asked :
    (viewer_run.io.wire)
    ≡ some (record {
      inbound = message (any_other (any_payload 7)) ∷ [];
      outbound = any_other (login_request Login.right_request) ∷ [];
      cut = none;
      fates = [];
      cipher = none;
      max_packet_length = 65536;
    })
unfolding everything ViewerHistory.run ViewerHistory.step
asked = refl

file_denied :
    Viewer.remote_permissions viewer_run
    ≡ record { keyboard = true; clipboard = true; audio = true; file = false }
unfolding everything ViewerHistory.run ViewerHistory.step Viewer.remote_permissions
file_denied = refl

run-from_established-IsValid_example : IsValid viewer_run
run-from_established-IsValid_example =
    ViewerHistory.run-from_established-IsValid small Login.toy_crypto (established welcome) 0 90 30
      viewer_calls

first_payload :
    (Dispatch.recv small 4 4 viewer_run).0 ≡ ok (Viewer.payload (any_other (any_payload 7)))
unfolding everything ViewerHistory.run ViewerHistory.step
first_payload = refl

recv-Allowed_example : viewer_run.state ≡ Viewer.active
unfolding Allowed
recv-Allowed_example =
    recv-Allowed small 4 4 viewer_run (Viewer.payload (any_other (any_payload 7))) first_payload

abbrev host_wire : List Inbound
host_wire =
    message (any_other (login_request Login.right_request))
    ∷ message (any_other (any_payload 1))
    ∷ []

abbrev host_start : Host.HostSession ℕ
host_start = record {
  io = record {
    wire = some (record {
      inbound = host_wire;
      outbound = any_other (hash_payload (record { salt = "salt"; challenge = "012ABC" })) ∷ [];
      cut = none;
      fates = [];
      cipher = none;
      max_packet_length = 65536;
    });
    prefetched = none;
  };
  auth = Login.fresh;
  security = legacy_plain false;
  permissions = no_permissions;
  ready = false;
  auth_deadline = 90;
  idle_timeout = 30;
}

abbrev draws : List ℕ
draws = 0 ∷ 1 ∷ 2 ∷ 36 ∷ 37 ∷ 38 ∷ []

started :
    Host.from_established small true draws (established host_wire) Login.host_config 0 0 90 30
    ≡ ok host_start
unfolding everything Login.everything
started = refl

abbrev host_calls : List HostHistory.Call
host_calls = HostHistory.receives false 1 1 ∷ HostHistory.receives false 2 2 ∷ []

abbrev host_run : Host.HostSession ℕ
host_run = HostHistory.run small Login.toy_crypto host_start host_calls

permitted :
    host_run.permissions ≡ record { keyboard = true; clipboard = false; audio = true; file = false }
unfolding everything Login.everything HostHistory.run HostHistory.step
permitted = refl

-- A call that is dropped in the first report leaves permissions on a session that is not ready and has no wire.
abbrev dropped_run : Host.HostSession ℕ
dropped_run =
    HostHistory.run small Login.toy_crypto
      (record host_start {
        io =
            new_io
              (record {
                inbound = host_wire;
                outbound = [];
                cut = none;
                fates = completes ∷ hangs ∷ [];
                cipher = none;
                max_packet_length = 0;
              })
              none;
      })
      (HostHistory.receives false 1 1 ∷ [])

dropped :
    (dropped_run.permissions
      ≡ record { keyboard = true; clipboard = false; audio = true; file = false })
    × (dropped_run.ready ≡ false)
    × (dropped_run.io.wire ≡ none)
unfolding everything Login.everything HostHistory.run HostHistory.step
dropped = (refl, refl, refl)

-- A record for the application closes a session that is not authorized.
refused_early :
    (Host.recv small Login.toy_crypto false 1 1 (record host_start {
      io =
          new_io
            (record {
              inbound = message (any_other (any_payload 1)) ∷ [];
              outbound = [];
              cut = none;
              fates = [];
              cipher = none;
              max_packet_length = 0;
            })
            none;
    })).0
    ≡ err early_payload
unfolding everything Login.everything
refused_early = refl

some_permission : host_run.permissions ≢ no_permissions
some_permission e = ground (arith, sym permitted ∙ e)

abbrev Right : LoginRequest → Type 0
Right r = r ≡ Login.right_request

abbrev NoCode : Auth2fa → Type 0
NoCode c = ⊥

arrives : Arrives Right NoCode (new_io (established host_wire).wire none)
unfolding everything ClaimsNext ClaimsOn ClaimsIn Claims
arrives = (tt, (refl, (tt, tt)))

permissions-Earned_example :
    (host_run.auth.state ≡ authorized)
    × (host_run.permissions ≡ host_run.auth.grant)
    × Primary Login.toy_crypto Right NoCode Login.host_config host_start.auth.hash
    × Second Login.toy_crypto Right NoCode Login.host_config
permissions-Earned_example =
    permissions-Earned Login.toy_crypto Right NoCode small true draws (established host_wire)
      Login.host_config 0 0 90 30 host_start host_calls arrives started some_permission

permissions-Within_example : Within host_run.permissions Login.host_config.ceiling
permissions-Within_example =
    permissions-Within Login.toy_crypto small true draws (established host_wire) Login.host_config 0
      0 90 30 host_start host_calls started

-- A viewer that has sent its request.
abbrev viewer_waiting : Viewer.ViewerSession
viewer_waiting =
    ViewerHistory.run small Login.toy_crypto (Viewer.from_established (established welcome) 0 90 30)
      (ViewerHistory.receives 0 0
        ∷ ViewerHistory.logs_in 1 viewer_request (some (Login.codes "pw"))
        ∷ [])

viewer_waits :
    (viewer_waiting.state ≡ Viewer.await_login)
    × (viewer_waiting.request ≡ some viewer_request)
    × (ltb viewer_waiting.auth_deadline 2 ≡ false)
unfolding everything ViewerHistory.run ViewerHistory.step
viewer_waits = (refl, refl, refl)

abbrev working : Wire
working = record {
  inbound = [];
  outbound = [];
  cut = none;
  fates = [];
  cipher = none;
  max_packet_length = 65536;
}

takes_password :
    (refusal Login.host_config.accepted_targets none Login.right_request ≡ none)
    × (verify Login.toy_crypto Login.host_config.passwords Login.fresh.hash Login.right_response
        ≡ true)
unfolding everything Login.everything
takes_password = (refl, refl)

login-Agrees_example :
    LetsIn working Login.this_host (granted Login.fresh Login.right_request) (
      Host.on_payload small Login.toy_crypto
        (holding small none host_start working)
        (login_request Login.right_request))
    × Agrees small 2 viewer_waiting Login.this_host (granted Login.fresh Login.right_request) (
        ViewerHistory.run small Login.toy_crypto
          (facing viewer_waiting working
            (arriving (answers Login.this_host (granted Login.fresh Login.right_request))))
          (five small 2 viewer_waiting))
login-Agrees_example =
    login-Agrees Login.toy_crypto small host_start Login.right_request working none 1 viewer_waiting
      2 working viewer_request refl takes_password.0 refl refl refl takes_password.1 refl refl
      (omega arith, (omega arith, (omega arith, (omega arith, (omega arith, tt))))) viewer_waits.0
      viewer_waits.1 viewer_waits.2
