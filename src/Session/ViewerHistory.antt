-- ===== src/Session/ViewerHistory.antt =====
-- crates/rd-engine/src/session.rs: the calls of a viewer, in any order.
use Prim.Native.String.{String}
use rust_desk_enhanced.Prelude.{ℕ, Option, List, [], ◌∷◌, refl}
use rust_desk_enhanced.Messages.{LoginRequest}
use rust_desk_enhanced.Auth.Credentials.{Crypto}
use rust_desk_enhanced.Handshake.{Message, Established}
use rust_desk_enhanced.Session.Viewer.{ViewerSession, from_established, login, send_second_factor}
use rust_desk_enhanced.Session.Dispatch.{recv, close}
use rust_desk_enhanced.Session.ViewerInvariant.{Holds, IsValid}
use rust_desk_enhanced.Session.ViewerSteps.{login-Good, send_second_factor-Good, close-Good}
use rust_desk_enhanced.Session.ViewerReceive.{recv-IsValid}

-- A call of a viewer, with the instants that it sees.
pub data Call : Type 0 where
  logs_in : (now : ℕ) → LoginRequest → Option (List ℕ) → Call
  sends_code : (now : ℕ) → String → Call
  receives : (now arrival : ℕ) → Call
  closes : Call

unfoldable pub step : (Message → ℕ) → Crypto → ViewerSession → Call → ViewerSession
step size crypto v (logs_in now request password) = (login size crypto now request password v).1
step size crypto v (sends_code now code) = (send_second_factor size now code v).1
step size crypto v (receives now arrival) = (recv size now arrival v).1
step size crypto v closes = (close size v).1

unfoldable pub run : (Message → ℕ) → Crypto → ViewerSession → List Call → ViewerSession
run size crypto v [] = v
run size crypto v (c ∷ cs) = run size crypto (step size crypto v c) cs

step-IsValid :
    (size : Message → ℕ) (crypto : Crypto) (v : ViewerSession) (c : Call)
    → IsValid v
    → IsValid (step size crypto v c)
unfolding step
step-IsValid size crypto v (logs_in now request password) k =
    login-Good size crypto now request password v k
step-IsValid size crypto v (sends_code now code) k = send_second_factor-Good size now code v k
step-IsValid size crypto v (receives now arrival) k = recv-IsValid size now arrival v k
step-IsValid size crypto v closes k = close-Good size v k

run-IsValid :
    (size : Message → ℕ) (crypto : Crypto) (v : ViewerSession) (cs : List Call)
    → IsValid v
    → IsValid (run size crypto v cs)
unfolding run
run-IsValid size crypto v [] k = k
run-IsValid size crypto v (c ∷ cs) k =
    run-IsValid size crypto (step size crypto v c) cs (step-IsValid size crypto v c k)

-- Whatever calls are made on a viewer after its handshake, in whatever order: when it is active, it has
-- written a login request, which it keeps without its password, and knows the peer's info; while it waits
-- for the challenge it has made no request; when it is closed it has no wire, no challenge, no request, no
-- permissions and no peer info; and in every other state it has a challenge, and a request that it keeps
-- was written and is kept without its password.
pub run-from_established-IsValid :
    (size : Message → ℕ) (crypto : Crypto) (e : Established) (now auth_timeout idle_timeout : ℕ)
    (cs : List Call)
    → IsValid (run size crypto (from_established e now auth_timeout idle_timeout) cs)
unfolding from_established Holds
run-from_established-IsValid size crypto e now auth_timeout idle_timeout cs =
    run-IsValid size crypto _ cs (refl, refl)
