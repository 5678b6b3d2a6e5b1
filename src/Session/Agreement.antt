-- ===== src/Session/Agreement.antt =====
-- crates/rd-engine/src/session.rs: a login that the host accepts makes both sides agree.
use mathlib.Core.Path.{subst}
use rust_desk_enhanced.Prelude.{
  ◌≤◌, All, is_some, map_option, not, ◌&&◌, ◌==◌, ℕ, ◌+◌, ◌-◌, Bool, true, false, Option, none,
  some, List, [], ◌∷◌, ◌++◌, append_assoc, append-nil, is_empty, ltb, if◌then◌else◌, Result, ok,
  ◌≡◌, refl, sym, ap, ◌∙◌, arith,
}
use rust_desk_enhanced.Messages.{
  OptionMessage, bool_option, answer_yes, answer_no, LoginRequest, PeerInfo, PermissionInfo,
  Permission, keyboard, clipboard, audio, file, restart, recording, block_input, privacy_mode,
  permission_value, permission_code, login_response, accepted, login_request,
}
use rust_desk_enhanced.Auth.Types.{Permissions, intersect, authorized, authorized_action, HostAuth}
use rust_desk_enhanced.Auth.Credentials.{Crypto, verify}
use rust_desk_enhanced.Handshake.{Message, any_other, Inbound, message, Wire}
use rust_desk_enhanced.Session.{
  SessionError, next_record, recv_from, recv_io, write, written_as, wrote_one, count_sent,
  count_received, send_on, send_io, overhead, is_close,
}
use rust_desk_enhanced.Session.Viewer.{
  Outcome, ViewerEvent, await_login, active, ViewerSession, authorized_event, permission_changed,
  record_permission, record_known, set_permission, update_report,
}
use rust_desk_enhanced.Session.Dispatch.{
  on_response, on_permission, on_misc, on_payload, dispatch, on_incoming, recv_inner, finish, recv,
}
use rust_desk_enhanced.Session.Host as Host
use rust_desk_enhanced.Session.Host.{HostSession, report, reports, after, send_all}
use rust_desk_enhanced.Session.ViewerHistory.{Call, receives, run, step}
use rust_desk_enhanced.Auth.Machine as Machine
use rust_desk_enhanced.Auth.Machine.{is_settled, is_click_only, refusal, restrict, disables}
use rust_desk_enhanced.Auth.Decisions.{login_authorizes}

-- What a host writes when it accepts a login.
abbrev pub answers : PeerInfo → Permissions → List Message
answers info p = any_other (login_response (accepted info)) ∷ reports p

abbrev pub arriving : List Message → List Inbound
arriving [] = []
arriving (m ∷ ms) = message m ∷ arriving ms

-- A session with these records before it.
abbrev pub facing : ViewerSession → Wire → List Inbound → ViewerSession
facing v w inbound = record v {
  io = record { wire = some (record w { inbound = inbound }); prefetched = none };
}

permission_value-permission_code : (p : Permission) → permission_value (permission_code p) ≡ some p
unfolding permission_value permission_code
permission_value-permission_code keyboard = refl
permission_value-permission_code clipboard = refl
permission_value-permission_code audio = refl
permission_value-permission_code file = refl
permission_value-permission_code restart = refl
permission_value-permission_code recording = refl
permission_value-permission_code block_input = refl
permission_value-permission_code privacy_mode = refl

in_time : (now idle : ℕ) → ltb (now + idle) now ≡ false
in_time now idle = ground arith

-- A wire from which a record was read.
abbrev counted : Wire → Wire
counted w = record w { cipher = map_option count_received w.cipher }

module _ (size : Message → ℕ) (now : ℕ) (v : ViewerSession) where
  -- The session once the login is accepted.
  abbrev pub entered :
      Wire → PeerInfo → Permissions → List PermissionInfo → List Inbound → ViewerSession
  entered w info q known inbound = record (facing v w inbound) {
    state = active;
    peer_info = some info;
    permissions = q;
    permission_reports = known;
  }

  enters :
      (w : Wire) (info : PeerInfo) (kept : LoginRequest) (rest : List Inbound)
      → v.state ≡ await_login
      → v.request ≡ some kept
      → ltb v.auth_deadline now ≡ false
      → recv size now now (facing v w (message (any_other (login_response (accepted info))) ∷ rest))
        ≡ (
          ok (authorized_event info),
          entered (counted w) info v.permissions v.permission_reports rest,
        )
  unfolding recv recv_inner finish on_incoming dispatch on_payload on_response recv_io recv_from
      next_record is_close
  enters w info kept rest s r d = rw (s, r, d) refl

  learns :
      (w : Wire) (info : PeerInfo) (q : Permissions) (known : List PermissionInfo) (p : Permission)
      (b : Bool) (rest : List Inbound)
      → recv size now now (entered w info q known (message (report p b) ∷ rest)) ≡ (
        ok (permission_changed (set_permission p b q)),
        entered
            (counted w)
            info
            (set_permission p b q)
            (update_report (record { permission = permission_code p; enabled = b }) known)
            rest,
      )
  unfolding recv recv_inner finish on_incoming dispatch on_payload on_misc on_permission
      record_permission record_known recv_io recv_from next_record is_close
  learns w info q known p b rest =
      rw (in_time now v.idle_timeout, permission_value-permission_code p) refl

  -- The five receives.
  abbrev pub five : List Call
  five =
      receives now now
      ∷ receives now now
      ∷ receives now now
      ∷ receives now now
      ∷ receives now now
      ∷ []

  -- What the viewer ends with.
  unfoldable pub Agrees : PeerInfo → Permissions → ViewerSession → Type 0
  Agrees info p u = (u.state ≡ active) × (u.permissions ≡ p) × (u.peer_info ≡ some info)

  after_receive :
      (crypto : Crypto) (info : PeerInfo) (p : Permissions) (s s' : ViewerSession)
      (r : Result SessionError ViewerEvent) (cs : List Call)
      → recv size now now s ≡ (r, s')
      → Agrees info p (run size crypto s' cs)
      → Agrees info p (run size crypto s (receives now now ∷ cs))
  unfolding run step
  after_receive crypto info p s s' r cs e k =
      subst (λ (x : Outcome ViewerEvent). Agrees info p (run size crypto x.1 cs)) (sym e) k

  agrees :
      (w : Wire) (crypto : Crypto) (info : PeerInfo) (p : Permissions) (kept : LoginRequest)
      → v.state ≡ await_login
      → v.request ≡ some kept
      → ltb v.auth_deadline now ≡ false
      → Agrees info p (run size crypto (facing v w (arriving (answers info p))) five)
  unfolding run step Agrees set_permission
  agrees w crypto info p kept s r d =
      let w1 = counted w in
      let w2 = counted w1 in
      let w3 = counted w2 in
      let told : Permission → Bool → List PermissionInfo → List PermissionInfo =
        λ x b. update_report (record { permission = permission_code x; enabled = b }) in
      let q1 = set_permission keyboard p.keyboard v.permissions in
      let q2 = set_permission clipboard p.clipboard q1 in
      let q3 = set_permission audio p.audio q2 in
      let k1 = told keyboard p.keyboard v.permission_reports in
      let k2 = told clipboard p.clipboard k1 in
      let k3 = told audio p.audio k2 in
      let f = report file p.file in
      let a = report audio p.audio in
      let now_call = receives now now in
      after_receive crypto info p _ _ _ (now_call ∷ now_call ∷ now_call ∷ now_call ∷ [])
        (enters w info kept (arriving (reports p)) s r d)
        (after_receive crypto info p _ _ _ (now_call ∷ now_call ∷ now_call ∷ [])
          (learns w1 info v.permissions v.permission_reports keyboard p.keyboard
            (arriving (report clipboard p.clipboard ∷ a ∷ f ∷ [])))
          (after_receive crypto info p _ _ _ (now_call ∷ now_call ∷ [])
            (learns w2 info q1 k1 clipboard p.clipboard (arriving (a ∷ f ∷ [])))
            (after_receive crypto info p _ _ _ (now_call ∷ [])
              (learns w3 info q2 k2 audio p.audio (arriving (f ∷ [])))
              (after_receive crypto info p _ _ _ [] (learns (counted w3) info q3 k3 file p.file [])
                (refl, refl, refl)))))

abbrev pub wrote : Wire → List Message → Wire
wrote w [] = w
wrote w (m ∷ ms) = wrote (wrote_one w m) ms

wrote-outbound : (w : Wire) (ms : List Message) → (wrote w ms).outbound ≡ w.outbound ++ ms
unfolding wrote_one
wrote-outbound w [] = sym (append-nil w.outbound)
wrote-outbound w (m ∷ ms) = wrote-outbound (wrote_one w m) ms ∙ append_assoc w.outbound (m ∷ []) ms

-- Each of these messages fits into a record.
abbrev pub Fits : (Message → ℕ) → Wire → List Message → Type 0
Fits size w ms = All (λ m. size m + overhead w ≤ 65536) ms

is_some-map_option :
    {A B : Type 0} (f : A → B) (x : Option A) → is_some (map_option f x) ≡ is_some x
is_some-map_option f none = refl
is_some-map_option f (some a) = refl

overhead-wrote_one : (w : Wire) (m : Message) → overhead (wrote_one w m) ≡ overhead w
unfolding wrote_one
overhead-wrote_one w m = ap (λ b. if b then 16 else 0) (is_some-map_option count_sent w.cipher)

fits_one : (limit n : ℕ) → n + limit ≤ 65536 → ltb (65536 - limit) n ≡ false
fits_one limit n h = ground (arith, h)

module _ {W : Type 0} (size : Message → ℕ) (prefetched : Option Message) where
  -- A host session on a wire.
  abbrev pub holding : HostSession W → Wire → HostSession W
  holding h w = record h { io = record { wire = some w; prefetched = prefetched } }

  send_one :
      (h : HostSession W) (w : Wire) (m : Message)
      (next : HostSession W → Host.Outcome W Host.HostEvent)
      → w.fates ≡ []
      → size m + overhead w ≤ 65536
      → after (holding h w) (send_io size (holding h w).io m) next
        ≡ next (holding h (wrote_one w m))
  unfolding after send_io send_on write written_as
  send_one h w m next e f = simp (fits_one (overhead w) (size m) f, e)

  sends_each :
      (h : HostSession W) (w : Wire) (ms : List Message)
      (next : HostSession W → Host.Outcome W Host.HostEvent)
      → w.fates ≡ []
      → (limit : ℕ) → overhead w ≡ limit
      → All (λ x. size x + limit ≤ 65536) ms
      → send_all size ms (holding h w) next ≡ next (holding h (wrote w ms))
  unfolding send_all wrote_one
  sends_each h w [] next e limit l f = refl
  sends_each h w (m ∷ ms) next e limit l (f, fs) =
      send_one h w m (λ h'. send_all size ms h' next) e (omega (arith, l, f))
      ∙ sends_each h (wrote_one w m) ms next e limit (overhead-wrote_one w m ∙ l) fs

  finished :
      (event : Host.HostEvent) (h : HostSession W)
      → Host.is_closed h.auth.state ≡ false
      → Host.finish (ok event, h) ≡ (ok event, h)
  unfolding Host.finish
  finished event h e = rw e refl

  -- A host that accepts a login, with what it writes and holds then.
  accepts :
      (crypto : Crypto) (h : HostSession W) (w : Wire) (request : LoginRequest) (info : PeerInfo)
      (p : Permissions) (a : HostAuth W)
      → w.fates ≡ []
      → Fits size w (answers info p)
      → Machine.login crypto h.auth request ≡ (authorized_action info p, a)
      → a.state ≡ authorized
      → Host.on_payload size crypto (holding h w) (login_request request) ≡ (
        ok (Host.authorized_event p),
        record (holding h (wrote w (answers info p))) { auth = a; permissions = p; ready = true },
      )
  unfolding Host.on_payload Host.apply Host.apply_inner wrote_one
  accepts crypto h w request info p a e (f, fs) login s =
      let next : HostSession W → Host.Outcome W Host.HostEvent =
        λ h''. (ok (Host.authorized_event p), record h'' { ready = true }) in
      let all : HostSession W → Host.Outcome W Host.HostEvent =
        λ h'. send_all size (reports p) (record h' { permissions = p }) next in
      rw login (
        ap Host.finish
          (send_one (record h { auth = a }) w (any_other (login_response (accepted info))) all e f)
        ∙ ap Host.finish (
            sends_each (record h { auth = a; permissions = p })
              (wrote_one w (any_other (login_response (accepted info)))) (reports p) next e
              (overhead w) (overhead-wrote_one w (any_other (login_response (accepted info)))) fs)
        ∙ finished (Host.authorized_event p)
            (next (record (holding h (wrote w (answers info p))) { auth = a; permissions = p })).1
            (ap Host.is_closed s))

-- The viewer's option at a field has this code.
abbrev pub asks : Option OptionMessage → (OptionMessage → ℕ) → ℕ → Bool
asks none field code = false
asks (some o) field code = field o == code

-- What a password grants to a request: what the host gives to a password and its ceiling allows, less what the viewer
-- disables (2 is Yes, 1 is No).
abbrev pub granted : {W : Type 0} → HostAuth W → LoginRequest → Permissions
granted a r =
    let given = a.config.password_permissions in
    let ceiling = a.config.ceiling in
    record {
      keyboard =
          given.keyboard && ceiling.keyboard && not (asks r.option (λ o. o.disable_keyboard) 2);
      clipboard =
          given.clipboard && ceiling.clipboard && not (asks r.option (λ o. o.disable_clipboard) 2);
      audio = given.audio && ceiling.audio && not (asks r.option (λ o. o.disable_audio) 2);
      file = given.file && ceiling.file && not (asks r.option (λ o. o.enable_file_transfer) 1);
    }

disables-yes : (n : ℕ) → disables (bool_option n) answer_yes ≡ (n == 2)
unfolding bool_option
disables-yes n = ground arith

disables-no : (n : ℕ) → disables (bool_option n) answer_no ≡ (n == 1)
unfolding bool_option
disables-no n = ground arith

and_true : (b : Bool) → (b && true) ≡ b
and_true true = refl
and_true false = refl

restrict-intersect :
    (o : Option OptionMessage) (p q : Permissions)
    → restrict o (intersect p q) ≡ record {
      keyboard = p.keyboard && q.keyboard && not (asks o (λ o. o.disable_keyboard) 2);
      clipboard = p.clipboard && q.clipboard && not (asks o (λ o. o.disable_clipboard) 2);
      audio = p.audio && q.audio && not (asks o (λ o. o.disable_audio) 2);
      file = p.file && q.file && not (asks o (λ o. o.enable_file_transfer) 1);
    }
unfolding restrict intersect
restrict-intersect none p q =
    rw
      (
        and_true (p.keyboard && q.keyboard),
        and_true (p.clipboard && q.clipboard),
        and_true (p.audio && q.audio),
        and_true (p.file && q.file),
      )
      refl
restrict-intersect (some o) p q =
    rw
      (
        disables-yes o.disable_keyboard,
        disables-yes o.disable_clipboard,
        disables-yes o.disable_audio,
        disables-no o.enable_file_transfer,
      )
      refl

-- What a host's call answers, holds and writes when it lets a peer in.
unfoldable pub LetsIn :
    {W : Type 0} → Wire → PeerInfo → Permissions → Host.Outcome W Host.HostEvent → Type 0
LetsIn w info p (r, h) =
    (r ≡ ok (Host.authorized_event p))
    × (h.auth.state ≡ authorized)
    × (h.ready ≡ true)
    × (h.permissions ≡ p)
    × ((x : Wire) × (h.io.wire ≡ some x) × (x.outbound ≡ w.outbound ++ answers info p))

-- A request with a password that the host takes, on a connection whose writes complete, lets the peer in: the host is
-- authorized and ready, with the permissions that it gives to a password and its ceiling allows, less those that the
-- request disables, and has written its info and a report of each; and a viewer that has logged in and reads what the
-- host then writes is active, with the same permissions and the host's info. (The host requires no second factor, its
-- attempt policy allows the attempt, the viewer is in time, and each message that the host writes fits into a record.)
pub login-Agrees :
    {W : Type 0} (crypto : Crypto) (size : Message → ℕ) (h : HostSession W) (r : LoginRequest)
    (w : Wire) (prefetched : Option Message) (world : W) (v : ViewerSession) (now : ℕ) (x : Wire)
    (kept : LoginRequest)
    → is_settled h.auth.state ≡ false
    → refusal h.auth.config.accepted_targets h.auth.request r ≡ none
    → is_click_only h.auth.config.policy ≡ false
    → is_empty r.password ≡ false
    → h.auth.config.attempts.allow false h.auth.world ≡ (ok tt, world)
    → verify crypto h.auth.config.passwords h.auth.hash r.password ≡ true
    → h.auth.config.second_factor.required (h.auth.config.attempts.outcome false true world) ≡ false
    → w.fates ≡ []
    → Fits size w (answers h.auth.config.peer_info (granted h.auth r))
    → v.state ≡ await_login
    → v.request ≡ some kept
    → ltb v.auth_deadline now ≡ false
    → LetsIn w h.auth.config.peer_info
        (granted h.auth r)
        (Host.on_payload size crypto (holding size prefetched h w) (login_request r))
      × Agrees size now v h.auth.config.peer_info (granted h.auth r) (
          run size crypto
            (facing v x (arriving (answers h.auth.config.peer_info (granted h.auth r))))
            (five size now v))
unfolding LetsIn
login-Agrees crypto size h r w prefetched world v now x kept live admitted takes full allowed valid
      free e f s q d =
    let p = granted h.auth r in
    let info = h.auth.config.peer_info in
    let (action, state, grant) =
      login_authorizes crypto h.auth r world live admitted takes full allowed valid free in
    let spelled =
      restrict-intersect r.option h.auth.config.password_permissions h.auth.config.ceiling in
    let let_in =
      accepts size prefetched crypto h w r info p (Machine.login crypto h.auth r).1 e f
        (ap (λ a. (a, (Machine.login crypto h.auth r).1))
          (action ∙ ap (authorized_action info) spelled))
        state in
    (
      subst (LetsIn w info p) (sym let_in) (
        refl,
        state,
        refl,
        refl,
        (wrote w (answers info p), refl, wrote-outbound w (answers info p)),
      ),
      agrees size now v x crypto info p kept s q d,
    )
