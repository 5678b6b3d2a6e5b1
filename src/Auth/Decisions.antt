-- ===== src/Auth/Decisions.antt =====
-- What single calls decide: refusals, the password check, an immediate success, and the states
-- that no call leaves.
use Prim.Native.String.{String}
use text.Mathlib.TextEquality.{eq_iff}
use rust_desk_enhanced.Prelude.{
  ◌++◌, ℕ, true, false, Option, none, some, List, [], ◌∷◌, ok, ◌≡◌, ◌≢◌, ◌↔◌, ◌⊎◌, refl, arith,
  is_empty, length, ◌==◌, ==_iff, inl, inr, ap, ◌∙◌, Option-cases, Bool-cases,
}
use rust_desk_enhanced.Messages.{LoginRequest, Hash}
use rust_desk_enhanced.Auth.Credentials.{Crypto, verify, verify_loop, password_response}
use rust_desk_enhanced.Auth.Types.{
  intersect, authorized, AuthAction, error, authorized_action, ignored, HostAuth,
}
use rust_desk_enhanced.Auth.Machine.{
  contains, another_id, scrub, restrict, close, fail, authorize, after_primary, poll_approval,
  after_verify, check_password, login_primary, login_checked, login_open, login, second_factor,
  refusal, is_click_only, is_settled, Call, logs_in, polls, sends_code, closes, step, run,
}

-- The response is SHA-256 of some stored value followed by the challenge.
abbrev pub Answers : Crypto → List (List ℕ) → Hash → List ℕ → Type 0
Answers crypto [] hash response = ⊥
Answers crypto (v ∷ vs) hash response =
    (crypto.sha256 (v ++ crypto.as_bytes hash.challenge) ≡ response)
    ⊎ Answers crypto vs hash response

verify_loop-true :
    (crypto : Crypto) (vs : List (List ℕ)) (hash : Hash) (response : List ℕ)
    → verify_loop crypto vs hash response true ≡ true
unfolding verify_loop
verify_loop-true crypto [] hash response = refl
verify_loop-true crypto (v ∷ vs) hash response = verify_loop-true crypto vs hash response

verify_loop_iff :
    (crypto : Crypto) (vs : List (List ℕ)) (hash : Hash) (response : List ℕ)
    → (verify_loop crypto vs hash response false ≡ true) ↔ Answers crypto vs hash response
unfolding verify_loop password_response
verify_loop_iff crypto [] hash response = (λ e. cc, λ h. absurd h)
verify_loop_iff crypto (v ∷ vs) hash response =
    elim (Bool-cases (crypto.memcmp (password_response crypto v hash.challenge) response)) [
      | inl hit ↦ (
        λ _. inl ((crypto.memcmp_iff _ response).0 hit),
        λ _. rw hit (verify_loop-true crypto vs hash response),
      )
      | inr miss ↦ rw miss (
        λ e. inr ((verify_loop_iff crypto vs hash response).0 e),
        λ h. elim h [
          | inl e ↦ absurd (cc ((crypto.memcmp_iff _ response).1 e, miss))
          | inr t ↦ (verify_loop_iff crypto vs hash response).1 t
        ],
      )
    ]

-- A response passes exactly when it has 32 bytes and is what some stored value answers to the
-- challenge: SHA-256 of the value and the challenge.
pub verify_iff :
    (crypto : Crypto) (vs : List (List ℕ)) (hash : Hash) (response : List ℕ)
    → (verify crypto vs hash response ≡ true)
      ↔ ((length response ≡ 32) × Answers crypto vs hash response)
unfolding verify
verify_iff crypto vs hash response = elim (Bool-cases (length response == 32)) [
  | inl whole ↦ rw whole (
    λ e. ((==_iff _ 32).0 whole, (verify_loop_iff crypto vs hash response).0 e),
    λ h. (verify_loop_iff crypto vs hash response).1 h.1,
  )
  | inr other ↦ rw other (λ e. cc, λ h. absurd (cc ((==_iff _ 32).1 h.0, other)))
]

-- What a login must be to reach the password check.
pub record IsAdmissible (targets : List String) (kept : Option LoginRequest) (r : LoginRequest)
    : Type 0 where
  pub targeted : contains targets r.username ≡ true
  pub desktop : r.union ≡ none
  pub no_os_user : r.os_login.username ≡ ""
  pub no_os_password : r.os_login.password ≡ ""
  pub same_id : (first : LoginRequest) → kept ≡ some first → first.my_id ≡ r.my_id
  pub has_id : r.my_id ≢ ""

another_id-false :
    (kept : Option LoginRequest) (my_id : String)
    → another_id kept my_id ≡ false
    → (first : LoginRequest) → kept ≡ some first
    → first.my_id ≡ my_id
another_id-false none my_id e first h = cc
another_id-false (some x) my_id e first h = ground (arith, eq_iff x.my_id my_id)

refusal-none :
    (targets : List String) (kept : Option LoginRequest) (r : LoginRequest)
    → refusal targets kept r ≡ none
    → IsAdmissible targets kept r
unfolding refusal
refusal-none targets kept r e = record {
  targeted = ground arith;
  desktop = ground arith;
  no_os_user = ground (arith, eq_iff r.os_login.username "");
  no_os_password = ground (arith, eq_iff r.os_login.password "");
  same_id = another_id-false kept r.my_id (ground arith);
  has_id = ground (arith, eq_iff r.my_id "");
}

module _ {W : Type 0} (crypto : Crypto) (a : HostAuth W) (r : LoginRequest) where
  -- A login for another target or role, with OS credentials, with another id than before or with
  -- none, ends the connection before any password or approval is looked at: the grant and the
  -- request are gone, and no trait object was called.
  pub login_refuses :
      is_settled a.state ≡ false
      → ¬ IsAdmissible a.config.accepted_targets a.request r
      → (message : String) × (login crypto a r ≡ (error message true, close a))
  unfolding login login_open login_checked fail
  login_refuses live bad = elim (Option-cases (refusal a.config.accepted_targets a.request r)) [
    | inl e ↦ absurd (bad (refusal-none _ _ _ e))
    | inr (m, e) ↦ (m, rw live (rw e))
  ]

  -- The right password lets a peer in at once, where no second factor is required: with the
  -- permissions of the password, within the ceiling, less those that the viewer's options disable.
  pub login_authorizes :
      (w : W)
      → is_settled a.state ≡ false
      → refusal a.config.accepted_targets a.request r ≡ none
      → is_click_only a.config.policy ≡ false
      → is_empty r.password ≡ false
      → a.config.attempts.allow false a.world ≡ (ok tt, w)
      → verify crypto a.config.passwords a.hash r.password ≡ true
      → a.config.second_factor.required (a.config.attempts.outcome false true w) ≡ false
      → let grant = restrict r.option (intersect a.config.password_permissions a.config.ceiling) in
        ((login crypto a r).0 ≡ authorized_action a.config.peer_info grant)
        × ((login crypto a r).1.state ≡ authorized)
        × ((login crypto a r).1.grant ≡ grant)
  unfolding login login_open login_checked login_primary check_password after_verify after_primary
      authorize scrub
  login_authorizes w live admitted takes full allowed valid free =
      rw live
        (rw admitted (rw takes (rw full (rw allowed (rw valid (rw free (refl, refl, refl)))))))

abbrev pub NoClose : List Call → Type 0
NoClose [] = Unit {0}
NoClose (closes ∷ cs) = ⊥
NoClose (_ ∷ cs) = NoClose cs

module _ {W : Type 0} (crypto : Crypto) where
  settled_ignores :
      (a : HostAuth W) (c : Call)
      → is_settled a.state ≡ true
      → c ≢ closes
      → step crypto a c ≡ (ignored, a)
  unfolding step login poll_approval second_factor
  settled_ignores a (logs_in r) s n = rw s
  settled_ignores a polls s n = ground arith
  settled_ignores a (sends_code code) s n = ground arith
  settled_ignores a closes s n = absurd (n refl)

  run_idle :
      (a : HostAuth W) (c : Call) (cs : List Call)
      → is_settled a.state ≡ true
      → c ≢ closes
      → run crypto a (c ∷ cs) ≡ run crypto a cs
  unfolding run
  run_idle a c cs s n =
      ap (λ (x : AuthAction × HostAuth W). run crypto x.1 cs) (settled_ignores a c s n)

  -- Until it is closed, an authorized login ignores every further login, code and approval: its
  -- grant cannot be widened, and its request not replaced.
  pub run-authorized :
      (a : HostAuth W) (cs : List Call) → a.state ≡ authorized → NoClose cs → run crypto a cs ≡ a
  run-authorized a [] s n = unfold run in refl
  run-authorized a (closes ∷ cs) s n = absurd n
  run-authorized a (logs_in r ∷ cs) s n =
      run_idle a (logs_in r) cs (ap is_settled s) (λ e. cc) ∙ run-authorized a cs s n
  run-authorized a (polls ∷ cs) s n =
      run_idle a polls cs (ap is_settled s) (λ e. cc) ∙ run-authorized a cs s n
  run-authorized a (sends_code c ∷ cs) s n =
      run_idle a (sends_code c) cs (ap is_settled s) (λ e. cc) ∙ run-authorized a cs s n

  close_settled : (a : HostAuth W) → is_settled (close a).state ≡ true
  unfolding close
  close_settled a = refl

  close_twice :
      (a : HostAuth W) (cs : List Call)
      → run crypto (close a) (closes ∷ cs) ≡ run crypto (close a) cs
  unfolding run step close
  close_twice a cs = refl

  -- A closed login stays as it is, with no grant and no request, whatever is tried on it.
  pub run-closed : (a : HostAuth W) (cs : List Call) → run crypto (close a) cs ≡ close a
  run-closed a [] = unfold run in refl
  run-closed a (logs_in r ∷ cs) =
      run_idle (close a) (logs_in r) cs (close_settled a) (λ e. cc) ∙ run-closed a cs
  run-closed a (polls ∷ cs) =
      run_idle (close a) polls cs (close_settled a) (λ e. cc) ∙ run-closed a cs
  run-closed a (sends_code c ∷ cs) =
      run_idle (close a) (sends_code c) cs (close_settled a) (λ e. cc) ∙ run-closed a cs
  run-closed a (closes ∷ cs) = close_twice a cs ∙ run-closed a cs
