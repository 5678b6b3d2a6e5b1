-- ===== src/Session/HostCeiling.antt =====
-- crates/rd-engine/src/session.rs: no session grants more than the host's ceiling.
use mathlib.Core.Path.{subst}
use rust_desk_enhanced.Prelude.{
  ℕ, Bool, Option, none, some, List, [], ◌∷◌, ok, ◌≡◌, sym, ◌∙◌, arith, inl, inr, All,
}
use rust_desk_enhanced.Messages.{
  test_delay, hash_payload, login_request, login_response, auth_2fa, misc, message_box, any_payload,
}
use rust_desk_enhanced.Auth.Credentials.{Crypto}
use rust_desk_enhanced.Auth.Types.{
  Permissions, no_permissions, HostAuthState, await_login, await_approval, await_2fa, authorized,
  closed, HostAuthConfig,
}
use rust_desk_enhanced.Auth.Machine as Machine
use rust_desk_enhanced.Auth.Invariant.{Within, run-new-IsValid}
use rust_desk_enhanced.Auth.Evidence.{new-await_login}
use rust_desk_enhanced.Handshake.{
  Message, empty, signed_id, public_key, any_other, Inbound, message, unparsable, io_failure, Wire,
  Established,
}
use rust_desk_enhanced.Session.{SessionIo, new_io}
use rust_desk_enhanced.Session.Host.{HostSession, from_established}
use rust_desk_enhanced.Session.Arrivals.{Claims, ClaimsIn, ClaimsNext, ClaimsOn, Arrives}
use rust_desk_enhanced.Session.HostInvariant.{Chain, Gate, IsSound}
use rust_desk_enhanced.Auth.Evidence.{run-Moves, Moves-Same}
use rust_desk_enhanced.Session.HostHistory.{Call, run, reached}

abbrev Anything {ℓ} : {A : Type ℓ} → A → Type 0
Anything a = Unit {0}

abbrev AnyRecords : SessionIo → Type 0
AnyRecords = Arrives Anything Anything

any-Claims : (m : Message) → Claims Anything Anything m
unfolding Claims
any-Claims empty = tt
any-Claims (signed_id x) = tt
any-Claims (public_key x y) = tt
any-Claims (any_other (test_delay x)) = tt
any-Claims (any_other (hash_payload x)) = tt
any-Claims (any_other (login_request x)) = tt
any-Claims (any_other (login_response x)) = tt
any-Claims (any_other (auth_2fa x)) = tt
any-Claims (any_other (misc x)) = tt
any-Claims (any_other (message_box x)) = tt
any-Claims (any_other (any_payload x)) = tt

any-All : (xs : List Inbound) → All (ClaimsIn Anything Anything) xs
unfolding ClaimsIn
any-All [] = tt
any-All (message m ∷ xs) = (any-Claims m, any-All xs)
any-All (unparsable ∷ xs) = (tt, any-All xs)
any-All (io_failure ∷ xs) = (tt, any-All xs)

any-Next : (m : Option Message) → ClaimsNext Anything Anything m
unfolding ClaimsNext
any-Next none = tt
any-Next (some m) = any-Claims m

any-Arrives : (w : Wire) (m : Option Message) → AnyRecords (new_io w m)
unfolding new_io ClaimsOn
any-Arrives w m = (any-Next m, any-All w.inbound)

no_permissions-Within : (p : Permissions) → Within no_permissions p
no_permissions-Within p = ground arith

Gate-Within :
    (s : HostAuthState) (p grant ceiling : Permissions)
    → Gate s p grant
    → Within grant ceiling
    → Within p ceiling
Gate-Within authorized p grant ceiling (inl e) w =
    subst (λ q. Within q ceiling) (sym e) (no_permissions-Within ceiling)
Gate-Within authorized p grant ceiling (inr e) w = subst (λ q. Within q ceiling) (sym e) w
Gate-Within await_login p grant ceiling g w =
    subst (λ q. Within q ceiling) (sym g) (no_permissions-Within ceiling)
Gate-Within await_approval p grant ceiling g w =
    subst (λ q. Within q ceiling) (sym g) (no_permissions-Within ceiling)
Gate-Within await_2fa p grant ceiling g w =
    subst (λ q. Within q ceiling) (sym g) (no_permissions-Within ceiling)
Gate-Within closed p grant ceiling g w =
    subst (λ q. Within q ceiling) (sym g) (no_permissions-Within ceiling)

-- Whatever is called on a new session, in whatever order, and whatever its peer sends: the permissions of
-- the session are within the ceiling of the host's configuration, which no call changes.
pub permissions-Within :
    {W : Type 0} (crypto : Crypto) (size : Message → ℕ) (starts : Bool) (draws : List ℕ)
    (e : Established) (c : HostAuthConfig W) (w : W) (now auth_timeout idle_timeout : ℕ)
    (h : HostSession W) (cs : List Call)
    → from_established size starts draws e c w now auth_timeout idle_timeout ≡ ok h
    → Within (run size crypto h cs).permissions c.ceiling
unfolding IsSound Chain
permissions-Within crypto size starts draws e c w now auth_timeout idle_timeout h cs f =
    let (new, ((calls, sent, k), g, _)) =
      reached crypto Anything Anything size starts draws e c w now auth_timeout idle_timeout h cs
        (any-Arrives e.wire e.prefetched) f in
    let (same, _) =
      Moves-Same crypto Anything Anything (run-Moves crypto Anything Anything h.auth calls sent) in
    let (first, _) = new-await_login crypto Anything Anything starts draws c w h.auth new in
    let v = run-new-IsValid crypto starts draws c w h.auth calls new in
    let bounded =
      subst (λ x. Within (Machine.run crypto h.auth calls).grant x.ceiling) (same ∙ first)
        v.bounded in
    Gate-Within _ _ _ _ g (subst (λ a. Within a.grant c.ceiling) (sym k) bounded)
