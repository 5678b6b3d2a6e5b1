-- ===== src/Auth/Evidence.antt =====
-- No history authorizes a peer that has not shown what the policy asks for.
use rust_desk_enhanced.Prelude.{
  ℕ, Bool, true, false, List, [], ◌∷◌, ok, ◌≡◌, ◌≢◌, ◌⊎◌, refl, sym, some, arith, inl, inr, ◌∙◌,
  Bool-cases, All,
}
use rust_desk_enhanced.Messages.{LoginRequest, Auth2fa, Hash}
use rust_desk_enhanced.Auth.Credentials.{Crypto, verify}
use rust_desk_enhanced.Auth.Types.{
  Permissions, password_only, approved, verified, HostAuthState, await_login, await_approval,
  await_2fa, authorized, closed, HostAuthConfig, HostAuth,
}
use rust_desk_enhanced.Auth.Machine.{
  scrub, close, fail, authorize, after_primary, new, is_click_only, Call, step, run,
}
use rust_desk_enhanced.Auth.Moves.{
  Move, Moves, Sent, consults, drops, restarts, keeps, asks_user, by_password, by_approval,
  by_factor, here, next, step-Moves,
}

module _ {W : Type 0} (crypto : Crypto) (Asked : LoginRequest → Type 0)
    (Coded : Auth2fa → Type 0) where
  -- The primary factor: a password that matches, or the approval of a request by the local provider, which does not see its
  -- password.
  abbrev pub Primary : HostAuthConfig W → Hash → Type 0
  Primary c h =
      ((r : LoginRequest) × Asked r
        × (is_click_only c.policy ≡ false)
        × (verify crypto c.passwords h r.password ≡ true))
      ⊎ ((r : LoginRequest) × (p : Permissions) × (w : W) × (w' : W) × Asked r
          × (c.policy ≢ password_only)
          × (c.approval.check (scrub r) w ≡ (approved p, w')))

  -- The second factor: not required when the primary one was shown, or a code that the provider verified.
  abbrev pub Second : HostAuthConfig W → Type 0
  Second c =
      ((w : W) × (c.second_factor.required w ≡ false))
      ⊎ ((code : Auth2fa) × (w : W) × (w' : W) × Coded code
          × (c.second_factor.verify_code code w ≡ (verified, w')))

  -- What has been shown when a login is in a state.
  abbrev Earned : HostAuthConfig W → Hash → HostAuthState → Type 0
  Earned c h await_login = Unit {0}
  Earned c h closed = Unit {0}
  Earned c h await_approval = c.policy ≢ password_only
  Earned c h await_2fa = Primary c h
  Earned c h authorized = Primary c h × Second c

  abbrev EarnedBy : HostAuth W → Type 0
  EarnedBy a = Earned a.config a.hash a.state

  after_primary-EarnedBy : (a : HostAuth W) → Primary a.config a.hash → EarnedBy (after_primary a).1
  unfolding after_primary authorize fail
  after_primary-EarnedBy a p = elim (Bool-cases (a.config.second_factor.required a.world)) [
    | inl needed ↦ rw (needed, after_primary) p
    | inr free ↦ rw (free, after_primary) (p, inl (a.world, free))
  ]

  -- The request that is kept was asked; its password is gone.
  abbrev Kept : HostAuth W → Type 0
  Kept a =
      (r : LoginRequest)
      → a.request ≡ some r
      → (asked : LoginRequest) × Asked asked × (r ≡ scrub asked)

  after_primary-request : (a : HostAuth W) → (after_primary a).1.request ≡ a.request
  unfolding after_primary authorize fail
  after_primary-request a = ground arith

  Move-Kept : {a b : HostAuth W} → Move crypto Asked Coded a b → Kept a → Kept b
  unfolding close authorize
  Move-Kept (consults w) k = k
  Move-Kept drops k = λ r e. absurd (ground (arith, e))
  Move-Kept (restarts live) k = k
  Move-Kept (keeps r asked s) k = λ x e. (r, asked, ground (arith, e))
  Move-Kept (asks_user p) k = k
  Move-Kept (by_password r asked c v) k = λ x e. k x (sym (after_primary-request _) ∙ e)
  Move-Kept (by_approval r q s h) k = λ x e. k x (sym (after_primary-request _) ∙ e)
  Move-Kept (by_factor code coded s h) k = k

  Moves-Kept : {a b : HostAuth W} → Moves crypto Asked Coded a b → Kept a → Kept b
  Moves-Kept here k = k
  Moves-Kept (next ms m) k = Move-Kept m (Moves-Kept ms k)

  Move-EarnedBy :
      {a b : HostAuth W} → Move crypto Asked Coded a b → Kept a → EarnedBy a → EarnedBy b
  unfolding close authorize
  Move-EarnedBy (consults w) k e = e
  Move-EarnedBy drops k e = tt
  Move-EarnedBy (restarts live) k e = tt
  Move-EarnedBy (keeps r asked s) k e = e
  Move-EarnedBy (asks_user p) k e = p
  Move-EarnedBy (by_password r asked c v) k e = after_primary-EarnedBy _ (inl (r, asked, c, v))
  Move-EarnedBy {a} (by_approval r {p} {w} {w'} q s h) k e =
      let (asked, t, f) = k r q in
      after_primary-EarnedBy _ (inr (asked, p, w, w', t, rw s at e, rw f at h))
  Move-EarnedBy {a} (by_factor code {w} {w'} coded s h) k e =
      (rw s at e, inr (code, w, w', coded, h))

  Moves-EarnedBy :
      {a b : HostAuth W} → Moves crypto Asked Coded a b → Kept a → EarnedBy a → EarnedBy b
  Moves-EarnedBy here k e = e
  Moves-EarnedBy (next ms m) k e = Move-EarnedBy m (Moves-Kept ms k) (Moves-EarnedBy ms k e)

  -- No move touches the configuration or the challenge.
  abbrev Same : HostAuth W → HostAuth W → Type 0
  Same a b = (b.config ≡ a.config) × (b.hash ≡ a.hash)

  after_primary-Same : (a : HostAuth W) → Same a (after_primary a).1
  unfolding after_primary authorize fail
  after_primary-Same a = ground arith

  Move-Same : {a b : HostAuth W} → Move crypto Asked Coded a b → Same a b
  unfolding close authorize
  Move-Same (consults w) = (refl, refl)
  Move-Same drops = (refl, refl)
  Move-Same (restarts live) = (refl, refl)
  Move-Same (keeps r asked s) = (refl, refl)
  Move-Same (asks_user p) = (refl, refl)
  Move-Same (by_password r asked c v) = after_primary-Same _
  Move-Same (by_approval r q s h) = after_primary-Same _
  Move-Same (by_factor code coded s h) = (refl, refl)

  pub Moves-Same : {a b : HostAuth W} → Moves crypto Asked Coded a b → Same a b
  Moves-Same here = (refl, refl)
  Moves-Same (next ms m) =
      let (c, h) = Moves-Same ms in let (c', h') = Move-Same m in (c' ∙ c, h' ∙ h)

  append :
      {a b c : HostAuth W}
      → Moves crypto Asked Coded a b
      → Moves crypto Asked Coded b c
      → Moves crypto Asked Coded a c
  append ms here = ms
  append ms (next ns m) = next (append ms ns) m

  -- Any history is a chain of moves of the abstract account.
  pub run-Moves :
      (a : HostAuth W) (cs : List Call)
      → All (Sent Asked Coded) cs
      → Moves crypto Asked Coded a (run crypto a cs)
  unfolding run
  run-Moves a [] t = here
  run-Moves a (c ∷ cs) (sent, t) =
      append (step-Moves crypto Asked Coded a c sent) (run-Moves (step crypto a c).1 cs t)

  pub new-await_login :
      (starts : Bool) (draws : List ℕ) (c : HostAuthConfig W) (w : W) (a : HostAuth W)
      → new starts draws c w ≡ ok a
      → (a.config ≡ c) × (a.state ≡ await_login)
  unfolding new
  new-await_login starts draws c w a e = ground arith

  new-Kept :
      (starts : Bool) (draws : List ℕ) (c : HostAuthConfig W) (w : W) (a : HostAuth W)
      → new starts draws c w ≡ ok a
      → Kept a
  unfolding new
  new-Kept starts draws c w a e r f = absurd (ground (arith, e, f))

  carried :
      (c c' : HostAuthConfig W) (h h' : Hash) (s : HostAuthState)
      → c' ≡ c
      → h' ≡ h
      → s ≡ authorized
      → Earned c' h' s
      → Primary c h × Second c
  carried c c' h h' s p q r e = rw (← p) (rw (← q) (rw r at e))

  -- When a history from a fresh login ends authorized, then a request of the history carried a
  -- password that matches and the policy takes passwords, or the approval provider approved a request
  -- of the history, without its password, and the policy asks it; and the second factor was not required, or the provider verified a code
  -- of the history. (`Asked` and `Coded` are any properties of what the history sends.)
  pub authorized-Earned :
      (starts : Bool) (draws : List ℕ) (c : HostAuthConfig W) (w : W) (a : HostAuth W)
      (cs : List Call)
      → new starts draws c w ≡ ok a
      → All (Sent Asked Coded) cs
      → (run crypto a cs).state ≡ authorized
      → Primary c a.hash × Second c
  authorized-Earned starts draws c w a cs e t s =
      let (kept, fresh) = new-await_login starts draws c w a e in
      let ms = run-Moves a cs t in
      let (same_config, same_hash) = Moves-Same ms in
      carried _ _ _ _ _ (same_config ∙ kept) same_hash s
        (Moves-EarnedBy ms (new-Kept starts draws c w a e) (rw fresh tt))
