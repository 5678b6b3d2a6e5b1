-- ===== src/Vnc/Negotiation.antt =====
-- crates/rd-engine/src/vnc/mod.rs: which security a client ends with.
use rust_desk_enhanced.Prelude.{
  ℕ, zero, suc, ◌%◌, Bool, true, false, not, Option, none, some, List, [], ◌∷◌, map, get_or,
  is_some, ltb, ◌==◌, if◌then◌else◌, Result, ok, err, and_then_ok, ◌≡◌, refl, sym, ap, ◌++◌,
  append-nil, append_assoc, ◌∙◌, arith, if-both, OnOk, OnOk-and_then_ok, OnOk-map_ok, OnOk-any,
  OnOk-implies,
}
use mathlib.Core.Path.{subst}
use rust_desk_enhanced.Vnc.{
  VncError, SecurityType, no_authentication, vnc_authentication, security_type, security_code,
  is_supported,
}
use rust_desk_enhanced.Vnc.Bytes.{read_exact}
use rust_desk_enhanced.Vnc.Des.{answer_challenge}
use rust_desk_enhanced.Vnc.Session.{
  VncSession, read, write, write_to, number_of, read_reason, rejected, on_result,
  read_security_result, or_empty, vnc_authenticate, is_vnc, is_none, find_type, accept_choice,
  perform, choose, on_count, negotiate_security,
}

-- A session that was reached with the same information about its server.
abbrev pub SameInfo : VncSession → VncSession → Type 0
SameInfo s s' = s'.info ≡ s.info

abbrev pub SameRest : {A : Type 0} → VncSession → A × VncSession → Type 0
SameRest s (a, s') = s'.info ≡ s.info

pub read-SameRest : (n : ℕ) (s : VncSession) → OnOk (SameRest s) (read n s)
unfolding read
read-SameRest n s =
    OnOk-map_ok (λ _. Unit {0}) (SameRest s) (read_exact n s.incoming) _
      (OnOk-any (read_exact n s.incoming)) (λ (bytes, rest) _. refl)

write_to-SameInfo :
    (n : ℕ) (bytes : List ℕ) (s : VncSession) → OnOk (SameInfo s) (write_to n bytes s)
unfolding write_to OnOk
write_to-SameInfo zero bytes s = tt
write_to-SameInfo (suc n) bytes s = refl

pub write-SameInfo : (bytes : List ℕ) (s : VncSession) → OnOk (SameInfo s) (write bytes s)
unfolding write
write-SameInfo bytes s = write_to-SameInfo s.writes bytes s

-- A session that was reached with the same information, and has written only more.
abbrev pub Follows : VncSession → VncSession → Type 0
Follows s s' = (s'.info ≡ s.info) × ((more : List ℕ) × (s'.outgoing ≡ s.outgoing ++ more))

-- A read writes nothing.
abbrev pub HasRead : {A : Type 0} → VncSession → A × VncSession → Type 0
HasRead s (a, s') = (s'.info ≡ s.info) × (s'.outgoing ≡ s.outgoing)

pub read-HasRead : (n : ℕ) (s : VncSession) → OnOk (HasRead s) (read n s)
unfolding read
read-HasRead n s =
    OnOk-map_ok (λ _. Unit {0}) (HasRead s) (read_exact n s.incoming) _
      (OnOk-any (read_exact n s.incoming)) (λ (bytes, rest) _. (refl, refl))

-- A write writes its bytes.
abbrev pub Wrote : List ℕ → VncSession → VncSession → Type 0
Wrote bytes s s' = (s'.info ≡ s.info) × (s'.outgoing ≡ s.outgoing ++ bytes)

write_to-Wrote :
    (n : ℕ) (bytes : List ℕ) (s : VncSession) → OnOk (Wrote bytes s) (write_to n bytes s)
unfolding write_to OnOk
write_to-Wrote zero bytes s = tt
write_to-Wrote (suc n) bytes s = (refl, refl)

pub write-Wrote : (bytes : List ℕ) (s : VncSession) → OnOk (Wrote bytes s) (write bytes s)
unfolding write
write-Wrote bytes s = write_to-Wrote s.writes bytes s

-- After a read, after a write of these bytes.
pub Follows-read :
    {A : Type 0} (s s' t : VncSession) (a : A) → HasRead s (a, s') → Follows s' t → Follows s t
Follows-read s s' t a (e, f) (g, (more, h)) = (g ∙ e, (more, h ∙ ap (λ x. x ++ more) f))

-- What was written after other bytes.
pub written_after :
    (s s' t : List ℕ) (bytes more : List ℕ)
    → s' ≡ s ++ bytes
    → t ≡ s' ++ more
    → t ≡ s ++ (bytes ++ more)
written_after s s' t bytes more e f = f ∙ ap (λ x. x ++ more) e ∙ append_assoc s bytes more

Follows-write :
    (bytes : List ℕ) (s s' t : VncSession) → Wrote bytes s s' → Follows s' t → Follows s t
Follows-write bytes s s' t (e, f) (g, (more, h)) =
    (g ∙ e, (bytes ++ more, written_after s.outgoing s'.outgoing t.outgoing bytes more f h))

rejected-OnOk :
    {A : Type 0} (P : A → Type 0) (r : Result VncError (List ℕ × VncSession)) → OnOk P (rejected r)
unfolding rejected OnOk
rejected-OnOk P (ok reason) = tt
rejected-OnOk P (err e) = tt

on_result-Follows : (code : ℕ) (s : VncSession) → OnOk (Follows s) (on_result code s)
unfolding on_result OnOk
on_result-Follows code s =
    let value = if code == 16777216 then 1 else code in
    if-both (OnOk (Follows s)) (value == 0) (λ _. (refl, ([], sym (append-nil s.outgoing))))
      (λ _.
        if-both (OnOk (Follows s)) (value == 1) (λ _. tt)
          (λ _.
            if-both (OnOk (Follows s)) (value == 2) (λ _. rejected-OnOk (Follows s) (read_reason s))
              (λ _. tt)))

-- A step that follows, after a read.
then_Follows :
    {A : Type 0} (s : VncSession) (r : Result VncError (A × VncSession))
    (f : A × VncSession → Result VncError VncSession)
    → OnOk (HasRead s) r
    → ((a : A) (s' : VncSession) → OnOk (Follows s') (f (a, s')))
    → OnOk (Follows s) (and_then_ok r f)
then_Follows s r f p q = OnOk-and_then_ok (HasRead s) (Follows s) r f p (λ (a, s') e.
    OnOk-implies (Follows s') (Follows s) (f (a, s')) (q a s') (λ t k. Follows-read s s' t a e k))

read_security_result-Follows : (s : VncSession) → OnOk (Follows s) (read_security_result s)
unfolding read_security_result
read_security_result-Follows s =
    then_Follows s (read 4 s) _ (read-HasRead 4 s)
      (λ code s'. on_result-Follows (number_of code) s')

vnc_authenticate-Follows :
    (password : Option (List ℕ)) (s : VncSession) → OnOk (Follows s) (vnc_authenticate password s)
unfolding vnc_authenticate
vnc_authenticate-Follows password s =
    then_Follows s (read 16 s) _ (read-HasRead 16 s) (λ challenge s'.
      let response = answer_challenge (or_empty password) challenge in
      OnOk-and_then_ok (Wrote response s') (Follows s') (write response s') _
        (write-Wrote response s')
        (λ t e.
          OnOk-implies (Follows t) (Follows s') (read_security_result t)
            (read_security_result-Follows t) (λ u k. Follows-write response s' t u e k)))

-- What a client with a password asks for, and one without.
abbrev pub wanted : Option (List ℕ) → SecurityType
wanted none = no_authentication
wanted (some password) = vnc_authentication

abbrev is_wanted : Option (List ℕ) → SecurityType → Bool
is_wanted password = if is_some password then is_vnc else is_none

is_wanted-wanted :
    (password : Option (List ℕ)) (t : SecurityType)
    → is_wanted password t ≡ true
    → t ≡ wanted password
is_wanted-wanted none t e = ground (arith, e)
is_wanted-wanted (some p) t e = ground (arith, e)

passes :
    (b : Bool) (test : SecurityType → Bool) (u : SecurityType) (later : Option SecurityType)
    (t : SecurityType)
    → test u ≡ b
    → (later ≡ some t → test t ≡ true)
    → (if b then some u else later) ≡ some t
    → test t ≡ true
passes true test u later t h k e = subst (λ o. test (elim o [ some x ↦ x | none ↦ u ]) ≡ true) e h
passes false test u later t h k e = k e

-- The first type that passes the test passes it.
find_type-passes :
    (test : SecurityType → Bool) (types : List SecurityType) (t : SecurityType)
    → find_type test types ≡ some t
    → test t ≡ true
unfolding find_type
find_type-passes test [] t e = absurd (ground (arith, e))
find_type-passes test (u ∷ types) t e =
    passes (test u) test u (find_type test types) t refl (find_type-passes test types t) e

-- The code of the type that a client asks for: 2 for VNC authentication, 1 for none.
abbrev pub wanted_code : Option (List ℕ) → ℕ
wanted_code none = 1
wanted_code (some password) = 2

security_code-wanted :
    (password : Option (List ℕ)) (t : SecurityType)
    → t ≡ wanted password
    → security_code t ≡ wanted_code password
unfolding security_code
security_code-wanted none t e = ap security_code e
security_code-wanted (some p) t e = ap security_code e

-- The first byte that was written is the code of the type that the client wanted.
abbrev pub Asked : Option (List ℕ) → VncSession → VncSession → Type 0
Asked password s s' = (more : List ℕ) × (s'.outgoing ≡ s.outgoing ++ (wanted_code password ∷ more))

-- The client ends with the type that it wanted, and has asked for it.
Chosen : Option (List ℕ) → VncSession → SecurityType × VncSession → Type 0
Chosen password s (t, s') = (t ≡ wanted password) × (s'.info ≡ s.info) × Asked password s s'

perform-Chosen :
    (password : Option (List ℕ)) (types : List SecurityType) (chosen : Option SecurityType)
    (s : VncSession)
    → find_type (is_wanted password) types ≡ chosen
    → OnOk (Chosen password s) (perform password types chosen s)
unfolding perform OnOk Chosen
perform-Chosen password types none s e = tt
perform-Chosen password types (some chosen) s e =
    let is : chosen ≡ wanted password =
      is_wanted-wanted password chosen (find_type-passes (is_wanted password) types chosen e) in
    OnOk-and_then_ok (Wrote (security_code chosen ∷ []) s) (Chosen password s)
      (write (security_code chosen ∷ []) s) _ (write-Wrote (security_code chosen ∷ []) s)
      (λ s' (k, w).
        OnOk-map_ok (Follows s') (Chosen password s)
          (if is_vnc chosen then vnc_authenticate password s' else read_security_result s') _
          (if-both (OnOk (Follows s')) (is_vnc chosen) (λ _. vnc_authenticate-Follows password s')
            (λ _. read_security_result-Follows s'))
          (λ t (l, (more, x)). (
            is,
            l ∙ k,
            (
              more,
              written_after s.outgoing s'.outgoing t.outgoing (security_code chosen ∷ []) more w x
                  ∙ ap (λ c. s.outgoing ++ (c ∷ more)) (security_code-wanted password chosen is),
            ),
          )))

Chosen-read :
    {A : Type 0} (password : Option (List ℕ)) (s s' : VncSession) (a : A)
    (r : SecurityType × VncSession)
    → HasRead s (a, s')
    → Chosen password s' r
    → Chosen password s r
unfolding Chosen
Chosen-read password s s' a (t, u) (e, f) (c, l, (more, x)) =
    (c, l ∙ e, (more, x ∙ ap (λ o. o ++ (wanted_code password ∷ more)) f))

on_count-Chosen :
    (password : Option (List ℕ)) (count : ℕ) (s : VncSession)
    → OnOk (Chosen password s) (on_count password count s)
unfolding on_count choose
on_count-Chosen password count s =
    if-both (OnOk (Chosen password s)) (count == 0)
      (λ _. rejected-OnOk (Chosen password s) (read_reason s))
      (λ _.
        OnOk-and_then_ok (HasRead s) (Chosen password s) (read count s) _ (read-HasRead count s)
          (λ (offered, s') k.
            OnOk-implies (Chosen password s') (Chosen password s) (choose password offered s')
              (perform-Chosen password (map security_type offered)
                (find_type (is_wanted password) (map security_type offered)) s' refl)
              (λ r c. Chosen-read password s s' offered r k c)))

-- 3.3: the server chooses, and nothing else is known.
Kept : VncSession → SecurityType × VncSession → Type 0
Kept s (t, s') = s'.info ≡ s.info

accept_choice-Kept :
    (password : Option (List ℕ)) (code : ℕ) (s : VncSession)
    → OnOk (Kept s) (accept_choice password code s)
unfolding accept_choice OnOk Kept
accept_choice-Kept password code s =
    if-both (OnOk (Kept s)) (not (code == security_code (security_type (code % 256)))) (λ _. tt)
      (λ _.
        if-both (OnOk (Kept s)) (not (is_supported (security_type (code % 256)))) (λ _. tt)
          (λ _.
            if-both (OnOk (Kept s)) (is_vnc (security_type (code % 256)))
              (λ _.
                OnOk-map_ok (Follows s) (Kept s) (vnc_authenticate password s) _
                  (vnc_authenticate-Follows password s) (λ t (l, _). l))
              (λ _. refl)))

-- From 3.7 on the client ends with what it wanted, and has asked for it.
unfoldable pub Negotiated : ℕ → Option (List ℕ) → VncSession → SecurityType × VncSession → Type 0
Negotiated minor password s (t, s') =
    (ltb minor 7 ≡ false → (t ≡ wanted password) × Asked password s s') × (s'.info ≡ s.info)

pub negotiate_security-Negotiated :
    (minor : ℕ) (password : Option (List ℕ)) (s : VncSession)
    → OnOk (Negotiated minor password s) (negotiate_security minor password s)
unfolding negotiate_security Negotiated Kept Chosen
negotiate_security-Negotiated minor password s =
    if-both (OnOk (Negotiated minor password s)) (ltb minor 7)
      (λ old.
        OnOk-and_then_ok (HasRead s) (Negotiated minor password s) (read 4 s) _ (read-HasRead 4 s)
          (λ (code, s') (k, _).
            OnOk-implies (Kept s') (Negotiated minor password s)
              (accept_choice password (number_of code) s')
              (accept_choice-Kept password (number_of code) s')
              (λ (t, u) l. (λ e. absurd (ground (arith, old, e)), l ∙ k))))
      (λ new.
        OnOk-and_then_ok (HasRead s) (Negotiated minor password s) (read 1 s) _ (read-HasRead 1 s)
          (λ (count, s') k.
            OnOk-implies (Chosen password s') (Negotiated minor password s)
              (on_count password (get_or count 0 0) s')
              (on_count-Chosen password (get_or count 0 0) s')
              (λ r c.
                let (is, l, asked) = Chosen-read password s s' count r k c in
                (λ e. (is, asked), l))))
