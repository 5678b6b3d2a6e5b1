-- ===== src/Session/Arrivals.antt =====
-- crates/rd-engine/src/session.rs: the records that a session has still to read.
use rust_desk_enhanced.Prelude.{
  ℕ, ◌-◌, Bool, true, false, Option, none, some, List, [], ◌∷◌, ltb, All, if-both, ◌≡◌, refl,
}
use rust_desk_enhanced.Messages.{LoginRequest, Auth2fa, login_request, auth_2fa}
use rust_desk_enhanced.Handshake.{
  Message, any_other, Inbound, message, unparsable, io_failure, Fate, completes, breaks, hangs,
  Wire,
}
use rust_desk_enhanced.Session.{
  SessionIo, Incoming, got, ended, timed_out, failed, next_record, recv_from, recv_io, Sent, write,
  written_as, wrote_one, send_on, send_io, overhead,
}
use rust_desk_enhanced.Session.Host.{is_abandoned_error}

-- `Asked r`: the peer sent the login request `r`; `Coded c`: it sent the code `c`.
module _ (Asked : LoginRequest → Type 0) (Coded : Auth2fa → Type 0) where
  -- What a record that arrives may carry.
  unfoldable pub Claims : Message → Type 0
  Claims (any_other (login_request r)) = Asked r
  Claims (any_other (auth_2fa c)) = Coded c
  Claims m = Unit {0}

  unfoldable pub ClaimsIn : Inbound → Type 0
  ClaimsIn (message m) = Claims m
  ClaimsIn unparsable = Unit {0}
  ClaimsIn io_failure = Unit {0}

  unfoldable pub ClaimsNext : Option Message → Type 0
  ClaimsNext (some m) = Claims m
  ClaimsNext none = Unit {0}

  unfoldable pub ClaimsOn : Option Wire → Type 0
  ClaimsOn (some w) = All ClaimsIn w.inbound
  ClaimsOn none = Unit {0}

  abbrev pub Arrives : SessionIo → Type 0
  Arrives io = ClaimsNext io.prefetched × ClaimsOn io.wire

  -- A send leaves the records that are still to be read.
  unfoldable pub Unread : SessionIo → Sent → Type 0
  Unread before (r, io) = Arrives before → Arrives io

  written_as-Unread :
      (fates : List Fate) (w : Wire) (prefetched : Option Message) (m : Message)
      → Unread (record { wire = some w; prefetched = prefetched }) (written_as fates w prefetched m)
  unfolding written_as wrote_one Unread ClaimsOn
  written_as-Unread [] w prefetched m = λ k. k
  written_as-Unread (completes ∷ fates) w prefetched m = λ k. k
  written_as-Unread (breaks ∷ fates) w prefetched m = λ (k, _). (k, tt)
  written_as-Unread (hangs ∷ fates) w prefetched m = λ (k, _). (k, tt)

  send_on-Unread :
      (size : Message → ℕ) (wire : Option Wire) (prefetched : Option Message) (m : Message)
      → Unread (record { wire = wire; prefetched = prefetched }) (send_on size wire prefetched m)
  unfolding send_on write Unread ClaimsOn
  send_on-Unread size none prefetched m = λ k. k
  send_on-Unread size (some w) prefetched m =
      if-both (Unread (record { wire = some w; prefetched = prefetched }))
        (ltb (65536 - overhead w) (size m)) (λ _. λ k. k)
        (λ _. written_as-Unread w.fates w prefetched m)

  pub send_io-Unread :
      (size : Message → ℕ) (io : SessionIo) (m : Message) → Unread io (send_io size io m)
  unfolding send_io
  send_io-Unread size io m = send_on-Unread size io.wire io.prefetched m

  -- What was read, and what is still to be read.
  unfoldable pub Read : Incoming × SessionIo → Type 0
  Read (got m, io) = Claims m × Arrives io
  Read (ended, io) = Unit {0}
  Read (timed_out, io) = Unit {0}
  Read (failed e, io) = is_abandoned_error e ≡ false

  next_record-Read :
      (w : Wire) (inbound : List Inbound) → All ClaimsIn inbound → Read (next_record w inbound)
  unfolding next_record Read ClaimsIn ClaimsNext ClaimsOn
  next_record-Read w [] c = tt
  next_record-Read w (message m ∷ rest) (c, cs) = (c, (tt, cs))
  next_record-Read w (unparsable ∷ rest) c = refl
  next_record-Read w (io_failure ∷ rest) c = refl

  recv_from-Read :
      (late : Bool) (wire : Option Wire) (prefetched : Option Message)
      → ClaimsNext prefetched
      → ClaimsOn wire
      → Read (recv_from late wire prefetched)
  unfolding recv_from Read ClaimsNext ClaimsOn
  recv_from-Read late wire (some m) c cs = (c, (tt, cs))
  recv_from-Read late none none c cs = tt
  recv_from-Read true (some w) none c cs = tt
  recv_from-Read false (some w) none c cs = next_record-Read w w.inbound cs

  pub recv_io-Read :
      (deadline arrival : ℕ) (io : SessionIo) → Arrives io → Read (recv_io deadline arrival io)
  unfolding recv_io
  recv_io-Read deadline arrival io (c, cs) =
      recv_from-Read (ltb deadline arrival) io.wire io.prefetched c cs
