-- ===== src/Live/Runner/LostWinner.antt =====
-- crates/waitprims-async/src/first_match.rs: `decide_and_restore` and `finish` read the clock apart.
use waitprims.Prelude.{◌≡◌, true, false, ◌&&◌, none, [], ◌∷◌, any}
use waitprims.Core.Error.{ok}
use waitprims.Core.Types.{WaitEvent, is_required}
use waitprims.Core.Messages.{RegistrationSet, LiveWaitRequest}
use waitprims.Observer.{Observation, ◌>>=◌}
use waitprims.Live.Outcome.{reauthentication_required, events, base}
use waitprims.Live.Decide.{
  decide, tally, min_by_idx, posture_reject, finish, is_expired, is_missing,
}
use waitprims.Live.Runner.{
  Runtime, collected, return, Loop, extend_ready, decide_and_restore, settle, restore_losers,
  event_winner_idx, give, on_bound,
}

module _ {W Bind : Type 0} (rt : Runtime W Bind) (set : RegistrationSet)
    (request : LiveWaitRequest) where
  -- Where one arm is bound and its event wins, the receipt rule holds, and no lease has expired at
  -- the first clock reading of the turn but one has at the second, the turn returns
  -- `reauthentication_required` and does nothing to the world but read the clock twice: the event
  -- is in no outcome and goes back to no observer.
  pub winner_lost :
      (bind : Bind) (st : Loop Bind) (e : WaitEvent) (w : W)
      → any (is_expired (rt.now w).0) set.registrations ≡ false
      → (is_required set.authn_mode && is_missing request.verification_receipt_ref) ≡ false
      → any (is_expired (rt.now (rt.now w).1).0) set.registrations ≡ true
      → on_bound rt set request
          (bind ∷ [])
          st
          (collected (record { ready = (0, Observation.event e) ∷ []; error = none }))
          w
        ≡ (
          ok (return (reauthentication_required request (rt.now (rt.now w).1).0 "lease_expired")),
          (rt.now (rt.now w).1).1,
        )
  unfolding on_bound extend_ready decide_and_restore decide tally min_by_idx settle restore_losers
      event_winner_idx give finish posture_reject events base ◌>>=◌
  winner_lost bind st e w alive posture expired = rw (alive, posture, expired)
