-- ===== src/Follow/Runner/Gate.antt =====
-- crates/waitprims-async/src/follow.rs: what a turn asks before it gives a burst to the sink.
use waitprims.Prelude.{
  ◌≡◌, ◌≢◌, ◌<◌, refl, ap, ◌∙◌, false, true, Bool, ◌&&◌, ◌||◌, [], ◌∷◌, All, any, arith, String,
  if◌then◌else◌, Option, none, some, List, ◌⊎◌, inl, inr, Bool-cases,
}
use waitprims.Core.Error.{Error, Result, ok, err}
use waitprims.Core.Time.{Timestamp}
use waitprims.Core.Types.{AuthnMode, Registration, WaitEvent, is_required}
use waitprims.Core.Messages.{RegistrationSet, LiveWaitRequest}
use waitprims.Observer.{◌>>=◌, pure}
use waitprims.Observer.Both.{Both, Run, run_pure, run_raise, run_bind}
use waitprims.Follow.{FollowEnd, posture_err, lease_over}
use waitprims.Live.Decide.{is_missing}
use waitprims.Follow
use waitprims.Follow.Slots.{
  Runtime, SlotSet, restore_each, replayable_in, drain_replayable, restore_harvested,
}
use waitprims.Follow.Slots.Custody.{Books, Account}
use waitprims.Follow.Slots.Custody.Restores.{restore_each-sunk}
use waitprims.Follow.Runner.{
  outside, finish_cancel, finish_err, unless_cancelled, unless_faulted, decide_turn,
}

module _ {W Bind : Type 0} (rt : Runtime W Bind) (books : Books rt) (es : List WaitEvent) where
  abbrev Sunk : SlotSet Bind × W → Type 0
  Sunk v = (books.account v.1).sunk ≡ es

  restore_harvested-Sunk :
      (v : SlotSet Bind × W) → Sunk v → Both Sunk (λ u. Sunk) (restore_harvested rt v)
  unfolding restore_harvested
  restore_harvested-Sunk v h = go (restore_each rt (drain_replayable v.0).0 v.1).0
    where
      h' : (books.account (restore_each rt (drain_replayable v.0).0 v.1).1).sunk ≡ es
      h' = restore_each-sunk rt books (drain_replayable v.0).0 v.1 ∙ h

      go :
          (e : Option Error)
          → Both Sunk
              (λ u. Sunk)
              (
                waitprims.Follow.Slots.to_result e,
                ((drain_replayable v.0).1, (restore_each rt (drain_replayable v.0).0 v.1).1),
              )
      go none = h'
      go (some e) = h'

  run_finish_err : {A : Type 0} (e : Error) → Run Sunk Sunk (finish_err rt e) (λ (a : A). Sunk)
  unfolding finish_err
  run_finish_err e =
      run_bind (λ u. Sunk) (record { at = restore_harvested-Sunk }) λ u. run_raise _ e (λ v h. h)

  run_cancelled :
      Run Sunk Sunk (finish_cancel rt >>= λ end. pure (some end)) (λ (end : Option FollowEnd). Sunk)
  unfolding finish_cancel
  run_cancelled =
      run_bind (λ end. Sunk)
        (run_bind (λ u. Sunk) (record { at = restore_harvested-Sunk })
          λ u. run_pure _ Follow.cancel (λ v h. h))
        λ end. run_pure _ (some end) (λ v h. h)

  either_way : {A : Type 0} (r : Result A × (SlotSet Bind × W)) → Both Sunk (λ a. Sunk) r → Sunk r.1
  either_way (ok a, v) h = h
  either_way (err e, v) h = h

  module _ (set : RegistrationSet) (request : LiveWaitRequest) (now : Timestamp) where
    -- The token is asked in the world that the turn starts in.
    gate_token :
        (v : SlotSet Bind × W)
        → Sunk v
        → Sunk (unless_cancelled rt set request now v).1 ⊎ ((rt.is_cancelled v.1).0 ≡ false)
    unfolding unless_cancelled ◌>>=◌
    gate_token v h = elim (Bool-cases (rt.is_cancelled v.1).0) [
      | inr c ↦ inr c
      | inl c ↦ inl (
          rw c (
            either_way ((finish_cancel rt >>= λ end. pure (some end)) (outside rt.is_cancelled v).1)
              (run_cancelled.at (outside rt.is_cancelled v).1
                (ap (λ (a : Account). a.sunk) (books.token_account v.1) ∙ h))))
    ]

    gate_fault :
        (v : SlotSet Bind × W) (o : Option Error)
        → v.0.fault ≡ o
        → Sunk v
        → Sunk (unless_faulted rt set request now v).1
          ⊎ ((v.0.fault ≡ none) × ((rt.is_cancelled v.1).0 ≡ false))
    unfolding unless_faulted ◌>>=◌
    gate_fault v (some e) f h = inl (
        rw f (
          either_way (finish_err rt e (record v.0 { fault = none }, v.1))
            ((run_finish_err e).at (record v.0 { fault = none }, v.1) h)))
    gate_fault v none f h = elim (gate_token (record v.0 { fault = none }, v.1) h) [
      | inl g ↦ inl (rw f g)
      | inr c ↦ inr (f, c)
    ]

    gate_posture :
        (v : SlotSet Bind × W) (o : Option Error)
        → posture_err set request now ≡ o
        → Sunk v
        → Sunk (decide_turn rt set request now v).1
          ⊎ ((posture_err set request now ≡ none)
              × ((v.0.fault ≡ none) × ((rt.is_cancelled v.1).0 ≡ false)))
    unfolding decide_turn
    gate_posture v (some e) p h =
        inl (rw p (either_way (finish_err rt e v) ((run_finish_err e).at v h)))
    gate_posture v none p h = elim (gate_fault v v.0.fault refl h) [
      | inl g ↦ inl (rw p g)
      | inr c ↦ inr (p, c)
    ]

-- No lease is over, and the receipt is there where the set asks for one.
abbrev pub IsOpen : RegistrationSet → LiveWaitRequest → Timestamp → Type 0
IsOpen set request now =
    All (λ (r : Registration). now.instant < r.lease_expires_at.instant) set.registrations
    × ((set.authn_mode ≢ AuthnMode.required)
        ⊎ ((receipt : String) × (request.verification_receipt_ref ≡ some receipt)))

alive :
    (now : Timestamp) (regs : List Registration)
    → any (lease_over now) regs ≡ false
    → All (λ (r : Registration). now.instant < r.lease_expires_at.instant) regs
alive now [] h = tt
alive now (r ∷ rs) h = go (lease_over now r) refl (alive now rs) h
  where
    go :
        (b : Bool)
        → lease_over now r ≡ b
        → (any (lease_over now) rs ≡ false
            → All (λ (r : Registration). now.instant < r.lease_expires_at.instant) rs)
        → (b || any (lease_over now) rs) ≡ false
        → (now.instant < r.lease_expires_at.instant)
          × All (λ (r : Registration). now.instant < r.lease_expires_at.instant) rs
    go true e rest h = cc
    go false e rest h = (ground (arith, e), rest h)

receipt_there :
    (mode : AuthnMode) (receipt : Option String)
    → (is_required mode && is_missing receipt) ≡ false
    → (mode ≢ AuthnMode.required) ⊎ ((r : String) × (receipt ≡ some r))
receipt_there mode (some r) h = inr (r, refl)
receipt_there AuthnMode.required none h = cc
receipt_there AuthnMode.optional none h = inl (λ e. cc)
receipt_there AuthnMode.disabled none h = inl (λ e. cc)

posture_err-IsOpen :
    (set : RegistrationSet) (request : LiveWaitRequest) (now : Timestamp)
    → posture_err set request now ≡ none
    → IsOpen set request now
unfolding posture_err
posture_err-IsOpen set request now =
    go _ _ (any (lease_over now) set.registrations)
      (is_required set.authn_mode && is_missing request.verification_receipt_ref)
      (alive now set.registrations) (receipt_there set.authn_mode request.verification_receipt_ref)
  where
    go :
        (x y : Error) {L R : Type 0} (a b : Bool)
        → (a ≡ false → L)
        → (b ≡ false → R)
        → (if a then some x else if b then some y else none) ≡ none
        → L × R
    go x y true b l r h = cc
    go x y false true l r h = cc
    go x y false false l r h = (l refl, r refl)

-- A turn gives nothing to the sink, unless it is before the end of every lease of the set and the
-- authentication receipt is there if the set requires it, no observer future failed, and the token
-- does not say that the consumer cancelled.
pub decide_turn-Gate :
    {W Bind : Type 0} (rt : Runtime W Bind) (books : Books rt) (set : RegistrationSet)
    (request : LiveWaitRequest) (now : Timestamp) (v : SlotSet Bind × W)
    → ((books.account (decide_turn rt set request now v).1.1).sunk ≡ (books.account v.1).sunk)
      ⊎ (IsOpen set request now × ((v.0.fault ≡ none) × ((rt.is_cancelled v.1).0 ≡ false)))
decide_turn-Gate rt books set request now v =
    elim (gate_posture rt books (books.account v.1).sunk set request now v
      (posture_err set request now) refl refl) [
        | inl g ↦ inl g
        | inr c ↦ inr (posture_err-IsOpen set request now c.0, c.1)
      ]
