-- ===== src/Race/Laws.antt =====
-- What a race of crates/waitprims-async/src/race.rs holds when it is dropped.
use mathlib.Core.Path.{subst}
use waitprims.Prelude.{
  ℕ, suc, ◌≡◌, refl, Bool, true, false, none, some, List, [], ◌∷◌, All, if◌then◌else◌, arith,
}
use waitprims.Core.Error.{Result, ok, err}
use waitprims.Race.{
  Poll, Arm, FirstReadyOutput, Pass, Look, look, first_pass, finished, is_done, poll,
}

module _ {W T : Type 0} (is_terminal : T → Bool) (poll_arm : ℕ → W → Poll (Result T) × W) where
  -- A slot holds no terminal value.
  abbrev pub HoldsNone : Arm T → Type 0
  HoldsNone (Arm.ready (some value)) = is_terminal value ≡ false
  HoldsNone arm = Unit

  abbrev Marks : Look T → Type 0
  Marks l = l.terminal ≡ false → HoldsNone l.arm

  look-Marks : (i : ℕ) (arm : Arm T) (w : W) → Marks (look is_terminal poll_arm i arm w).0
  unfolding look
  look-Marks i Arm.pending w = go (poll_arm i w)
    where
      go :
          (r : Poll (Result T) × W)
          → Marks (
              let (polled, w') = r in
              elim polled [
                | Poll.ready (ok value) ↦ record {
                  arm = Arm.ready (some value);
                  pending = false;
                  terminal = is_terminal value;
                  error = none;
                }
                | Poll.ready (err e) ↦ record {
                  arm = Arm.failed;
                  pending = false;
                  terminal = false;
                  error = some e;
                }
                | Poll.pending ↦ record {
                  arm = Arm.pending;
                  pending = true;
                  terminal = false;
                  error = none;
                }
              ])
      go (Poll.ready (ok value), w') h = h
      go (Poll.ready (err e), w') h = tt
      go (Poll.pending, w') h = tt
  look-Marks i (Arm.ready (some value)) w = λ h. h
  look-Marks i (Arm.ready none) w = λ h. tt
  look-Marks i Arm.failed w = λ h. tt

  first_pass-HoldsNone :
      (i : ℕ) (arms : List (Arm T)) (w : W)
      → (first_pass is_terminal poll_arm i arms w).0.terminal ≡ false
      → All HoldsNone (first_pass is_terminal poll_arm i arms w).0.arms
  unfolding first_pass
  first_pass-HoldsNone i [] w h = tt
  first_pass-HoldsNone i (arm ∷ arms) w h =
      (look-Marks i arm w (ground arith), first_pass-HoldsNone (suc i) arms _ (ground arith))

  abbrev IsReady : Poll (FirstReadyOutput T) → Type 0
  IsReady Poll.pending = ⊥
  IsReady (Poll.ready out) = Unit

  abbrev Answer : Type 0
  Answer = (Poll (FirstReadyOutput T) × List (Arm T)) × W

  choose :
      (b : Bool) (done waits : Answer)
      → IsReady done.0.0
      → (b ≡ false → All HoldsNone waits.0.1)
      → (if b then done else waits).0.0 ≡ Poll.pending
      → All HoldsNone (if b then done else waits).0.1
  choose true done waits r k e = absurd (subst IsReady e r)
  choose false done waits r k e = k refl

  -- A race that goes on waiting holds no terminal value: a runner that drops it for another arm
  -- of its `select!` loses nothing that could have been replayed.
  pub poll-HoldsNone :
      (arms : List (Arm T)) (w : W)
      → (poll is_terminal poll_arm arms w).0.0 ≡ Poll.pending
      → All HoldsNone (poll is_terminal poll_arm arms w).0.1
  unfolding poll finished
  poll-HoldsNone arms w =
      go (first_pass is_terminal poll_arm 0 arms w) (first_pass-HoldsNone 0 arms w)
    where
      go :
          (r : Pass T × W)
          → (r.0.terminal ≡ false → All HoldsNone r.0.arms)
          → (let (p, w') = r in
              if is_done is_terminal poll_arm p
              then finished is_terminal poll_arm p w'
              else ((Poll.pending, p.arms), w')).0.0
            ≡ Poll.pending
          → All HoldsNone
              (let (p, w') = r in
                if is_done is_terminal poll_arm p
                then finished is_terminal poll_arm p w'
                else ((Poll.pending, p.arms), w')).0.1
      go (p, w') h =
          choose (is_done is_terminal poll_arm p) (finished is_terminal poll_arm p w')
            ((Poll.pending, p.arms), w') tt (λ d. h (ground arith))
