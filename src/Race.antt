-- ===== src/Race.antt =====
-- crates/waitprims-async/src/race.rs: the race of one future per arm. A future that is polled may
-- change the world; `poll_arm idx` is one poll of the future of the arm at `idx`.
pub mod Laws
use waitprims.Prelude.{
  ℕ, suc, ◌≡◌, Bool, true, false, not, ◌||◌, ◌≤◌, ◌<◌, ◌+◌, arith, All, length, ltb, ◌⊎◌, inl, inr,
  Bool-cases, refl, ap, Option, none, some, List, [], ◌∷◌, if◌then◌else◌,
}
use waitprims.Core.Error.{Error, Result, ok, err}

pub data Poll (A : Type 0) : Type 0 where
  ready : A → Poll A
  pending : Poll A

pub data Arm (T : Type 0) : Type 0 where
  pending : Arm T
  ready : Option T → Arm T
  failed : Arm T

pub record FirstReadyOutput (T : Type 0) : Type 0 where
  pub ready : List (ℕ × T)
  pub error : Option Error

-- What one pass over the arms finds.
pub record Pass (T : Type 0) : Type 0 where
  pub arms : List (Arm T)
  pub pending : Bool
  pub terminal : Bool
  pub error : Option Error

abbrev pub or_else : Option Error → Option Error → Option Error
or_else none later = later
or_else (some e) later = some e

-- How one arm stands after a look at it.
record Look (T : Type 0) : Type 0 where
  arm : Arm T
  pending : Bool
  terminal : Bool
  error : Option Error

-- The arms whose slot holds a value, each with its index; the slots are emptied.
-- FirstReady::take_ready
unfoldable pub take_ready : {T : Type 0} → ℕ → List (Arm T) → List (ℕ × T)
take_ready i [] = []
take_ready i (Arm.ready (some value) ∷ arms) = (i, value) ∷ take_ready (suc i) arms
take_ready i (_ ∷ arms) = take_ready (suc i) arms

emptied : {T : Type 0} → List (Arm T) → List (Arm T)
emptied [] = []
emptied (Arm.ready (some value) ∷ arms) = Arm.ready none ∷ emptied arms
emptied (arm ∷ arms) = arm ∷ emptied arms

module _ {W T : Type 0} (is_terminal : T → Bool) (poll_arm : ℕ → W → Poll (Result T) × W) where
  look : ℕ → Arm T → W → Look T × W
  look i Arm.pending w =
      let (polled, w') = poll_arm i w in
      (
        elim polled [
          | Poll.ready (ok value) ↦ record {
            arm = Arm.ready (some value);
            pending = false;
            terminal = is_terminal value;
            error = none;
          }
          | Poll.ready (err e) ↦ record {
            arm = Arm.failed;
            pending = false;
            terminal = false;
            error = some e;
          }
          | Poll.pending ↦ record {
            arm = Arm.pending;
            pending = true;
            terminal = false;
            error = none;
          }
        ],
        w',
      )
  look i (Arm.ready (some value)) w = (
    record {
      arm = Arm.ready (some value);
      pending = false;
      terminal = is_terminal value;
      error = none;
    },
    w,
  )
  look i arm w = (record { arm = arm; pending = false; terminal = false; error = none }, w)

  -- The first loop of FirstReady::poll. The first error is kept.
  first_pass : ℕ → List (Arm T) → W → Pass T × W
  first_pass i [] w = (record { arms = []; pending = false; terminal = false; error = none }, w)
  first_pass i (arm ∷ arms) w =
      let (here, w') = look i arm w in
      let (rest, w'') = first_pass (suc i) arms w' in
      (
        record {
          arms = here.arm ∷ rest.arms;
          pending = here.pending || rest.pending;
          terminal = here.terminal || rest.terminal;
          error = or_else here.error rest.error;
        },
        w'',
      )

  -- The second loop: every slot is taken, and each pending future is polled once more.
  harvest : ℕ → List (Arm T) → W → FirstReadyOutput T × W
  harvest i [] w = (record { ready = []; error = none }, w)
  harvest i (Arm.pending ∷ arms) w =
      let (polled, w') = poll_arm i w in
      let (rest, w'') = harvest (suc i) arms w' in
      (
        elim polled [
          | Poll.ready (ok value) ↦ record rest { ready = (i, value) ∷ rest.ready }
          | Poll.ready (err e) ↦ record rest { error = some e }
          | Poll.pending ↦ rest
        ],
        w'',
      )
  harvest i (Arm.ready (some value) ∷ arms) w =
      let (rest, w') = harvest (suc i) arms w in
      (record rest { ready = (i, value) ∷ rest.ready }, w')
  harvest i (_ ∷ arms) w = harvest (suc i) arms w

  abbrev is_some : {A : Type 0} → Option A → Bool
  is_some none = false
  is_some (some a) = true

  finished : Pass T → W → (Poll (FirstReadyOutput T) × List (Arm T)) × W
  finished p w =
      let (out, w') = harvest 0 p.arms w in
      ((Poll.ready (record out { error = or_else p.error out.error }), emptied p.arms), w')

  abbrev is_done : Pass T → Bool
  is_done p = is_some p.error || p.terminal || not p.pending

  -- FirstReady::poll: its answer, and the arms that stay.
  unfoldable pub poll : List (Arm T) → W → (Poll (FirstReadyOutput T) × List (Arm T)) × W
  unfolding first_pass look harvest finished emptied
  poll arms w =
      let (p, w') = first_pass 0 arms w in
      if is_done p then finished p w' else ((Poll.pending, p.arms), w')
