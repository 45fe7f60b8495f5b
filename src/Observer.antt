-- ===== src/Observer.antt =====
-- crates/waitprims-async/src/observer.rs, clock.rs and cancel.rs: what a runner is given. The
-- implementers of `Observer`, `BindHandle` and `Clock`, the cancel token's writer and the executor
-- are outside the program, so they are one record of effects over a state `W` of theirs.
pub mod Hoare
pub mod Both
use waitprims.Prelude.{ℕ, ◌≡◌, Bool, true, false, Option, none, some, List, [], ◌∷◌, refl}
use waitprims.Core.Refs.{IdToken}
use waitprims.Core.Error.{Error, Result, ok, err}
use waitprims.Core.Time.{Timestamp}
use waitprims.Core.Types.{Anchor, Registration, WaitEvent}

pub data Observation : Type 0 where
  event : WaitEvent → Observation
  idle overflow : Observation
  failed outage cursor_uncertain degraded : IdToken → Observation

-- A runner's effects: what it does to the world, and then a result.
abbrev pub Exec : Type 0 → Type 0 → Type 0
Exec W A = W → Result A × W

abbrev pub continue : {W A B : Type 0} → (A → Exec W B) → Result A → Exec W B
continue f (ok a) w = f a w
continue f (err e) w = (err e, w)

-- The `?` operator.
infixl 5 ◌>>=◌ ◌>>◌
unfoldable pub ◌>>=◌ : {W A B : Type 0} → Exec W A → (A → Exec W B) → Exec W B
◌>>=◌ m f w = let (r, w') = m w in continue f r w'

abbrev pub ◌>>◌ : {W A B : Type 0} → Exec W A → Exec W B → Exec W B
m >> k = m >>= λ _. k

abbrev pub pure : {W A : Type 0} → A → Exec W A
pure a w = (ok a, w)

abbrev pub raise : {W A : Type 0} → Error → Exec W A
raise e w = (err e, w)

abbrev pub lift : {W A : Type 0} → Result A → Exec W A
lift r w = (r, w)

-- A call that cannot fail.
abbrev pub call : {W A : Type 0} → (W → A × W) → Exec W A
call f w = (ok (f w).0, (f w).1)

-- BindHandle
pub record BindHandle (Bind : Type 0) : Type 0 where
  pub registration_id : Bind → IdToken
  pub resolved_start : Bind → Anchor

-- Observer::poll_ready and restore_ready, Clock::now, Cancel::is_cancelled.
pub record Observer (W Bind : Type 0) : Type 0 where
  pub handle : BindHandle Bind
  pub open handle use *
  pub poll_ready : Bind → W → Option Observation × W
  pub restore_ready : Bind → Observation → Exec W (Unit {0})
  pub now : W → Timestamp × W
  pub is_cancelled : W → Bool × W

-- observation_is_terminal and observation_is_replayable of race.rs.
abbrev pub is_terminal : Observation → Bool
is_terminal Observation.idle = false
is_terminal _ = true

abbrev pub is_replayable : Observation → Bool
is_replayable (Observation.event _) = true
is_replayable _ = false
