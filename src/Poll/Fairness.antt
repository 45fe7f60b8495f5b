-- ===== src/Poll/Fairness.antt =====
-- crates/waitprims-async/src/poll_cycle.rs: arm ids and the rotation of `fairness_cursor`.
pub mod Rotation
pub mod Start
use waitprims.Prelude.{
  ℕ, suc, ◌+◌, ◌%◌, Bool, ◌||◌, String, Option, none, some, List, [], ◌∷◌, map, join, ◌==◌,
  string_eq, ℕ_eq, if◌then◌else◌, length, get_elem?, range_from,
}
use Prim.Native.String.{len, slice}
use text.Mathlib.Text.{starts_with}
use waitprims.Core.Refs.{IdToken}
use waitprims.Core.Types.{Registration}
use waitprims.Core.Messages.{RegistrationSet, PollCycleRequest}

-- strip_prefix("reg:").unwrap_or(…)
abbrev pub without_reg : String → String
without_reg id = if starts_with id "reg:" then slice id 4 (len id) else id

unfoldable pub derived_arm_id : Registration → IdToken
derived_arm_id registration = join "arm:" (without_reg registration.registration_id)

abbrev pub or_derived : Option IdToken → Registration → IdToken
or_derived none registration = derived_arm_id registration
or_derived (some id) registration = id

-- arm_id_for: the id, and the count of required registrations seen.
unfoldable pub arm_id_for : PollCycleRequest → Registration → ℕ → IdToken × ℕ
arm_id_for request registration required_index =
    if registration.required
    then (
      or_derived (get_elem? request.required_arms required_index) registration,
      suc required_index,
    )
    else (derived_arm_id registration, required_index)

abbrev pub names : String → IdToken → IdToken → Bool
names cursor arm_id registration_id =
    cursor == arm_id
    || cursor == join "fair:" arm_id
    || cursor == registration_id
    || cursor == join "fair:" registration_id

-- The loop of fairness_start_index, at `idx`.
unfoldable pub cursor_index : PollCycleRequest → ℕ → ℕ → List Registration → ℕ
cursor_index request required_index idx [] = 0
cursor_index request required_index idx (registration ∷ rest) =
    let (arm_id, seen) = arm_id_for request registration required_index in
    let later = cursor_index request seen (suc idx) rest in
    if names request.fairness_cursor arm_id registration.registration_id then idx else later

unfoldable pub fairness_start_index : RegistrationSet → PollCycleRequest → ℕ
unfolding cursor_index
fairness_start_index set request =
    if request.fairness_cursor == "fair:start"
    then 0
    else cursor_index request 0 0 set.registrations

unfoldable pub fairness_order : RegistrationSet → PollCycleRequest → List ℕ
fairness_order set request =
    let n = length set.registrations in
    if n == 0 then [] else map (λ i. (fairness_start_index set request + i) % n) (range_from 0 n)

-- The loop of next_fairness_cursor: the arm id at `next`.
unfoldable pub arm_id_at : PollCycleRequest → ℕ → ℕ → ℕ → List Registration → Option IdToken
arm_id_at request required_index next idx [] = none
arm_id_at request required_index next idx (registration ∷ rest) =
    let (arm_id, seen) = arm_id_for request registration required_index in
    let later = arm_id_at request seen next (suc idx) rest in
    if idx == next then some arm_id else later

-- An index into a list that is not empty: the last case cannot arise (`next` is below the length).
abbrev derived_at : Option Registration → IdToken
derived_at none = ""
derived_at (some registration) = derived_arm_id registration

abbrev chosen_or : Option IdToken → Option Registration → IdToken
chosen_or (some arm_id) fallback = arm_id
chosen_or none fallback = derived_at fallback

abbrev pub with_fair : IdToken → IdToken
with_fair arm_id = if starts_with arm_id "fair:" then arm_id else join "fair:" arm_id

unfoldable pub next_fairness_cursor : RegistrationSet → PollCycleRequest → IdToken
unfolding arm_id_at
next_fairness_cursor set request =
    let n = length set.registrations in
    let next = (fairness_start_index set request + 1) % n in
    if n == 0
    then request.fairness_cursor
    else with_fair (
        chosen_or (arm_id_at request 0 next 0 set.registrations) (get_elem? set.registrations next))
