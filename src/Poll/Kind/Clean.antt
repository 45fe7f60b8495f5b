-- ===== src/Poll/Kind/Clean.antt =====
-- What the kind of a poll outcome says of the arms: `decide_kind` of
-- crates/waitprims-async/src/poll_cycle.rs.
use waitprims.Prelude.{◌≡◌, refl, Bool, true, false, String, Option, none, some, List, [], ◌∷◌}
use waitprims.Core.Types.{OutcomeKind, WaitEvent}
use waitprims.Poll.Assemble.{is_empty}
use waitprims.Poll.Kind.{Findings, kind_of}

abbrev pub is_clean : OutcomeKind → Bool
is_clean OutcomeKind.events = true
is_clean OutcomeKind.no_change = true
is_clean OutcomeKind.logical_deadman = true
is_clean _ = false

-- Nothing stands against a clean kind.
pub record IsClear (f : Findings) : Type 0 where
  pub no_overflow : f.overflow ≡ false
  pub no_failure : f.failed ≡ none
  pub not_dirty : f.dirty ≡ false
  pub not_truncated : f.truncated ≡ false

-- What each clean kind promises of the events and the time.
abbrev pub Promises : Bool → Findings → OutcomeKind → Type 0
Promises at_logical f OutcomeKind.events =
    (is_empty f.events ≡ false) × (f.deferred_required ≡ false)
Promises at_logical f OutcomeKind.no_change =
    (is_empty f.events ≡ true) × (f.deferred_required ≡ false) × (at_logical ≡ false)
Promises at_logical f OutcomeKind.logical_deadman = (is_empty f.events ≡ true) × (at_logical ≡ true)
Promises at_logical f kind = Unit

abbrev found : List WaitEvent → Bool → Bool → Option String → Bool → Bool → Findings
found es overflow truncated failed dirty deferred = record {
  events = es;
  overflow = overflow;
  truncated = truncated;
  failed = failed;
  dirty = dirty;
  deferred_required = deferred;
}

abbrev Says : Bool → Findings → Type 0
Says at_logical f =
    is_clean (kind_of at_logical f).0 ≡ true
    → IsClear f × Promises at_logical f (kind_of at_logical f).0

clear : (es : List WaitEvent) (deferred : Bool) → IsClear (found es false false none false deferred)
clear es deferred = record {
  no_overflow = refl;
  no_failure = refl;
  not_dirty = refl;
  not_truncated = refl;
}

ladder :
    (at_logical : Bool) (es : List WaitEvent) (overflow dirty : Bool) (failed : Option String)
    (truncated deferred : Bool)
    → Says at_logical (found es overflow truncated failed dirty deferred)
unfolding kind_of
ladder at_logical [] true dirty failed truncated deferred = λ h. cc
ladder at_logical (e ∷ es) true dirty failed truncated deferred = λ h. cc
ladder at_logical [] false true failed truncated deferred = λ h. cc
ladder at_logical (e ∷ es) false true failed truncated deferred = λ h. cc
ladder at_logical [] false false (some reason) truncated deferred = λ h. cc
ladder at_logical (e ∷ es) false false (some reason) truncated deferred = λ h. cc
ladder at_logical (e ∷ es) false false none truncated true = λ h. cc
ladder at_logical (e ∷ es) false false none true false = λ h. cc
ladder at_logical (e ∷ es) false false none false false = λ h. (clear (e ∷ es) false, (refl, refl))
ladder at_logical [] false false none true deferred = λ h. cc
ladder false [] false false none false true = λ h. cc
ladder true [] false false none false true = λ h. (clear [] true, (refl, refl))
ladder true [] false false none false false = λ h. (clear [] false, (refl, refl))
ladder false [] false false none false false = λ h. (clear [] false, (refl, refl, refl))

pub kind_of-Promises :
    (at_logical : Bool) (f : Findings)
    → is_clean (kind_of at_logical f).0 ≡ true
    → IsClear f × Promises at_logical f (kind_of at_logical f).0
kind_of-Promises at_logical f =
    ladder at_logical f.events f.overflow f.dirty f.failed f.truncated f.deferred_required
