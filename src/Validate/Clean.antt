-- ===== src/Validate/Clean.antt =====
-- What an outcome of a clean kind shows, when the rules of validate.rs accept it.
use Prim.Native.Nat.{Ordering}
use waitprims.Prelude.{
  ℕ, String, ◌≡◌, ◌≤◌, ◌≢◌, refl, ap, nat_eq, nat_eq_iff, Bool, true, false, not, Option, none,
  some, List, [], ◌∷◌, length, keep, All, Bool-cases, inl, inr, ◌==◌, string_eq, arith,
}
use waitprims.Core.Error.{Error, Result, NormativeReason, ok, err}
use waitprims.Core.Error
use waitprims.Core.Rfc3339.{Chrono, compare_texts}
use waitprims.Validate.Guards.{bind_ok, unless_ok, when_true, neither, unnot, both}
use waitprims.Validate.{
  Json, show, is_required, is_no_change, is_complete, array_at, outcome_kind, events_n, complete,
  string_at, outcome_normative, no_change_rule, deadman_rule, is_unclean, field_is, status, is_lt,
  every, ok_or, is_true, clean_rule,
}

ok_or_ok : {A : Type 0} (e : Error) (o : Option A) {a : A} → ok_or e o ≡ ok a → o ≡ some a
ok_or_ok e none h = cc
ok_or_ok e (some b) h = cc

is_true_lem : (o : Option Bool) → is_true o ≡ true → o ≡ some true
is_true_lem none h = cc
is_true_lem (some b) h = ap some h

module _ {A : Type 0} (p : A → Bool) where
  length-keep_le : (xs : List A) → length (keep p xs) ≤ length xs
  length-keep_le [] = omega arith
  length-keep_le (x ∷ xs) = ground (arith, length-keep_le xs)

  length-keep_short : (x : A) (xs : List A) → p x ≡ false → length (keep p (x ∷ xs)) ≤ length xs
  length-keep_short x xs h = ground (arith, length-keep_le xs)

  length-keep_grown :
      (x : A) (xs : List A)
      → p x ≡ true
      → length (x ∷ xs) ≡ length (keep p (x ∷ xs))
      → length xs ≡ length (keep p xs)
  length-keep_grown x xs h e = ground arith

  unkept : (x : A) (xs : List A) → p x ≡ false → length (x ∷ xs) ≢ length (keep p (x ∷ xs))
  unkept x xs f h = omega (arith, length-keep_short x xs f)

  each_kept : (xs : List A) → length xs ≡ length (keep p xs) → All (λ x. p x ≡ true) xs
  each_kept [] h = tt
  each_kept (x ∷ xs) h = elim (Bool-cases (p x)) [
    | inl t ↦ (t, each_kept xs (length-keep_grown x xs t h))
    | inr f ↦ elim (unkept x xs f h) [ ]
  ]

unnegated : (a : Bool) → not a ≡ true → a ≡ false
unnegated true h = cc
unnegated false h = refl

clash : (a : Bool) → not a ≡ true → a ≢ true
clash true h e = cc
clash false h e = cc

differs : (s t : String) → not (s == t) ≡ true → s ≢ t
differs s t h e = clash (s == t) h ((string_eq.decides s t).1 e)

nonempty : (n : ℕ) → nat_eq n 0 ≡ false → 1 ≤ n
nonempty n h = ground arith

All-map :
    {A : Type 0} {P Q : A → Type 0} (xs : List A) → ((x : A) → P x → Q x) → All P xs → All Q xs
All-map [] f h = tt
All-map (x ∷ xs) f h = (f x h.0, All-map xs f h.1)

before : (rel : Ordering) → is_lt rel ≡ true → rel ≡ Ordering.lt
before Ordering.lt h = refl
before Ordering.eq h = cc
before Ordering.gt h = cc

not_before : (rel : Ordering) → not (is_lt rel) ≡ true → rel ≢ Ordering.lt
not_before rel h e = clash (is_lt rel) h (ap is_lt e)

module _ (json : Json) where
  -- The arm has that Boolean in that member.
  abbrev Has : json.Value → String → Bool → Type 0
  Has arm name b = json.get arm name ≡ some (json.bool b)

  abbrev pub QuietArm : json.Value → Type 0
  QuietArm arm = (status json arm ≡ "no_change") × Has arm "degraded" false

  abbrev pub CoveredArm : json.Value → Type 0
  CoveredArm arm =
      (status json arm ≢ "outage")
      × ((status json arm ≢ "cursor_uncertain") × Has arm "degraded" false)

  -- The outcome has no events, its coverage is complete, some arm of it is required, each required arm
  -- is as `Quiet` says, and its completion and its logical deadline compare as `InTime` says.
  pub record Accepted (chrono : Chrono) (Quiet : json.Value → Type 0) (InTime : Ordering → Type 0)
      (document : json.Value) : Type 0 where
    no_events : events_n json document ≡ 0
    covered : complete json document ≡ some true
    arms : List json.Value
    arms_found : array_at json document "arms" ≡ some arms
    required_some : 1 ≤ length (keep (is_required json) arms)
    all_quiet : All Quiet (keep (is_required json) arms)
    completed : String
    logical : String
    completed_found : string_at json document "completed_at" ≡ some completed
    logical_found : string_at json document "logical_deadline" ≡ some logical
    rel : Ordering
    compared : compare_texts chrono completed logical ≡ ok rel
    in_time : InTime rel

  field_is_lem :
      (arm : json.Value) (name : String) (b : Bool)
      → field_is json arm name b ≡ true
      → Has arm name b
  field_is_lem arm name b h = go (json.get arm name) h
    where
      go :
          (o : Option json.Value)
          → elim o [ none ↦ false | some x ↦ json.value_eq.test x (json.bool b) ] ≡ true
          → o ≡ some (json.bool b)
      go none h = cc
      go (some x) h = ap some ((json.value_eq.decides x (json.bool b)).0 h)

  quiet_arm : (arm : json.Value) → is_no_change json arm ≡ true → QuietArm arm
  quiet_arm arm h =
      let (s, d) = both _ _ h in
      ((string_eq.decides (status json arm) "no_change").0 s, field_is_lem arm "degraded" false d)

  covered_arm : (arm : json.Value) → is_complete json arm ≡ true → CoveredArm arm
  covered_arm arm h =
      let (rest, no_doubt) = both _ _ h in
      let (d, no_outage) = both _ _ rest in
      (
        differs (status json arm) "outage" no_outage,
        (
          differs (status json arm) "cursor_uncertain" no_doubt,
          field_is_lem arm "degraded" false d,
        ),
      )

  every_lem :
      (p : json.Value → Bool) (required : List json.Value)
      → every json p required ≡ true
      → (1 ≤ length required) × All (λ arm. p arm ≡ true) required
  every_lem p required h =
      let (some_left, all_in) = both _ _ h in
      (
        nonempty (length required) (unnegated _ some_left),
        each_kept p required ((nat_eq_iff (length required) (length (keep p required))).0 all_in),
      )

  -- The arms of an outcome whose required ones all pass the test.
  abbrev AllPass : (json.Value → Bool) → Option (List json.Value) → Type 0
  AllPass p o =
      (arms : List json.Value) × ((o ≡ some arms)
        × (every json p (keep (is_required json) arms) ≡ true))

  all_no_change :
      (o : Option (List json.Value))
      → (show json o).req_no_change ≡ true
      → AllPass (is_no_change json) o
  all_no_change none h = cc
  all_no_change (some arms) h = (arms, (refl, h))

  all_complete :
      (o : Option (List json.Value))
      → (show json o).req_complete ≡ true
      → AllPass (is_complete json) o
  all_complete none h = cc
  all_complete (some arms) h = (arms, (refl, h))

  module _ (chrono : Chrono) where
    -- What an accepted block on a clean kind has compared.
    record Passed (document : json.Value) (completed : String) (in_time : Ordering → Bool)
        : Type 0 where
      logical : String
      logical_found : string_at json document "logical_deadline" ≡ some logical
      rel : Ordering
      compared : compare_texts chrono completed logical ≡ ok rel
      rel_in_time : in_time rel ≡ true
      no_events : events_n json document ≡ 0
      covered : complete json document ≡ some true

    clean_rule-Passed :
        (constraint : String) (reason : NormativeReason) (arms_clean : Bool)
        (in_time : Ordering → Bool) (document : json.Value) (completed : String)
        → clean_rule json chrono constraint reason arms_clean in_time document completed ≡ ok tt
        → (arms_clean ≡ true) × Passed document completed in_time
    clean_rule-Passed constraint reason arms_clean in_time document completed h =
        let (logical, (found_logical, h1)) = bind_ok _ h in
        let (rel, (compared, h2)) = bind_ok _ h1 in
        let (guards, _) = unless_ok _ _ _ h2 in
        let (g3, late) = neither _ _ guards in
        let (g2, unclean) = neither _ _ g3 in
        let (g1, uncovered) = neither _ _ g2 in
        (
          unnot _ unclean,
          record {
            logical = logical;
            logical_found = ok_or_ok _ _ found_logical;
            rel = rel;
            compared = compared;
            rel_in_time = unnot _ late;
            no_events = (nat_eq_iff _ _).0 (unnot _ g1);
            covered = is_true_lem _ (unnot _ uncovered);
          },
        )

    outcome-Accepted :
        (Quiet : json.Value → Type 0) (InTime : Ordering → Type 0) (p : json.Value → Bool)
        (in_time : Ordering → Bool) (document : json.Value) (completed : String)
        → ((arm : json.Value) → p arm ≡ true → Quiet arm)
        → ((rel : Ordering) → in_time rel ≡ true → InTime rel)
        → string_at json document "completed_at" ≡ some completed
        → AllPass p (array_at json document "arms")
        → Passed document completed in_time
        → Accepted chrono Quiet InTime document
    outcome-Accepted Quiet InTime p in_time document completed quiet timed c
          (arms, (arms_found, all_in)) passed =
        let (one, each) = every_lem p _ all_in in
        record {
          no_events = passed.no_events;
          covered = passed.covered;
          arms = arms;
          arms_found = arms_found;
          required_some = one;
          all_quiet = All-map _ quiet each;
          completed = completed;
          logical = passed.logical;
          completed_found = c;
          logical_found = passed.logical_found;
          rel = passed.rel;
          compared = passed.compared;
          in_time = timed _ passed.rel_in_time;
        }

    record Rules (document : json.Value) : Type 0 where
      completed : String
      completed_found : string_at json document "completed_at" ≡ some completed
      no_change_ok : no_change_rule json chrono document completed ≡ ok tt
      deadman_ok : deadman_rule json chrono document completed ≡ ok tt

    outcome_normative-Rules :
        (document : json.Value) → outcome_normative json chrono document ≡ ok tt → Rules document
    unfolding outcome_normative
    outcome_normative-Rules document h =
        let (completed, (c, h1)) = bind_ok _ h in
        let (_, h2) =
          unless_ok _
            (Error.◌>>=◌ (no_change_rule json chrono document completed)
              λ _. deadman_rule json chrono document completed)
            (is_unclean json chrono document) h1 in
        let (_, (nc, dm)) = bind_ok (no_change_rule json chrono document completed) h2 in
        record {
          completed = completed;
          completed_found = ok_or_ok _ _ c;
          no_change_ok = nc;
          deadman_ok = dm;
        }

    -- An outcome of kind `no_change` that the rules accept has no events, complete coverage and some
    -- required arm, each required arm is unchanged and not degraded, and it was completed before its
    -- logical deadline.
    pub outcome_normative-no_change :
        (document : json.Value)
        → outcome_kind json document ≡ "no_change"
        → outcome_normative json chrono document ≡ ok tt
        → Accepted chrono QuietArm (λ rel. rel ≡ Ordering.lt) document
    outcome_normative-no_change document k h =
        let r = outcome_normative-Rules document h in
        let rule =
          when_true _ _ _ ((string_eq.decides (outcome_kind json document) "no_change").1 k)
            r.no_change_ok in
        let (clean, passed) = clean_rule-Passed _ _ _ is_lt document r.completed rule in
        outcome-Accepted QuietArm _ (is_no_change json) is_lt document r.completed quiet_arm before
          r.completed_found (all_no_change _ clean) passed

    -- An outcome of kind `logical_deadman` that the rules accept has no events, complete coverage and
    -- some required arm, each required arm has no outage, no doubt about its cursor and is not degraded,
    -- and it was not completed before its logical deadline.
    pub outcome_normative-logical_deadman :
        (document : json.Value)
        → outcome_kind json document ≡ "logical_deadman"
        → outcome_normative json chrono document ≡ ok tt
        → Accepted chrono CoveredArm (λ rel. rel ≢ Ordering.lt) document
    outcome_normative-logical_deadman document k h =
        let r = outcome_normative-Rules document h in
        let rule =
          when_true _ _ _ ((string_eq.decides (outcome_kind json document) "logical_deadman").1 k)
            r.deadman_ok in
        let (clean, passed) =
          clean_rule-Passed _ _ _ (λ rel. not (is_lt rel)) document r.completed rule in
        outcome-Accepted CoveredArm _ (is_complete json) (λ rel. not (is_lt rel)) document
          r.completed covered_arm not_before r.completed_found (all_complete _ clean) passed
