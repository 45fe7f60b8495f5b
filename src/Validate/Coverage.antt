-- ===== src/Validate/Coverage.antt =====
-- crates/waitprims-core/src/validate.rs: coverage_cardinality, of the documents that are validated
-- together. A BTreeSet of identifiers is a list of them, of which only membership is asked.
use mathlib.Core.Path.{subst}
use waitprims.Prelude.{
  String, ◌≡◌, inl, inr, refl, sym, ap, ◌∙◌, Bool, Bool-cases, true, false, not, ◌&&◌, Option, none,
  some, List, [], ◌∷◌, ◌++◌, any, filter_map, IsIn, IsIn-left, IsIn-right, filter_map-IsIn,
  filter_map-from, ◌==◌, string_eq, if◌then◌else◌,
}
use waitprims.Core.Error.{
  Result, ok, err, validation, normative, coverage_cardinality as cardinality,
}
use waitprims.Validate.Guards.{unless_ok, when_false, neither, unnot, second, guarded}
use waitprims.Validate.{Json, string_at, array_at, field_is, unwrap_or}

abbrev contains : List String → String → Bool
contains ids id = any (λ other. other == id) ids

abbrev is_empty : List String → Bool
is_empty [] = true
is_empty (id ∷ ids) = false

module _ (json : Json) where
  abbrev is_type : json.Value → String → Bool
  is_type document name = elim (string_at json document "message_type") [
    | none ↦ false
    | some t ↦ t == name
  ]

  -- The ids that one request requires, and those of all requests.
  abbrev arms_of_request : json.Value → List String
  arms_of_request document =
      if is_type document "poll_cycle_request"
      then filter_map json.as_str (unwrap_or [] (array_at json document "required_arms"))
      else []

  abbrev pub required_arms : List json.Value → List String
  required_arms [] = []
  required_arms (d ∷ ds) = arms_of_request d ++ required_arms ds

  abbrev pub have : json.Value → List String
  have document =
      filter_map (λ arm. string_at json arm "arm_id") (unwrap_or [] (array_at json document "arms"))

  abbrev misses : List String → json.Value → Bool
  misses required document =
      is_type document "poll_cycle_outcome"
      && field_is json document "coverage_complete" true
      && any (λ id. not (contains (have document) id)) required

  abbrev check_outcomes : List String → List json.Value → Result (Unit {0})
  check_outcomes required [] = ok tt
  check_outcomes required (d ∷ ds) =
      let rest = check_outcomes required ds in
      if misses required d
      then err (validation (normative "/arms" "missing_required_arm" cardinality))
      else rest

  unfoldable pub coverage_cardinality : List json.Value → Result (Unit {0})
  coverage_cardinality documents =
      let required = required_arms documents in
      if is_empty required then ok tt else check_outcomes required documents

get_some : {A : Type 0} {a b : A} → some a ≡ some b → a ≡ b
get_some h = cc

any_none :
    {A : Type 0} (p : A → Bool) (a : A) (xs : List A) → IsIn a xs → any p xs ≡ false → p a ≡ false
any_none p a [] i h = elim i [ ]
any_none p a (x ∷ xs) (inl e) h = ap p (sym e) ∙ (neither (p x) (any p xs) h).0
any_none p a (x ∷ xs) (inr i) h = any_none p a xs i (neither (p x) (any p xs) h).1

contains-IsIn : (ids : List String) (id : String) → contains ids id ≡ true → IsIn id ids
contains-IsIn [] id h = cc
contains-IsIn (x ∷ xs) id h = elim (Bool-cases (x == id)) [
  | inl e ↦ inl ((string_eq.decides x id).0 e)
  | inr n ↦ inr (contains-IsIn xs id (second (x == id) _ n h))
]

is_empty-IsIn : (ids : List String) (id : String) → IsIn id ids → is_empty ids ≡ false
is_empty-IsIn [] id i = elim i [ ]
is_empty-IsIn (x ∷ xs) id i = refl

module _ (json : Json) where
  field_is_known :
      (document : json.Value) (name : String) (b : Bool)
      → json.get document name ≡ some (json.bool b)
      → field_is json document name b ≡ true
  field_is_known document name b h = go (json.get document name) h
    where
      go :
          (o : Option json.Value)
          → o ≡ some (json.bool b)
          → elim o [ none ↦ false | some x ↦ json.value_eq.test x (json.bool b) ] ≡ true
      go none h = cc
      go (some x) h = (json.value_eq.decides x (json.bool b)).1 (get_some h)

  is_type_known :
      (document : json.Value) (name : String)
      → string_at json document "message_type" ≡ some name
      → is_type json document name ≡ true
  is_type_known document name h = go (string_at json document "message_type") h
    where
      go : (o : Option String) → o ≡ some name → elim o [ none ↦ false | some t ↦ t == name ] ≡ true
      go none h = cc
      go (some t) h = (string_eq.decides t name).1 (get_some h)

  check_outcomes-misses :
      (required : List String) (documents : List json.Value) (d : json.Value)
      → check_outcomes json required documents ≡ ok tt
      → IsIn d documents
      → misses json required d ≡ false
  check_outcomes-misses required [] d h i = elim i [ ]
  check_outcomes-misses required (x ∷ xs) d h (inl e) =
      ap (misses json required) (sym e) ∙ (unless_ok _ _ (misses json required x) h).0
  check_outcomes-misses required (x ∷ xs) d h (inr i) =
      check_outcomes-misses required xs d (unless_ok _ _ (misses json required x) h).1 i

  required_arms-IsIn :
      (documents : List json.Value) (request : json.Value) (id : String)
      → IsIn request documents
      → IsIn id (arms_of_request json request)
      → IsIn id (required_arms json documents)
  required_arms-IsIn [] request id i h = elim i [ ]
  required_arms-IsIn (d ∷ ds) request id (inl e) h =
      IsIn-left id (arms_of_request json d) (required_arms json ds)
        (subst (λ r. IsIn id (arms_of_request json r)) (sym e) h)
  required_arms-IsIn (d ∷ ds) request id (inr i) h =
      IsIn-right id _ _ (required_arms-IsIn ds request id i h)

  -- An arm of the document that has the id.
  abbrev pub HasArm : json.Value → String → Type 0
  HasArm d id =
      (arms : List json.Value) × ((array_at json d "arms" ≡ some arms)
        × ((arm : json.Value) × (IsIn arm arms × (string_at json arm "arm_id" ≡ some id))))

  have-HasArm : (d : json.Value) (id : String) → IsIn id (have json d) → HasArm d id
  have-HasArm d id = go (array_at json d "arms")
    where
      go :
          (o : Option (List json.Value))
          → IsIn id (filter_map (λ arm. string_at json arm "arm_id") (unwrap_or [] o))
          → (arms : List json.Value) × ((o ≡ some arms)
              × ((arm : json.Value) × (IsIn arm arms × (string_at json arm "arm_id" ≡ some id))))
      go none i = elim i [ ]
      go (some arms) i = (arms, (refl, filter_map-from _ id arms i))

  arms_of_request-IsIn :
      (request v : json.Value) (ids : List json.Value) (id : String)
      → string_at json request "message_type" ≡ some "poll_cycle_request"
      → array_at json request "required_arms" ≡ some ids
      → IsIn v ids
      → json.as_str v ≡ some id
      → IsIn id (arms_of_request json request)
  arms_of_request-IsIn request v ids id kind found i text =
      rw (is_type_known request "poll_cycle_request" kind, found)
        (filter_map-IsIn json.as_str v id ids i text)

  -- Where the rule accepts the documents, each outcome among them whose coverage is complete has an arm
  -- for each text that a poll request among them, wherever it stands, lists as a required arm.
  pub coverage_cardinality-HasArm :
      (documents : List json.Value) (d request v : json.Value) (ids : List json.Value) (id : String)
      → coverage_cardinality json documents ≡ ok tt
      → IsIn d documents
      → string_at json d "message_type" ≡ some "poll_cycle_outcome"
      → json.get d "coverage_complete" ≡ some (json.bool true)
      → IsIn request documents
      → string_at json request "message_type" ≡ some "poll_cycle_request"
      → array_at json request "required_arms" ≡ some ids
      → IsIn v ids
      → json.as_str v ≡ some id
      → HasArm d id
  unfolding coverage_cardinality
  coverage_cardinality-HasArm documents d request v ids id h in_d outcome complete in_r kind found
        in_v text =
      let required = required_arms json documents in
      let in_id =
        required_arms-IsIn documents request id in_r
          (arms_of_request-IsIn request v ids id kind found in_v text) in
      let checked = when_false _ _ (is_empty required) (is_empty-IsIn required id in_id) h in
      let missed = check_outcomes-misses required documents d checked in_d in
      let none_missed =
        guarded _ _ _ missed (is_type_known d _ outcome) (field_is_known d _ true complete) in
      have-HasArm d id (
        contains-IsIn (have json d) id (
          unnot _ (any_none (λ id. not (contains (have json d) id)) id required in_id none_missed)))
