-- ===== src/Poll/Fairness/Rotation.antt =====
-- The order in which a cycle visits its arms: `fairness_order` of
-- crates/waitprims-async/src/poll_cycle.rs.
use native.Mathlib.Nat.{mod-eq_of_lt, add-mod_left}
use mathlib.Core.Path.{subst}
use mathlib.Core.List.{map-append}
use waitprims.Prelude.{
  ℕ, zero, suc, ◌+◌, ◌-◌, ◌%◌, ◌≤◌, ◌<◌, ◌≡◌, ◌∙◌, refl, sym, ap, Bool, true, false, List, [], ◌∷◌,
  ◌++◌, map, length, range_from, All, All-append, arith, ◌==◌, ℕ_eq, string_eq, if◌then◌else◌, inl,
  inr, ◌⊎◌,
}
use waitprims.Core.Types.{Registration}
use waitprims.Core.Messages.{RegistrationSet, PollCycleRequest}
use waitprims.Poll.Fairness.{arm_id_for, names, cursor_index, fairness_start_index, fairness_order}

-- An index found is one of the registrations, or 0.
abbrev Found : ℕ → List Registration → ℕ → Type 0
Found idx registrations found = (found ≡ 0) ⊎ (found < idx + length registrations)

cursor_index-Found :
    (request : PollCycleRequest) (seen idx : ℕ) (registrations : List Registration)
    → Found idx registrations (cursor_index request seen idx registrations)
unfolding cursor_index
cursor_index-Found request seen idx [] = inl refl
cursor_index-Found request seen idx (registration ∷ rest) =
    go
      (names request.fairness_cursor (arm_id_for request registration seen).0
        registration.registration_id)
      (cursor_index-Found request (arm_id_for request registration seen).1 (suc idx) rest)
  where
    go :
        (b : Bool) {later : ℕ}
        → Found (suc idx) rest later
        → Found idx (registration ∷ rest) (if b then idx else later)
    go true h = inr (omega arith)
    go false (inl h) = inl h
    go false (inr h) = inr (omega (arith, h))

start_within :
    (set : RegistrationSet) (request : PollCycleRequest)
    → Found 0 set.registrations (fairness_start_index set request)
unfolding fairness_start_index
start_within set request =
    go (request.fairness_cursor == "fair:start") (cursor_index-Found request 0 0 set.registrations)
  where
    go :
        (b : Bool) {found : ℕ}
        → Found 0 set.registrations found
        → Found 0 set.registrations (if b then 0 else found)
    go true h = inl refl
    go false h = h

range-append : (i j k : ℕ) → range_from i (j + k) ≡ range_from i j ++ range_from (i + j) k
range-append i zero k = first (omega arith) (omega arith)
  where
    first : {m j : ℕ} → m ≡ k → i ≡ j → range_from i m ≡ range_from j k
    first e f = rw (e, f) refl
range-append i (suc j) k =
    ap (range_from i) (same {m = suc j + k} {n = suc (j + k)} (omega arith))
    ∙ ap (λ r. i ∷ r)
        (range-append (suc i) j k
          ∙ ap (λ x. range_from (suc i) j ++ range_from x k)
              (same {m = suc i + j} {n = i + suc j} (omega arith)))
  where
    same : {m n : ℕ} → m ≡ n → m ≡ n
    same e = e

-- A stretch of the rotation before it wraps, and one after.
before_wrap :
    (s n a k b : ℕ)
    → b ≡ s + a
    → s + a + k ≤ n
    → map (λ i. (s + i) % n) (range_from a k) ≡ range_from b k
before_wrap s n a zero b e h = refl
before_wrap s n a (suc k) b e h =
    rw (mod-eq_of_lt {n = s + a} {m = n} (omega (arith, h)), sym e)
      (ap (λ r. b ∷ r) (before_wrap s n (suc a) k (suc b) (omega (arith, e)) (omega (arith, h))))

after_wrap :
    (s n a k b : ℕ)
    → s + b ≡ n + a
    → a + k ≤ n
    → map (λ i. (s + i) % n) (range_from b k) ≡ range_from a k
after_wrap s n a zero b e h = refl
after_wrap s n a (suc k) b e h =
    rw (e, add-mod_left n a, mod-eq_of_lt {n = a} {m = n} (omega (arith, h)))
      (ap (λ r. a ∷ r) (after_wrap s n (suc a) k (suc b) (omega (arith, e)) (omega (arith, h))))

-- A whole turn, from s on, over r + s arms.
turn :
    (s r : ℕ)
    → map (λ i. (s + i) % (r + s)) (range_from 0 (r + s)) ≡ range_from s r ++ range_from 0 s
turn s r =
    ap (map (λ i. (s + i) % (r + s))) (range-append 0 r s)
    ∙ map-append (λ i. (s + i) % (r + s)) (range_from 0 r) (range_from (0 + r) s)
    ∙ rw
        (
          before_wrap s (r + s) 0 r s (omega arith) (omega arith),
          after_wrap s (r + s) 0 s (0 + r) (omega arith) (omega arith),
        )
        refl

when_some : (n : ℕ) (order : List ℕ) → (if suc n == 0 then [] else order) ≡ order
when_some n order = ground arith

-- The order of a cycle: the arms from the cursor on, and then those before it. So each arm is
-- visited, and none twice.
pub fairness_order-rotation :
    (set : RegistrationSet) (request : PollCycleRequest)
    → fairness_order set request
      ≡ range_from
          (fairness_start_index set request)
          (length set.registrations - fairness_start_index set request)
        ++ range_from 0 (fairness_start_index set request)
unfolding fairness_order
fairness_order-rotation set request =
    go (fairness_start_index set request) (length set.registrations) (start_within set request)
  where
    go :
        (s n : ℕ)
        → (s ≡ 0) ⊎ (s < 0 + n)
        → (if n == 0 then [] else map (λ i. (s + i) % n) (range_from 0 n))
          ≡ range_from s (n - s) ++ range_from 0 s
    go s zero (inl h) = rw h refl
    go s zero (inr h) = absurd (omega (arith, h))
    go s (suc n) h =
        when_some n _
        ∙ subst
            (λ m.
              map (λ i. (s + i) % m) (range_from 0 m) ≡ range_from s (suc n - s) ++ range_from 0 s)
            {y = suc n} (elim h [ inl e ↦ omega (arith, e) | inr e ↦ omega (arith, e) ])
            (turn s (suc n - s))

All-split : {A : Type 0} (P : A → Type 0) (xs ys : List A) → All P (xs ++ ys) → All P xs × All P ys
All-split P [] ys h = (tt, h)
All-split P (x ∷ xs) ys h = let (hx, hy) = All-split P xs ys h.1 in ((h.0, hx), hy)

-- What holds of all arms in the order of a cycle holds of every arm.
pub fairness_order-All :
    (P : ℕ → Type 0) (set : RegistrationSet) (request : PollCycleRequest)
    → All P (fairness_order set request)
    → All P (range_from 0 (length set.registrations))
fairness_order-All P set request h =
    go (fairness_start_index set request) (length set.registrations) (start_within set request)
      (subst (All P) (fairness_order-rotation set request) h)
  where
    go :
        (s n : ℕ)
        → (s ≡ 0) ⊎ (s < 0 + n)
        → All P (range_from s (n - s) ++ range_from 0 s)
        → All P (range_from 0 n)
    go s n w h =
        let (after, before) = All-split P (range_from s (n - s)) (range_from 0 s) h in
        subst (λ m. All P (range_from 0 m)) {y = n}
          (elim w [ inl e ↦ omega (arith, e) | inr e ↦ omega (arith, e) ])
          (subst (All P) (sym (range-append 0 s (n - s))) (
            All-append P (range_from 0 s) (range_from (0 + s) (n - s)) before
              (subst (λ m. All P (range_from m (n - s))) {y = 0 + s} (omega arith) after)))
