-- ===== src/Prelude/Lists.antt =====
-- Lists measured and indexed by native numbers, and the iterator adaptors that the code uses.
use Prim.Native.Nat.{ℕ, zero, suc, ◌+◌}
use mathlib.Core.Path.{◌≡◌, refl, ap, ◌∙◌}
use mathlib.Core.Logic.{◌⊎◌, inl, inr}
use mathlib.Core.Bool.{Bool, true, false, ◌&&◌, ◌||◌}
use mathlib.Core.List.{List, [], ◌∷◌, ◌++◌, map}
use mathlib.Core.Option.{Option, none, some}
use native.Mathlib.Omega.{arith}
use waitprims.Prelude.Tests.{if◌then◌else◌}

module _ {ℓ} {A : Type ℓ} where
  abbrev pub length : List A → ℕ
  length [] = 0
  length (x ∷ xs) = suc (length xs)

  abbrev pub get_elem? : List A → ℕ → Option A
  get_elem? [] i = none
  get_elem? (x ∷ xs) zero = some x
  get_elem? (x ∷ xs) (suc i) = get_elem? xs i

  -- A write out of bounds changes nothing.
  abbrev pub set : List A → ℕ → A → List A
  set [] i v = []
  set (x ∷ xs) zero v = v ∷ xs
  set (x ∷ xs) (suc i) v = x ∷ set xs i v

  -- Iterator::any
  abbrev pub any : (A → Bool) → List A → Bool
  any p [] = false
  any p (x ∷ xs) = p x || any p xs

  -- Iterator::all
  abbrev pub all : (A → Bool) → List A → Bool
  all p [] = true
  all p (x ∷ xs) = p x && all p xs

  -- Iterator::find
  abbrev pub find : (A → Bool) → List A → Option A
  find p [] = none
  find p (x ∷ xs) = if p x then some x else find p xs

  -- Iterator::filter
  abbrev pub keep : (A → Bool) → List A → List A
  keep p [] = []
  keep p (x ∷ xs) = let rest = keep p xs in if p x then x ∷ rest else rest

  -- A predicate that holds of every item.
  abbrev pub All {κ} : (A → Type κ) → List A → Type κ
  All P [] = Unit
  All P (x ∷ xs) = P x × All P xs

  pub length-append : (xs ys : List A) → length (xs ++ ys) ≡ length xs + length ys
  length-append [] ys = omega arith
  length-append (x ∷ xs) ys = omega (arith, length-append xs ys)

  pub keep-append : (p : A → Bool) (xs ys : List A) → keep p (xs ++ ys) ≡ keep p xs ++ keep p ys
  keep-append p [] ys = refl
  keep-append p (x ∷ xs) ys = ground (arith, keep-append p xs ys)

  pub All-append {κ} : (P : A → Type κ) (xs ys : List A) → All P xs → All P ys → All P (xs ++ ys)
  All-append P [] ys hx hy = hy
  All-append P (x ∷ xs) ys hx hy = (hx.0, All-append P xs ys hx.1 hy)

abbrev pub push_some {ℓ} : {B : Type ℓ} → Option B → List B → List B
push_some none ys = ys
push_some (some y) ys = y ∷ ys

module _ {ℓ κ} {A : Type ℓ} {B : Type κ} where
  pub length-map : (f : A → B) (xs : List A) → length (map f xs) ≡ length xs
  length-map f [] = refl
  length-map f (x ∷ xs) = ap suc (length-map f xs)

  -- Iterator::filter_map
  abbrev pub filter_map : (A → Option B) → List A → List B
  filter_map f [] = []
  filter_map f (x ∷ xs) = push_some (f x) (filter_map f xs)

-- Iterator::enumerate, from an index on.
abbrev pub enumerate_from {ℓ} : {A : Type ℓ} → ℕ → List A → List (ℕ × A)
enumerate_from i [] = []
enumerate_from i (x ∷ xs) = (i, x) ∷ enumerate_from (suc i) xs

abbrev pub enumerate {ℓ} : {A : Type ℓ} → List A → List (ℕ × A)
enumerate = enumerate_from 0

-- The numbers from i on, n of them.
abbrev pub range_from : ℕ → ℕ → List ℕ
range_from i zero = []
range_from i (suc n) = i ∷ range_from (suc i) n

abbrev pub sum : List ℕ → ℕ
sum [] = 0
sum (x ∷ xs) = x + sum xs

-- A value among the items.
abbrev pub IsIn : {A : Type 0} → A → List A → Type 0
IsIn a [] = ⊥
IsIn a (x ∷ xs) = (x ≡ a) ⊎ IsIn a xs

module _ {A : Type 0} where
  pub IsIn-left : (a : A) (xs ys : List A) → IsIn a xs → IsIn a (xs ++ ys)
  IsIn-left a [] ys i = elim i [ ]
  IsIn-left a (x ∷ xs) ys (inl e) = inl e
  IsIn-left a (x ∷ xs) ys (inr i) = inr (IsIn-left a xs ys i)

  pub IsIn-right : (a : A) (xs ys : List A) → IsIn a ys → IsIn a (xs ++ ys)
  IsIn-right a [] ys i = i
  IsIn-right a (x ∷ xs) ys i = inr (IsIn-right a xs ys i)

module _ {A B : Type 0} (f : A → Option B) where
  pushed : (o : Option B) (b : B) (ys : List B) → o ≡ some b → IsIn b (push_some o ys)
  pushed none b ys h = cc
  pushed (some c) b ys h = inl cc

  pushed_past : (o : Option B) (b : B) (ys : List B) → IsIn b ys → IsIn b (push_some o ys)
  pushed_past none b ys i = i
  pushed_past (some c) b ys i = inr i

  pub filter_map-IsIn :
      (a : A) (b : B) (xs : List A) → IsIn a xs → f a ≡ some b → IsIn b (filter_map f xs)
  filter_map-IsIn a b [] i h = elim i [ ]
  filter_map-IsIn a b (x ∷ xs) (inl e) h = pushed (f x) b (filter_map f xs) (ap f e ∙ h)
  filter_map-IsIn a b (x ∷ xs) (inr i) h =
      pushed_past (f x) b (filter_map f xs) (filter_map-IsIn a b xs i h)

  from_push :
      (b : B) (x : A) (xs : List A) (o : Option B)
      → f x ≡ o
      → (IsIn b (filter_map f xs) → (a : A) × (IsIn a xs × (f a ≡ some b)))
      → IsIn b (push_some o (filter_map f xs))
      → (a : A) × (IsIn a (x ∷ xs) × (f a ≡ some b))
  from_push b x xs none e rest i = let (a, (j, h)) = rest i in (a, (inr j, h))
  from_push b x xs (some c) e rest (inl h) = (x, (inl refl, e ∙ ap some h))
  from_push b x xs (some c) e rest (inr i) = let (a, (j, h)) = rest i in (a, (inr j, h))

  pub filter_map-from :
      (b : B) (xs : List A) → IsIn b (filter_map f xs) → (a : A) × (IsIn a xs × (f a ≡ some b))
  filter_map-from b [] i = elim i [ ]
  filter_map-from b (x ∷ xs) i = from_push b x xs (f x) refl (filter_map-from b xs) i

module _ {A : Type 0} (p : A → Bool) where
  pub find-IsIn : (a : A) (xs : List A) → find p xs ≡ some a → IsIn a xs × (p a ≡ true)
  find-IsIn a [] h = cc
  find-IsIn a (x ∷ xs) h = go (p x) refl (find-IsIn a xs) h
    where
      go :
          (b : Bool)
          → p x ≡ b
          → (find p xs ≡ some a → IsIn a xs × (p a ≡ true))
          → (if b then some x else find p xs) ≡ some a
          → IsIn a (x ∷ xs) × (p a ≡ true)
      go true e rest h = (inl cc, cc)
      go false e rest h = let (i, q) = rest h in (inr i, q)

  pub find-All : (xs : List A) → find p xs ≡ none → All (λ x. p x ≡ false) xs
  find-All [] h = tt
  find-All (x ∷ xs) h = go (p x) refl (find-All xs) h
    where
      go :
          (b : Bool)
          → p x ≡ b
          → (find p xs ≡ none → All (λ y. p y ≡ false) xs)
          → (if b then some x else find p xs) ≡ none
          → (p x ≡ false) × All (λ y. p y ≡ false) xs
      go true e rest h = cc
      go false e rest h = (e, rest h)
