-- ===== src/Prelude/Maps.antt =====
-- std::collections::BTreeMap: an association list kept in the order of its keys.
use Prim.Native.Nat.{ℕ}
use Prim.Native.String.{String}
use Prim.Native.String
use mathlib.Core.Path.{◌≡◌, refl}
use mathlib.Core.Bool.{Bool}
use mathlib.Core.List.{List, [], ◌∷◌, map}
use mathlib.Core.Option.{Option, none, some}
use native.Mathlib.Omega.{arith}
use text.Mathlib.Text.{is_lt}
use waitprims.Prelude.Tests.{Eq, ℕ_eq, string_eq, ltb, if◌then◌else◌}

-- Rust's `Ord`, as far as the maps use it.
pub record Key {ℓ} (K : Type ℓ) : Type ℓ where
  pub eq : Eq K
  pub before : K → K → Bool

instance abbrev pub ℕ_key : Key ℕ
ℕ_key = record { eq = ℕ_eq; before = ltb }

instance abbrev pub string_key : Key String
string_key = record { eq = string_eq; before = λ a b. is_lt (String.compare a b) }

abbrev pub Map {ℓ κ} : Type ℓ → Type κ → Type (ℓ ⊔ κ)
Map K V = List (K × V)

module _ {ℓ κ} {K : Type ℓ} {V : Type κ} ⦃key : Key K⦄ where
  -- BTreeMap::get
  unfoldable pub lookup : K → Map K V → Option V
  lookup k [] = none
  lookup k ((j, v) ∷ m) = if key.eq.test j k then some v else lookup k m

  -- BTreeMap::insert
  unfoldable pub insert : K → V → Map K V → Map K V
  insert k v [] = (k, v) ∷ []
  insert k v ((j, w) ∷ m) =
      if key.eq.test j k
      then (k, v) ∷ m
      else if key.before k j
      then (k, v) ∷ (j, w) ∷ m
      else (j, w) ∷ insert k v m

  -- BTreeMap::remove, the map that is left.
  unfoldable pub remove : K → Map K V → Map K V
  remove k [] = []
  remove k ((j, v) ∷ m) = let rest = remove k m in if key.eq.test j k then m else (j, v) ∷ rest

  -- Iterator::collect into a map: a later entry replaces an earlier one.
  unfoldable pub collect : Map K V → List (K × V) → Map K V
  collect m [] = m
  collect m ((k, v) ∷ rest) = collect (insert k v m) rest

  pub lookup-insert :
      (k j : K) (v : V) (m : Map K V)
      → lookup j (insert k v m) ≡ (if key.eq.test k j then some v else lookup j m)
  unfolding lookup insert
  lookup-insert k j v [] = refl
  lookup-insert k j v ((i, w) ∷ m) =
      ground
        (arith, key.eq.decides k j, key.eq.decides i k, key.eq.decides i j, lookup-insert k j v m)

-- BTreeMap::into_values
abbrev pub values {ℓ κ} : {K : Type ℓ} {V : Type κ} → Map K V → List V
values m = map (λ e. e.1) m
