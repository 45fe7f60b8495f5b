-- ===== src/Validate/Guards.antt =====
-- What a result or a test of the rules of validate.rs tells of its parts.
use waitprims.Prelude.{◌≡◌, refl, Bool, true, false, not, ◌&&◌, ◌||◌, if◌then◌else◌}
use waitprims.Core.Error.{Error, Result, ok, err}
use waitprims.Core.Error

pub bind_ok :
    {T U : Type 0} (m : Result T) {f : T → Result U} {y : U}
    → Error.◌>>=◌ m f ≡ ok y
    → (x : T) × ((m ≡ ok x) × (f x ≡ ok y))
bind_ok (ok x) h = (x, (refl, h))
bind_ok (err e) h = cc

pub unless_ok :
    {U : Type 0} (e : Error) (m : Result U) {y : U} (b : Bool)
    → (if b then err e else m) ≡ ok y
    → (b ≡ false) × (m ≡ ok y)
unless_ok e m true h = cc
unless_ok e m false h = (refl, h)

pub when_true :
    {A : Type 0} (x y : A) {z : A} (b : Bool) → b ≡ true → (if b then x else y) ≡ z → x ≡ z
when_true x y true p h = h
when_true x y false p h = cc

pub neither : (a b : Bool) → (a || b) ≡ false → (a ≡ false) × (b ≡ false)
neither true b h = cc
neither false b h = (refl, h)

pub unnot : (a : Bool) → not a ≡ false → a ≡ true
unnot true h = refl
unnot false h = cc

pub both : (a b : Bool) → (a && b) ≡ true → (a ≡ true) × (b ≡ true)
both true b h = (refl, h)
both false b h = cc

pub when_false :
    {A : Type 0} (x y : A) {z : A} (b : Bool) → b ≡ false → (if b then x else y) ≡ z → y ≡ z
when_false x y true p h = cc
when_false x y false p h = h

pub second : (a b : Bool) → a ≡ false → (a || b) ≡ true → b ≡ true
second true b n h = cc
second false b n h = h

pub guarded : (a b c : Bool) → (a && b && c) ≡ false → a ≡ true → b ≡ true → c ≡ false
guarded true true c h p q = h
guarded true false c h p q = cc
guarded false b c h p q = cc
