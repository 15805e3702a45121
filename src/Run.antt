-- ===== src/Run.antt =====
-- What a call of the program comes to: a value, or the fault that stops it. Shared by the models of
-- event.cpp, lock.hpp, locked-map.hpp, vehicle.cpp and of the parts.
use donkeycar_gt.Prelude.{◌≡◌, refl, ap, Bool, true, false, ◌⊎◌, inl, inr, Option, none, some}

-- `assert_failed` is an abort of a build with assertions; `overflow`, `null_deref` and `dangling` are
-- undefined behaviour; `blocks` is a call that has not returned, as it waits for a mutex; `exits` is a
-- call of `exit`; the others are C++ exceptions.
pub data Fault : Type 0 where
  assert_failed overflow null_deref dangling blocks exits out_of_range invalid_argument cv_error :
      Fault

pub data Run {ℓ} (A : Type ℓ) : Type ℓ where
  ok : A → Run A
  fault : Fault → Run A

infixl 5 ◌>>=◌ ◌>>◌
abbrev pub ◌>>=◌ {ℓ κ} : {X : Type ℓ} {Y : Type κ} (r : Run X) (next : X → Run Y) → Run Y
fault e >>= next = fault e
ok x >>= next = next x

abbrev pub ◌>>◌ {ℓ} : {Y : Type ℓ} (r : Run (Unit {0})) (next : Run Y) → Run Y
r >> next = r >>= λ _. next

abbrev pub require : Bool → Fault → Run (Unit {0})
require true e = ok tt
require false e = fault e

-- `assert (c)`: with `NDEBUG` it does nothing.
abbrev pub assert : Bool → Bool → Run (Unit {0})
assert true c = require c assert_failed
assert false c = ok tt

-- A dereference, or a container's element, that may be absent.
abbrev pub the {ℓ} : {A : Type ℓ} → Option A → Fault → Run A
the none e = fault e
the (some a) e = ok a

-- What a chain that came to a value has gone through.
pub >>=-eq-ok {ℓ κ} :
    {X : Type ℓ} {Y : Type κ} (r : Run X) (next : X → Run Y) {y : Y}
    → (r >>= next) ≡ ok y
    → (x : X) × (r ≡ ok x) × (next x ≡ ok y)
>>=-eq-ok (fault e) next reached = cc
>>=-eq-ok (ok x) next reached = (x, refl, reached)

pub >>=_assoc {ℓ κ ι} :
    {X : Type ℓ} {Y : Type κ} {Z : Type ι} (r : Run X) (f : X → Run Y) (g : Y → Run Z)
    → ((r >>= f) >>= g) ≡ (r >>= λ x. f x >>= g)
>>=_assoc (ok x) f g = refl
>>=_assoc (fault e) f g = refl

pub >>=_cong {ℓ κ} :
    {X : Type ℓ} {Y : Type κ} (r : Run X) (f g : X → Run Y)
    → ((x : X) → f x ≡ g x)
    → (r >>= f) ≡ (r >>= g)
>>=_cong (ok x) f g same = same x
>>=_cong (fault e) f g same = refl

pub Run-cases {ℓ} :
    {A : Type ℓ} (m : Run A) → ((a : A) × (m ≡ ok a)) ⊎ ((e : Fault) × (m ≡ fault e))
Run-cases (ok a) = inl (a, refl)
Run-cases (fault e) = inr (e, refl)

pub assert-true : (debug : Bool) → assert debug true ≡ ok tt
assert-true true = refl
assert-true false = refl

abbrev ok_or {ℓ} : {A : Type ℓ} → A → Run A → A
ok_or d (ok a) = a
ok_or d (fault e) = d

pub ok-injective {ℓ} : {A : Type ℓ} (a b : A) → ok a ≡ ok b → a ≡ b
ok-injective a b e = ap (ok_or a) e

pub the-eq-ok {ℓ} : {A : Type ℓ} (o : Option A) (e : Fault) {a : A} → the o e ≡ ok a → o ≡ some a
the-eq-ok none e h = cc
the-eq-ok (some b) e {a} h = ap some (ok-injective b a h)
