-- ===== src/Base/Abort.antt =====
-- The outcome of code that may abort: a failed CHECK (or GHOST_ERROR) ends the process, and an
-- access that C++ leaves undefined is a fault of its own.
use mathlib.Core.Path.{◌≡◌, refl}
use mathlib.Core.Bool.{Bool, true, false}
use mathlib.Core.Option.{Option, none, some}

pub data Outcome {ℓ} (A : Type ℓ) : Type ℓ where
  ok : A → Outcome A
  check_failed : Outcome A
  bad_access : Outcome A

abbrev pub ◌>>=◌ {ℓ κ} :
    {Before : Type ℓ} {After : Type κ} → Outcome Before → (Before → Outcome After) → Outcome After
check_failed >>= next = check_failed
bad_access >>= next = bad_access
ok value >>= next = next value

abbrev pub ◌>>◌ {ℓ} : {After : Type ℓ} → Outcome (Unit {0}) → Outcome After → Outcome After
first >> second = first >>= λ _. second

infixl 5 ◌>>=◌ ◌>>◌
-- CHECK(b).
abbrev pub check : Bool → Outcome (Unit {0})
check true = ok tt
check false = check_failed

-- A read through a pointer.
abbrev pub deref {ℓ} : {A : Type ℓ} → Option A → Outcome A
deref none = bad_access
deref (some a) = ok a

-- The code returns, and what it returns satisfies P.
abbrev pub Returns {ℓ} : {A : Type ℓ} → Outcome A → (A → Type 0) → Type 0
Returns (ok a) P = P a
Returns check_failed P = ⊥
Returns bad_access P = ⊥

pub Returns-bind {ℓ κ} :
    {A : Type ℓ} {B : Type κ} (m : Outcome A) (f : A → Outcome B) (P : A → Type 0) (Q : B → Type 0)
    → Returns m P
    → ((a : A) → m ≡ ok a → P a → Returns (f a) Q)
    → Returns (m >>= f) Q
Returns-bind (ok a) f P Q h k = k a refl h
Returns-bind check_failed f P Q h k = absurd h
Returns-bind bad_access f P Q h k = absurd h

pub Returns-map {ℓ} :
    {A : Type ℓ} (m : Outcome A) (P Q : A → Type 0)
    → Returns m P
    → ((a : A) → P a → Q a)
    → Returns m Q
Returns-map (ok a) P Q h k = k a h
Returns-map check_failed P Q h k = h
Returns-map bad_access P Q h k = h

-- If the code returns, what it returns satisfies P.
abbrev pub Yields {ℓ} : {A : Type ℓ} → Outcome A → (A → Type 0) → Type 0
Yields (ok a) P = P a
Yields check_failed P = Unit {0}
Yields bad_access P = Unit {0}

pub Yields-any {ℓ} : {A : Type ℓ} (m : Outcome A) → Yields m (λ _. Unit {0})
Yields-any (ok a) = tt
Yields-any check_failed = tt
Yields-any bad_access = tt

pub Yields-bind {ℓ κ} :
    {A : Type ℓ} {B : Type κ} (m : Outcome A) (f : A → Outcome B) (P : A → Type 0) (Q : B → Type 0)
    → Yields m P
    → ((a : A) → P a → Yields (f a) Q)
    → Yields (m >>= f) Q
Yields-bind (ok a) f P Q h k = k a h
Yields-bind check_failed f P Q h k = tt
Yields-bind bad_access f P Q h k = tt

pub Yields-map {ℓ} :
    {A : Type ℓ} (m : Outcome A) (P Q : A → Type 0)
    → Yields m P
    → ((a : A) → P a → Q a)
    → Yields m Q
Yields-map (ok a) P Q h k = k a h
Yields-map check_failed P Q h k = h
Yields-map bad_access P Q h k = h

pub Yields-check {ℓ} :
    {B : Type ℓ} (b : Bool) (m : Outcome B) (Q : B → Type 0)
    → (b ≡ true → Yields m Q)
    → Yields (check b >> m) Q
Yields-check true m Q k = k refl
Yields-check false m Q k = tt

pub Yields-deref {ℓ κ} :
    {A : Type ℓ} {B : Type κ} (o : Option A) (f : A → Outcome B) (Q : B → Type 0)
    → ((a : A) → o ≡ some a → Yields (f a) Q)
    → Yields (deref o >>= f) Q
Yields-deref none f Q k = tt
Yields-deref (some a) f Q k = k a refl

-- What is returned has what it is proved to have if it is returned.
pub Returns-Yields {ℓ} :
    {A : Type ℓ} (m : Outcome A) (P Q R : A → Type 0)
    → Returns m P
    → Yields m Q
    → ((a : A) → P a → Q a → R a)
    → Returns m R
Returns-Yields (ok a) P Q R h k f = f a h k
Returns-Yields check_failed P Q R h k f = h
Returns-Yields bad_access P Q R h k f = h

-- What is proved of the value that is returned holds if it is returned.
pub Yields-also {ℓ} :
    {A : Type ℓ} (m : Outcome A) (P Q : A → Type 0)
    → Returns m P
    → Yields m Q
    → Yields m (λ a. P a × Q a)
Yields-also (ok a) P Q h k = (h, k)
Yields-also check_failed P Q h k = tt
Yields-also bad_access P Q h k = tt

pub Yields-both {ℓ} :
    {A : Type ℓ} (m : Outcome A) (P Q : A → Type 0)
    → Yields m P
    → Yields m Q
    → Yields m (λ a. P a × Q a)
Yields-both (ok a) P Q h k = (h, k)
Yields-both check_failed P Q h k = tt
Yields-both bad_access P Q h k = tt
