-- ===== src/Prelude/Runs.antt =====
-- What a run of C code may come to.
use mathlib.Core.Path.{◌≡◌, refl}
use mathlib.Core.Bool.{Bool, true, false}
use so_realtime.Prelude.Tests.{if◌then◌else◌}
use mathlib.Core.Option.{Option, none, some}

-- `fault` is an access through a null pointer or out of an array; `timeout` means that the fuel of
-- a loop ran out.
pub data Outcome {ℓ} (A : Type ℓ) : Type ℓ where
  done : A → Outcome A
  fault : Outcome A
  timeout : Outcome A

infixl 5 ◌>>=◌
abbrev pub ◌>>=◌ {ℓ κ} : {A : Type ℓ} {B : Type κ} → Outcome A → (A → Outcome B) → Outcome B
done a >>= f = f a
fault >>= f = fault
timeout >>= f = timeout

-- A bind that succeeds ran its first part successfully.
pub >>=-eq-done {ℓ κ} :
    {A : Type ℓ} {B : Type κ} (m : Outcome A) (f : A → Outcome B) {b : B}
    → (m >>= f) ≡ done b
    → (a : A) × (m ≡ done a) × (f a ≡ done b)
>>=-eq-done (done a) f h = (a, refl, h)
>>=-eq-done fault f h = cc
>>=-eq-done timeout f h = cc

-- The run succeeds, and its value satisfies the predicate.
abbrev pub Ensures {ℓ} : {A : Type ℓ} → (A → Type 0) → Outcome A → Type 0
Ensures P (done a) = P a
Ensures P fault = ⊥
Ensures P timeout = ⊥

-- The predicate holds of what an option holds.
abbrev pub OnSome {ℓ} : {A : Type ℓ} → (A → Type 0) → Option A → Type 0
OnSome P none = Unit
OnSome P (some a) = P a

pub Ensures-value {ℓ} :
    {A : Type ℓ} (P : A → Type 0) (m : Outcome A) → Ensures P m → (a : A) × (m ≡ done a) × P a
Ensures-value P (done a) h = (a, refl, h)
Ensures-value P fault h = absurd h
Ensures-value P timeout h = absurd h

pub Ensures-map {ℓ} :
    {A : Type ℓ} (P Q : A → Type 0) (m : Outcome A)
    → ((a : A) → P a → Q a)
    → Ensures P m
    → Ensures Q m
Ensures-map P Q (done a) f h = f a h
Ensures-map P Q fault f h = h
Ensures-map P Q timeout f h = h

pub Ensures-both {ℓ} :
    {A : Type ℓ} (P Q : A → Type 0) (m : Outcome A)
    → Ensures P m
    → Ensures Q m
    → Ensures (λ a. P a × Q a) m
Ensures-both P Q (done a) h k = (h, k)
Ensures-both P Q fault h k = h
Ensures-both P Q timeout h k = h

-- The rule for a bind.
pub Ensures-bind {ℓ κ} :
    {A : Type ℓ} {B : Type κ} (P : A → Type 0) (Q : B → Type 0) (m : Outcome A) (f : A → Outcome B)
    → ((a : A) → P a → Ensures Q (f a))
    → Ensures P m
    → Ensures Q (m >>= f)
Ensures-bind P Q (done a) f keep h = keep a h
Ensures-bind P Q fault f keep h = h
Ensures-bind P Q timeout f keep h = h

-- The run ends, and if it does not fault, its value satisfies the predicate.
abbrev pub UnlessFault {ℓ} : {A : Type ℓ} → (A → Type 0) → Outcome A → Type 0
UnlessFault P (done a) = P a
UnlessFault P fault = Unit
UnlessFault P timeout = ⊥

pub UnlessFault-bind {ℓ κ} :
    {A : Type ℓ} {B : Type κ} (P : A → Type 0) (Q : B → Type 0) (m : Outcome A) (f : A → Outcome B)
    → ((a : A) → P a → UnlessFault Q (f a))
    → UnlessFault P m
    → UnlessFault Q (m >>= f)
UnlessFault-bind P Q (done a) f keep h = keep a h
UnlessFault-bind P Q fault f keep h = h
UnlessFault-bind P Q timeout f keep h = h

pub Ensures-of_both {ℓ} :
    {A : Type ℓ} (P : A → Type 0) (m : Outcome A)
    → UnlessFault P m
    → Ensures (λ _. Unit {0}) m
    → Ensures P m
Ensures-of_both P (done a) h k = h
Ensures-of_both P fault h k = absurd k
Ensures-of_both P timeout h k = h

-- The run comes to no value.
abbrev pub Fails {ℓ} : {A : Type ℓ} → Outcome A → Type 0
Fails (done a) = ⊥
Fails fault = Unit
Fails timeout = Unit

pub Fails-bind_all {ℓ κ} :
    {A : Type ℓ} {B : Type κ} (m : Outcome A) (f : A → Outcome B)
    → ((a : A) → Fails (f a))
    → Fails (m >>= f)
Fails-bind_all (done a) f h = h a
Fails-bind_all fault f h = tt
Fails-bind_all timeout f h = tt

pub Fails-bind {ℓ κ} :
    {A : Type ℓ} {B : Type κ} (m : Outcome A) (f : A → Outcome B) → Fails m → Fails (m >>= f)
Fails-bind (done a) f h = absurd h
Fails-bind fault f h = tt
Fails-bind timeout f h = tt

pub UnlessFault-map {ℓ} :
    {A : Type ℓ} (P Q : A → Type 0) (m : Outcome A)
    → ((a : A) → P a → Q a)
    → UnlessFault P m
    → UnlessFault Q m
UnlessFault-map P Q (done a) f h = f a h
UnlessFault-map P Q fault f h = h
UnlessFault-map P Q timeout f h = h

-- The rule for a test.
pub UnlessFault-if {ℓ} :
    {A : Type ℓ} (P : A → Type 0) (test : Bool) (a b : Outcome A)
    → (test ≡ true → UnlessFault P a)
    → (test ≡ false → UnlessFault P b)
    → UnlessFault P (if test then a else b)
UnlessFault-if P true a b h k = h refl
UnlessFault-if P false a b h k = k refl
