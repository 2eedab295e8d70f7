-- ===== src/Base/Outcomes.antt =====
-- What a call that may fail an `assert` comes to: it returns, or the program stops.
use mathlib.Core.Path.{◌≡◌, refl}
use mathlib.Core.Bool.{Bool, true, false}
use mathlib.Core.Option.{Option, none, some}

-- `stop` is a failed `assert`, a `PANIC` or a trap.
pub data Outcome {ℓ} (A : Type ℓ) : Type ℓ where
  ok : A → Outcome A
  stop : Outcome A

infixl 5 ◌>>=◌ ◌>>◌
abbrev pub ◌>>=◌ {ℓ κ} : {A : Type ℓ} {B : Type κ} → Outcome A → (A → Outcome B) → Outcome B
ok a >>= f = f a
stop >>= f = stop

abbrev pub ◌>>◌ {ℓ} : {B : Type ℓ} → Outcome (Unit {0}) → Outcome B → Outcome B
m >> k = m >>= λ _. k

abbrev pub check : Bool → Outcome (Unit {0})
check true = ok tt
check false = stop

-- A pointer that is asserted not to be null.
abbrev pub need {ℓ} : {A : Type ℓ} → Option A → Outcome A
need (some a) = ok a
need none = stop

-- A call that returns was reached through every call before it.
pub >>=-eq-ok {ℓ κ} :
    {A : Type ℓ} {B : Type κ} {b : B} (m : Outcome A) (f : A → Outcome B)
    → (m >>= f) ≡ ok b
    → (x : A) × (m ≡ ok x) × (f x ≡ ok b)
>>=-eq-ok stop f returns = cc
>>=-eq-ok (ok x) f returns = (x, refl, returns)

pub check-eq-ok : (b : Bool) {u : Unit {0}} → check b ≡ ok u → b ≡ true
check-eq-ok true h = refl
check-eq-ok false h = cc

pub some-inj {ℓ} : {A : Type ℓ} {a b : A} → some a ≡ some b → a ≡ b
some-inj h = cc

abbrev pub is_ok {ℓ} : {A : Type ℓ} → Outcome A → Bool
is_ok (ok _) = true
is_ok stop = false

pub ok_of {ℓ} : {A : Type ℓ} (m : Outcome A) → is_ok m ≡ true → (a : A) × (m ≡ ok a)
ok_of (ok a) h = (a, refl)
ok_of stop h = cc

pub is_ok->>= {ℓ κ} :
    {A : Type ℓ} {B : Type κ} (m : Outcome A) (f : A → Outcome B) (a : A)
    → m ≡ ok a
    → is_ok (f a) ≡ true
    → is_ok (m >>= f) ≡ true
is_ok->>= (ok b) f a e h = cc
is_ok->>= stop f a e h = cc

pub ok-inj {ℓ} : {A : Type ℓ} {a b : A} → ok a ≡ ok b → a ≡ b
ok-inj h = cc

pub need-eq-ok {ℓ} : {A : Type ℓ} {o : Option A} {a : A} → need o ≡ ok a → o ≡ some a
need-eq-ok {o = none} h = cc
need-eq-ok {o = some b} h = cc
