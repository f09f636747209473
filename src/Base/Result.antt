-- ===== src/Base/Result.antt =====
-- Rust's `Result`, its `?` chains, and inversion of a successful chain.
use mathlib.Core.Path.{◌≡◌, refl}
use mathlib.Core.Option.{Option, none, some}
use mathlib.Core.Logic.{◌≢◌, ◌⊎◌, inl, inr}
use mathlib.Core.Bool.{Bool, true, false}

pub data Result {ℓ κ} (A : Type ℓ) (E : Type κ) : Type (ℓ ⊔ κ) where
  ok : A → Result A E
  err : E → Result A E

infixl 5 ◌>>=◌ ◌>>◌
abbrev pub ◌>>=◌ {ℓ κ ι} :
    {A : Type ℓ} {B : Type κ} {E : Type ι} → Result A E → (A → Result B E) → Result B E
ok a >>= f = f a
err e >>= f = err e

abbrev pub ◌>>◌ {ℓ κ} : {B : Type ℓ} {E : Type κ} → Result (Unit {0}) E → Result B E → Result B E
m >> k = m >>= λ _. k

-- `ok_or`.
abbrev pub ok_or {ℓ κ} : {A : Type ℓ} {E : Type κ} → Option A → E → Result A E
ok_or none e = err e
ok_or (some a) e = ok a

abbrev pub is_ok {ℓ κ} : {A : Type ℓ} {E : Type κ} → Result A E → Bool
is_ok (ok a) = true
is_ok (err e) = false

-- A chain that succeeds has a first result that does, and the rest succeeds on its value.
pub >>=-eq-ok {ℓ κ ι} :
    {A : Type ℓ} {B : Type κ} {E : Type ι} {b : B} (r : Result A E) (next : A → Result B E)
    → (r >>= next) ≡ ok b
    → (x : A) × (r ≡ ok x) × (next x ≡ ok b)
>>=-eq-ok (ok x) next done = (x, refl, done)
>>=-eq-ok (err _) next done = cc

-- The same where the first step gives nothing.
pub >>-eq-ok {ℓ κ} :
    {B : Type ℓ} {E : Type κ} {b : B} (r : Result (Unit {0}) E) (next : Result B E)
    → (r >> next) ≡ ok b
    → (r ≡ ok tt) × (next ≡ ok b)
>>-eq-ok (ok tt) next done = (refl, done)
>>-eq-ok (err _) next done = cc

-- A chain that fails fails in its first step or in the rest.
pub >>=-eq-err {ℓ κ ι} :
    {A : Type ℓ} {B : Type κ} {E : Type ι} {e : E} (r : Result A E) (next : A → Result B E)
    → (r >>= next) ≡ err e
    → (r ≡ err e) ⊎ ((x : A) × (r ≡ ok x) × (next x ≡ err e))
>>=-eq-err (ok x) next failed = inr (x, refl, failed)
>>=-eq-err (err _) next failed = inl (cc)

pub err-injective {ℓ κ} :
    {A : Type ℓ} {E : Type κ} {a b : E} → ◌≡◌ {A = Result A E} (err a) (err b) → a ≡ b
err-injective h = cc

pub ok-ne-err {ℓ κ} :
    {A : Type ℓ} {E : Type κ} {a : A} {e : E} → ◌≢◌ {A = Result A E} (ok a) (err e)
ok-ne-err h = cc

pub Result-cases {ℓ κ} :
    {A : Type ℓ} {E : Type κ} (r : Result A E) → ((a : A) × (r ≡ ok a)) ⊎ ((e : E) × (r ≡ err e))
Result-cases (ok a) = inl (a, refl)
Result-cases (err e) = inr (e, refl)

pub >>=-pure {ℓ κ} : {A : Type ℓ} {E : Type κ} (r : Result A E) → (r >>= λ a. ok a) ≡ r
>>=-pure (ok a) = refl
>>=-pure (err e) = refl
