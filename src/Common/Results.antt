-- ===== src/Common/Results.antt =====
-- Errors of the services as values: the codes of `AppError`, without their messages.
use mathlib.Core.Bool.{Bool, true, false}
use mathlib.Core.Option.{Option, none, some}
use mathlib.Core.Path.{◌≡◌, refl}
use mathlib.Core.Logic.{◌⊎◌, inl, inr}

pub data Error : Type 0 where
  forbidden not_found conflict validation_failed session_not_running : Error
  attempt_already_submitted attempt_expired language_not_allowed rate_limited internal : Error

pub data Result {ℓ} (A : Type ℓ) : Type ℓ where
  ok : A → Result A
  err : Error → Result A

infixl 5 ◌>>=◌ ◌>>◌
abbrev pub ◌>>=◌ {ℓ κ} : {A : Type ℓ} {B : Type κ} → Result A → (A → Result B) → Result B
ok a >>= f = f a
err e >>= f = err e

abbrev pub ◌>>◌ {ℓ κ} : {A : Type ℓ} {B : Type κ} → Result A → Result B → Result B
m >> k = m >>= λ _. k

-- `if (bad) throw new AppError(e)`
abbrev pub refuse_if : Bool → Error → Result (Unit {0})
refuse_if true e = err e
refuse_if false _ = ok tt

-- `if (row === null) throw new AppError(e)`
abbrev pub or_refuse {ℓ} : {A : Type ℓ} → Option A → Error → Result A
or_refuse none e = err e
or_refuse (some a) _ = ok a

pub Result-cases {ℓ} :
    {A : Type ℓ} (r : Result A) → ((e : Error) × (r ≡ err e)) ⊎ ((a : A) × (r ≡ ok a))
Result-cases (err e) = inl (e, refl)
Result-cases (ok a) = inr (a, refl)

-- What a chain that answers has answered on its way.
pub bind-ok {ℓ κ} :
    {A : Type ℓ} {B : Type κ} (m : Result A) {f : A → Result B} {b : B}
    → m >>= f ≡ ok b
    → (a : A) × (m ≡ ok a) × (f a ≡ ok b)
bind-ok (ok a) h = (a, refl, h)
bind-ok (err e) h = absurd (cc)

pub refuse_if-ok : (b : Bool) (e : Error) → refuse_if b e ≡ ok tt → b ≡ false
refuse_if-ok true e h = absurd (cc)
refuse_if-ok false e h = refl

pub or_refuse-ok {ℓ} :
    {A : Type ℓ} (o : Option A) (e : Error) {a : A} → or_refuse o e ≡ ok a → o ≡ some a
or_refuse-ok none e h = absurd (cc)
or_refuse-ok (some b) e h = cc
