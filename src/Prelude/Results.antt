-- ===== src/Prelude/Results.antt =====
-- What a kernel routine comes to: a value, or a `panic`, which stops the machine.
use mathlib.Core.Path.{◌≡◌, refl, sym, subst}

pub data Result {ℓ} (A : Type ℓ) : Type ℓ where
  ok : A → Result A
  panic : Result A

infixl 5 ◌>>=◌ ◌>>◌
abbrev pub ◌>>=◌ {ℓ κ} : {A : Type ℓ} {B : Type κ} → Result A → (A → Result B) → Result B
ok a >>= f = f a
panic >>= f = panic

abbrev pub ◌>>◌ {ℓ κ} : {A : Type ℓ} {B : Type κ} → Result A → Result B → Result B
m >> k = m >>= λ _. k

-- The value of a routine that does not panic satisfies a predicate.
pub data Returns {ℓ κ} {A : Type ℓ} (P : A → Type κ) : Result A → Type (ℓ ⊔ κ) where
  returns : {a : A} → P a → Returns P (ok a)

pub Returns-bind {ℓ κ μ ν} :
    {A : Type ℓ} {B : Type κ} {P : A → Type μ} {Q : B → Type ν} {m : Result A} {f : A → Result B}
    → Returns P m
    → ((a : A) → P a → Returns Q (f a))
    → Returns Q (m >>= f)
Returns-bind (returns p) next = next _ p

pub Returns-map {ℓ κ μ} :
    {A : Type ℓ} {P : A → Type κ} {Q : A → Type μ} {m : Result A}
    → ((a : A) → P a → Q a)
    → Returns P m
    → Returns Q m
Returns-map f (returns p) = returns (f _ p)

pub Returns-value {ℓ κ} :
    {A : Type ℓ} {P : A → Type κ} {m : Result A} → Returns P m → (a : A) × (m ≡ ok a) × P a
Returns-value (returns p) = (_, refl, p)

-- A predicate on the value of a routine that returns.
abbrev pub Ensures {ℓ} : {A : Type 0} → (A → Type ℓ) → Result A → Type ℓ
Ensures P (ok a) = P a
Ensures P panic = Unit

pub Ensures-bind {ℓ} :
    {A B : Type 0} (P : B → Type ℓ) (m : Result A) (f : A → Result B)
    → ((a : A) → Ensures P (f a))
    → Ensures P (m >>= f)
Ensures-bind P (ok a) f h = h a
Ensures-bind P panic f h = tt

-- The routine returns.
abbrev pub IsOk : {A : Type 0} → Result A → Type 0
IsOk (ok a) = Unit
IsOk panic = ⊥

pub IsOk-bind :
    {A B : Type 0} (m : Result A) (f : A → Result B)
    → IsOk m
    → ((a : A) → IsOk (f a))
    → IsOk (m >>= f)
IsOk-bind (ok a) f h next = next a
IsOk-bind panic f h next = elim h [ ]

pub Returns-of_ok {ℓ} :
    {A : Type 0} (P : A → Type ℓ) (m : Result A) → Ensures P m → IsOk m → Returns P m
Returns-of_ok P (ok a) e h = returns e
Returns-of_ok P panic e h = elim h [ ]

pub Returns-of_eq {ℓ κ} :
    {A : Type ℓ} {P : A → Type κ} {m : Result A} {a : A} → m ≡ ok a → P a → Returns P m
Returns-of_eq {P} e p = subst (Returns P) (sym e) (returns p)
