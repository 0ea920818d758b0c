-- ===== src/Prelude/Methods.antt =====
-- Methods that change an object and may raise: what they return or raise, and the object after it.
use mathlib.Core.Path.{◌≡◌, refl}
use package.rola.Prelude.Fallible.{Exception, Result, ok, raised}

abbrev pub Exec {ℓ κ} : Type ℓ → Type κ → Type (ℓ ⊔ κ)
Exec S A = S → Result A × S

module _ {ℓ κ} {S : Type ℓ} {A : Type κ} where
  abbrev pub then_run {μ} : {B : Type μ} → Result A × S → (A → Exec S B) → Result B × S
  then_run (ok x, s) f = f x s
  then_run (raised e, s) f = (raised e, s)

  abbrev pub give : A → Exec S A
  give x s = (ok x, s)

  -- A call of a function that reads no object.
  abbrev pub lift : Result A → Exec S A
  lift r s = (r, s)

infixl 5 ◌>>=◌ ◌>>◌
abbrev pub ◌>>=◌ {ℓ κ μ} :
    {S : Type ℓ} {A : Type κ} {B : Type μ} → Exec S A → (A → Exec S B) → Exec S B
◌>>=◌ m f s = then_run (m s) f

abbrev pub ◌>>◌ {ℓ κ μ} : {S : Type ℓ} {A : Type κ} {B : Type μ} → Exec S A → Exec S B → Exec S B
m >> k = m >>= λ _. k

-- A statement that only changes the object.
abbrev pub modify {ℓ} : {S : Type ℓ} → (S → S) → Exec S (Unit {0})
modify f s = (ok tt, f s)

abbrev pub asks {ℓ κ} : {S : Type ℓ} {A : Type κ} → (S → A) → Exec S A
asks f s = (ok (f s), s)

-- What a method and its continuation each keep, their sequence keeps.
pub then_run-keeps {ℓ κ μ ν} :
    {S : Type ℓ} {A : Type κ} {B : Type μ} (I : S → Type ν) (out : Result A × S) (f : A → Exec S B)
    → I out.1
    → ((x : A) → out.0 ≡ ok x → I (f x out.1).1)
    → I (then_run out f).1
then_run-keeps I (ok x, s) f v k = k x refl
then_run-keeps I (raised e, s) f v k = v

-- What a sequence that raises leaves, from what each of its parts leaves when it raises.
pub then_run-raises {ℓ κ μ ν} :
    {S : Type ℓ} {A : Type κ} {B : Type μ} {e : Exception} (I : S → Type ν) (out : Result A × S)
    (f : A → Exec S B)
    → ((x : Exception) → out.0 ≡ raised x → I out.1)
    → ((x : A) → out.0 ≡ ok x → (f x out.1).0 ≡ raised e → I (f x out.1).1)
    → (then_run out f).0 ≡ raised e
    → I (then_run out f).1
then_run-raises I (ok x, s) f v k run = k x refl run
then_run-raises I (raised x, s) f v k run = v x refl

-- A sequence that returned has run both of its parts.
pub then_run-eq-ok {ℓ κ μ} :
    {S : Type ℓ} {A : Type κ} {B : Type μ} {y : B} {t : S} (out : Result A × S) (f : A → Exec S B)
    → then_run out f ≡ (ok y, t)
    → (x : A) × (out.0 ≡ ok x) × (f x out.1 ≡ (ok y, t))
then_run-eq-ok (ok x, s) f run = (x, refl, run)
then_run-eq-ok (raised e, s) f run = cc
