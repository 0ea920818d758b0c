-- ===== src/Prelude/Fallible.antt =====
-- Python's exceptions as values: a call returns, or raises one of the classes that the source names.
use mathlib.Core.Path.{◌≡◌, refl}
use mathlib.Core.Logic.{◌⊎◌, inl, inr}
use mathlib.Core.Bool.{Bool, true, false}

pub data Exception : Type 0 where
  value_error runtime_error type_error index_error key_error not_implemented_error
        zero_division_error attribute_error :
      Exception

pub data Result {ℓ} (A : Type ℓ) : Type ℓ where
  ok : A → Result A
  raised : Exception → Result A

infixl 5 ◌>>=◌ ◌>>◌
abbrev pub ◌>>=◌ {ℓ κ} : {A : Type ℓ} {B : Type κ} → Result A → (A → Result B) → Result B
raised e >>= rest = raised e
ok x >>= rest = rest x

-- A statement for its effect alone.
abbrev pub ◌>>◌ {κ} : {B : Type κ} → Result (Unit {0}) → Result B → Result B
first >> rest = first >>= λ done. rest

-- `if bad: raise e`
abbrev pub refuse_if : Bool → Exception → Result (Unit {0})
refuse_if true e = raised e
refuse_if false e = ok tt

pub ok_injective {ℓ} : {A : Type ℓ} (x y : A) → ok x ≡ ok y → x ≡ y
ok_injective x y h = cc

pub raised_injective {ℓ} :
    (A : Type ℓ) (x y : Exception) → ◌≡◌ {A = Result A} (raised x) (raised y) → x ≡ y
raised_injective A x y h = cc

pub Result-cases {ℓ} :
    {A : Type ℓ} (r : Result A) → ((x : A) × (r ≡ ok x)) ⊎ ((e : Exception) × (r ≡ raised e))
Result-cases (ok x) = inl (x, refl)
Result-cases (raised e) = inr (e, refl)

-- What returned has run both of its parts.
pub >>=-eq-ok {ℓ κ} :
    {A : Type ℓ} {B : Type κ} {y : B} (first : Result A) (rest : A → Result B)
    → (first >>= rest) ≡ ok y
    → (x : A) × (first ≡ ok x) × (rest x ≡ ok y)
>>=-eq-ok (raised e) rest run = cc
>>=-eq-ok (ok x) rest run = (x, refl, run)

-- A property of what a bind returns, from what its continuation returns.
pub >>=-returns {ℓ κ μ} :
    {A : Type ℓ} {B : Type κ} {Q : B → Type μ} (m : Result A) {f : A → Result B}
    → ((a : A) → m ≡ ok a → (b : B) → f a ≡ ok b → Q b)
    → (b : B) → (m >>= f) ≡ ok b
    → Q b
>>=-returns (ok a) k b h = k a refl b h
>>=-returns (raised e) k b h = cc
