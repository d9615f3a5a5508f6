-- ===== src/Try.antt =====
-- The result of a C++ function that keeps no state: a value, or the exception that it throws.
use galaxy.Prelude.{◌≡◌, refl, ◌⊎◌, inl, inr, Bool, true, false}
use galaxy.Outcome.{Error, M, ok, err}

pub data Try {ℓ} (A : Type ℓ) : Type ℓ where
  value : A → Try A
  throws : Error → Try A

infixl 5 ◌>>=◌ ◌>>◌
abbrev pub ◌>>=◌ {ℓ κ} : {A : Type ℓ} {B : Type κ} → Try A → (A → Try B) → Try B
value a >>= f = f a
throws e >>= f = throws e

abbrev pub ◌>>◌ {ℓ} : {B : Type ℓ} → Try (Unit {0}) → Try B → Try B
m >> k = m >>= λ _. k

abbrev pub check : Bool → Error → Try (Unit {0})
check true e = value tt
check false e = throws e

pub Try-cases {ℓ} :
    {A : Type ℓ} (t : Try A) → ((a : A) × (t ≡ value a)) ⊎ ((e : Error) × (t ≡ throws e))
Try-cases (value a) = inl (a, refl)
Try-cases (throws e) = inr (e, refl)

-- Both parts of a block that succeeds have succeeded.
pub bind_value {ℓ κ} :
    {A : Type ℓ} {B : Type κ} (m : Try A) (f : A → Try B) {b : B}
    → (m >>= f) ≡ value b
    → (a : A) × (m ≡ value a) × (f a ≡ value b)
bind_value (value a) f h = (a, refl, h)
bind_value (throws e) f h = cc

-- A stateless call within a method.
abbrev pub lift : {S A : Type 0} → Try A → M S A
lift (value a) s = ok a s
lift (throws e) s = err e s

pub lift_ok :
    {S A : Type 0} (t : Try A) (s : S) {a : A} {s' : S}
    → lift t s ≡ ok a s'
    → (t ≡ value a) × (s ≡ s')
lift_ok (value b) s h = (cc h, cc h)
lift_ok (throws e) s h = cc h
