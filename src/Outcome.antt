-- ===== src/Outcome.antt =====
-- What a C++ call leaves behind: a value or the exception thrown, and in both cases the object it
-- worked on. The exception types are those of src/trivialserialize.hpp, src/utils/check.hpp and the
-- standard ones that the modelled code throws; `assert_abort` is a failed assert (the CMake file
-- removes NDEBUG from every build type, so asserts are always on) and `undefined_behaviour` a read or
-- write outside an object.
use galaxy.Prelude.{◌≡◌, refl, ◌⊎◌, inl, inr, Bool, true, false, arith}

pub data Error : Type 0 where
  format_error_read format_error_read_badformat format_error_read_delimiter : Error
  format_error_write_value_too_big format_error_read_invalid_version : Error
  invalid_argument invalid_argument_in_version runtime_error out_of_range range_error : Error
  err_check_prog err_check_input expected_not_found : Error
  assert_abort undefined_behaviour : Error

pub data Outcome (S A : Type 0) : Type 0 where
  ok : A → S → Outcome S A
  err : Error → S → Outcome S A

-- A method of an object whose state is an `S`. What was changed before an exception stays changed.
abbrev pub M : Type 0 → Type 0 → Type 0
M S A = S → Outcome S A

infixl 5 ◌>>=◌ ◌>>◌
abbrev pub ◌>>=◌ : {S A B : Type 0} → M S A → (A → M S B) → M S B
◌>>=◌ m f s = elim (m s) [ ok a s' ↦ f a s' | err e s' ↦ err e s' ]

abbrev pub ◌>>◌ : {S A B : Type 0} → M S A → M S B → M S B
m >> k = m >>= λ _. k

abbrev pub return : {S A : Type 0} → A → M S A
return a s = ok a s

abbrev pub throw : {S A : Type 0} → Error → M S A
throw e s = err e s

abbrev pub check : {S : Type 0} → Bool → Error → M S (Unit {0})
check true e s = ok tt s
check false e s = err e s

-- A successful run splits at any bind.
pub bind_ok :
    {S A B : Type 0} (m : M S A) (f : A → M S B) (s : S) {a : A} {s' : S}
    → m s ≡ ok a s'
    → (m >>= f) s ≡ f a s'
bind_ok m f s e = cc e

-- An exception passes through the rest of a block.
pub bind_err :
    {S A B : Type 0} (m : M S A) (f : A → M S B) (s : S) {e : Error} {s' : S}
    → m s ≡ err e s'
    → (m >>= f) s ≡ err e s'
bind_err m f s e = cc e

pub Outcome-cases :
    {S A : Type 0} (o : Outcome S A)
    → ((a : A) × (s : S) × (o ≡ ok a s)) ⊎ ((e : Error) × (s : S) × (o ≡ err e s))
Outcome-cases (ok a s) = inl (a, s, refl)
Outcome-cases (err e s) = inr (e, s, refl)

-- Both parts of a block that succeeds have succeeded.
pub bind_inversion :
    {S A B : Type 0} (m : M S A) (f : A → M S B) (s : S) {b : B} {s' : S}
    → (m >>= f) s ≡ ok b s'
    → (a : A) × (between : S) × (m s ≡ ok a between) × (f a between ≡ ok b s')
bind_inversion m f s h = elim (Outcome-cases (m s)) [
  | inl (a, between, e) ↦ (a, between, e, ground (arith, e, h))
  | inr (x, between, e) ↦ absurd (ground (arith, e, h))
]
