-- ===== src/Stdplus/Eint.antt =====
-- src/stdplus/eint.hpp: sums and differences that throw where the result does not fit, over integers
-- that are a sign and a size. No intermediate sum of the source leaves the type that C++ computes it in,
-- so these are exact here.
pub mod Compare
use galaxy.Prelude.{
  ℕ, zero, suc, ◌+◌, ◌-◌, ◌^◌, ◌≡◌, ◌≤◌, ◌<◌, Bool, true, false, ltb, leb, if◌then◌else◌, arith,
}
use galaxy.Outcome.{range_error}
use galaxy.Try.{Try, value, throws}

-- pos n is n, negsuc n is - (n + 1).
pub data ℤ : Type 0 where
  pos negsuc : ℕ → ℤ

-- An integral type by numeric_limits: whether it has a sign, and its largest value. The least value
-- is - (max_value + 1) with a sign and 0 without.
pub record IntegralType : Type 0 where
  pub is_signed : Bool
  pub max_value : ℕ

abbrev pub sub_nat : ℕ → ℕ → ℤ
sub_nat m n = if ltb m n then negsuc (n - m - 1) else pos (m - n)

infixl 6 ◌+ℤ◌
abbrev pub ◌+ℤ◌ : ℤ → ℤ → ℤ
pos m +ℤ pos n = pos (m + n)
pos m +ℤ negsuc n = sub_nat m (n + 1)
negsuc m +ℤ pos n = sub_nat n (m + 1)
negsuc m +ℤ negsuc n = negsuc (m + n + 1)

abbrev pub neg : ℤ → ℤ
neg (pos zero) = pos 0
neg (pos (suc n)) = negsuc n
neg (negsuc n) = pos (n + 1)

abbrev pub less : ℤ → ℤ → Bool
less (pos m) (pos n) = ltb m n
less (pos m) (negsuc n) = false
less (negsuc m) (pos n) = true
less (negsuc m) (negsuc n) = ltb n m

abbrev pub max_of : IntegralType → ℤ
max_of t = pos t.max_value

abbrev pub min_of : IntegralType → ℤ
min_of t = if t.is_signed then negsuc t.max_value else pos 0

-- The value can be held by the type.
abbrev pub fits : IntegralType → ℤ → Bool
fits t (pos n) = leb n t.max_value
fits t (negsuc n) = if t.is_signed then leb n t.max_value else false

unfoldable pub eint_plus : IntegralType → ℤ → ℤ → Try ℤ
eint_plus t a b =
    let is_overflow =
      if less (pos 0) a
      then less (max_of t +ℤ neg a) b
      else if less a (pos 0)
      then less b (min_of t +ℤ neg a)
      else false in
    if is_overflow then throws range_error else value (a +ℤ b)

unfoldable pub eint_minus : IntegralType → ℤ → ℤ → Try ℤ
eint_minus t a b =
    let is_overflow =
      if less b (pos 0)
      then less (max_of t +ℤ b) a
      else if less (pos 0) b
      then less a (min_of t +ℤ b)
      else false in
    if is_overflow then throws range_error else value (a +ℤ neg b)

eint_plus_exact :
    (t : IntegralType) (a b : ℤ)
    → fits t a ≡ true
    → fits t b ≡ true
    → eint_plus t a b ≡ (if fits t (a +ℤ b) then value (a +ℤ b) else throws range_error)
unfolding eint_plus
eint_plus_exact t (pos m) (pos n) h k = ground arith
eint_plus_exact t (pos m) (negsuc n) h k = ground arith
eint_plus_exact t (negsuc m) (pos n) h k = ground arith
eint_plus_exact t (negsuc m) (negsuc n) h k = ground arith

eint_minus_exact :
    (t : IntegralType) (a b : ℤ)
    → fits t a ≡ true
    → fits t b ≡ true
    → eint_minus t a b ≡ (if fits t (a +ℤ neg b) then value (a +ℤ neg b) else throws range_error)
unfolding eint_minus
eint_minus_exact t (pos m) (pos n) h k = ground arith
eint_minus_exact t (pos m) (negsuc n) h k = ground arith
eint_minus_exact t (negsuc m) (pos n) h k = ground arith
eint_minus_exact t (negsuc m) (negsuc n) h k = ground arith

-- On values of an integral type, signed or not, eint_plus gives the exact sum and eint_minus the exact
-- difference where the type can hold it, and a range_error where it can not.
pub eint_plus-eint_minus :
    (t : IntegralType) (a b : ℤ)
    → fits t a ≡ true
    → fits t b ≡ true
    → (eint_plus t a b ≡ (if fits t (a +ℤ b) then value (a +ℤ b) else throws range_error))
      × (eint_minus t a b
          ≡ (if fits t (a +ℤ neg b) then value (a +ℤ neg b) else throws range_error))
eint_plus-eint_minus t a b h k = (eint_plus_exact t a b h k, eint_minus_exact t a b h k)
