-- ===== src/Stdplus/Eint/Compare.antt =====
-- The comparisons of src/stdplus/eint.hpp, between values of two integral types.
use galaxy.Prelude.{
  ℕ, ◌+◌, ◌-◌, ◌*◌, ◌%◌, ◌≡◌, Bool, true, false, not, ◌||◌, leb, ◌==◌, if◌then◌else◌, arith,
}
use galaxy.Stdplus.Eint.{ℤ, pos, negsuc, IntegralType, less, fits}

abbrev pub equal : ℤ → ℤ → Bool
equal (pos m) (pos n) = m == n
equal (pos m) (negsuc n) = false
equal (negsuc m) (pos n) = false
equal (negsuc m) (negsuc n) = m == n

-- The number of values of a type.
abbrev pub modulus : IntegralType → ℕ
modulus t = if t.is_signed then 2 * (t.max_value + 1) else t.max_value + 1

-- A number below the modulus, as two's complement where the type has a sign.
abbrev pub represented : IntegralType → ℕ → ℤ
represented t r = if leb r t.max_value then pos r else negsuc (modulus t - r - 1)

-- static_cast: a value that the type can not hold is taken modulo the number of its values. - (n + 1) is
-- modulus - 1 - n there.
abbrev pub static_cast : IntegralType → ℤ → ℤ
static_cast t (pos n) = if leb n t.max_value then pos n else represented t (n % modulus t)
static_cast t (negsuc n) =
    if fits t (negsuc n) then negsuc n else represented t (modulus t - 1 - n % modulus t)

-- A type has at least as many digits as another where its largest value is at least as large.
abbrev pub at_least_digits : IntegralType → IntegralType → Bool
at_least_digits t u = leb u.max_value t.max_value

-- The three overloads of eint_less, by the signs of the types.
unfoldable pub eint_less : IntegralType → IntegralType → ℤ → ℤ → Bool
eint_less ta tb a b =
    if ta.is_signed
    then (if tb.is_signed
        then less a b
        else if less a (pos 0)
        then true
        else if at_least_digits tb ta
        then less (static_cast tb a) b
        else less a (static_cast ta b))
    else if tb.is_signed
    then (if less b (pos 0)
        then false
        else if at_least_digits ta tb
        then less a (static_cast ta b)
        else less (static_cast tb a) b)
    else less a b

-- The three overloads of eint_equal.
unfoldable pub eint_equal : IntegralType → IntegralType → ℤ → ℤ → Bool
eint_equal ta tb a b =
    if ta.is_signed
    then (if tb.is_signed
        then equal a b
        else if less a (pos 0)
        then false
        else if at_least_digits tb ta
        then equal (static_cast tb a) b
        else equal a (static_cast ta b))
    else if tb.is_signed
    then (if less b (pos 0)
        then false
        else if at_least_digits ta tb
        then equal a (static_cast ta b)
        else equal (static_cast tb a) b)
    else equal a b

unfoldable pub eint_greater : IntegralType → IntegralType → ℤ → ℤ → Bool
eint_greater ta tb a b = not (eint_less ta tb a b || eint_equal ta tb a b)

eint_less_exact :
    (ta tb : IntegralType) (a b : ℤ)
    → fits ta a ≡ true
    → fits tb b ≡ true
    → eint_less ta tb a b ≡ less a b
unfolding eint_less
eint_less_exact ta tb (pos m) (pos n) h k = ground arith
eint_less_exact ta tb (pos m) (negsuc n) h k = ground arith
eint_less_exact ta tb (negsuc m) (pos n) h k = ground arith
eint_less_exact ta tb (negsuc m) (negsuc n) h k = ground arith

eint_equal_exact :
    (ta tb : IntegralType) (a b : ℤ)
    → fits ta a ≡ true
    → fits tb b ≡ true
    → eint_equal ta tb a b ≡ equal a b
unfolding eint_equal
eint_equal_exact ta tb (pos m) (pos n) h k = ground arith
eint_equal_exact ta tb (pos m) (negsuc n) h k = ground arith
eint_equal_exact ta tb (negsuc m) (pos n) h k = ground arith
eint_equal_exact ta tb (negsuc m) (negsuc n) h k = ground arith

not_at_most : (a b : ℤ) → not (less a b || equal a b) ≡ less b a
not_at_most (pos m) (pos n) = ground arith
not_at_most (pos m) (negsuc n) = ground arith
not_at_most (negsuc m) (pos n) = ground arith
not_at_most (negsuc m) (negsuc n) = ground arith

-- On values of any two integral types, signed or not, eint_less, eint_equal and eint_greater compare
-- the numbers themselves.
pub eint_compare_exact :
    (ta tb : IntegralType) (a b : ℤ)
    → fits ta a ≡ true
    → fits tb b ≡ true
    → (eint_less ta tb a b ≡ less a b)
      × (eint_equal ta tb a b ≡ equal a b)
      × (eint_greater ta tb a b ≡ less b a)
unfolding eint_greater
eint_compare_exact ta tb a b h k =
    let l = eint_less_exact ta tb a b h k in
    let e = eint_equal_exact ta tb a b h k in (l, e, rw (eint_greater, l, e) (not_at_most a b))
