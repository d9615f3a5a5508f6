-- ===== src/Crypto/Xor.antt =====
-- binary_string_xor of src/crypto/crypto_basic.hpp, and the laws of the octets' xor.
use galaxy.Prelude.{
  ℕ, zero, suc, ◌+◌, ◌*◌, ◌/◌, ◌%◌, ◌^◌, ◌<◌, ◌≡◌, refl, [], ◌∷◌, ◌==◌, if◌then◌else◌, length,
  arith, All,
}
use galaxy.Outcome.{runtime_error}
use galaxy.Try.{Try, value, throws}
use galaxy.Serialize.Generator.{Str}

-- The xor of the lowest `bits` bits.
unfoldable pub xor_bits : ℕ → ℕ → ℕ → ℕ
xor_bits zero a b = 0
xor_bits (suc bits) a b = (a + b) % 2 + 2 * xor_bits bits (a / 2) (b / 2)

-- operator^= of two chars.
abbrev pub octet_xor : ℕ → ℕ → ℕ
octet_xor a b = xor_bits 8 a b

-- The loop of binary_string_xor, on strings of the same size.
unfoldable pub xor_each : Str → Str → Str
xor_each [] t = []
xor_each (a ∷ s) [] = a ∷ s
xor_each (a ∷ s) (b ∷ t) = octet_xor a b ∷ xor_each s t

unfoldable pub binary_string_xor : Str → Str → Try Str
binary_string_xor str1 str2 =
    if length str1 == length str2 then value (xor_each str1 str2) else throws runtime_error

xor_bits_comm : (n a b : ℕ) → xor_bits n a b ≡ xor_bits n b a
unfolding xor_bits
xor_bits_comm zero a b = refl
xor_bits_comm (suc n) a b = omega (arith, xor_bits_comm n (a / 2) (b / 2))

-- The lowest bit and the rest of a xor.
xor_low : (n a b : ℕ) → xor_bits (suc n) a b % 2 ≡ (a + b) % 2
unfolding xor_bits
xor_low n a b = omega arith

xor_high : (n a b : ℕ) → xor_bits (suc n) a b / 2 ≡ xor_bits n (a / 2) (b / 2)
unfolding xor_bits
xor_high n a b = omega arith

-- A number is its half and its lowest bit.
same_halves : (m n : ℕ) → m / 2 ≡ n / 2 → m % 2 ≡ n % 2 → m ≡ n
same_halves m n h l = omega (arith, h, l)

xor_bits_assoc : (n a b c : ℕ) → xor_bits n (xor_bits n a b) c ≡ xor_bits n a (xor_bits n b c)
unfolding xor_bits
xor_bits_assoc zero a b c = omega arith
xor_bits_assoc (suc n) a b c =
    same_halves _ _
      (rw
        (
          xor_high n (xor_bits (suc n) a b) c,
          xor_high n a b,
          xor_high n a (xor_bits (suc n) b c),
          xor_high n b c,
        )
        (xor_bits_assoc n (a / 2) (b / 2) (c / 2)))
      (rw (xor_low n (xor_bits (suc n) a b) c, xor_low n a (xor_bits (suc n) b c))
        (omega (arith, xor_low n a b, xor_low n b c)))

xor_bits_zero : (n a : ℕ) → a < 2 ^ n → xor_bits n a 0 ≡ a
unfolding xor_bits
xor_bits_zero zero a h = omega (arith, h)
xor_bits_zero (suc n) a h = omega (arith, xor_bits_zero n (a / 2), h)

xor_bits_self : (n a : ℕ) → xor_bits n a a ≡ 0
unfolding xor_bits
xor_bits_self zero a = refl
xor_bits_self (suc n) a = omega (arith, xor_bits_self n (a / 2))

xor_bits_bound : (n a b : ℕ) → xor_bits n a b < 2 ^ n
unfolding xor_bits
xor_bits_bound zero a b = omega arith
xor_bits_bound (suc n) a b = omega (arith, xor_bits_bound n (a / 2) (b / 2))

pub length-xor_each : (s t : Str) → length (xor_each s t) ≡ length s
unfolding xor_each
length-xor_each [] t = refl
length-xor_each (a ∷ s) [] = refl
length-xor_each (a ∷ s) (b ∷ t) = omega (arith, length-xor_each s t)

-- Two strings can be mixed in either order.
pub xor_each_swap :
    (s t u : Str)
    → length t ≡ length s
    → length u ≡ length s
    → xor_each (xor_each s t) u ≡ xor_each (xor_each s u) t
unfolding xor_each
xor_each_swap [] t u h k = refl
xor_each_swap (a ∷ s) [] u h k = absurd (omega (arith, h))
xor_each_swap (a ∷ s) (b ∷ t) [] h k = absurd (omega (arith, k))
xor_each_swap (a ∷ s) (b ∷ t) (c ∷ u) h k = cc (
  xor_bits_assoc 8 a b c,
  xor_bits_comm 8 b c,
  xor_bits_assoc 8 a c b,
  xor_each_swap s t u (omega (arith, h)) (omega (arith, k)),
)

-- A string of octets that is mixed in twice cancels.
pub xor_each_twice :
    (s t : Str) → length t ≡ length s → All (λ b. b < 256) s → xor_each (xor_each s t) t ≡ s
unfolding xor_each
xor_each_twice [] t h o = refl
xor_each_twice (a ∷ s) [] h o = refl
xor_each_twice (a ∷ s) (b ∷ t) h (small, o) = cc (
  xor_bits_assoc 8 a b b,
  xor_bits_self 8 b,
  xor_bits_zero 8 a small,
  xor_each_twice s t (omega (arith, h)) o,
)

pub xor_each-octets : (s t : Str) → All (λ b. b < 256) s → All (λ b. b < 256) (xor_each s t)
unfolding xor_each
xor_each-octets [] t o = o
xor_each-octets (a ∷ s) [] o = o
xor_each-octets (a ∷ s) (b ∷ t) (small, o) = (xor_bits_bound 8 a b, xor_each-octets s t o)
