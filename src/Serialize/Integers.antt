-- ===== src/Serialize/Integers.antt =====
-- The integers of class generator and class parser, against a plain description of the format.
use native.Mathlib.Nat.{
  pow-suc, div-add-mod, div-div-eq-div-mul, mul-div-le, mod-eq_of_lt, mul_comm, pow-le-pow_right,
}
use native.Mathlib.Numerals.{towards_suc}
use galaxy.Prelude.{
  ℕ, zero, suc, ◌+◌, ◌-◌, ◌*◌, ◌/◌, ◌%◌, ◌^◌, ◌≤◌, ◌<◌, ◌≡◌, refl, sym, ap, ◌∙◌, [], ◌∷◌, ◌++◌,
  append_assoc, append-nil, ltb, leb, if◌then◌else◌, length, arith,
}
use galaxy.Outcome.{ok, err, format_error_write_value_too_big}
use galaxy.Serialize.Generator.{Str, push_octets, push_integer_u, get_max_value_of_S_octet_uint}
use galaxy.Serialize.Parser.{pop_octets, pop_integer_u}

-- The `k` octets of a number, the most significant first.
unfoldable pub octets : ℕ → ℕ → Str
octets zero value = []
octets (suc k) value = (value / 256 ^ k % 256) ∷ octets k value

pow_bits : (k : ℕ) → 2 ^ (k * 8) ≡ 256 ^ k
pow_bits zero = refl
pow_bits (suc k) =
    let step : 2 ^ (k * 8 + 8) ≡ 2 ^ (k * 8) * 256 = simp towards_suc (omega arith) in
    ap (λ n. 2 ^ n) (omega arith) ∙ step ∙ ap (λ n. n * 256) (pow_bits k) ∙ sym (pow-suc 256 k)

pub length-octets : (k value : ℕ) → length (octets k value) ≡ k
unfolding octets
length-octets zero value = refl
length-octets (suc k) value = ap suc (length-octets k value)

pow_shift : (k : ℕ) → 256 ^ suc k / 256 ≡ 256 ^ k
pow_shift k = omega (arith, pow-suc 256 k)

push_octets-octets :
    (k value : ℕ) (s : Str) → push_octets k value (256 ^ k / 256) s ≡ ok tt (s ++ octets k value)
unfolding push_octets octets
push_octets-octets zero value s = rw append-nil
push_octets-octets (suc k) value s =
    let top : ℕ = value / 256 ^ k % 256 in
    rw pow_shift (
      push_octets-octets k value (s ++ (top ∷ []))
      ∙ ap (ok tt) (append_assoc s (top ∷ []) (octets k value)))

shift_down : (k : ℕ) → 0 < k → 2 ^ ((k - 1) * 8) ≡ 256 ^ k / 256
shift_down zero h = elim h [ ]
shift_down (suc k) h = ap (λ n. 2 ^ (n * 8)) (omega arith) ∙ pow_bits k ∙ sym (pow_shift k)

max_value : (s : ℕ) → 0 < s → s ≤ 8 → get_max_value_of_S_octet_uint s ≡ 256 ^ s - 1
unfolding get_max_value_of_S_octet_uint
max_value (suc zero) h k = refl
max_value (suc (suc zero)) h k = refl
max_value (suc (suc (suc zero))) h k = refl
max_value (suc (suc (suc (suc zero)))) h k = refl
max_value (suc (suc (suc (suc (suc zero))))) h k = refl
max_value (suc (suc (suc (suc (suc (suc zero)))))) h k = refl
max_value (suc (suc (suc (suc (suc (suc (suc zero))))))) h k = refl
max_value (suc (suc (suc (suc (suc (suc (suc (suc zero)))))))) h k = refl
max_value (suc (suc (suc (suc (suc (suc (suc (suc (suc s))))))))) h k = absurd (omega arith)
max_value zero h k = absurd (omega arith)

flip_guard :
    {A : Type 0} (limit value : ℕ) (x y : A)
    → (if leb limit value then y else x) ≡ (if ltb value limit then x else y)
flip_guard limit value x y = ground arith

max_of_eight : (s : ℕ) → s ≡ 8 → 256 ^ s - 1 ≡ 0xffff_ffff_ffff_ffff
max_of_eight s e = rw e

-- push_integer_u<S> on every value: it appends the S octets of a value below 256 ^ S - 1, and
-- throws with nothing written on any other.
pub push_integer_u-octets :
    (s value : ℕ) (m_str : Str)
    → 0 < s
    → s ≤ 8
    → push_integer_u s value m_str ≡ (
        if ltb value (256 ^ s - 1)
        then ok tt (m_str ++ octets s value)
        else err format_error_write_value_too_big m_str)
unfolding push_integer_u
push_integer_u-octets s value m_str h k =
    let written =
      ap (λ d. push_octets s value d m_str) (shift_down s h) ∙ push_octets-octets s value m_str in
    ground (arith, written, max_value s h k, max_of_eight s)

partial_sum :
    (k value : ℕ)
    → value / 256 ^ suc k * 256 ^ suc k + value / 256 ^ k % 256 * 256 ^ k
      ≡ value / 256 ^ k * 256 ^ k
partial_sum k value =
    let q : ℕ = value / 256 ^ k in
    let p : ℕ = 256 ^ k in
    rw (pow-suc 256 k, ← div-div-eq-div-mul value (256 ^ k) 256)
      (omega (arith, ap (λ (t : ℕ). t * p) (div-add-mod q 256)))

-- The sum after one more round wraps around neither uint64_t nor T.
next_sum :
    (modulus k value : ℕ)
    → value < 2 ^ 64
    → value < modulus
    → (value / 256 ^ suc k * 256 ^ suc k + value / 256 ^ k % 256 * 256 ^ k % 2 ^ 64) % modulus
      ≡ value / 256 ^ k * 256 ^ k
next_sum modulus k value h64 hm =
    let whole = partial_sum k value in
    let below : value / 256 ^ k * 256 ^ k ≤ value = rw mul_comm (mul-div-le value (256 ^ k)) in
    let octet : value / 256 ^ k % 256 * 256 ^ k < 2 ^ 64 = omega (arith, whole, below) in
    rw (mod-eq_of_lt octet, whole) (mod-eq_of_lt (omega (arith, below)))

pop_octets-octets :
    (modulus k value : ℕ) (rest : Str)
    → value < 2 ^ 64
    → value < modulus
    → pop_octets modulus k (value / 256 ^ k * 256 ^ k) (256 ^ k / 256) (octets k value ++ rest)
      ≡ ok value rest
unfolding pop_octets octets
pop_octets-octets modulus zero value rest h64 hm = ap (λ v. ok v rest) (omega arith)
pop_octets-octets modulus (suc k) value rest h64 hm =
    rw (pow_shift, next_sum modulus k value h64 hm) (pop_octets-octets modulus k value rest h64 hm)

div_small : (value n : ℕ) → value < n → value / n * n ≡ 0
div_small value n h = grind arith

-- pop_integer_u<S,T> reads the S octets of any number that T can hold, and leaves what follows.
pub pop_integer_u-octets :
    (modulus s value : ℕ) (rest : Str)
    → 0 < s
    → value < 256 ^ s
    → value < 2 ^ 64
    → value < modulus
    → pop_integer_u modulus s (octets s value ++ rest) ≡ ok value rest
unfolding pop_integer_u
pop_integer_u-octets modulus s value rest pos fits h64 hm =
    rw (shift_down s pos, ← div_small value (256 ^ s) fits)
      (pop_octets-octets modulus s value rest h64 hm)

-- S octets are at most the 64 bits of a size_t.
pub pow_bound : (s : ℕ) → s ≤ 8 → 256 ^ s ≤ 2 ^ 64
pow_bound s h = pow-le-pow_right {n = 256} (omega arith) h
