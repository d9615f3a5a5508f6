-- ===== src/StdString.antt =====
-- std::string of the C++ library, as the octets of the string: find, at, substr, stoi, and the bounds
-- of src/utils/check.hpp on the size of a string.
pub mod Laws
use galaxy.Prelude.{
  ℕ, zero, suc, ◌+◌, ◌-◌, ◌*◌, ◌≡◌, Bool, true, false, not, ◌&&◌, ◌||◌, List, [], ◌∷◌, Option, none,
  some, ltb, leb, ◌==◌, if◌then◌else◌, length, get_elem?, drop, take,
}
use galaxy.Outcome.{out_of_range, invalid_argument, err_check_input}
use galaxy.Try.{Try, value, throws}

-- find of one character, with `none` for npos.
unfoldable pub find_char : ℕ → List ℕ → Option ℕ
find_char c [] = none
find_char c (b ∷ s) =
    let rest = find_char c s in
    if b == c then some 0 else elim rest [ none ↦ none | some i ↦ some (suc i) ]

-- find(c) != npos
unfoldable pub contains : ℕ → List ℕ → Bool
contains c s = elim (find_char c s) [ none ↦ false | some i ↦ true ]

unfoldable pub char_at : List ℕ → ℕ → Try ℕ
char_at s pos = elim (get_elem? s pos) [ none ↦ throws out_of_range | some c ↦ value c ]

-- substr(pos)
unfoldable pub substr_from : List ℕ → ℕ → Try (List ℕ)
substr_from s pos = if leb pos (length s) then value (drop pos s) else throws out_of_range

abbrev pub is_digit : ℕ → Bool
is_digit c = leb b'0' c && leb c b'9'

abbrev pub is_space : ℕ → Bool
is_space c = c == 32 || (leb 9 c && leb c 13)

abbrev pub skip_space : List ℕ → List ℕ
skip_space [] = []
skip_space (c ∷ s) = if is_space c then skip_space s else c ∷ s

-- The digits in front, on top of what was read before.
abbrev pub read_digits : ℕ → List ℕ → ℕ
read_digits acc [] = acc
read_digits acc (c ∷ s) = if is_digit c then read_digits (acc * 10 + (c - b'0')) s else acc

-- stoi without its sign: text without a digit in front is invalid_argument.
abbrev pub unsigned_text : List ℕ → Try ℕ
unsigned_text [] = throws invalid_argument
unsigned_text (c ∷ s) =
    if is_digit c then value (read_digits 0 (c ∷ s)) else throws invalid_argument

-- stoi for a caller that takes numbers from 1 up only: what is 0 or below is 0 here. An int ends at
-- 2 ^ 31 - 1.
unfoldable pub stoi_positive : List ℕ → Try ℕ
stoi_positive s = elim (skip_space s) [
  | [] ↦ throws invalid_argument
  | c ∷ rest ↦
      let minus = unsigned_text rest in
      if c == b'-'
      then elim minus [
        | throws e ↦ throws e
        | value n ↦ if leb n 0x8000_0000 then value 0 else throws out_of_range
      ]
      else elim (if c == b'+' then minus else unsigned_text (c ∷ rest)) [
        | throws e ↦ throws e
        | value n ↦ if leb n 0x7fff_ffff then value n else throws out_of_range
      ]
]

-- reasonable_size_limit_elements_divided_max
abbrev pub reasonable_size_limit : ℕ
reasonable_size_limit = 1000000

-- reasonable_size of a std::string.
unfoldable pub reasonable_size : List ℕ → Try (Unit {0})
reasonable_size s =
    if leb (length s) reasonable_size_limit then value tt else throws err_check_input
