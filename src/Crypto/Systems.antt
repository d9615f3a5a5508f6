-- ===== src/Crypto/Systems.antt =====
-- src/crypto/crypto_basic.hpp and .cpp: the crypto systems as numbers and as one-character IDs, and
-- int_to_enum of src/stdplus/misc.hpp at that enum.
use galaxy.Prelude.{
  ℕ, ◌%◌, ◌<◌, ◌≡◌, Bool, true, false, ◌||◌, ◌&&◌, leb, ◌==◌, if◌then◌else◌, arith,
}
use galaxy.Outcome.{invalid_argument, expected_not_found}
use galaxy.Try.{Try, value, throws}

-- enum t_crypto_system_type, an unsigned char.
abbrev pub x25519 : ℕ
x25519 = 5

abbrev pub ed25519 : ℕ
ed25519 = 6

abbrev pub ntru_ees439ep1 : ℕ
ntru_ees439ep1 = 7

abbrev pub sidh : ℕ
sidh = 8

abbrev pub geport_todo : ℕ
geport_todo = 9

abbrev pub ntru_sign : ℕ
ntru_sign = 11

-- e_crypto_system_type_END, the size of the arrays that are indexed by a crypto system.
abbrev pub system_type_end : ℕ
system_type_end = 32

-- The enumerators: 0, 5 to 11 and e_crypto_system_type_END_normal, 29 to 31 and the END.
unfoldable pub enum_is_valid_value : ℕ → Bool
enum_is_valid_value val = val == 0 || (leb 5 val && leb val 12) || (leb 29 val && leb val 32)

-- int_to_enum<t_crypto_system_type>(val, true), for a size_t: a value that the unsigned char cannot
-- hold, and one that is no enumerator, are both expected_not_found.
unfoldable pub int_to_enum : ℕ → Try ℕ
int_to_enum val =
    if leb val 255 && enum_is_valid_value val then value val else throws expected_not_found

unfoldable pub t_crypto_system_type_to_id : ℕ → Try ℕ
t_crypto_system_type_to_id val =
    if val == x25519
    then value b'x'
    else if val == ed25519
    then value b'e'
    else if val == ntru_ees439ep1
    then value b't'
    else if val == ntru_sign
    then value b'r'
    else if val == sidh
    then value b's'
    else if val == geport_todo
    then value b'g'
    else throws invalid_argument

-- The argument is a char, by its bit pattern.
unfoldable pub t_crypto_system_type_from_id : ℕ → Try ℕ
t_crypto_system_type_from_id name =
    if name == b'x'
    then value x25519
    else if name == b'e'
    then value ed25519
    else if name == b't'
    then value ntru_ees439ep1
    else if name == b'r'
    then value ntru_sign
    else if name == b's'
    then value sidh
    else if name == b'g'
    then value geport_todo
    else throws invalid_argument

unfoldable pub t_crypto_system_type_is_asymkex : ℕ → Try Bool
t_crypto_system_type_is_asymkex sys =
    if sys == x25519
    then value false
    else if sys == sidh
    then value false
    else if sys == ntru_ees439ep1
    then value true
    else throws invalid_argument

-- The systems that a collection of keys can be saved with.
abbrev pub HasId : ℕ → Type 0
HasId sys = (id : ℕ) × (t_crypto_system_type_to_id sys ≡ value id)

-- The ID of a crypto system is below 128, names that system and no other when it is read as a
-- char, and the system is an enumerator below the size of the arrays.
pub from_id-to_id :
    (sys id : ℕ)
    → t_crypto_system_type_to_id sys ≡ value id
    → (t_crypto_system_type_from_id (id % 256) ≡ value sys)
      × (id < 128)
      × (sys < system_type_end)
      × (int_to_enum sys ≡ value sys)
unfolding t_crypto_system_type_to_id t_crypto_system_type_from_id int_to_enum enum_is_valid_value
from_id-to_id sys id e = ground arith

-- And the other way round: what an ID names is written as that ID.
pub to_id-from_id :
    (sys id : ℕ)
    → t_crypto_system_type_from_id id ≡ value sys
    → t_crypto_system_type_to_id sys ≡ value id
unfolding t_crypto_system_type_to_id t_crypto_system_type_from_id
to_id-from_id sys id e = ground arith
