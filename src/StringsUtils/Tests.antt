-- ===== src/StringsUtils/Tests.antt =====
-- Concrete hexadecimal strings, and the theorems on them at concrete inputs.
use galaxy.Prelude.{◌*◌, ◌≡◌, refl, [], ◌∷◌, length, arith}
use galaxy.Outcome.{invalid_argument}
use galaxy.Try.{value, throws}
use galaxy.Serialize.Generator.{Str}
use galaxy.StringsUtils.Hex.{
  string_as_hex, string_as_bin, octet_of_hexchars, hexchar2int, string_as_bin-string_as_hex,
}

-- The comment in string_as_bin says that "20a" is the octets 02 and 0a; they are 20 and 0a.
string_as_bin_20a : string_as_bin (b'2' ∷ b'0' ∷ b'a' ∷ []) ≡ value (0x20 ∷ 0x0a ∷ [])
unfolding string_as_bin octet_of_hexchars hexchar2int
string_as_bin_20a = refl

string_as_bin_upper : string_as_bin (b'F' ∷ b'F' ∷ []) ≡ throws invalid_argument
unfolding string_as_bin octet_of_hexchars hexchar2int
string_as_bin_upper = refl

string_as_bin_ff02 : string_as_bin (b'f' ∷ b'f' ∷ b'0' ∷ b'2' ∷ []) ≡ value (0xff ∷ 2 ∷ [])
unfolding string_as_bin octet_of_hexchars hexchar2int
string_as_bin_ff02 = refl

string_as_bin-string_as_hex_example :
    (out : Str) × (string_as_hex (0xfd ∷ 0x42 ∷ []) ≡ value out)
    × (string_as_bin out ≡ value (0xfd ∷ 0x42 ∷ []))
    × (length out ≡ 2 * 2)
string_as_bin-string_as_hex_example =
    string_as_bin-string_as_hex (0xfd ∷ 0x42 ∷ []) (omega arith) (omega arith)
