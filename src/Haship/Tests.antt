-- ===== src/Haship/Tests.antt =====
-- A printed address, and the theorem on the printers at a concrete input.
use galaxy.Prelude.{◌≡◌, refl, [], ◌∷◌, true}
use galaxy.Serialize.Generator.{Str}
use galaxy.Haship.Hexdot.{
  get_hip_as_string, hip_loop, get_ipv6_string_hexdot, get_hip_as_string-hexdot,
}

abbrev eight_digits : Str
eight_digits = b'f' ∷ b'd' ∷ b'4' ∷ b'2' ∷ b'1' ∷ b'0' ∷ b'a' ∷ b'9' ∷ []

get_hip_as_string_fd42 :
    get_hip_as_string true eight_digits
    ≡ b'f' ∷ b'd' ∷ b'4' ∷ b'2' ∷ b':' ∷ b'1' ∷ b'0' ∷ b'a' ∷ b'9' ∷ []
unfolding get_hip_as_string hip_loop
get_hip_as_string_fd42 = refl

get_hip_as_string-hexdot_example :
    get_hip_as_string true eight_digits ≡ get_ipv6_string_hexdot eight_digits
get_hip_as_string-hexdot_example = get_hip_as_string-hexdot eight_digits
