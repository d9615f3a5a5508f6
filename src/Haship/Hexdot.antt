-- ===== src/Haship/Hexdot.antt =====
-- The two printers of an address as groups of four hexadecimal digits: get_hip_as_string of
-- src/haship.cpp, which writes ':' before a digit, and get_ipv6_string_hexdot of
-- src/crypto/multikeys.cpp, which writes it after one.
use galaxy.Prelude.{
  ℕ, ◌+◌, ◌%◌, ◌≡◌, refl, ◌∙◌, ap, Bool, true, not, ◌&&◌, [], ◌∷◌, ◌++◌, append-nil, ◌==◌,
  if◌then◌else◌, length, arith,
}
use galaxy.Serialize.Generator.{Str}

-- The loop of get_hip_as_string over the digits from position `pos` on, with the output so far.
unfoldable pub hip_loop : Bool → ℕ → Str → Str → Str
hip_loop with_dots pos [] out = out
hip_loop with_dots pos (digit ∷ hip) out = hip_loop with_dots (pos + 1) hip (
    (if with_dots && not (pos == 0) && pos % 4 == 0 then out ++ (b':' ∷ []) else out)
    ++ (digit ∷ []))

-- c_haship_addr::get_hip_as_string, from the string_as_hex of the address on.
unfoldable pub get_hip_as_string : Bool → Str → Str
get_hip_as_string with_dots hip = hip_loop with_dots 0 hip []

-- The loop of get_ipv6_string_hexdot; `size` is that of the whole string.
unfoldable pub hexdot_loop : ℕ → ℕ → Str → Str → Str
hexdot_loop size i [] hexdot_str = hexdot_str
hexdot_loop size i (digit ∷ hex_str) hexdot_str =
    let with_digit = hexdot_str ++ (digit ∷ []) in
    hexdot_loop size (i + 1) hex_str (
      if not (i == 0) && not (i + 1 == size) && (i + 1) % 4 == 0
      then with_digit ++ (b':' ∷ [])
      else with_digit)

-- c_multikeys_pub::get_ipv6_string_hexdot, from get_ipv6_string_hex() on.
unfoldable pub get_ipv6_string_hexdot : Str → Str
get_ipv6_string_hexdot hex_str = hexdot_loop (length hex_str) 0 hex_str []

-- The colon that get_hip_as_string would still write before the digit at `pos`.
colon_due : ℕ → Str → Str
colon_due pos [] = []
colon_due pos (digit ∷ hip) = if not (pos == 0) && pos % 4 == 0 then b':' ∷ [] else []

colon_due_after :
    (size pos : ℕ) (hip : Str)
    → pos + 1 + length hip ≡ size
    → colon_due (pos + 1) hip
      ≡ (if not (pos == 0) && not (pos + 1 == size) && (pos + 1) % 4 == 0 then b':' ∷ [] else [])
unfolding colon_due
colon_due_after size pos [] h = ground arith
colon_due_after size pos (digit ∷ hip) h = ground arith

hip_loop-hexdot_loop :
    (size pos : ℕ) (hip out : Str)
    → pos + length hip ≡ size
    → hip_loop true pos hip out ≡ hexdot_loop size pos hip (out ++ colon_due pos hip)
unfolding hip_loop hexdot_loop colon_due
hip_loop-hexdot_loop size pos [] out h = rw append-nil
hip_loop-hexdot_loop size pos (digit ∷ hip) out h =
    let before : Str = if not (pos == 0) && pos % 4 == 0 then out ++ (b':' ∷ []) else out in
    let after : Str = colon_due (pos + 1) hip in
    ground (
      arith,
      hip_loop-hexdot_loop size (pos + 1) hip (before ++ (digit ∷ [])) (omega arith),
      colon_due_after size pos hip (omega arith),
      append-nil out,
      append-nil (before ++ (digit ∷ [])),
    )

colon_due_start : (hip : Str) → colon_due 0 hip ≡ []
unfolding colon_due
colon_due_start [] = refl
colon_due_start (digit ∷ hip) = refl

-- The two printers of an address in groups of four digits, get_hip_as_string(true) and
-- get_ipv6_string_hexdot, give the same string for every string of digits.
pub get_hip_as_string-hexdot :
    (hex_str : Str) → get_hip_as_string true hex_str ≡ get_ipv6_string_hexdot hex_str
unfolding get_hip_as_string get_ipv6_string_hexdot
get_hip_as_string-hexdot hex_str =
    hip_loop-hexdot_loop (length hex_str) 0 hex_str [] (omega arith)
    ∙ ap (hexdot_loop (length hex_str) 0 hex_str) (colon_due_start hex_str)
