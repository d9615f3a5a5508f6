-- ===== src/Serialize/Tests.antt =====
-- Concrete runs of the serializer, and its theorems at concrete inputs.
use galaxy.Prelude.{
  ℕ, ◌-◌, ◌≡◌, ◌^◌, ◌<◌, refl, inl, true, false, none, some, List, [], ◌∷◌, ◌++◌, ltb, leb,
  if◌then◌else◌, arith,
}
use galaxy.Outcome.{
  ok, err, format_error_read, format_error_write_value_too_big, undefined_behaviour,
}
use galaxy.Stdplus.Ranges.{Memory}
use galaxy.Serialize.Generator.{
  Str, push_integer_u, push_integer_uvarint, push_varstring, push_map_object, push_byte_u,
  push_octets, get_max_value_of_S_octet_uint,
}
use galaxy.Serialize.Parser.{
  pop_integer_u, pop_integer_uvarint, pop_varstring, pop_byte_u, pop_octets, pop_bytes_n, u64_mod,
}
use galaxy.Serialize.RoundTrip.{pop-push_integer_u, pop-push_varstring}
use galaxy.Serialize.Codec.{string_codec, char_codec}
use galaxy.Serialize.Maps.{pop_map_object, pop-push_map_object}
use galaxy.Serialize.Buffer.{BuffParser, pop_bytes_n_into_buff, pop_bytes_n_into_buff_overflows}

push_300 : push_integer_uvarint 300 [] ≡ ok tt (0xfd ∷ 1 ∷ 44 ∷ [])
unfolding push_integer_uvarint push_integer_u push_octets get_max_value_of_S_octet_uint
push_300 = refl

pop_300 : pop_integer_uvarint (0xfd ∷ 1 ∷ 44 ∷ 7 ∷ []) ≡ ok 300 (7 ∷ [])
unfolding pop_integer_uvarint pop_integer_u pop_octets
pop_300 = refl

-- 0xFFFF is the first number on five octets.
push_65535 : push_integer_uvarint 0xffff [] ≡ ok tt (0xfe ∷ 0 ∷ 0 ∷ 0xff ∷ 0xff ∷ [])
unfolding push_integer_uvarint push_integer_u push_octets get_max_value_of_S_octet_uint
push_65535 = refl

-- The octets that were read before the end of the input are gone.
pop_cut : pop_integer_uvarint (0xfe ∷ 1 ∷ 2 ∷ []) ≡ err format_error_read []
unfolding pop_integer_uvarint pop_integer_u pop_octets
pop_cut = refl

pop_bytes_short : pop_bytes_n 3 (1 ∷ 2 ∷ []) ≡ err format_error_read (1 ∷ 2 ∷ [])
unfolding pop_bytes_n
pop_bytes_short = refl

abbrev word : Str
word = b'a' ∷ b'b' ∷ []

pop-push_integer_u_example :
    (out : Str) × (push_integer_u 2 300 word ≡ (
      if ltb 300 (256 ^ 2 - 1)
      then ok tt (word ++ out)
      else err format_error_write_value_too_big word))
    × (300 < 256 ^ 2 - 1 → pop_integer_u u64_mod 2 (out ++ word) ≡ ok 300 word)
pop-push_integer_u_example = pop-push_integer_u 2 300 word word (omega arith) (omega arith)

pop-push_varstring_example :
    (out : Str) × (push_varstring word [] ≡ ok tt out)
    × (pop_varstring (out ++ word) ≡ ok word word)
pop-push_varstring_example = pop-push_varstring word [] word (omega arith)

ltb_asymm : (a b : ℕ) → ltb a b ≡ true → ltb b a ≡ false
ltb_asymm a b h = ground arith

abbrev two_pairs : List (ℕ × Str)
two_pairs = (b'r', word) ∷ (b't', []) ∷ []

pop-push_map_object_example :
    (out : Str) × (push_map_object push_byte_u push_varstring two_pairs [] ≡ ok tt out)
    × (pop_map_object ltb pop_byte_u pop_varstring (out ++ word) ≡ ok two_pairs word)
pop-push_map_object_example =
    pop-push_map_object ltb ltb_asymm char_codec string_codec two_pairs [] word
      (omega arith, ((tt, omega arith), ((tt, omega arith), tt)), ((refl, tt), (tt, tt)))

-- Octets 7, 8 and 9 from address 10 on, and a block of two octets at address 20.
abbrev small_memory : Memory
small_memory a =
    if leb 10 a
    then (if ltb a 13
        then some (a - 3)
        else if leb 20 a
        then (if ltb a 22 then some 0 else none)
        else none)
    else none

abbrev small_parser : BuffParser
small_parser = record { memory = small_memory; m_data_now = 10; m_data_end = 13 }

pop_bytes_n_into_buff_overflows_example :
    (q : BuffParser) × (pop_bytes_n_into_buff 2 20 small_parser ≡ err undefined_behaviour q)
pop_bytes_n_into_buff_overflows_example =
    pop_bytes_n_into_buff_overflows 2 20 small_parser (omega arith) (omega arith) (omega arith)
      (inl (omega arith)) refl
