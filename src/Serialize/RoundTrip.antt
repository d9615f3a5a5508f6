-- ===== src/Serialize/RoundTrip.antt =====
-- What class parser reads back of what class generator wrote.
use galaxy.Prelude.{
  ℕ, ◌≡◌, ◌≤◌, ◌<◌, ◌^◌, ◌-◌, List, ◌++◌, leb, ltb, if◌then◌else◌, length, All, arith,
}
use galaxy.Outcome.{ok, err, assert_abort, format_error_write_value_too_big}
use galaxy.Serialize.Generator.{Str, push_integer_u, push_varstring, push_vector_object}
use galaxy.Serialize.Parser.{
  pop_integer_u, pop_varstring, pop_vector_object, sane_max_size_for_string, u64_mod,
}
use galaxy.Serialize.Integers.{octets, push_integer_u-octets, pop_integer_u-octets, pow_bound}
use galaxy.Serialize.Strings.{varstring, push_varstring-varstring, pop_varstring-varstring}
use galaxy.Serialize.Codec.{Codec}
use galaxy.Serialize.Vectors.{vector, push_vector_object-vector, pop_vector_object-vector}

-- For 1 to 8 octets, push_integer_u writes every value below 256 ^ S - 1 and pop_integer_u<S,uint64_t>
-- reads that value back, whatever follows it; every other value is refused with nothing written.
pub pop-push_integer_u :
    (s val : ℕ) (m_str rest : Str)
    → 0 < s
    → s ≤ 8
    → ((out : Str) × (push_integer_u s val m_str ≡ (
          if ltb val (256 ^ s - 1)
          then ok tt (m_str ++ out)
          else err format_error_write_value_too_big m_str))
        × (val < 256 ^ s - 1 → pop_integer_u u64_mod s (out ++ rest) ≡ ok val rest))
pop-push_integer_u s val m_str rest pos le = (
  octets s val,
  push_integer_u-octets s val m_str pos le,
  λ h.
      let fits : val < 2 ^ 64 = omega (arith, pow_bound s le) in
      pop_integer_u-octets u64_mod s val rest pos (omega arith) fits fits,
)

-- push_varstring writes every string shorter than 2 ^ 64 - 1 octets; pop_varstring reads it back,
-- whatever follows, if it has at most SANE_MAX_SIZE_FOR_STRING octets, and aborts on it otherwise.
pub pop-push_varstring :
    (bytes m_str rest : Str)
    → length bytes < 2 ^ 64 - 1
    → (out : Str) × (push_varstring bytes m_str ≡ ok tt (m_str ++ out))
      × (pop_varstring (out ++ rest) ≡ (
          if leb (length bytes) sane_max_size_for_string
          then ok bytes rest
          else err assert_abort (bytes ++ rest)))
pop-push_varstring bytes m_str rest h = (
  varstring bytes,
  push_varstring-varstring bytes m_str (omega arith),
  pop_varstring-varstring bytes rest (omega arith),
)

-- For any type whose obj_deserialize reads back what its obj_serialize wrote of the values that fit,
-- a vector of fewer than 2 ^ 64 - 1 such values is written by push_vector_object and read back by
-- pop_vector_object, whatever follows.
pub pop-push_vector_object :
    {A : Type 0} (c : Codec A) (xs : List A) (m_str rest : Str)
    → length xs < 2 ^ 64 - 1
    → All c.Fits xs
    → (out : Str) × (push_vector_object c.obj_serialize xs m_str ≡ ok tt (m_str ++ out))
      × (pop_vector_object c.obj_deserialize (out ++ rest) ≡ ok xs rest)
pop-push_vector_object c xs m_str rest few fits = (
  vector c xs,
  push_vector_object-vector c xs m_str (few, fits),
  pop_vector_object-vector c xs rest (few, fits),
)
