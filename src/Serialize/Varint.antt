-- ===== src/Serialize/Varint.antt =====
-- push_integer_uvarint and pop_integer_uvarint: numbers on 1, 3, 5 or 9 octets.
use galaxy.Prelude.{ℕ, ◌^◌, ◌<◌, ◌≡◌, ap, [], ◌∷◌, ◌++◌, append_assoc, ltb, if◌then◌else◌, arith}
use galaxy.Outcome.{ok, err, format_error_write_value_too_big}
use galaxy.Serialize.Generator.{Str, push_byte_u, push_integer_uvarint}
use galaxy.Serialize.Parser.{pop_byte_u, pop_integer_uvarint, u64_mod}
use galaxy.Serialize.Integers.{octets, push_integer_u-octets, pop_integer_u-octets}

-- The format, as the comment on push_integer_uvarint gives it.
unfoldable pub uvarint : ℕ → Str
uvarint val =
    if ltb val 0xfd
    then val ∷ []
    else if ltb val 0xffff
    then 0xfd ∷ octets 2 val
    else if ltb val 0xffff_ffff
    then 0xfe ∷ octets 4 val
    else 0xff ∷ octets 8 val

one_octet : (val : ℕ) → val < 0xfd → octets 1 val ≡ val ∷ []
unfolding octets
one_octet val h = ap (λ n. n ∷ []) (omega arith)

module _ (val : ℕ) (m_str : Str) where
  tagged : (tag s : ℕ) → (m_str ++ (tag ∷ [])) ++ octets s val ≡ m_str ++ (tag ∷ octets s val)
  tagged tag s = append_assoc m_str (tag ∷ []) (octets s val)

  -- push_integer_uvarint on every value: it appends the format of a value below 2 ^ 64 - 1; the
  -- greatest uint64_t is refused, when its leading 0xFF is already written.
  pub push_integer_uvarint-uvarint :
      val < 2 ^ 64
      → push_integer_uvarint val m_str ≡ (
          if ltb val 0xffff_ffff_ffff_ffff
          then ok tt (m_str ++ uvarint val)
          else err format_error_write_value_too_big (m_str ++ (0xff ∷ [])))
  unfolding push_integer_uvarint push_byte_u uvarint
  push_integer_uvarint-uvarint h = ground (
    arith,
    one_octet val,
    tagged 0xfd 2,
    tagged 0xfe 4,
    tagged 0xff 8,
    push_integer_u-octets 1 val m_str (omega arith) (omega arith),
    push_integer_u-octets 2 val (m_str ++ (0xfd ∷ [])) (omega arith) (omega arith),
    push_integer_u-octets 4 val (m_str ++ (0xfe ∷ [])) (omega arith) (omega arith),
    push_integer_u-octets 8 val (m_str ++ (0xff ∷ [])) (omega arith) (omega arith),
  )

pub pop_integer_uvarint-uvarint :
    (val : ℕ) (rest : Str) → val < 2 ^ 64 → pop_integer_uvarint (uvarint val ++ rest) ≡ ok val rest
unfolding pop_integer_uvarint pop_byte_u uvarint
pop_integer_uvarint-uvarint val rest h = ground (
  arith,
  pop_integer_u-octets u64_mod 2 val rest (omega arith),
  pop_integer_u-octets u64_mod 4 val rest (omega arith),
  pop_integer_u-octets u64_mod 8 val rest (omega arith),
)
