-- ===== src/Serialize/Strings.antt =====
-- push_varstring, pop_varstring and skip_varstring: a string behind its length.
use galaxy.Prelude.{
  ℕ, ◌-◌, ◌^◌, ◌≤◌, ◌<◌, ◌≡◌, refl, [], ◌∷◌, ◌++◌, append_assoc, leb, if◌then◌else◌, length,
  take-append, drop-append, length-append, arith, inl, inr,
}
use galaxy.Outcome.{Outcome, ok, err, assert_abort, Outcome-cases}
use galaxy.Serialize.Generator.{Str, append, push_bytes_n, push_varstring, push_bytes_sizeoctets}
use galaxy.Serialize.Parser.{
  pop_bytes_n, skip_bytes_n, pop_varstring, skip_varstring, pop_integer_uvarint,
  sane_max_size_for_string, pop_bytes_sizeoctets, u64_mod,
}
use galaxy.Serialize.Integers.{pow_bound, octets, push_integer_u-octets, pop_integer_u-octets}
use galaxy.Serialize.Varint.{uvarint, push_integer_uvarint-uvarint, pop_integer_uvarint-uvarint}

unfoldable pub varstring : Str → Str
varstring bytes = uvarint (length bytes) ++ bytes

pub pop_bytes_n-append :
    (bytes rest : Str) → pop_bytes_n (length bytes) (bytes ++ rest) ≡ ok bytes rest
unfolding pop_bytes_n
pop_bytes_n-append [] rest = refl
pop_bytes_n-append (c ∷ bytes) rest =
    ground (arith, take-append bytes rest, drop-append bytes rest, length-append bytes rest)

-- push_varstring appends the string behind its length.
pub push_varstring-varstring :
    (bytes m_str : Str)
    → length bytes < 0xffff_ffff_ffff_ffff
    → push_varstring bytes m_str ≡ ok tt (m_str ++ varstring bytes)
unfolding push_varstring push_bytes_n append varstring
push_varstring-varstring bytes m_str h = ground (
  arith,
  push_integer_uvarint-uvarint (length bytes) m_str (omega arith),
  append_assoc m_str (uvarint (length bytes)) bytes,
)

module _ (bytes rest : Str) where
  long_size :
      length bytes < 2 ^ 64
      → pop_integer_uvarint (varstring bytes ++ rest) ≡ ok (length bytes) (bytes ++ rest)
  unfolding varstring
  long_size h =
      rw (append_assoc (uvarint (length bytes)) bytes rest)
        (pop_integer_uvarint-uvarint (length bytes) (bytes ++ rest) h)

  -- pop_varstring reads back a string of up to SANE_MAX_SIZE_FOR_STRING octets, and aborts on a
  -- longer one, though push_varstring has written it.
  pub pop_varstring-varstring :
      length bytes < 2 ^ 64
      → pop_varstring (varstring bytes ++ rest) ≡ (
          if leb (length bytes) sane_max_size_for_string
          then ok bytes rest
          else err assert_abort (bytes ++ rest))
  unfolding pop_varstring
  pop_varstring-varstring h = ground (arith, long_size h, pop_bytes_n-append bytes rest)

-- The outcome with its value forgotten.
abbrev pub forget : {S A : Type 0} → Outcome S A → Outcome S (Unit {0})
forget (ok a s) = ok tt s
forget (err e s) = err e s

skip_bytes_n-forget : (size : ℕ) (now : Str) → skip_bytes_n size now ≡ forget (pop_bytes_n size now)
unfolding skip_bytes_n pop_bytes_n
skip_bytes_n-forget size now = ground arith

-- skip_varstring succeeds, fails and moves exactly as pop_varstring does on every input.
pub skip_varstring-forget : (now : Str) → skip_varstring now ≡ forget (pop_varstring now)
unfolding skip_varstring pop_varstring
skip_varstring-forget now = elim (Outcome-cases (pop_integer_uvarint now)) [
  | inl (size, rest, e) ↦ ground (arith, e, skip_bytes_n-forget size rest)
  | inr (x, rest, e) ↦ ground (arith, e)
]

-- push_bytes_sizeoctets<S> and pop_bytes_sizeoctets<S>: every string shorter than 256 ^ S - 1 octets
-- is read back, and a longer one is refused with nothing written.
module _ (s : ℕ) (bytes m_str rest : Str) where
  pub pop-push_bytes_sizeoctets :
      0 < s
      → s ≤ 8
      → length bytes < 256 ^ s - 1
      → (out : Str) × (push_bytes_sizeoctets s bytes m_str ≡ ok tt (m_str ++ out))
        × (pop_bytes_sizeoctets s (out ++ rest) ≡ ok bytes rest)
  unfolding push_bytes_sizeoctets append pop_bytes_sizeoctets
  pop-push_bytes_sizeoctets pos le fits =
      let fits64 : length bytes < 2 ^ 64 = omega (arith, pow_bound s le) in
      (
        octets s (length bytes) ++ bytes,
        ground (
          arith,
          push_integer_u-octets s (length bytes) m_str pos le,
          append_assoc m_str (octets s (length bytes)) bytes,
        ),
        ground (
          arith,
          append_assoc (octets s (length bytes)) bytes rest,
          pop_integer_u-octets u64_mod s (length bytes) (bytes ++ rest) pos (omega arith) fits64
              fits64,
          pop_bytes_n-append bytes rest,
        ),
      )
