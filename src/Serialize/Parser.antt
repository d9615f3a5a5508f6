-- ===== src/Serialize/Parser.antt =====
-- class trivialserialize::parser. Its state is the octets from `m_data_now` up to `m_data_end`.
-- `m_data_begin` is read by debug() and by asserts that hold of any pointer that only moves forward.
use galaxy.Prelude.{
  ℕ, zero, suc, ◌+◌, ◌-◌, ◌*◌, ◌/◌, ◌%◌, ◌^◌, List, [], ◌∷◌, ◌++◌, Bool, ltb, leb, ◌==◌,
  if◌then◌else◌, length, take, drop,
}
use galaxy.Outcome.{
  Outcome, ok, err, M, ◌>>◌, ◌>>=◌, return, check, assert_abort, invalid_argument,
  format_error_read, format_error_read_delimiter,
}
use galaxy.Serialize.Generator.{Str}

-- A read from the parser.
abbrev pub Read : Type 0 → Type 0
Read A = M Str A

-- The constructor over a string throws on an empty one; `none` is the exception.
unfoldable pub parser_of_string : Str → Outcome Str (Unit {0})
parser_of_string [] = err invalid_argument []
parser_of_string (c ∷ bytes) = ok tt (c ∷ bytes)

unfoldable pub pop_byte_u : Read ℕ
pop_byte_u [] = err format_error_read []
pop_byte_u (c ∷ rest) = ok c rest

unfoldable pub pop_byte_s : Read ℕ
pop_byte_s [] = err format_error_read []
pop_byte_s (c ∷ rest) = ok c rest

-- On another octet `--m_data_now` goes back to where the call began.
unfoldable pub pop_byte_skip : ℕ → Read (Unit {0})
unfolding pop_byte_u
pop_byte_skip expected now = elim (pop_byte_u now) [
  | ok was rest ↦ if was == expected then ok tt rest else err format_error_read_delimiter now
  | err e rest ↦ err e rest
]

unfoldable pub pop_bytes_n : ℕ → Read Str
pop_bytes_n size now =
    if size == 0
    then ok [] now
    else if ltb 0 (length now)
    then (if leb size (length now)
        then ok (take size now) (drop size now)
        else err format_error_read now)
    else err format_error_read now

unfoldable pub skip_bytes_n : ℕ → Read (Unit {0})
skip_bytes_n size now =
    if size == 0
    then ok tt now
    else if ltb 0 (length now)
    then (if leb size (length now) then ok tt (drop size now) else err format_error_read now)
    else err format_error_read now

-- The loop of pop_integer_u<S,T>, by the rounds that are left; `modulus` is the number of values of
-- T, and `this_byte * multiplier` is an uint64_t.
unfoldable pub pop_octets : ℕ → ℕ → ℕ → ℕ → Read ℕ
unfolding pop_byte_u
pop_octets modulus zero value multiplier = return value
pop_octets modulus (suc rounds) value multiplier = do
  this_byte ← pop_byte_u
  pop_octets modulus rounds ((value + this_byte * multiplier % 2 ^ 64) % modulus)
      (multiplier / 2 ^ 8)

unfoldable pub pop_integer_u : ℕ → ℕ → Read ℕ
pop_integer_u modulus s = pop_octets modulus s 0 (2 ^ ((s - 1) * 8))

-- Values of uint64_t, and of size_t.
abbrev pub u64_mod : ℕ
u64_mod = 2 ^ 64

unfoldable pub pop_bytes_sizeoctets : ℕ → Read Str
pop_bytes_sizeoctets s = do size ← pop_integer_u u64_mod s; pop_bytes_n size

-- The last branch's assert(first==0xFF) holds of every octet that reaches it.
unfoldable pub pop_integer_uvarint : Read ℕ
unfolding pop_byte_u
pop_integer_uvarint = do
  first ← pop_byte_u
  if ltb first 0xfd
      then return first
      else if first == 0xfd
      then pop_integer_u u64_mod 2
      else if first == 0xfe
      then pop_integer_u u64_mod 4
      else (do check (first == 0xff) assert_abort; pop_integer_u u64_mod 8)

abbrev pub sane_max_size_for_string : ℕ
sane_max_size_for_string = 50_000_000

unfoldable pub pop_varstring : Read Str
pop_varstring = do
  size ← pop_integer_uvarint
  check (leb size sane_max_size_for_string) assert_abort
  pop_bytes_n size

unfoldable pub skip_varstring : Read (Unit {0})
skip_varstring = do
  size ← pop_integer_uvarint
  check (leb size sane_max_size_for_string) assert_abort
  skip_bytes_n size

-- The loop `for (i = 0; i<size; ++i) ret.push_back( ... )`.
unfoldable pub pop_each : {A : Type 0} → Read A → ℕ → List A → Read (List A)
pop_each pop zero ret = return ret
pop_each pop (suc rounds) ret = do x ← pop; pop_each pop rounds (ret ++ (x ∷ []))

unfoldable pub pop_vector_string : Read (List Str)
pop_vector_string = do size ← pop_integer_uvarint; pop_each pop_varstring size []

-- pop_vector_object<T>, over the obj_deserialize of T.
unfoldable pub pop_vector_object : {A : Type 0} → Read A → Read (List A)
pop_vector_object obj_deserialize = do size ← pop_integer_uvarint; pop_each obj_deserialize size []

unfoldable pub is_end : Str → Bool
is_end now = leb (length now) 0
