-- ===== src/Serialize/Generator.antt =====
-- class trivialserialize::generator. Its state is `m_str`, the octets written so far; an octet is a
-- number below 256, and a signed char is its bit pattern.
use Prim.Native.Nat.{bit_or}
use galaxy.Prelude.{
  ℕ, zero, suc, ◌-◌, ◌*◌, ◌/◌, ◌%◌, ◌^◌, List, [], ◌∷◌, ◌++◌, ltb, leb, ◌==◌, if◌then◌else◌, length,
}
use galaxy.Outcome.{
  ok, M, ◌>>◌, throw, return, check, assert_abort, format_error_write_value_too_big,
}

abbrev pub Str : Type 0
Str = List ℕ

-- A write to the generator.
abbrev pub Write : Type 0
Write = M Str (Unit {0})

-- m_str += data
unfoldable pub append : Str → Write
append bytes m_str = ok tt (m_str ++ bytes)

unfoldable pub push_byte_u : ℕ → Write
unfolding append
push_byte_u c = append (c ∷ [])

unfoldable pub push_byte_s : ℕ → Write
unfolding append
push_byte_s c = append (c ∷ [])

unfoldable pub push_bytes_n : ℕ → Str → Write
unfolding append
push_bytes_n size bytes = do check (size == length bytes) assert_abort; append bytes

-- ( 0xFFLLU << (S-1)*8 ) | ( (1LLU << ((S-1)*8)) - 1 )
unfoldable pub get_max_value_of_S_octet_uint : ℕ → ℕ
get_max_value_of_S_octet_uint s = bit_or (0xff * 2 ^ ((s - 1) * 8)) (2 ^ ((s - 1) * 8) - 1)

-- The loop `for (auto i=0; i<S; ++i)`, by the rounds that are left.
unfoldable pub push_octets : ℕ → ℕ → ℕ → Write
unfolding push_byte_u
push_octets zero value divider = return tt
push_octets (suc rounds) value divider = do
  push_byte_u (value / divider % 256)
  push_octets rounds value (divider / 2 ^ 8)

-- template <int S, typename T> push_integer_u; the static_asserts ask for 0 < S <= 8.
unfoldable pub push_integer_u : ℕ → ℕ → Write
push_integer_u s value =
    let write = push_octets s value (2 ^ ((s - 1) * 8)) in
    if s == 8
    then (if leb 0xffff_ffff_ffff_ffff value then throw format_error_write_value_too_big else write)
    else (if leb (get_max_value_of_S_octet_uint s) value
        then throw format_error_write_value_too_big
        else write)

unfoldable pub push_bytes_sizeoctets : ℕ → Str → Write
unfolding append
push_bytes_sizeoctets s bytes = do push_integer_u s (length bytes); append bytes

-- The overload with `max_size_for_assert`.
unfoldable pub push_bytes_sizeoctets_max : ℕ → Str → ℕ → Write
push_bytes_sizeoctets_max s bytes max_size = do
  check (leb (length bytes) max_size) assert_abort
  push_bytes_sizeoctets s bytes

unfoldable pub push_integer_uvarint : ℕ → Write
unfolding push_byte_u
push_integer_uvarint val =
    if ltb val 0xfd
    then push_integer_u 1 val
    else if ltb val 0xffff
    then (do push_byte_u 0xfd; push_integer_u 2 val)
    else if ltb val 0xffff_ffff
    then (do push_byte_u 0xfe; push_integer_u 4 val)
    else (do push_byte_u 0xff; push_integer_u 8 val)

unfoldable pub push_varstring : Str → Write
push_varstring bytes = do push_integer_uvarint (length bytes); push_bytes_n (length bytes) bytes

-- The loops over `data.at(i)` of push_vector_string and push_vector_object.
unfoldable pub push_each : {A : Type 0} → (A → Write) → List A → Write
push_each push [] = return tt
push_each push (x ∷ xs) = do push x; push_each push xs

unfoldable pub push_vector_string : List Str → Write
push_vector_string bytes = do push_integer_uvarint (length bytes); push_each push_varstring bytes

-- push_vector_object<T>, over the obj_serialize of T.
unfoldable pub push_vector_object : {A : Type 0} → (A → Write) → List A → Write
push_vector_object obj_serialize bytes = do
  push_integer_uvarint (length bytes)
  push_each obj_serialize bytes

-- push_map_object<TKey,TVal>; a std::map is the list of its pairs in ascending order of keys.
unfoldable pub push_map_object : {K V : Type 0} → (K → Write) → (V → Write) → List (K × V) → Write
push_map_object key_serialize value_serialize bytes = do
  push_integer_uvarint (length bytes)
  push_each (λ pair. key_serialize pair.0 >> value_serialize pair.1) bytes
