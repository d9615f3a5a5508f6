-- ===== src/Crypto/MultiCryptoStrings.antt =====
-- template c_multicryptostrings of src/crypto/multikeys.hpp and multikeys.tpl.hpp: lists of keys, one
-- for each crypto system. A TKey, std::string or locked_string, is its octets.
pub mod Save
pub mod RoundTrip
use galaxy.Prelude.{
  ℕ, zero, suc, ◌+◌, ◌%◌, ◌≡◌, ◌<◌, Bool, true, false, not, List, [], ◌∷◌, ◌++◌, Option, none, some,
  ltb, leb, ◌==◌, str_eq, if◌then◌else◌, length, get_elem?, set, replicate, map,
}
use galaxy.Outcome.{
  Outcome, ok, err, M, ◌>>=◌, ◌>>◌, return, throw, check, invalid_argument, runtime_error,
  out_of_range, assert_abort, format_error_read_invalid_version,
}
use galaxy.Try.{Try, value, throws, lift}
use galaxy.Serialize.Generator.{
  Str, Write, push_bytes_n, push_byte_u, push_integer_uvarint, push_vector_object, push_varstring,
}
use galaxy.Serialize.Parser.{
  Read, pop_bytes_n, pop_byte_u, pop_integer_uvarint, pop_vector_object, pop_varstring, is_end,
}
use galaxy.Crypto.Systems.{
  system_type_end, t_crypto_system_type_to_id, t_crypto_system_type_from_id,
}

pub record MultiCryptoStrings : Type 0 where
  -- std::array< vector<TKey> , e_crypto_system_type_END >
  pub m_cryptolists_general : List (List Str)
  -- "" when the hash has to be calculated
  pub m_hash_cached : Str
  -- enum t_crypto_use, an unsigned char
  pub m_crypto_use : ℕ

-- enum t_crypto_use
abbrev pub use_secret : ℕ
use_secret = b'S'

abbrev pub use_open : ℕ
use_open = b'o'

abbrev pub use_signature : ℕ
use_signature = b'n'

abbrev pub use_fingerprint : ℕ
use_fingerprint = b'f'

-- The constructor.
abbrev pub empty : ℕ → MultiCryptoStrings
empty crypto_use = record {
  m_cryptolists_general = replicate system_type_end [];
  m_hash_cached = [];
  m_crypto_use = crypto_use;
}

-- The array has one list for each system.
abbrev pub IsArray : MultiCryptoStrings → Type 0
IsArray self = length self.m_cryptolists_general ≡ system_type_end

-- at() of a std::array or a std::vector.
unfoldable pub at : {A : Type 0} → List A → ℕ → Try A
at xs ix = elim (get_elem? xs ix) [ none ↦ throws out_of_range | some x ↦ value x ]

unfoldable pub get_count_keys_in_system : MultiCryptoStrings → ℕ → Try ℕ
get_count_keys_in_system self crypto_type = elim (at self.m_cryptolists_general crypto_type) [
  | value keys ↦ value (length keys)
  | throws e ↦ throws e
]

unfoldable pub get_count_of_systems : MultiCryptoStrings → ℕ
get_count_of_systems self = length self.m_cryptolists_general

unfoldable pub set_hash_dirty : M MultiCryptoStrings (Unit {0})
set_hash_dirty self = ok tt (record self { m_hash_cached = [] })

-- add_key leaves `m_hash_cached` as it is.
unfoldable pub add_key : ℕ → Str → M MultiCryptoStrings (Unit {0})
add_key crypto_type pubkey self = elim (at self.m_cryptolists_general crypto_type) [
  | throws e ↦ err e self
  | value keys ↦ ok tt (record self {
    m_cryptolists_general = set self.m_cryptolists_general crypto_type (keys ++ (pubkey ∷ []));
  })
]

unfoldable pub get_key : MultiCryptoStrings → ℕ → ℕ → Try Str
get_key self crypto_type number_of_key = elim (at self.m_cryptolists_general crypto_type) [
  | throws e ↦ throws e
  | value keys ↦ at keys number_of_key
]

unfoldable pub clear : M MultiCryptoStrings (Unit {0})
clear self =
    ok tt (record self { m_cryptolists_general = map (λ keys. []) self.m_cryptolists_general })

-- `used_types`, the number of systems that have keys.
unfoldable pub count_used : List (List Str) → ℕ
count_used [] = 0
count_used ([] ∷ systems) = count_used systems
count_used ((key ∷ keys) ∷ systems) = suc (count_used systems)

-- The second loop of serialize_bin from system `ix` on; it returns `used_types_check`.
unfoldable pub push_systems : ℕ → List (List Str) → ℕ → M Str ℕ
push_systems ix [] used_types_check = return used_types_check
push_systems ix ([] ∷ systems) used_types_check = push_systems (ix + 1) systems used_types_check
push_systems ix ((key ∷ keys) ∷ systems) used_types_check = do
  id ← lift (t_crypto_system_type_to_id ix)
  push_integer_uvarint id
  push_vector_object push_varstring (key ∷ keys)
  push_systems (ix + 1) systems (used_types_check + 1)

abbrev pub magic_gmk : Str
magic_gmk = b'G' ∷ b'M' ∷ b'K' ∷ []

unfoldable pub serialize_into_gen : MultiCryptoStrings → Write
serialize_into_gen self = do
  push_bytes_n 3 magic_gmk
  push_byte_u b'a'
  push_byte_u self.m_crypto_use
  push_integer_uvarint (count_used self.m_cryptolists_general)
  used_types_check ← push_systems 0 self.m_cryptolists_general 0
  check (used_types_check == count_used self.m_cryptolists_general) assert_abort

unfoldable pub serialize_bin : MultiCryptoStrings → Try Str
serialize_bin self = elim (serialize_into_gen self []) [
  | ok _ m_str ↦ value m_str
  | err e m_str ↦ throws e
]

-- load_from_bin works on the object and on a parser over its argument.
pub record Loader : Type 0 where
  pub self : MultiCryptoStrings
  pub now : Str

abbrev pub parse : {A : Type 0} → Read A → M Loader A
parse pop l = elim (pop l.now) [
  | ok a now ↦ ok a (record l { now = now })
  | err e now ↦ err e (record l { now = now })
]

-- this->m_cryptolists_general.at( sys_id ) = sys_keys
unfoldable pub assign_system : ℕ → List Str → M Loader (Unit {0})
assign_system sys_id sys_keys l =
    if ltb sys_id (length l.self.m_cryptolists_general)
    then ok tt (record l {
      self = record (l.self) {
        m_cryptolists_general = set l.self.m_cryptolists_general sys_id sys_keys;
      };
    })
    else err out_of_range l

-- The loop over `map_i`. The uvarint becomes a char, its lowest octet.
unfoldable pub load_systems : ℕ → M Loader (Unit {0})
load_systems zero = return tt
load_systems (suc rounds) = do
  id ← parse pop_integer_uvarint
  sys_id ← lift (t_crypto_system_type_from_id (id % 256))
  sys_keys ← parse (pop_vector_object pop_varstring)
  assign_system sys_id sys_keys
  load_systems rounds

unfoldable pub load_map : M Loader (Unit {0})
load_map = do
  map_size ← parse pop_integer_uvarint
  check (leb map_size 100) assert_abort
  load_systems map_size
  λ l. check (is_end l.now) runtime_error l

unfoldable pub load_parsed : M Loader (Unit {0})
load_parsed = do
  magic_marker ← parse (pop_bytes_n 3)
  check (str_eq magic_marker magic_gmk) runtime_error
  magic_version ← parse pop_byte_u
  magic_crypto_use ← parse pop_byte_u
  λ l. check (magic_crypto_use == l.self.m_crypto_use) runtime_error l
  if magic_version == b'a' then load_map else throw format_error_read_invalid_version

-- The parser's constructor throws on an empty string. Systems that are not in `bytes` keep what they
-- had, and an exception leaves the systems that were assigned before it.
unfoldable pub load_from_bin : Str → M MultiCryptoStrings (Unit {0})
load_from_bin [] self = err invalid_argument self
load_from_bin (c ∷ bytes) self = elim (load_parsed (record { self = self; now = c ∷ bytes })) [
  | ok _ l ↦ set_hash_dirty l.self
  | err e l ↦ err e l.self
]
