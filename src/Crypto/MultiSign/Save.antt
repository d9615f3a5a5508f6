-- ===== src/Crypto/MultiSign/Save.antt =====
-- c_multisign of src/crypto/multikeys.cpp: adding signatures, reading them back one by one, and its
-- serialized form, which has the signatures of the two systems for signing.
pub mod RoundTrip
use galaxy.Prelude.{ℕ, zero, suc, ◌+◌, ◌≡◌, Bool, true, false, List, [], ◌∷◌, ◌==◌, length}
use galaxy.Outcome.{Outcome, ok, err, M, ◌>>=◌, ◌>>◌, return, check, assert_abort}
use galaxy.Try.{Try, value, throws, lift}
use galaxy.Serialize.Generator.{Str, Write, push_byte_u, push_vector_string}
use galaxy.Serialize.Parser.{Read, parser_of_string, pop_byte_u, pop_vector_string}
use galaxy.Crypto.Systems.{ed25519, ntru_sign}
use galaxy.Crypto.MultiCryptoStrings.{
  MultiCryptoStrings, add_key, get_key, get_count_keys_in_system,
}

-- The loop over the signatures.
unfoldable pub add_signature_vec : ℕ → List Str → M MultiCryptoStrings (Unit {0})
add_signature_vec crypto_type [] = return tt
add_signature_vec crypto_type (signature ∷ signatures) =
    add_key crypto_type signature >> add_signature_vec crypto_type signatures

-- The loop of get_signature_vec, by the rounds that are left.
unfoldable pub signatures_from : MultiCryptoStrings → ℕ → ℕ → ℕ → Try (List Str)
signatures_from self crypto_type zero i = value []
signatures_from self crypto_type (suc rounds) i =
    let rest = signatures_from self crypto_type rounds (suc i) in
    elim (get_key self crypto_type i) [
      | throws e ↦ throws e
      | value signature ↦ elim rest [
        | throws e ↦ throws e
        | value signatures ↦ value (signature ∷ signatures)
      ]
    ]

unfoldable pub get_signature_vec : MultiCryptoStrings → ℕ → Try (List Str)
get_signature_vec self crypto_type = elim (get_count_keys_in_system self crypto_type) [
  | throws e ↦ throws e
  | value count ↦ signatures_from self crypto_type count 0
]

unfoldable pub write_signatures : MultiCryptoStrings → ℕ → Write
write_signatures self crypto_type = do
  push_byte_u crypto_type
  signatures ← lift (get_signature_vec self crypto_type)
  push_vector_string signatures

-- serialize_bin of c_multisign.
unfoldable pub serialize_signatures : MultiCryptoStrings → Try Str
serialize_signatures self =
    elim ((write_signatures self ed25519 >> write_signatures self ntru_sign) []) [
      | ok u m_str ↦ value m_str
      | err e m_str ↦ throws e
    ]

unfoldable pub read_signatures : ℕ → Read (List Str)
read_signatures crypto_type = do
  type_read ← pop_byte_u
  check (type_read == crypto_type) assert_abort
  pop_vector_string

-- The part of load_from_bin for one system, which gives what is left of the text.
unfoldable pub load_signatures_of : ℕ → Str → M MultiCryptoStrings Str
load_signatures_of crypto_type now self = elim (read_signatures crypto_type now) [
  | err e rest ↦ err e self
  | ok signatures rest ↦ elim (add_signature_vec crypto_type signatures self) [
    | err e added ↦ err e added
    | ok u added ↦ ok rest added
  ]
]

-- load_from_bin of c_multisign. What is behind the two systems is not looked at.
unfoldable pub load_signatures : Str → M MultiCryptoStrings (Unit {0})
load_signatures bytes self = elim (parser_of_string bytes) [
  | err e now ↦ err e self
  | ok u now ↦
      (do rest ← load_signatures_of ed25519 now; load_signatures_of ntru_sign rest; return tt) self
]
