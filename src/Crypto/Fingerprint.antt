-- ===== src/Crypto/Fingerprint.antt =====
-- get_hash and update_hash of template c_multicryptostrings (src/crypto/multikeys.tpl.hpp): the hash
-- of a collection of keys. Hash1 is a function of libsodium and a parameter.
pub mod Accumulator
pub mod Laws
pub mod Total
pub mod DoubleHash
mod Tests
use galaxy.Prelude.{
  ℕ, zero, suc, ◌+◌, ◌-◌, map, ◌≡◌, Bool, true, false, List, [], ◌∷◌, ◌==◌, if◌then◌else◌,
  replicate, length,
}
use galaxy.Outcome.{Outcome, ok, err, M, ◌>>=◌, ◌>>◌, return, throw, check, assert_abort}
use galaxy.Try.{Try, value, throws, lift}
use galaxy.Serialize.Generator.{
  Str, Write, push_bytes_n, push_byte_u, push_integer_uvarint, push_varstring,
}
use galaxy.Crypto.Systems.{t_crypto_system_type_to_id}
use galaxy.Crypto.Xor.{binary_string_xor}
use galaxy.Crypto.MultiCryptoStrings.{MultiCryptoStrings, count_used, magic_gmk, use_fingerprint}

-- Hash1_size()
abbrev pub hash1_size : ℕ
hash1_size = 64

-- After update_hash, get_hash asserts that there is a hash.
unfoldable pub cached : M MultiCryptoStrings Str
cached self = elim self.m_hash_cached [ [] ↦ err assert_abort self | c ∷ hash ↦ ok (c ∷ hash) self ]

-- `ch = ~ch` of a char.
abbrev pub negate : ℕ → ℕ
negate ch = 255 - ch

unfoldable pub negate_first : ℕ → Str → Str
negate_first zero hash = hash
negate_first (suc rounds) [] = []
negate_first (suc rounds) (ch ∷ hash) = negate_first rounds (negate ch ∷ hash)

module _ (hash1 : Str → Str) where
  -- The loop over the keys of one system.
  unfoldable pub accumulate : Str → List Str → Try Str
  accumulate fpr_accum [] = value fpr_accum
  accumulate fpr_accum (pk ∷ keys) = elim (binary_string_xor fpr_accum (hash1 pk)) [
    | throws e ↦ throws e
    | value mixed ↦ accumulate mixed keys
  ]

  unfoldable pub fingerprint : List Str → Try Str
  fingerprint keys = accumulate (replicate hash1_size 0) keys

  -- The loop over the systems from `ix` on; it returns `used_types_check`.
  unfoldable pub push_fingerprints : ℕ → List (List Str) → ℕ → M Str ℕ
  push_fingerprints ix [] used_types_check = return used_types_check
  push_fingerprints ix ([] ∷ systems) used_types_check =
      push_fingerprints (ix + 1) systems used_types_check
  push_fingerprints ix ((key ∷ keys) ∷ systems) used_types_check = do
    id ← lift (t_crypto_system_type_to_id ix)
    push_byte_u id
    fpr_accum ← lift (fingerprint (key ∷ keys))
    push_varstring fpr_accum
    push_fingerprints (ix + 1) systems (used_types_check + 1)

  unfoldable pub fingerprint_into_gen : List (List Str) → Write
  fingerprint_into_gen systems = do
    push_bytes_n 3 magic_gmk
    push_byte_u b'a'
    push_byte_u use_fingerprint
    push_byte_u 1
    push_integer_uvarint (count_used systems)
    used_types_check ← push_fingerprints 0 systems 0
    check (used_types_check == count_used systems) assert_abort

  unfoldable pub update_hash : M MultiCryptoStrings (Unit {0})
  update_hash self = elim (fingerprint_into_gen self.m_cryptolists_general []) [
    | ok _ fingerprint_serial ↦ ok tt (record self { m_hash_cached = hash1 fingerprint_serial })
    | err e fingerprint_serial ↦ err e self
  ]

  unfoldable pub get_hash : M MultiCryptoStrings Str
  get_hash self = elim self.m_hash_cached [
    | [] ↦ (update_hash >>= λ _. cached) self
    | c ∷ hash ↦ cached self
  ]

  -- The loop of Hash2 negates every octet of the inner hash.
  unfoldable pub hash2 : Str → Str
  hash2 hash = hash1 (map negate (hash1 hash))

  -- Hash2_PRV negates the octet at 0 once for every octet; at(0) of an empty string throws, and there
  -- the loop has no round.
  unfoldable pub hash2_prv : Str → Str
  hash2_prv hash =
      let hash_from_hash = hash1 hash in hash1 (negate_first (length hash_from_hash) hash_from_hash)
