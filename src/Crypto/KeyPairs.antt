-- ===== src/Crypto/KeyPairs.antt =====
-- class c_multikeys_PAIR of src/crypto/multikeys.cpp: public and private keys side by side. The
-- generators of key pairs are those of libsodium, NTRU and SIDH, parameters.
pub mod Generated
pub mod Added
pub mod Rounds
mod Tests
use galaxy.Prelude.{
  ℕ, zero, suc, ◌+◌, ◌≡◌, Bool, true, false, not, ◌&&◌, ◌||◌, List, [], ◌∷◌, ◌++◌, ltb, ◌==◌,
  if◌then◌else◌, length, take,
}
use galaxy.Outcome.{
  Outcome, ok, err, M, ◌>>=◌, ◌>>◌, return, throw, check, assert_abort, runtime_error,
  invalid_argument_in_version,
}
use galaxy.Try.{Try, value, throws, lift}
use galaxy.Serialize.Generator.{Str}
use galaxy.Crypto.Systems.{
  x25519, ed25519, ntru_ees439ep1, ntru_sign, sidh, int_to_enum, t_crypto_system_type_is_asymkex,
}
use galaxy.Crypto.MultiCryptoStrings.{
  MultiCryptoStrings, add_key, set_hash_dirty, serialize_bin, empty, use_open, use_secret,
}

pub record KeyPair : Type 0 where
  pub private_key : Str
  pub public_key : Str

-- What the program is linked with; `keypair sys n` is the pair that the generator of the system `sys`
-- gives at its call number `n`.
pub record Generators : Type 0 where
  pub keypair : ℕ → ℕ → KeyPair
  pub enable_crypto_ntru : Bool
  pub enable_crypto_sidh : Bool

pub record MultikeysPair : Type 0 where
  pub m_pub : MultiCryptoStrings
  pub m_prv : MultiCryptoStrings

abbrev pub no_keys : MultikeysPair
no_keys = record { m_pub = empty use_open; m_prv = empty use_secret }

-- A method of one member of the pair.
abbrev pub on_pub : {A : Type 0} → M MultiCryptoStrings A → M MultikeysPair A
on_pub m self = elim (m self.m_pub) [
  | ok a keys ↦ ok a (record self { m_pub = keys })
  | err e keys ↦ err e (record self { m_pub = keys })
]

abbrev pub on_prv : {A : Type 0} → M MultiCryptoStrings A → M MultikeysPair A
on_prv m self = elim (m self.m_prv) [
  | ok a keys ↦ ok a (record self { m_prv = keys })
  | err e keys ↦ err e (record self { m_prv = keys })
]

unfoldable pub add_public_and_private : ℕ → Str → Str → M MultikeysPair (Unit {0})
add_public_and_private crypto_type pubkey prvkey = do
  on_pub (add_key crypto_type pubkey)
  on_prv (add_key crypto_type prvkey)

module _ (lib : Generators) where
  -- The generate_*_key_pair of one system, with their asserts on the sizes.
  unfoldable pub generate_key_pair : ℕ → ℕ → Try KeyPair
  generate_key_pair sys n =
      let pair = lib.keypair sys n in
      if sys == x25519 || (sys == ed25519)
      then value pair
      else if sys == ntru_ees439ep1
      then (if lib.enable_crypto_ntru
          then (if length pair.private_key == 659 && (length pair.public_key == 609)
              then value pair
              else throws assert_abort)
          else throws invalid_argument_in_version)
      else if sys == ntru_sign
      then (if lib.enable_crypto_ntru
          then (if length pair.private_key == 6152 && (length pair.public_key == 6158)
              then value pair
              else throws assert_abort)
          else throws invalid_argument_in_version)
      else if sys == sidh
      then (if lib.enable_crypto_sidh then value pair else throws invalid_argument_in_version)
      else throws runtime_error

  -- The loop of generate over one system, by the pairs that are left; `n` pairs were made before.
  unfoldable pub generate_pairs : ℕ → ℕ → ℕ → M MultikeysPair (Unit {0})
  generate_pairs sys zero n = return tt
  generate_pairs sys (suc count) n = do
    pair ← lift (generate_key_pair sys n)
    add_public_and_private sys pair.public_key pair.private_key
    generate_pairs sys count (n + 1)

  unfoldable pub generate : ℕ → ℕ → M MultikeysPair (Unit {0})
  generate sys zero = return tt
  generate sys (suc count) = do
    generate_pairs sys (suc count) 0
    on_pub set_hash_dirty
    λ self. elim (serialize_bin self.m_pub) [
      | value serialized ↦ ok tt self
      | throws e ↦ err e self
    ]

  -- One round of generate over the counts of all systems.
  unfoldable pub generate_at : Bool → ℕ → ℕ → M MultikeysPair (Unit {0})
  generate_at will_asymkex sys how_many = elim (int_to_enum sys) [
    | throws e ↦ return tt
    | value sys_enum ↦
        if how_many == 0 then return tt else if will_asymkex then generate sys_enum how_many else do
          is_asymkex ← lift (t_crypto_system_type_is_asymkex sys_enum)
          if is_asymkex then return tt else generate sys_enum how_many
  ]

  -- The loop from the number `sys` on.
  unfoldable pub generate_counts : Bool → ℕ → List ℕ → M MultikeysPair (Unit {0})
  generate_counts will_asymkex sys [] = return tt
  generate_counts will_asymkex sys (how_many ∷ cryptolists_count) = do
    generate_at will_asymkex sys how_many
    generate_counts will_asymkex (sys + 1) cryptolists_count
