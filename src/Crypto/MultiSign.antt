-- ===== src/Crypto/MultiSign.antt =====
-- Signatures by every key of a collection: cryptosystem_sign_allowed and both multi_sign_verify of
-- src/crypto/multikeys.cpp. The verification of one signature is libsodium's and NTRU's, parameters.
pub mod Save
pub mod Signing
pub mod Signed
pub mod Accepts
mod Tests
use galaxy.Prelude.{
  ℕ, ◌+◌, ◌≡◌, Bool, true, false, not, ◌||◌, List, [], ◌∷◌, ◌==◌, if◌then◌else◌, length,
}
use galaxy.Outcome.{invalid_argument, invalid_argument_in_version, assert_abort, out_of_range}
use galaxy.Try.{Try, value, throws, ◌>>=◌, ◌>>◌, check}
use galaxy.Serialize.Generator.{Str}
use galaxy.Crypto.Systems.{ed25519, ntru_sign, int_to_enum}
use galaxy.Crypto.MultiCryptoStrings.{MultiCryptoStrings}

unfoldable pub cryptosystem_sign_allowed : ℕ → Bool
cryptosystem_sign_allowed crypto_system = crypto_system == ed25519 || (crypto_system == ntru_sign)

-- What the program is linked with: each verification takes the signature, the message and the key. That
-- of libsodium throws where the answer is false here.
pub record Verifiers : Type 0 where
  pub crypto_sign_verify_detached : Str → Str → Str → Bool
  pub ntru_verify : Str → Str → Str → Bool
  pub enable_crypto_ntru : Bool

module _ (lib : Verifiers) (msg : Str) where
  -- The loop over the keys of one system, with the signature at the same place.
  unfoldable pub verify_each : (Str → Str → Str → Bool) → List Str → List Str → Try (Unit {0})
  verify_each verify signs [] = value tt
  verify_each verify [] (pubkey ∷ pubkeys) = throws out_of_range
  verify_each verify (sign ∷ signs) (pubkey ∷ pubkeys) = do
    check (verify sign msg pubkey) invalid_argument
    verify_each verify signs pubkeys

  -- multi_sign_verify of one crypto system.
  unfoldable pub multi_sign_verify_system : ℕ → List Str → List Str → Try (Unit {0})
  multi_sign_verify_system sign_type signs pubkeys = do
    check (length pubkeys == length signs) assert_abort
    if length pubkeys == 0
        then value tt
        else if sign_type == ed25519
        then verify_each lib.crypto_sign_verify_detached signs pubkeys
        else if sign_type == ntru_sign
        then (if lib.enable_crypto_ntru
            then verify_each lib.ntru_verify signs pubkeys
            else throws invalid_argument_in_version)
        else throws invalid_argument

  -- One round of the loop over the systems, at the number `sys`.
  unfoldable pub verify_at : ℕ → List Str → List Str → Try (Unit {0})
  verify_at sys signs pubkeys = elim (int_to_enum sys) [
    | throws e ↦ value tt
    | value sys_enum ↦ do
      check (length signs == length pubkeys) invalid_argument
      if not (cryptosystem_sign_allowed sys_enum)
          then value tt
          else multi_sign_verify_system sys_enum signs pubkeys
  ]

  -- The loop from the number `sys` on.
  unfoldable pub verify_systems : ℕ → List (List Str) → List (List Str) → Try (Unit {0})
  verify_systems sys [] all_pubkeys = value tt
  verify_systems sys (signs ∷ all_signs) [] = throws out_of_range
  verify_systems sys (signs ∷ all_signs) (pubkeys ∷ all_pubkeys) = do
    verify_at sys signs pubkeys
    verify_systems (sys + 1) all_signs all_pubkeys

  unfoldable pub multi_sign_verify : MultiCryptoStrings → MultiCryptoStrings → Try (Unit {0})
  multi_sign_verify all_signatures pubkeys = do
    check (length all_signatures.m_cryptolists_general == length pubkeys.m_cryptolists_general)
        invalid_argument
    verify_systems 0 all_signatures.m_cryptolists_general pubkeys.m_cryptolists_general
