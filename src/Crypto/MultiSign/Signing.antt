-- ===== src/Crypto/MultiSign/Signing.antt =====
-- Both multi_sign of c_multikeys_PRV (src/crypto/multikeys.cpp). Signing with one key is libsodium's and
-- NTRU's, parameters.
pub mod Accepted
use galaxy.Prelude.{
  ℕ, ◌+◌, ◌≡◌, Bool, true, false, not, ◌||◌, List, [], ◌∷◌, ◌==◌, if◌then◌else◌, length,
}
use galaxy.Outcome.{
  Outcome, ok, err, M, ◌>>=◌, ◌>>◌, return, assert_abort, runtime_error,
  invalid_argument_in_version,
}
use galaxy.Try.{Try, value, throws, lift}
use galaxy.Serialize.Generator.{Str}
use galaxy.Crypto.Systems.{ed25519, ntru_sign, int_to_enum}
use galaxy.Crypto.MultiCryptoStrings.{MultiCryptoStrings, empty, use_signature}
use galaxy.Crypto.MultiSign.{cryptosystem_sign_allowed}
use galaxy.Crypto.MultiSign.Save.{add_signature_vec}

-- What the program is linked with: each takes the message and the private key.
pub record Signers : Type 0 where
  pub crypto_sign_detached : Str → Str → Try Str
  pub ntru_sign_with : Str → Str → Try Str
  pub enable_crypto_ntru : Bool

module _ (lib : Signers) (msg : Str) where
  -- The loop over the private keys of one system.
  unfoldable pub sign_each : (Str → Str → Try Str) → List Str → Try (List Str)
  sign_each sign [] = value []
  sign_each sign (prv ∷ prvs) =
      let rest = sign_each sign prvs in
      elim (sign msg prv) [
        | throws e ↦ throws e
        | value signature ↦ elim rest [
          | throws e ↦ throws e
          | value signatures ↦ value (signature ∷ signatures)
        ]
      ]

  -- multi_sign of one crypto system.
  unfoldable pub multi_sign_system : ℕ → List Str → Try (List Str)
  multi_sign_system sign_type prvs =
      if length prvs == 0
      then throws assert_abort
      else if sign_type == ed25519
      then sign_each lib.crypto_sign_detached prvs
      else if sign_type == ntru_sign
      then (if lib.enable_crypto_ntru
          then sign_each lib.ntru_sign_with prvs
          else throws invalid_argument_in_version)
      else throws runtime_error

  -- One round of the loop over the systems, at the number `sys`.
  unfoldable pub sign_at : ℕ → List Str → M MultiCryptoStrings (Unit {0})
  sign_at sys prvs self = elim (int_to_enum sys) [
    | throws e ↦ ok tt self
    | value sys_enum ↦
        if not (cryptosystem_sign_allowed sys_enum) || (length prvs == 0)
        then ok tt self
        else elim (multi_sign_system sys_enum prvs) [
          | throws e ↦ err e self
          | value signatures ↦ add_signature_vec sys_enum signatures self
        ]
  ]

  unfoldable pub sign_systems : ℕ → List (List Str) → M MultiCryptoStrings (Unit {0})
  sign_systems sys [] = return tt
  sign_systems sys (prvs ∷ all_prvs) = sign_at sys prvs >> sign_systems (sys + 1) all_prvs

  unfoldable pub multi_sign : MultiCryptoStrings → Try MultiCryptoStrings
  multi_sign private_keys =
      elim (sign_systems 0 private_keys.m_cryptolists_general (empty use_signature)) [
        | ok u multi_signature ↦ value multi_signature
        | err e multi_signature ↦ throws e
      ]
