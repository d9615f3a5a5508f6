-- ===== src/Crypto/Tests.antt =====
-- Concrete collections of keys, and the theorems on them at concrete inputs.
use galaxy.Prelude.{◌≡◌, refl, [], ◌∷◌, replicate, arith}
use galaxy.Outcome.{ok, ◌>>◌}
use galaxy.Try.{value}
use galaxy.Serialize.Generator.{Str}
use galaxy.Crypto.Systems.{t_crypto_system_type_to_id, x25519}
use galaxy.Crypto.MultiCryptoStrings.{
  MultiCryptoStrings, use_open, serialize_bin, load_from_bin, clear,
}
use galaxy.Crypto.MultiCryptoStrings.Save.{Saveable, overlay}
use galaxy.Crypto.MultiCryptoStrings.RoundTrip.{load_from_bin-clear, load_from_bin-serialize_bin}

x_names_x25519 : t_crypto_system_type_to_id x25519 ≡ value b'x'
unfolding t_crypto_system_type_to_id
x_names_x25519 = refl

-- Two X25519 keys.
abbrev two_keys : MultiCryptoStrings
two_keys = record {
  m_cryptolists_general = [] ∷ [] ∷ [] ∷ [] ∷ [] ∷ ((1 ∷ 2 ∷ []) ∷ (3 ∷ []) ∷ []) ∷ replicate 26 [];
  m_hash_cached = [];
  m_crypto_use = use_open;
}

abbrev other_keys : MultiCryptoStrings
other_keys = record {
  m_cryptolists_general = [] ∷ ((9 ∷ []) ∷ []) ∷ replicate 30 [];
  m_hash_cached = 7 ∷ [];
  m_crypto_use = use_open;
}

two_keys-Saveable : Saveable 0 two_keys.m_cryptolists_general
two_keys-Saveable = ((b'x', x_names_x25519), (omega arith, omega arith), tt)

load_from_bin-clear_example :
    (out : Str) × (serialize_bin two_keys ≡ value out)
    × ((clear >> load_from_bin out) other_keys ≡ ok tt two_keys)
load_from_bin-clear_example =
    load_from_bin-clear two_keys other_keys refl refl refl two_keys-Saveable

load_from_bin-serialize_bin_example :
    (out : Str) × (serialize_bin two_keys ≡ value out)
    × (load_from_bin out other_keys
        ≡ ok tt (record other_keys {
          m_cryptolists_general =
              overlay two_keys.m_cryptolists_general other_keys.m_cryptolists_general;
          m_hash_cached = [];
        }))
load_from_bin-serialize_bin_example =
    load_from_bin-serialize_bin two_keys other_keys refl refl refl two_keys-Saveable
