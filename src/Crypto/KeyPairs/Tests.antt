-- ===== src/Crypto/KeyPairs/Tests.antt =====
-- One more pair of X25519 and of SIDH, for keys whose hash was kept.
use galaxy.Prelude.{ℕ, ◌≡◌, refl, true, false, List, if◌then◌else◌, [], ◌∷◌, ◌++◌, replicate}
use galaxy.Outcome.{ok}
use galaxy.Serialize.Generator.{
  push_bytes_n, push_byte_u, append, push_integer_uvarint, push_integer_u, push_octets,
  get_max_value_of_S_octet_uint, push_varstring, push_vector_object, push_each,
}
use galaxy.Crypto.Systems.{int_to_enum, enum_is_valid_value, t_crypto_system_type_to_id}
use galaxy.Crypto.MultiCryptoStrings.{
  use_open, use_secret, at, add_key, set_hash_dirty, serialize_bin, serialize_into_gen, count_used,
  push_systems,
}
use galaxy.Crypto.KeyPairs.{
  Generators, KeyPair, MultikeysPair, generate_counts, generate_at, generate, generate_pairs,
  generate_key_pair, add_public_and_private,
}
use galaxy.Crypto.KeyPairs.Added.{added, any_made}
use galaxy.Crypto.KeyPairs.Rounds.{generate_counts-added}

abbrev numbered : Generators
numbered = record {
  keypair = λ sys n. record { private_key = sys ∷ n ∷ 0 ∷ []; public_key = sys ∷ n ∷ 1 ∷ [] };
  enable_crypto_ntru = false;
  enable_crypto_sidh = true;
}

abbrev counts : List ℕ
counts = replicate 5 0 ++ (2 ∷ 0 ∷ 0 ∷ 1 ∷ replicate 23 0)

abbrev before : MultikeysPair
before = record {
  m_pub = record {
    m_cryptolists_general = replicate 5 [] ++ (((3 ∷ []) ∷ []) ∷ replicate 26 []);
    m_hash_cached = 9 ∷ [];
    m_crypto_use = use_open;
  };
  m_prv = record {
    m_cryptolists_general = replicate 5 [] ++ (((4 ∷ []) ∷ []) ∷ replicate 26 []);
    m_hash_cached = [];
    m_crypto_use = use_secret;
  };
}

abbrev after : MultikeysPair
after = record {
  m_pub = record {
    m_cryptolists_general =
        replicate 5 []
        ++ (((3 ∷ []) ∷ (5 ∷ 0 ∷ 1 ∷ []) ∷ (5 ∷ 1 ∷ 1 ∷ []) ∷ [])
            ∷ []
            ∷ []
            ∷ ((8 ∷ 0 ∷ 1 ∷ []) ∷ [])
            ∷ replicate 23 []);
    m_hash_cached = [];
    m_crypto_use = use_open;
  };
  m_prv = record {
    m_cryptolists_general =
        replicate 5 []
        ++ (((4 ∷ []) ∷ (5 ∷ 0 ∷ 0 ∷ []) ∷ (5 ∷ 1 ∷ 0 ∷ []) ∷ [])
            ∷ []
            ∷ []
            ∷ ((8 ∷ 0 ∷ 0 ∷ []) ∷ [])
            ∷ replicate 23 []);
    m_hash_cached = [];
    m_crypto_use = use_secret;
  };
}

generated : generate_counts numbered true 0 counts before ≡ ok tt after
unfolding generate_counts generate_at generate generate_pairs generate_key_pair
    add_public_and_private int_to_enum enum_is_valid_value at add_key set_hash_dirty serialize_bin
    serialize_into_gen count_used push_systems t_crypto_system_type_to_id push_vector_object
    push_each push_bytes_n push_byte_u append push_integer_uvarint push_integer_u push_octets
    get_max_value_of_S_octet_uint push_varstring
generated = refl

generate_counts-added_example : after ≡ record {
  m_pub = record (before.m_pub) {
    m_cryptolists_general =
        added numbered
          (λ (k : KeyPair). k.public_key)
          true
          0
          counts
          before.m_pub.m_cryptolists_general;
    m_hash_cached = if any_made true 0 counts then [] else before.m_pub.m_hash_cached;
  };
  m_prv = record (before.m_prv) {
    m_cryptolists_general =
        added numbered
          (λ (k : KeyPair). k.private_key)
          true
          0
          counts
          before.m_prv.m_cryptolists_general;
  };
}
generate_counts-added_example =
    generate_counts-added numbered true counts before after refl refl refl generated
