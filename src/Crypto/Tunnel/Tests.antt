-- ===== src/Crypto/Tunnel/Tests.antt =====
-- A handshake of two tunnels of src/crypto/crypto.cpp, with the ciphers and agreements of the tests of
-- the streams.
use galaxy.Prelude.{
  ℕ, ◌+◌, ◌≤◌, ◌≡◌, ◌≢◌, refl, sym, ap, ◌∙◌, true, [], ◌∷◌, length, replicate, arith,
}
use galaxy.Outcome.{Outcome, ok, err}
use galaxy.Try.{Try, value, throws}
use galaxy.Serialize.Generator.{Str}
use galaxy.Serialize.Generator.{
  push_bytes_n, push_byte_u, append, push_integer_uvarint, push_integer_u, push_octets,
  get_max_value_of_S_octet_uint, push_varstring, push_vector_object, push_each,
}
use galaxy.Serialize.Generator.{push_map_object}
use galaxy.Serialize.Codec.{IsSane}
use galaxy.Serialize.Parser.{sane_max_size_for_string}
use galaxy.Crypto.Kex.{
  kex_system, kex_rounds, x25519_round, sidh_round, join, agreed_hash, locked_substr, write_kexasym,
}
use galaxy.Crypto.Stream.{calculate_kct, calculate_nonce_odd, kex_systems, kex_at, ntru_round_of}
use galaxy.Crypto.Stream.Exchange.{exchange, create_boxer_with_k}
use galaxy.Crypto.MultiCryptoStrings.{get_key, get_count_of_systems}
use galaxy.Crypto.Systems.{int_to_enum, enum_is_valid_value, t_crypto_system_type_to_id}
use galaxy.Crypto.KeyPairs.{
  generate_at, generate, generate_pairs, generate_key_pair, add_public_and_private,
}
use galaxy.Crypto.MultiCryptoStrings.{
  get_count_keys_in_system, at, add_key, set_hash_dirty, serialize_into_gen, count_used,
  push_systems,
}
use galaxy.Crypto.Fingerprint.{
  get_hash, update_hash, cached, fingerprint_into_gen, push_fingerprints, fingerprint, accumulate,
}
use galaxy.Crypto.Xor.{binary_string_xor, xor_each, xor_bits}
use galaxy.Crypto.Stream.Counts.{used_at}
use galaxy.Crypto.Systems.{system_type_end}
use galaxy.Crypto.KeyPairs.{MultikeysPair, Generators, generate_counts, no_keys}
use galaxy.Crypto.KeyPairs.Generated.{Genuine}
use galaxy.Crypto.MultiCryptoStrings.{serialize_bin, use_open}
use galaxy.Crypto.MultiCryptoStrings.Save.{Saveable}
use galaxy.Crypto.Stream.{Stream, new_stream, hash_of}
use galaxy.Crypto.Stream.Exchange.{exchange_start}
use galaxy.Crypto.Stream.Agreement.{Party}
use galaxy.Crypto.Stream.Counts.{used_systems}
use galaxy.Crypto.Stream.Tests.{
  toy, Same, toy-Documented, toy_random, toy_random-Sized, toy_pair, toy_keys, toy_pair-Party,
  x-HasId, t-HasId, s-HasId, toy_ciphers, toy_ciphers-Opens,
}
use galaxy.Crypto.Tunnel.Handshake.{Apart, Established}
use galaxy.Crypto.Tunnel.Completes.{Established-generated}

abbrev alice : MultikeysPair
alice = toy_pair ((1 ∷ []) ∷ []) [] ((2 ∷ []) ∷ [])

abbrev bob : MultikeysPair
bob = toy_pair ((3 ∷ []) ∷ (4 ∷ []) ∷ []) ((5 ∷ []) ∷ []) ((9 ∷ []) ∷ [])

abbrev toy_generators : ℕ → Generators
toy_generators key = record {
  keypair = λ sys n. record { private_key = key ∷ []; public_key = key ∷ [] };
  enable_crypto_ntru = true;
  enable_crypto_sidh = true;
}

abbrev ide_a : MultikeysPair
ide_a = toy_pair ((11 ∷ []) ∷ []) [] ((11 ∷ []) ∷ [])

abbrev ide_b : MultikeysPair
ide_b = toy_pair ((13 ∷ []) ∷ []) [] ((13 ∷ []) ∷ [])

made_a :
    generate_counts
      (toy_generators 11)
      true
      0
      (used_systems alice.m_pub bob.m_pub system_type_end 0)
      no_keys
    ≡ ok tt ide_a
unfolding generate_counts generate_at generate generate_pairs generate_key_pair
    add_public_and_private int_to_enum enum_is_valid_value used_systems used_at
    get_count_keys_in_system at add_key set_hash_dirty serialize_bin serialize_into_gen count_used
    push_systems t_crypto_system_type_to_id push_vector_object push_each push_bytes_n push_byte_u
    append push_integer_uvarint push_integer_u push_octets get_max_value_of_S_octet_uint
    push_varstring
made_a = refl

made_b :
    generate_counts
      (toy_generators 13)
      true
      0
      (used_systems bob.m_pub alice.m_pub system_type_end 0)
      no_keys
    ≡ ok tt ide_b
unfolding generate_counts generate_at generate generate_pairs generate_key_pair
    add_public_and_private int_to_enum enum_is_valid_value used_systems used_at
    get_count_keys_in_system at add_key set_hash_dirty serialize_bin serialize_into_gen count_used
    push_systems t_crypto_system_type_to_id push_vector_object push_each push_bytes_n push_byte_u
    append push_integer_uvarint push_integer_u push_octets get_max_value_of_S_octet_uint
    push_varstring
made_b = refl

alice_hash : hash_of toy alice.m_pub ≡ value (132 ∷ replicate 63 0)
unfolding hash_of get_hash update_hash cached fingerprint_into_gen push_fingerprints fingerprint
    accumulate binary_string_xor xor_each xor_bits count_used t_crypto_system_type_to_id
    push_bytes_n push_byte_u append push_integer_uvarint push_integer_u push_octets
    get_max_value_of_S_octet_uint push_varstring
alice_hash = refl

bob_hash : hash_of toy bob.m_pub ≡ value (53 ∷ replicate 63 0)
unfolding hash_of get_hash update_hash cached fingerprint_into_gen push_fingerprints fingerprint
    accumulate binary_string_xor xor_each xor_bits count_used t_crypto_system_type_to_id
    push_bytes_n push_byte_u append push_integer_uvarint push_integer_u push_octets
    get_max_value_of_S_octet_uint push_varstring
bob_hash = refl

ide_a_hash : hash_of toy ide_a.m_pub ≡ value (53 ∷ replicate 63 0)
unfolding hash_of get_hash update_hash cached fingerprint_into_gen push_fingerprints fingerprint
    accumulate binary_string_xor xor_each xor_bits count_used t_crypto_system_type_to_id
    push_bytes_n push_byte_u append push_integer_uvarint push_integer_u push_octets
    get_max_value_of_S_octet_uint push_varstring
ide_a_hash = refl

ide_b_hash : hash_of toy ide_b.m_pub ≡ value (241 ∷ replicate 63 0)
unfolding hash_of get_hash update_hash cached fingerprint_into_gen push_fingerprints fingerprint
    accumulate binary_string_xor xor_each xor_bits count_used t_crypto_system_type_to_id
    push_bytes_n push_byte_u append push_integer_uvarint push_integer_u push_octets
    get_max_value_of_S_octet_uint push_varstring
ide_b_hash = refl

abbrev kexasym_size : Outcome (Stream ℕ) (Unit {0}) → ℕ
kexasym_size (ok _ stream) = length stream.m_packetstart_kexasym
kexasym_size (err e stream) = 0

ab_size :
    kexasym_size (exchange_start toy_ciphers toy toy_random alice bob.m_pub true (new_stream true))
    ≡ 1
unfolding exchange calculate_kct calculate_nonce_odd create_boxer_with_k kex_systems kex_at
    kex_system kex_rounds x25519_round sidh_round join agreed_hash get_key at
    get_count_keys_in_system get_count_of_systems ntru_round_of locked_substr write_kexasym
    push_map_object push_each int_to_enum enum_is_valid_value hash_of get_hash update_hash cached
    fingerprint_into_gen push_fingerprints fingerprint accumulate binary_string_xor xor_each
    xor_bits count_used t_crypto_system_type_to_id push_bytes_n push_byte_u append
    push_integer_uvarint push_integer_u push_octets get_max_value_of_S_octet_uint push_varstring
ab_size = refl

final_size :
    kexasym_size
      (exchange_start toy_ciphers toy toy_random ide_b ide_a.m_pub true (new_stream true))
    ≡ 1
unfolding exchange calculate_kct calculate_nonce_odd create_boxer_with_k kex_systems kex_at
    kex_system kex_rounds x25519_round sidh_round join agreed_hash get_key at
    get_count_keys_in_system get_count_of_systems ntru_round_of locked_substr write_kexasym
    push_map_object push_each int_to_enum enum_is_valid_value hash_of get_hash update_hash cached
    fingerprint_into_gen push_fingerprints fingerprint accumulate binary_string_xor xor_each
    xor_bits count_used t_crypto_system_type_to_id push_bytes_n push_byte_u append
    push_integer_uvarint push_integer_u push_octets get_max_value_of_S_octet_uint push_varstring
final_size = refl

IsSane-kexasym :
    (outcome : Outcome (Stream ℕ) (Unit {0}))
    → kexasym_size outcome ≡ 1
    → (stream : Stream ℕ) → outcome ≡ ok tt stream
    → IsSane stream.m_packetstart_kexasym
IsSane-kexasym outcome e stream h =
    let same : length stream.m_packetstart_kexasym ≡ 1 = ap kexasym_size (sym h) ∙ e in
    omega (arith, same)

abbrev size_of : Try Str → ℕ
size_of (value bytes) = length bytes
size_of (throws e) = 0

small_bytes :
    (saved : Try Str)
    → size_of saved ≡ 14
    → (bytes : Str) → saved ≡ value bytes
    → length bytes + 16 ≤ sane_max_size_for_string
small_bytes saved e bytes h =
    let same : length bytes ≡ 14 = ap size_of (sym h) ∙ e in omega (arith, same)

ide_size :
    (key : ℕ) → size_of (serialize_bin (toy_pair ((key ∷ []) ∷ []) [] ((key ∷ []) ∷ [])).m_pub) ≡ 14
unfolding serialize_bin serialize_into_gen count_used push_systems t_crypto_system_type_to_id
    push_vector_object push_each push_bytes_n push_byte_u append push_integer_uvarint push_integer_u
    push_octets get_max_value_of_S_octet_uint push_varstring
ide_size key = refl

toy_Genuine : (key : ℕ) → Genuine Same (toy_generators key)
toy_Genuine key sys n = refl

hashes_differ : (a b : ℕ) → (a ≢ b) → (a ∷ replicate 63 0) ≢ (b ∷ replicate 63 0)
hashes_differ a b ne h = ne (cc h)

alice-bob : Apart toy alice bob
alice-bob = record {
  hash_mine = _;
  hash_theirs = _;
  hashes_mine = alice_hash;
  hashes_theirs = bob_hash;
  size = refl;
  differ = hashes_differ 132 53 (λ e. omega (arith, e));
}

ide_b-ide_a : Apart toy ide_b ide_a
ide_b-ide_a = record {
  hash_mine = _;
  hash_theirs = _;
  hashes_mine = ide_b_hash;
  hashes_theirs = ide_a_hash;
  size = refl;
  differ = hashes_differ 241 53 (λ e. omega (arith, e));
}

x_and_s-Saveable :
    (key key' : ℕ)
    → Saveable 0 (toy_keys ((key ∷ []) ∷ []) [] ((key' ∷ []) ∷ []) use_open).m_cryptolists_general
x_and_s-Saveable key key' =
    (x-HasId, (omega arith, (omega arith, tt)), (s-HasId, (omega arith, (omega arith, tt)), tt))

bob-Party : Party Same bob
bob-Party = toy_pair-Party _ _ _ (
  x-HasId,
  (omega arith, (omega arith, (omega arith, tt))),
  (t-HasId, (omega arith, (omega arith, tt)), (s-HasId, (omega arith, (omega arith, tt)), tt)),
)

Established-generated_example :
    Established toy_ciphers toy
      (toy_generators 11)
      (toy_generators 13)
      (λ exchange. toy_random)
      alice
      bob
Established-generated_example =
    Established-generated toy_ciphers toy_ciphers-Opens (λ key msg nonce. omega arith)
      toy-Documented (toy_generators 11) (toy_generators 13) (λ exchange. toy_random) ide_a ide_b
      (toy_Genuine 11) (toy_Genuine 13) (λ exchange. toy_random-Sized)
      (toy_pair-Party _ _ _ (x_and_s-Saveable 1 2)) bob-Party alice-bob made_a made_b
      (x_and_s-Saveable 11 11) (x_and_s-Saveable 13 13) ide_b-ide_a (IsSane-kexasym _ ab_size)
      (IsSane-kexasym _ final_size) (small_bytes _ (ide_size 11)) (small_bytes _ (ide_size 13))
