-- ===== src/Tunserver/HiTests.antt =====
-- A greeting with one Ed25519 key, from a node that is not known.
use galaxy.Prelude.{
  ℕ, ◌≡◌, ◌≢◌, ap, sym, ◌∙◌, refl, false, true, [], ◌∷◌, ◌++◌, replicate, str_eq, length,
}
use galaxy.Outcome.{runtime_error}
use galaxy.Try.{value, throws}
use galaxy.Serialize.Generator.{Str}
use galaxy.Haship.{Addr}
use galaxy.IpAddr.{Ip46Addr, tag_ipv4}
use galaxy.Crypto.MultiSign.{Verifiers}
use galaxy.Tunserver.{Platform, Tunserver}
use galaxy.Tunserver.Peers.WellFormed.{after}
use galaxy.Tunserver.Peers.{tunnel_use}
use galaxy.Crypto.Tunnel.{initiate}
use galaxy.Crypto.Stream.Exchange.{exchange, create_boxer_with_k}
use galaxy.Crypto.Stream.{
  calculate_kct, calculate_nonce_odd, kex_systems, kex_at, ntru_round_of, hash_of,
}
use galaxy.Crypto.Kex.{kex_system, kex_rounds, locked_substr, write_kexasym}
use galaxy.Crypto.MultiCryptoStrings.{get_count_of_systems, get_count_keys_in_system, count_used}
use galaxy.Crypto.Fingerprint.{
  get_hash, update_hash, cached, fingerprint_into_gen, push_fingerprints, fingerprint, accumulate,
}
use galaxy.Crypto.Xor.{binary_string_xor, xor_each, xor_bits}
use galaxy.Crypto.Systems.{t_crypto_system_type_to_id}
use galaxy.Serialize.Generator.{
  push_bytes_n, push_byte_u, append, push_integer_uvarint, push_integer_u, push_octets,
  get_max_value_of_S_octet_uint, push_varstring, push_map_object, push_each,
}
use galaxy.Tunserver.Peers.{TunnelUse}
use galaxy.Crypto.Stream.Tests.{toy, toy_pair, toy_ciphers, toy_random}
use galaxy.Tunserver.Hi.{read_public_hi, accept_public_hi, load_sign, add_his_pubkey}
use galaxy.Serialize.Parser.{
  pop_varstring, pop_integer_uvarint, pop_bytes_n, pop_vector_object, pop_each, is_end,
  parser_of_string, pop_vector_string, pop_byte_u, pop_octets, pop_integer_u,
}
use galaxy.Crypto.Tunnel.{load_pub}
use galaxy.Crypto.MultiCryptoStrings.{
  load_from_bin, load_parsed, load_map, load_systems, assign_system, set_hash_dirty, add_key, at,
}
use galaxy.Crypto.Systems.{t_crypto_system_type_from_id, int_to_enum, enum_is_valid_value}
use galaxy.Crypto.MultiSign.Save.{
  load_signatures, load_signatures_of, read_signatures, add_signature_vec,
}
use galaxy.Crypto.MultiSign.{
  multi_sign_verify, verify_systems, verify_at, cryptosystem_sign_allowed, multi_sign_verify_system,
  verify_each,
}
use galaxy.Tunserver.Peers.{add_peer_append_pubkey, append_new, print_added, add_tunnel_to_pubkey}
use galaxy.Tunserver.Hi.{handle_public_hi, Verified, handle_public_hi-Verified}

-- A signature that is the key and the message.
abbrev joined : Verifiers
joined = record {
  crypto_sign_verify_detached = λ sign msg pubkey. str_eq sign (pubkey ++ msg);
  ntru_verify = λ sign msg pubkey. false;
  enable_crypto_ntru = false;
}

abbrev stranger : Addr
stranger = 0xfd ∷ replicate 15 4

abbrev toy_platform : Platform
toy_platform = record {
  ip46_addr = λ text port. throws runtime_error;
  addr_dot = λ text. value stranger;
  is_normal_ipv4 = λ text. true;
  hip_of_pubkey = λ keys. stranger;
}

abbrev node : Tunserver
node = record {
  m_peer = [];
  m_peer_black_list = [];
  m_unban_if_banned = false;
  m_tunnel = [];
  sent = [];
}

abbrev pip : Ip46Addr
pip = tag_ipv4 (10 ∷ 0 ∷ 0 ∷ 1 ∷ []) 9042

abbrev mine : TunnelUse ℕ
mine = record {
  ciphers = toy_ciphers;
  agreements = toy;
  random = toy_random;
  m_my_idc = toy_pair ((5 ∷ []) ∷ []) [] [];
}

-- The key 7 of the connection, the public key 1, and the signature of the one by the other.
abbrev hi : Str
hi =
    (1 ∷ 7 ∷ [])
    ++ ((10 ∷ 71 ∷ 77 ∷ 75 ∷ 97 ∷ 111 ∷ 1 ∷ 101 ∷ 1 ∷ 1 ∷ 1 ∷ [])
        ++ (7 ∷ 6 ∷ 1 ∷ 2 ∷ 1 ∷ 7 ∷ 11 ∷ 0 ∷ []))

one_tunnel :
    length (after (handle_public_hi mine toy_platform joined 100 false pip hi node)).m_tunnel ≡ 1
unfolding handle_public_hi read_public_hi accept_public_hi load_sign add_his_pubkey pop_varstring
    pop_integer_uvarint pop_bytes_n pop_vector_object pop_each is_end parser_of_string
    pop_vector_string pop_byte_u pop_octets pop_integer_u load_pub load_from_bin load_parsed
    load_map load_systems assign_system set_hash_dirty add_key at t_crypto_system_type_from_id
    int_to_enum enum_is_valid_value load_signatures load_signatures_of read_signatures
    add_signature_vec multi_sign_verify verify_systems verify_at cryptosystem_sign_allowed
    multi_sign_verify_system verify_each add_peer_append_pubkey append_new print_added
    add_tunnel_to_pubkey tunnel_use initiate exchange create_boxer_with_k calculate_kct
    calculate_nonce_odd kex_systems kex_at ntru_round_of hash_of kex_system kex_rounds locked_substr
    write_kexasym get_count_of_systems get_count_keys_in_system count_used get_hash update_hash
    cached fingerprint_into_gen push_fingerprints fingerprint accumulate binary_string_xor xor_each
    xor_bits t_crypto_system_type_to_id push_bytes_n push_byte_u append push_integer_uvarint
    push_integer_u push_octets get_max_value_of_S_octet_uint push_varstring push_map_object
    push_each
one_tunnel = refl

changed : after (handle_public_hi mine toy_platform joined 100 false pip hi node) ≢ node
changed h =
    let none_left : 1 ≡ 0 = sym one_tunnel ∙ ap (λ (s : Tunserver). length s.m_tunnel) h in
    cc none_left

handle_public_hi-Verified_example : Verified mine toy_platform joined 100 false pip hi
handle_public_hi-Verified_example =
    handle_public_hi-Verified mine toy_platform joined 100 false pip hi node changed
