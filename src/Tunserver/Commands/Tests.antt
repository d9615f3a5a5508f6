-- ===== src/Tunserver/Commands/Tests.antt =====
-- A query and its reply between two nodes, and the query for an address with a ';' in it.
use galaxy.Prelude.{
  ℕ, ◌≡◌, ◌≢◌, ◌≤◌, refl, sym, ap, ◌∙◌, [], ◌∷◌, none, false, true, replicate, length, arith,
}
use galaxy.Outcome.{ok, err, runtime_error}
use galaxy.Try.{Try, value, throws}
use galaxy.Serialize.Generator.{
  Str, append, push_bytes_n, push_byte_u, push_integer_uvarint, push_integer_u, push_octets,
  get_max_value_of_S_octet_uint, push_varstring, push_vector_object, push_each,
}
use galaxy.Serialize.Codec.{IsSane}
use galaxy.StdString.{contains, find_char}
use galaxy.Haship.{Addr}
use galaxy.IpAddr.{Ip46Addr, tag_none, tag_ipv4}
use galaxy.Crypto.Systems.{t_crypto_system_type_to_id}
use galaxy.Crypto.MultiCryptoStrings.{
  MultiCryptoStrings, serialize_bin, serialize_into_gen, count_used, push_systems,
}
use galaxy.Crypto.KeyPairs.{MultikeysPair}
use galaxy.Crypto.Stream.{hash_of}
use galaxy.Crypto.Stream.Agreement.{Party}
use galaxy.Crypto.Stream.Tests.{
  toy, toy_pair, Same, toy_ciphers, toy_random, toy-Documented, toy_random-Sized, toy_pair-Party,
  x-HasId,
}
use galaxy.Crypto.Tunnel.Handshake.{Apart}
use galaxy.Tunserver.Peers.{TunnelUse}
use galaxy.Crypto.Fingerprint.{
  get_hash, update_hash, cached, fingerprint_into_gen, push_fingerprints, fingerprint, accumulate,
}
use galaxy.Crypto.Xor.{binary_string_xor, xor_each, xor_bits}
use galaxy.Tunserver.{Platform, Peering}
use galaxy.Tunserver.Peers.{get_peer_with_hip}
use galaxy.Tunserver.Routing.{
  RouteInfo, Node, get_route_or_maybe_search, known_or_search, search_mode_help_find, query_text,
}
use galaxy.Tunserver.Commands.{
  handle_findhip_query, command_is_valid_from_unknown_peer, cmd_findhip_reply,
}
use galaxy.Tunserver.Commands.Answers.{after_reply, Learns, findhip_learnt, findhip_refused}

abbrev goal : Addr
goal = 0xfd ∷ 0x42 ∷ replicate 14 7

abbrev odd_goal : Addr
odd_goal = 0xfd ∷ 0x42 ∷ 5 ∷ b';' ∷ replicate 12 7

abbrev asker_hip : Addr
asker_hip = 0xfd ∷ 0x42 ∷ replicate 14 11

abbrev pip : Ip46Addr
pip = tag_ipv4 (10 ∷ 0 ∷ 0 ∷ 1 ∷ []) 19042

abbrev asker : Peering
asker = record {
  m_peering_addr = pip;
  m_haship_addr = asker_hip;
  m_pubkey = none;
  m_last_ping_time = 0;
}

-- The identity that is looked for, and the asker's own.
abbrev identity : MultikeysPair
identity = toy_pair ((1 ∷ 2 ∷ []) ∷ []) [] []

abbrev my_idc : MultikeysPair
my_idc = toy_pair ((5 ∷ []) ∷ []) [] []

abbrev pubkey : MultiCryptoStrings
pubkey = identity.m_pub

abbrev mine : TunnelUse ℕ
mine = record { ciphers = toy_ciphers; agreements = toy; random = toy_random; m_my_idc = my_idc }

abbrev route : RouteInfo
route = record { m_nexthop = goal; m_pubkey = pubkey; m_cost = 3; m_time = 1 }

abbrev node : Node
node = record {
  server = record {
    m_peer = (asker_hip, asker) ∷ [];
    m_peer_black_list = [];
    m_unban_if_banned = false;
    m_tunnel = [];
    sent = [];
  };
  m_search = [];
  m_route_nexthop = (goal, route) ∷ [];
}

abbrev other : Node
other = record node { m_route_nexthop = [] }

abbrev toy_platform : Platform
toy_platform = record {
  ip46_addr = λ text port. throws runtime_error;
  addr_dot = λ text. throws runtime_error;
  is_normal_ipv4 = λ text. true;
  hip_of_pubkey = λ keys. goal;
}

pip_tagged : pip ≢ tag_none
pip_tagged h = cc h

has_route :
    get_route_or_maybe_search 100 goal
      (record { m_his_addr = asker_hip; m_search_mode = search_mode_help_find })
      true
      4
      node
    ≡ ok route node
unfolding get_route_or_maybe_search known_or_search get_peer_with_hip
has_route = refl

abbrev size_of : Try Str → ℕ
size_of (value bytes) = length bytes
size_of (throws e) = 0

pubkey_size : size_of (serialize_bin pubkey) ≡ 11
unfolding serialize_bin serialize_into_gen count_used push_systems t_crypto_system_type_to_id
    push_vector_object push_each push_bytes_n push_byte_u append push_integer_uvarint push_integer_u
    push_octets get_max_value_of_S_octet_uint push_varstring
pubkey_size = refl

pubkey-IsSane : (bytes : Str) → serialize_bin pubkey ≡ value bytes → IsSane bytes
pubkey-IsSane bytes h =
    let same : length bytes ≡ 11 = ap size_of (sym h) ∙ pubkey_size in omega (arith, same)

identity_hash : hash_of toy identity.m_pub ≡ value (205 ∷ replicate 63 0)
unfolding hash_of get_hash update_hash cached fingerprint_into_gen push_fingerprints fingerprint
    accumulate binary_string_xor xor_each xor_bits count_used t_crypto_system_type_to_id
    push_bytes_n push_byte_u append push_integer_uvarint push_integer_u push_octets
    get_max_value_of_S_octet_uint push_varstring
identity_hash = refl

my_hash : hash_of toy my_idc.m_pub ≡ value (201 ∷ replicate 63 0)
unfolding hash_of get_hash update_hash cached fingerprint_into_gen push_fingerprints fingerprint
    accumulate binary_string_xor xor_each xor_bits count_used t_crypto_system_type_to_id
    push_bytes_n push_byte_u append push_integer_uvarint push_integer_u push_octets
    get_max_value_of_S_octet_uint push_varstring
my_hash = refl

hashes_differ : (a b : ℕ) → a ≢ b → (a ∷ replicate 63 0) ≢ (b ∷ replicate 63 0)
hashes_differ a b ne h = ne (cc h)

my_idc-identity : Apart toy my_idc identity
my_idc-identity = record {
  hash_mine = _;
  hash_theirs = _;
  hashes_mine = my_hash;
  hashes_theirs = identity_hash;
  size = refl;
  differ = hashes_differ 201 205 (λ e. omega (arith, e));
}

one_key-Party : (key : Str) → length key ≤ 50_000_000 → Party Same (toy_pair (key ∷ []) [] [])
one_key-Party key sane = toy_pair-Party _ _ _ (x-HasId, (omega arith, (sane, tt)), tt)

findhip_learnt_example :
    (reply : Str) × (handle_findhip_query 100 asker pip (query_text goal 5) node
      ≡ ok tt (after_reply reply asker node))
    × Learns mine toy_platform 200 asker_hip goal route reply other
unfolding contains find_char
findhip_learnt_example =
    findhip_learnt mine 100 5 asker pip goal node node route toy_platform 200 asker_hip other
      identity refl refl (λ h. omega (arith, h)) (omega arith) has_route refl
      (one_key-Party (1 ∷ 2 ∷ []) (omega arith)) (refl, refl) pubkey-IsSane pip_tagged refl
      toy-Documented toy_random-Sized (one_key-Party (5 ∷ []) (omega arith)) my_idc-identity

findhip_refused_example :
    handle_findhip_query 100 asker pip (query_text odd_goal 5) node ≡ err runtime_error node
unfolding contains find_char
findhip_refused_example = findhip_refused 100 5 asker pip odd_goal node refl refl

replies_need_peers : command_is_valid_from_unknown_peer cmd_findhip_reply ≡ false
unfolding command_is_valid_from_unknown_peer
replies_need_peers = refl
