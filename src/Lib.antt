-- ===== src/Lib.antt =====
-- galaxy42, the mesh-network daemon of this repository: a model of its core logic, with the theorems
-- that make it correct.
--
-- A node has a hash-ip, an IPv6 address made of the hash of its public keys, and peers that it reaches
-- over UDP. The parts that are modelled, from the octets up:
--
--   * Serialize (src/trivialserialize.hpp and .cpp): `generator` writes octets, numbers, strings,
--     vectors and maps, `parser` reads them. A generator is the octets written so far, a parser the
--     octets that are left; Serialize/Buffer keeps the addresses instead, for the one call that copies
--     into the caller's memory. Serialize/Codec is the interface of a type that can be saved, which
--     Vectors and Maps take and Strings and Integers fill.
--   * Stdplus (src/stdplus): the test for overlapping ranges and the checked copy of misc.hpp, and in
--     Eint the checked integers of eint.hpp, by the sign and the largest value of their type.
--   * StringsUtils (src/strings_utils.cpp): hexadecimal text. Haship (src/haship.cpp, and the printer of
--     src/crypto/multikeys.cpp): hash-ips and their text.
--   * Crypto (src/crypto): Systems are the numbers and IDs of crypto systems (crypto_basic);
--     MultiCryptoStrings is the collection of keys by system, c_multicryptostrings of multikeys.hpp and
--     multikeys.tpl.hpp, saved and loaded with Serialize; Fingerprint is its hash, with Hash2 and
--     Hash2_PRV; Xor is the xor of strings; MultiSign is the verification of signatures by every key of a
--     collection (multikeys.cpp), with Save for the text of c_multisign and Signing for both multi_sign.
--     KeyPairs is c_multikeys_PAIR and its generate; Kex what each crypto system adds to the key
--     of a stream, in the loops of calculate_KCT; Stream is c_stream, with the exchange, the packet start
--     and the boxes; Tunnel is c_crypto_tunnel, the handshake of two nodes through two streams (crypto.hpp
--     and crypto.cpp).
--   * IpAddr (src/c_ip46_addr.cpp, the Linux version): physical addresses and their comparisons.
--   * Galaxysrv (src/galaxysrv_peers.cpp, src/utils/check.cpp): the text of references to peers.
--   * Tunserver (src/tunserver.hpp and .cpp, src/c_peering.hpp and .cpp, src/galaxy42_utils.cpp): the
--     peers, the black list and the tunnels of a node. Parse reads references, Peers holds the calls that
--     use a peer, Rpc the calls by RPC, Bans and Requests the black list through all of them,
--     Standing what those calls mean for each hash-ip alone, and Routing
--     is c_routing_manager, which asks the peers of the same node for routes. Forward is the way of
--     tunneled data from node to node, Commands a peer's query for a route and the reply to it
--     (with src/protocol.cpp), and Hi the greeting of another node.
--
-- Prelude, Outcome, Try, StdMap and StdString are shared: tests and lists over native numbers, what a
-- call leaves (a value or an exception, and the object as the call left it), and the containers and
-- strings of the C++ library. A function has the name of its C++ function; what is one function there
-- and several here says so at the parts. Sums that C++ takes modulo 2 ^ 64, and casts to a char, are
-- written with the modulus; an octet is a number below 256. Asserts are always on, since CMakeLists.txt
-- takes NDEBUG out of every build type; a failed one is `assert_abort`.
--
-- Loops are structural. The loop of parse_peer_reference has a bound on its rounds, the length of the
-- text, and Galaxysrv/Ends shows that it is never reached; the loops of the parser are bounded by the
-- count that they read.
--
-- Code that is not in the repository is a parameter: Hash1 of libsodium, with its 64 octets as a
-- hypothesis, the verification of one signature by libsodium and NTRU, in the record Verifiers, the signing
-- with one key in Signers, the generators of key pairs in Generators, the agreement of one pair of keys in
-- Agreements (with what is documented of it in Documented), the ciphers of sodiumpp with their nonces in
-- Ciphers, random octets, and the parsers of addresses of the kernel and of boost, in the record Platform.
-- TunnelUse has what a node makes its tunnels with, its own keys m_my_IDC among it; a node keeps a tunnel as
-- the public key of its other end. The hash-ip that a node makes of a public key with Hash1
-- (get_ipv6_string_bin) stands in Platform too, as any function of the key. The tests put functions in their
-- place.
--
-- Not modelled: sockets, the TUN device, the event loop and its threads, locks, RPC transport, JSON,
-- options, debug output, the graphical interface, the tools, cryptography itself, and
-- of the commands between nodes the pings, which have no handler.
pub mod Prelude
pub mod Outcome
pub mod Try
pub mod StdMap
pub mod StdString
pub mod Stdplus
pub mod Serialize
pub mod StringsUtils
pub mod IpAddr
pub mod Haship
pub mod Crypto
pub mod Galaxysrv
pub mod Tunserver
