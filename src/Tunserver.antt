-- ===== src/Tunserver.antt =====
-- src/tunserver.hpp and tunserver.cpp with src/c_peering.hpp and c_peering.cpp: the peers of a node, its
-- black list and its tunnels, and what the calls of the Tunserver children do to them.
pub mod Parse
pub mod Peers
pub mod Bans
pub mod Standing
pub mod Rpc
pub mod Requests
pub mod Routing
pub mod Forward
pub mod Commands
pub mod Hi
mod HiTests
mod Tests
use galaxy.Prelude.{ℕ, ◌≡◌, Bool, true, false, List, [], ◌∷◌, Option, none, some, if◌then◌else◌}
use galaxy.Outcome.{Outcome, ok, err, M}
use galaxy.Try.{Try, value, throws}
use galaxy.Serialize.Generator.{Str}
use galaxy.StdMap.{find, emplace, erase}
use galaxy.Haship.{Addr}
use galaxy.IpAddr.{Ip46Addr}
use galaxy.Crypto.MultiCryptoStrings.{MultiCryptoStrings}

-- What the node calls: the parsers of addresses, which are the kernel's and boost's, and the hash-ip of
-- a public key, which rests on Hash1.
pub record Platform : Type 0 where
  -- c_ip46_addr(string, port): getaddrinfo and inet_pton
  pub ip46_addr : Str → ℕ → Try Ip46Addr
  -- c_haship_addr(tag_constr_by_addr_dot(), string): boost::asio
  pub addr_dot : Str → Try Addr
  -- boost: the string is an IPv4 address of class A, B or C, or loopback, and neither unspecified nor
  -- multicast
  pub is_normal_ipv4 : Str → Bool
  -- get_ipv6_string_bin of a public key, by its hash
  pub hip_of_pubkey : MultiCryptoStrings → Addr

-- t_peering_reference
pub record PeeringReference : Type 0 where
  pub peering_addr : Ip46Addr
  pub haship_addr : Addr

-- c_peering, without the counters of its traffic.
pub record Peering : Type 0 where
  pub m_peering_addr : Ip46Addr
  pub m_haship_addr : Addr
  -- nullptr until it is known
  pub m_pubkey : Option MultiCryptoStrings
  pub m_last_ping_time : ℕ

-- The part of c_tunserver that the peers are kept in; a set is a map to Unit.
pub record Tunserver : Type 0 where
  pub m_peer : List (Addr × Peering)
  pub m_peer_black_list : List (Addr × Unit {0})
  pub m_unban_if_banned : Bool
  -- the tunnels, each as the public key of its other end; what a tunnel keeps is in Crypto/Tunnel
  pub m_tunnel : List (Addr × MultiCryptoStrings)
  -- the datagrams handed to the UDP wrapper, in order
  pub sent : List (Ip46Addr × Str)

-- The constructor of c_peering, at the time `now`.
unfoldable pub new_peering : ℕ → PeeringReference → Peering
new_peering now ref = record {
  m_peering_addr = ref.peering_addr;
  m_haship_addr = ref.haship_addr;
  m_pubkey = none;
  m_last_ping_time = now;
}

unfoldable pub set_pubkey : MultiCryptoStrings → Peering → Peering
set_pubkey pubkey peering = record peering { m_pubkey = some pubkey }

unfoldable pub set_pip : Ip46Addr → Peering → Peering
set_pip addr peering = record peering { m_peering_addr = addr }

unfoldable pub update_last_ping_time : ℕ → Peering → Peering
update_last_ping_time now peering = record peering { m_last_ping_time = now }

unfoldable pub is_pubkey : Peering → Bool
is_pubkey peering = elim peering.m_pubkey [ none ↦ false | some pubkey ↦ true ]

-- add_peer: true where the peer is new.
unfoldable pub add_peer : ℕ → PeeringReference → M Tunserver Bool
add_peer now ref self = elim (find ref.haship_addr self.m_peer) [
  | some peering ↦ ok false self
  | none ↦
      ok true (record self { m_peer = emplace ref.haship_addr (new_peering now ref) self.m_peer })
]

-- delete_peer: true where there was one.
unfoldable pub delete_peer : Addr → M Tunserver Bool
delete_peer hip self = elim (find hip self.m_peer) [
  | some peering ↦ ok true (record self { m_peer = erase hip self.m_peer })
  | none ↦ ok false self
]

unfoldable pub add_peer_to_black_list : Addr → M Tunserver (Unit {0})
add_peer_to_black_list hip self =
    ok tt (record self { m_peer_black_list = emplace hip tt self.m_peer_black_list })

unfoldable pub delete_peer_from_black_list : Addr → M Tunserver (Unit {0})
delete_peer_from_black_list hip self =
    ok tt (record self { m_peer_black_list = erase hip self.m_peer_black_list })

unfoldable pub peer_on_black_list : Addr → Tunserver → Bool
peer_on_black_list hip self = elim (find hip self.m_peer_black_list) [
  | none ↦ false
  | some u ↦ true
]

-- The loop of delete_all_peers over the peers.
unfoldable pub ban_each : List (Addr × Peering) → List (Addr × Unit {0}) → List (Addr × Unit {0})
ban_each [] black_list = black_list
ban_each ((hip, peering) ∷ peers) black_list = ban_each peers (emplace hip tt black_list)

unfoldable pub delete_all_peers : Bool → M Tunserver (Unit {0})
delete_all_peers is_banned self = ok tt (record self {
  m_peer = [];
  m_peer_black_list =
      if is_banned then ban_each self.m_peer self.m_peer_black_list else self.m_peer_black_list;
})
