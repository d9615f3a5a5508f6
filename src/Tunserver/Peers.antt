-- ===== src/Tunserver/Peers.antt =====
-- Calls of c_tunserver (src/tunserver.cpp) that use a peer: finding one, the public key that comes
-- with a greeting, tunnels, and commands to all peers.
pub mod WellFormed
pub mod Greeting
use galaxy.Prelude.{
  ℕ, ◌≡◌, Bool, true, false, not, List, [], ◌∷◌, ◌++◌, Option, none, some, str_eq, if◌then◌else◌,
}
use galaxy.Outcome.{
  Outcome, ok, err, M, ◌>>=◌, ◌>>◌, return, throw, runtime_error, out_of_range, expected_not_found,
}
use galaxy.Try.{Try, value, throws}
use galaxy.Serialize.Generator.{Str}
use galaxy.StdMap.{find, emplace, assign}
use galaxy.Haship.{Addr}
use galaxy.IpAddr.{Ip46Addr, tag_none, tag_ipv4, tag_ipv6, addr_equal}
use galaxy.Crypto.MultiCryptoStrings.{MultiCryptoStrings}
use galaxy.Crypto.KeyPairs.{MultikeysPair}
use galaxy.Crypto.Kex.{Agreements}
use galaxy.Crypto.Stream.{Ciphers}
use galaxy.Crypto.Tunnel.{Tunnel, initiate}
use galaxy.Tunserver.{
  Platform, PeeringReference, Peering, Tunserver, new_peering, set_pubkey, set_pip,
  update_last_ping_time, is_pubkey,
}

-- get_peer_with_hip. expected_not_found stands for expected_not_found_missing_pubkey too: no caller
-- treats the two differently.
unfoldable pub get_peer_with_hip : Addr → Bool → Tunserver → Try Peering
get_peer_with_hip addr require_pubkey self = elim (find addr self.m_peer) [
  | none ↦ throws expected_not_found
  | some peer ↦
      if require_pubkey
      then (if is_pubkey peer then value peer else throws expected_not_found)
      else value peer
]

-- A peer that is known already: its key, and its address where that changed. The comparison of the
-- addresses throws where one has no tag.
unfoldable pub update_peering :
    ℕ → PeeringReference → MultiCryptoStrings → Addr → Peering → M Tunserver (Unit {0})
update_peering now ref pubkey hip peering self =
    let named = set_pubkey pubkey (update_last_ping_time now peering) in
    elim (addr_equal peering.m_peering_addr ref.peering_addr) [
      | throws e ↦ err e (record self { m_peer = assign hip named self.m_peer })
      | value true ↦ ok tt (record self { m_peer = assign hip named self.m_peer })
      | value false ↦
          ok tt (record self { m_peer = assign hip (set_pip ref.peering_addr named) self.m_peer })
    ]

-- A peer that is not known is added with its key, unless it is on the black list.
unfoldable pub append_new :
    ℕ → PeeringReference → MultiCryptoStrings → Addr → M Tunserver (Unit {0})
append_new now ref pubkey hip self = elim (find hip self.m_peer_black_list) [
  | some u ↦ ok tt self
  | none ↦
      ok tt
        (record self { m_peer = emplace hip (set_pubkey pubkey (new_peering now ref)) self.m_peer })
]

-- The last debug message prints m_peer.at(hip), where messages of that level are on.
unfoldable pub print_added : Bool → Addr → M Tunserver (Unit {0})
print_added prints_debug hip self =
    if prints_debug
    then elim (find hip self.m_peer) [ none ↦ err out_of_range self | some peering ↦ ok tt self ]
    else ok tt self

-- What a node makes its tunnels with: its own keys m_my_IDC, and the ciphers, the agreements and the random
-- octets of the libraries.
pub record TunnelUse (Nonce : Type 0) : Type 0 where
  pub ciphers : Ciphers Nonce
  pub agreements : Agreements
  pub random : ℕ → Str
  pub m_my_idc : MultikeysPair

-- The first constructor of c_tunnel_use.
unfoldable pub tunnel_use :
    {Nonce : Type 0} → TunnelUse Nonce → MultiCryptoStrings → Try (Tunnel Nonce)
tunnel_use mine them = initiate mine.ciphers mine.agreements mine.random mine.m_my_idc them

module _ (platform : Platform) where
  unfoldable pub add_peer_append_pubkey :
      ℕ → Bool → PeeringReference → MultiCryptoStrings → M Tunserver (Unit {0})
  add_peer_append_pubkey now prints_debug ref pubkey self =
      if not (str_eq (platform.hip_of_pubkey pubkey) ref.haship_addr)
      then err runtime_error self
      else elim (find ref.haship_addr self.m_peer) [
        | none ↦
            (append_new now ref pubkey ref.haship_addr >> print_added prints_debug ref.haship_addr)
              self
        | some peering ↦
            (update_peering now ref pubkey ref.haship_addr peering
                >> print_added prints_debug ref.haship_addr)
              self
      ]

  -- add_tunnel_to_pubkey: a tunnel that is there is kept. An exception of the constructor leaves the map
  -- as it was.
  unfoldable pub add_tunnel_to_pubkey :
      {Nonce : Type 0} → TunnelUse Nonce → MultiCryptoStrings → M Tunserver (Unit {0})
  add_tunnel_to_pubkey mine pubkey self =
      let hip = platform.hip_of_pubkey pubkey in
      elim (find hip self.m_tunnel) [
        | some tunnel ↦ ok tt self
        | none ↦ elim (tunnel_use mine pubkey) [
          | throws e ↦ err e self
          | value tunnel ↦ ok tt (record self { m_tunnel = emplace hip pubkey self.m_tunnel })
        ]
      ]

-- c_protocol::current_version
abbrev pub current_version : ℕ
current_version = 1

-- send_data_udp_cmd: the version, the command and the text, in one datagram.
unfoldable pub send_data_udp_cmd : ℕ → Str → Peering → M Tunserver (Unit {0})
send_data_udp_cmd cmd bytes peering self =
    let sent = ok tt (record self {
      sent = self.sent ++ ((peering.m_peering_addr, current_version ∷ cmd ∷ bytes) ∷ []);
    }) in
    elim peering.m_peering_addr [
      | tag_none ↦ err runtime_error self
      | tag_ipv4 address port ↦ sent
      | tag_ipv6 address port ↦ sent
    ]

unfoldable pub send_each : ℕ → Str → List (Addr × Peering) → M Tunserver (Unit {0})
send_each cmd bytes [] = return tt
send_each cmd bytes ((hip, peering) ∷ peers) =
    send_data_udp_cmd cmd bytes peering >> send_each cmd bytes peers

unfoldable pub nodep2p_foreach_cmd : ℕ → Str → M Tunserver (Unit {0})
nodep2p_foreach_cmd cmd bytes self = send_each cmd bytes self.m_peer self
