-- ===== src/Tunserver/Forward.antt =====
-- Tunneled data in src/tunserver.cpp and c_peering.cpp: how it is sent to a next hop, and what a node does
-- with data that a peer sent it.
pub mod Datagram
pub mod Delivery
mod Tests
use galaxy.Prelude.{
  ℕ, zero, suc, ◌+◌, ◌-◌, ◌%◌, ◌≡◌, Bool, true, false, not, List, [], ◌∷◌, ◌++◌, Option, none, some,
  str_eq, ◌==◌, if◌then◌else◌, min, replicate,
}
use galaxy.Outcome.{
  Error, Outcome, ok, err, M, ◌>>=◌, ◌>>◌, return, runtime_error, assert_abort, undefined_behaviour,
}
use galaxy.Try.{Try, value, throws}
use galaxy.Serialize.Generator.{Str, push_byte_u, push_bytes_n, push_varstring}
use galaxy.Serialize.Parser.{Read, pop_byte_u, pop_bytes_n, skip_bytes_n, pop_varstring}
use galaxy.StdMap.{find}
use galaxy.Haship.{Addr, make_empty}
use galaxy.IpAddr.{tag_none, tag_ipv4, tag_ipv6}
use galaxy.Tunserver.{Tunserver, Peering}
use galaxy.Tunserver.Peers.{current_version}
use galaxy.Tunserver.Routing.{
  RouteReason, Node, get_route_or_maybe_search, search_mode_route_own_packet,
  search_mode_route_other_packet,
}

-- What `catch(...)` catches: every exception, but no failed assert.
abbrev pub catchable : Error → Bool
catchable assert_abort = false
catchable undefined_behaviour = false
catchable e = true

-- c_protocol::t_proto_cmd::e_proto_cmd_tunneled_data
abbrev pub cmd_tunneled_data : ℕ
cmd_tunneled_data = 2

-- c_protocol::ttl_max_accepted
abbrev pub ttl_max_accepted : ℕ
ttl_max_accepted = 5

-- crypto_box_NONCEBYTES of libsodium, and g_ipv6_rfc::length_of_addr.
abbrev pub nonce_bytes : ℕ
nonce_bytes = 24

abbrev pub length_of_addr : ℕ
length_of_addr = 16

-- A piece of tunneled data on its way.
pub record Packet : Type 0 where
  pub src_hip : Addr
  pub dst_hip : Addr
  pub ttl : ℕ
  pub nonce_used : Str
  pub blob : Str

-- The datagram that send_data_udp builds.
unfoldable pub write_packet : Packet → Outcome Str (Unit {0})
write_packet packet =
    (push_byte_u current_version
        >> push_byte_u cmd_tunneled_data
        >> push_bytes_n length_of_addr packet.src_hip
        >> push_bytes_n length_of_addr packet.dst_hip
        >> push_byte_u (packet.ttl % 256)
        >> push_bytes_n nonce_bytes packet.nonce_used
        >> push_varstring packet.blob)
      []

unfoldable pub send_data_udp : Packet → Peering → M Tunserver (Unit {0})
send_data_udp packet peering self = elim (write_packet packet) [
  | err e bytes ↦ err e self
  | ok _ bytes ↦
      let sent =
        ok tt (record self { sent = self.sent ++ ((peering.m_peering_addr, bytes) ∷ []) }) in
      elim peering.m_peering_addr [
        | tag_none ↦ err runtime_error self
        | tag_ipv4 address port ↦ sent
        | tag_ipv6 address port ↦ sent
      ]
]

-- The direct peer in route_tun_data_to_its_destination_detail; `indirect` is the part for no direct peer. A
-- TTL below 1 is 0.
unfoldable pub route_direct : Packet → Addr → M Node Bool → M Node Bool
route_direct packet next_hip indirect self =
    if packet.ttl == 0 then ok false self else elim self.server.m_peer [
      | [] ↦ ok false self
      | p ∷ peers ↦ elim (find next_hip (p ∷ peers)) [
        | some target_peer ↦ elim (send_data_udp packet target_peer self.server) [
          | ok _ server ↦ ok true (record self { server = server })
          | err e server ↦ err e (record self { server = server })
        ]
        | none ↦ indirect self
      ]
    ]

-- route_tun_data_to_its_destination_detail, with 2 less recurse_level, which starts at 0.
unfoldable pub route_detail : ℕ → ℕ → Packet → Addr → RouteReason → M Node Bool
route_detail zero now packet next_hip reason = route_direct packet next_hip (λ self. ok false self)
route_detail (suc less) now packet next_hip reason = route_direct packet next_hip (λ self.
    elim (get_route_or_maybe_search now next_hip reason true ttl_max_accepted self) [
      | err e searched ↦ if catchable e then ok false searched else err e searched
      | ok info known ↦ route_detail less now packet info.m_nexthop reason known
    ])

-- route_tun_data_to_its_destination_top: true also where an exception was caught.
unfoldable pub route_top : ℕ → Packet → RouteReason → M Node Bool
route_top now packet reason self =
    if packet.ttl == 0
    then ok false self
    else elim (route_detail 2 now packet packet.dst_hip reason self) [
      | ok sent node ↦ ok sent node
      | err e node ↦ if catchable e then ok true node else err e node
    ]

unfoldable pub read_packet : Read Packet
read_packet = do
  skip_bytes_n 2
  src_hip ← pop_bytes_n length_of_addr
  dst_hip ← pop_bytes_n length_of_addr
  requested_ttl ← pop_byte_u
  nonce_used ← pop_bytes_n nonce_bytes
  blob ← pop_varstring
  return (record {
    src_hip = src_hip;
    dst_hip = dst_hip;
    ttl = requested_ttl;
    nonce_used = nonce_used;
    blob = blob;
  })

-- What becomes of a datagram with tunneled data.
pub data Received : Type 0 where
  -- for the tunnel to the source, to be opened there
  to_tunnel : Packet → Received
  -- no tunnel: a search was started with an empty packet back
  no_tunnel : Bool → Received
  dropped : Received
  forwarded : Bool → Received

-- Data for this node. The nonce of the empty packet is a dummy: octets of 0.
unfoldable pub receive_own : ℕ → Packet → M Node Received
receive_own now packet self = elim (find packet.src_hip self.server.m_tunnel) [
  | some tunnel ↦ ok (to_tunnel packet) self
  | none ↦
      elim (route_top now
        (record {
          src_hip = packet.dst_hip;
          dst_hip = packet.src_hip;
          ttl = packet.ttl;
          nonce_used = replicate nonce_bytes 0;
          blob = [];
        })
        (record { m_his_addr = make_empty; m_search_mode = search_mode_route_own_packet }) self) [
          | ok sent node ↦ ok (no_tunnel sent) node
          | err e node ↦ err e node
        ]
]

-- Data for someone else. `points` tells whether the sender has limit points left.
unfoldable pub receive_other : ℕ → Bool → Packet → M Node Received
receive_other now points packet self =
    if not points
    then ok dropped self
    else elim (route_top now (record packet { ttl = min (packet.ttl - 1) ttl_max_accepted })
        (record { m_his_addr = packet.src_hip; m_search_mode = search_mode_route_other_packet })
        self) [ ok sent node ↦ ok (forwarded sent) node | err e node ↦ err e node ]

-- The branch of the event loop for tunneled data.
unfoldable pub receive_tunneled : ℕ → Addr → Bool → Str → M Node Received
receive_tunneled now my_hip points datagram self = elim (read_packet datagram) [
  | err e rest ↦ err e self
  | ok packet rest ↦
      if str_eq packet.dst_hip my_hip
      then receive_own now packet self
      else receive_other now points packet self
]
