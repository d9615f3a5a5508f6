-- ===== src/Tunserver/Forward/Delivery.antt =====
-- A datagram on its way through a node whose direct peer is the destination.
use galaxy.Prelude.{
  ℕ, suc, ◌≡◌, ◌≢◌, ◌<◌, ◌-◌, Bool, true, false, [], ◌∷◌, some, str_eq, leb, min, if◌then◌else◌,
  arith, Bool-cases, inl, inr,
}
use galaxy.Outcome.{M, ok}
use galaxy.StdMap.{find}
use galaxy.Haship.{Addr}
use galaxy.IpAddr.{tag_none}
use galaxy.Tunserver.{Tunserver, Peering}
use galaxy.Tunserver.Routing.{RouteReason, Node, search_mode_route_other_packet}
use galaxy.Tunserver.Routing.Asked.{with_sent}
use galaxy.Tunserver.Forward.{
  Packet, read_packet, send_data_udp, route_direct, route_detail, route_top, receive_tunneled,
  receive_other, forwarded, ttl_max_accepted,
}
use galaxy.Tunserver.Forward.Datagram.{
  IsPacket, datagram, write_packet-datagram, read_packet-datagram,
}

-- The node with one more datagram handed to the UDP wrapper.
abbrev pub after_sending : Packet → Peering → Node → Node
after_sending packet peer self = record self {
  server = with_sent ((peer.m_peering_addr, datagram packet) ∷ []) self.server;
}

send_data_udp-datagram :
    (packet : Packet) (peer : Peering) (server : Tunserver)
    → IsPacket packet
    → peer.m_peering_addr ≢ tag_none
    → send_data_udp packet peer server
      ≡ ok tt (with_sent ((peer.m_peering_addr, datagram packet) ∷ []) server)
unfolding send_data_udp
send_data_udp-datagram packet peer server sized tagged =
    ground (arith, tagged, write_packet-datagram packet sized)

module _ (packet : Packet) (peer : Peering) (self : Node) (sized : IsPacket packet)
    (tagged : peer.m_peering_addr ≢ tag_none)
    (direct : find packet.dst_hip self.server.m_peer ≡ some peer) where
  route_direct-after_sending :
      (indirect : M Node Bool)
      → packet.ttl ≢ 0
      → route_direct packet packet.dst_hip indirect self ≡ ok true (after_sending packet peer self)
  unfolding route_direct
  route_direct-after_sending indirect alive =
      ground (arith, alive, direct, send_data_udp-datagram packet peer self.server sized tagged)

  route_detail-after_sending :
      (less now : ℕ) (reason : RouteReason)
      → packet.ttl ≢ 0
      → route_detail (suc less) now packet packet.dst_hip reason self
        ≡ ok true (after_sending packet peer self)
  unfolding route_detail
  route_detail-after_sending less now reason alive = route_direct-after_sending _ alive

  route_top-after_sending :
      (now : ℕ) (reason : RouteReason)
      → packet.ttl ≢ 0
      → route_top now packet reason self ≡ ok true (after_sending packet peer self)
  unfolding route_top
  route_top-after_sending now reason alive =
      ground (arith, alive, route_detail-after_sending 1 now reason alive)

route_top_expired :
    (now : ℕ) (packet : Packet) (reason : RouteReason) (self : Node)
    → packet.ttl ≡ 0
    → route_top now packet reason self ≡ ok false self
unfolding route_top
route_top_expired now packet reason self spent = ground (arith, spent)

-- The packet that a node sends on.
abbrev pub one_hop : Packet → Packet
one_hop packet = record packet { ttl = min (packet.ttl - 1) ttl_max_accepted }

-- Why the node looks for a route.
abbrev reason_of : Packet → RouteReason
reason_of packet = record {
  m_his_addr = packet.src_hip;
  m_search_mode = search_mode_route_other_packet;
}

-- A node reads a datagram with tunneled data for another address, the datagram that write_packet made of a
-- packet with addresses of 16 octets, a nonce of 24, a blob that may be read back and a TTL below 256. Its
-- destination is a direct peer whose address has a tag, and the sender has limit points. Where the TTL is at
-- most 1, nothing is sent. Otherwise exactly one datagram goes out, to that peer, and reading it gives the
-- packet with its TTL one lower, and 5 at most.
pub receive_tunneled-one_hop :
    (now : ℕ) (my_hip : Addr) (packet : Packet) (peer : Peering) (self : Node)
    → IsPacket packet
    → packet.ttl < 256
    → str_eq packet.dst_hip my_hip ≡ false
    → find packet.dst_hip self.server.m_peer ≡ some peer
    → peer.m_peering_addr ≢ tag_none
    → (receive_tunneled now my_hip true (datagram packet) self ≡ (
        if leb packet.ttl 1
        then ok (forwarded false) self
        else ok (forwarded true) (after_sending (one_hop packet) peer self)))
      × (read_packet (datagram (one_hop packet)) ≡ ok (one_hop packet) [])
unfolding receive_tunneled receive_other
receive_tunneled-one_hop now my_hip packet peer self sized small other direct tagged = (
  elim (Bool-cases (leb packet.ttl 1)) [
    | inl late ↦ ground (
      arith,
      late,
      other,
      read_packet-datagram packet sized small,
      route_top_expired now (one_hop packet) (reason_of packet) self (ground (arith, late)),
    )
    | inr early ↦ ground (
      arith,
      early,
      other,
      read_packet-datagram packet sized small,
      route_top-after_sending (one_hop packet) peer self sized tagged direct now (reason_of packet)
          (ground (arith, early)),
    )
  ],
  read_packet-datagram (one_hop packet) sized (ground arith),
)
