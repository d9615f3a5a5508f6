-- ===== src/Tunserver/Forward/Tests.antt =====
-- Runs of the forwarding of tunneled data on a packet for a peer.
use galaxy.Prelude.{◌≡◌, ◌≢◌, refl, [], ◌∷◌, none, false, true, replicate, arith}
use galaxy.Outcome.{ok}
use galaxy.Serialize.Generator.{
  push_bytes_n, push_byte_u, append, push_varstring, push_integer_uvarint, push_integer_u,
  get_max_value_of_S_octet_uint, push_octets,
}
use galaxy.Haship.{Addr}
use galaxy.IpAddr.{Ip46Addr, tag_none, tag_ipv4}
use galaxy.Tunserver.{Peering}
use galaxy.Tunserver.Routing.{Node}
use galaxy.Tunserver.Forward.{Packet, receive_tunneled, read_packet, forwarded, dropped, no_tunnel}
use galaxy.Tunserver.Forward.{
  receive_own, receive_other, route_top, route_detail, route_direct, send_data_udp, write_packet,
}
use galaxy.Tunserver.Forward.Datagram.{datagram, read_packet-datagram}
use galaxy.Tunserver.Forward.Delivery.{after_sending, one_hop, receive_tunneled-one_hop}

abbrev goal : Addr
goal = 0xfd ∷ 0x42 ∷ replicate 14 7

abbrev here : Addr
here = 0xfd ∷ 0x42 ∷ replicate 14 9

abbrev pip : Ip46Addr
pip = tag_ipv4 (10 ∷ 0 ∷ 0 ∷ 1 ∷ []) 19042

abbrev peer : Peering
peer = record { m_peering_addr = pip; m_haship_addr = goal; m_pubkey = none; m_last_ping_time = 0 }

abbrev node : Node
node = record {
  server = record {
    m_peer = (goal, peer) ∷ [];
    m_peer_black_list = [];
    m_unban_if_banned = false;
    m_tunnel = [];
    sent = [];
  };
  m_search = [];
  m_route_nexthop = [];
}

abbrev packet : Packet
packet = record {
  src_hip = 0xfd ∷ 0x42 ∷ replicate 14 1;
  dst_hip = goal;
  ttl = 40;
  nonce_used = replicate 24 3;
  blob = 1 ∷ 2 ∷ 3 ∷ [];
}

pip_tagged : pip ≢ tag_none
pip_tagged h = cc h

receive_tunneled-one_hop_example :
    (receive_tunneled 100 here true (datagram packet) node
      ≡ ok (forwarded true) (after_sending (one_hop packet) peer node))
    × (read_packet (datagram (one_hop packet)) ≡ ok (one_hop packet) [])
receive_tunneled-one_hop_example =
    receive_tunneled-one_hop 100 here packet peer node (refl, refl, refl, omega arith) (omega arith)
      refl refl pip_tagged

packet_read : read_packet (datagram packet) ≡ ok packet []
packet_read = read_packet-datagram packet (refl, refl, refl, omega arith) (omega arith)

no_points_dropped : receive_tunneled 100 here false (datagram packet) node ≡ ok dropped node
unfolding receive_tunneled receive_own receive_other
no_points_dropped = rw (receive_tunneled, receive_own, receive_other, packet_read) refl

abbrev untagged : Node
untagged = record node {
  server = record node.server { m_peer = (goal, record peer { m_peering_addr = tag_none }) ∷ [] };
}

-- The exception is caught, nothing was sent, and the answer is true.
without_tag :
    receive_tunneled 100 here true (datagram packet) untagged ≡ ok (forwarded true) untagged
unfolding receive_tunneled receive_own receive_other route_top route_detail route_direct
    send_data_udp write_packet push_bytes_n push_byte_u append push_varstring push_integer_uvarint
    push_integer_u get_max_value_of_S_octet_uint push_octets
without_tag = rw (receive_tunneled, receive_own, receive_other, packet_read) refl

abbrev alone : Node
alone = record node { server = record node.server { m_peer = [] } }

-- Without a tunnel to the sender, a packet for the node itself is to be answered by an empty one.
nothing_sent : receive_tunneled 100 goal true (datagram packet) alone ≡ ok (no_tunnel false) alone
unfolding receive_tunneled receive_own receive_other route_top route_detail route_direct
nothing_sent = rw (receive_tunneled, receive_own, receive_other, packet_read) refl
