-- ===== src/Tunserver/Commands.antt =====
-- The commands between nodes in the event loop of src/tunserver.cpp: the query for a route to a hash-ip,
-- and the reply to it.
pub mod Texts
pub mod Answers
mod Tests
use galaxy.Prelude.{
  ℕ, zero, suc, ◌+◌, ◌-◌, ◌%◌, ◌≡◌, Bool, true, false, not, List, [], ◌∷◌, Option, none, some, ltb,
  leb, ◌==◌, ◌||◌, if◌then◌else◌, take, drop,
}
use galaxy.Outcome.{Outcome, ok, err, M, ◌>>=◌, ◌>>◌, return, runtime_error}
use galaxy.Try.{Try, value, throws, lift}
use galaxy.Serialize.Generator.{Str, Write, push_byte_u, push_bytes_n, push_varstring}
use galaxy.Serialize.Parser.{Read, pop_byte_u, pop_byte_skip, pop_bytes_n, pop_varstring}
use galaxy.StdString.{find_char, char_at}
use galaxy.Haship.{Addr, g_haship_addr_size}
use galaxy.IpAddr.{Ip46Addr, addr_equal, get_assigned_port}
use galaxy.Crypto.MultiCryptoStrings.{MultiCryptoStrings, serialize_bin}
use galaxy.Crypto.Tunnel.{load_pub}
use galaxy.Tunserver.{Platform, Tunserver, Peering}
use galaxy.Tunserver.Peers.{TunnelUse, send_data_udp_cmd, add_tunnel_to_pubkey}
use galaxy.Tunserver.Routing.{
  RouteInfo, RouteReason, Node, get_route_or_maybe_search, add_route_info_and_return,
  search_mode_help_find,
}
use galaxy.Tunserver.Forward.{catchable}

-- c_protocol::command_is_valid_from_unknown_peer, of the command's number.
unfoldable pub command_is_valid_from_unknown_peer : ℕ → Bool
command_is_valid_from_unknown_peer cmd =
    if cmd == 2
    then false
    else if cmd == 3
    then true
    else if cmd == 4
    then true
    else if cmd == 5
    then true
    else false

-- A comparison with an address without a tag throws.
unfoldable pub find_peer_by_sender_peering_addr : Ip46Addr → List (Addr × Peering) → Try Peering
find_peer_by_sender_peering_addr ip [] = throws runtime_error
find_peer_by_sender_peering_addr ip ((hip, peering) ∷ peers) =
    let rest = find_peer_by_sender_peering_addr ip peers in
    elim (addr_equal peering.m_peering_addr ip) [
      | throws e ↦ throws e
      | value false ↦ rest
      | value true ↦
          if get_assigned_port peering.m_peering_addr == get_assigned_port ip
          then value peering
          else rest
    ]

unfoldable pub on_server : {A : Type 0} → M Tunserver A → M Node A
on_server m self = elim (m self.server) [
  | ok a server ↦ ok a (record self { server = server })
  | err e server ↦ err e (record self { server = server })
]

-- try ... catch(...)
unfoldable pub caught : M Node (Unit {0}) → M Node (Unit {0})
caught m self = elim (m self) [
  | ok u after ↦ ok tt after
  | err e after ↦ if catchable e then ok tt after else err e after
]

-- gen.str(), of a new generator.
unfoldable pub written : Write → Try Str
written write = elim (write []) [ ok u m_str ↦ value m_str | err e m_str ↦ throws e ]

-- c_protocol::t_proto_cmd::e_proto_cmd_findhip_reply
abbrev pub cmd_findhip_reply : ℕ
cmd_findhip_reply = 11

-- "TTL;COST;HIP;PUBKEY;", with TTL and COST as one octet each.
unfoldable pub write_reply : ℕ → ℕ → Addr → Str → Write
write_reply reply_ttl cost requested_hip pubkey = do
  push_byte_u reply_ttl
  push_byte_u b';'
  push_byte_u (cost % 256)
  push_byte_u b';'
  push_bytes_n g_haship_addr_size requested_hip
  push_byte_u b';'
  push_varstring pubkey
  push_byte_u b';'

unfoldable pub known_sender : Ip46Addr → M Node Peering
known_sender sender_pip self =
    lift (find_peer_by_sender_peering_addr sender_pip self.server.m_peer) self

-- The try block of the handler of a query. The sender is looked up once more, after the reply was sent.
unfoldable pub answer_query : ℕ → Peering → Ip46Addr → Addr → ℕ → M Node (Unit {0})
answer_query now sender sender_pip requested_hip requested_ttl = do
  route ←
      get_route_or_maybe_search now requested_hip
        (record { m_his_addr = sender.m_haship_addr; m_search_mode = search_mode_help_find }) true
        (requested_ttl - 1)
  pubkey ← lift (serialize_bin route.m_pubkey)
  reply ← lift (written (write_reply requested_ttl route.m_cost requested_hip pubkey))
  on_server (send_data_udp_cmd cmd_findhip_reply reply sender)
  known_sender sender_pip
  return tt

-- find_first_of(';', offset1), with offset1 = 2.
unfoldable pub semicolon_from_two : Str → Option ℕ
semicolon_from_two bytes = elim (find_char b';' (drop 2 bytes)) [
  | none ↦ none
  | some pos ↦ some (suc (suc pos))
]

-- The handler of e_proto_cmd_findhip_query, of the octets behind the version and the command. The TTL is a
-- char, which is below 1 where its octet is 0 or at least 128.
unfoldable pub handle_findhip_query : ℕ → Peering → Ip46Addr → Str → M Node (Unit {0})
handle_findhip_query now sender sender_pip cmd_data self = elim (semicolon_from_two cmd_data) [
  | none ↦ err runtime_error self
  | some pos1 ↦
      if not (pos1 == g_haship_addr_size)
      then err runtime_error self
      else elim (char_at cmd_data (suc pos1)) [
        | throws e ↦ err e self
        | value requested_ttl ↦
            if requested_ttl == 0 || leb 128 requested_ttl
            then ok tt self
            else caught (answer_query now sender sender_pip (take pos1 cmd_data) requested_ttl) self
      ]
]

-- What a reply says.
pub record RouteReply : Type 0 where
  pub given_ttl : ℕ
  pub given_cost : ℕ
  pub given_goal_hip : Addr
  pub pubkey : MultiCryptoStrings

unfoldable pub read_reply : Read RouteReply
read_reply = do
  given_ttl ← pop_byte_u
  pop_byte_skip b';'
  given_cost ← pop_byte_u
  pop_byte_skip b';'
  given_goal_hip ← pop_bytes_n g_haship_addr_size
  pop_byte_skip b';'
  bytes ← pop_varstring
  pubkey ← lift (load_pub bytes)
  pop_byte_skip b';'
  return (record {
    given_ttl = given_ttl;
    given_cost = given_cost;
    given_goal_hip = given_goal_hip;
    pubkey = pubkey;
  })

-- What is done with a reply of a TTL of at least 1.
unfoldable pub use_reply :
    {Nonce : Type 0} → TunnelUse Nonce → Platform → ℕ → Addr → RouteReply → M Node (Unit {0})
use_reply mine platform now sender_hip reply = do
  on_server (add_tunnel_to_pubkey platform mine reply.pubkey)
  add_route_info_and_return reply.given_goal_hip (record {
    m_nexthop = sender_hip;
    m_pubkey = reply.pubkey;
    m_cost = reply.given_cost;
    m_time = now;
  })
  return tt

-- The handler of e_proto_cmd_findhip_reply.
unfoldable pub handle_findhip_reply :
    {Nonce : Type 0} → TunnelUse Nonce → Platform → ℕ → Addr → Str → M Node (Unit {0})
handle_findhip_reply mine platform now sender_hip cmd_data self = elim (read_reply cmd_data) [
  | err e rest ↦ err e self
  | ok reply rest ↦
      if reply.given_ttl == 0 then ok tt self else use_reply mine platform now sender_hip reply self
]
