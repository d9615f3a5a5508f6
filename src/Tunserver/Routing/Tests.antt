-- ===== src/Tunserver/Routing/Tests.antt =====
-- Routes and searches of a node with one peer.
use galaxy.Prelude.{ℕ, ◌≡◌, ◌≢◌, refl, arith, List, [], ◌∷◌, true, false, replicate, max, some}
use galaxy.Outcome.{ok, err, runtime_error, expected_not_found}
use galaxy.Try.{throws}
use galaxy.StdMap.{find, str_less}
use galaxy.Haship.{Addr}
use galaxy.IpAddr.{Ip46Addr, tag_none, tag_ipv4}
use galaxy.Crypto.MultiCryptoStrings.{MultiCryptoStrings, empty, use_open}
use galaxy.Tunserver.{Peering, Tunserver}
use galaxy.Tunserver.Peers.{get_peer_with_hip}
use galaxy.Tunserver.Routing.{
  RouteReason, RouteInfo, RouteSearch, Node, reason_less, new_search, cmd_findhip_query, query_text,
  get_route_or_maybe_search, add_route_info_and_return,
}
use galaxy.Tunserver.Routing.Reasons.{reason_less_both}
use galaxy.Tunserver.Routing.Searches.{highest, add_requests, add_requests-new_search}
use galaxy.Tunserver.Routing.Routes.{get_route_again}
use galaxy.Tunserver.Routing.Asked.{get_route_first_search, datagrams, with_sent}

abbrev home : Addr
home = 0xfd ∷ replicate 15 2

abbrev far : Addr
far = 0xfd ∷ replicate 15 3

abbrev low_own : RouteReason
low_own = record { m_his_addr = home; m_search_mode = 2 }

abbrev high_other : RouteReason
high_other = record { m_his_addr = far; m_search_mode = 1 }

home_below_far : str_less home far ≡ true
home_below_far = refl

reason_less_both_example :
    (reason_less low_own high_other ≡ true) × (reason_less high_other low_own ≡ true)
reason_less_both_example = reason_less_both low_own high_other home_below_far (omega arith)

abbrev asked : List (ℕ × RouteReason × ℕ)
asked = (1, low_own, 3) ∷ (2, high_other, 7) ∷ []

add_requests-new_search_example :
    (add_requests asked (new_search far)).m_ttl_should_use
    ≡ max 5 (highest (add_requests asked (new_search far)).m_request)
add_requests-new_search_example = add_requests-new_search far asked

abbrev key : MultiCryptoStrings
key = empty use_open

abbrev pip : Ip46Addr
pip = tag_ipv4 (10 ∷ 0 ∷ 0 ∷ 1 ∷ []) 9042

abbrev friend : Peering
friend = record {
  m_peering_addr = pip;
  m_haship_addr = home;
  m_pubkey = some key;
  m_last_ping_time = 0;
}

abbrev server : Tunserver
server = record {
  m_peer = (home, friend) ∷ [];
  m_peer_black_list = [];
  m_unban_if_banned = true;
  m_tunnel = [];
  sent = [];
}

abbrev node : Node
node = record { server = server; m_search = []; m_route_nexthop = [] }

abbrev direct : RouteInfo
direct = record { m_nexthop = home; m_pubkey = key; m_cost = 1; m_time = 4 }

abbrev node_after : Node
node_after = record node { m_route_nexthop = (home, direct) ∷ [] }

direct_route : get_route_or_maybe_search 4 home low_own true 5 node ≡ ok direct node_after
unfolding get_route_or_maybe_search get_peer_with_hip add_route_info_and_return
direct_route = refl

get_route_again_example :
    get_route_or_maybe_search 9 home high_other false 1 node_after ≡ ok direct node_after
get_route_again_example =
    get_route_again 4 9 home low_own high_other true false 5 1 node node_after direct direct_route

far_unknown : get_peer_with_hip far false server ≡ throws expected_not_found
unfolding get_peer_with_hip
far_unknown = refl

pip_tagged : pip ≢ tag_none
pip_tagged e = cc e

get_route_first_search_example :
    (after : Node) × (search : RouteSearch) × (get_route_or_maybe_search 4 far low_own true 7 node
      ≡ err runtime_error after)
    × (after.server
        ≡ with_sent (datagrams cmd_findhip_query (query_text far (max 5 7)) server.m_peer) server)
    × (find far after.m_search ≡ some search)
    × (search.m_ttl_used ≡ max 5 7)
    × (search.m_ask_time ≡ 4)
    × (search.m_ever ≡ false)
get_route_first_search_example =
    get_route_first_search 4 far low_own 7 node expected_not_found far_unknown refl refl
      (omega arith) (pip_tagged, tt)
