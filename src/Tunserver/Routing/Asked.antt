-- ===== src/Tunserver/Routing/Asked.antt =====
-- The queries that get_route_or_maybe_search sends, and what a search records.
use galaxy.Prelude.{
  ℕ, ◌≡◌, ◌≢◌, ◌<◌, ◌%◌, refl, true, false, List, [], ◌∷◌, ◌++◌, append_assoc, append-nil, none,
  some, max, arith, All,
}
use galaxy.Outcome.{ok, err, runtime_error, Error}
use galaxy.Try.{throws}
use galaxy.Serialize.Generator.{Str}
use galaxy.StdMap.{find, emplace, assign}
use galaxy.StdMap.Laws.{find-emplace, find-assign}
use galaxy.Haship.{Addr}
use galaxy.IpAddr.{Ip46Addr, tag_none}
use galaxy.Tunserver.{Tunserver, Peering}
use galaxy.Tunserver.Peers.{
  get_peer_with_hip, send_data_udp_cmd, send_each, nodep2p_foreach_cmd, current_version,
}
use galaxy.Tunserver.Routing.{
  RouteReason, RouteSearch, Node, new_search, add_request, with_request, execute, search_for,
  known_or_search, get_route_or_maybe_search, cmd_findhip_query, query_text,
}

-- The datagrams of a command to all peers.
abbrev pub datagrams : ℕ → Str → List (Addr × Peering) → List (Ip46Addr × Str)
datagrams cmd bytes [] = []
datagrams cmd bytes ((hip, peering) ∷ peers) =
    (peering.m_peering_addr, current_version ∷ cmd ∷ bytes) ∷ datagrams cmd bytes peers

abbrev pub with_sent : List (Ip46Addr × Str) → Tunserver → Tunserver
with_sent more server = record server { sent = server.sent ++ more }

pub send_one :
    (cmd : ℕ) (bytes : Str) (peering : Peering) (server : Tunserver)
    → peering.m_peering_addr ≢ tag_none
    → send_data_udp_cmd cmd bytes peering server
      ≡ ok tt (with_sent ((peering.m_peering_addr, current_version ∷ cmd ∷ bytes) ∷ []) server)
unfolding send_data_udp_cmd
send_one cmd bytes peering server tagged = ground (arith, tagged)

send_each-datagrams :
    (cmd : ℕ) (bytes : Str) (peers : List (Addr × Peering)) (server : Tunserver)
    → All (λ p. p.1.m_peering_addr ≢ tag_none) peers
    → send_each cmd bytes peers server ≡ ok tt (with_sent (datagrams cmd bytes peers) server)
unfolding send_each
send_each-datagrams cmd bytes [] server tagged = rw (append-nil server.sent) refl
send_each-datagrams cmd bytes ((hip, peering) ∷ peers) server (tagged, all) =
    let sent : List (Ip46Addr × Str) =
      (peering.m_peering_addr, current_version ∷ cmd ∷ bytes) ∷ [] in
    ground (
      arith,
      send_one cmd bytes peering server tagged,
      send_each-datagrams cmd bytes peers (with_sent sent server) all,
      append_assoc server.sent sent (datagrams cmd bytes peers),
    )

execute-datagrams :
    (now : ℕ) (search : RouteSearch) (server : Tunserver)
    → search.m_ttl_should_use < 256
    → All (λ p. p.1.m_peering_addr ≢ tag_none) server.m_peer
    → execute now search server
      ≡ ok
          (record search { m_ttl_used = search.m_ttl_should_use; m_ask_time = now })
          (with_sent
            (datagrams cmd_findhip_query
              (query_text search.m_addr search.m_ttl_should_use)
              server.m_peer)
            server)
unfolding execute nodep2p_foreach_cmd
execute-datagrams now search server small tagged =
    let narrow : search.m_ttl_should_use % 256 ≡ search.m_ttl_should_use = omega (arith, small) in
    ground (
      arith,
      narrow,
      send_each-datagrams cmd_findhip_query (query_text search.m_addr search.m_ttl_should_use)
          server.m_peer server tagged,
    )

-- With every peer's address known and a TTL below 256, the first search for a destination that is neither
-- a peer nor a known route sends the query with the TTL, or 5 if that is higher, to every peer in order,
-- once, and records that TTL and the time as used, but not that the search was ever run. No route is
-- returned yet.
pub get_route_first_search :
    (now : ℕ) (dst : Addr) (reason : RouteReason) (ttl : ℕ) (self : Node) (x : Error)
    → get_peer_with_hip dst false self.server ≡ throws x
    → find dst self.m_route_nexthop ≡ none
    → find dst self.m_search ≡ none
    → ttl < 256
    → All (λ p. p.1.m_peering_addr ≢ tag_none) self.server.m_peer
    → (after : Node) × (search : RouteSearch) × (get_route_or_maybe_search now dst reason true ttl
          self
        ≡ err runtime_error after)
      × (after.server
          ≡ with_sent
              (datagrams cmd_findhip_query (query_text dst (max 5 ttl)) self.server.m_peer)
              self.server)
      × (find dst after.m_search ≡ some search)
      × (search.m_ttl_used ≡ max 5 ttl)
      × (search.m_ask_time ≡ now)
      × (search.m_ever ≡ false)
unfolding get_route_or_maybe_search known_or_search search_for new_search add_request with_request
get_route_first_search now dst reason ttl self x no_peer no_route no_search small tagged =
    let search : RouteSearch = add_request now reason ttl (new_search dst) in
    let executed : RouteSearch = record search { m_ttl_used = max 5 ttl; m_ask_time = now } in
    let running = emplace dst search self.m_search in
    let server : Tunserver =
      with_sent (datagrams cmd_findhip_query (query_text dst (max 5 ttl)) self.server.m_peer)
        self.server in
    let after : Node = record self { server = server; m_search = assign dst executed running } in
    let asked = execute-datagrams now search self.server (omega (arith, small)) tagged in
    (
      after,
      executed,
      ground (arith, no_peer, no_route, no_search, asked),
      refl,
      find-assign dst executed search running (find-emplace dst search self.m_search no_search),
      refl,
      refl,
      refl,
    )

-- A search that runs gets the reason and its TTL, and no peer is asked again.
pub get_route_running_search :
    (now : ℕ) (dst : Addr) (reason : RouteReason) (ttl : ℕ) (self : Node) (x : Error)
    (search : RouteSearch)
    → get_peer_with_hip dst false self.server ≡ throws x
    → find dst self.m_route_nexthop ≡ none
    → find dst self.m_search ≡ some search
    → (after : Node) × (get_route_or_maybe_search now dst reason true ttl self
        ≡ err runtime_error after)
      × (after.server ≡ self.server)
      × (find dst after.m_search ≡ some (add_request now reason ttl search))
unfolding get_route_or_maybe_search known_or_search search_for
get_route_running_search now dst reason ttl self x search no_peer no_route running =
    let updated = add_request now reason ttl search in
    (
      record self { m_search = assign dst updated self.m_search },
      ground (arith, no_peer, no_route, running),
      refl,
      find-assign dst updated search self.m_search running,
    )
