-- ===== src/Tunserver/Routing/Routes.antt =====
-- What get_route_or_maybe_search returns and leaves.
use galaxy.Prelude.{ℕ, ◌≡◌, ◌≢◌, Bool, false, none, some, arith, Option-cases, inl, inr}
use galaxy.Outcome.{ok, err, runtime_error, Outcome-cases}
use galaxy.Try.{value, Try-cases}
use galaxy.StdMap.{find}
use galaxy.StdMap.Laws.{find-emplace}
use galaxy.Haship.{Addr}
use galaxy.Tunserver.{Peering}
use galaxy.Tunserver.Peers.{get_peer_with_hip}
use galaxy.Tunserver.Routing.{
  RouteInfo, RouteReason, Node, new_search, add_request, add_route_info_and_return, execute,
  search_for, known_or_search, get_route_or_maybe_search,
}

search_for_no_route :
    (now : ℕ) (dst : Addr) (reason : RouteReason) (ttl : ℕ) (self after : Node) (route : RouteInfo)
    → search_for now dst reason ttl self ≢ ok route after
unfolding search_for
search_for_no_route now dst reason ttl self after route h =
    elim (Option-cases (find dst self.m_search)) [
      | inr (search, e) ↦ ground (arith, e, h)
      | inl e ↦
          elim (Outcome-cases
            (execute now (add_request now reason ttl (new_search dst)) self.server)) [
              | inl (s, t, k) ↦ ground (arith, e, k, h)
              | inr (x, t, k) ↦ ground (arith, e, k, h)
            ]
    ]

known_again :
    (now : ℕ) (dst : Addr) (reason : RouteReason) (start_search : Bool) (ttl : ℕ)
    (self after : Node) (route : RouteInfo)
    → known_or_search now dst reason start_search ttl self ≡ ok route after
    → (after ≡ self) × (find dst self.m_route_nexthop ≡ some route)
unfolding known_or_search
known_again now dst reason start_search ttl self after route h =
    elim (Option-cases (find dst self.m_route_nexthop)) [
      | inr (r, e) ↦ ground (arith, e, h)
      | inl e ↦ ground (arith, e, h, search_for_no_route now dst reason ttl self after route)
    ]

route_added :
    (dst : Addr) (info route : RouteInfo) (self after : Node)
    → add_route_info_and_return dst info self ≡ ok route after
    → (after.server ≡ self.server) × (find dst after.m_route_nexthop ≡ some route)
unfolding add_route_info_and_return
route_added dst info route self after h = elim (Option-cases (find dst self.m_route_nexthop)) [
  | inr (r, e) ↦ ground (arith, e, h)
  | inl e ↦ ground (arith, e, h, find-emplace dst info self.m_route_nexthop e)
]

found_route :
    (now : ℕ) (dst : Addr) (reason : RouteReason) (start_search : Bool) (ttl : ℕ) (self : Node)
    (route : RouteInfo)
    → find dst self.m_route_nexthop ≡ some route
    → known_or_search now dst reason start_search ttl self ≡ ok route self
unfolding known_or_search
found_route now dst reason start_search ttl self route h = ground (arith, h)

kept_route :
    (dst : Addr) (info route : RouteInfo) (self : Node)
    → find dst self.m_route_nexthop ≡ some route
    → add_route_info_and_return dst info self ≡ ok route self
unfolding add_route_info_and_return
kept_route dst info route self h = ground (arith, h)

-- A route that was returned is the one that every later call returns, whoever asks, when and why, as long
-- as the node is left as it was.
pub get_route_again :
    (now later : ℕ) (dst : Addr) (reason other : RouteReason) (start_search start_other : Bool)
    (ttl ttl_other : ℕ) (self after : Node) (route : RouteInfo)
    → get_route_or_maybe_search now dst reason start_search ttl self ≡ ok route after
    → get_route_or_maybe_search later dst other start_other ttl_other after ≡ ok route after
unfolding get_route_or_maybe_search
get_route_again now later dst reason other start_search start_other ttl ttl_other self after route
      h =
    elim (Try-cases (get_peer_with_hip dst false self.server)) [
      | inr (x, e) ↦
          let (same, there) =
            known_again now dst reason start_search ttl self after route (ground (arith, e, h)) in
          rw same
            (ground (arith, e, found_route later dst other start_other ttl_other self route there))
      | inl (peer, e) ↦ elim (Option-cases peer.m_pubkey) [
        | inl no_key ↦ ground (arith, e, no_key, h)
        | inr (pubkey, key) ↦
            let info : ℕ → RouteInfo = λ t. record {
              m_nexthop = peer.m_haship_addr;
              m_pubkey = pubkey;
              m_cost = 1;
              m_time = t;
            } in
            let (same, there) =
              route_added dst (info now) route self after (ground (arith, e, key, h)) in
            ground (arith, e, key, same, kept_route dst (info later) route after there)
      ]
    ]

-- A peer whose public key is not known is a runtime_error that changes nothing, also where a route to it
-- is known.
pub get_route_no_key :
    (now : ℕ) (dst : Addr) (reason : RouteReason) (start_search : Bool) (ttl : ℕ) (self : Node)
    (peer : Peering)
    → get_peer_with_hip dst false self.server ≡ value peer
    → peer.m_pubkey ≡ none
    → get_route_or_maybe_search now dst reason start_search ttl self ≡ err runtime_error self
unfolding get_route_or_maybe_search
get_route_no_key now dst reason start_search ttl self peer direct no_key =
    ground (arith, direct, no_key)
