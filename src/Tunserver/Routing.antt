-- ===== src/Tunserver/Routing.antt =====
-- c_routing_manager of src/tunserver.hpp and tunserver.cpp: the routes that are known and the searches
-- for others.
pub mod Reasons
pub mod Searches
pub mod Routes
pub mod Asked
mod Tests
use galaxy.Prelude.{
  ℕ, ◌≡◌, ◌%◌, Bool, true, false, not, ◌&&◌, List, [], ◌∷◌, ◌++◌, Option, none, some, str_eq, ltb,
  leb, ◌==◌, max, if◌then◌else◌,
}
use galaxy.Outcome.{Outcome, ok, err, M, ◌>>=◌, ◌>>◌, runtime_error, assert_abort}
use galaxy.Try.{Try, value, throws}
use galaxy.Serialize.Generator.{Str}
use galaxy.StdMap.{find, emplace, assign, str_less}
use galaxy.Haship.{Addr}
use galaxy.Crypto.MultiCryptoStrings.{MultiCryptoStrings}
use galaxy.Tunserver.{Tunserver, Peering}
use galaxy.Tunserver.Peers.{get_peer_with_hip, nodep2p_foreach_cmd}

-- enum t_search_mode
abbrev pub search_mode_route_own_packet : ℕ
search_mode_route_own_packet = 0

abbrev pub search_mode_route_other_packet : ℕ
search_mode_route_other_packet = 1

abbrev pub search_mode_help_find : ℕ
search_mode_help_find = 2

-- c_route_info; m_state is always e_route_state_found.
pub record RouteInfo : Type 0 where
  pub m_nexthop : Addr
  pub m_pubkey : MultiCryptoStrings
  pub m_cost : ℕ
  pub m_time : ℕ

-- c_route_reason
pub record RouteReason : Type 0 where
  pub m_his_addr : Addr
  pub m_search_mode : ℕ

-- operator< of c_route_reason
unfoldable pub reason_less : RouteReason → RouteReason → Bool
reason_less self other =
    if str_less self.m_his_addr other.m_his_addr
    then true
    else if ltb self.m_search_mode other.m_search_mode
    then true
    else false

-- operator==
unfoldable pub reason_equal : RouteReason → RouteReason → Bool
reason_equal self other =
    str_eq self.m_his_addr other.m_his_addr && (self.m_search_mode == other.m_search_mode)

-- c_route_reason_detail. A TTL is never negative: the callers refuse those below 1 before they subtract 1.
pub record RouteReasonDetail : Type 0 where
  pub m_when : ℕ
  pub m_ttl : ℕ

-- c_route_search. m_request is in no particular order: operator< of its keys is not an order.
pub record RouteSearch : Type 0 where
  pub m_addr : Addr
  pub m_ever : Bool
  pub m_ask_time : ℕ
  pub m_ttl_used : ℕ
  pub m_ttl_should_use : ℕ
  pub m_request : List (RouteReason × RouteReasonDetail)

-- The constructor, which does not use its basic_ttl.
unfoldable pub new_search : Addr → RouteSearch
new_search addr = record {
  m_addr = addr;
  m_ever = false;
  m_ask_time = 0;
  m_ttl_used = 0;
  m_ttl_should_use = 5;
  m_request = [];
}

-- A key that the map's operator< does not tell from `reason`.
unfoldable pub equivalent : RouteReason → RouteReason → Bool
equivalent reason other = not (reason_less reason other) && not (reason_less other reason)

-- The map of the requests with `reason` added, or with its detail updated, at the time `now`.
unfoldable pub with_request :
    ℕ
    → RouteReason
    → ℕ
    → List (RouteReason × RouteReasonDetail)
    → List (RouteReason × RouteReasonDetail)
with_request now reason ttl [] = (reason, record { m_when = now; m_ttl = ttl }) ∷ []
with_request now reason ttl ((other, detail) ∷ requests) =
    if equivalent reason other
    then (other, record { m_when = now; m_ttl = max detail.m_ttl ttl }) ∷ requests
    else (other, detail) ∷ with_request now reason ttl requests

unfoldable pub add_request : ℕ → RouteReason → ℕ → RouteSearch → RouteSearch
add_request now reason ttl search = record search {
  m_request = with_request now reason ttl search.m_request;
  m_ttl_should_use = max search.m_ttl_should_use ttl;
}

-- c_routing_manager, with the node whose peers it asks.
pub record Node : Type 0 where
  pub server : Tunserver
  pub m_search : List (Addr × RouteSearch)
  pub m_route_nexthop : List (Addr × RouteInfo)

-- A route that is known already is returned as it is.
unfoldable pub add_route_info_and_return : Addr → RouteInfo → M Node RouteInfo
add_route_info_and_return target route_info self = elim (find target self.m_route_nexthop) [
  | none ↦
      ok route_info
        (record self { m_route_nexthop = emplace target route_info self.m_route_nexthop })
  | some route ↦ ok route self
]

-- c_protocol::t_proto_cmd::e_proto_cmd_findhip_query
abbrev pub cmd_findhip_query : ℕ
cmd_findhip_query = 10

-- "HIP;TTL;"
abbrev pub query_text : Addr → ℕ → Str
query_text addr ttl = addr ++ (b';' ∷ ttl ∷ b';' ∷ [])

-- execute: the search with what it sets, once every peer was asked. The narrowing of the TTL to an
-- unsigned char is asserted.
unfoldable pub execute : ℕ → RouteSearch → M Tunserver RouteSearch
execute now search server =
    let byte_highest_ttl = search.m_ttl_should_use % 256 in
    if search.m_ttl_should_use == byte_highest_ttl
    then elim (nodep2p_foreach_cmd cmd_findhip_query (query_text search.m_addr byte_highest_ttl)
        server) [
          | err e s ↦ err e s
          | ok u s ↦ ok (record search { m_ttl_used = byte_highest_ttl; m_ask_time = now }) s
        ]
    else err assert_abort server

-- The search for `dst`: a new one is executed, one that runs gets the reason. No route is known
-- either way.
unfoldable pub search_for : ℕ → Addr → RouteReason → ℕ → M Node RouteInfo
search_for now dst reason search_ttl self = elim (find dst self.m_search) [
  | some search ↦ err runtime_error (record self {
    m_search = assign dst (add_request now reason search_ttl search) self.m_search;
  })
  | none ↦
      let search = add_request now reason search_ttl (new_search dst) in
      let m_search = emplace dst search self.m_search in
      elim (execute now search self.server) [
        | err e server ↦ err e (record self { server = server; m_search = m_search })
        | ok executed server ↦
            err runtime_error
              (record self { server = server; m_search = assign dst executed m_search })
      ]
]

-- The part of get_route_or_maybe_search for a destination that is not a peer.
unfoldable pub known_or_search : ℕ → Addr → RouteReason → Bool → ℕ → M Node RouteInfo
known_or_search now dst reason start_search search_ttl self = elim (find dst self.m_route_nexthop) [
  | some route ↦ ok route self
  | none ↦
      let searched = search_for now dst reason search_ttl self in
      if start_search then searched else err runtime_error self
]

-- A peer without a public key is a runtime_error, which the handlers do not catch.
unfoldable pub get_route_or_maybe_search : ℕ → Addr → RouteReason → Bool → ℕ → M Node RouteInfo
get_route_or_maybe_search now dst reason start_search search_ttl self =
    elim (get_peer_with_hip dst false self.server) [
      | throws e ↦ known_or_search now dst reason start_search search_ttl self
      | value peer ↦ elim peer.m_pubkey [
        | none ↦ err runtime_error self
        | some pubkey ↦
            add_route_info_and_return dst
              (record {
                m_nexthop = peer.m_haship_addr;
                m_pubkey = pubkey;
                m_cost = 1;
                m_time = now;
              })
              self
      ]
    ]
