-- ===== src/Tunserver/Routing/Searches.antt =====
-- The TTL of a search against the TTLs of its requests.
use galaxy.Prelude.{ℕ, ◌≡◌, refl, List, [], ◌∷◌, max, arith, Bool-cases, inl, inr}
use galaxy.Haship.{Addr}
use galaxy.Tunserver.Routing.{
  RouteReason, RouteReasonDetail, RouteSearch, new_search, equivalent, with_request, add_request,
}

-- The greatest TTL of the requests.
abbrev pub highest : List (RouteReason × RouteReasonDetail) → ℕ
highest [] = 0
highest ((reason, detail) ∷ requests) = max detail.m_ttl (highest requests)

highest-with_request :
    (now : ℕ) (reason : RouteReason) (ttl : ℕ) (requests : List (RouteReason × RouteReasonDetail))
    → highest (with_request now reason ttl requests) ≡ max (highest requests) ttl
unfolding with_request
highest-with_request now reason ttl [] = omega arith
highest-with_request now reason ttl ((other, detail) ∷ requests) =
    elim (Bool-cases (equivalent reason other)) [
      | inl t ↦ rw t (omega arith)
      | inr f ↦ rw f (omega (arith, highest-with_request now reason ttl requests))
    ]

-- A request: when, why and with which TTL.
abbrev pub add_requests : List (ℕ × RouteReason × ℕ) → RouteSearch → RouteSearch
add_requests [] search = search
add_requests ((now, reason, ttl) ∷ more) search =
    add_requests more (add_request now reason ttl search)

abbrev pub IsHighest : RouteSearch → Type 0
IsHighest search = search.m_ttl_should_use ≡ max 5 (highest search.m_request)

add_request-IsHighest :
    (now : ℕ) (reason : RouteReason) (ttl : ℕ) (search : RouteSearch)
    → IsHighest search
    → IsHighest (add_request now reason ttl search)
unfolding add_request
add_request-IsHighest now reason ttl search h =
    omega (arith, h, highest-with_request now reason ttl search.m_request)

add_requests-IsHighest :
    (more : List (ℕ × RouteReason × ℕ)) (search : RouteSearch)
    → IsHighest search
    → IsHighest (add_requests more search)
add_requests-IsHighest [] search h = h
add_requests-IsHighest ((now, reason, ttl) ∷ more) search h =
    add_requests-IsHighest more (add_request now reason ttl search)
      (add_request-IsHighest now reason ttl search h)

-- After any requests to a new search, the TTL that it should use is the highest of the TTLs of
-- its requests, and 5 where all of them are lower.
pub add_requests-new_search :
    (dst : Addr) (requests : List (ℕ × RouteReason × ℕ))
    → (add_requests requests (new_search dst)).m_ttl_should_use
      ≡ max 5 (highest (add_requests requests (new_search dst)).m_request)
unfolding new_search
add_requests-new_search dst requests = add_requests-IsHighest requests (new_search dst) refl
