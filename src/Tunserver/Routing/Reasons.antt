-- ===== src/Tunserver/Routing/Reasons.antt =====
-- The comparisons of c_route_reason.
use galaxy.Prelude.{◌≡◌, ◌<◌, true, str_eq→eq, length, arith}
use galaxy.StdMap.{str_less}
use galaxy.StdMap.Compare.{str_less_irrefl, str_less_total}
use galaxy.Tunserver.Routing.{RouteReason, reason_less, reason_equal, equivalent}

-- Two reasons with addresses of the same size are told apart by operator< in one direction or the other
-- exactly where operator== tells them apart.
pub equivalent-reason_equal :
    (a b : RouteReason)
    → length a.m_his_addr ≡ length b.m_his_addr
    → equivalent a b ≡ reason_equal a b
unfolding equivalent reason_equal reason_less
equivalent-reason_equal a b size = ground (
  arith,
  str_less_total a.m_his_addr b.m_his_addr size,
  str_eq→eq a.m_his_addr b.m_his_addr,
  str_less_irrefl a.m_his_addr,
  str_less_irrefl b.m_his_addr,
)

-- Of two route reasons where one has the lesser address and the other the lesser search mode,
-- each is below the other by operator<.
pub reason_less_both :
    (a b : RouteReason)
    → str_less a.m_his_addr b.m_his_addr ≡ true
    → b.m_search_mode < a.m_search_mode
    → (reason_less a b ≡ true) × (reason_less b a ≡ true)
unfolding reason_less
reason_less_both a b lesser mode = ground (arith, lesser, mode)
