-- ===== src/IpAddr.antt =====
-- src/c_ip46_addr.hpp and src/c_ip46_addr.cpp, the Linux version: the physical address of a peer.
pub mod Order
mod Tests
use galaxy.Prelude.{
  ℕ, ◌≡◌, Bool, true, false, ◌&&◌, ◌%◌, List, [], ◌∷◌, str_eq, ltb, ◌==◌, if◌then◌else◌, take,
  replicate, length,
}
use galaxy.Outcome.{invalid_argument, assert_abort}
use galaxy.Try.{Try, value, throws}
use galaxy.Serialize.Generator.{Str}
use galaxy.StdMap.{str_less}

-- The tag with the member of the union that is in use: sin_addr of 4 octets or sin6_addr of 16, in
-- the order of memory, and the port in the host's order.
pub data Ip46Addr : Type 0 where
  tag_none : Ip46Addr
  tag_ipv4 tag_ipv6 : Str → ℕ → Ip46Addr

unfoldable pub get_assigned_port : Ip46Addr → ℕ
get_assigned_port tag_none = 0
get_assigned_port (tag_ipv4 address port) = port
get_assigned_port (tag_ipv6 address port) = port

-- get_ip4 and get_ip6: the assertion on the tag.
unfoldable pub get_ip4 : Ip46Addr → Try (Str × ℕ)
get_ip4 tag_none = throws assert_abort
get_ip4 (tag_ipv4 address port) = value (address, port)
get_ip4 (tag_ipv6 address port) = throws assert_abort

unfoldable pub get_ip6 : Ip46Addr → Try (Str × ℕ)
get_ip6 tag_none = throws assert_abort
get_ip6 (tag_ipv4 address port) = throws assert_abort
get_ip6 (tag_ipv6 address port) = value (address, port)

-- INADDR_ANY; htons keeps 16 bits of the port.
unfoldable pub any_on_port : ℕ → Ip46Addr
any_on_port port = tag_ipv4 (replicate 4 0) (port % 65536)

-- operator==
unfoldable pub addr_equal : Ip46Addr → Ip46Addr → Try Bool
addr_equal tag_none rhs = throws invalid_argument
addr_equal (tag_ipv4 a p) tag_none = throws invalid_argument
addr_equal (tag_ipv6 a p) tag_none = throws invalid_argument
addr_equal (tag_ipv4 a p) (tag_ipv6 b q) = value false
addr_equal (tag_ipv6 a p) (tag_ipv4 b q) = value false
addr_equal (tag_ipv4 a p) (tag_ipv4 b q) = value (str_eq a b && (p == q))
addr_equal (tag_ipv6 a p) (tag_ipv6 b q) = value (str_eq a b && (p == q))

-- sizeof(in_addr)
abbrev pub in_addr_size : ℕ
in_addr_size = 4

-- memcmp of the first sizeof(in_addr) octets, then the ports.
unfoldable pub less_at : Str → ℕ → Str → ℕ → Bool
less_at a p b q =
    if str_less (take in_addr_size a) (take in_addr_size b)
    then true
    else if str_less (take in_addr_size b) (take in_addr_size a)
    then false
    else ltb p q

-- operator<: for IPv6 too, memcmp is given sizeof(in_addr).
unfoldable pub addr_less : Ip46Addr → Ip46Addr → Try Bool
addr_less tag_none rhs = throws invalid_argument
addr_less (tag_ipv4 a p) tag_none = throws invalid_argument
addr_less (tag_ipv6 a p) tag_none = throws invalid_argument
addr_less (tag_ipv4 a p) (tag_ipv6 b q) = value true
addr_less (tag_ipv6 a p) (tag_ipv4 b q) = value false
addr_less (tag_ipv4 a p) (tag_ipv4 b q) = value (less_at a p b q)
addr_less (tag_ipv6 a p) (tag_ipv6 b q) = value (less_at a p b q)

-- Addresses of the size that their tag says.
abbrev pub IsIp46 : Ip46Addr → Type 0
IsIp46 tag_none = ⊥
IsIp46 (tag_ipv4 a p) = length a ≡ 4
IsIp46 (tag_ipv6 a p) = length a ≡ 16
