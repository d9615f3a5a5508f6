-- ===== src/Haship.antt =====
-- src/haship.hpp and src/haship.cpp: a hash-ip, the IPv6 address of a node, as its 16 octets.
pub mod Hexdot
mod Tests
use galaxy.Prelude.{
  ℕ, ◌≡◌, Bool, true, false, not, List, [], ◌∷◌, ◌==◌, if◌then◌else◌, length, replicate,
}
use galaxy.Outcome.{runtime_error, out_of_range}
use galaxy.Try.{Try, value, throws}
use galaxy.Serialize.Generator.{Str}

-- c_haship_addr, a std::array of g_haship_addr_size octets.
abbrev pub Addr : Type 0
Addr = Str

abbrev pub g_haship_addr_size : ℕ
g_haship_addr_size = 16

-- The default constructor, and make_empty().
abbrev pub make_empty : Addr
make_empty = replicate g_haship_addr_size 0

unfoldable pub is_empty : Addr → Bool
is_empty [] = true
is_empty (byte ∷ bytes) = let rest = is_empty bytes in if not (byte == 0) then false else rest

-- The constructor with tag_constr_by_addr_bin.
unfoldable pub addr_of_bin : Str → Try Addr
addr_of_bin bytes =
    if not (g_haship_addr_size == length bytes) then throws runtime_error else value bytes

-- addr_is_galaxy; `at(0)` of an array of 16 octets is there.
unfoldable pub addr_is_galaxy : Addr → Bool
addr_is_galaxy [] = false
addr_is_galaxy (first ∷ rest) = if not (first == 0xfd) then false else true
