-- ===== src/IpAddr/Tests.antt =====
-- The order of physical addresses on concrete ones.
use galaxy.Prelude.{◌≡◌, refl, false, [], ◌∷◌, ◌++◌, replicate, ◌⊎◌, ◌≢◌, ap, str_eq}
use galaxy.Try.{value}
use galaxy.Serialize.Generator.{Str}
use galaxy.IpAddr.{tag_ipv4, tag_ipv6, addr_less, addr_equal}
use galaxy.IpAddr.Order.{Below, Same, addr_less-trichotomy, addr_less-ipv6_prefix}

abbrev loopback : Str
loopback = 127 ∷ 0 ∷ 0 ∷ 1 ∷ []

abbrev gateway : Str
gateway = 10 ∷ 0 ∷ 0 ∷ 1 ∷ []

addr_less-trichotomy_example :
    Below (tag_ipv4 loopback 9042) (tag_ipv4 gateway 9042)
    ⊎ Same (tag_ipv4 loopback 9042) (tag_ipv4 gateway 9042)
    ⊎ Below (tag_ipv4 gateway 9042) (tag_ipv4 loopback 9042)
addr_less-trichotomy_example = addr_less-trichotomy loopback gateway 9042 9042 refl refl

-- fd42:1:: and fd42:1::1
abbrev one : Str
one = 0xfd ∷ 0x42 ∷ 0 ∷ 1 ∷ replicate 12 0

abbrev two : Str
two = 0xfd ∷ 0x42 ∷ 0 ∷ 1 ∷ replicate 11 0 ++ (1 ∷ [])

one_differs_two : one ≢ two
one_differs_two e = cc (ap (str_eq one) e)

addr_less-ipv6_prefix_example :
    (addr_less (tag_ipv6 one 9042) (tag_ipv6 two 9042) ≡ value false)
    × (addr_less (tag_ipv6 two 9042) (tag_ipv6 one 9042) ≡ value false)
    × (addr_equal (tag_ipv6 one 9042) (tag_ipv6 two 9042) ≡ value false)
addr_less-ipv6_prefix_example = addr_less-ipv6_prefix one two 9042 refl one_differs_two
