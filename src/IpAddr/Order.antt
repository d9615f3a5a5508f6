-- ===== src/IpAddr/Order.antt =====
-- The order and the equality of physical addresses.
use galaxy.Prelude.{
  ℕ, ◌≡◌, refl, true, false, [], ◌∷◌, length, str_eq_self, str_eq→eq, arith, take, ◌⊎◌, ◌≢◌,
}
use galaxy.Try.{value}
use galaxy.Serialize.Generator.{Str}
use galaxy.IpAddr.{Ip46Addr, tag_ipv4, tag_ipv6, addr_less, addr_equal, less_at}
use galaxy.StdMap.Compare.{str_less_asymm, str_less_total, str_less_irrefl}

take_whole : (a : Str) → length a ≡ 4 → take 4 a ≡ a
take_whole [] h = refl
take_whole (x ∷ []) h = refl
take_whole (x ∷ y ∷ []) h = refl
take_whole (x ∷ y ∷ z ∷ []) h = refl
take_whole (x ∷ y ∷ z ∷ w ∷ []) h = refl
take_whole (x ∷ y ∷ z ∷ w ∷ v ∷ rest) h = absurd (omega (arith, h))

less_at_asymm : (a b : Str) (p q : ℕ) → less_at a p b q ≡ true → less_at b q a p ≡ false
unfolding less_at
less_at_asymm a b p q h =
    ground (arith, str_less_asymm (take 4 a) (take 4 b), str_less_asymm (take 4 b) (take 4 a))

abbrev pub Below : Ip46Addr → Ip46Addr → Type 0
Below a b =
    (addr_less a b ≡ value true)
    × (addr_less b a ≡ value false)
    × (addr_equal a b ≡ value false)
    × (addr_equal b a ≡ value false)

abbrev pub Same : Ip46Addr → Ip46Addr → Type 0
Same a b =
    (addr_less a b ≡ value false)
    × (addr_less b a ≡ value false)
    × (addr_equal a b ≡ value true)
    × (a ≡ b)

-- Of two IPv4 addresses of four octets either one is below the other by operator< and operator==
-- is false both ways, or operator== is true, neither is below the other, and octets and port are
-- the same.
pub addr_less-trichotomy :
    (a b : Str) (p q : ℕ)
    → length a ≡ 4
    → length b ≡ 4
    → Below (tag_ipv4 a p) (tag_ipv4 b q)
      ⊎ Same (tag_ipv4 a p) (tag_ipv4 b q)
      ⊎ Below (tag_ipv4 b q) (tag_ipv4 a p)
unfolding addr_less addr_equal less_at
addr_less-trichotomy a b p q la lb =
    rw (take_whole a la, take_whole b lb)
      (ground (
        arith,
        str_less_asymm a b,
        str_less_asymm b a,
        str_less_total a b,
        str_eq→eq a b,
        str_eq→eq b a,
        str_less_irrefl a,
        str_less_irrefl b,
        str_eq_self a,
      ))

-- Two IPv6 addresses that differ, with the same port and the same first four octets, are each not
-- below the other by operator<, though operator== is false.
pub addr_less-ipv6_prefix :
    (a b : Str) (p : ℕ)
    → take 4 a ≡ take 4 b
    → a ≢ b
    → (addr_less (tag_ipv6 a p) (tag_ipv6 b p) ≡ value false)
      × (addr_less (tag_ipv6 b p) (tag_ipv6 a p) ≡ value false)
      × (addr_equal (tag_ipv6 a p) (tag_ipv6 b p) ≡ value false)
unfolding addr_less addr_equal less_at
addr_less-ipv6_prefix a b p same differ =
    rw same (ground (arith, str_less_irrefl (take 4 b), str_eq→eq a b, differ))
