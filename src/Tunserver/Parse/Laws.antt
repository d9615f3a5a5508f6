-- ===== src/Tunserver/Parse/Laws.antt =====
-- What the parsers of src/galaxy42_utils.cpp and src/tunserver.cpp accept.
use galaxy.Prelude.{
  ℕ, suc, ◌+◌, ◌≡◌, ◌≤◌, ◌<◌, refl, true, false, [], ◌∷◌, ◌++◌, str_eq, length, length-append, drop,
  take-append, arith,
}
use galaxy.Outcome.{invalid_argument}
use galaxy.Try.{value, throws}
use galaxy.Serialize.Generator.{Str}
use galaxy.StdString.{contains, stoi_positive, reasonable_size_limit}
use galaxy.StdString.Laws.{find_char-append}
use galaxy.Galaxysrv.{literal_anyone}
use galaxy.Galaxysrv.Parse.{IsPart, groups, parse_peer_reference-groups}
use galaxy.Tunserver.{Platform}
use galaxy.Tunserver.Parse.{
  parse_ip_body, parse_ip_string, peering_reference, reference_of_cable, parse_new_format,
  default_port,
}

pub drop_past : (s t : Str) (c : ℕ) → drop (length s + 1) (s ++ (c ∷ t)) ≡ t
drop_past [] t c = refl
drop_past (x ∷ s) t c =
    let e : suc (length s) + 1 ≡ suc (length s + 1) = omega arith in rw e (drop_past s t c)

module _ (platform : Platform) (ip port : Str) (no_colon : contains b':' ip ≡ false) where
  -- "IP:PORT" with fewer than 8 characters without a colon in the address part is an
  -- invalid_argument, whatever the address and the port are.
  pub parse_ip_string_short :
      length ip < 8 → parse_ip_string platform (ip ++ (b':' ∷ port)) ≡ throws invalid_argument
  unfolding parse_ip_string parse_ip_body
  parse_ip_string_short short =
      ground (arith, find_char-append b':' ip port no_colon, take-append ip (b':' ∷ port), short)

  -- "IP:PORT" with 8 or more characters without a colon in the address part and 21 at most in
  -- all, an address that boost takes for a normal IPv4 address, and a port that stoi reads as a
  -- number from 1 to 65535, is parsed to that address and number.
  pub parse_ip_string_value :
      (n : ℕ)
      → 8 ≤ length ip
      → length ip + length port ≤ 20
      → platform.is_normal_ipv4 ip ≡ true
      → stoi_positive port ≡ value n
      → 0 < n
      → n ≤ 65535
      → parse_ip_string platform (ip ++ (b':' ∷ port)) ≡ value (ip, n)
  unfolding parse_ip_string parse_ip_body
  parse_ip_string_value n long few normal number positive small = ground (
    arith,
    find_char-append b':' ip port no_colon,
    take-append ip (b':' ∷ port),
    drop_past ip port b':',
    length-append ip (b':' ∷ port),
    long,
    few,
    normal,
    number,
    positive,
    small,
  )

-- The cable "TYPE:IPV4:PORT".
abbrev pub cable_text : Str → Str → Str → Str
cable_text type ipv4 port = type ++ (b':' ∷ ipv4 ++ (b':' ∷ port))

module _ (platform : Platform) where
  reference_of_cable-text :
      (id type ipv4 port : Str)
      → contains b':' type ≡ false
      → contains b':' ipv4 ≡ false
      → reference_of_cable platform id (cable_text type ipv4 port)
        ≡ peering_reference platform ipv4 default_port id
  unfolding reference_of_cable
  reference_of_cable-text id type ipv4 port a b =
      rw
        (
          reference_of_cable,
          find_char-append b':' type (ipv4 ++ (b':' ∷ port)) a,
          drop_past type (ipv4 ++ (b':' ∷ port)) b':',
          find_char-append b':' ipv4 port b,
          drop_past type (ipv4 ++ (b':' ∷ port)) b':',
          take-append ipv4 (b':' ∷ port),
        )
        refl

  -- The reference "HIP@(TYPE:IPV4:PORT)" of the new format, with HIP and the cable parts that
  -- parse_peer_reference takes, no colon in TYPE and IPV4, HIP other than "anyone" and without
  -- "@", and a million characters at most, names the peer with that hash-ip at that address and
  -- the default port 9042, whatever the text PORT is.
  pub parse_new_format_port :
      (id type ipv4 port : Str)
      → contains b':' type ≡ false
      → contains b':' ipv4 ≡ false
      → IsPart id
      → contains b'@' id ≡ false
      → str_eq id literal_anyone ≡ false
      → IsPart (cable_text type ipv4 port)
      → length id + length (groups (cable_text type ipv4 port) []) + 2 ≤ reasonable_size_limit
      → parse_new_format platform (id ++ (b'@' ∷ b'(' ∷ groups (cable_text type ipv4 port) []))
        ≡ peering_reference platform ipv4 default_port id
  unfolding parse_new_format
  parse_new_format_port id type ipv4 port a b p no_at named q few =
      rw
        (
          parse_new_format,
          parse_peer_reference-groups id (cable_text type ipv4 port) [] p no_at q tt few,
          named,
        )
        (reference_of_cable-text id type ipv4 port a b)
