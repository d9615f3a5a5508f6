-- ===== src/Tunserver/Parse.antt =====
-- Text to references of peers: parse_ip_string of src/galaxy42_utils.cpp, and of src/tunserver.cpp
-- parse_peer_simplestring, the constructors of a reference, and the two formats of add_peer.
pub mod Laws
use galaxy.Prelude.{
  ℕ, ◌+◌, ◌≡◌, Bool, true, false, not, List, [], ◌∷◌, Option, none, some, ltb, leb, if◌then◌else◌,
  length, take, drop,
}
use galaxy.Outcome.{
  Outcome, ok, err, M, out_of_range, invalid_argument, runtime_error, err_check_input,
}
use galaxy.Try.{Try, value, throws, ◌>>=◌, ◌>>◌, check}
use galaxy.Serialize.Generator.{Str}
use galaxy.StdString.{find_char, stoi_positive, char_at}
use galaxy.Galaxysrv.{parse_peer_reference}
use galaxy.Tunserver.{Platform, PeeringReference, Tunserver, add_peer, delete_peer_from_black_list}

-- What both calls do with a reference.
unfoldable pub add_reference : ℕ → PeeringReference → M Tunserver (Unit {0})
add_reference now ref self = elim (add_peer now ref self) [
  | ok added after ↦ delete_peer_from_black_list ref.haship_addr after
  | err e after ↦ err e after
]

-- c_ip46_addr's default port, which the conversion of a string takes.
abbrev pub default_port : ℕ
default_port = 9042

module _ (platform : Platform) where
  -- The body of the try block of parse_ip_string.
  unfoldable pub parse_ip_body : Str → Try (Str × ℕ)
  parse_ip_body ip_string = do
    check (leb 8 (length ip_string)) runtime_error
    check (leb (length ip_string) 21) runtime_error
    elim (find_char b':' ip_string) [
      | none ↦ throws runtime_error
      | some pos ↦ do
        let ip = take pos ip_string
        check (leb 8 (length ip)) runtime_error
        port_int ← stoi_positive (drop (pos + 1) ip_string)
        check (ltb 0 port_int) runtime_error
        check (leb port_int 65535) runtime_error
        check (platform.is_normal_ipv4 ip) runtime_error
        value (ip, port_int)
    ]

  -- Every exception of the body becomes an invalid_argument.
  unfoldable pub parse_ip_string : Str → Try (Str × ℕ)
  parse_ip_string ip_string = elim (parse_ip_body ip_string) [
    | value pair ↦ value pair
    | throws e ↦ throws invalid_argument
  ]

  -- The constructors of t_peering_reference.
  unfoldable pub peering_reference : Str → ℕ → Str → Try PeeringReference
  peering_reference peering_addr port peering_hip = do
    addr ← platform.ip46_addr peering_addr port
    hip ← platform.addr_dot peering_hip
    value (record { peering_addr = addr; haship_addr = hip })

  -- "PIP-HIP"
  unfoldable pub parse_peer_simplestring : Str → Try PeeringReference
  parse_peer_simplestring simple = elim (find_char b'-' simple) [
    | none ↦ throws out_of_range
    | some pos1 ↦ do
      (ip, port) ← parse_ip_string (take pos1 simple)
      peering_reference ip port (drop (pos1 + 1) simple)
  ]

  unfoldable pub add_peer_simplestring : ℕ → Str → M Tunserver (Unit {0})
  add_peer_simplestring now simple self = elim (parse_peer_simplestring simple) [
    | value ref ↦ add_reference now ref self
    | throws e ↦ err invalid_argument self
  ]

  -- The reference in "HIP@(udp:IPV4:PORT)": the first address and the first cable. The string IPV4 is
  -- converted to a c_ip46_addr, with the default port.
  unfoldable pub reference_of_cable : Str → Str → Try PeeringReference
  reference_of_cable id cable = elim (find_char b':' cable) [
    | none ↦ throws err_check_input
    | some begin ↦
        let ipv4_with_port = drop (begin + 1) cable in
        elim (find_char b':' ipv4_with_port) [
          | none ↦ throws err_check_input
          | some end ↦ peering_reference (take end ipv4_with_port) default_port id
        ]
  ]

  unfoldable pub parse_new_format : Str → Try PeeringReference
  parse_new_format simple = do
    (ids, cables) ← parse_peer_reference simple
    elim ids [
      | [] ↦ throws err_check_input
      | id ∷ more ↦ elim cables [
        | [] ↦ throws err_check_input
        | cable ∷ others ↦ reference_of_cable id cable
      ]
    ]

  unfoldable pub add_peer_simplestring_new_format : ℕ → Str → M Tunserver (Unit {0})
  add_peer_simplestring_new_format now simple self = elim (parse_new_format simple) [
    | value ref ↦ add_reference now ref self
    | throws e ↦ err err_check_input self
  ]
