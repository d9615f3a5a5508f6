-- ===== src/Tunserver/Tests.antt =====
-- A node with one peer, in concrete runs.
use galaxy.Prelude.{
  ◌≡◌, refl, arith, [], ◌∷◌, ◌++◌, Bool, true, false, replicate, none, some, str_eq, if◌then◌else◌,
  inr,
}
use galaxy.Outcome.{ok, err, out_of_range, expected_not_found}
use galaxy.Try.{value, throws}
use galaxy.Serialize.Generator.{Str}
use galaxy.StdMap.{find}
use galaxy.StdString.{contains, find_char}
use galaxy.Haship.{Addr}
use galaxy.IpAddr.{Ip46Addr, tag_ipv4, addr_equal}
use galaxy.Crypto.MultiCryptoStrings.{MultiCryptoStrings, empty, use_open}
use galaxy.Galaxysrv.Parse.{groups}
use galaxy.Tunserver.{Platform, PeeringReference, Peering, Tunserver, peer_on_black_list, is_pubkey}
use galaxy.Tunserver.Peers.{get_peer_with_hip, add_peer_append_pubkey}
use galaxy.Tunserver.Peers.WellFormed.{after, Call, WellFormed, run_all-WellFormed}
use galaxy.Tunserver.Peers.Greeting.{Greeted, append_pubkey_known, append_pubkey_banned}
use galaxy.Tunserver.Rpc.{reply_ok, rpc_ban_peer}
use galaxy.Tunserver.Bans.{NoneBanned}
use galaxy.Tunserver.Requests.{Step, Steps, Steps-keep_banned_out}
use galaxy.Tunserver.Rpc.Replies.{rpc_ban_peer-bans}
use galaxy.Tunserver.Parse.{parse_new_format, peering_reference, default_port}
use galaxy.Tunserver.Parse.Laws.{cable_text, parse_new_format_port}

-- A platform that takes every text for an address, by its octets.
abbrev plain : Platform
plain = record {
  ip46_addr = λ text port. value (tag_ipv4 text port);
  addr_dot = λ text. value text;
  is_normal_ipv4 = λ text. true;
  hip_of_pubkey = λ pubkey. 0xfd ∷ replicate 15 pubkey.m_crypto_use;
}

abbrev key : MultiCryptoStrings
key = empty use_open

abbrev home : Addr
home = 0xfd ∷ replicate 15 use_open

abbrev other_home : Addr
other_home = 0xfd ∷ replicate 15 1

abbrev pip : Ip46Addr
pip = tag_ipv4 (10 ∷ 0 ∷ 0 ∷ 1 ∷ []) 9042

abbrev reference : PeeringReference
reference = record { peering_addr = pip; haship_addr = home }

abbrev friend : Peering
friend = record {
  m_peering_addr = pip;
  m_haship_addr = home;
  m_pubkey = some key;
  m_last_ping_time = 0;
}

-- A node with one peer and another address on the black list.
abbrev node : Tunserver
node = record {
  m_peer = (home, friend) ∷ [];
  m_peer_black_list = (other_home, tt) ∷ [];
  m_unban_if_banned = false;
  m_tunnel = [];
  sent = [];
}

node-WellFormed : WellFormed plain node
node-WellFormed = ((refl, λ pubkey e. cc e), tt)

run_all-WellFormed_example :
    (friend.m_haship_addr ≡ home)
    × ((pubkey : MultiCryptoStrings)
        → friend.m_pubkey ≡ some pubkey
        → plain.hip_of_pubkey pubkey ≡ home)
unfolding get_peer_with_hip galaxy.Tunserver.add_peer
run_all-WellFormed_example =
    run_all-WellFormed plain (Call.add_peer_call 1 reference ∷ []) node home false friend
      node-WellFormed refl

same_pip :
    (peering : Peering)
    → find home node.m_peer ≡ some peering
    → (same : Bool) × (addr_equal peering.m_peering_addr pip ≡ value same)
unfolding addr_equal
same_pip peering e = (true, cc e)

append_pubkey_known_example :
    (later : Tunserver) × (add_peer_append_pubkey plain 1 true reference key node ≡ ok tt later)
    × Greeted plain 1 true reference key node later
unfolding peer_on_black_list
append_pubkey_known_example = append_pubkey_known plain 1 true reference key node refl refl same_pip

abbrev banned_node : Tunserver
banned_node = record node { m_peer = []; m_peer_black_list = (home, tt) ∷ [] }

append_pubkey_banned_example :
    add_peer_append_pubkey plain 1 true reference key banned_node
    ≡ (if true then err out_of_range banned_node else ok tt banned_node)
unfolding peer_on_black_list
append_pubkey_banned_example =
    append_pubkey_banned plain 1 true reference key banned_node refl refl refl

abbrev free_node : Tunserver
free_node = record node { m_peer_black_list = [] }

none_banned : NoneBanned free_node
none_banned hip = inr refl

now_banned : peer_on_black_list home (after (rpc_ban_peer plain home free_node)) ≡ true
unfolding peer_on_black_list rpc_ban_peer galaxy.Tunserver.Rpc.delete_peer_simplestring
    galaxy.Tunserver.delete_peer galaxy.Tunserver.add_peer_to_black_list
now_banned = refl

Steps-keep_banned_out_example :
    get_peer_with_hip home false (after (rpc_ban_peer plain home free_node))
    ≡ throws expected_not_found
Steps-keep_banned_out_example =
    Steps-keep_banned_out plain home false (Steps.step (Step.rpc_ban home) Steps.done) none_banned
      now_banned

rpc_ban_peer-bans_example :
    (later : Tunserver) × (rpc_ban_peer plain home node ≡ ok reply_ok later)
    × (peer_on_black_list home later ≡ true)
    × (find home later.m_peer ≡ none)
    × ((other : Addr)
        → str_eq other home ≡ false
        → find other later.m_peer ≡ find other node.m_peer)
unfolding peer_on_black_list
rpc_ban_peer-bans_example = rpc_ban_peer-bans plain home home node refl refl

-- 8.8.8.8
abbrev short_ip : Str
short_ip = b'8' ∷ b'.' ∷ b'8' ∷ b'.' ∷ b'8' ∷ b'.' ∷ b'8' ∷ []

-- 10.0.0.1
abbrev long_ip : Str
long_ip = b'1' ∷ b'0' ∷ b'.' ∷ b'0' ∷ b'.' ∷ b'0' ∷ b'.' ∷ b'1' ∷ []

abbrev port_80 : Str
port_80 = b'8' ∷ b'0' ∷ []

abbrev udp : Str
udp = b'u' ∷ b'd' ∷ b'p' ∷ []

abbrev id_text : Str
id_text = b'f' ∷ b'd' ∷ b'1' ∷ []

parse_new_format_port_example :
    parse_new_format plain (id_text ++ (b'@' ∷ b'(' ∷ groups (cable_text udp long_ip port_80) []))
    ≡ peering_reference plain long_ip default_port id_text
unfolding contains find_char
parse_new_format_port_example =
    parse_new_format_port plain id_text udp long_ip port_80 refl refl (refl, refl, omega arith) refl
      refl (refl, refl, omega arith) (omega arith)
