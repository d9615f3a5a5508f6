-- ===== src/Tunserver/Commands/Answers.antt =====
-- A query for a route, the answer of the node that is asked, and what the asker makes of it.
use galaxy.Prelude.{
  ℕ, ◌-◌, ◌≡◌, ◌≢◌, ◌<◌, ◌%◌, true, false, List, [], ◌∷◌, none, some, length, drop, arith, inl, inr,
  Option-cases, subst, sym,
}
use galaxy.Outcome.{ok, err, Error, runtime_error}
use galaxy.Try.{value, throws, Try-cases}
use galaxy.Serialize.Generator.{Str}
use galaxy.Serialize.Codec.{IsSane}
use galaxy.StdString.{contains}
use galaxy.StdMap.{find, emplace}
use galaxy.StdMap.Laws.{find-emplace}
use galaxy.Haship.{Addr, g_haship_addr_size}
use galaxy.IpAddr.{Ip46Addr, tag_none, tag_ipv4, tag_ipv6, addr_equal}
use galaxy.Crypto.MultiCryptoStrings.{MultiCryptoStrings, IsArray, use_open, serialize_bin}
use galaxy.Crypto.MultiCryptoStrings.Save.{Saveable}
use galaxy.Crypto.Tunnel.{Tunnel, load_pub}
use galaxy.Crypto.Tunnel.Handshake.{Apart, load_pub-serialize_bin, initiate-ok}
use galaxy.Crypto.KeyPairs.{MultikeysPair}
use galaxy.Crypto.Kex.Agreement.{Documented, Sized}
use galaxy.Crypto.Stream.Agreement.{Party}
use galaxy.Tunserver.{Platform, Peering, Tunserver}
use galaxy.Tunserver.Peers.{TunnelUse, tunnel_use, add_tunnel_to_pubkey, current_version}
use galaxy.Tunserver.Routing.{
  RouteInfo, Node, get_route_or_maybe_search, add_route_info_and_return, search_mode_help_find,
  query_text,
}
use galaxy.Tunserver.Routing.Asked.{with_sent, send_one}
use galaxy.Tunserver.Forward.{catchable}
use galaxy.Tunserver.Commands.{
  find_peer_by_sender_peering_addr, on_server, caught, known_sender, answer_query,
  handle_findhip_query, handle_findhip_reply, use_reply, cmd_findhip_reply,
}
use galaxy.Tunserver.Commands.Texts.{
  reply_text, write_reply-reply_text, read_reply-reply_text, semicolon_from_two-query_text,
  semicolon_from_two_early, char_at-query_text, take-query_text,
}

addr_equal-catchable : (a b : Ip46Addr) (e : Error) → addr_equal a b ≡ throws e → catchable e ≡ true
unfolding addr_equal
addr_equal-catchable tag_none b e h = ground (arith, h)
addr_equal-catchable (tag_ipv4 a p) tag_none e h = ground (arith, h)
addr_equal-catchable (tag_ipv4 a p) (tag_ipv4 b q) e h = ground (arith, h)
addr_equal-catchable (tag_ipv4 a p) (tag_ipv6 b q) e h = ground (arith, h)
addr_equal-catchable (tag_ipv6 a p) tag_none e h = ground (arith, h)
addr_equal-catchable (tag_ipv6 a p) (tag_ipv4 b q) e h = ground (arith, h)
addr_equal-catchable (tag_ipv6 a p) (tag_ipv6 b q) e h = ground (arith, h)

known_peer_catchable :
    (ip : Ip46Addr) (peers : List (Addr × Peering)) (e : Error)
    → find_peer_by_sender_peering_addr ip peers ≡ throws e
    → catchable e ≡ true
unfolding find_peer_by_sender_peering_addr
known_peer_catchable ip [] e h = ground (arith, h)
known_peer_catchable ip ((hip, peering) ∷ peers) e h =
    elim (Try-cases (addr_equal peering.m_peering_addr ip)) [
      | inl (same, k) ↦ ground (arith, h, k, known_peer_catchable ip peers e)
      | inr (x, k) ↦ ground (arith, h, k, addr_equal-catchable peering.m_peering_addr ip x k)
    ]

-- The sender is handed the reply, in one datagram.
abbrev pub after_reply : Str → Peering → Node → Node
after_reply reply sender self = record self {
  server =
      with_sent ((sender.m_peering_addr, current_version ∷ cmd_findhip_reply ∷ reply) ∷ [])
        self.server;
}

module _ (now : ℕ) (sender : Peering) (sender_pip : Ip46Addr) (asked : Addr) (ttl : ℕ)
    (self after : Node) (route : RouteInfo) (bytes : Str)
    (sized : length asked ≡ g_haship_addr_size)
    (found : get_route_or_maybe_search now asked
        (record { m_his_addr = sender.m_haship_addr; m_search_mode = search_mode_help_find })
        true
        (ttl - 1)
        self
      ≡ ok route after)
    (saves : serialize_bin route.m_pubkey ≡ value bytes) (sane : IsSane bytes)
    (tagged : sender.m_peering_addr ≢ tag_none) where
  caught-answer_query :
      caught (answer_query now sender sender_pip asked ttl) self
      ≡ ok tt (after_reply (reply_text ttl route.m_cost asked bytes) sender after)
  unfolding caught answer_query on_server known_sender
  caught-answer_query =
      let reply : Str = reply_text ttl route.m_cost asked bytes in
      let sent : Node = after_reply reply sender after in
      let written_reply = write_reply-reply_text ttl route.m_cost asked bytes sized sane in
      let sends = send_one cmd_findhip_reply reply sender after.server tagged in
      elim (Try-cases (find_peer_by_sender_peering_addr sender_pip sent.server.m_peer)) [
        | inl (peering, k) ↦ ground (arith, found, saves, written_reply, sends, k)
        | inr (x, k) ↦ ground (
          arith,
          found,
          saves,
          written_reply,
          sends,
          k,
          known_peer_catchable sender_pip sent.server.m_peer x k,
        )
      ]

  handle_findhip_query-after_reply :
      contains b';' (drop 2 asked) ≡ false
      → ttl ≢ 0
      → ttl < 128
      → handle_findhip_query now sender sender_pip (query_text asked ttl) self
        ≡ ok tt (after_reply (reply_text ttl route.m_cost asked bytes) sender after)
  unfolding handle_findhip_query
  handle_findhip_query-after_reply plain alive small = ground (
    arith,
    alive,
    semicolon_from_two-query_text asked ttl sized plain,
    char_at-query_text asked ttl sized,
    take-query_text asked ttl sized,
    caught-answer_query,
  )

-- The route that a reply gives.
abbrev pub told_route : ℕ → Addr → RouteInfo → RouteInfo
told_route later sender_hip route = record {
  m_nexthop = sender_hip;
  m_pubkey = route.m_pubkey;
  m_cost = route.m_cost % 256;
  m_time = later;
}

-- The asker knows no way to the address, and learns this one, with a tunnel to the other end.
abbrev pub Learns :
    {Nonce : Type 0}
    → TunnelUse Nonce
    → Platform
    → ℕ
    → Addr
    → Addr
    → RouteInfo
    → Str
    → Node
    → Type 0
Learns mine platform later sender_hip asked route reply asker =
    (told : Node) × (handle_findhip_reply mine platform later sender_hip reply asker ≡ ok tt told)
    × (find asked told.m_route_nexthop ≡ some (told_route later sender_hip route))
    × (find (platform.hip_of_pubkey route.m_pubkey) told.server.m_tunnel ≢ none)

-- A tunnel is there already, or is made.
add_tunnel_to_pubkey-there :
    {Nonce : Type 0} (mine : TunnelUse Nonce) (platform : Platform) (pubkey : MultiCryptoStrings)
    (server : Tunserver) (tunnel : Tunnel Nonce)
    → tunnel_use mine pubkey ≡ value tunnel
    → (tunnels : List (Addr × MultiCryptoStrings)) × (add_tunnel_to_pubkey platform mine pubkey
          server
        ≡ ok tt (record server { m_tunnel = tunnels }))
      × (find (platform.hip_of_pubkey pubkey) tunnels ≢ none)
unfolding add_tunnel_to_pubkey
add_tunnel_to_pubkey-there mine platform pubkey server tunnel made =
    let hip = platform.hip_of_pubkey pubkey in
    elim (Option-cases (find hip server.m_tunnel)) [
      | inr (old, e) ↦ (server.m_tunnel, ground (arith, e), λ h. cc (h, e))
      | inl e ↦ (
        emplace hip pubkey server.m_tunnel,
        ground (arith, e, made),
        λ h. cc (h, find-emplace hip pubkey server.m_tunnel e),
      )
    ]

handle_findhip_reply-reply_text :
    {Nonce : Type 0} (mine : TunnelUse Nonce) (platform : Platform) (later : ℕ)
    (sender_hip asked : Addr) (ttl : ℕ) (route : RouteInfo) (bytes : Str) (asker : Node)
    (tunnel : Tunnel Nonce)
    → length asked ≡ g_haship_addr_size
    → IsSane bytes
    → load_pub bytes ≡ value route.m_pubkey
    → ttl ≢ 0
    → find asked asker.m_route_nexthop ≡ none
    → tunnel_use mine route.m_pubkey ≡ value tunnel
    → Learns mine platform later sender_hip asked route
        (reply_text ttl route.m_cost asked bytes)
        asker
unfolding handle_findhip_reply use_reply on_server add_route_info_and_return
handle_findhip_reply-reply_text mine platform later sender_hip asked ttl route bytes asker tunnel
      sized sane loads alive unknown made =
    let there = told_route later sender_hip route in
    let (tunnels, adds, kept) =
      add_tunnel_to_pubkey-there mine platform route.m_pubkey asker.server tunnel made in
    (
      record asker {
        server = record asker.server { m_tunnel = tunnels };
        m_route_nexthop = emplace asked there asker.m_route_nexthop;
      },
      ground (
        arith,
        alive,
        unknown,
        adds,
        read_reply-reply_text ttl route.m_cost asked bytes sized sane route.m_pubkey loads,
      ),
      find-emplace asked there asker.m_route_nexthop unknown,
      kept,
    )

-- A node is asked for a route to an address of 16 octets with no ';' behind the first two, with a TTL from 1
-- to 127, by a peer whose own address has a tag. It has a route to there, with the public keys of an identity:
-- for open use, without a kept hash, in at most SANE_MAX_SIZE_FOR_STRING octets when they are saved. Then it
-- sends that peer exactly one more datagram, a reply. A node with an identity of its own, of another hash,
-- that knows no route to the address and handles that reply learns one: by the node that sent it, with the
-- same public keys and the cost modulo 256; and it has a tunnel to those public keys. The identities have full
-- arrays of keys that can be saved, with the public keys at the places of their private keys; the agreements
-- of single pairs of keys and the sizes of random octets are as documented.
pub findhip_learnt :
    {Nonce : Type 0} (mine : TunnelUse Nonce) {IsKeyPair : ℕ → Str → Str → Type 0} (now ttl : ℕ)
    (sender : Peering) (sender_pip : Ip46Addr) (asked : Addr) (self after : Node)
    (route : RouteInfo) (platform : Platform) (later : ℕ) (sender_hip : Addr) (asker : Node)
    (identity : MultikeysPair)
    → length asked ≡ g_haship_addr_size
    → contains b';' (drop 2 asked) ≡ false
    → ttl ≢ 0
    → ttl < 128
    → get_route_or_maybe_search now asked
        (record { m_his_addr = sender.m_haship_addr; m_search_mode = search_mode_help_find })
        true
        (ttl - 1)
        self
      ≡ ok route after
    → identity.m_pub ≡ route.m_pubkey
    → Party IsKeyPair identity
    → (route.m_pubkey.m_crypto_use ≡ use_open) × (route.m_pubkey.m_hash_cached ≡ [])
    → ((bytes : Str) → serialize_bin route.m_pubkey ≡ value bytes → IsSane bytes)
    → sender.m_peering_addr ≢ tag_none
    → find asked asker.m_route_nexthop ≡ none
    → Documented mine.agreements IsKeyPair
    → Sized mine.random
    → Party IsKeyPair mine.m_my_idc
    → Apart mine.agreements mine.m_my_idc identity
    → (reply : Str) × (handle_findhip_query now sender sender_pip (query_text asked ttl) self
        ≡ ok tt (after_reply reply sender after))
      × Learns mine platform later sender_hip asked route reply asker
unfolding tunnel_use
findhip_learnt mine now ttl sender sender_pip asked self after route platform later sender_hip asker
      identity sized plain alive small found same party (open_use, no_hash) short tagged unknown
      documented random_sized my_party apart =
    let array = subst IsArray same party.public_array in
    let saveable = subst (λ keys. Saveable 0 keys.m_cryptolists_general) same party.saveable in
    let (bytes, saves, loads) =
      load_pub-serialize_bin route.m_pubkey array open_use no_hash saveable in
    let sane = short bytes saves in
    let (tunnel, made) =
      initiate-ok mine.ciphers documented my_party party apart mine.random random_sized in
    (
      reply_text ttl route.m_cost asked bytes,
      handle_findhip_query-after_reply now sender sender_pip asked ttl self after route bytes sized
          found saves sane tagged plain alive small,
      handle_findhip_reply-reply_text mine platform later sender_hip asked ttl route bytes asker
          tunnel sized sane loads alive unknown (rw (sym same) made),
    )

-- A query for an address of 16 octets with a ';' behind the first two is refused with a runtime_error by every
-- node, whoever sent it and whatever its TTL, and changes nothing: the handler takes that ';' for the end of
-- the address.
pub findhip_refused :
    (now ttl : ℕ) (sender : Peering) (sender_pip : Ip46Addr) (asked : Addr) (self : Node)
    → length asked ≡ g_haship_addr_size
    → contains b';' (drop 2 asked) ≡ true
    → handle_findhip_query now sender sender_pip (query_text asked ttl) self
      ≡ err runtime_error self
unfolding handle_findhip_query
findhip_refused now ttl sender sender_pip asked self sized early =
    let (pos, found, below) = semicolon_from_two_early asked ttl sized early in
    ground (arith, found, below)
