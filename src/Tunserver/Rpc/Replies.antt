-- ===== src/Tunserver/Rpc/Replies.antt =====
-- The replies to rpc_add_peer and rpc_ban_peer, and the node behind them.
use galaxy.Prelude.{ℕ, ◌≡◌, refl, true, false, none, str_eq, Option-cases, ◌⊎◌, inl, inr, arith}
use galaxy.Outcome.{ok}
use galaxy.Try.{value, Try-cases}
use galaxy.Serialize.Generator.{Str}
use galaxy.StdMap.{find, emplace, erase}
use galaxy.StdMap.Laws.{find-emplace, find-erase, find-erase_other}
use galaxy.Haship.{Addr}
use galaxy.Tunserver.{Platform, Tunserver, delete_peer, add_peer_to_black_list, peer_on_black_list}
use galaxy.Tunserver.Rpc.{
  reply_ok, reply_blocked, reply_error, can_i_add_peer, delete_peer_simplestring, requested_hip,
  rpc_add_peer, rpc_ban_peer,
}

module _ (platform : Platform) where
  -- With m_unban_if_banned off, no request by RPC adds a peer, banned or not: the reply is "blocked" or
  -- "error", and the node is as before.
  pub rpc_add_peer_locked :
      (now : ℕ) (peer format : Str) (self : Tunserver)
      → self.m_unban_if_banned ≡ false
      → (rpc_add_peer platform now peer format self ≡ ok reply_blocked self)
        ⊎ (rpc_add_peer platform now peer format self ≡ ok reply_error self)
  unfolding rpc_add_peer can_i_add_peer
  rpc_add_peer_locked now peer format self locked =
      elim (Try-cases (requested_hip platform peer format)) [
        | inr (x, e) ↦ inr (ground (arith, e))
        | inl (hip, e) ↦ inl (ground (arith, e, locked))
      ]

  -- rpc_ban_peer of a well-formed address that is not banned replies "ok"; then it is on the
  -- black list and not among the peers, and every other peer is as before.
  pub rpc_ban_peer-bans :
      (peer : Str) (hip : Addr) (self : Tunserver)
      → platform.addr_dot peer ≡ value hip
      → peer_on_black_list hip self ≡ false
      → (later : Tunserver) × (rpc_ban_peer platform peer self ≡ ok reply_ok later)
        × (peer_on_black_list hip later ≡ true)
        × (find hip later.m_peer ≡ none)
        × ((other : Addr)
            → str_eq other hip ≡ false
            → find other later.m_peer ≡ find other self.m_peer)
  unfolding rpc_ban_peer delete_peer_simplestring delete_peer add_peer_to_black_list
      peer_on_black_list
  rpc_ban_peer-bans peer hip self e free =
      let absent : find hip self.m_peer_black_list ≡ none = ground (arith, free) in
      let listed = find-emplace hip tt self.m_peer_black_list absent in
      elim (Option-cases (find hip self.m_peer)) [
        | inl none_there ↦ (
          record self { m_peer_black_list = emplace hip tt self.m_peer_black_list },
          ground (arith, e, absent, none_there),
          ground (arith, listed),
          none_there,
          λ other d. refl,
        )
        | inr (p, there) ↦ (
          record self {
            m_peer = erase hip self.m_peer;
            m_peer_black_list = emplace hip tt self.m_peer_black_list;
          },
          ground (arith, e, absent, there),
          ground (arith, listed),
          find-erase hip self.m_peer,
          λ other d. find-erase_other hip other self.m_peer d,
        )
      ]
