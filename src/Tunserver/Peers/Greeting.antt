-- ===== src/Tunserver/Peers/Greeting.antt =====
-- add_peer_append_pubkey on each of its branches.
use galaxy.Prelude.{
  ℕ, ◌≡◌, refl, Bool, true, false, none, some, str_eq, str_eq_self, if◌then◌else◌, Option-cases,
  inl, inr, arith, Bool-cases,
}
use galaxy.Outcome.{ok, err, runtime_error, out_of_range}
use galaxy.Try.{value}
use galaxy.StdMap.{find, emplace, assign}
use galaxy.StdMap.Laws.{find-emplace, find-emplace_other, find-assign, find-assign_other}
use galaxy.Haship.{Addr}
use galaxy.IpAddr.{addr_equal}
use galaxy.Crypto.MultiCryptoStrings.{MultiCryptoStrings}
use galaxy.Tunserver.{
  Platform, PeeringReference, Peering, Tunserver, new_peering, set_pubkey, set_pip,
  update_last_ping_time, is_pubkey, peer_on_black_list,
}
use galaxy.Tunserver.Peers.{
  get_peer_with_hip, update_peering, append_new, print_added, add_peer_append_pubkey,
}

module _ (platform : Platform) (now : ℕ) (prints_debug : Bool) (ref : PeeringReference)
    (pubkey : MultiCryptoStrings) (self : Tunserver) where
  -- A public key that does not hash to the hash-ip of the reference is a runtime_error, and nothing
  -- changes.
  pub append_pubkey_forged :
      str_eq (platform.hip_of_pubkey pubkey) ref.haship_addr ≡ false
      → add_peer_append_pubkey platform now prints_debug ref pubkey self ≡ err runtime_error self
  unfolding add_peer_append_pubkey
  append_pubkey_forged forged = ground (arith, forged)

  -- A node on the black list that is not among the peers is not added; the call then ends normally
  -- where debug messages of the second level are off, and with an out_of_range where they are on.
  pub append_pubkey_banned :
      platform.hip_of_pubkey pubkey ≡ ref.haship_addr
      → find ref.haship_addr self.m_peer ≡ none
      → peer_on_black_list ref.haship_addr self ≡ true
      → add_peer_append_pubkey platform now prints_debug ref pubkey self
        ≡ (if prints_debug then err out_of_range self else ok tt self)
  unfolding add_peer_append_pubkey append_new print_added peer_on_black_list
  append_pubkey_banned known absent banned =
      ground (arith, known, absent, banned, str_eq_self ref.haship_addr)

  -- What a greeting leaves that succeeded: the peer with its key, and all others as before.
  abbrev pub Greeted : Tunserver → Type 0
  Greeted later =
      ((peering : Peering) × (get_peer_with_hip ref.haship_addr true later ≡ value peering)
        × (peering.m_pubkey ≡ some pubkey))
      × ((other : Addr)
          → str_eq other ref.haship_addr ≡ false
          → find other later.m_peer ≡ find other self.m_peer)

  named_found :
      (later : Tunserver) (peering : Peering)
      → find ref.haship_addr later.m_peer ≡ some peering
      → peering.m_pubkey ≡ some pubkey
      → get_peer_with_hip ref.haship_addr true later ≡ value peering
  unfolding get_peer_with_hip is_pubkey
  named_found later peering there named = ground (arith, there, named)

  -- A public key that hashes to the hash-ip of the reference, of a node that is not on the black list,
  -- succeeds where the addresses of the node and of the reference can be compared: get_peer_with_hip then
  -- finds the node with that key, and every other peer is as before.
  pub append_pubkey_known :
      platform.hip_of_pubkey pubkey ≡ ref.haship_addr
      → peer_on_black_list ref.haship_addr self ≡ false
      → ((peering : Peering)
          → find ref.haship_addr self.m_peer ≡ some peering
          → (same : Bool) × (addr_equal peering.m_peering_addr ref.peering_addr ≡ value same))
      → (later : Tunserver) × (add_peer_append_pubkey platform now prints_debug ref pubkey self
          ≡ ok tt later)
        × Greeted later
  unfolding add_peer_append_pubkey append_new update_peering print_added peer_on_black_list
      new_peering set_pubkey set_pip update_last_ping_time
  append_pubkey_known known free comparable =
      let unlisted : find ref.haship_addr self.m_peer_black_list ≡ none = ground (arith, free) in
      elim (Option-cases (find ref.haship_addr self.m_peer)) [
        | inl absent ↦
            let named : Peering = set_pubkey pubkey (new_peering now ref) in
            let later : Tunserver = record self {
              m_peer = emplace ref.haship_addr named self.m_peer;
            } in
            let there = find-emplace ref.haship_addr named self.m_peer absent in
            (
              later,
              ground (arith, known, absent, unlisted, there, str_eq_self ref.haship_addr),
              (
                (named, named_found later named there refl, refl),
                λ other d. find-emplace_other ref.haship_addr other named self.m_peer d,
              ),
            )
        | inr (old, there) ↦
            let (same, e) = comparable old there in
            let named : Peering = set_pubkey pubkey (update_last_ping_time now old) in
            let moved : Peering = set_pip ref.peering_addr named in
            let assigned : Peering → Tunserver =
              λ p. record self { m_peer = assign ref.haship_addr p self.m_peer } in
            let greeted : (p : Peering) → p.m_pubkey ≡ some pubkey → Greeted (assigned p) =
              λ p has_key. (
                (
                  p,
                  named_found (assigned p) p (find-assign ref.haship_addr p old self.m_peer there)
                      has_key,
                  has_key,
                ),
                λ other d. find-assign_other ref.haship_addr other p self.m_peer d,
              ) in
            elim (Bool-cases same) [
              | inl t ↦ (
                assigned named,
                ground (
                  arith,
                  known,
                  there,
                  e,
                  t,
                  find-assign ref.haship_addr named old self.m_peer there,
                  str_eq_self ref.haship_addr,
                ),
                greeted named refl,
              )
              | inr f ↦ (
                assigned moved,
                ground (
                  arith,
                  known,
                  there,
                  e,
                  f,
                  find-assign ref.haship_addr moved old self.m_peer there,
                  str_eq_self ref.haship_addr,
                ),
                greeted moved refl,
              )
            ]
      ]
