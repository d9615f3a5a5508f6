-- ===== src/Tunserver/Peers/WellFormed.antt =====
-- The invariant of the peers: each stands under its own hash-ip, and a public key that is known hashes
-- to it. It holds of a node without peers and through every call that changes them.
use galaxy.Prelude.{
  ℕ, ◌≡◌, refl, Bool, List, [], ◌∷◌, some, str_eq, str_eq→eq, All, Option-cases, inl, inr, arith,
  Bool-cases,
}
use galaxy.Outcome.{Outcome, ok, err, M, ◌>>◌, Outcome-cases}
use galaxy.Try.{value, Try-cases}
use galaxy.StdMap.{find}
use galaxy.StdMap.Invariant.{All-emplace, All-assign, All-erase, find-All}
use galaxy.Haship.{Addr}
use galaxy.IpAddr.{addr_equal}
use galaxy.Crypto.MultiCryptoStrings.{MultiCryptoStrings}
use galaxy.Tunserver.{
  Platform, PeeringReference, Peering, Tunserver, new_peering, set_pubkey, set_pip,
  update_last_ping_time, add_peer, delete_peer, delete_all_peers, add_peer_to_black_list,
  delete_peer_from_black_list,
}
use galaxy.Tunserver.Peers.{
  get_peer_with_hip, update_peering, append_new, print_added, add_peer_append_pubkey,
}

-- The state that a call leaves, with or without an exception.
abbrev pub after : {S A : Type 0} → Outcome S A → S
after (ok a s) = s
after (err e s) = s

-- The calls that change the peers or the black list.
pub data Call : Type 0 where
  add_peer_call : ℕ → PeeringReference → Call
  delete_peer_call : Addr → Call
  delete_all_peers_call : Bool → Call
  append_pubkey_call : ℕ → Bool → PeeringReference → MultiCryptoStrings → Call
  ban_call unban_call : Addr → Call

print_added-same :
    (prints_debug : Bool) (hip : Addr) (self : Tunserver)
    → after (print_added prints_debug hip self) ≡ self
unfolding print_added
print_added-same prints_debug hip self = ground arith

pub printed :
    (m : M Tunserver (Unit {0})) (prints_debug : Bool) (hip : Addr) (self : Tunserver)
    → after ((m >> print_added prints_debug hip) self) ≡ after (m self)
printed m prints_debug hip self = elim (Outcome-cases (m self)) [
  | inl (u, s, e) ↦ rw (after, e) (print_added-same prints_debug hip s)
  | inr (x, s, e) ↦ rw (after, e) refl
]

module _ (platform : Platform) where
  abbrev pub IsOwn : Addr × Peering → Type 0
  IsOwn (hip, peering) =
      (peering.m_haship_addr ≡ hip)
      × ((pubkey : MultiCryptoStrings)
          → peering.m_pubkey ≡ some pubkey
          → platform.hip_of_pubkey pubkey ≡ hip)

  abbrev pub WellFormed : Tunserver → Type 0
  WellFormed self = All IsOwn self.m_peer

  abbrev pub run : Call → Tunserver → Tunserver
  run (add_peer_call now ref) self = after (add_peer now ref self)
  run (delete_peer_call hip) self = after (delete_peer hip self)
  run (delete_all_peers_call is_banned) self = after (delete_all_peers is_banned self)
  run (append_pubkey_call now prints_debug ref pubkey) self =
      after (add_peer_append_pubkey platform now prints_debug ref pubkey self)
  run (ban_call hip) self = after (add_peer_to_black_list hip self)
  run (unban_call hip) self = after (delete_peer_from_black_list hip self)

  new_peering-IsOwn :
      (now : ℕ) (ref : PeeringReference) → IsOwn (ref.haship_addr, new_peering now ref)
  unfolding new_peering
  new_peering-IsOwn now ref = (refl, λ pubkey e. cc e)

  named-IsOwn :
      (hip : Addr) (peering : Peering) (pubkey : MultiCryptoStrings)
      → peering.m_haship_addr ≡ hip
      → platform.hip_of_pubkey pubkey ≡ hip
      → IsOwn (hip, set_pubkey pubkey peering)
  unfolding set_pubkey
  named-IsOwn hip peering pubkey own known = (own, λ other e. cc (e, known))

  add_peer-WellFormed :
      (now : ℕ) (ref : PeeringReference) (self : Tunserver)
      → WellFormed self
      → WellFormed (after (add_peer now ref self))
  unfolding add_peer
  add_peer-WellFormed now ref self w = elim (Option-cases (find ref.haship_addr self.m_peer)) [
    | inl e ↦
        rw (after, e)
          (All-emplace IsOwn ref.haship_addr (new_peering now ref) self.m_peer
            (new_peering-IsOwn now ref) w)
    | inr (p, e) ↦ rw (after, e) w
  ]

  delete_peer-WellFormed :
      (hip : Addr) (self : Tunserver) → WellFormed self → WellFormed (after (delete_peer hip self))
  unfolding delete_peer
  delete_peer-WellFormed hip self w = elim (Option-cases (find hip self.m_peer)) [
    | inl e ↦ rw (after, e) w
    | inr (p, e) ↦ rw (after, e) (All-erase IsOwn hip self.m_peer w)
  ]

  append_new-WellFormed :
      (now : ℕ) (ref : PeeringReference) (pubkey : MultiCryptoStrings) (self : Tunserver)
      → platform.hip_of_pubkey pubkey ≡ ref.haship_addr
      → WellFormed self
      → WellFormed (after (append_new now ref pubkey ref.haship_addr self))
  unfolding append_new new_peering
  append_new-WellFormed now ref pubkey self known w =
      elim (Option-cases (find ref.haship_addr self.m_peer_black_list)) [
        | inl e ↦
            rw (after, e)
              (All-emplace IsOwn ref.haship_addr (set_pubkey pubkey (new_peering now ref))
                self.m_peer (named-IsOwn ref.haship_addr (new_peering now ref) pubkey refl known) w)
        | inr (u, e) ↦ rw (after, e) w
      ]

  update_peering-WellFormed :
      (now : ℕ) (ref : PeeringReference) (pubkey : MultiCryptoStrings) (peering : Peering)
      (self : Tunserver)
      → platform.hip_of_pubkey pubkey ≡ ref.haship_addr
      → peering.m_haship_addr ≡ ref.haship_addr
      → WellFormed self
      → WellFormed (after (update_peering now ref pubkey ref.haship_addr peering self))
  unfolding update_peering set_pip update_last_ping_time
  update_peering-WellFormed now ref pubkey peering self known own w =
      let named : Peering = set_pubkey pubkey (update_last_ping_time now peering) in
      let own_named =
        named-IsOwn ref.haship_addr (update_last_ping_time now peering) pubkey own known in
      let kept = All-assign IsOwn ref.haship_addr named self.m_peer own_named w in
      elim (Try-cases (addr_equal peering.m_peering_addr ref.peering_addr)) [
        | inr (x, e) ↦ rw (after, e) kept
        | inl (same, e) ↦ elim (Bool-cases same) [
          | inl t ↦ rw (after, e, t) kept
          | inr f ↦
              rw (after, e, f)
                (All-assign IsOwn ref.haship_addr (set_pip ref.peering_addr named) self.m_peer
                  own_named w)
        ]
      ]

  append_pubkey-WellFormed :
      (now : ℕ) (prints_debug : Bool) (ref : PeeringReference) (pubkey : MultiCryptoStrings)
      (self : Tunserver)
      → WellFormed self
      → WellFormed (after (add_peer_append_pubkey platform now prints_debug ref pubkey self))
  unfolding add_peer_append_pubkey
  append_pubkey-WellFormed now prints_debug ref pubkey self w =
      elim (Bool-cases (str_eq (platform.hip_of_pubkey pubkey) ref.haship_addr)) [
        | inr e ↦ rw (after, e) w
        | inl e ↦
            let known : platform.hip_of_pubkey pubkey ≡ ref.haship_addr = str_eq→eq _ _ e in
            elim (Option-cases (find ref.haship_addr self.m_peer)) [
              | inl absent ↦
                  rw
                    (
                      e,
                      absent,
                      printed (append_new now ref pubkey ref.haship_addr) prints_debug
                          ref.haship_addr self,
                    )
                    (append_new-WellFormed now ref pubkey self known w)
              | inr (p, there) ↦
                  rw
                    (
                      e,
                      there,
                      printed (update_peering now ref pubkey ref.haship_addr p) prints_debug
                          ref.haship_addr self,
                    )
                    (update_peering-WellFormed now ref pubkey p self known
                      (find-All IsOwn ref.haship_addr p self.m_peer w there).0 w)
            ]
      ]

  run-WellFormed : (call : Call) (self : Tunserver) → WellFormed self → WellFormed (run call self)
  unfolding delete_all_peers add_peer_to_black_list delete_peer_from_black_list
  run-WellFormed (add_peer_call now ref) self w = add_peer-WellFormed now ref self w
  run-WellFormed (delete_peer_call hip) self w = delete_peer-WellFormed hip self w
  run-WellFormed (delete_all_peers_call is_banned) self w = tt
  run-WellFormed (append_pubkey_call now prints_debug ref pubkey) self w =
      append_pubkey-WellFormed now prints_debug ref pubkey self w
  run-WellFormed (ban_call hip) self w = w
  run-WellFormed (unban_call hip) self w = w

  abbrev pub run_all : List Call → Tunserver → Tunserver
  run_all [] self = self
  run_all (call ∷ calls) self = run_all calls (run call self)

  found_peer :
      (hip : Addr) (require_pubkey : Bool) (self : Tunserver) (peering : Peering)
      → get_peer_with_hip hip require_pubkey self ≡ value peering
      → find hip self.m_peer ≡ some peering
  unfolding get_peer_with_hip
  found_peer hip require_pubkey self peering h = elim (Option-cases (find hip self.m_peer)) [
    | inl absent ↦ ground (arith, absent, h)
    | inr (p, there) ↦ ground (arith, there, h)
  ]

  run_all-found :
      (calls : List Call) (self : Tunserver) (hip : Addr) (peering : Peering)
      → WellFormed self
      → find hip (run_all calls self).m_peer ≡ some peering
      → IsOwn (hip, peering)
  run_all-found [] self hip peering w h = find-All IsOwn hip peering self.m_peer w h
  run_all-found (call ∷ calls) self hip peering w h =
      run_all-found calls (run call self) hip peering (run-WellFormed call self w) h

  -- After any calls that add, delete, ban, unban or greet peers, exceptions included, on a node
  -- where each peer stands under its own hash-ip and known keys hash to it, a peer that
  -- get_peer_with_hip finds under a hash-ip has that hash-ip, and its public key hashes to it
  -- where it is known.
  pub run_all-WellFormed :
      (calls : List Call) (self : Tunserver) (hip : Addr) (require_pubkey : Bool)
      (peering : Peering)
      → WellFormed self
      → get_peer_with_hip hip require_pubkey (run_all calls self) ≡ value peering
      → (peering.m_haship_addr ≡ hip)
        × ((pubkey : MultiCryptoStrings)
            → peering.m_pubkey ≡ some pubkey
            → platform.hip_of_pubkey pubkey ≡ hip)
  run_all-WellFormed calls self hip require_pubkey peering w h =
      run_all-found calls self hip peering w
        (found_peer hip require_pubkey (run_all calls self) peering h)
