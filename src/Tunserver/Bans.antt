-- ===== src/Tunserver/Bans.antt =====
-- The black list: no banned peer is among the peers, whatever is called.
use galaxy.Prelude.{ℕ, ◌≡◌, Bool, some, str_eq, Option-cases, inl, inr, Bool-cases}
use galaxy.Try.{Try-cases}
use galaxy.Serialize.Generator.{Str}
use galaxy.StdMap.{find}
use galaxy.StdMap.Apart.{
  Apart, Apart-emplace-erase, Apart-same_erase, Apart-erase_same, Apart-erase-emplace,
  Apart-same_emplace, Apart-emplace_same, Apart-assign_same,
}
use galaxy.IpAddr.{addr_equal}
use galaxy.Haship.{Addr}
use galaxy.Crypto.MultiCryptoStrings.{MultiCryptoStrings}
use galaxy.Tunserver.{
  Platform, PeeringReference, Peering, Tunserver, new_peering, add_peer, delete_peer,
  add_peer_to_black_list, delete_peer_from_black_list, set_pubkey, set_pip, update_last_ping_time,
}
use galaxy.Tunserver.Parse.{add_reference}
use galaxy.Tunserver.Rpc.{delete_peer_simplestring}
use galaxy.Tunserver.Peers.{update_peering, append_new, add_peer_append_pubkey}
use galaxy.Tunserver.Peers.WellFormed.{after, printed}

-- No hash-ip is both among the peers and on the black list.
abbrev pub NoneBanned : Tunserver → Type 0
NoneBanned self = Apart self.m_peer self.m_peer_black_list

pub add_reference-NoneBanned :
    (now : ℕ) (ref : PeeringReference) (self : Tunserver)
    → NoneBanned self
    → NoneBanned (after (add_reference now ref self))
unfolding add_reference add_peer delete_peer_from_black_list
add_reference-NoneBanned now ref self free =
    elim (Option-cases (find ref.haship_addr self.m_peer)) [
      | inl e ↦
          rw (after, e)
            (Apart-emplace-erase ref.haship_addr self.m_peer self.m_peer_black_list
              (new_peering now ref) free)
      | inr (p, e) ↦
          rw (after, e) (Apart-same_erase ref.haship_addr self.m_peer self.m_peer_black_list free)
    ]

pub delete_peer_simplestring-NoneBanned :
    (platform : Platform) (simple : Str) (is_banned : Bool) (self : Tunserver)
    → NoneBanned self
    → NoneBanned (after (delete_peer_simplestring platform simple is_banned self))
unfolding delete_peer_simplestring delete_peer add_peer_to_black_list
delete_peer_simplestring-NoneBanned platform simple is_banned self free =
    elim (Try-cases (platform.addr_dot simple)) [
      | inr (x, e) ↦ rw (after, e) free
      | inl (hip, e) ↦ elim (Option-cases (find hip self.m_peer)) [
        | inl absent ↦ elim (Bool-cases is_banned) [
          | inl t ↦
              rw (after, e, absent, t)
                (Apart-same_emplace hip self.m_peer self.m_peer_black_list tt absent free)
          | inr f ↦ rw (after, e, absent, f) free
        ]
        | inr (p, there) ↦ elim (Bool-cases is_banned) [
          | inl t ↦
              rw (after, e, there, t)
                (Apart-erase-emplace hip self.m_peer self.m_peer_black_list tt free)
          | inr f ↦
              rw (after, e, there, f) (Apart-erase_same hip self.m_peer self.m_peer_black_list free)
        ]
      ]
    ]

append_new-NoneBanned :
    (now : ℕ) (ref : PeeringReference) (pubkey : MultiCryptoStrings) (hip : Addr) (self : Tunserver)
    → NoneBanned self
    → NoneBanned (after (append_new now ref pubkey hip self))
unfolding append_new
append_new-NoneBanned now ref pubkey hip self free =
    elim (Option-cases (find hip self.m_peer_black_list)) [
      | inl e ↦
          rw (after, e)
            (Apart-emplace_same hip self.m_peer self.m_peer_black_list
              (set_pubkey pubkey (new_peering now ref)) e free)
      | inr (u, e) ↦ rw (after, e) free
    ]

update_peering-NoneBanned :
    (now : ℕ) (ref : PeeringReference) (pubkey : MultiCryptoStrings) (hip : Addr)
    (peering : Peering) (self : Tunserver)
    → find hip self.m_peer ≡ some peering
    → NoneBanned self
    → NoneBanned (after (update_peering now ref pubkey hip peering self))
unfolding update_peering
update_peering-NoneBanned now ref pubkey hip peering self there free =
    let named : Peering = set_pubkey pubkey (update_last_ping_time now peering) in
    let assigned =
      λ (p : Peering). Apart-assign_same hip self.m_peer self.m_peer_black_list p there free in
    elim (Try-cases (addr_equal peering.m_peering_addr ref.peering_addr)) [
      | inr (x, e) ↦ rw (after, e) (assigned named)
      | inl (same, e) ↦ elim (Bool-cases same) [
        | inl t ↦ rw (after, e, t) (assigned named)
        | inr f ↦ rw (after, e, f) (assigned (set_pip ref.peering_addr named))
      ]
    ]

pub append_pubkey-NoneBanned :
    (platform : Platform) (now : ℕ) (prints_debug : Bool) (ref : PeeringReference)
    (pubkey : MultiCryptoStrings) (self : Tunserver)
    → NoneBanned self
    → NoneBanned (after (add_peer_append_pubkey platform now prints_debug ref pubkey self))
unfolding add_peer_append_pubkey
append_pubkey-NoneBanned platform now prints_debug ref pubkey self free =
    elim (Bool-cases (str_eq (platform.hip_of_pubkey pubkey) ref.haship_addr)) [
      | inr e ↦ rw (after, e) free
      | inl e ↦ elim (Option-cases (find ref.haship_addr self.m_peer)) [
        | inl absent ↦
            rw
              (
                e,
                absent,
                printed (append_new now ref pubkey ref.haship_addr) prints_debug ref.haship_addr
                    self,
              )
              (append_new-NoneBanned now ref pubkey ref.haship_addr self free)
        | inr (p, there) ↦
            rw
              (
                e,
                there,
                printed (update_peering now ref pubkey ref.haship_addr p) prints_debug
                    ref.haship_addr self,
              )
              (update_peering-NoneBanned now ref pubkey ref.haship_addr p self there free)
      ]
    ]
