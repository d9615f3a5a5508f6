-- ===== src/Tunserver/Standing.antt =====
-- What the peers and the black list of a node are for its callers: the standing of each hash-ip. The calls
-- of src/tunserver.cpp that change them, against a description that has no maps in it.
pub mod Refines
mod Tests
use galaxy.Prelude.{
  ℕ, ◌≡◌, refl, Bool, true, false, ◌||◌, ◌&&◌, List, [], ◌∷◌, Option, none, some, str_eq, str_eq→eq,
  str_eq_self, if◌then◌else◌, Option-cases, Bool-cases, inl, inr, arith,
}
use galaxy.Outcome.{Outcome, ok, err, M}
use galaxy.StdMap.{find, emplace, erase}
use galaxy.StdMap.Laws.{
  find-emplace, emplace_taken, find-emplace_other, find-erase, find-erase_other,
}
use galaxy.Haship.{Addr}
use galaxy.Tunserver.{
  PeeringReference, Peering, Tunserver, new_peering, add_peer, delete_peer, add_peer_to_black_list,
  delete_peer_from_black_list, peer_on_black_list, ban_each, delete_all_peers,
}

-- Whether a hash-ip is among the peers, with what, and whether it is banned.
pub record Standing : Type 0 where
  pub peering : Option Peering
  pub banned : Bool

abbrev pub View : Type 0
View = Addr → Standing

unfoldable pub view : Tunserver → View
view self hip = record { peering = find hip self.m_peer; banned = peer_on_black_list hip self }

-- A call, with what it is given.
pub data Call : Type 0 where
  adding : ℕ → PeeringReference → Call
  deleting : Addr → Call
  banning : Addr → Call
  unbanning : Addr → Call
  deleting_all : Bool → Call

-- The call on the node; some of them answer.
unfoldable pub call : Call → M Tunserver (Option Bool)
call (adding now ref) self = elim (add_peer now ref self) [
  | ok new s ↦ ok (some new) s
  | err e s ↦ err e s
]
call (deleting hip) self = elim (delete_peer hip self) [
  | ok known s ↦ ok (some known) s
  | err e s ↦ err e s
]
call (banning hip) self = elim (add_peer_to_black_list hip self) [
  | ok u s ↦ ok none s
  | err e s ↦ err e s
]
call (unbanning hip) self = elim (delete_peer_from_black_list hip self) [
  | ok u s ↦ ok none s
  | err e s ↦ err e s
]
call (deleting_all is_banned) self = elim (delete_all_peers is_banned self) [
  | ok u s ↦ ok none s
  | err e s ↦ err e s
]

unfoldable pub calls : List Call → M Tunserver (List (Option Bool))
calls [] self = ok [] self
calls (c ∷ cs) self = elim (call c self) [
  | err e s ↦ err e s
  | ok answer s ↦ elim (calls cs s) [ ok answers t ↦ ok (answer ∷ answers) t | err e t ↦ err e t ]
]

abbrev pub is_peer : Standing → Bool
is_peer standing = elim standing.peering [ none ↦ false | some peering ↦ true ]

-- The view with the standing of one hash-ip changed.
abbrev pub change : Addr → (Standing → Standing) → View → View
change hip f v other = if str_eq other hip then f (v other) else v other

abbrev pub become : Peering → Standing → Standing
become peering standing = elim standing.peering [
  | none ↦ record standing { peering = some peering }
  | some known ↦ standing
]

-- What each call means for the standings, with its answer.
unfoldable pub meaning : Call → View → Option Bool × View
meaning (adding now ref) v = (
  some (elim (v ref.haship_addr).peering [ none ↦ true | some known ↦ false ]),
  change ref.haship_addr (become (new_peering now ref)) v,
)
meaning (deleting hip) v =
    (some (is_peer (v hip)), change hip (λ standing. record standing { peering = none }) v)
meaning (banning hip) v = (none, change hip (λ standing. record standing { banned = true }) v)
meaning (unbanning hip) v = (none, change hip (λ standing. record standing { banned = false }) v)
meaning (deleting_all is_banned) v = (
  none,
  λ other. record { peering = none; banned = (v other).banned || (is_banned && is_peer (v other)) },
)

unfoldable pub meanings : List Call → View → List (Option Bool) × View
meanings [] v = ([], v)
meanings (c ∷ cs) v =
    let (answer, w) = meaning c v in let (answers, last) = meanings cs w in (answer ∷ answers, last)
