-- ===== src/Tunserver/Standing/Refines.antt =====
-- Every sequence of calls does to the standings what it means.
use galaxy.Prelude.{
  ℕ, ◌≡◌, refl, sym, ◌∙◌, Bool, true, false, ◌||◌, List, [], ◌∷◌, none, some, str_eq, str_eq→eq,
  if◌then◌else◌, Option-cases, Bool-cases, inl, inr, arith, subst, fun_ext,
}
use galaxy.Outcome.{ok}
use galaxy.StdMap.{find, emplace, erase}
use galaxy.StdMap.Laws.{
  find-emplace, emplace_taken, find-emplace_other, find-erase, find-erase_other,
}
use galaxy.Haship.{Addr}
use galaxy.Tunserver.{
  PeeringReference, Peering, Tunserver, new_peering, add_peer, delete_peer, add_peer_to_black_list,
  delete_peer_from_black_list, peer_on_black_list, ban_each, delete_all_peers,
}
use galaxy.Tunserver.Standing.{
  Call, adding, deleting, banning, unbanning, deleting_all, Standing, View, view, call, calls,
  meaning, meanings, change, become,
}

-- The two views agree at one hash-ip and everywhere else.
change_at :
    (hip : Addr) (f : Standing → Standing) (v w : View)
    → w hip ≡ f (v hip)
    → ((other : Addr) → str_eq other hip ≡ false → w other ≡ v other)
    → w ≡ change hip f v
change_at hip f v w here elsewhere = fun_ext (λ other. elim (Bool-cases (str_eq other hip)) [
  | inl e ↦ rw e (subst (λ k. w k ≡ f (v k)) (sym (str_eq→eq other hip e)) here)
  | inr e ↦ rw e (elsewhere other e)
])

-- One call, its answer and what it leaves.
abbrev Refines : Call → Tunserver → Type 0
Refines c self =
    (next : Tunserver) × (call c self ≡ ok (meaning c (view self)).0 next)
    × (view next ≡ (meaning c (view self)).1)

module _ (self : Tunserver) where
  adding-Refines : (now : ℕ) (ref : PeeringReference) → Refines (adding now ref) self
  unfolding call meaning add_peer view peer_on_black_list
  adding-Refines now ref =
      let hip = ref.haship_addr in
      let peering = new_peering now ref in
      let changed = change_at hip (become peering) (view self) in
      elim (Option-cases (find hip self.m_peer)) [
        | inl e ↦
            let next = record self { m_peer = emplace hip peering self.m_peer } in
            (
              next,
              ground (arith, e),
              changed (view next) (ground (arith, e, find-emplace hip peering self.m_peer e))
                  (λ other ne. ground (arith, find-emplace_other hip other peering self.m_peer ne)),
            )
        | inr (p, e) ↦
            (self, ground (arith, e), changed (view self) (ground (arith, e)) (λ other ne. refl))
      ]

  deleting-Refines : (hip : Addr) → Refines (deleting hip) self
  unfolding call meaning delete_peer view peer_on_black_list
  deleting-Refines hip =
      let changed = change_at hip (λ standing. record standing { peering = none }) (view self) in
      elim (Option-cases (find hip self.m_peer)) [
        | inl e ↦
            (self, ground (arith, e), changed (view self) (ground (arith, e)) (λ other ne. refl))
        | inr (p, e) ↦
            let next = record self { m_peer = erase hip self.m_peer } in
            (
              next,
              ground (arith, e),
              changed (view next) (ground (arith, find-erase hip self.m_peer))
                  (λ other ne. ground (arith, find-erase_other hip other self.m_peer ne)),
            )
      ]

  banning-Refines : (hip : Addr) → Refines (banning hip) self
  unfolding call meaning add_peer_to_black_list view peer_on_black_list
  banning-Refines hip =
      let banned = self.m_peer_black_list in
      let next = record self { m_peer_black_list = emplace hip tt banned } in
      let here : peer_on_black_list hip next ≡ true = elim (Option-cases (find hip banned)) [
        | inl e ↦ ground (arith, find-emplace hip tt banned e)
        | inr (u, e) ↦ ground (arith, e, emplace_taken hip tt banned e)
      ] in
      (
        next,
        refl,
        change_at hip (λ standing. record standing { banned = true }) (view self) (view next)
            (ground (arith, here))
            (λ other ne. ground (arith, find-emplace_other hip other tt banned ne)),
      )

  unbanning-Refines : (hip : Addr) → Refines (unbanning hip) self
  unfolding call meaning delete_peer_from_black_list view peer_on_black_list
  unbanning-Refines hip =
      let banned = self.m_peer_black_list in
      let next = record self { m_peer_black_list = erase hip banned } in
      (
        next,
        refl,
        change_at hip (λ standing. record standing { banned = false }) (view self) (view next)
            (ground (arith, find-erase hip banned))
            (λ other ne. ground (arith, find-erase_other hip other banned ne)),
      )

abbrev is_key : {V : Type 0} → Addr → List (Addr × V) → Bool
is_key hip m = elim (find hip m) [ none ↦ false | some v ↦ true ]

is_key-emplace :
    (hip key : Addr) (banned : List (Addr × Unit {0}))
    → is_key hip (emplace key tt banned) ≡ (str_eq hip key || is_key hip banned)
is_key-emplace hip key banned = elim (Bool-cases (str_eq hip key)) [
  | inr e ↦ ground (arith, e, find-emplace_other key hip tt banned e)
  | inl e ↦ elim (Option-cases (find key banned)) [
    | inl k ↦ ground (arith, e, str_eq→eq hip key e, find-emplace key tt banned k)
    | inr (u, k) ↦ ground (arith, e, str_eq→eq hip key e, k, emplace_taken key tt banned k)
  ]
]

is_key-ban_each :
    (hip : Addr) (peers : List (Addr × Peering)) (banned : List (Addr × Unit {0}))
    → is_key hip (ban_each peers banned) ≡ (is_key hip banned || is_key hip peers)
unfolding ban_each
is_key-ban_each hip [] banned = ground arith
is_key-ban_each hip ((key, peering) ∷ peers) banned =
    is_key-ban_each hip peers (emplace key tt banned)
    ∙ rw (is_key-emplace hip key banned) (elim (Bool-cases (str_eq hip key)) [
      | inl e ↦ ground (arith, e)
      | inr e ↦ ground (arith, e)
    ])

deleting_all-Refines : (is_banned : Bool) (self : Tunserver) → Refines (deleting_all is_banned) self
unfolding call meaning delete_all_peers view peer_on_black_list
deleting_all-Refines is_banned self = (
  record self {
    m_peer = [];
    m_peer_black_list =
        if is_banned then ban_each self.m_peer self.m_peer_black_list else self.m_peer_black_list;
  },
  refl,
  fun_ext (λ other. elim (Bool-cases is_banned) [
    | inl e ↦ ground (arith, e, is_key-ban_each other self.m_peer self.m_peer_black_list)
    | inr e ↦ ground (arith, e)
  ]),
)

call-Refines : (c : Call) (self : Tunserver) → Refines c self
call-Refines (adding now ref) self = adding-Refines self now ref
call-Refines (deleting hip) self = deleting-Refines self hip
call-Refines (banning hip) self = banning-Refines self hip
call-Refines (unbanning hip) self = unbanning-Refines self hip
call-Refines (deleting_all is_banned) self = deleting_all-Refines is_banned self

-- Any sequence of the calls add_peer, delete_peer, add_peer_to_black_list, delete_peer_from_black_list and
-- delete_all_peers succeeds on every node, and gives the answers and leaves the standings, of every hash-ip,
-- that the description gives from the standings alone. There, add_peer keeps a peer that is known and answers
-- whether it was not, delete_peer answers whether there was one, and delete_all_peers bans the peers it
-- removes where it is told to.
pub calls-meanings :
    (cs : List Call) (self : Tunserver)
    → (last : Tunserver) × (calls cs self ≡ ok (meanings cs (view self)).0 last)
      × (view last ≡ (meanings cs (view self)).1)
unfolding calls meanings
calls-meanings [] self = (self, refl, refl)
calls-meanings (c ∷ cs) self =
    let (next, done, seen) = call-Refines c self in
    let (last, more, left) = calls-meanings cs next in
    let more' : calls cs next ≡ ok (meanings cs (meaning c (view self)).1).0 last =
      subst (λ w. calls cs next ≡ ok (meanings cs w).0 last) seen more in
    (last, rw (calls, done, more') refl, subst (λ w. view last ≡ (meanings cs w).1) seen left)
