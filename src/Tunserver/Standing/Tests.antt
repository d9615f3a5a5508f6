-- ===== src/Tunserver/Standing/Tests.antt =====
-- A run of calls on a node with one peer.
use galaxy.Prelude.{◌≡◌, refl, false, true, List, [], ◌∷◌, none, some, replicate}
use galaxy.Outcome.{ok}
use galaxy.Haship.{Addr}
use galaxy.IpAddr.{tag_ipv4}
use galaxy.Tunserver.{PeeringReference, Tunserver, peer_on_black_list}
use galaxy.Tunserver.Standing.{
  Call, adding, deleting, banning, unbanning, deleting_all, view, calls, meaning, meanings,
}
use galaxy.Tunserver.Standing.Refines.{calls-meanings}

abbrev friend : Addr
friend = 0xfd ∷ replicate 15 2

abbrev foe : Addr
foe = 0xfd ∷ replicate 15 3

abbrev to_friend : PeeringReference
to_friend = record { peering_addr = tag_ipv4 (10 ∷ 0 ∷ 0 ∷ 1 ∷ []) 9042; haship_addr = friend }

abbrev node : Tunserver
node = record {
  m_peer = [];
  m_peer_black_list = (foe, tt) ∷ [];
  m_unban_if_banned = false;
  m_tunnel = [];
  sent = [];
}

abbrev asked : List Call
asked =
    adding 5 to_friend
    ∷ adding 6 to_friend
    ∷ deleting foe
    ∷ unbanning foe
    ∷ banning foe
    ∷ deleting_all true
    ∷ []

calls-meanings_example :
    (last : Tunserver) × (calls asked node ≡ ok (meanings asked (view node)).0 last)
    × (view last ≡ (meanings asked (view node)).1)
calls-meanings_example = calls-meanings asked node

answers_asked :
    (meanings asked (view node)).0 ≡ some true ∷ some false ∷ some false ∷ none ∷ none ∷ none ∷ []
unfolding meanings meaning view
answers_asked = refl

all_banned : ((meanings asked (view node)).1 friend).banned ≡ true
unfolding meanings meaning view peer_on_black_list
all_banned = refl
