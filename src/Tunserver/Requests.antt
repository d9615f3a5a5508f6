-- ===== src/Tunserver/Requests.antt =====
-- The requests that reach a node, by RPC, by the command line and by greetings of other nodes, as steps
-- between its states.
use galaxy.Prelude.{ℕ, ◌≡◌, refl, Bool, true, false, str_eq, inl, inr, arith, Bool-cases, subst}
use galaxy.Outcome.{Outcome, ok, err, Error, Outcome-cases, expected_not_found}
use galaxy.Try.{throws, Try-cases}
use galaxy.Serialize.Generator.{Str}
use galaxy.Haship.{Addr}
use galaxy.Crypto.MultiCryptoStrings.{MultiCryptoStrings}
use galaxy.Tunserver.{Platform, PeeringReference, Tunserver, delete_all_peers, peer_on_black_list}
use galaxy.Tunserver.Parse.{
  parse_peer_simplestring, parse_new_format, add_peer_simplestring,
  add_peer_simplestring_new_format,
}
use galaxy.Tunserver.Peers.{get_peer_with_hip, add_peer_append_pubkey}
use galaxy.Tunserver.Peers.WellFormed.{after}
use galaxy.Tunserver.Rpc.{
  can_i_add_peer, delete_peer_simplestring, requested_hip, add_by_format, rpc_add_peer,
  rpc_delete_peer, rpc_delete_all_peers, rpc_ban_peer, rpc_ban_all_peers, format_0_1, format_1_0,
}
use galaxy.Tunserver.Bans.{
  NoneBanned, add_reference-NoneBanned, delete_peer_simplestring-NoneBanned,
  append_pubkey-NoneBanned,
}

module _ (platform : Platform) where
  -- One request, whether it ends with a reply or with an exception.
  pub data Step : Tunserver → Tunserver → Type 0 where
    rpc_add :
        (now : ℕ) (peer format : Str) {self : Tunserver}
        → Step self (after (rpc_add_peer platform now peer format self))
    rpc_delete :
        (peer : Str) {self : Tunserver} → Step self (after (rpc_delete_peer platform peer self))
    rpc_delete_all : {self : Tunserver} → Step self (after (rpc_delete_all_peers platform self))
    rpc_ban : (peer : Str) {self : Tunserver} → Step self (after (rpc_ban_peer platform peer self))
    rpc_ban_all : {self : Tunserver} → Step self (after (rpc_ban_all_peers platform self))
    command_line :
        (now : ℕ) (simple : Str) {self : Tunserver}
        → Step self (after (add_peer_simplestring platform now simple self))
    greeting :
        (now : ℕ) (prints_debug : Bool) (ref : PeeringReference) (pubkey : MultiCryptoStrings)
        {self : Tunserver}
        → Step self (after (add_peer_append_pubkey platform now prints_debug ref pubkey self))

  pub data Steps : Tunserver → Tunserver → Type 0 where
    done : {self : Tunserver} → Steps self self
    step : {self next last : Tunserver} → Step self next → Steps next last → Steps self last

  add_peer_simplestring-NoneBanned :
      (now : ℕ) (simple : Str) (self : Tunserver)
      → NoneBanned self
      → NoneBanned (after (add_peer_simplestring platform now simple self))
  unfolding add_peer_simplestring
  add_peer_simplestring-NoneBanned now simple self free =
      elim (Try-cases (parse_peer_simplestring platform simple)) [
        | inl (ref, e) ↦ rw (after, e) (add_reference-NoneBanned now ref self free)
        | inr (x, e) ↦ rw (after, e) free
      ]

  new_format-NoneBanned :
      (now : ℕ) (simple : Str) (self : Tunserver)
      → NoneBanned self
      → NoneBanned (after (add_peer_simplestring_new_format platform now simple self))
  unfolding add_peer_simplestring_new_format
  new_format-NoneBanned now simple self free = elim (Try-cases (parse_new_format platform simple)) [
    | inl (ref, e) ↦ rw (after, e) (add_reference-NoneBanned now ref self free)
    | inr (x, e) ↦ rw (after, e) free
  ]

  add_by_format-NoneBanned :
      (now : ℕ) (peer format : Str) (self : Tunserver)
      → NoneBanned self
      → NoneBanned (after (add_by_format platform now peer format self))
  unfolding add_by_format
  add_by_format-NoneBanned now peer format self free =
      elim (Bool-cases (str_eq format format_0_1)) [
        | inl t ↦ rw t (add_peer_simplestring-NoneBanned now peer self free)
        | inr f ↦ elim (Bool-cases (str_eq format format_1_0)) [
          | inl t ↦ rw (f, t) (new_format-NoneBanned now peer self free)
          | inr g ↦ rw (after, f, g) free
        ]
      ]

  -- What holds of the state that a call leaves.
  left_ok :
      {A : Type 0} (o : Outcome Tunserver A) {a : A} {s : Tunserver}
      → NoneBanned (after o)
      → o ≡ ok a s
      → NoneBanned s
  left_ok o free e = subst (λ p. NoneBanned (after p)) e free

  left_err :
      {A : Type 0} (o : Outcome Tunserver A) {x : Error} {s : Tunserver}
      → NoneBanned (after o)
      → o ≡ err x s
      → NoneBanned s
  left_err o free e = subst (λ p. NoneBanned (after p)) e free

  rpc_add-NoneBanned :
      (now : ℕ) (peer format : Str) (self : Tunserver)
      → NoneBanned self
      → NoneBanned (after (rpc_add_peer platform now peer format self))
  unfolding rpc_add_peer
  rpc_add-NoneBanned now peer format self free =
      elim (Try-cases (requested_hip platform peer format)) [
        | inr (x, e) ↦ rw (after, e) free
        | inl (hip, e) ↦ elim (Bool-cases (can_i_add_peer hip self)) [
          | inr f ↦ rw (after, e, f) free
          | inl t ↦
              let added = add_by_format platform now peer format self in
              let free' : NoneBanned (after added) =
                add_by_format-NoneBanned now peer format self free in
              elim (Outcome-cases added) [
                | inl (u, s, k) ↦ rw (after, e, t, k) (left_ok added free' k)
                | inr (x, s, k) ↦ rw (after, e, t, k) (left_err added free' k)
              ]
        ]
      ]

  rpc_delete-NoneBanned :
      (peer : Str) (self : Tunserver)
      → NoneBanned self
      → NoneBanned (after (rpc_delete_peer platform peer self))
  unfolding rpc_delete_peer
  rpc_delete-NoneBanned peer self free =
      let deleted = delete_peer_simplestring platform peer false self in
      let free' = delete_peer_simplestring-NoneBanned platform peer false self free in
      elim (Outcome-cases deleted) [
        | inl (u, s, k) ↦ rw (after, k) (left_ok deleted free' k)
        | inr (x, s, k) ↦ rw (after, k) (left_err deleted free' k)
      ]

  rpc_ban-NoneBanned :
      (peer : Str) (self : Tunserver)
      → NoneBanned self
      → NoneBanned (after (rpc_ban_peer platform peer self))
  unfolding rpc_ban_peer
  rpc_ban-NoneBanned peer self free =
      let deleted = delete_peer_simplestring platform peer true self in
      let free' = delete_peer_simplestring-NoneBanned platform peer true self free in
      elim (Try-cases (platform.addr_dot peer)) [
        | inr (x, e) ↦ rw (after, e) free
        | inl (hip, e) ↦ elim (Bool-cases (peer_on_black_list hip self)) [
          | inl t ↦ rw (after, e, t) free
          | inr f ↦ elim (Outcome-cases deleted) [
            | inl (u, s, k) ↦ rw (after, e, f, k) (left_ok deleted free' k)
            | inr (x, s, k) ↦ rw (after, e, f, k) (left_err deleted free' k)
          ]
        ]
      ]

  Step-NoneBanned : {self next : Tunserver} → Step self next → NoneBanned self → NoneBanned next
  unfolding rpc_delete_all_peers rpc_ban_all_peers delete_all_peers
  Step-NoneBanned (rpc_add now peer format {self}) free =
      rpc_add-NoneBanned now peer format self free
  Step-NoneBanned (rpc_delete peer {self}) free = rpc_delete-NoneBanned peer self free
  Step-NoneBanned rpc_delete_all free = λ key. inl refl
  Step-NoneBanned (rpc_ban peer {self}) free = rpc_ban-NoneBanned peer self free
  Step-NoneBanned rpc_ban_all free = λ key. inl refl
  Step-NoneBanned (command_line now simple {self}) free =
      add_peer_simplestring-NoneBanned now simple self free
  Step-NoneBanned (greeting now prints_debug ref pubkey {self}) free =
      append_pubkey-NoneBanned platform now prints_debug ref pubkey self free

  Steps-NoneBanned : {self last : Tunserver} → Steps self last → NoneBanned self → NoneBanned last
  Steps-NoneBanned done free = free
  Steps-NoneBanned (step s more) free = Steps-NoneBanned more (Step-NoneBanned s free)

  -- From a node where no hash-ip is both among the peers and on the black list, no sequence of
  -- requests (by RPC, from the command line, or greetings of other nodes) leads to a node where
  -- a peer on the black list is found by get_peer_with_hip.
  pub Steps-keep_banned_out :
      {self last : Tunserver} (hip : Addr) (require_pubkey : Bool)
      → Steps self last
      → NoneBanned self
      → peer_on_black_list hip last ≡ true
      → get_peer_with_hip hip require_pubkey last ≡ throws expected_not_found
  unfolding peer_on_black_list get_peer_with_hip
  Steps-keep_banned_out hip require_pubkey steps free banned =
      elim (Steps-NoneBanned steps free hip) [
        | inl absent ↦ rw (get_peer_with_hip, absent) refl
        | inr not_listed ↦ ground (arith, not_listed, banned)
      ]
