-- ===== src/Tunserver/Rpc.antt =====
-- The calls of c_tunserver by text and by RPC (src/tunserver.cpp) that add, delete and ban peers. A
-- request is the text of its fields, which the JSON library takes out of the input, and a reply is
-- the field "state".
pub mod Replies
use galaxy.Prelude.{ℕ, Bool, true, false, [], ◌∷◌, none, some, str_eq, if◌then◌else◌, take}
use galaxy.Outcome.{ok, err, M, invalid_argument}
use galaxy.Try.{Try, value, throws}
use galaxy.Serialize.Generator.{Str}
use galaxy.StdString.{find_char}
use galaxy.Haship.{Addr}
use galaxy.Tunserver.{
  Platform, Tunserver, delete_peer, add_peer_to_black_list, peer_on_black_list, delete_all_peers,
}
use galaxy.Tunserver.Parse.{
  parse_peer_simplestring, add_peer_simplestring, add_peer_simplestring_new_format,
}

pub data Reply : Type 0 where
  reply_ok reply_blocked reply_error reply_nothing_done : Reply

abbrev pub format_0_1 : Str
format_0_1 = b'0' ∷ b'.' ∷ b'1' ∷ []

abbrev pub format_1_0 : Str
format_1_0 = b'1' ∷ b'.' ∷ b'0' ∷ []

-- The lambda in rpc_add_peer.
unfoldable pub can_i_add_peer : Addr → Tunserver → Bool
can_i_add_peer hip self =
    if self.m_unban_if_banned then true else if peer_on_black_list hip self then false else false

module _ (platform : Platform) where
  -- delete_peer_simplestring
  unfoldable pub delete_peer_simplestring : Str → Bool → M Tunserver Bool
  delete_peer_simplestring simple is_banned self = elim (platform.addr_dot simple) [
    | throws e ↦ err invalid_argument self
    | value hip ↦ elim (delete_peer hip self) [
      | err e s ↦ err invalid_argument s
      | ok peer_deleted s ↦
          if is_banned
          then elim (add_peer_to_black_list hip s) [
            | ok u t ↦ ok peer_deleted t
            | err e t ↦ err invalid_argument t
          ]
          else ok peer_deleted s
    ]
  ]

  -- The hash-ip that a request to add a peer names.
  unfoldable pub requested_hip : Str → Str → Try Addr
  requested_hip peer format =
      if str_eq format format_0_1
      then elim (parse_peer_simplestring platform peer) [
        | throws e ↦ throws e
        | value ref ↦ value ref.haship_addr
      ]
      else if str_eq format format_1_0
      then elim (find_char b'@' peer) [
        | none ↦ throws invalid_argument
        | some at_position ↦ platform.addr_dot (take at_position peer)
      ]
      else throws invalid_argument

  -- The call that the format of the request picks.
  unfoldable pub add_by_format : ℕ → Str → Str → M Tunserver (Unit {0})
  add_by_format now peer format self =
      if str_eq format format_0_1
      then add_peer_simplestring platform now peer self
      else if str_eq format format_1_0
      then add_peer_simplestring_new_format platform now peer self
      else ok tt self

  unfoldable pub rpc_add_peer : ℕ → Str → Str → M Tunserver Reply
  rpc_add_peer now peer format self = elim (requested_hip peer format) [
    | throws e ↦ ok reply_error self
    | value hip ↦
        if can_i_add_peer hip self
        then elim (add_by_format now peer format self) [
          | ok u s ↦ ok reply_ok s
          | err e s ↦ ok reply_error s
        ]
        else ok reply_blocked self
  ]

  -- Only an invalid_argument is caught; delete_peer_simplestring throws no other.
  unfoldable pub rpc_delete_peer : Str → M Tunserver Reply
  rpc_delete_peer peer self = elim (delete_peer_simplestring peer false self) [
    | ok peer_deleted s ↦ ok (if peer_deleted then reply_ok else reply_nothing_done) s
    | err e s ↦ ok reply_error s
  ]

  unfoldable pub rpc_delete_all_peers : M Tunserver Reply
  rpc_delete_all_peers self = elim (delete_all_peers false self) [
    | ok u s ↦ ok reply_ok s
    | err e s ↦ err e s
  ]

  -- The address is parsed before the try block.
  unfoldable pub rpc_ban_peer : Str → M Tunserver Reply
  rpc_ban_peer peer self = elim (platform.addr_dot peer) [
    | throws e ↦ err e self
    | value hip ↦
        if peer_on_black_list hip self
        then ok reply_nothing_done self
        else elim (delete_peer_simplestring peer true self) [
          | ok peer_deleted s ↦ ok reply_ok s
          | err e s ↦ ok reply_error s
        ]
  ]

  unfoldable pub rpc_ban_all_peers : M Tunserver Reply
  rpc_ban_all_peers self = elim (delete_all_peers true self) [
    | ok u s ↦ ok reply_ok s
    | err e s ↦ err e s
  ]
