-- ===== src/Tunserver/Commands/Texts.antt =====
-- The text of a query and of a reply, as they are written and read.
use galaxy.Prelude.{
  ℕ, suc, true, false, ◌≡◌, ◌<◌, ◌%◌, refl, [], ◌∷◌, ◌++◌, append_assoc, some, length, drop, take,
  take-append, get_elem?, subst, arith,
}
use galaxy.Outcome.{ok}
use galaxy.Try.{value}
use galaxy.Serialize.Generator.{Str, append, push_byte_u}
use galaxy.Serialize.Parser.{pop_byte_u, pop_byte_skip}
use galaxy.Serialize.Strings.{varstring, push_varstring-varstring}
use galaxy.Serialize.Codec.{IsSane, string_reads}
use galaxy.Haship.{Addr, g_haship_addr_size}
use galaxy.Crypto.MultiCryptoStrings.{MultiCryptoStrings}
use galaxy.Crypto.Tunnel.{load_pub}
use galaxy.StdString.{contains, char_at}
use galaxy.StdString.Laws.{find_char-append, find_char-append_early}
use galaxy.Tunserver.Routing.{query_text}
use galaxy.Tunserver.Forward.Datagram.{pop_sized, push_sized}
use galaxy.Tunserver.Commands.{write_reply, written, read_reply, semicolon_from_two}

-- The layout of a reply.
unfoldable pub reply_text : ℕ → ℕ → Addr → Str → Str
reply_text reply_ttl cost requested_hip pubkey =
    reply_ttl
    ∷ b';'
    ∷ cost % 256
    ∷ b';'
    ∷ (requested_hip ++ (b';' ∷ (varstring pubkey ++ (b';' ∷ []))))

module _ (reply_ttl cost : ℕ) (hip : Addr) (bytes : Str) (sized : length hip ≡ g_haship_addr_size)
    (sane : IsSane bytes) where
  pub write_reply-reply_text :
      written (write_reply reply_ttl cost hip bytes) ≡ value (reply_text reply_ttl cost hip bytes)
  unfolding write_reply written reply_text push_byte_u append
  write_reply-reply_text =
      let head = reply_ttl ∷ b';' ∷ cost % 256 ∷ b';' ∷ [] in
      ground (
        arith,
        push_sized g_haship_addr_size hip head sized,
        push_varstring-varstring bytes ((head ++ hip) ++ (b';' ∷ [])) (omega (arith, sane)),
        append_assoc (head ++ hip) (b';' ∷ []) (varstring bytes),
        append_assoc (head ++ hip) (b';' ∷ varstring bytes) (b';' ∷ []),
        append_assoc head hip (b';' ∷ (varstring bytes ++ (b';' ∷ []))),
      )

  pub read_reply-reply_text :
      (pubkey : MultiCryptoStrings)
      → load_pub bytes ≡ value pubkey
      → read_reply (reply_text reply_ttl cost hip bytes)
        ≡ ok
            (record {
              given_ttl = reply_ttl;
              given_cost = cost % 256;
              given_goal_hip = hip;
              pubkey = pubkey;
            })
            []
  unfolding read_reply reply_text pop_byte_u pop_byte_skip
  read_reply-reply_text pubkey loads = ground (
    arith,
    loads,
    pop_sized g_haship_addr_size hip (b';' ∷ (varstring bytes ++ (b';' ∷ []))) sized,
    string_reads bytes (b';' ∷ []) sane,
  )

-- An address of 16 octets splits after the first two.
first_two :
    (hip : Addr) → length hip ≡ g_haship_addr_size → (a b : ℕ) × (rest : Str) × (hip ≡ a ∷ b ∷ rest)
first_two [] h = absurd (omega arith)
first_two (a ∷ []) h = absurd (omega arith)
first_two (a ∷ b ∷ rest) h = (a, b, rest, refl)

pub semicolon_from_two-query_text :
    (hip : Addr) (ttl : ℕ)
    → length hip ≡ g_haship_addr_size
    → contains b';' (drop 2 hip) ≡ false
    → semicolon_from_two (query_text hip ttl) ≡ some g_haship_addr_size
unfolding semicolon_from_two
semicolon_from_two-query_text hip ttl sized plain =
    let (a, b, rest, e) = first_two hip sized in
    ground (arith, e, sized, plain, find_char-append b';' rest (ttl ∷ b';' ∷ []))

-- A ';' behind the first two octets of the address is taken for the end of the address.
pub semicolon_from_two_early :
    (hip : Addr) (ttl : ℕ)
    → length hip ≡ g_haship_addr_size
    → contains b';' (drop 2 hip) ≡ true
    → (pos : ℕ) × (semicolon_from_two (query_text hip ttl) ≡ some pos) × (pos < g_haship_addr_size)
unfolding semicolon_from_two
semicolon_from_two_early hip ttl sized early =
    let (a, b, rest, e) = first_two hip sized in
    let (pos, found, below) =
      find_char-append_early b';' rest (b';' ∷ ttl ∷ b';' ∷ []) (ground (arith, e, early)) in
    (suc (suc pos), ground (arith, e, found), ground (arith, e, sized, below))

get_elem?-behind : (s t : Str) (b c : ℕ) → get_elem? (s ++ (b ∷ c ∷ t)) (suc (length s)) ≡ some c
get_elem?-behind [] t b c = refl
get_elem?-behind (x ∷ s) t b c = get_elem?-behind s t b c

pub char_at-query_text :
    (hip : Addr) (ttl : ℕ)
    → length hip ≡ g_haship_addr_size
    → char_at (query_text hip ttl) (suc g_haship_addr_size) ≡ value ttl
unfolding char_at
char_at-query_text hip ttl sized =
    let found : get_elem? (query_text hip ttl) (suc g_haship_addr_size) ≡ some ttl =
      subst (λ n. get_elem? (query_text hip ttl) (suc n) ≡ some ttl) sized
        (get_elem?-behind hip (b';' ∷ []) b';' ttl) in
    rw (char_at, found) refl

pub take-query_text :
    (hip : Addr) (ttl : ℕ)
    → length hip ≡ g_haship_addr_size
    → take g_haship_addr_size (query_text hip ttl) ≡ hip
take-query_text hip ttl sized =
    subst (λ n. take n (query_text hip ttl) ≡ hip) sized (take-append hip (b';' ∷ ttl ∷ b';' ∷ []))
