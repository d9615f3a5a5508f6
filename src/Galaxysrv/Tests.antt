-- ===== src/Galaxysrv/Tests.antt =====
-- References to peers on concrete text.
use galaxy.Prelude.{◌≡◌, ◌≢◌, refl, arith, [], ◌∷◌, ◌++◌, false}
use galaxy.Outcome.{undefined_behaviour, out_of_range}
use galaxy.Try.{value, throws}
use galaxy.Serialize.Generator.{Str}
use galaxy.StdString.{contains, find_char, reasonable_size, char_at, stoi_positive}
use galaxy.Galaxysrv.{parse_peer_reference, parse_groups, parse_with_cables, check_part, group_end}
use galaxy.Galaxysrv.Parse.{IsPart, ids, groups, parse_peer_reference-groups}
use galaxy.Galaxysrv.Ends.{parse_peer_reference_ends}

abbrev id_text : Str
id_text = b'f' ∷ b'd' ∷ b'1' ∷ []

abbrev udp_text : Str
udp_text = b'u' ∷ b'd' ∷ b'p' ∷ []

id_text-IsPart : IsPart id_text
unfolding contains find_char
id_text-IsPart = (refl, refl, omega arith)

udp_text-IsPart : IsPart udp_text
unfolding contains find_char
udp_text-IsPart = (refl, refl, omega arith)

id_text_no_at : contains b'@' id_text ≡ false
unfolding contains find_char
id_text_no_at = refl

parse_peer_reference-groups_example :
    parse_peer_reference (id_text ++ (b'@' ∷ b'(' ∷ groups udp_text (udp_text ∷ [])))
    ≡ value (ids id_text, udp_text ∷ udp_text ∷ [])
parse_peer_reference-groups_example =
    parse_peer_reference-groups id_text udp_text (udp_text ∷ []) id_text-IsPart id_text_no_at
      udp_text-IsPart (udp_text-IsPart, tt) (omega arith)

parse_peer_reference_ends_example : parse_peer_reference udp_text ≢ throws undefined_behaviour
parse_peer_reference_ends_example = parse_peer_reference_ends udp_text

-- Text that ends behind ")@" is an out_of_range of at(), not an err_check_input.
cut_short :
    parse_peer_reference (id_text ++ (b'@' ∷ b'(' ∷ b'u' ∷ b')' ∷ b'@' ∷ [])) ≡ throws out_of_range
unfolding parse_peer_reference parse_with_cables parse_groups check_part group_end char_at
    reasonable_size contains find_char
cut_short = refl

port_text : stoi_positive (b'9' ∷ b'0' ∷ b'x' ∷ []) ≡ value 90
unfolding stoi_positive
port_text = refl
