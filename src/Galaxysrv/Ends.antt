-- ===== src/Galaxysrv/Ends.antt =====
-- The rounds of the loop of parse_peer_reference.
use galaxy.Prelude.{
  ℕ, zero, suc, ◌+◌, ◌-◌, ◌≡◌, ◌≢◌, ◌<◌, List, [], ◌∷◌, ◌++◌, length, drop, take, arith,
  Option-cases, inl, inr,
}
use galaxy.Outcome.{undefined_behaviour}
use galaxy.Try.{throws}
use galaxy.Serialize.Generator.{Str}
use galaxy.StdString.{find_char, char_at, reasonable_size}
use galaxy.Galaxysrv.{check_part, group_end, parse_groups, parse_with_cables, parse_peer_reference}

length-drop : (n : ℕ) (s : Str) → length (drop n s) ≡ length s - n
length-drop zero s = omega arith
length-drop (suc n) [] = omega arith
length-drop (suc n) (c ∷ s) = omega (arith, length-drop n s)

check_part_defined : (part : Str) → check_part part ≢ throws undefined_behaviour
unfolding check_part
check_part_defined part e = ground arith

char_at_defined : (s : Str) (pos : ℕ) → char_at s pos ≢ throws undefined_behaviour
unfolding char_at
char_at_defined s pos e = ground arith

-- The rounds of the loop are enough where they are more than the characters that are left.
parse_groups_enough :
    (rounds : ℕ) (rest : Str) (ret : List Str)
    → length rest < rounds
    → parse_groups rounds rest ret ≢ throws undefined_behaviour
unfolding parse_groups
parse_groups_enough zero rest ret h e = omega (arith, h)
parse_groups_enough (suc rounds) rest ret h e =
    let g = group_end rest in
    let after : Str = drop (suc g) rest in
    ground (
      arith,
      h,
      e,
      check_part_defined (take g rest),
      char_at_defined rest g,
      char_at_defined after 0,
      char_at_defined after 1,
      length-drop (suc g) rest,
      length-drop 2 after,
      parse_groups_enough rounds (drop 2 after) (ret ++ (take g rest ∷ [])),
    )

parse_with_cables_defined :
    (simple : Str) (pos1 : ℕ) → parse_with_cables simple pos1 ≢ throws undefined_behaviour
unfolding parse_with_cables
parse_with_cables_defined simple pos1 e = ground (
  arith,
  e,
  check_part_defined (take pos1 simple),
  char_at_defined simple pos1,
  char_at_defined simple (pos1 + 1),
  length-drop (pos1 + 2) simple,
  parse_groups_enough (length simple) (drop (pos1 + 2) simple) [],
)

-- The loop of parse_peer_reference ends within as many rounds as the text has characters: the bound
-- of the model is never reached, whatever the text.
pub parse_peer_reference_ends :
    (simple : Str) → parse_peer_reference simple ≢ throws undefined_behaviour
unfolding parse_peer_reference reasonable_size
parse_peer_reference_ends simple e = elim (Option-cases (find_char b'@' simple)) [
  | inl none_there ↦ ground (arith, e, none_there, check_part_defined simple)
  | inr (pos1, there) ↦ ground (arith, e, there, parse_with_cables_defined simple pos1)
]
