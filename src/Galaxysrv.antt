-- ===== src/Galaxysrv.antt =====
-- src/galaxysrv_peers.cpp: references to peers, as text.
pub mod Parse
pub mod Ends
mod Tests
use galaxy.Prelude.{
  ℕ, zero, suc, ◌+◌, ◌-◌, ◌≡◌, Bool, true, false, not, List, [], ◌∷◌, ◌++◌, Option, none, some, ltb,
  leb, ◌==◌, str_eq, if◌then◌else◌, length, drop, take,
}
use galaxy.Outcome.{err_check_input, undefined_behaviour}
use galaxy.Try.{Try, value, throws, ◌>>=◌, ◌>>◌, check}
use galaxy.Serialize.Generator.{Str}
use galaxy.StdString.{find_char, contains, char_at, reasonable_size}

-- t_peering_reference_parse: the virtual address, or none for "anyone", and the cables.
abbrev pub PeeringReferenceParse : Type 0
PeeringReferenceParse = List Str × List Str

abbrev pub literal_anyone : Str
literal_anyone = b'a' ∷ b'n' ∷ b'y' ∷ b'o' ∷ b'n' ∷ b'e' ∷ []

-- The tests on one part: without ( and ), and not empty.
unfoldable pub check_part : Str → Try (Unit {0})
check_part part = do
  check (not (contains b'(' part)) err_check_input
  check (not (contains b')' part)) err_check_input
  check (ltb 0 (length part)) err_check_input

-- The end of the group that starts at `rest`, the text from posB on: the next ")", or the last
-- character where there is none.
unfoldable pub group_end : Str → ℕ
group_end rest = elim (find_char b')' rest) [ none ↦ length rest - 1 | some pos_x ↦ pos_x ]

-- The loop over "CABLE)@(CABLE)...", on `rest`, the text from posB on, with a bound on the rounds.
unfoldable pub parse_groups : ℕ → Str → List Str → Try (List Str)
parse_groups zero rest ret_cable = throws undefined_behaviour
parse_groups (suc rounds) rest ret_cable =
    let next : Str → Try (List Str) = λ after.
      parse_groups rounds (drop 2 after) (ret_cable ++ (take (group_end rest) rest ∷ [])) in
    if not (ltb 1 (length rest)) then value ret_cable else do
      check_part (take (group_end rest) rest)
      close ← char_at rest (group_end rest)
      check (close == b')') err_check_input
      let after = drop (suc (group_end rest)) rest
      if length after == 0 then value (ret_cable ++ (take (group_end rest) rest ∷ [])) else do
        at ← char_at after 0
        check (at == b'@') err_check_input
        paren ← char_at after 1
        check (paren == b'(') err_check_input
        next after

-- The format "VIRTUAL@(CABLE)...", with the "@" at `pos1`.
unfoldable pub parse_with_cables : Str → ℕ → Try PeeringReferenceParse
parse_with_cables simple pos1 = do
  let part1 = take pos1 simple
  check_part part1
  check (ltb (pos1 + 2) (length simple)) err_check_input
  at ← char_at simple pos1
  check (at == b'@') err_check_input
  paren ← char_at simple (pos1 + 1)
  check (paren == b'(') err_check_input
  cables ← parse_groups (length simple) (drop (pos1 + 2) simple) []
  value (if str_eq part1 literal_anyone then [] else part1 ∷ [], cables)

unfoldable pub parse_peer_reference : Str → Try PeeringReferenceParse
parse_peer_reference simple = do
  reasonable_size simple
  check (leb 3 (length simple)) err_check_input
  elim (find_char b'@' simple) [
    | none ↦ check_part simple >> value (simple ∷ [], [])
    | some pos1 ↦ parse_with_cables simple pos1
  ]
