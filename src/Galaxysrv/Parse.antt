-- ===== src/Galaxysrv/Parse.antt =====
-- What parse_peer_reference reads.
use galaxy.Prelude.{
  ℕ, zero, suc, ◌+◌, ◌≡◌, ◌≤◌, ◌<◌, refl, ap, ◌∙◌, false, List, [], ◌∷◌, ◌++◌, some, lt→ltb, str_eq,
  if◌then◌else◌, length, length-append, drop, take-append, All, arith, append_assoc, get_elem?,
}
use galaxy.Try.{value, ◌>>=◌}
use galaxy.Serialize.Generator.{Str}
use galaxy.StdString.{contains, char_at, reasonable_size, reasonable_size_limit}
use galaxy.StdString.Laws.{find_char-append}
use galaxy.Galaxysrv.{
  literal_anyone, check_part, group_end, parse_groups, parse_with_cables, parse_peer_reference,
}

-- A part that the tests of the parser let through.
abbrev pub IsPart : Str → Type 0
IsPart part = (contains b'(' part ≡ false) × (contains b')' part ≡ false) × (0 < length part)

-- The text behind "@(" of the groups of `cables`.
abbrev pub groups : Str → List Str → Str
groups cable [] = cable ++ (b')' ∷ [])
groups cable (next ∷ cables) = cable ++ (b')' ∷ b'@' ∷ b'(' ∷ groups next cables)

check_part-IsPart : (part : Str) → IsPart part → check_part part ≡ value tt
unfolding check_part
check_part-IsPart part (no_open, no_close, some_text) =
    rw (no_open, no_close, lt→ltb _ _ some_text) refl

group_end-append :
    (cable after : Str) → IsPart cable → group_end (cable ++ (b')' ∷ after)) ≡ length cable
unfolding group_end
group_end-append cable after p = rw (group_end, find_char-append b')' cable after p.1) refl

get_elem?-append : (s t : Str) (c : ℕ) → get_elem? (s ++ (c ∷ t)) (length s) ≡ some c
get_elem?-append [] t c = refl
get_elem?-append (x ∷ s) t c = get_elem?-append s t c

drop_group : (s t : Str) (c : ℕ) → drop (suc (length s)) (s ++ (c ∷ t)) ≡ t
drop_group [] t c = refl
drop_group (x ∷ s) t c = drop_group s t c

-- One round.
parse_last :
    (rounds : ℕ) (cable : Str) (ret : List Str)
    → IsPart cable
    → parse_groups (suc rounds) (cable ++ (b')' ∷ [])) ret ≡ value (ret ++ (cable ∷ []))
unfolding parse_groups char_at
parse_last rounds cable ret p = ground (
  arith,
  group_end-append cable [] p,
  take-append cable (b')' ∷ []),
  check_part-IsPart cable p,
  get_elem?-append cable [] b')',
  drop_group cable [] b')',
  length-append cable (b')' ∷ []),
  p.2,
)

parse_next :
    (rounds : ℕ) (cable after : Str) (ret : List Str)
    → IsPart cable
    → parse_groups (suc rounds) (cable ++ (b')' ∷ b'@' ∷ b'(' ∷ after)) ret
      ≡ parse_groups rounds after (ret ++ (cable ∷ []))
unfolding parse_groups char_at
parse_next rounds cable after ret p =
    let text : Str = b')' ∷ b'@' ∷ b'(' ∷ after in
    ground (
      arith,
      group_end-append cable (b'@' ∷ b'(' ∷ after) p,
      take-append cable text,
      check_part-IsPart cable p,
      get_elem?-append cable (b'@' ∷ b'(' ∷ after) b')',
      drop_group cable (b'@' ∷ b'(' ∷ after) b')',
      length-append cable text,
      p.2,
    )

parse_groups-groups :
    (rounds : ℕ) (cable : Str) (cables ret : List Str)
    → IsPart cable
    → All IsPart cables
    → length cables < rounds
    → parse_groups rounds (groups cable cables) ret ≡ value (ret ++ (cable ∷ cables))
parse_groups-groups zero cable cables ret p ps h = absurd (omega (arith, h))
parse_groups-groups (suc rounds) cable [] ret p ps h = parse_last rounds cable ret p
parse_groups-groups (suc rounds) cable (next ∷ cables) ret p (q, ps) h =
    parse_next rounds cable (groups next cables) ret p
    ∙ parse_groups-groups rounds next cables (ret ++ (cable ∷ [])) q ps (omega (arith, h))
    ∙ ap value (append_assoc ret (cable ∷ []) (next ∷ cables))

length-groups :
    (cable : Str) (cables : List Str) → suc (length cables) ≤ length (groups cable cables)
length-groups cable [] = omega (arith, length-append cable (b')' ∷ []))
length-groups cable (next ∷ cables) = omega (
  arith,
  length-append cable (b')' ∷ b'@' ∷ b'(' ∷ groups next cables),
  length-groups next cables,
)

-- The virtual address in front of the cables.
abbrev pub ids : Str → List Str
ids id = if str_eq id literal_anyone then [] else id ∷ []

drop_open : (id after : Str) → drop (length id + 2) (id ++ (b'@' ∷ b'(' ∷ after)) ≡ after
drop_open [] after = refl
drop_open (x ∷ id) after =
    let e : suc (length id) + 2 ≡ suc (length id + 2) = omega arith in rw e (drop_open id after)

get_paren : (id after : Str) → get_elem? (id ++ (b'@' ∷ b'(' ∷ after)) (length id + 1) ≡ some b'('
get_paren [] after = refl
get_paren (x ∷ id) after =
    let e : suc (length id) + 1 ≡ suc (length id + 1) = omega arith in rw e (get_paren id after)

-- What follows "@(" is read by the loop.
parse_with_cables-append :
    (id after : Str)
    → IsPart id
    → 0 < length after
    → parse_with_cables (id ++ (b'@' ∷ b'(' ∷ after)) (length id) ≡ (
        parse_groups (length (id ++ (b'@' ∷ b'(' ∷ after))) after [] >>= λ cables.
        value (ids id, cables))
unfolding parse_with_cables char_at
parse_with_cables-append id after p some_text =
    let text : Str = b'@' ∷ b'(' ∷ after in
    ground (
      arith,
      take-append id text,
      check_part-IsPart id p,
      length-append id text,
      get_elem?-append id (b'(' ∷ after) b'@',
      get_paren id after,
      drop_open id after,
      some_text,
    )

parse_peer_reference-append :
    (id after : Str)
    → IsPart id
    → contains b'@' id ≡ false
    → 0 < length after
    → length id + length after + 2 ≤ reasonable_size_limit
    → parse_peer_reference (id ++ (b'@' ∷ b'(' ∷ after)) ≡ (
        parse_groups (length (id ++ (b'@' ∷ b'(' ∷ after))) after [] >>= λ cables.
        value (ids id, cables))
unfolding parse_peer_reference reasonable_size
parse_peer_reference-append id after p no_at some_text few =
    let text : Str = b'@' ∷ b'(' ∷ after in
    ground (
      arith,
      length-append id text,
      find_char-append b'@' id (b'(' ∷ after) no_at,
      parse_with_cables-append id after p some_text,
      some_text,
      p.2,
      few,
    )

-- A virtual address that is a part without "@", behind it "@(CABLE)" for one or more cables that are
-- parts, and at most a million characters in all, are read as that address, or as none where it is
-- "anyone", and those cables in order.
pub parse_peer_reference-groups :
    (id cable : Str) (cables : List Str)
    → IsPart id
    → contains b'@' id ≡ false
    → IsPart cable
    → All IsPart cables
    → length id + length (groups cable cables) + 2 ≤ reasonable_size_limit
    → parse_peer_reference (id ++ (b'@' ∷ b'(' ∷ groups cable cables))
      ≡ value (ids id, cable ∷ cables)
parse_peer_reference-groups id cable cables p no_at q qs few =
    let text : Str = groups cable cables in
    let enough = length-groups cable cables in
    let loop =
      parse_groups-groups (length (id ++ (b'@' ∷ b'(' ∷ text))) cable cables [] q qs
        (omega (arith, length-append id (b'@' ∷ b'(' ∷ text), enough)) in
    parse_peer_reference-append id text p no_at (omega (arith, enough)) few
    ∙ ap (λ t. t >>= λ cables. value (ids id, cables)) loop

one_char : (rounds c : ℕ) → 0 < rounds → parse_groups rounds (c ∷ []) [] ≡ value []
unfolding parse_groups
one_char zero c h = absurd (omega (arith, h))
one_char (suc rounds) c h = refl

-- One character behind the "@(" of a well-formed virtual address, whatever it is, is not looked
-- at: parse_peer_reference reads the text as a reference without cables.
pub parse_peer_reference_unclosed :
    (id : Str) (c : ℕ)
    → IsPart id
    → contains b'@' id ≡ false
    → length id + 3 ≤ reasonable_size_limit
    → parse_peer_reference (id ++ (b'@' ∷ b'(' ∷ c ∷ [])) ≡ value (ids id, [])
parse_peer_reference_unclosed id c p no_at few =
    let text : Str = b'@' ∷ b'(' ∷ c ∷ [] in
    let loop : parse_groups (length (id ++ text)) (c ∷ []) [] ≡ value [] =
      one_char (length (id ++ text)) c (omega (arith, length-append id text)) in
    parse_peer_reference-append id (c ∷ []) p no_at (omega arith) (omega (arith, few))
    ∙ ap (λ t. t >>= λ cables. value (ids id, cables)) loop
