-- ===== src/Stdplus/Ranges.antt =====
-- Ranges of memory, of src/stdplus/misc.hpp. An iterator is an address; memory gives the octet at an
-- address, or nothing where no object is.
use galaxy.Prelude.{
  ℕ, zero, suc, ◌+◌, ◌-◌, ◌<◌, ◌≡◌, ap, ◌∙◌, Bool, not, ◌&&◌, Option, none, some, ltb, leb, ◌==◌,
  if◌then◌else◌, arith, Option-cases, inl, inr,
}
use native.Mathlib.Nat.{add-zero}
use galaxy.Outcome.{
  ok, err, M, ◌>>=◌, ◌>>◌, check, return, assert_abort, err_check_input, undefined_behaviour,
}

-- Both ranges are inclusive; _check_abort is an assert that ends the program.
unfoldable pub test_ranges_overlap_inclusive_noempty : {S : Type 0} → ℕ → ℕ → ℕ → ℕ → M S Bool
test_ranges_overlap_inclusive_noempty start1 last1 start2 last2 = do
  check (leb start1 last1) assert_abort
  check (leb start2 last2) assert_abort
  return (leb start1 last2 && leb start2 last1)

abbrev pub Memory : Type 0
Memory = ℕ → Option ℕ

unfoldable pub store : Memory → ℕ → ℕ → Memory
store mem addr octet a = if a == addr then some octet else mem a

-- std::copy over that many octets. A read or a write outside every object is undefined.
unfoldable pub copy : ℕ → ℕ → ℕ → M Memory (Unit {0})
copy zero from to mem = ok tt mem
copy (suc rounds) from to mem = elim (mem from) [
  | none ↦ err undefined_behaviour mem
  | some octet ↦ elim (mem to) [
    | none ↦ err undefined_behaviour mem
    | some _ ↦ copy rounds (suc from) (suc to) (store mem to octet)
  ]
]

-- `last` is the address of the last octet, so `std::next(last) - first` octets are copied.
unfoldable pub copy_iter_and_check_no_overlap : ℕ → ℕ → ℕ → ℕ → M Memory (Unit {0})
copy_iter_and_check_no_overlap first last d_first size = do
  check (leb first last) assert_abort
  check (ltb 0 size) assert_abort
  overlap ← test_ranges_overlap_inclusive_noempty first last d_first (d_first + size - 1)
  check (not overlap) err_check_input
  copy (last + 1 - first) first d_first

-- A copy that reaches an address outside every object is undefined.
pub copy_faults :
    (rounds from to i : ℕ) (mem : Memory)
    → i < rounds
    → mem (to + i) ≡ none
    → (s : Memory) × (copy rounds from to mem ≡ err undefined_behaviour s)
unfolding copy store
copy_faults zero from to i mem h e = elim h [ ]
copy_faults (suc rounds) from to zero mem h e = elim (Option-cases (mem from)) [
  | inl p ↦ (mem, rw (p, copy))
  | inr (octet, p) ↦ (mem, rw (p, copy, rw add-zero at e))
]
copy_faults (suc rounds) from to (suc i) mem h e = elim (Option-cases (mem from)) [
  | inl p ↦ (mem, rw (p, copy))
  | inr (octet, p) ↦ elim (Option-cases (mem to)) [
    | inl q ↦ (mem, rw (p, copy, q))
    | inr (old, q) ↦
        let next : mem (suc to + i) ≡ none = ap mem (omega arith) ∙ e in
        let later : store mem to octet (suc to + i) ≡ none = ground (arith, next) in
        rw (p, copy, q)
          (copy_faults rounds (suc from) (suc to) i (store mem to octet) (omega arith) later)
  ]
]
