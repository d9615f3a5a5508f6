-- ===== src/Serialize/Buffer.antt =====
-- parser::pop_bytes_n_into_buff, which reads straight into the caller's memory.
use galaxy.Prelude.{
  ℕ, ◌+◌, ◌-◌, ◌≤◌, ◌<◌, ◌≡◌, ◌⊎◌, not, none, ltb, leb, ◌==◌, if◌then◌else◌, arith,
}
use galaxy.Outcome.{ok, err, M, assert_abort, format_error_read, undefined_behaviour}
use galaxy.Stdplus.Ranges.{
  Memory, copy_faults, copy_iter_and_check_no_overlap, test_ranges_overlap_inclusive_noempty,
}

-- A parser over a buffer: memory, and the addresses `m_data_now` and `m_data_end`.
pub record BuffParser : Type 0 where
  pub memory : Memory
  pub m_data_now : ℕ
  pub m_data_end : ℕ

-- Runs an operation on the memory.
on_memory : {A : Type 0} → M Memory A → M BuffParser A
on_memory m p = elim (m p.memory) [
  | ok a mem ↦ ok a (record p { memory = mem })
  | err e mem ↦ err e (record p { memory = mem })
]

-- range2 is `m_data_now` after the move, one past the octets asked for, and is passed as the last
-- octet of the range.
unfoldable pub pop_bytes_n_into_buff : ℕ → ℕ → M BuffParser (Unit {0})
unfolding on_memory
pop_bytes_n_into_buff size buff p =
    let range1 = p.m_data_now in
    let range2 = p.m_data_now + size in
    if not (ltb p.m_data_now p.m_data_end)
    then err format_error_read p
    else if not (leb size (p.m_data_end - p.m_data_now))
    then err format_error_read p
    else if buff == 0
    then err assert_abort p
    else on_memory (copy_iter_and_check_no_overlap range1 range2 buff size)
        (record p { m_data_now = range2 })

-- A call for `size` octets, with that many left to read, into a block of exactly `size` octets which
-- lies apart from the octets it reads: the call always writes behind the block, or reads behind the
-- input first.
pub pop_bytes_n_into_buff_overflows :
    (size buff : ℕ) (p : BuffParser)
    → 0 < size
    → size ≤ p.m_data_end - p.m_data_now
    → 0 < buff
    → (p.m_data_now + size < buff) ⊎ (buff + size ≤ p.m_data_now)
    → p.memory (buff + size) ≡ none
    → (q : BuffParser) × (pop_bytes_n_into_buff size buff p ≡ err undefined_behaviour q)
unfolding pop_bytes_n_into_buff copy_iter_and_check_no_overlap test_ranges_overlap_inclusive_noempty
pop_bytes_n_into_buff_overflows size buff p pos left block apart outside =
    let (mem, e) =
      copy_faults (p.m_data_now + size + 1 - p.m_data_now) p.m_data_now buff size p.memory
        (omega arith) outside in
    (record p { memory = mem; m_data_now = p.m_data_now + size }, ground (arith, e))
