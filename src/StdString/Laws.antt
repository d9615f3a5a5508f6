-- ===== src/StdString/Laws.antt =====
-- What find finds.
use galaxy.Prelude.{
  ℕ, ◌+◌, ◌<◌, ◌==◌, ◌≡◌, refl, true, false, List, [], ◌∷◌, ◌++◌, some, ==_self, length, arith,
  Option-cases, Bool-cases, inl, inr,
}
use galaxy.StdString.{find_char, contains}

pub find_char-append :
    (c : ℕ) (s t : List ℕ) → contains c s ≡ false → find_char c (s ++ (c ∷ t)) ≡ some (length s)
unfolding find_char contains
find_char-append c [] t h = rw (==_self c) refl
find_char-append c (b ∷ s) t h = elim (Option-cases (find_char c s)) [
  | inl e ↦ ground (arith, e, find_char-append c s t)
  | inr (i, e) ↦ ground (arith, e)
]

pub contains-append :
    (c : ℕ) (s t : List ℕ) → contains c s ≡ false → contains c (s ++ t) ≡ contains c t
unfolding find_char contains
contains-append c [] t h = refl
contains-append c (b ∷ s) t h = elim (Option-cases (find_char c s)) [
  | inl e ↦ ground (arith, e, contains-append c s t)
  | inr (i, e) ↦ ground (arith, e)
]

pub find_char-append_early :
    (c : ℕ) (s t : List ℕ)
    → contains c s ≡ true
    → (i : ℕ) × (find_char c (s ++ t) ≡ some i) × (i < length s)
unfolding find_char contains
find_char-append_early c [] t h = absurd (ground (arith, h))
find_char-append_early c (b ∷ s) t h = elim (Bool-cases (b == c)) [
  | inl here ↦ (0, ground (arith, here), omega arith)
  | inr there ↦
      let later : contains c s ≡ true = elim (Option-cases (find_char c s)) [
        | inl e ↦ ground (arith, there, e, h)
        | inr (i, e) ↦ ground (arith, e)
      ] in
      let (i, found, below) = find_char-append_early c s t later in
      (i + 1, ground (arith, there, found), omega (arith, below))
]
