-- ===== src/StdMap/Compare.antt =====
-- Blocks of equal length are ordered by memcmp.
use galaxy.Prelude.{ℕ, ◌≡◌, refl, true, false, List, [], ◌∷◌, length, str_eq, arith}
use galaxy.StdMap.{str_less}

pub str_less_irrefl : (s : List ℕ) → str_less s s ≡ false
str_less_irrefl [] = ground arith
str_less_irrefl (b ∷ s) = ground (arith, str_less_irrefl s)

pub str_less_asymm : (s t : List ℕ) → str_less s t ≡ true → str_less t s ≡ false
str_less_asymm [] [] h = cc
str_less_asymm [] (c ∷ t) h = cc
str_less_asymm (b ∷ s) [] h = cc
str_less_asymm (b ∷ s) (c ∷ t) h = ground (arith, str_less_asymm s t)

pub str_less_trans :
    (s t u : List ℕ) → str_less s t ≡ true → str_less t u ≡ true → str_less s u ≡ true
str_less_trans [] t u h k = cc
str_less_trans (b ∷ s) [] u h k = cc
str_less_trans (b ∷ s) (c ∷ t) [] h k = cc
str_less_trans (b ∷ s) (c ∷ t) (d ∷ u) h k = ground (arith, str_less_trans s t u)

-- Neither is less only where they are equal.
pub str_less_total :
    (s t : List ℕ)
    → length s ≡ length t
    → str_less s t ≡ false
    → str_less t s ≡ false
    → str_eq s t ≡ true
str_less_total [] [] e h k = refl
str_less_total [] (c ∷ t) e h k = absurd (omega (arith, e))
str_less_total (b ∷ s) [] e h k = absurd (omega (arith, e))
str_less_total (b ∷ s) (c ∷ t) e h k = ground (arith, str_less_total s t)
