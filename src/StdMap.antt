-- ===== src/StdMap.antt =====
-- std::map and std::set with octet strings for keys: the list of the pairs in ascending order, and
-- the comparisons of such keys, memcmp and operator< of a std::array.
pub mod Laws
pub mod Compare
pub mod Apart
pub mod Invariant
use galaxy.Prelude.{
  ℕ, ◌≡◌, ◌⊎◌, inl, inr, Bool, true, false, ◌||◌, ◌&&◌, List, [], ◌∷◌, Option, none, some, ltb,
  ◌==◌, str_eq, str_eq_self, if◌then◌else◌, arith,
}

-- memcmp(a, b, n) < 0 of blocks of equal length, and operator< of arrays.
abbrev pub str_less : List ℕ → List ℕ → Bool
str_less [] t = false
str_less (b ∷ s) [] = false
str_less (b ∷ s) (c ∷ t) = ltb b c || ((b == c) && str_less s t)

module _ {V : Type 0} where
  -- find, and at() with the exception left to the caller.
  abbrev pub find : List ℕ → List (List ℕ × V) → Option V
  find key [] = none
  find key ((k, v) ∷ m) = if str_eq key k then some v else find key m

  -- The insertion at the key's place, before the first greater key.
  abbrev pub insert : List ℕ → V → List (List ℕ × V) → List (List ℕ × V)
  insert key value [] = (key, value) ∷ []
  insert key value ((k, v) ∷ m) =
      if str_less key k then (key, value) ∷ (k, v) ∷ m else (k, v) ∷ insert key value m

  -- emplace: nothing happens where the key is taken.
  abbrev pub emplace : List ℕ → V → List (List ℕ × V) → List (List ℕ × V)
  emplace key value m = elim (find key m) [ none ↦ insert key value m | some v ↦ m ]

  -- A write through the iterator that find gave.
  abbrev pub assign : List ℕ → V → List (List ℕ × V) → List (List ℕ × V)
  assign key value [] = []
  assign key value ((k, v) ∷ m) =
      if str_eq key k then (k, value) ∷ m else (k, v) ∷ assign key value m

  -- erase(find(key))
  abbrev pub erase : List ℕ → List (List ℕ × V) → List (List ℕ × V)
  erase key [] = []
  erase key ((k, v) ∷ m) = if str_eq key k then erase key m else (k, v) ∷ erase key m
