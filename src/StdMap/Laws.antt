-- ===== src/StdMap/Laws.antt =====
-- What a lookup finds after each change of a map.
use galaxy.Prelude.{
  ℕ, ◌≡◌, false, List, [], ◌∷◌, none, some, str_eq, str_eq_self, str_eq→eq, arith, Option-cases,
  refl, inl, inr,
}
use galaxy.StdMap.{find, insert, emplace, assign, erase}

module _ {V : Type 0} where
  pub find-insert :
      (key : List ℕ) (value : V) (m : List (List ℕ × V))
      → find key m ≡ none
      → find key (insert key value m) ≡ some value
  find-insert key value [] h = ground (arith, str_eq_self key)
  find-insert key value ((k, v) ∷ m) h = ground (arith, str_eq_self key, find-insert key value m)

  pub find-insert_other :
      (key other : List ℕ) (value : V) (m : List (List ℕ × V))
      → str_eq other key ≡ false
      → find other (insert key value m) ≡ find other m
  find-insert_other key other value [] h = ground (arith)
  find-insert_other key other value ((k, v) ∷ m) h =
      ground (arith, find-insert_other key other value m)

  pub find-emplace :
      (key : List ℕ) (value : V) (m : List (List ℕ × V))
      → find key m ≡ none
      → find key (emplace key value m) ≡ some value
  find-emplace key value m h = rw (emplace, h) (find-insert key value m h)

  pub emplace_taken :
      (key : List ℕ) (value : V) {old : V} (m : List (List ℕ × V))
      → find key m ≡ some old
      → emplace key value m ≡ m
  emplace_taken key value m h = rw (emplace, h) refl

  pub find-emplace_other :
      (key other : List ℕ) (value : V) (m : List (List ℕ × V))
      → str_eq other key ≡ false
      → find other (emplace key value m) ≡ find other m
  find-emplace_other key other value m h = elim (Option-cases (find key m)) [
    | inl e ↦ rw (emplace, e) (find-insert_other key other value m h)
    | inr (v, e) ↦ rw (emplace, e) refl
  ]

  pub find-assign :
      (key : List ℕ) (value old : V) (m : List (List ℕ × V))
      → find key m ≡ some old
      → find key (assign key value m) ≡ some value
  find-assign key value old [] h = cc
  find-assign key value old ((k, v) ∷ m) h = ground (arith, find-assign key value old m)

  pub find-assign_other :
      (key other : List ℕ) (value : V) (m : List (List ℕ × V))
      → str_eq other key ≡ false
      → find other (assign key value m) ≡ find other m
  find-assign_other key other value [] h = refl
  find-assign_other key other value ((k, v) ∷ m) h = ground (
    arith,
    find-assign_other key other value m,
    str_eq→eq key k,
    str_eq→eq other k,
    str_eq_self key,
  )

  pub find-erase : (key : List ℕ) (m : List (List ℕ × V)) → find key (erase key m) ≡ none
  find-erase key [] = refl
  find-erase key ((k, v) ∷ m) = ground (arith, find-erase key m)

  pub find-erase_other :
      (key other : List ℕ) (m : List (List ℕ × V))
      → str_eq other key ≡ false
      → find other (erase key m) ≡ find other m
  find-erase_other key other [] h = refl
  find-erase_other key other ((k, v) ∷ m) h =
      ground
        (arith, find-erase_other key other m, str_eq→eq key k, str_eq→eq other k, str_eq_self key)
