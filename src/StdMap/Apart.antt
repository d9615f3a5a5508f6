-- ===== src/StdMap/Apart.antt =====
-- Two maps without a common key, through each change of one or both.
use galaxy.Prelude.{
  ℕ, ◌≡◌, refl, sym, ◌∙◌, ◌⊎◌, inl, inr, false, List, none, some, str_eq, str_eq→eq, Bool-cases,
  subst,
}
use galaxy.StdMap.{find, emplace, assign, erase}
use galaxy.StdMap.Laws.{find-emplace_other, find-erase, find-erase_other, find-assign_other}

module _ {V W : Type 0} where
  abbrev pub Apart : List (List ℕ × V) → List (List ℕ × W) → Type 0
  Apart m n = (key : List ℕ) → (find key m ≡ none) ⊎ (find key n ≡ none)

  module _ (at : List ℕ) (m : List (List ℕ × V)) (n : List (List ℕ × W)) where
    -- A change at one key that leaves the two maps apart there.
    Apart-but :
        (m' : List (List ℕ × V)) (n' : List (List ℕ × W))
        → Apart m n
        → ((find at m' ≡ none) ⊎ (find at n' ≡ none))
        → ((other : List ℕ)
            → str_eq other at ≡ false
            → (find other m' ≡ find other m) × (find other n' ≡ find other n))
        → Apart m' n'
    Apart-but m' n' apart here elsewhere key = elim (Bool-cases (str_eq key at)) [
      | inl e ↦ subst (λ k. (find k m' ≡ none) ⊎ (find k n' ≡ none)) (sym (str_eq→eq key at e)) here
      | inr e ↦ elim (apart key) [
        | inl a ↦ inl ((elsewhere key e).0 ∙ a)
        | inr b ↦ inr ((elsewhere key e).1 ∙ b)
      ]
    ]

    pub Apart-emplace-erase : (v : V) → Apart m n → Apart (emplace at v m) (erase at n)
    Apart-emplace-erase v apart =
        Apart-but _ _ apart (inr (find-erase at n))
          (λ other e. (find-emplace_other at other v m e, find-erase_other at other n e))

    pub Apart-same_erase : Apart m n → Apart m (erase at n)
    Apart-same_erase apart =
        Apart-but _ _ apart (inr (find-erase at n))
          (λ other e. (refl, find-erase_other at other n e))

    pub Apart-erase_same : Apart m n → Apart (erase at m) n
    Apart-erase_same apart =
        Apart-but _ _ apart (inl (find-erase at m))
          (λ other e. (find-erase_other at other m e, refl))

    pub Apart-erase-emplace : (w : W) → Apart m n → Apart (erase at m) (emplace at w n)
    Apart-erase-emplace w apart =
        Apart-but _ _ apart (inl (find-erase at m))
          (λ other e. (find-erase_other at other m e, find-emplace_other at other w n e))

    pub Apart-same_emplace : (w : W) → find at m ≡ none → Apart m n → Apart m (emplace at w n)
    Apart-same_emplace w absent apart =
        Apart-but _ _ apart (inl absent) (λ other e. (refl, find-emplace_other at other w n e))

    pub Apart-emplace_same : (v : V) → find at n ≡ none → Apart m n → Apart (emplace at v m) n
    Apart-emplace_same v absent apart =
        Apart-but _ _ apart (inr absent) (λ other e. (find-emplace_other at other v m e, refl))

    pub Apart-assign_same :
        (v : V) {old : V} → find at m ≡ some old → Apart m n → Apart (assign at v m) n
    Apart-assign_same v there apart =
        let here : (find at (assign at v m) ≡ none) ⊎ (find at n ≡ none) = elim (apart at) [
          | inl a ↦ cc (a, there)
          | inr b ↦ inr b
        ] in
        Apart-but _ _ apart here (λ other e. (find-assign_other at other v m e, refl))
