-- ===== src/StdMap/Invariant.antt =====
-- A property of every pair of a map, through each change of the map.
use galaxy.Prelude.{
  ℕ, ◌≡◌, List, [], ◌∷◌, some, str_eq, str_eq→eq, All, Bool-cases, inl, inr, Option-cases, arith,
  subst,
}
use galaxy.StdMap.{find, insert, emplace, assign, erase, str_less}

module _ {V : Type 0} (P : List ℕ × V → Type 0) where
  All-insert :
      (key : List ℕ) (v : V) (m : List (List ℕ × V)) → P (key, v) → All P m → All P (insert key v m)
  All-insert key v [] p ps = (p, ps)
  All-insert key v ((k, w) ∷ m) p (q, ps) = elim (Bool-cases (str_less key k)) [
    | inl e ↦ rw e (p, (q, ps))
    | inr e ↦ rw e (q, All-insert key v m p ps)
  ]

  pub All-emplace :
      (key : List ℕ) (v : V) (m : List (List ℕ × V))
      → P (key, v)
      → All P m
      → All P (emplace key v m)
  All-emplace key v m p ps = elim (Option-cases (find key m)) [
    | inl e ↦ rw (emplace, e) (All-insert key v m p ps)
    | inr (w, e) ↦ rw (emplace, e) ps
  ]

  pub All-assign :
      (key : List ℕ) (v : V) (m : List (List ℕ × V)) → P (key, v) → All P m → All P (assign key v m)
  All-assign key v [] p ps = ps
  All-assign key v ((k, w) ∷ m) p (q, ps) = elim (Bool-cases (str_eq key k)) [
    | inl e ↦ let same : k ≡ key = cc (str_eq→eq key k e) in rw e ((rw same p), ps)
    | inr e ↦ rw e (q, All-assign key v m p ps)
  ]

  pub All-erase : (key : List ℕ) (m : List (List ℕ × V)) → All P m → All P (erase key m)
  All-erase key [] ps = ps
  All-erase key ((k, w) ∷ m) (q, ps) = elim (Bool-cases (str_eq key k)) [
    | inl e ↦ rw e (All-erase key m ps)
    | inr e ↦ rw e (q, All-erase key m ps)
  ]

  pub find-All :
      (key : List ℕ) (v : V) (m : List (List ℕ × V)) → All P m → find key m ≡ some v → P (key, v)
  find-All key v [] ps h = cc
  find-All key v ((k, w) ∷ m) (q, ps) h = elim (Bool-cases (str_eq key k)) [
    | inl e ↦
        let same : key ≡ k = str_eq→eq key k e in
        let here : w ≡ v = ground (arith, e, h) in rw (same) (subst (λ x. P (k, x)) here q)
    | inr e ↦ find-All key v m ps (ground (arith, e, h))
  ]
