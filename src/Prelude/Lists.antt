-- ===== src/Prelude/Lists.antt =====
-- Lists measured by native numbers, under the library's names.
use Prim.Native.Nat.{ℕ, zero, suc, ◌+◌}
use mathlib.Core.Path.{◌≡◌, refl, sym, ap}
use mathlib.Core.List.{List, [], ◌∷◌, ◌++◌}
use mathlib.Core.Option.{Option, none, some}
use native.Mathlib.Omega.{arith}

module _ {ℓ} {A : Type ℓ} where
  abbrev pub length : List A → ℕ
  length [] = 0
  length (x ∷ xs) = suc (length xs)

  abbrev pub get_elem? : List A → ℕ → Option A
  get_elem? [] i = none
  get_elem? (x ∷ xs) zero = some x
  get_elem? (x ∷ xs) (suc i) = get_elem? xs i

  -- A write out of bounds changes nothing.
  abbrev pub set : List A → ℕ → A → List A
  set [] i v = []
  set (x ∷ xs) zero v = v ∷ xs
  set (x ∷ xs) (suc i) v = x ∷ set xs i v

  abbrev pub take : ℕ → List A → List A
  take zero xs = []
  take (suc n) [] = []
  take (suc n) (x ∷ xs) = x ∷ take n xs

  abbrev pub drop : ℕ → List A → List A
  drop zero xs = xs
  drop (suc n) [] = []
  drop (suc n) (x ∷ xs) = drop n xs

  abbrev pub replicate : ℕ → A → List A
  replicate zero a = []
  replicate (suc n) a = a ∷ replicate n a

  pub length-append : (xs ys : List A) → length (xs ++ ys) ≡ length xs + length ys
  length-append [] ys = omega arith
  length-append (x ∷ xs) ys = omega (arith, length-append xs ys)

  pub take-append : (xs ys : List A) → take (length xs) (xs ++ ys) ≡ xs
  take-append [] ys = refl
  take-append (x ∷ xs) ys = ap (◌∷◌ x) (take-append xs ys)

  pub drop-append : (xs ys : List A) → drop (length xs) (xs ++ ys) ≡ ys
  drop-append [] ys = refl
  drop-append (x ∷ xs) ys = drop-append xs ys

  pub take-append-drop : (n : ℕ) (xs : List A) → take n xs ++ drop n xs ≡ xs
  take-append-drop zero xs = refl
  take-append-drop (suc n) [] = refl
  take-append-drop (suc n) (x ∷ xs) = ap (◌∷◌ x) (take-append-drop n xs)

  abbrev pub All {κ} : (A → Type κ) → List A → Type κ
  All P [] = Unit {κ}
  All P (x ∷ xs) = P x × All P xs

  pub get_elem?-set :
      (xs : List A) (n : ℕ) (v : A) {old : A}
      → get_elem? xs n ≡ some old
      → get_elem? (set xs n v) n ≡ some v
  get_elem?-set [] n v h = cc h
  get_elem?-set (x ∷ xs) zero v h = refl
  get_elem?-set (x ∷ xs) (suc n) v h = get_elem?-set xs n v h

  pub set-set : (xs : List A) (n : ℕ) (v w : A) → set (set xs n v) n w ≡ set xs n w
  set-set [] n v w = refl
  set-set (x ∷ xs) zero v w = refl
  set-set (x ∷ xs) (suc n) v w = ap (◌∷◌ x) (set-set xs n v w)

  pub set_same : (xs : List A) (n : ℕ) (v : A) → get_elem? xs n ≡ some v → set xs n v ≡ xs
  set_same [] n v h = refl
  set_same (x ∷ xs) zero v h = cc h
  set_same (x ∷ xs) (suc n) v h = ap (◌∷◌ x) (set_same xs n v h)

  -- The entry behind the first `n` ones.
  pub get_elem?-place :
      (before after : List A) (n : ℕ) (x : A)
      → length before ≡ n
      → get_elem? (before ++ (x ∷ after)) n ≡ some x
  get_elem?-place [] after n x e = rw (sym e) refl
  get_elem?-place (b ∷ before) after n x e = rw (sym e) (get_elem?-place before after _ x refl)

  pub set-place :
      (before after : List A) (n : ℕ) (x y : A)
      → length before ≡ n
      → set (before ++ (x ∷ after)) n y ≡ before ++ (y ∷ after)
  set-place [] after n x y e = rw (sym e) refl
  set-place (b ∷ before) after n x y e = rw (sym e) (ap (◌∷◌ b) (set-place before after _ x y refl))
