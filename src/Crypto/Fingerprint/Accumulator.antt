-- ===== src/Crypto/Fingerprint/Accumulator.antt =====
-- The accumulator of the hashes of one system's keys.
use galaxy.Prelude.{
  ℕ, zero, suc, ◌≡◌, ◌<◌, refl, sym, ◌∙◌, ap, List, [], ◌∷◌, ==_iff, replicate, length, All, arith,
}
use mathlib.Core.List.{Permᴰ}
use mathlib.Core.List.Permᴰ.{nil, cons, swap, trans}
use galaxy.Try.{value}
use galaxy.Serialize.Generator.{Str}
use galaxy.Crypto.Xor.{xor_each, binary_string_xor, length-xor_each, xor_each_swap, xor_each_twice}
use galaxy.Crypto.Fingerprint.{accumulate, fingerprint, hash1_size}

module _ (hash1 : Str → Str) (hash1-length : (s : Str) → length (hash1 s) ≡ hash1_size) where
  -- The accumulator with the hashes of `keys` mixed in.
  abbrev pub mix : Str → List Str → Str
  mix acc [] = acc
  mix acc (pk ∷ keys) = mix (xor_each acc (hash1 pk)) keys

  pub length-mix : (acc : Str) (keys : List Str) → length (mix acc keys) ≡ length acc
  length-mix acc [] = refl
  length-mix acc (pk ∷ keys) =
      length-mix (xor_each acc (hash1 pk)) keys ∙ length-xor_each acc (hash1 pk)

  xor_hash :
      (acc pk : Str)
      → length acc ≡ hash1_size
      → binary_string_xor acc (hash1 pk) ≡ value (xor_each acc (hash1 pk))
  unfolding binary_string_xor
  xor_hash acc pk h =
      rw ((==_iff (length acc) (length (hash1 pk))).1 (h ∙ sym (hash1-length pk))) refl

  pub accumulate-mix :
      (acc : Str) (keys : List Str)
      → length acc ≡ hash1_size
      → accumulate hash1 acc keys ≡ value (mix acc keys)
  unfolding accumulate
  accumulate-mix acc [] h = refl
  accumulate-mix acc (pk ∷ keys) h =
      rw (accumulate, xor_hash acc pk h)
        (accumulate-mix (xor_each acc (hash1 pk)) keys (length-xor_each acc (hash1 pk) ∙ h))

  pub mix-Perm :
      (acc : Str) {keys others : List Str}
      → length acc ≡ hash1_size
      → Permᴰ keys others
      → mix acc keys ≡ mix acc others
  mix-Perm acc h nil = refl
  mix-Perm acc h (cons {a = a} {b = b} {l₂ = l} e p) =
      mix-Perm (xor_each acc (hash1 a)) (length-xor_each acc (hash1 a) ∙ h) p
      ∙ ap (λ k. mix (xor_each acc (hash1 k)) l) e
  mix-Perm acc h (swap {a = a} {b = b} {l = l} e f) =
      ap (λ s. mix s l)
        (xor_each_swap acc (hash1 a) (hash1 b) (hash1-length a ∙ sym h) (hash1-length b ∙ sym h))
      ∙ cc (e, f)
  mix-Perm acc h (trans p q) = mix-Perm acc h p ∙ mix-Perm acc h q

  pub mix_twice :
      (acc pk : Str) (keys : List Str)
      → length acc ≡ hash1_size
      → All (λ b. b < 256) acc
      → mix acc (pk ∷ pk ∷ keys) ≡ mix acc keys
  mix_twice acc pk keys h o =
      ap (λ s. mix s keys) (xor_each_twice acc (hash1 pk) (hash1-length pk ∙ sym h) o)

  zeros : (n : ℕ) → All (λ b. b < 256) (replicate n 0)
  zeros zero = tt
  zeros (suc n) = (omega arith, zeros n)

  -- The order of the keys leaves the fingerprint as it is.
  pub fingerprint-Perm :
      {keys others : List Str}
      → Permᴰ keys others
      → fingerprint hash1 keys ≡ fingerprint hash1 others
  unfolding fingerprint
  fingerprint-Perm {keys} {others} p =
      accumulate-mix _ keys refl ∙ ap value (mix-Perm _ refl p) ∙ sym (accumulate-mix _ others refl)

  pub fingerprint_twice :
      (pk : Str) (keys : List Str) → fingerprint hash1 (pk ∷ pk ∷ keys) ≡ fingerprint hash1 keys
  unfolding fingerprint
  fingerprint_twice pk keys =
      accumulate-mix _ (pk ∷ pk ∷ keys) refl
      ∙ ap value (mix_twice _ pk keys refl (zeros hash1_size))
      ∙ sym (accumulate-mix _ keys refl)
