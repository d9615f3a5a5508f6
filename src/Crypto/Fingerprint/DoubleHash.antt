-- ===== src/Crypto/Fingerprint/DoubleHash.antt =====
-- Hash2 and Hash2_PRV of src/crypto/crypto_basic.cpp against each other.
use galaxy.Prelude.{ℕ, zero, suc, ◌+◌, ◌<◌, ◌≡◌, ◌≢◌, refl, ap, [], ◌∷◌, map, length, All, arith}
use galaxy.Serialize.Generator.{Str}
use galaxy.Crypto.Fingerprint.{negate, negate_first, hash2, hash2_prv, hash1_size}

-- An even number of negations of the first octet.
negate_first_even :
    (n m : ℕ) (ch : ℕ) (hash : Str) → m ≡ n + n → ch < 256 → negate_first m (ch ∷ hash) ≡ ch ∷ hash
unfolding negate_first
negate_first_even n zero ch hash e h = refl
negate_first_even zero (suc m) ch hash e h = absurd (omega (arith, e))
negate_first_even (suc n) (suc zero) ch hash e h = absurd (omega (arith, e))
negate_first_even (suc n) (suc (suc m)) ch hash e h =
    let back : negate (negate ch) ≡ ch = omega (arith, h) in
    rw back (negate_first_even n m ch hash (omega (arith, e)) h)

negate_first_whole :
    (hash : Str)
    → length hash ≡ hash1_size
    → All (λ b. b < 256) hash
    → negate_first (length hash) hash ≡ hash
negate_first_whole [] e o = absurd (omega (arith, e))
negate_first_whole (ch ∷ hash) e (h, o) = negate_first_even 32 _ ch hash e h

abbrev head_or_zero : Str → ℕ
head_or_zero [] = 0
head_or_zero (c ∷ s) = c

negated_differs :
    (hash : Str) → length hash ≡ hash1_size → All (λ b. b < 256) hash → map negate hash ≢ hash
negated_differs [] e o h = omega (arith, e)
negated_differs (ch ∷ hash) e (small, o) h = omega (arith, ap head_or_zero h, small)

module _ (hash1 : Str → Str) (hash1-length : (s : Str) → length (hash1 s) ≡ hash1_size)
    (hash1-octets : (s : Str) → All (λ b. b < 256) (hash1 s)) where
  -- Where Hash1 gives 64 octets, Hash2_PRV is Hash1 applied twice, while Hash2 is Hash1 of the
  -- negated inner hash, which is never the inner hash itself.
  pub hash2_prv_plain :
      (s : Str)
      → (hash2_prv hash1 s ≡ hash1 (hash1 s))
        × (hash2 hash1 s ≡ hash1 (map negate (hash1 s)))
        × (map negate (hash1 s) ≢ hash1 s)
  unfolding hash2_prv hash2
  hash2_prv_plain s = (
    ap hash1 (negate_first_whole (hash1 s) (hash1-length s) (hash1-octets s)),
    refl,
    negated_differs (hash1 s) (hash1-length s) (hash1-octets s),
  )
