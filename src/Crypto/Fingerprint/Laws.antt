-- ===== src/Crypto/Fingerprint/Laws.antt =====
-- The hash of a collection of keys: it exists, it is kept, and what it does not depend on.
use galaxy.Prelude.{ℕ, suc, ◌+◌, ◌≡◌, ◌≢◌, refl, sym, ◌∙◌, ap, List, [], ◌∷◌, ◌++◌, length, arith}
use mathlib.Core.List.{Permᴰ}
use mathlib.Core.List.Permᴰ.{nil, cons, swap, trans}
use galaxy.Outcome.{Outcome, assert_abort, ok, err, M, ◌>>=◌, ◌>>◌}
use galaxy.Try.{Try, value, throws, lift}
use galaxy.Serialize.Generator.{Str, push_byte_u, push_varstring}
use galaxy.Crypto.Systems.{t_crypto_system_type_to_id}
use galaxy.Crypto.MultiCryptoStrings.{MultiCryptoStrings, count_used, add_key}
use galaxy.Crypto.Fingerprint.{
  fingerprint, push_fingerprints, fingerprint_into_gen, update_hash, cached, get_hash, hash1_size,
}
use galaxy.Crypto.Fingerprint.Accumulator.{fingerprint-Perm, fingerprint_twice}

-- Systems with keys in the same places, and the same fingerprints of these.
pub data Alike (hash1 : Str → Str) : List (List Str) → List (List Str) → Type 0 where
  no_systems : Alike hash1 [] []
  no_keys :
      {systems others : List (List Str)}
      → Alike hash1 systems others
      → Alike hash1 ([] ∷ systems) ([] ∷ others)
  same_keys :
      {k o : Str} {ks os : List Str} {systems others : List (List Str)}
      → fingerprint hash1 (k ∷ ks) ≡ fingerprint hash1 (o ∷ os)
      → Alike hash1 systems others
      → Alike hash1 ((k ∷ ks) ∷ systems) ((o ∷ os) ∷ others)

-- A collection whose hash was not calculated yet.
abbrev pub uncached : List (List Str) → ℕ → MultiCryptoStrings
uncached systems crypto_use = record {
  m_cryptolists_general = systems;
  m_hash_cached = [];
  m_crypto_use = crypto_use;
}

-- The hash, or the exception, whatever the object is left as.
abbrev pub given : Outcome MultiCryptoStrings Str → Try Str
given (ok hash self) = value hash
given (err e self) = throws e

module _ (hash1 : Str → Str) where
  pub cached_ok :
      (self : MultiCryptoStrings) (hash : Str)
      → self.m_hash_cached ≡ hash
      → hash ≢ []
      → cached self ≡ ok hash self
  unfolding cached
  cached_ok self [] e had = absurd (had refl)
  cached_ok self (c ∷ hash) e had = ground (arith, e)

  pub cached_hash :
      (self : MultiCryptoStrings) (hash : Str)
      → self.m_hash_cached ≡ hash
      → hash ≢ []
      → get_hash hash1 self ≡ ok hash self
  unfolding get_hash cached
  cached_hash self [] e had = absurd (had refl)
  cached_hash self (c ∷ hash) e had = ground (arith, e)

  add_key_keeps :
      (sys : ℕ) (key : Str) (self after : MultiCryptoStrings)
      → add_key sys key self ≡ ok tt after
      → after.m_hash_cached ≡ self.m_hash_cached
  unfolding add_key
  add_key_keeps sys key self after added = ground arith

  -- After add_key to a collection whose hash was calculated, get_hash still gives the hash from
  -- before, since add_key does not drop it.
  pub get_hash-add_key :
      (sys : ℕ) (key : Str) (self after : MultiCryptoStrings)
      → self.m_hash_cached ≢ []
      → add_key sys key self ≡ ok tt after
      → get_hash hash1 after ≡ ok self.m_hash_cached after
  get_hash-add_key sys key self after had added =
      cached_hash after _ (add_key_keeps sys key self after added) had

  count_used-Alike :
      {systems others : List (List Str)}
      → Alike hash1 systems others
      → count_used systems ≡ count_used others
  unfolding count_used
  count_used-Alike no_systems = refl
  count_used-Alike (no_keys h) = count_used-Alike h
  count_used-Alike (same_keys e h) = ap suc (count_used-Alike h)

  push_fingerprints-Alike :
      (ix : ℕ) {systems others : List (List Str)} (used : ℕ)
      → Alike hash1 systems others
      → push_fingerprints hash1 ix systems used ≡ push_fingerprints hash1 ix others used
  unfolding push_fingerprints
  push_fingerprints-Alike ix used no_systems = refl
  push_fingerprints-Alike ix used (no_keys h) = push_fingerprints-Alike (ix + 1) used h
  push_fingerprints-Alike ix used (same_keys {k} {o} {ks} {os} {systems} {others} e h) =
      let rest = push_fingerprints-Alike (ix + 1) (used + 1) h in
      let with_first : Try Str → M Str ℕ → M Str ℕ = λ fpr rest. do
        id ← lift (t_crypto_system_type_to_id ix)
        push_byte_u id
        fpr_accum ← lift fpr
        push_varstring fpr_accum
        rest
      in ap (λ fpr. with_first fpr (push_fingerprints hash1 (ix + 1) systems (used + 1))) e
        ∙ ap (λ r. with_first (fingerprint hash1 (o ∷ os)) r) rest

  fingerprint_into_gen-Alike :
      {systems others : List (List Str)}
      → Alike hash1 systems others
      → fingerprint_into_gen hash1 systems ≡ fingerprint_into_gen hash1 others
  unfolding fingerprint_into_gen
  fingerprint_into_gen-Alike h =
      rw (fingerprint_into_gen, count_used-Alike h, push_fingerprints-Alike 0 0 h) refl

  given_updated :
      (systems : List (List Str)) (crypto_use : ℕ) (o : Outcome Str (Unit {0}))
      → fingerprint_into_gen hash1 systems [] ≡ o
      → given (get_hash hash1 (uncached systems crypto_use)) ≡ elim o [
        | ok _ s ↦ elim (hash1 s) [ [] ↦ throws assert_abort | c ∷ hash ↦ value (c ∷ hash) ]
        | err x s ↦ throws x
      ]
  unfolding get_hash update_hash cached
  given_updated systems crypto_use (err x s) e = ground (arith, e)
  given_updated systems crypto_use (ok a s) e = ground (arith, e)

  pub get_hash-Alike :
      {systems others : List (List Str)} (crypto_use : ℕ)
      → Alike hash1 systems others
      → given (get_hash hash1 (uncached systems crypto_use))
        ≡ given (get_hash hash1 (uncached others crypto_use))
  get_hash-Alike {systems} {others} crypto_use h =
      given_updated systems crypto_use _ refl
      ∙ ap
          (λ o. elim o [
            | ok _ s ↦ elim (hash1 s) [ [] ↦ throws assert_abort | c ∷ hash ↦ value (c ∷ hash) ]
            | err x s ↦ throws x
          ])
          (ap (λ write. write []) (fingerprint_into_gen-Alike h))
      ∙ sym (given_updated others crypto_use _ refl)

same_length : {keys others : List Str} → Permᴰ keys others → length keys ≡ length others
same_length nil = refl
same_length (cons e p) = ap suc (same_length p)
same_length (swap e f) = refl
same_length (trans p q) = same_length p ∙ same_length q

-- The same keys of each system, in any order.
pub data Reordered : List (List Str) → List (List Str) → Type 0 where
  no_systems : Reordered [] []
  reordered :
      {keys others : List Str} {systems rest : List (List Str)}
      → Permᴰ keys others
      → Reordered systems rest
      → Reordered (keys ∷ systems) (others ∷ rest)

module _ (hash1 : Str → Str) (hash1-length : (s : Str) → length (hash1 s) ≡ hash1_size) where
  Permᴰ-Alike :
      (keys others : List Str) {systems rest : List (List Str)}
      → Permᴰ keys others
      → Alike hash1 systems rest
      → Alike hash1 (keys ∷ systems) (others ∷ rest)
  Permᴰ-Alike [] [] p h = no_keys h
  Permᴰ-Alike [] (o ∷ os) p h = absurd (omega (arith, same_length p))
  Permᴰ-Alike (k ∷ ks) [] p h = absurd (omega (arith, same_length p))
  Permᴰ-Alike (k ∷ ks) (o ∷ os) p h = same_keys (fingerprint-Perm hash1 hash1-length p) h

  Reordered-Alike :
      {systems others : List (List Str)} → Reordered systems others → Alike hash1 systems others
  Reordered-Alike no_systems = no_systems
  Reordered-Alike (reordered p r) = Permᴰ-Alike _ _ p (Reordered-Alike r)

  -- For a Hash1 of 64 octets, get_hash gives two collections whose systems hold the same keys,
  -- in any order, the same hash, or the same exception.
  pub get_hash-Reordered :
      {systems others : List (List Str)} (crypto_use : ℕ)
      → Reordered systems others
      → given (get_hash hash1 (uncached systems crypto_use))
        ≡ given (get_hash hash1 (uncached others crypto_use))
  get_hash-Reordered crypto_use r = get_hash-Alike hash1 crypto_use (Reordered-Alike r)

  Alike-refl : (systems : List (List Str)) → Alike hash1 systems systems
  Alike-refl [] = no_systems
  Alike-refl ([] ∷ systems) = no_keys (Alike-refl systems)
  Alike-refl ((k ∷ ks) ∷ systems) = same_keys refl (Alike-refl systems)

  Alike-behind :
      (before : List (List Str)) {systems others : List (List Str)}
      → Alike hash1 systems others
      → Alike hash1 (before ++ systems) (before ++ others)
  Alike-behind [] h = h
  Alike-behind ([] ∷ before) h = no_keys (Alike-behind before h)
  Alike-behind ((k ∷ ks) ∷ before) h = same_keys refl (Alike-behind before h)

  -- For a Hash1 of 64 octets, a key that stands twice before another key of its system changes
  -- nothing: get_hash gives the collection with both copies the hash of the one with neither,
  -- so the hash does not tell them apart.
  pub get_hash_twice :
      (before after : List (List Str)) (pk key : Str) (keys : List Str) (crypto_use : ℕ)
      → given (get_hash hash1 (uncached (before ++ ((pk ∷ pk ∷ key ∷ keys) ∷ after)) crypto_use))
        ≡ given (get_hash hash1 (uncached (before ++ ((key ∷ keys) ∷ after)) crypto_use))
  get_hash_twice before after pk key keys crypto_use = get_hash-Alike hash1 crypto_use (
      Alike-behind before
        (same_keys (fingerprint_twice hash1 hash1-length pk (key ∷ keys)) (Alike-refl after)))
