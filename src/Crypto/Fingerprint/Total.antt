-- ===== src/Crypto/Fingerprint/Total.antt =====
-- get_hash always gives a hash to a collection whose systems with keys have IDs, and keeps it.
use galaxy.Prelude.{ℕ, ◌+◌, ◌≡◌, ◌≢◌, refl, ap, List, [], ◌∷◌, ◌++◌, replicate, length, arith}
use galaxy.Outcome.{ok}
use galaxy.Try.{value}
use galaxy.Serialize.Generator.{Str, push_bytes_n, push_byte_u}
use galaxy.Serialize.Strings.{varstring, push_varstring-varstring}
use galaxy.Serialize.Varint.{uvarint, push_integer_uvarint-uvarint}
use galaxy.Crypto.Systems.{HasId, system_type_end}
use galaxy.Crypto.MultiCryptoStrings.{MultiCryptoStrings, count_used}
use galaxy.Crypto.MultiCryptoStrings.Save.{count_used-le}
use galaxy.Crypto.Fingerprint.{
  fingerprint, push_fingerprints, fingerprint_into_gen, update_hash, get_hash, hash1_size,
}
use galaxy.Crypto.Fingerprint.Accumulator.{accumulate-mix, length-mix, mix}
use galaxy.Crypto.Fingerprint.Laws.{cached_hash, cached_ok, uncached}

-- Every system from `ix` on that has keys has an ID.
abbrev pub Named : ℕ → List (List Str) → Type 0
Named ix [] = Unit {0}
Named ix ([] ∷ systems) = Named (ix + 1) systems
Named ix ((key ∷ keys) ∷ systems) = HasId ix × Named (ix + 1) systems

module _ (hash1 : Str → Str) (hash1-length : (s : Str) → length (hash1 s) ≡ hash1_size) where
  fingerprint_sized :
      (keys : List Str)
      → (fpr : Str) × (fingerprint hash1 keys ≡ value fpr) × (length fpr ≡ hash1_size)
  unfolding fingerprint
  fingerprint_sized keys = (
    mix hash1 hash1-length (replicate hash1_size 0) keys,
    accumulate-mix hash1 hash1-length _ keys refl,
    length-mix hash1 hash1-length _ keys,
  )

  push_fingerprints-ok :
      (ix : ℕ) (systems : List (List Str)) (used : ℕ) (out : Str)
      → Named ix systems
      → (written : Str) × (push_fingerprints hash1 ix systems used out
          ≡ ok (used + count_used systems) written)
  unfolding push_fingerprints count_used push_byte_u
  push_fingerprints-ok ix [] used out h = (out, ap (λ n. ok n out) (omega arith))
  push_fingerprints-ok ix ([] ∷ systems) used out h =
      push_fingerprints-ok (ix + 1) systems used out h
  push_fingerprints-ok ix ((key ∷ keys) ∷ systems) used out ((id, has), h) =
      let (fpr, e, size) = fingerprint_sized (key ∷ keys) in
      let (written, rest) =
        push_fingerprints-ok (ix + 1) systems (used + 1) ((out ++ (id ∷ [])) ++ varstring fpr) h in
      (
        written,
        ground (
          arith,
          has,
          e,
          push_varstring-varstring fpr (out ++ (id ∷ [])) (omega (arith, size)),
          rest,
        ),
      )

  fingerprint_into_gen-ok :
      (systems : List (List Str))
      → length systems ≡ system_type_end
      → Named 0 systems
      → (written : Str) × (fingerprint_into_gen hash1 systems [] ≡ ok tt written)
  unfolding fingerprint_into_gen push_bytes_n push_byte_u
  fingerprint_into_gen-ok systems size h =
      let start : Str = b'G' ∷ b'M' ∷ b'K' ∷ b'a' ∷ b'f' ∷ 1 ∷ [] in
      let (written, pushed) =
        push_fingerprints-ok 0 systems 0 (start ++ uvarint (count_used systems)) h in
      (
        written,
        ground (
          arith,
          push_integer_uvarint-uvarint (count_used systems) start
              (omega (arith, size, count_used-le systems)),
          count_used-le systems,
          pushed,
        ),
      )

  -- For a full array of keys whose systems with keys have IDs, and a Hash1 of 64 octets,
  -- get_hash without a kept hash succeeds, changes only the kept hash, and gives the same 64
  -- octets when it is called again.
  pub get_hash_total :
      (systems : List (List Str)) (crypto_use : ℕ)
      → length systems ≡ system_type_end
      → Named 0 systems
      → (hash : Str) × (length hash ≡ hash1_size)
        × (get_hash hash1 (uncached systems crypto_use)
            ≡ ok hash (record (uncached systems crypto_use) { m_hash_cached = hash }))
        × (get_hash hash1 (record (uncached systems crypto_use) { m_hash_cached = hash })
            ≡ ok hash (record (uncached systems crypto_use) { m_hash_cached = hash }))
  unfolding get_hash update_hash
  get_hash_total systems crypto_use size named =
      let (written, e) = fingerprint_into_gen-ok systems size named in
      let after : MultiCryptoStrings = record (uncached systems crypto_use) {
        m_hash_cached = hash1 written;
      } in
      let not_empty : hash1 written ≢ [] =
        λ none. omega (arith, ap length none, hash1-length written) in
      (
        hash1 written,
        hash1-length written,
        ground (arith, e, cached_ok hash1 after (hash1 written) refl not_empty),
        cached_hash hash1 after (hash1 written) refl not_empty,
      )
