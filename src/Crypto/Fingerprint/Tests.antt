-- ===== src/Crypto/Fingerprint/Tests.antt =====
-- Hashes of collections with a stand-in for Hash1: 64 times the length of the string, modulo 256.
use galaxy.Prelude.{
  ℕ, zero, suc, ◌%◌, ◌≡◌, ◌≢◌, ◌<◌, refl, ap, List, [], ◌∷◌, ◌++◌, map, replicate, length, All,
  arith,
}
use mathlib.Core.List.Permᴰ.{swap}
use galaxy.Outcome.{ok}
use galaxy.Serialize.Generator.{Str}
use galaxy.Crypto.Systems.{ed25519, t_crypto_system_type_to_id}
use galaxy.Crypto.MultiCryptoStrings.{MultiCryptoStrings, add_key, use_open}
use galaxy.Crypto.Fingerprint.{hash1_size, get_hash, negate, hash2, hash2_prv}
use galaxy.Crypto.Fingerprint.Laws.{
  Reordered, given, uncached, get_hash-Reordered, get_hash_twice, get_hash-add_key,
}
use galaxy.Crypto.Fingerprint.Total.{get_hash_total}
use galaxy.Crypto.Fingerprint.DoubleHash.{hash2_prv_plain}

abbrev length_hash : Str → Str
length_hash s = replicate hash1_size (length s % 256)

replicated : (n c : ℕ) → length (replicate n c) ≡ n
replicated zero c = refl
replicated (suc n) c = ap suc (replicated n c)

length_hash_size : (s : Str) → length (length_hash s) ≡ hash1_size
length_hash_size s = replicated hash1_size (length s % 256)

replicated-octets : (n c : ℕ) → c < 256 → All (λ b. b < 256) (replicate n c)
replicated-octets zero c h = tt
replicated-octets (suc n) c h = (h, replicated-octets n c h)

length_hash-octets : (s : Str) → All (λ b. b < 256) (length_hash s)
length_hash-octets s = replicated-octets hash1_size (length s % 256) (omega arith)

-- No keys but one list of Ed25519 keys.
abbrev ed_keys : List Str → List (List Str)
ed_keys keys = replicate 6 [] ++ (keys ∷ replicate 25 [])

abbrev key_a : Str
key_a = 1 ∷ 2 ∷ []

abbrev key_b : Str
key_b = 3 ∷ []

get_hash_total_example :
    (hash : Str) × (length hash ≡ hash1_size)
    × (get_hash length_hash (uncached (ed_keys (key_a ∷ [])) use_open)
        ≡ ok hash (record (uncached (ed_keys (key_a ∷ [])) use_open) { m_hash_cached = hash }))
    × (get_hash length_hash
          (record (uncached (ed_keys (key_a ∷ [])) use_open) { m_hash_cached = hash })
        ≡ ok hash (record (uncached (ed_keys (key_a ∷ [])) use_open) { m_hash_cached = hash }))
unfolding t_crypto_system_type_to_id
get_hash_total_example =
    get_hash_total length_hash length_hash_size (ed_keys (key_a ∷ [])) use_open refl
      ((b'e', refl), tt)

get_hash-Reordered_example :
    given (get_hash length_hash (uncached ((key_a ∷ key_b ∷ []) ∷ []) use_open))
    ≡ given (get_hash length_hash (uncached ((key_b ∷ key_a ∷ []) ∷ []) use_open))
get_hash-Reordered_example =
    get_hash-Reordered length_hash length_hash_size use_open
      (Reordered.reordered (swap refl refl) Reordered.no_systems)

get_hash_twice_example :
    given (
      get_hash length_hash
        (uncached (replicate 6 [] ++ ((key_a ∷ key_a ∷ key_b ∷ []) ∷ replicate 25 [])) use_open))
    ≡ given (
        get_hash length_hash
          (uncached (replicate 6 [] ++ ((key_b ∷ []) ∷ replicate 25 [])) use_open))
get_hash_twice_example =
    get_hash_twice length_hash length_hash_size (replicate 6 []) (replicate 25 []) key_a key_b []
      use_open

abbrev hashed : List Str → MultiCryptoStrings
hashed keys = record {
  m_cryptolists_general = ed_keys keys;
  m_hash_cached = length_hash key_a;
  m_crypto_use = use_open;
}

key_b_added : add_key ed25519 key_b (hashed (key_a ∷ [])) ≡ ok tt (hashed (key_a ∷ key_b ∷ []))
unfolding add_key galaxy.Crypto.MultiCryptoStrings.at
key_b_added = refl

hash_there : length_hash key_a ≢ []
hash_there e = omega (arith, ap length e)

get_hash-add_key_example :
    get_hash length_hash (hashed (key_a ∷ key_b ∷ []))
    ≡ ok (length_hash key_a) (hashed (key_a ∷ key_b ∷ []))
get_hash-add_key_example =
    get_hash-add_key length_hash ed25519 key_b (hashed (key_a ∷ [])) (hashed (key_a ∷ key_b ∷ []))
      hash_there key_b_added

hash2_prv_plain_example :
    (hash2_prv length_hash key_a ≡ length_hash (length_hash key_a))
    × (hash2 length_hash key_a ≡ length_hash (map negate (length_hash key_a)))
    × (map negate (length_hash key_a) ≢ length_hash key_a)
hash2_prv_plain_example = hash2_prv_plain length_hash length_hash_size length_hash-octets key_a
