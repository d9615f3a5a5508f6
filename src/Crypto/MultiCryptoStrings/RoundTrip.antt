-- ===== src/Crypto/MultiCryptoStrings/RoundTrip.antt =====
-- A collection of keys that is saved and loaded again.
use galaxy.Prelude.{suc, ◌≡◌, refl, ap, ◌∙◌, List, [], ◌∷◌, length, map, arith}
use galaxy.Outcome.{ok, ◌>>◌}
use galaxy.Try.{value}
use galaxy.Serialize.Generator.{Str}
use galaxy.Crypto.MultiCryptoStrings.{
  MultiCryptoStrings, IsArray, serialize_bin, load_from_bin, clear,
}
use galaxy.Crypto.MultiCryptoStrings.Save.{
  Saveable, overlay, systems_saved, serialize_body, load_body, count_used-le, gmk,
}

overlay-cleared :
    (systems old : List (List Str))
    → length old ≡ length systems
    → overlay systems (map (λ keys. []) old) ≡ systems
unfolding overlay
overlay-cleared [] old h = refl
overlay-cleared (keys ∷ systems) [] h = absurd (omega arith)
overlay-cleared ([] ∷ systems) (o ∷ old) h = ap (◌∷◌ []) (overlay-cleared systems old (omega arith))
overlay-cleared ((key ∷ keys) ∷ systems) (o ∷ old) h =
    ap (◌∷◌ (key ∷ keys)) (overlay-cleared systems old (omega arith))

length-clear : (old : List (List Str)) → length (map {B = List Str} (λ keys. []) old) ≡ length old
length-clear [] = refl
length-clear (o ∷ old) = ap suc (length-clear old)

module _ (saved target : MultiCryptoStrings) where
  -- Every collection whose systems with keys have IDs, and whose keys and their numbers are within
  -- the limits of the format, is serialized; and load_from_bin of that string into any collection of
  -- the same use succeeds: each system that was saved with keys gets exactly those keys, each other
  -- system keeps the keys it had, and the cached hash is dropped.
  pub load_from_bin-serialize_bin :
      IsArray saved
      → IsArray target
      → saved.m_crypto_use ≡ target.m_crypto_use
      → Saveable 0 saved.m_cryptolists_general
      → (out : Str) × (serialize_bin saved ≡ value out)
        × (load_from_bin out target
            ≡ ok tt (record target {
              m_cryptolists_general =
                  overlay saved.m_cryptolists_general target.m_cryptolists_general;
              m_hash_cached = [];
            }))
  load_from_bin-serialize_bin array array' uses saveable =
      let systems : List (List Str) = saved.m_cryptolists_general in
      let (out, pushes, loads) = systems_saved 0 systems saveable in
      (
        gmk saved.m_crypto_use systems out,
        serialize_body saved out (omega (arith, count_used-le systems)) pushes,
        rw uses (load_body target systems out (omega arith) (omega arith) loads),
      )

-- A collection whose systems with keys have IDs, and whose keys and their numbers are within the
-- limits of the format, is serialized by serialize_bin; clear() and then load_from_bin of that
-- string into any collection of the same use succeeds and leaves exactly the saved keys.
pub load_from_bin-clear :
    (saved target : MultiCryptoStrings)
    → IsArray saved
    → IsArray target
    → saved.m_crypto_use ≡ target.m_crypto_use
    → Saveable 0 saved.m_cryptolists_general
    → (out : Str) × (serialize_bin saved ≡ value out)
      × ((clear >> load_from_bin out) target ≡ ok tt (record saved { m_hash_cached = [] }))
unfolding clear
load_from_bin-clear saved target array array' uses saveable =
    let old : List (List Str) = target.m_cryptolists_general in
    let cleared : MultiCryptoStrings = record target {
      m_cryptolists_general = map (λ keys. []) old;
    } in
    let (out, p, q) =
      load_from_bin-serialize_bin saved cleared array (omega (arith, length-clear old)) uses
        saveable in
    let same = overlay-cleared saved.m_cryptolists_general old (omega arith) in
    (out, p, q ∙ rw (same, uses))
