-- ===== src/Crypto/KeyPairs/Rounds.antt =====
-- c_multikeys_PAIR::generate (src/crypto/multikeys.cpp) over the counts of all systems, against the keys
-- that Added describes.
use galaxy.Prelude.{
  ℕ, zero, suc, ◌+◌, ◌≡◌, ◌≤◌, refl, sym, ap, ◌∙◌, subst, Bool, true, false, not, ◌||◌, List, [],
  ◌∷◌, ◌++◌, append_assoc, map, get_elem?-place, set-place, length, length-append, ◌==◌,
  if◌then◌else◌, arith, Bool-cases, inl, inr,
}
use galaxy.Outcome.{bind_inversion, ok}
use galaxy.Try.{value, lift, lift_ok, Try-cases}
use galaxy.Serialize.Generator.{Str}
use galaxy.Crypto.Systems.{
  int_to_enum, enum_is_valid_value, t_crypto_system_type_is_asymkex, system_type_end,
}
use galaxy.Crypto.MultiCryptoStrings.{IsArray}
use galaxy.Crypto.KeyPairs.{
  KeyPair, Generators, MultikeysPair, generate_key_pair, generate_pairs, generate, generate_at,
  generate_counts,
}
use galaxy.Crypto.KeyPairs.Added.{
  is_wanted, how_many_made, any_made, with_keys, keypairs, added, hash_after, made-keypair,
  generate-extended,
}

module _ (lib : Generators) where
  -- What generate makes keys in.
  generate-known :
      (sys count : ℕ) (pair pair' : MultikeysPair)
      → generate lib sys (suc count) pair ≡ ok tt pair'
      → is_wanted true sys ≡ true
  unfolding generate generate_pairs
  generate-known sys count pair pair' h =
      let (u, p, first, rest) = bind_inversion (generate_pairs lib sys (suc count) 0) _ pair h in
      let (made, q, second, later) =
        bind_inversion (lift (generate_key_pair lib sys 0)) _ pair first in
      let (is_made, kept) = lift_ok (generate_key_pair lib sys 0) pair second in
      (made-keypair lib sys 0 made is_made).1

  wanted_enum : (sys : ℕ) → is_wanted true sys ≡ true → int_to_enum sys ≡ value sys
  unfolding int_to_enum enum_is_valid_value
  wanted_enum sys h = ground (arith, h)

  enum_same : (sys s : ℕ) → int_to_enum sys ≡ value s → s ≡ sys
  unfolding int_to_enum
  enum_same sys s h = ground (arith, h)

  unasked-wanted :
      (sys : ℕ) → t_crypto_system_type_is_asymkex sys ≡ value false → is_wanted false sys ≡ true
  unfolding t_crypto_system_type_is_asymkex
  unasked-wanted sys h = ground (arith, h)

  wanted-unasked :
      (sys : ℕ) → is_wanted false sys ≡ true → t_crypto_system_type_is_asymkex sys ≡ value false
  unfolding t_crypto_system_type_is_asymkex
  wanted-unasked sys h = ground (arith, h)

  wanted_always :
      (will_asymkex : Bool) (sys : ℕ)
      → is_wanted will_asymkex sys ≡ true
      → is_wanted true sys ≡ true
  wanted_always true sys h = h
  wanted_always false sys h = ground (arith, h)

  round_wanted :
      (will_asymkex : Bool) (sys count : ℕ) (pair pair' : MultikeysPair)
      → is_wanted will_asymkex sys ≡ true
      → generate_at lib will_asymkex sys (suc count) pair ≡ ok tt pair'
      → generate lib sys (suc count) pair ≡ ok tt pair'
  unfolding generate_at
  round_wanted true sys count pair pair' w h = ground (arith, h, wanted_enum sys w)
  round_wanted false sys count pair pair' w h =
      ground (arith, h, wanted_enum sys (wanted_always false sys w), wanted-unasked sys w)

  round_unwanted :
      (will_asymkex : Bool) (sys count : ℕ) (pair pair' : MultikeysPair)
      → is_wanted will_asymkex sys ≡ false
      → generate_at lib will_asymkex sys (suc count) pair ≡ ok tt pair'
      → pair ≡ pair'
  unfolding generate_at
  round_unwanted will_asymkex sys count pair pair' w h = elim (Try-cases (int_to_enum sys)) [
    | inr (e, other) ↦ ground (arith, other, h)
    | inl (s, number) ↦
        let same = enum_same sys s number in
        elim (Bool-cases will_asymkex) [
          | inl all ↦
              let made : generate lib s (suc count) pair ≡ ok tt pair' =
                ground (arith, number, all, h) in
              let known = generate-known s count pair pair' made in
              absurd (cc (w, all, known, same))
          | inr not_all ↦ elim (Try-cases (t_crypto_system_type_is_asymkex s)) [
            | inr (e, fails) ↦ absurd (ground (arith, number, not_all, fails, h))
            | inl (asymkex, known) ↦ elim (Bool-cases asymkex) [
              | inl skipped ↦ ground (arith, number, not_all, known, skipped, h)
              | inr wanted ↦
                  let known' = unasked-wanted s (known ∙ ap value wanted) in
                  absurd (cc (w, not_all, known', same))
            ]
          ]
        ]
  ]

  -- A round of generate is one call of generate for the pairs that are made in its system.
  generate_at-generate :
      (will_asymkex : Bool) (sys how_many : ℕ) (pair pair' : MultikeysPair)
      → generate_at lib will_asymkex sys how_many pair ≡ ok tt pair'
      → generate lib sys (how_many_made will_asymkex sys how_many) pair ≡ ok tt pair'
  unfolding generate_at generate
  generate_at-generate will_asymkex sys zero pair pair' h = elim (Try-cases (int_to_enum sys)) [
    | inr (e, other) ↦ ground (arith, other, h)
    | inl (s, number) ↦ ground (arith, number, h)
  ]
  generate_at-generate will_asymkex sys (suc count) pair pair' h =
      elim (Bool-cases (is_wanted will_asymkex sys)) [
        | inl w ↦ rw w (round_wanted will_asymkex sys count pair pair' w h)
        | inr w ↦ rw w (ap (ok tt) (round_unwanted will_asymkex sys count pair pair' w h))
      ]

  hash_after-any :
      (count : ℕ) (later : Bool) (hash : Str)
      → (if later then [] else hash_after count hash)
        ≡ (if not (count == 0) || later then [] else hash)
  hash_after-any zero later hash = refl
  hash_after-any (suc count) true hash = ground arith
  hash_after-any (suc count) false hash = ground arith

  abbrev publics : Bool → ℕ → List ℕ → List (List Str) → List (List Str)
  publics = added lib (λ (k : KeyPair). k.public_key)

  abbrev privates : Bool → ℕ → List ℕ → List (List Str) → List (List Str)
  privates = added lib (λ (k : KeyPair). k.private_key)

  -- The rounds from `sys` on, behind the systems that are done.
  rounds-added :
      (will_asymkex : Bool) (sys : ℕ) (counts : List ℕ) (base : MultikeysPair)
      (before before' pubs prvs : List (List Str)) (hash : Str) (pair' : MultikeysPair)
      → length before ≡ sys
      → length before' ≡ sys
      → length counts ≤ length pubs
      → length counts ≤ length prvs
      → generate_counts lib will_asymkex sys counts
          (with_keys base (before ++ pubs) (before' ++ prvs) hash)
        ≡ ok tt pair'
      → with_keys base
          (before ++ publics will_asymkex sys counts pubs)
          (before' ++ privates will_asymkex sys counts prvs)
          (if any_made will_asymkex sys counts then [] else hash)
        ≡ pair'
  unfolding generate_counts
  rounds-added will_asymkex sys [] base before before' pubs prvs hash pair' e e' few few' h = cc h
  rounds-added will_asymkex sys (c ∷ counts) base before before' [] prvs hash pair' e e' few few'
        h =
      absurd (omega (arith, few))
  rounds-added will_asymkex sys (c ∷ counts) base before before' (ks ∷ pubs) [] hash pair' e e' few
        few' h =
      absurd (omega (arith, few'))
  rounds-added will_asymkex sys (c ∷ counts) base before before' (ks ∷ pubs) (ps ∷ prvs) hash pair'
        e e' few few' h =
      let start = with_keys base (before ++ (ks ∷ pubs)) (before' ++ (ps ∷ prvs)) hash in
      let count = how_many_made will_asymkex sys c in
      let made = keypairs lib sys count 0 in
      let ks' = ks ++ map (λ (k : KeyPair). k.public_key) made in
      let ps' = ps ++ map (λ (k : KeyPair). k.private_key) made in
      let (u, p, first, rest) = bind_inversion (generate_at lib will_asymkex sys c) _ start h in
      let stepped =
        generate-extended lib sys count ks ps start p (get_elem?-place before pubs sys ks e)
          (get_elem?-place before' prvs sys ps e')
          (generate_at-generate will_asymkex sys c start p first) in
      let placed : with_keys base ((before ++ (ks' ∷ [])) ++ pubs) ((before' ++ (ps' ∷ [])) ++ prvs)
            (hash_after count hash)
          ≡ p =
        rw
          (
            append_assoc before (ks' ∷ []) pubs,
            append_assoc before' (ps' ∷ []) prvs,
            sym (set-place before pubs sys ks ks' e),
            sym (set-place before' prvs sys ps ps' e'),
          )
          stepped in
      let done =
        rounds-added will_asymkex (sys + 1) counts base (before ++ (ks' ∷ []))
          (before' ++ (ps' ∷ [])) pubs prvs (hash_after count hash) pair'
          (omega (arith, e, length-append before (ks' ∷ [])))
          (omega (arith, e', length-append before' (ps' ∷ []))) (omega (arith, few))
          (omega (arith, few'))
          (subst (λ r. generate_counts lib will_asymkex (sys + 1) counts r ≡ ok tt pair')
            (sym placed) rest) in
      rw
        (
          sym (hash_after-any count (any_made will_asymkex (sys + 1) counts) hash),
          sym (append_assoc before (ks' ∷ []) (publics will_asymkex (sys + 1) counts pubs)),
          sym (append_assoc before' (ps' ∷ []) (privates will_asymkex (sys + 1) counts prvs)),
        )
        done

  -- generate over the counts of all systems, where it succeeds from a pair with full arrays: in each system,
  -- the public and the private keys of the pair are followed by those of as many new pairs of its generator as
  -- were asked for; with will_asymkex off only in X25519 and SIDH, and with it on also in Ed25519 and both
  -- NTRU systems. In every other system they stay as they are. The kept hash of the public keys is dropped
  -- where any pair is made and kept where none is, and nothing else changes.
  pub generate_counts-added :
      (will_asymkex : Bool) (counts : List ℕ) (pair pair' : MultikeysPair)
      → IsArray pair.m_pub
      → IsArray pair.m_prv
      → length counts ≡ system_type_end
      → generate_counts lib will_asymkex 0 counts pair ≡ ok tt pair'
      → pair' ≡ record {
        m_pub = record (pair.m_pub) {
          m_cryptolists_general =
              added lib
                (λ (k : KeyPair). k.public_key)
                will_asymkex
                0
                counts
                pair.m_pub.m_cryptolists_general;
          m_hash_cached = if any_made will_asymkex 0 counts then [] else pair.m_pub.m_hash_cached;
        };
        m_prv = record (pair.m_prv) {
          m_cryptolists_general =
              added lib
                (λ (k : KeyPair). k.private_key)
                will_asymkex
                0
                counts
                pair.m_prv.m_cryptolists_general;
        };
      }
  generate_counts-added will_asymkex counts pair pair' array array' full h = sym (
      rounds-added will_asymkex 0 counts pair [] [] pair.m_pub.m_cryptolists_general
        pair.m_prv.m_cryptolists_general pair.m_pub.m_hash_cached pair' refl refl
        (omega (arith, array, full)) (omega (arith, array', full)) h)
