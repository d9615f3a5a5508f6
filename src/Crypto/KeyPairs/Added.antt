-- ===== src/Crypto/KeyPairs/Added.antt =====
-- Which keys c_multikeys_PAIR::generate (src/crypto/multikeys.cpp) adds, and what becomes of the kept hash.
use galaxy.Prelude.{
  ℕ, zero, suc, ◌+◌, ◌≡◌, sym, ap, ◌∙◌, subst, Bool, true, false, not, ◌&&◌, ◌||◌, List, [], ◌∷◌,
  ◌++◌, append_assoc, append-nil, map, some, get_elem?, set, get_elem?-set, set-set, set_same, ◌==◌,
  if◌then◌else◌, arith, inl, inr,
}
use galaxy.Outcome.{bind_inversion, ok}
use galaxy.Try.{value, lift, lift_ok, Try-cases}
use galaxy.Serialize.Generator.{Str}
use galaxy.Crypto.Systems.{x25519, ed25519, ntru_ees439ep1, ntru_sign, sidh}
use galaxy.Crypto.MultiCryptoStrings.{at, add_key, set_hash_dirty, serialize_bin}
use galaxy.Crypto.KeyPairs.{
  KeyPair, Generators, MultikeysPair, on_pub, add_public_and_private, generate_key_pair,
  generate_pairs, generate,
}

-- The systems that keys are made in: all with generators, or those that are known to need no asymmetric
-- exchange.
abbrev pub is_wanted : Bool → ℕ → Bool
is_wanted will_asymkex sys =
    sys == x25519
    || (sys == sidh)
    || (will_asymkex && (sys == ed25519 || (sys == ntru_ees439ep1) || (sys == ntru_sign)))

-- How many pairs are made in a system, of those that were asked for.
abbrev pub how_many_made : Bool → ℕ → ℕ → ℕ
how_many_made will_asymkex sys how_many = if is_wanted will_asymkex sys then how_many else 0

-- Whether any pair is made, for counts from the system `sys` on.
abbrev pub any_made : Bool → ℕ → List ℕ → Bool
any_made will_asymkex sys [] = false
any_made will_asymkex sys (how_many ∷ counts) =
    not (how_many_made will_asymkex sys how_many == 0) || any_made will_asymkex (sys + 1) counts

-- A pair with these keys and kept hash, and the rest from `base`.
abbrev pub with_keys : MultikeysPair → List (List Str) → List (List Str) → Str → MultikeysPair
with_keys base pubs prvs hash = record {
  m_pub = record (base.m_pub) { m_cryptolists_general = pubs; m_hash_cached = hash };
  m_prv = record (base.m_prv) { m_cryptolists_general = prvs };
}

-- A pair with the pairs of `made` behind the keys `ks` and `ps` of a system.
abbrev pub extended : ℕ → List KeyPair → List Str → List Str → MultikeysPair → MultikeysPair
extended sys made ks ps pair =
    with_keys pair
      (set pair.m_pub.m_cryptolists_general sys (ks ++ map (λ (k : KeyPair). k.public_key) made))
      (set pair.m_prv.m_cryptolists_general sys (ps ++ map (λ (k : KeyPair). k.private_key) made))
      pair.m_pub.m_hash_cached

-- The kept hash after `count` more pairs.
abbrev pub hash_after : ℕ → Str → Str
hash_after zero hash = hash
hash_after (suc count) hash = []

module _ (lib : Generators) where
  -- `count` pairs of one generator, from its call number `n` on.
  abbrev pub keypairs : ℕ → ℕ → ℕ → List KeyPair
  keypairs sys zero n = []
  keypairs sys (suc count) n = lib.keypair sys n ∷ keypairs sys count (n + 1)

  -- The keys with those that are made behind them, by the member of each pair that is wanted.
  abbrev pub added : (KeyPair → Str) → Bool → ℕ → List ℕ → List (List Str) → List (List Str)
  added member will_asymkex sys [] lists = lists
  added member will_asymkex sys (how_many ∷ counts) [] = []
  added member will_asymkex sys (how_many ∷ counts) (keys ∷ lists) =
      (keys ++ map member (keypairs sys (how_many_made will_asymkex sys how_many) 0))
      ∷ added member will_asymkex (sys + 1) counts lists

  pub made-keypair :
      (sys n : ℕ) (made : KeyPair)
      → generate_key_pair lib sys n ≡ value made
      → (lib.keypair sys n ≡ made) × (is_wanted true sys ≡ true)
  unfolding generate_key_pair
  made-keypair sys n made h = (ground (arith, h), ground (arith, h))

  add-extended :
      (sys : ℕ) (made : KeyPair) (ks ps : List Str) (pair pair' : MultikeysPair)
      → get_elem? pair.m_pub.m_cryptolists_general sys ≡ some ks
      → get_elem? pair.m_prv.m_cryptolists_general sys ≡ some ps
      → add_public_and_private sys made.public_key made.private_key pair ≡ ok tt pair'
      → extended sys (made ∷ []) ks ps pair ≡ pair'
  unfolding add_public_and_private add_key at
  add-extended sys made ks ps pair pair' there there' h = ground (arith, there, there', h)

  extended-extended :
      (sys : ℕ) (one : KeyPair) (more : List KeyPair) (ks ps : List Str) (pair : MultikeysPair)
      → extended sys (one ∷ more) ks ps pair
        ≡ extended sys more
            (ks ++ (one.public_key ∷ []))
            (ps ++ (one.private_key ∷ []))
            (extended sys (one ∷ []) ks ps pair)
  extended-extended sys one more ks ps pair =
      let pubs = map (λ (k : KeyPair). k.public_key) more in
      let prvs = map (λ (k : KeyPair). k.private_key) more in
      ground (
        arith,
        append_assoc ks (one.public_key ∷ []) pubs,
        append_assoc ps (one.private_key ∷ []) prvs,
        set-set pair.m_pub.m_cryptolists_general sys (ks ++ (one.public_key ∷ []))
            ((ks ++ (one.public_key ∷ [])) ++ pubs),
        set-set pair.m_prv.m_cryptolists_general sys (ps ++ (one.private_key ∷ []))
            ((ps ++ (one.private_key ∷ [])) ++ prvs),
      )

  generate_pairs-extended :
      (sys count n : ℕ) (ks ps : List Str) (pair pair' : MultikeysPair)
      → get_elem? pair.m_pub.m_cryptolists_general sys ≡ some ks
      → get_elem? pair.m_prv.m_cryptolists_general sys ≡ some ps
      → generate_pairs lib sys count n pair ≡ ok tt pair'
      → extended sys (keypairs sys count n) ks ps pair ≡ pair'
  unfolding generate_pairs
  generate_pairs-extended sys zero n ks ps pair pair' there there' h =
      rw
        (
          append-nil ks,
          append-nil ps,
          set_same pair.m_pub.m_cryptolists_general sys ks there,
          set_same pair.m_prv.m_cryptolists_general sys ps there',
        )
        (cc h)
  generate_pairs-extended sys (suc count) n ks ps pair pair' there there' h =
      let (made, p, first, rest) = bind_inversion (lift (generate_key_pair lib sys n)) _ pair h in
      let (u, q, second, later) =
        bind_inversion (add_public_and_private sys made.public_key made.private_key) _ p rest in
      let (is_made, kept) = lift_ok (generate_key_pair lib sys n) pair first in
      let one = lib.keypair sys n in
      let same : one ≡ made = (made-keypair sys n made is_made).0 in
      let adds : add_public_and_private sys one.public_key one.private_key pair ≡ ok tt q =
        subst
          (λ (k : KeyPair). add_public_and_private sys k.public_key k.private_key pair ≡ ok tt q)
          (sym same)
          (subst (λ r. add_public_and_private sys made.public_key made.private_key r ≡ ok tt q)
            (sym kept) second) in
      let next = extended sys (one ∷ []) ks ps pair in
      let stepped : next ≡ q = add-extended sys one ks ps pair q there there' adds in
      extended-extended sys one (keypairs sys count (n + 1)) ks ps pair
      ∙ generate_pairs-extended sys count (n + 1) (ks ++ (one.public_key ∷ []))
          (ps ++ (one.private_key ∷ [])) next pair'
          (get_elem?-set pair.m_pub.m_cryptolists_general sys _ there)
          (get_elem?-set pair.m_prv.m_cryptolists_general sys _ there')
          (subst (λ r. generate_pairs lib sys count (n + 1) r ≡ ok tt pair') (sym stepped) later)

  set_dirty-with_keys :
      (pair pair' : MultikeysPair)
      → on_pub set_hash_dirty pair ≡ ok tt pair'
      → with_keys pair pair.m_pub.m_cryptolists_general pair.m_prv.m_cryptolists_general [] ≡ pair'
  unfolding set_hash_dirty
  set_dirty-with_keys pair pair' h = cc h

  pub generate-extended :
      (sys count : ℕ) (ks ps : List Str) (pair pair' : MultikeysPair)
      → get_elem? pair.m_pub.m_cryptolists_general sys ≡ some ks
      → get_elem? pair.m_prv.m_cryptolists_general sys ≡ some ps
      → generate lib sys count pair ≡ ok tt pair'
      → extended sys (keypairs sys count 0) ks ps (
          with_keys pair pair.m_pub.m_cryptolists_general pair.m_prv.m_cryptolists_general
            (hash_after count pair.m_pub.m_hash_cached))
        ≡ pair'
  unfolding generate
  generate-extended sys zero ks ps pair pair' there there' h =
      rw
        (
          append-nil ks,
          append-nil ps,
          set_same pair.m_pub.m_cryptolists_general sys ks there,
          set_same pair.m_prv.m_cryptolists_general sys ps there',
        )
        (cc h)
  generate-extended sys (suc count) ks ps pair pair' there there' h =
      let (u, p, first, rest) = bind_inversion (generate_pairs lib sys (suc count) 0) _ pair h in
      let (u', q, second, later) = bind_inversion (on_pub set_hash_dirty) _ p rest in
      let same : q ≡ pair' = elim (Try-cases (serialize_bin q.m_pub)) [
        | inl (bytes, saved) ↦ ground (arith, saved, later)
        | inr (e, fails) ↦ absurd (ground (arith, fails, later))
      ] in
      let made = generate_pairs-extended sys (suc count) 0 ks ps pair p there there' first in
      let dirty = set_dirty-with_keys p q second in
      ap (λ r. with_keys r r.m_pub.m_cryptolists_general r.m_prv.m_cryptolists_general []) made
      ∙ dirty
      ∙ same
