-- ===== src/Crypto/KeyPairs/Generated.antt =====
-- The keys that c_multikeys_PAIR::generate (src/crypto/multikeys.cpp) makes.
use galaxy.Prelude.{
  ℕ, zero, suc, ◌+◌, ◌≡◌, refl, sym, ap, ◌∙◌, subst, Bool, List, [], ◌∷◌, ◌++◌, some, get_elem?,
  set, replicate, length, arith, Option-cases, inl, inr, Bool-cases, ◌==◌, ◌⊎◌,
}
use galaxy.Outcome.{bind_inversion, ok}
use galaxy.Try.{value, lift, lift_ok, Try-cases}
use galaxy.Serialize.Generator.{Str}
use galaxy.Crypto.Systems.{system_type_end, int_to_enum, t_crypto_system_type_is_asymkex}
use galaxy.Crypto.MultiCryptoStrings.{IsArray, at, add_key, set_hash_dirty, serialize_bin, use_open}
use galaxy.Crypto.KeyPairs.{
  KeyPair, Generators, MultikeysPair, no_keys, on_pub, add_public_and_private, generate_key_pair,
  generate_pairs, generate, generate_at, generate_counts,
}

length-set :
    (lists : List (List Str)) (n : ℕ) (keys : List Str) → length (set lists n keys) ≡ length lists
length-set [] n keys = refl
length-set (l ∷ lists) zero keys = refl
length-set (l ∷ lists) (suc n) keys = ap suc (length-set lists n keys)

module _ (IsKeyPair : ℕ → Str → Str → Type 0) where
  -- The public and the private keys of a system, one by one.
  abbrev pub Pairs : ℕ → List Str → List Str → Type 0
  Pairs sys [] [] = Unit {0}
  Pairs sys [] (p ∷ ps) = ⊥
  Pairs sys (k ∷ ks) [] = ⊥
  Pairs sys (k ∷ ks) (p ∷ ps) = IsKeyPair sys p k × Pairs sys ks ps

  abbrev pub Aligned : ℕ → List (List Str) → List (List Str) → Type 0
  Aligned sys [] [] = Unit {0}
  Aligned sys [] (ps ∷ prvs) = ⊥
  Aligned sys (ks ∷ pubs) [] = ⊥
  Aligned sys (ks ∷ pubs) (ps ∷ prvs) = Pairs sys ks ps × Aligned (sys + 1) pubs prvs

  Pairs-append :
      (sys : ℕ) (ks ps : List Str) (k p : Str)
      → Pairs sys ks ps
      → IsKeyPair sys p k
      → Pairs sys (ks ++ (k ∷ [])) (ps ++ (p ∷ []))
  Pairs-append sys [] [] k p h new = (new, tt)
  Pairs-append sys [] (q ∷ ps) k p h new = absurd h
  Pairs-append sys (l ∷ ks) [] k p h new = absurd h
  Pairs-append sys (l ∷ ks) (q ∷ ps) k p h new = (h.0, Pairs-append sys ks ps k p h.1 new)

  Aligned-set :
      (sys n : ℕ) (pubs prvs : List (List Str)) (ks ps : List Str) (k p : Str)
      → Aligned sys pubs prvs
      → get_elem? pubs n ≡ some ks
      → get_elem? prvs n ≡ some ps
      → IsKeyPair (sys + n) p k
      → Aligned sys (set pubs n (ks ++ (k ∷ []))) (set prvs n (ps ++ (p ∷ [])))
  Aligned-set sys n [] [] ks ps k p h e f new = h
  Aligned-set sys n [] (x ∷ prvs) ks ps k p h e f new = absurd h
  Aligned-set sys n (x ∷ pubs) [] ks ps k p h e f new = absurd h
  Aligned-set sys zero (x ∷ pubs) (y ∷ prvs) ks ps k p h e f new =
      let same : x ≡ ks = cc e in
      let same' : y ≡ ps = cc f in
      let here : sys + 0 ≡ sys = omega arith in
      (
        Pairs-append sys ks ps k p (rw (sym same, sym same') h.0)
            (subst (λ s. IsKeyPair s p k) here new),
        h.1,
      )
  Aligned-set sys (suc n) (x ∷ pubs) (y ∷ prvs) ks ps k p h e f new =
      let next : sys + suc n ≡ sys + 1 + n = omega arith in
      (
        h.0,
        Aligned-set (sys + 1) n pubs prvs ks ps k p h.1 e f (subst (λ s. IsKeyPair s p k) next new),
      )

  pub Pairs-get :
      (sys n : ℕ) (ks ps : List Str) (k : Str)
      → Pairs sys ks ps
      → get_elem? ks n ≡ some k
      → (p : Str) × (get_elem? ps n ≡ some p) × IsKeyPair sys p k
  Pairs-get sys n [] ps k h e = cc e
  Pairs-get sys n (l ∷ ks) [] k h e = absurd h
  Pairs-get sys zero (l ∷ ks) (q ∷ ps) k h e =
      let same : l ≡ k = cc e in (q, refl, rw (sym same) h.0)
  Pairs-get sys (suc n) (l ∷ ks) (q ∷ ps) k h e = Pairs-get sys n ks ps k h.1 e

  pub Aligned-get :
      (sys n : ℕ) (pubs prvs : List (List Str)) (ks : List Str)
      → Aligned sys pubs prvs
      → get_elem? pubs n ≡ some ks
      → (ps : List Str) × (get_elem? prvs n ≡ some ps) × Pairs (sys + n) ks ps
  Aligned-get sys n [] prvs ks h e = cc e
  Aligned-get sys n (x ∷ pubs) [] ks h e = absurd h
  Aligned-get sys zero (x ∷ pubs) (y ∷ prvs) ks h e =
      let same : x ≡ ks = cc e in
      let here : sys + 0 ≡ sys = omega arith in (y, refl, rw (here, sym same) h.0)
  Aligned-get sys (suc n) (x ∷ pubs) (y ∷ prvs) ks h e =
      let next : sys + suc n ≡ sys + 1 + n = omega arith in
      rw next (Aligned-get (sys + 1) n pubs prvs ks h.1 e)

  Aligned-empty : (n sys : ℕ) → Aligned sys (replicate n []) (replicate n [])
  Aligned-empty zero sys = tt
  Aligned-empty (suc n) sys = (tt, Aligned-empty n (sys + 1))

  -- What holds of a pair that was generated: full arrays with the keys side by side, and no kept hash.
  pub record Generated (pair : MultikeysPair) : Type 0 where
    pub public_array : IsArray pair.m_pub
    pub private_array : IsArray pair.m_prv
    pub no_hash : pair.m_pub.m_hash_cached ≡ []
    pub open_use : pair.m_pub.m_crypto_use ≡ use_open
    pub aligned : Aligned 0 pair.m_pub.m_cryptolists_general pair.m_prv.m_cryptolists_general

  pub no_keys-Generated : Generated no_keys
  no_keys-Generated = record {
    public_array = refl;
    private_array = refl;
    no_hash = refl;
    open_use = refl;
    aligned = Aligned-empty system_type_end 0;
  }

  add_public_and_private-Generated :
      (sys : ℕ) (pubkey prvkey : Str) (pair pair' : MultikeysPair)
      → Generated pair
      → IsKeyPair sys prvkey pubkey
      → add_public_and_private sys pubkey prvkey pair ≡ ok tt pair'
      → Generated pair'
  unfolding add_public_and_private add_key at
  add_public_and_private-Generated sys pubkey prvkey pair pair' g new h =
      elim (Option-cases (get_elem? pair.m_pub.m_cryptolists_general sys)) [
        | inl missing ↦ absurd (ground (arith, missing, h))
        | inr (ks, there) ↦
            let (ps, there', pairs) =
              Aligned-get 0 sys pair.m_pub.m_cryptolists_general pair.m_prv.m_cryptolists_general ks
                g.aligned there in
            let added : MultikeysPair = record {
              m_pub = record (pair.m_pub) {
                m_cryptolists_general =
                    set pair.m_pub.m_cryptolists_general sys (ks ++ (pubkey ∷ []));
              };
              m_prv = record (pair.m_prv) {
                m_cryptolists_general =
                    set pair.m_prv.m_cryptolists_general sys (ps ++ (prvkey ∷ []));
              };
            } in
            let from_zero : sys ≡ 0 + sys = omega arith in
            let same : added ≡ pair' = ground (arith, there, there', h) in
            subst Generated same (record {
              public_array = length-set pair.m_pub.m_cryptolists_general sys _ ∙ g.public_array;
              private_array = length-set pair.m_prv.m_cryptolists_general sys _ ∙ g.private_array;
              no_hash = g.no_hash;
              open_use = g.open_use;
              aligned =
                  Aligned-set 0 sys pair.m_pub.m_cryptolists_general
                    pair.m_prv.m_cryptolists_general ks ps pubkey prvkey g.aligned there there'
                    (subst (λ s. IsKeyPair s prvkey pubkey) from_zero new);
            })
      ]

  module _ (lib : Generators) where
    -- What is documented of the generators.
    abbrev pub Genuine : Type 0
    Genuine =
        (sys n : ℕ) → IsKeyPair sys (lib.keypair sys n).private_key (lib.keypair sys n).public_key

    module _ (genuine : Genuine) where
      generate_key_pair-IsKeyPair :
          (sys n : ℕ) (made : KeyPair)
          → generate_key_pair lib sys n ≡ value made
          → IsKeyPair sys made.private_key made.public_key
      unfolding generate_key_pair
      generate_key_pair-IsKeyPair sys n made h =
          let same : lib.keypair sys n ≡ made = ground (arith, h) in
          subst (λ m. IsKeyPair sys m.private_key m.public_key) same (genuine sys n)

      generate_pairs-Generated :
          (sys count n : ℕ) (pair pair' : MultikeysPair)
          → Generated pair
          → generate_pairs lib sys count n pair ≡ ok tt pair'
          → Generated pair'
      unfolding generate_pairs
      generate_pairs-Generated sys zero n pair pair' g h =
          let same : pair ≡ pair' = cc h in subst Generated same g
      generate_pairs-Generated sys (suc count) n pair pair' g h =
          let (made, p, first, rest) =
            bind_inversion (lift (generate_key_pair lib sys n)) _ pair h in
          let (u, q, second, later) =
            bind_inversion (add_public_and_private sys made.public_key made.private_key) _ p rest in
          let (is_made, kept) = lift_ok (generate_key_pair lib sys n) pair first in
          generate_pairs-Generated sys count (n + 1) q pair'
            (add_public_and_private-Generated sys made.public_key made.private_key p q
              (subst Generated kept g) (generate_key_pair-IsKeyPair sys n made is_made) second)
            later

      set_dirty-Generated :
          (pair pair' : MultikeysPair)
          → Generated pair
          → on_pub set_hash_dirty pair ≡ ok tt pair'
          → Generated pair'
      unfolding set_hash_dirty
      set_dirty-Generated pair pair' g h =
          let dirty : MultikeysPair = record pair {
            m_pub = record (pair.m_pub) { m_hash_cached = [] };
          } in
          let same : dirty ≡ pair' = cc h in
          subst Generated same (record {
            public_array = g.public_array;
            private_array = g.private_array;
            no_hash = refl;
            open_use = g.open_use;
            aligned = g.aligned;
          })

      generate-Generated :
          (sys count : ℕ) (pair pair' : MultikeysPair)
          → Generated pair
          → generate lib sys count pair ≡ ok tt pair'
          → Generated pair'
      unfolding generate
      generate-Generated sys zero pair pair' g h =
          let same : pair ≡ pair' = cc h in subst Generated same g
      generate-Generated sys (suc count) pair pair' g h =
          let (u, p, first, rest) =
            bind_inversion (generate_pairs lib sys (suc count) 0) _ pair h in
          let (u', q, second, later) = bind_inversion (on_pub set_hash_dirty) _ p rest in
          let same : q ≡ pair' = elim (Try-cases (serialize_bin q.m_pub)) [
            | inl (bytes, saved) ↦ ground (arith, saved, later)
            | inr (e, fails) ↦ absurd (ground (arith, fails, later))
          ] in
          subst Generated same (
            set_dirty-Generated p q (generate_pairs-Generated sys (suc count) 0 pair p g first)
              second)

      -- A round of generate makes no keys, or those of one system.
      generate_at-cases :
          (will_asymkex : Bool) (sys how_many : ℕ) (pair pair' : MultikeysPair)
          → generate_at lib will_asymkex sys how_many pair ≡ ok tt pair'
          → (pair ≡ pair') ⊎ ((s : ℕ) × (generate lib s how_many pair ≡ ok tt pair'))
      unfolding generate_at
      generate_at-cases will_asymkex sys how_many pair pair' h =
          elim (Try-cases (int_to_enum sys)) [
            | inr (e, other) ↦ inl (ground (arith, other, h))
            | inl (s, number) ↦ elim (Bool-cases (how_many == 0)) [
              | inl none' ↦ inl (ground (arith, number, none', h))
              | inr some' ↦ elim (Bool-cases will_asymkex) [
                | inl all ↦ inr (s, ground (arith, number, some', all, h))
                | inr not_all ↦ elim (Try-cases (t_crypto_system_type_is_asymkex s)) [
                  | inr (e, fails) ↦ absurd (ground (arith, number, some', not_all, fails, h))
                  | inl (asymkex, known) ↦ elim (Bool-cases asymkex) [
                    | inl skipped ↦ inl (ground (arith, number, some', not_all, known, skipped, h))
                    | inr wanted ↦ inr (s, ground (arith, number, some', not_all, known, wanted, h))
                  ]
                ]
              ]
            ]
          ]

      -- Full arrays, keys that belong together, no kept hash and open use are kept by generate.
      pub generate_counts-Generated :
          (will_asymkex : Bool) (sys : ℕ) (counts : List ℕ) (pair pair' : MultikeysPair)
          → Generated pair
          → generate_counts lib will_asymkex sys counts pair ≡ ok tt pair'
          → Generated pair'
      unfolding generate_counts
      generate_counts-Generated will_asymkex sys [] pair pair' g h =
          let same : pair ≡ pair' = cc h in subst Generated same g
      generate_counts-Generated will_asymkex sys (how_many ∷ counts) pair pair' g h =
          let (u, p, first, rest) =
            bind_inversion (generate_at lib will_asymkex sys how_many) _ pair h in
          let next : Generated p = elim (generate_at-cases will_asymkex sys how_many pair p first) [
            | inl same ↦ subst Generated same g
            | inr (s, made) ↦ generate-Generated s how_many pair p g made
          ] in
          generate_counts-Generated will_asymkex (sys + 1) counts p pair' next rest
