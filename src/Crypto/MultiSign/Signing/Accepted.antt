-- ===== src/Crypto/MultiSign/Signing/Accepted.antt =====
-- What multi_sign signs with private keys, multi_sign_verify accepts with their public keys.
use galaxy.Prelude.{
  ℕ, suc, ◌+◌, ◌≡◌, refl, sym, ap, ◌∙◌, ◌⊎◌, inl, inr, Bool-cases, length-append, true, List, [],
  ◌∷◌, ◌++◌, map, replicate, some, get_elem?, length, append_assoc, ◌==◌, if◌then◌else◌, arith,
  subst, set_same, get_elem?-place, set-place,
}
use galaxy.Outcome.{ok}
use galaxy.Try.{Try, Try-cases, value}
use galaxy.Serialize.Generator.{Str}
use galaxy.Crypto.Systems.{ed25519, ntru_sign, int_to_enum, enum_is_valid_value, system_type_end}
use galaxy.Crypto.MultiCryptoStrings.{MultiCryptoStrings, empty, use_signature}
use galaxy.Crypto.KeyPairs.Generated.{Pairs}
use galaxy.Crypto.MultiSign.{
  Verifiers, cryptosystem_sign_allowed, multi_sign_verify, verify_at, verify_systems,
}
use galaxy.Crypto.MultiSign.Save.RoundTrip.{with_list, add_signature_vec-with_list}
use galaxy.Crypto.MultiSign.Signed.{accepts, Signed, no_keys, by_key, Signed-system}
use galaxy.Crypto.MultiSign.Signing.{
  Signers, sign_each, multi_sign_system, sign_at, sign_systems, multi_sign,
}

map_empty :
    (lists : List (List Str)) → map {B = List Str} (λ keys. []) lists ≡ replicate (length lists) []
map_empty [] = refl
map_empty (keys ∷ lists) = ap (◌∷◌ []) (map_empty lists)

-- A collection of signatures.
abbrev signatures : List (List Str) → MultiCryptoStrings
signatures lists = record (empty use_signature) { m_cryptolists_general = lists }

module _ (signers : Signers) (lib : Verifiers) (IsKeyPair : ℕ → Str → Str → Type 0)
    (msg : Str) where
  -- The system is one for signing, and compiled in.
  abbrev pub Usable : ℕ → Type 0
  Usable sys = (sys ≡ ed25519) ⊎ ((sys ≡ ntru_sign) × (signers.enable_crypto_ntru ≡ true))

  abbrev pub sign_by : ℕ → Str → Str → Try Str
  sign_by sys m prv =
      if sys == ed25519 then signers.crypto_sign_detached m prv else signers.ntru_sign_with m prv

  -- Signing with a private key succeeds, and its public key verifies the signature.
  abbrev pub Documented : Type 0
  Documented =
      (sys : ℕ) (prv pub_key : Str)
      → Usable sys
      → IsKeyPair sys prv pub_key
      → (signature : Str) × (sign_by sys msg prv ≡ value signature)
        × (accepts lib msg sys signature msg pub_key ≡ true)

  -- The keys of one system: none, or pairs for signing.
  abbrev pub Ready : ℕ → List Str → List Str → Type 0
  Ready sys prvs pubs = ((prvs ≡ []) × (pubs ≡ [])) ⊎ (Usable sys × Pairs IsKeyPair sys pubs prvs)

  abbrev pub AllReady : ℕ → List (List Str) → List (List Str) → Type 0
  AllReady sys [] [] = Unit {0}
  AllReady sys [] (pubs ∷ all_pubs) = ⊥
  AllReady sys (prvs ∷ all_prvs) [] = ⊥
  AllReady sys (prvs ∷ all_prvs) (pubs ∷ all_pubs) =
      Ready sys prvs pubs × AllReady (sys + 1) all_prvs all_pubs

  Usable-enum :
      (sys : ℕ)
      → Usable sys
      → (int_to_enum sys ≡ value sys) × (cryptosystem_sign_allowed sys ≡ true)
  unfolding int_to_enum enum_is_valid_value cryptosystem_sign_allowed
  Usable-enum sys (inl e) = rw e (refl, refl)
  Usable-enum sys (inr (e, on)) = rw e (refl, refl)

  module _ (documented : Documented) where
    sign_each-Signed :
        (sys : ℕ) (prvs pubs : List Str)
        → Usable sys
        → Pairs IsKeyPair sys pubs prvs
        → (signs : List Str) × (sign_each signers msg (sign_by sys) prvs ≡ value signs)
          × Signed lib msg (accepts lib msg sys) signs pubs
          × (length signs ≡ length pubs)
    unfolding sign_each
    sign_each-Signed sys [] [] usable pairs = ([], refl, no_keys, refl)
    sign_each-Signed sys [] (k ∷ pubs) usable pairs = absurd pairs
    sign_each-Signed sys (p ∷ prvs) [] usable pairs = absurd pairs
    sign_each-Signed sys (p ∷ prvs) (k ∷ pubs) usable (pair, pairs) =
        let (sign, made, good) = documented sys p k usable pair in
        let (signs, more, all, sized) = sign_each-Signed sys prvs pubs usable pairs in
        (sign ∷ signs, ground (arith, made, more), by_key good all, ap suc sized)

    multi_sign_system-sign_each :
        (sys : ℕ) (p : Str) (prvs : List Str)
        → Usable sys
        → multi_sign_system signers msg sys (p ∷ prvs)
          ≡ sign_each signers msg (sign_by sys) (p ∷ prvs)
    unfolding multi_sign_system
    multi_sign_system-sign_each sys p prvs (inl e) = rw e (ground arith)
    multi_sign_system-sign_each sys p prvs (inr (e, on)) = rw e (ground (arith, on))

    -- One round: the signatures that it adds are verified by the same round of the verification.
    abbrev Accepted : ℕ → List Str → List Str → List Str → Type 0
    Accepted sys prvs pubs signs =
        ((self : MultiCryptoStrings)
          → get_elem? self.m_cryptolists_general sys ≡ some []
          → sign_at signers msg sys prvs self ≡ ok tt (with_list sys signs self))
        × (verify_at lib msg sys signs pubs ≡ value tt)

    skipped :
        (sys : ℕ) (self : MultiCryptoStrings)
        → get_elem? self.m_cryptolists_general sys ≡ some []
        → sign_at signers msg sys [] self ≡ ok tt (with_list sys [] self)
    unfolding sign_at
    skipped sys self there =
        let same =
          ap (λ lists. ok tt (record self { m_cryptolists_general = lists }))
            (sym (set_same self.m_cryptolists_general sys [] there)) in
        elim (Try-cases (int_to_enum sys)) [
          | inl (sys_enum, e) ↦ ground (arith, e) ∙ same
          | inr (x, e) ↦ ground (arith, e) ∙ same
        ]

    verify_none : (sys : ℕ) → verify_at lib msg sys [] [] ≡ value tt
    unfolding verify_at
    verify_none sys = elim (Try-cases (int_to_enum sys)) [
      | inr (x, e) ↦ ground (arith, e)
      | inl (sys_enum, e) ↦ elim (Bool-cases (cryptosystem_sign_allowed sys_enum)) [
        | inl t ↦ ground (arith, e, t, Signed-system lib msg sys_enum [] [] refl t no_keys)
        | inr f ↦ ground (arith, e, f)
      ]
    ]

    signed_round :
        (sys : ℕ) (p : Str) (prvs signs : List Str) (self : MultiCryptoStrings)
        → Usable sys
        → sign_each signers msg (sign_by sys) (p ∷ prvs) ≡ value signs
        → get_elem? self.m_cryptolists_general sys ≡ some []
        → sign_at signers msg sys (p ∷ prvs) self ≡ ok tt (with_list sys signs self)
    unfolding sign_at
    signed_round sys p prvs signs self usable made there =
        let (known, allowed) = Usable-enum sys usable in
        ground (
          arith,
          known,
          allowed,
          multi_sign_system-sign_each sys p prvs usable,
          made,
          add_signature_vec-with_list sys signs [] self there,
        )

    verified_round :
        (sys : ℕ) (signs pubs : List Str)
        → Usable sys
        → Signed lib msg (accepts lib msg sys) signs pubs
        → length signs ≡ length pubs
        → verify_at lib msg sys signs pubs ≡ value tt
    unfolding verify_at
    verified_round sys signs pubs usable all sized =
        let (known, allowed) = Usable-enum sys usable in
        ground
          (arith, known, allowed, sized, Signed-system lib msg sys signs pubs sized allowed all)

    round-Accepted :
        (sys : ℕ) (prvs pubs : List Str)
        → Ready sys prvs pubs
        → (signs : List Str) × Accepted sys prvs pubs signs
    round-Accepted sys prvs pubs (inl (e, f)) =
        rw (e, f) ([], ((λ self there. skipped sys self there), verify_none sys))
    round-Accepted sys [] [] (inr (usable, pairs)) =
        ([], ((λ self there. skipped sys self there), verify_none sys))
    round-Accepted sys [] (k ∷ pubs) (inr (usable, pairs)) = absurd pairs
    round-Accepted sys (p ∷ prvs) pubs (inr (usable, pairs)) =
        let (signs, made, all, sized) = sign_each-Signed sys (p ∷ prvs) pubs usable pairs in
        (
          signs,
          (
            (λ self there. signed_round sys p prvs signs self usable made there),
            verified_round sys signs pubs usable all sized,
          ),
        )

    -- The rounds from `sys` on, behind the systems that are done.
    rounds-Accepted :
        (sys : ℕ) (all_prvs all_pubs before : List (List Str))
        → length before ≡ sys
        → AllReady sys all_prvs all_pubs
        → (all_signs : List (List Str)) × (sign_systems signers msg sys all_prvs
              (signatures (before ++ map (λ prvs. []) all_prvs))
            ≡ ok tt (signatures (before ++ all_signs)))
          × (verify_systems lib msg sys all_signs all_pubs ≡ value tt)
          × (length all_signs ≡ length all_pubs)
    unfolding sign_systems verify_systems
    rounds-Accepted sys [] [] before e ready = ([], refl, refl, refl)
    rounds-Accepted sys [] (pubs ∷ all_pubs) before e ready = absurd ready
    rounds-Accepted sys (prvs ∷ all_prvs) [] before e ready = absurd ready
    rounds-Accepted sys (prvs ∷ all_prvs) (pubs ∷ all_pubs) before e (here, later) =
        let after = map {B = List Str} (λ prvs. []) all_prvs in
        let (signs, (made, good)) = round-Accepted sys prvs pubs here in
        let (all_signs, more, all_good, sized) =
          rounds-Accepted (sys + 1) all_prvs all_pubs (before ++ (signs ∷ []))
            (omega (arith, length-append before (signs ∷ []), e)) later in
        let first =
          made (signatures (before ++ ([] ∷ after))) (get_elem?-place before after sys [] e) in
        (
          signs ∷ all_signs,
          ground (
            arith,
            first,
            set-place before after sys [] signs e,
            append_assoc before (signs ∷ []) after,
            append_assoc before (signs ∷ []) all_signs,
            more,
          ),
          ground (arith, good, all_good),
          ap suc sized,
        )

    -- A message is signed with private keys, which stand in all systems of the arrays; each system has none, or
    -- is Ed25519 or NTRU with NTRU compiled in, and has as many public keys as private ones, pair by pair.
    -- Signing with each private key succeeds, and its public key verifies the signature. Then multi_sign
    -- succeeds, and multi_sign_verify accepts its signatures for the message and the public keys.
    pub multi_sign-accepted :
        (private_keys public_keys : MultiCryptoStrings)
        → length private_keys.m_cryptolists_general ≡ system_type_end
        → AllReady 0 private_keys.m_cryptolists_general public_keys.m_cryptolists_general
        → (multi_signature : MultiCryptoStrings) × (multi_sign signers msg private_keys
            ≡ value multi_signature)
          × (multi_sign_verify lib msg multi_signature public_keys ≡ value tt)
    unfolding multi_sign multi_sign_verify
    multi_sign-accepted private_keys public_keys array ready =
        let (all_signs, made, good, sized) =
          rounds-Accepted 0 private_keys.m_cryptolists_general public_keys.m_cryptolists_general []
            refl ready in
        let empty_again : map {B = List Str} (λ prvs. []) private_keys.m_cryptolists_general
            ≡ replicate system_type_end [] =
          map_empty private_keys.m_cryptolists_general
          ∙ ap (λ n. replicate {A = List Str} n []) array in
        let begun : sign_systems signers msg 0 private_keys.m_cryptolists_general
              (empty use_signature)
            ≡ ok tt (signatures all_signs) =
          subst
            (λ lists.
              sign_systems signers msg 0 private_keys.m_cryptolists_general (signatures lists)
              ≡ ok tt (signatures all_signs))
            empty_again made in
        (signatures all_signs, ground (arith, begun), ground (arith, good, sized))
