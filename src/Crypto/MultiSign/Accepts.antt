-- ===== src/Crypto/MultiSign/Accepts.antt =====
-- What multi_sign_verify accepts.
use galaxy.Prelude.{
  ℕ, ◌+◌, ◌≡◌, ◌↔◌, refl, true, List, [], ◌∷◌, length, arith, Bool-cases, ◌⊎◌, inl, inr,
}
use galaxy.Outcome.{Error}
use galaxy.Try.{value, throws, bind_value}
use galaxy.Serialize.Generator.{Str}
use galaxy.Crypto.Systems.{int_to_enum}
use galaxy.Crypto.MultiCryptoStrings.{MultiCryptoStrings}
use galaxy.Crypto.MultiSign.{
  Verifiers, cryptosystem_sign_allowed, verify_at, verify_systems, multi_sign_verify,
}
use galaxy.Crypto.MultiSign.Signed.{accepts, Signed, system-Signed, Signed-system}

module _ (lib : Verifiers) (msg : Str) where
  -- What is asked of one crypto system: nothing of a number that is no enumerator, as many signatures as
  -- keys of every other, and of a signing system one signature that is accepted for each key.
  abbrev pub Verified : ℕ → List Str → List Str → Type 0
  Verified sys signs pubkeys =
      int_to_enum sys ≡ value sys
      → (length signs ≡ length pubkeys)
        × (cryptosystem_sign_allowed sys ≡ true
            → Signed lib msg (accepts lib msg sys) signs pubkeys)

  abbrev pub AllVerified : ℕ → List (List Str) → List (List Str) → Type 0
  AllVerified sys [] [] = Unit {0}
  AllVerified sys [] (pubkeys ∷ all_pubkeys) = ⊥
  AllVerified sys (signs ∷ all_signs) [] = ⊥
  AllVerified sys (signs ∷ all_signs) (pubkeys ∷ all_pubkeys) =
      Verified sys signs pubkeys × AllVerified (sys + 1) all_signs all_pubkeys

  enumerated :
      (sys : ℕ) → (int_to_enum sys ≡ value sys) ⊎ ((e : Error) × (int_to_enum sys ≡ throws e))
  unfolding int_to_enum
  enumerated sys = ground arith

  verify_at-Verified :
      (sys : ℕ) (signs pubkeys : List Str)
      → verify_at lib msg sys signs pubkeys ≡ value tt
      → Verified sys signs pubkeys
  unfolding verify_at
  verify_at-Verified sys signs pubkeys h number =
      let same : length signs ≡ length pubkeys = ground (arith, h, number) in
      (
        same,
        λ allowed.
            system-Signed lib msg sys signs pubkeys same allowed
              (ground (arith, h, number, same, allowed)),
      )

  Verified-verify_at :
      (sys : ℕ) (signs pubkeys : List Str)
      → Verified sys signs pubkeys
      → verify_at lib msg sys signs pubkeys ≡ value tt
  unfolding verify_at
  Verified-verify_at sys signs pubkeys v = elim (enumerated sys) [
    | inr (x, other) ↦ ground (arith, other)
    | inl number ↦
        let (same, signed) = v number in
        elim (Bool-cases (cryptosystem_sign_allowed sys)) [
          | inl allowed ↦ ground (
            arith,
            number,
            same,
            allowed,
            Signed-system lib msg sys signs pubkeys same allowed (signed allowed),
          )
          | inr not_allowed ↦ ground (arith, number, same, not_allowed)
        ]
  ]

  verify_systems-AllVerified :
      (sys : ℕ) (all_signs all_pubkeys : List (List Str))
      → length all_signs ≡ length all_pubkeys
      → (verify_systems lib msg sys all_signs all_pubkeys ≡ value tt)
        ↔ AllVerified sys all_signs all_pubkeys
  unfolding verify_systems
  verify_systems-AllVerified sys [] [] e = ((λ h. tt), λ v. refl)
  verify_systems-AllVerified sys [] (pubkeys ∷ all_pubkeys) e = absurd (omega (arith, e))
  verify_systems-AllVerified sys (signs ∷ all_signs) [] e = absurd (omega (arith, e))
  verify_systems-AllVerified sys (signs ∷ all_signs) (pubkeys ∷ all_pubkeys) e =
      let (to, fro) =
        verify_systems-AllVerified (sys + 1) all_signs all_pubkeys (omega (arith, e)) in
      (
        (λ h.
            let (u, first, rest) =
              bind_value (verify_at lib msg sys signs pubkeys)
                (λ u. verify_systems lib msg (sys + 1) all_signs all_pubkeys) h in
            (verify_at-Verified sys signs pubkeys first, to rest)),
        λ v. ground (arith, Verified-verify_at sys signs pubkeys v.0, fro v.1),
      )

  -- multi_sign_verify of signatures and keys for the same number of systems succeeds exactly where every
  -- enumerated system has as many signatures as keys, also one that is not for signing, and in Ed25519 and
  -- NTRU each signature is accepted for the message and the key at its place, NTRU being compiled in.
  pub multi_sign_verify-AllVerified :
      (all_signatures pubkeys : MultiCryptoStrings)
      → length all_signatures.m_cryptolists_general ≡ length pubkeys.m_cryptolists_general
      → (multi_sign_verify lib msg all_signatures pubkeys ≡ value tt)
        ↔ AllVerified 0 all_signatures.m_cryptolists_general pubkeys.m_cryptolists_general
  unfolding multi_sign_verify
  multi_sign_verify-AllVerified all_signatures pubkeys e =
      let (to, fro) =
        verify_systems-AllVerified 0 all_signatures.m_cryptolists_general
          pubkeys.m_cryptolists_general e in
      ((λ h. to (ground (arith, e, h))), λ v. ground (arith, e, fro v))
