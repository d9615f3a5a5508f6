-- ===== src/Crypto/MultiSign/Signed.antt =====
-- One system's signatures against its keys.
use galaxy.Prelude.{
  ℕ, ◌≡◌, ◌≢◌, ◌<◌, refl, sym, ◌∙◌, Bool, true, false, ◌&&◌, List, [], ◌∷◌, ◌==◌, if◌then◌else◌,
  length, arith, Bool-cases, inl, inr,
}
use galaxy.Try.{value}
use galaxy.Serialize.Generator.{Str}
use galaxy.Crypto.Systems.{ed25519}
use galaxy.Crypto.MultiSign.{
  Verifiers, cryptosystem_sign_allowed, verify_each, multi_sign_verify_system,
}

module _ (lib : Verifiers) (msg : Str) where
  -- A signature by a key of a signing system.
  abbrev pub accepts : ℕ → Str → Str → Str → Bool
  accepts sys sign m pubkey =
      if sys == ed25519
      then lib.crypto_sign_verify_detached sign m pubkey
      else lib.enable_crypto_ntru && lib.ntru_verify sign m pubkey

  -- One signature for each key.
  pub data Signed (verify : Str → Str → Str → Bool) : List Str → List Str → Type 0 where
    no_keys : Signed verify [] []
    by_key :
        {sign pubkey : Str} {signs pubkeys : List Str}
        → verify sign msg pubkey ≡ true
        → Signed verify signs pubkeys
        → Signed verify (sign ∷ signs) (pubkey ∷ pubkeys)

  verify_each-Signed :
      (verify : Str → Str → Str → Bool) (signs pubkeys : List Str)
      → length pubkeys ≡ length signs
      → verify_each lib msg verify signs pubkeys ≡ value tt
      → Signed verify signs pubkeys
  unfolding verify_each
  verify_each-Signed verify [] [] e h = no_keys
  verify_each-Signed verify (sign ∷ signs) [] e h = absurd (omega (arith, e))
  verify_each-Signed verify [] (pubkey ∷ pubkeys) e h = absurd (omega (arith, e))
  verify_each-Signed verify (sign ∷ signs) (pubkey ∷ pubkeys) e h =
      elim (Bool-cases (verify sign msg pubkey)) [
        | inl t ↦
            by_key t
              (verify_each-Signed verify signs pubkeys (omega (arith, e)) (ground (arith, t, h)))
        | inr f ↦ ground (arith, f, h)
      ]

  Signed-verify_each :
      (verify : Str → Str → Str → Bool) {signs pubkeys : List Str}
      → Signed verify signs pubkeys
      → verify_each lib msg verify signs pubkeys ≡ value tt
  unfolding verify_each
  Signed-verify_each verify no_keys = refl
  Signed-verify_each verify (by_key t more) = ground (arith, t, Signed-verify_each verify more)

  Signed-same :
      {verify other : Str → Str → Str → Bool} {signs pubkeys : List Str}
      → ((s k : Str) → verify s msg k ≡ other s msg k)
      → Signed verify signs pubkeys
      → Signed other signs pubkeys
  Signed-same same no_keys = no_keys
  Signed-same same (by_key {sign} {pubkey} t more) =
      by_key (sym (same sign pubkey) ∙ t) (Signed-same same more)

  sizes : (s t : List Str) → length s ≡ length t → (length t == length s) ≡ true
  sizes s t e = ground (arith, e)

  ed_case :
      (sys : ℕ) (signs pubkeys : List Str)
      → length signs ≡ length pubkeys
      → 0 < length pubkeys
      → (sys == ed25519) ≡ true
      → multi_sign_verify_system lib msg sys signs pubkeys
        ≡ verify_each lib msg lib.crypto_sign_verify_detached signs pubkeys
  unfolding multi_sign_verify_system
  ed_case sys signs pubkeys e some_keys t = ground (arith, e, some_keys, t)

  ntru_case :
      (sys : ℕ) (signs pubkeys : List Str)
      → length signs ≡ length pubkeys
      → 0 < length pubkeys
      → (sys == ed25519) ≡ false
      → cryptosystem_sign_allowed sys ≡ true
      → lib.enable_crypto_ntru ≡ true
      → multi_sign_verify_system lib msg sys signs pubkeys
        ≡ verify_each lib msg lib.ntru_verify signs pubkeys
  unfolding multi_sign_verify_system cryptosystem_sign_allowed
  ntru_case sys signs pubkeys e some_keys f allowed on =
      ground (arith, e, some_keys, f, allowed, on)

  no_ntru_case :
      (sys : ℕ) (signs pubkeys : List Str)
      → length signs ≡ length pubkeys
      → 0 < length pubkeys
      → (sys == ed25519) ≡ false
      → cryptosystem_sign_allowed sys ≡ true
      → lib.enable_crypto_ntru ≡ false
      → multi_sign_verify_system lib msg sys signs pubkeys ≢ value tt
  unfolding multi_sign_verify_system cryptosystem_sign_allowed
  no_ntru_case sys signs pubkeys e some_keys f allowed off h =
      ground (arith, e, some_keys, f, allowed, off, h)

  no_keys_case : (sys : ℕ) → multi_sign_verify_system lib msg sys [] [] ≡ value tt
  unfolding multi_sign_verify_system
  no_keys_case sys = ground arith

  pub system-Signed :
      (sys : ℕ) (signs pubkeys : List Str)
      → length signs ≡ length pubkeys
      → cryptosystem_sign_allowed sys ≡ true
      → multi_sign_verify_system lib msg sys signs pubkeys ≡ value tt
      → Signed (accepts sys) signs pubkeys
  system-Signed sys [] [] e allowed h = no_keys
  system-Signed sys (sign ∷ signs) [] e allowed h = absurd (omega (arith, e))
  system-Signed sys [] (pubkey ∷ pubkeys) e allowed h = absurd (omega (arith, e))
  system-Signed sys (sign ∷ signs) (pubkey ∷ pubkeys) e allowed h =
      elim (Bool-cases (sys == ed25519)) [
        | inl t ↦
            Signed-same (λ s k. rw t refl)
              (verify_each-Signed lib.crypto_sign_verify_detached (sign ∷ signs) (pubkey ∷ pubkeys)
                (sym e) (sym (ed_case sys (sign ∷ signs) (pubkey ∷ pubkeys) e (omega arith) t) ∙ h))
        | inr f ↦ elim (Bool-cases lib.enable_crypto_ntru) [
          | inl on ↦
              Signed-same (λ s k. rw (f, on) refl)
                (verify_each-Signed lib.ntru_verify (sign ∷ signs) (pubkey ∷ pubkeys) (sym e) (
                  sym (ntru_case sys (sign ∷ signs) (pubkey ∷ pubkeys) e (omega arith) f allowed on)
                  ∙ h))
          | inr off ↦
              absurd
                (no_ntru_case sys (sign ∷ signs) (pubkey ∷ pubkeys) e (omega arith) f allowed off h)
        ]
      ]

  pub Signed-system :
      (sys : ℕ) (signs pubkeys : List Str)
      → length signs ≡ length pubkeys
      → cryptosystem_sign_allowed sys ≡ true
      → Signed (accepts sys) signs pubkeys
      → multi_sign_verify_system lib msg sys signs pubkeys ≡ value tt
  Signed-system sys [] [] e allowed no_keys = no_keys_case sys
  Signed-system sys [] (pubkey ∷ pubkeys) e allowed x = elim x [ ]
  Signed-system sys (sign ∷ signs) [] e allowed x = elim x [ ]
  Signed-system sys (sign ∷ signs) (pubkey ∷ pubkeys) e allowed (by_key t more) =
      elim (Bool-cases (sys == ed25519)) [
        | inl ed ↦
            ed_case sys (sign ∷ signs) (pubkey ∷ pubkeys) e (omega arith) ed
            ∙ Signed-verify_each lib.crypto_sign_verify_detached
                (Signed-same (λ s k. rw ed refl) (by_key t more))
        | inr f ↦ elim (Bool-cases lib.enable_crypto_ntru) [
          | inl on ↦
              ntru_case sys (sign ∷ signs) (pubkey ∷ pubkeys) e (omega arith) f allowed on
              ∙ Signed-verify_each lib.ntru_verify
                  (Signed-same (λ s k. rw (f, on) refl) (by_key t more))
          | inr off ↦ ground (arith, f, off, t)
        ]
      ]
