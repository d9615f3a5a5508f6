-- ===== src/Crypto/MultiSign/Tests.antt =====
-- A message signed by one Ed25519 key.
use galaxy.Prelude.{
  ℕ, ◌≡◌, ◌↔◌, refl, false, [], ◌∷◌, ◌++◌, replicate, str_eq, str_eq_self, inl, inr, set, arith,
}
use galaxy.Outcome.{ok}
use galaxy.Try.{value}
use galaxy.Serialize.Generator.{Str}
use galaxy.Crypto.MultiCryptoStrings.{
  MultiCryptoStrings, empty, use_open, use_secret, use_signature,
}
use galaxy.Crypto.Systems.{ed25519, ntru_sign}
use galaxy.Crypto.MultiSign.Save.{load_signatures, serialize_signatures}
use galaxy.Crypto.MultiSign.Save.RoundTrip.{load_signatures-serialize_signatures}
use galaxy.Crypto.MultiSign.Signing.{Signers, multi_sign}
use galaxy.Crypto.MultiSign.Signing.Accepted.{Documented, AllReady, multi_sign-accepted}
use galaxy.Crypto.MultiSign.{Verifiers, multi_sign_verify}
use galaxy.Crypto.MultiSign.Accepts.{AllVerified, multi_sign_verify-AllVerified}

-- A signature that is the key and the message.
abbrev joined : Verifiers
joined = record {
  crypto_sign_verify_detached = λ sign msg pubkey. str_eq sign (pubkey ++ msg);
  ntru_verify = λ sign msg pubkey. false;
  enable_crypto_ntru = false;
}

abbrev one_key : ℕ → Str → MultiCryptoStrings
one_key crypto_use key = record {
  m_cryptolists_general = replicate 6 [] ++ ((key ∷ []) ∷ replicate 25 []);
  m_hash_cached = [];
  m_crypto_use = crypto_use;
}

multi_sign_verify-AllVerified_example :
    (multi_sign_verify joined
        (7 ∷ [])
        (one_key use_signature (1 ∷ 7 ∷ []))
        (one_key use_open (1 ∷ []))
      ≡ value tt)
    ↔ AllVerified joined
        (7 ∷ [])
        0
        (replicate 6 [] ++ (((1 ∷ 7 ∷ []) ∷ []) ∷ replicate 25 []))
        (replicate 6 [] ++ (((1 ∷ []) ∷ []) ∷ replicate 25 []))
multi_sign_verify-AllVerified_example =
    multi_sign_verify-AllVerified joined (7 ∷ []) (one_key use_signature (1 ∷ 7 ∷ []))
      (one_key use_open (1 ∷ [])) refl

abbrev joins : Signers
joins = record {
  crypto_sign_detached = λ msg prv. value (prv ++ msg);
  ntru_sign_with = λ msg prv. value (prv ++ msg);
  enable_crypto_ntru = false;
}

abbrev Same : ℕ → Str → Str → Type 0
Same sys prv pubkey = prv ≡ pubkey

joins-Documented : (msg : Str) → Documented joins joined Same msg
joins-Documented msg sys prv pubkey (inl e) same =
    (prv ++ msg, rw e refl, rw (e, same) (str_eq_self (pubkey ++ msg)))
joins-Documented msg sys prv pubkey (inr (e, on)) same = absurd (cc on)

one_key-AllReady :
    AllReady joins joined Same
      (7 ∷ [])
      0
      (one_key use_secret (1 ∷ [])).m_cryptolists_general
      (one_key use_open (1 ∷ [])).m_cryptolists_general
one_key-AllReady = (
  inl (refl, refl),
  (
    inl (refl, refl),
    (
      inl (refl, refl),
      (
        inl (refl, refl),
        (
          inl (refl, refl),
          (
            inl (refl, refl),
            (
              inr (inl refl, (refl, tt)),
              (
                inl (refl, refl),
                (
                  inl (refl, refl),
                  (
                    inl (refl, refl),
                    (
                      inl (refl, refl),
                      (
                        inl (refl, refl),
                        (
                          inl (refl, refl),
                          (
                            inl (refl, refl),
                            (
                              inl (refl, refl),
                              (
                                inl (refl, refl),
                                (
                                  inl (refl, refl),
                                  (
                                    inl (refl, refl),
                                    (
                                      inl (refl, refl),
                                      (
                                        inl (refl, refl),
                                        (
                                          inl (refl, refl),
                                          (
                                            inl (refl, refl),
                                            (
                                              inl (refl, refl),
                                              (
                                                inl (refl, refl),
                                                (
                                                  inl (refl, refl),
                                                  (
                                                    inl (refl, refl),
                                                    (
                                                      inl (refl, refl),
                                                      (
                                                        inl (refl, refl),
                                                        (
                                                          inl (refl, refl),
                                                          (
                                                            inl (refl, refl),
                                                            (
                                                            inl (refl, refl),
                                                            (inl (refl, refl), tt),
                                                            ),
                                                          ),
                                                        ),
                                                      ),
                                                    ),
                                                  ),
                                                ),
                                              ),
                                            ),
                                          ),
                                        ),
                                      ),
                                    ),
                                  ),
                                ),
                              ),
                            ),
                          ),
                        ),
                      ),
                    ),
                  ),
                ),
              ),
            ),
          ),
        ),
      ),
    ),
  ),
)

multi_sign-accepted_example :
    (multi_signature : MultiCryptoStrings) × (multi_sign joins
        (7 ∷ [])
        (one_key use_secret (1 ∷ []))
      ≡ value multi_signature)
    × (multi_sign_verify joined (7 ∷ []) multi_signature (one_key use_open (1 ∷ [])) ≡ value tt)
multi_sign-accepted_example =
    multi_sign-accepted joins joined Same (7 ∷ []) (joins-Documented (7 ∷ []))
      (one_key use_secret (1 ∷ [])) (one_key use_open (1 ∷ [])) refl one_key-AllReady

load_signatures-serialize_signatures_example :
    (out : Str) × (serialize_signatures (one_key use_signature (1 ∷ 7 ∷ [])) ≡ value out)
    × (load_signatures out (empty use_signature)
        ≡ ok tt (record (empty use_signature) {
          m_cryptolists_general =
              set (set (replicate 32 []) ed25519 ((1 ∷ 7 ∷ []) ∷ [])) ntru_sign [];
        }))
load_signatures-serialize_signatures_example =
    load_signatures-serialize_signatures (one_key use_signature (1 ∷ 7 ∷ [])) (empty use_signature)
      ((1 ∷ 7 ∷ []) ∷ []) [] [] [] refl refl (omega arith, (omega arith, tt)) (omega arith, tt) refl
      refl
