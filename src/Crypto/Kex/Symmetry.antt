-- ===== src/Crypto/Kex/Symmetry.antt =====
-- The rounds of the key exchange of src/crypto/crypto.cpp, at both sides.
use galaxy.Prelude.{
  ℕ, zero, suc, ◌+◌, ◌%◌, ◌<◌, ◌≤◌, ◌≡◌, refl, sym, ap, ◌∙◌, List, [], ◌∷◌, ◌++◌, append_assoc,
  append-nil, ◌==◌, length, length-append, max, arith, ==_iff,
}
use galaxy.Try.{Try, value, ◌>>=◌}
use galaxy.Serialize.Generator.{Str}
use galaxy.Crypto.Systems.{x25519, ntru_ees439ep1, sidh, t_crypto_system_type_to_id}
use galaxy.Crypto.Xor.{binary_string_xor, xor_each, length-xor_each, xor_each_swap}
use galaxy.Crypto.Fingerprint.{hash1_size}
use galaxy.Crypto.MultiCryptoStrings.{at, get_count_keys_in_system}
use galaxy.Crypto.KeyPairs.{MultikeysPair}
use galaxy.Crypto.Kex.{
  Agreements, Kexasym, Kex, kexasym_at, agreed_hash, join, Round, x25519_round, sidh_round,
  ntru_send_round, ntru_receive_round, kex_rounds, kex_system,
}
use galaxy.Crypto.Kex.Agreement.{
  Documented, Matching, Sized, tosend_of, kex_of, push_back_at-tosend_of, at-append, get_key-below,
  Agrees, Agrees-value, Agrees-bind, Agrees-weaken, if-Agrees,
}

xor_value : (s t : Str) → length s ≡ length t → binary_string_xor s t ≡ value (xor_each s t)
unfolding binary_string_xor
xor_value s t e = ground (arith, e)

-- The receiver finds the password of a round, whatever was sent later.
received_password :
    (passwords later : List Str) (password : Str) (n : ℕ)
    → length passwords ≡ n
    → (use_it : Str → Try Kex)
    → (kexasym_at b't' (tosend_of ((passwords ++ (password ∷ [])) ++ later)) >>= λ found.
        at found n >>= use_it)
      ≡ use_it password
unfolding kexasym_at
received_password [] later password n h use_it = rw (sym h, at-append [] later password) refl
received_password (p ∷ passwords) later password n h use_it =
    rw
      (
        sym h,
        append_assoc passwords (password ∷ []) later,
        at-append (p ∷ passwords) later password,
      )
      refl

-- NTRU is the only system that sends, so nothing is sent before it; and a vector of so many strings can
-- be written.
abbrev pub Early : ℕ → List Str → Type 0
Early sys passwords =
    (sys ≤ ntru_ees439ep1 → passwords ≡ []) × (length passwords < 0xffff_ffff_ffff_ffff)

module _ {lib : Agreements} {IsKeyPair : ℕ → Str → Str → Type 0}
    (d : Documented lib IsKeyPair) where
  -- The key that one round adds.
  abbrev mixed : Str → Str → Str → Str
  mixed secret a_pub b_pub =
      lib.hash1 (xor_each (xor_each (lib.hash1 secret) (lib.hash1 a_pub)) (lib.hash1 b_pub))

  same_length : (s t : Str) → length (lib.hash1 s) ≡ length (lib.hash1 t)
  same_length s t = d.hash1_length s ∙ sym (d.hash1_length t)

  -- The order of the two public keys does not matter.
  mixed_comm : (secret a_pub b_pub : Str) → mixed secret a_pub b_pub ≡ mixed secret b_pub a_pub
  mixed_comm secret a_pub b_pub = ap lib.hash1 (
      xor_each_swap (lib.hash1 secret) (lib.hash1 a_pub) (lib.hash1 b_pub)
        (same_length a_pub secret) (same_length b_pub secret))

  agreed_hash-mixed :
      (secret a_pub b_pub : Str)
      → agreed_hash lib secret a_pub b_pub ≡ value (mixed secret a_pub b_pub)
  unfolding agreed_hash
  agreed_hash-mixed secret a_pub b_pub =
      rw
        (
          xor_value (lib.hash1 secret) (lib.hash1 a_pub) (same_length secret a_pub),
          ◌>>=◌,
          xor_value (xor_each (lib.hash1 secret) (lib.hash1 a_pub)) (lib.hash1 b_pub)
              (length-xor_each (lib.hash1 secret) (lib.hash1 a_pub) ∙ same_length secret b_pub),
          ◌>>=◌,
        )
        refl

  join-mixed :
      (secret a_pub b_pub : Str) (kex : Kex)
      → length kex.kct_accum ≡ hash1_size
      → join lib secret a_pub b_pub kex
        ≡ value (record kex { kct_accum = xor_each kex.kct_accum (mixed secret a_pub b_pub) })
  unfolding join
  join-mixed secret a_pub b_pub kex l =
      rw
        (
          agreed_hash-mixed secret a_pub b_pub,
          ◌>>=◌,
          xor_value kex.kct_accum (mixed secret a_pub b_pub) (l ∙ sym (d.hash1_length _)),
          ◌>>=◌,
        )
        refl

  -- Both sides add the same secret: they agree.
  join-Agrees :
      {Sent : List Str → Type 0} (secret secret' a_pub b_pub accum : Str) (passwords : List Str)
      → secret ≡ secret'
      → length accum ≡ hash1_size
      → Sent passwords
      → Agrees Sent
          (join lib secret a_pub b_pub (kex_of accum passwords))
          (λ received. join lib secret' b_pub a_pub (kex_of accum []))
          passwords
  join-Agrees secret secret' a_pub b_pub accum passwords e l h = record {
    accum = xor_each accum (mixed secret a_pub b_pub);
    more = [];
    accum_length = length-xor_each accum _ ∙ l;
    sent = rw (append-nil passwords) h;
    sane = tt;
    sends = rw (append-nil passwords) (join-mixed secret a_pub b_pub (kex_of accum passwords) l);
    receives = λ later.
        rw (sym e, mixed_comm secret a_pub b_pub)
          (join-mixed secret b_pub a_pub (kex_of accum []) l);
  }

  -- What a system's round of the two sides has to satisfy: `Sent n` is what is known of the passwords
  -- before round `n`.
  abbrev pub RoundAgrees : ℕ → (ℕ → List Str → Type 0) → Round lib → (Kexasym → Round lib) → Type 0
  RoundAgrees sys Sent send receive =
      (n : ℕ) (accum a_prv a_pub b_prv b_pub : Str) (passwords : List Str)
      → IsKeyPair sys a_prv a_pub
      → IsKeyPair sys b_prv b_pub
      → length accum ≡ hash1_size
      → Sent n passwords
      → Agrees (Sent (n + 1)) (send n a_pub a_prv b_pub (kex_of accum passwords))
          (λ received. receive received n b_pub b_prv a_pub (kex_of accum [])) passwords

  x25519_round-RoundAgrees :
      (Sent : List Str → Type 0)
      → RoundAgrees x25519 (λ n. Sent) (x25519_round lib) (λ received. x25519_round lib)
  unfolding x25519_round
  x25519_round-RoundAgrees Sent n accum a_prv a_pub b_prv b_pub passwords a b l h =
      join-Agrees (lib.key_agreement a_prv b_pub) (lib.key_agreement b_prv a_pub) a_pub b_pub accum
        passwords (d.key_agreement_comm a b) l h

  sidh_round-RoundAgrees :
      (Sent : List Str → Type 0)
      → RoundAgrees sidh (λ n. Sent) (sidh_round lib) (λ received. sidh_round lib)
  unfolding sidh_round
  sidh_round-RoundAgrees Sent n accum a_prv a_pub b_prv b_pub passwords a b l h =
      join-Agrees (lib.sidh_agreement a_prv a_pub b_pub) (lib.sidh_agreement b_prv b_pub a_pub)
        a_pub b_pub accum passwords (d.sidh_agreement_comm a b) l h

  -- Before round `n` the initiator has sent `n` passwords.
  ntru_round-RoundAgrees :
      (random : ℕ → Str)
      → Sized random
      → RoundAgrees ntru_ees439ep1
          (λ n passwords. length passwords ≡ n)
          (ntru_send_round lib random)
          (ntru_receive_round lib)
  unfolding ntru_send_round ntru_receive_round t_crypto_system_type_to_id
  ntru_round-RoundAgrees random sized n accum a_prv a_pub b_prv b_pub passwords a b l h =
      let encrypted : Str = lib.ntru_encrypt (random n) b_pub in
      record {
        accum = xor_each accum (mixed (random n) a_pub b_pub);
        more = encrypted ∷ [];
        accum_length = length-xor_each accum _ ∙ l;
        sent = omega (arith, h, length-append passwords (encrypted ∷ []));
        sane = (d.ntru_encrypt-IsSane (random n) b_pub (sized n), tt);
        sends =
            rw (push_back_at-tosend_of passwords encrypted)
              (join-mixed (random n) a_pub b_pub (kex_of accum (passwords ++ (encrypted ∷ []))) l);
        receives = λ later.
            received_password passwords later encrypted n h (λ password.
              lib.ntru_decrypt password b_prv >>= λ decrypted.
              join lib decrypted b_pub a_pub (kex_of accum []))
            ∙ rw
                (
                  d.ntru_decrypt-ntru_encrypt (random n) (sized n) b,
                  ◌>>=◌,
                  mixed_comm (random n) a_pub b_pub,
                )
                (join-mixed (random n) b_pub a_pub (kex_of accum []) l);
      }

  module _ (alice bob : MultikeysPair) (ma : Matching IsKeyPair alice)
      (mb : Matching IsKeyPair bob) where
    -- The loops of both sides over the keys of one system.
    kex_rounds-Agrees :
        (sys : ℕ) (Sent : ℕ → List Str → Type 0) (send : Round lib) (receive : Kexasym → Round lib)
        (count_a count_b : ℕ)
        → RoundAgrees sys Sent send receive
        → get_count_keys_in_system alice.m_pub sys ≡ value count_a
        → get_count_keys_in_system bob.m_pub sys ≡ value count_b
        → 0 < count_a
        → 0 < count_b
        → (rounds n last : ℕ) (accum : Str) (passwords : List Str) → n + rounds ≡ last
        → length accum ≡ hash1_size
        → Sent n passwords
        → Agrees
            (Sent last)
            (kex_rounds lib alice bob.m_pub send sys count_a count_b rounds n
              (kex_of accum passwords))
            (λ received.
              kex_rounds lib bob alice.m_pub
                (receive received)
                sys
                count_b
                count_a
                rounds
                n
                (kex_of accum []))
            passwords
    unfolding kex_rounds
    kex_rounds-Agrees sys Sent send receive count_a count_b agrees ca cb pa pb zero n last accum
          passwords end l h =
        let same : n ≡ last = omega (arith, end) in Agrees-value accum passwords l (rw (sym same) h)
    kex_rounds-Agrees sys Sent send receive count_a count_b agrees ca cb pa pb (suc rounds) n last
          accum passwords end l h =
        let (a_pub, at_a) =
          get_key-below alice.m_pub sys count_a (n % count_a) ca (omega (arith, pa)) in
        let (b_pub, at_b) =
          get_key-below bob.m_pub sys count_b (n % count_b) cb (omega (arith, pb)) in
        let (a_prv, prv_a, pair_a) = ma sys (n % count_a) a_pub at_a in
        let (b_prv, prv_b, pair_b) = mb sys (n % count_b) b_pub at_b in
        let first = agrees n accum a_prv a_pub b_prv b_pub passwords pair_a pair_b l h in
        rw (at_a, at_b, prv_a, prv_b, ◌>>=◌)
          (Agrees-bind (kex_rounds lib alice bob.m_pub send sys count_a count_b rounds (n + 1))
            (λ received.
              kex_rounds lib bob alice.m_pub (receive received) sys count_b count_a rounds (n + 1))
            first
            (λ accum' sent l' h'.
              kex_rounds-Agrees sys Sent send receive count_a count_b agrees ca cb pa pb rounds
                (n + 1) last accum' sent (omega (arith, end)) l' h'))

    -- Both sides agree on what a system with keys at both of them adds.
    pub kex_system-Agrees :
        (random : ℕ → Str) (sized : Sized random) (sys count_a count_b : ℕ)
        → get_count_keys_in_system alice.m_pub sys ≡ value count_a
        → get_count_keys_in_system bob.m_pub sys ≡ value count_b
        → 0 < count_a
        → 0 < count_b
        → count_a < 0xffff_ffff_ffff_ffff
        → count_b < 0xffff_ffff_ffff_ffff
        → (accum : Str) (passwords : List Str) → length accum ≡ hash1_size
        → Early sys passwords
        → Agrees
            (Early (sys + 1))
            (kex_system lib alice bob.m_pub
              (ntru_send_round lib random)
              sys
              count_a
              count_b
              (kex_of accum passwords))
            (λ received.
              kex_system lib bob alice.m_pub
                (ntru_receive_round lib received)
                sys
                count_b
                count_a
                (kex_of accum []))
            passwords
    unfolding kex_system
    kex_system-Agrees random sized sys count_a count_b ca cb pa pb few_a few_b accum passwords l
          early =
        let rounds : max count_b count_a ≡ max count_a count_b = omega arith in
        if-Agrees (sys == x25519)
          (λ x.
            let name : sys ≡ x25519 = (==_iff sys x25519).0 x in
            rw rounds (
              Agrees-weaken (λ p e. ((λ h. e), omega (arith, ap length e)))
                (loops (λ n p. p ≡ []) (x25519_round lib) (λ received. x25519_round lib)
                  (rw name (x25519_round-RoundAgrees (λ p. p ≡ [])))
                  (early.0 (omega (arith, name))))))
          (λ not_x.
            if-Agrees (sys == ntru_ees439ep1)
              (λ t.
                let name : sys ≡ ntru_ees439ep1 = (==_iff sys ntru_ees439ep1).0 t in
                if-Agrees lib.enable_crypto_ntru
                  (λ on. rw rounds (
                    Agrees-weaken
                      (λ p e.
                        ((λ h. absurd (omega (arith, h, name))), omega (arith, e, few_a, few_b)))
                      (loops (λ n p. length p ≡ n) (ntru_send_round lib random)
                        (ntru_receive_round lib) (rw name (ntru_round-RoundAgrees random sized))
                        (ap length (early.0 (omega (arith, name)))))))
                  (λ off. nothing ((λ h. absurd (omega (arith, h, name))), early.1)))
              (λ not_t.
                if-Agrees (sys == sidh)
                  (λ s.
                    let name : sys ≡ sidh = (==_iff sys sidh).0 s in
                    if-Agrees lib.enable_crypto_sidh
                      (λ on. rw rounds (
                        Agrees-weaken (λ p e. ((λ h. absurd (omega (arith, h, name))), e))
                          (loops (λ n p. length p < 0xffff_ffff_ffff_ffff) (sidh_round lib)
                            (λ received. sidh_round lib)
                            (rw name
                              (sidh_round-RoundAgrees (λ p. length p < 0xffff_ffff_ffff_ffff)))
                            early.1)))
                      (λ off. nothing ((λ h. absurd (omega (arith, h, name))), early.1)))
                  (λ not_s. nothing ((λ h. early.0 (omega (arith, h))), early.1))))
      where
        loops :
            (Sent : ℕ → List Str → Type 0) (send : Round lib) (receive : Kexasym → Round lib)
            → RoundAgrees sys Sent send receive
            → Sent 0 passwords
            → Agrees
                (Sent (max count_a count_b))
                (kex_rounds lib alice bob.m_pub send sys count_a count_b
                  (max count_a count_b)
                  0
                  (kex_of accum passwords))
                (λ received.
                  kex_rounds lib bob alice.m_pub
                    (receive received)
                    sys
                    count_b
                    count_a
                    (max count_a count_b)
                    0
                    (kex_of accum []))
                passwords
        loops Sent send receive agrees h =
            kex_rounds-Agrees sys Sent send receive count_a count_b agrees ca cb pa pb
              (max count_a count_b) 0 (max count_a count_b) accum passwords (omega arith) l h

        nothing :
            Early (sys + 1) passwords
            → Agrees
                (Early (sys + 1))
                (value (kex_of accum passwords))
                (λ received. value (kex_of accum []))
                passwords
        nothing h = Agrees-value accum passwords l h
