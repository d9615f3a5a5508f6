-- ===== src/Crypto/Stream/Systems.antt =====
-- The loop of c_stream::calculate_KCT (src/crypto/crypto.cpp) over the systems, at both sides.
use galaxy.Prelude.{
  ℕ, zero, suc, ◌+◌, ◌<◌, ◌≤◌, ◌≡◌, sym, Bool, true, false, ◌||◌, List, [], ◌∷◌, ◌==◌,
  if◌then◌else◌, length, get_elem?, some, set, arith, ==_iff, Bool-cases, inl, inr, ◌⊎◌,
}
use galaxy.Outcome.{Outcome, ok, Error}
use galaxy.Try.{Try, value, throws, ◌>>=◌, Try-cases, bind_value}
use galaxy.Serialize.Generator.{Str}
use galaxy.Crypto.Systems.{int_to_enum, t_crypto_system_type_to_id, HasId, system_type_end}
use galaxy.Crypto.Fingerprint.{hash1_size}
use galaxy.Crypto.MultiCryptoStrings.{MultiCryptoStrings, IsArray, at, get_count_keys_in_system}
use galaxy.Crypto.MultiCryptoStrings.Save.{Saveable}
use galaxy.Crypto.KeyPairs.{MultikeysPair}
use galaxy.Crypto.Kex.{Agreements, Kex, Round, ntru_send_round, ntru_receive_round, kex_system}
use galaxy.Crypto.Kex.Agreement.{
  Documented, Matching, Sized, kex_of, get_elem?-below, Agrees, Agrees-value, Agrees-bind,
}
use galaxy.Crypto.Kex.Symmetry.{Early, kex_system-Agrees}
use galaxy.Crypto.Stream.{Stream, kex_at, kex_systems}

-- The keys of a system in an array of collections that can be saved.
pub record Counted (keys : MultiCryptoStrings) (sys : ℕ) : Type 0 where
  pub count : ℕ
  pub counts : get_count_keys_in_system keys sys ≡ value count
  pub few : count < 0xffff_ffff_ffff_ffff
  pub named : 0 < count → HasId sys

saved_system :
    (ix n : ℕ) (systems : List (List Str)) (keys : List Str)
    → Saveable ix systems
    → get_elem? systems n ≡ some keys
    → 0 < length keys
    → HasId (ix + n) × (length keys < 0xffff_ffff_ffff_ffff)
saved_system ix n [] keys h e some_keys = cc (e)
saved_system ix zero ([] ∷ systems) keys h e some_keys = ground (arith, e, some_keys)
saved_system ix zero ((k ∷ ks) ∷ systems) keys h e some_keys =
    let same : k ∷ ks ≡ keys = cc e in
    let here : ix + 0 ≡ ix = omega arith in (rw here h.0, rw (sym same) h.1.0)
saved_system ix (suc n) ([] ∷ systems) keys h e some_keys =
    let next : ix + 1 + n ≡ ix + suc n = omega arith in
    rw (sym next) (saved_system (ix + 1) n systems keys h e some_keys)
saved_system ix (suc n) ((k ∷ ks) ∷ systems) keys h e some_keys =
    let next : ix + 1 + n ≡ ix + suc n = omega arith in
    rw (sym next) (saved_system (ix + 1) n systems keys h.2 e some_keys)

pub system-Counted :
    (keys : MultiCryptoStrings) (sys : ℕ)
    → IsArray keys
    → Saveable 0 keys.m_cryptolists_general
    → sys < system_type_end
    → Counted keys sys
unfolding get_count_keys_in_system at
system-Counted keys sys array saveable below =
    let (system, there) =
      get_elem?-below keys.m_cryptolists_general sys (omega (arith, array, below)) in
    record {
      count = length system;
      counts = ground (arith, there);
      few = elim (Bool-cases (length system == 0)) [
        | inl t ↦ omega (arith, (==_iff _ _).0 t)
        | inr f ↦
            (saved_system 0 sys keys.m_cryptolists_general system saveable there
              (ground (arith, f))).1
      ];
      named = λ h.
          let from_zero : 0 + sys ≡ sys = omega arith in
          rw (sym from_zero)
            (saved_system 0 sys keys.m_cryptolists_general system saveable there h).0;
    }

number_cases :
    (sys : ℕ) → ((e : Error) × (int_to_enum sys ≡ throws e)) ⊎ (int_to_enum sys ≡ value sys)
unfolding int_to_enum
number_cases sys = ground arith

-- What a round of the loop computes, without the stream.
module _ (lib : Agreements) (self : MultikeysPair) (them : MultiCryptoStrings) where
  added : Round lib → ℕ → Kex → Try Kex
  added ntru_round sys kex = elim (int_to_enum sys) [
    | throws e ↦ value kex
    | value sys_enum ↦ do
      key_count_a ← get_count_keys_in_system self.m_pub sys_enum
      key_count_b ← get_count_keys_in_system them sys_enum
      if key_count_a == 0 || (key_count_b == 0) then value kex else do
        sys_id ← t_crypto_system_type_to_id sys_enum
        kex_system lib self them ntru_round sys_enum key_count_a key_count_b kex
  ]

  -- A call of the loop computes `kex`, and changes at most the counts of the stream.
  abbrev pub Computes :
      {Nonce : Type 0} → (Stream Nonce → Outcome (Stream Nonce) Kex) → Kex → Type 0
  Computes {Nonce} m kex =
      (stream : Stream Nonce)
      → (count : List ℕ) × (m stream ≡ ok kex (record stream { m_cryptolists_count = count }))

  kex_at-added :
      {Nonce : Type 0} (should_count : Bool) (ntru_round : Round lib) (sys : ℕ) (kex kex' : Kex)
      → added ntru_round sys kex ≡ value kex'
      → Computes {Nonce = Nonce} (kex_at lib self them should_count ntru_round sys kex) kex'
  unfolding kex_at added
  kex_at-added should_count ntru_round sys kex kex' h stream = elim (Try-cases (int_to_enum sys)) [
    | inr (e, other) ↦ (stream.m_cryptolists_count, ground (arith, other, h))
    | inl (sys_enum, number) ↦ elim (Try-cases (get_count_keys_in_system self.m_pub sys_enum)) [
      | inr (e, fails) ↦ absurd (ground (arith, number, fails, h))
      | inl (a, count_a) ↦ elim (Try-cases (get_count_keys_in_system them sys_enum)) [
        | inr (e, fails) ↦ absurd (ground (arith, number, count_a, fails, h))
        | inl (b, count_b) ↦ elim (Bool-cases (a == 0 || (b == 0))) [
          | inl none' ↦
              (stream.m_cryptolists_count, ground (arith, number, count_a, count_b, none', h))
          | inr both ↦ elim (Try-cases (t_crypto_system_type_to_id sys_enum)) [
            | inr (e, fails) ↦ absurd (ground (arith, number, count_a, count_b, both, fails, h))
            | inl (id, has) ↦ (
              if should_count
                  then set stream.m_cryptolists_count sys 1
                  else stream.m_cryptolists_count,
              elim (Bool-cases should_count) [
                | inl yes' ↦ ground (arith, number, count_a, count_b, both, has, yes', h)
                | inr no' ↦ ground (arith, number, count_a, count_b, both, has, no', h)
              ],
            )
          ]
        ]
      ]
    ]
  ]

  -- The loop, without the stream.
  pub added_systems : Round lib → ℕ → ℕ → Kex → Try Kex
  added_systems ntru_round zero sys kex = value kex
  added_systems ntru_round (suc systems) sys kex = do
    kex' ← added ntru_round sys kex
    added_systems ntru_round systems (sys + 1) kex'

  pub kex_systems-added_systems :
      {Nonce : Type 0} (should_count : Bool) (ntru_round : Round lib) (systems sys : ℕ)
      (kex kex' : Kex)
      → added_systems ntru_round systems sys kex ≡ value kex'
      → Computes {Nonce = Nonce}
          (kex_systems lib self them should_count ntru_round systems sys kex)
          kex'
  unfolding kex_systems added_systems
  kex_systems-added_systems should_count ntru_round zero sys kex kex' h stream =
      (stream.m_cryptolists_count, ground (arith, h))
  kex_systems-added_systems should_count ntru_round (suc systems) sys kex kex' h stream =
      let (kex'', first, rest) =
        bind_value (added ntru_round sys kex) (added_systems ntru_round systems (sys + 1)) h in
      let (count, at_first) = kex_at-added should_count ntru_round sys kex kex'' first stream in
      let (count', at_rest) =
        kex_systems-added_systems should_count ntru_round systems (sys + 1) kex'' kex' rest
          (record stream { m_cryptolists_count = count }) in
      (count', ground (arith, at_first, at_rest))

module _ {lib : Agreements} {IsKeyPair : ℕ → Str → Str → Type 0} (d : Documented lib IsKeyPair)
    (alice bob : MultikeysPair) (ma : Matching IsKeyPair alice) (mb : Matching IsKeyPair bob)
    (random : ℕ → Str) (sized : Sized random)
    (known_a : (sys : ℕ) → sys < system_type_end → Counted alice.m_pub sys)
    (known_b : (sys : ℕ) → sys < system_type_end → Counted bob.m_pub sys) where
  added-Agrees :
      (sys : ℕ) (accum : Str) (passwords : List Str)
      → sys < system_type_end
      → length accum ≡ hash1_size
      → Early sys passwords
      → Agrees
          (Early (sys + 1))
          (added lib alice bob.m_pub (ntru_send_round lib random) sys (kex_of accum passwords))
          (λ received.
            added lib bob alice.m_pub (ntru_receive_round lib received) sys (kex_of accum []))
          passwords
  unfolding added
  added-Agrees sys accum passwords below l early =
      let later : Early (sys + 1) passwords = ((λ h. early.0 (omega (arith, h))), early.1) in
      let a = known_a sys below in
      let b = known_b sys below in
      elim (number_cases sys) [
        | inl (e, other) ↦ rw (added, other) (Agrees-value accum passwords l later)
        | inr number ↦ elim (Bool-cases (a.count == 0 || (b.count == 0))) [
          | inl none' ↦
              let none'' : (b.count == 0 || (a.count == 0)) ≡ true = ground (arith, none') in
              rw (added, number, a.counts, b.counts, ◌>>=◌, none', none'')
                (Agrees-value accum passwords l later)
          | inr both ↦
              let both' : (b.count == 0 || (a.count == 0)) ≡ false = ground (arith, both) in
              let some_a : 0 < a.count = ground (arith, both) in
              let some_b : 0 < b.count = ground (arith, both) in
              let (id, has) = a.named some_a in
              rw (added, number, a.counts, b.counts, ◌>>=◌, both, both', has)
                (kex_system-Agrees d alice bob ma mb random sized sys a.count b.count a.counts
                  b.counts some_a some_b a.few b.few accum passwords l early)
        ]
      ]

  pub added_systems-Agrees :
      (systems sys : ℕ) (accum : Str) (passwords : List Str)
      → sys + systems ≤ system_type_end
      → length accum ≡ hash1_size
      → Early sys passwords
      → Agrees
          (λ p. length p < 0xffff_ffff_ffff_ffff)
          (added_systems lib alice bob.m_pub
            (ntru_send_round lib random)
            systems
            sys
            (kex_of accum passwords))
          (λ received.
            added_systems lib bob alice.m_pub
              (ntru_receive_round lib received)
              systems
              sys
              (kex_of accum []))
          passwords
  unfolding added_systems
  added_systems-Agrees zero sys accum passwords below l early =
      Agrees-value accum passwords l early.1
  added_systems-Agrees (suc systems) sys accum passwords below l early =
      Agrees-bind (added_systems lib alice bob.m_pub (ntru_send_round lib random) systems (sys + 1))
        (λ received.
          added_systems lib bob alice.m_pub (ntru_receive_round lib received) systems (sys + 1))
        (added-Agrees sys accum passwords (omega (arith, below)) l early)
        (λ accum' sent l' early'.
          added_systems-Agrees systems (sys + 1) accum' sent (omega (arith, below)) l' early')
