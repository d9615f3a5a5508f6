-- ===== src/Crypto/Stream/Counts.antt =====
-- What c_stream::calculate_KCT (src/crypto/crypto.cpp) counts for the ephemeral keys.
use galaxy.Prelude.{
  ℕ, zero, suc, ◌+◌, ◌≡◌, refl, sym, ap, ◌∙◌, Bool, true, false, not, ◌||◌, List, [], ◌∷◌, ◌++◌,
  append_assoc, ◌==◌, if◌then◌else◌, length, length-append, map, set, replicate, arith, Bool-cases,
  inl, inr,
}
use galaxy.Outcome.{ok, Outcome-cases}
use galaxy.Try.{value, throws, Try-cases}
use galaxy.Crypto.Systems.{int_to_enum, t_crypto_system_type_to_id}
use galaxy.Crypto.MultiCryptoStrings.{MultiCryptoStrings, get_count_keys_in_system}
use galaxy.Crypto.KeyPairs.{MultikeysPair}
use galaxy.Crypto.Kex.{Agreements, Kex, Round, kex_system}
use galaxy.Crypto.Stream.{Stream, kex_at, kex_systems}

-- Both sides have keys in a system.
unfoldable pub used_at : MultiCryptoStrings → MultiCryptoStrings → ℕ → Bool
used_at mine theirs sys = elim (int_to_enum sys) [
  | throws e ↦ false
  | value sys_enum ↦ elim (get_count_keys_in_system mine sys_enum) [
    | throws e ↦ false
    | value a ↦ elim (get_count_keys_in_system theirs sys_enum) [
      | throws e ↦ false
      | value b ↦ not (a == 0 || (b == 0))
    ]
  ]
]

-- One for each system in which both sides have keys, and zero for each other.
unfoldable pub used_systems : MultiCryptoStrings → MultiCryptoStrings → ℕ → ℕ → List ℕ
used_systems mine theirs zero sys = []
used_systems mine theirs (suc systems) sys =
    (if used_at mine theirs sys then 1 else 0) ∷ used_systems mine theirs systems (sys + 1)

pub map_zero : (count : List ℕ) → map {B = ℕ} (λ c. 0) count ≡ replicate (length count) 0
map_zero [] = refl
map_zero (c ∷ count) = ap (◌∷◌ 0) (map_zero count)

set-middle :
    (before after : List ℕ) (sys x : ℕ)
    → length before ≡ sys
    → set (before ++ (0 ∷ after)) sys x ≡ before ++ (x ∷ after)
set-middle [] after sys x e = rw (sym e) refl
set-middle (b ∷ before) after sys x e = rw (sym e) (ap (◌∷◌ b) (set-middle before after _ x refl))

step-counts :
    (test : Bool) (before after count : List ℕ) (sys : ℕ)
    → length before ≡ sys
    → count ≡ before ++ (0 ∷ after)
    → (if test then set count sys 1 else count)
      ≡ (before ++ ((if test then 1 else 0) ∷ [])) ++ after
step-counts true before after count sys l e =
    rw (e, append_assoc before (1 ∷ []) after) (set-middle before after sys 1 l)
step-counts false before after count sys l e = e ∙ sym (append_assoc before (0 ∷ []) after)

module _ (lib : Agreements) (self : MultikeysPair) (them : MultiCryptoStrings) where
  kex_at-counts :
      {Nonce : Type 0} (round : Round lib) (sys : ℕ) (kex kex' : Kex)
      (stream stream' : Stream Nonce)
      → kex_at lib self them true round sys kex stream ≡ ok kex' stream'
      → stream'.m_cryptolists_count ≡ (
          if used_at self.m_pub them sys
          then set stream.m_cryptolists_count sys 1
          else stream.m_cryptolists_count)
  unfolding kex_at used_at
  kex_at-counts round sys kex kex' stream stream' h = elim (Try-cases (int_to_enum sys)) [
    | inr (e, other) ↦ ground (arith, other, h)
    | inl (sys_enum, number) ↦ elim (Try-cases (get_count_keys_in_system self.m_pub sys_enum)) [
      | inr (e, fails) ↦ ground (arith, number, fails, h)
      | inl (a, count_a) ↦ elim (Try-cases (get_count_keys_in_system them sys_enum)) [
        | inr (e, fails) ↦ ground (arith, number, count_a, fails, h)
        | inl (b, count_b) ↦ elim (Bool-cases (a == 0 || (b == 0))) [
          | inl none' ↦ ground (arith, number, count_a, count_b, none', h)
          | inr both ↦ elim (Try-cases (t_crypto_system_type_to_id sys_enum)) [
            | inr (e, fails) ↦ ground (arith, number, count_a, count_b, both, fails, h)
            | inl (id, has) ↦ elim (Try-cases (kex_system lib self them round sys_enum a b kex)) [
              | inr (e, fails) ↦ ground (arith, number, count_a, count_b, both, has, fails, h)
              | inl (kex'', adds) ↦ ground (arith, number, count_a, count_b, both, has, adds, h)
            ]
          ]
        ]
      ]
    ]
  ]

  kex_systems-counts :
      {Nonce : Type 0} (round : Round lib) (systems sys : ℕ) (kex kex' : Kex)
      (stream stream' : Stream Nonce) (before : List ℕ)
      → kex_systems lib self them true round systems sys kex stream ≡ ok kex' stream'
      → length before ≡ sys
      → stream.m_cryptolists_count ≡ before ++ replicate systems 0
      → stream'.m_cryptolists_count ≡ before ++ used_systems self.m_pub them systems sys
  unfolding kex_systems used_systems
  kex_systems-counts round zero sys kex kex' stream stream' before h l e = ground (arith, h, e)
  kex_systems-counts round (suc systems) sys kex kex' stream stream' before h l e =
      elim (Outcome-cases (kex_at lib self them true round sys kex stream)) [
        | inr (x, s, fails) ↦ ground (arith, fails, h)
        | inl (kex'', s, first) ↦
            let used : ℕ = if used_at self.m_pub them sys then 1 else 0 in
            let counted : s.m_cryptolists_count ≡ (before ++ (used ∷ [])) ++ replicate systems 0 =
              kex_at-counts round sys kex kex'' stream s first
              ∙ step-counts (used_at self.m_pub them sys) before (replicate systems 0)
                  stream.m_cryptolists_count sys l e in
            kex_systems-counts round systems (sys + 1) kex'' kex' s stream' (before ++ (used ∷ []))
              (ground (arith, first, h)) (omega (arith, l, length-append before (used ∷ [])))
              counted
            ∙ append_assoc before (used ∷ []) (used_systems self.m_pub them systems (sys + 1))
      ]

  -- The counts of a loop that starts with zeros.
  pub kex_systems-used_systems :
      {Nonce : Type 0} (should_count : Bool) (round : Round lib) (systems : ℕ) (kex kex' : Kex)
      (stream stream' : Stream Nonce)
      → kex_systems lib self them should_count round systems 0 kex stream ≡ ok kex' stream'
      → should_count ≡ true
      → stream.m_cryptolists_count ≡ replicate systems 0
      → stream'.m_cryptolists_count ≡ used_systems self.m_pub them systems 0
  kex_systems-used_systems true round systems kex kex' stream stream' h yes' zeros =
      kex_systems-counts round systems 0 kex kex' stream stream' [] h refl zeros
  kex_systems-used_systems false round systems kex kex' stream stream' h yes' zeros = cc yes'
