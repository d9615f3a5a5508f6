-- ===== src/Crypto/Stream.antt =====
-- class c_stream of src/crypto/crypto.cpp: one symmetrical stream between two collections of keys. The
-- ciphers are those of sodiumpp, parameters, and so are the nonces that they count.
pub mod Exchange
pub mod Systems
pub mod Agreement
pub mod Delivery
pub mod Counts
pub mod PacketStart
pub mod Tests
use galaxy.Prelude.{
  ℕ, zero, suc, ◌+◌, ◌≡◌, Bool, true, false, not, ◌||◌, List, [], ◌∷◌, ◌++◌, Option, none, some,
  leb, ◌==◌, if◌then◌else◌, length, replicate, map, set,
}
use galaxy.Outcome.{
  Outcome, ok, err, M, ◌>>=◌, ◌>>◌, return, throw, check, assert_abort, invalid_argument,
  undefined_behaviour,
}
use galaxy.Try.{Try, value, throws, lift}
use galaxy.StdMap.{str_less}
use galaxy.Serialize.Generator.{Str, Write, push_varstring}
use galaxy.Serialize.Parser.{Read, pop_varstring, skip_varstring}
use galaxy.Crypto.Systems.{system_type_end, int_to_enum, t_crypto_system_type_to_id}
use galaxy.Crypto.Fingerprint.{hash1_size, get_hash}
use galaxy.Crypto.MultiCryptoStrings.{
  MultiCryptoStrings, get_count_keys_in_system, get_count_of_systems, serialize_bin,
}
use galaxy.Crypto.KeyPairs.{MultikeysPair, Generators, generate_counts, no_keys}
use galaxy.Crypto.Kex.{
  Agreements, Kex, Kexasym, Round, ntru_send_round, ntru_receive_round, kex_system, locked_substr,
  parse_packetstart_kexasym, read_kexasym, write_kexasym, secretbox_keybytes,
}

-- sodiumpp's boxer and unboxer of a shared key. A nonce starts even or odd.
pub record Ciphers (Nonce : Type 0) : Type 0 where
  pub nonce_start : Bool → Nonce
  -- the nonce that follows one that was used by itself
  pub nonce_next : Nonce → Nonce
  -- the nonce of an unboxer (the first) after it was given another
  pub nonce_given : Nonce → Nonce → Nonce
  -- by the key, the nonce and the text
  pub box_with : Str → Nonce → Str → Str
  pub unbox_with : Str → Nonce → Str → Try Str

-- A sodiumpp::boxer or unboxer.
pub record Boxer (Nonce : Type 0) : Type 0 where
  pub nonce : Nonce
  pub secret_key : Str

pub record Stream (Nonce : Type 0) : Type 0 where
  pub m_kct : Str
  pub m_nonce_odd : Bool
  pub m_side_initiator : Bool
  pub m_packetstart_kexasym : Str
  pub m_packetstart_ide : Str
  pub m_cryptolists_count : List ℕ
  -- nullptr until the exchange
  pub m_boxer : Option (Boxer Nonce)
  pub m_unboxer : Option (Boxer Nonce)

-- The constructor.
abbrev pub new_stream : {Nonce : Type 0} → Bool → Stream Nonce
new_stream side_initiator = record {
  m_kct = replicate hash1_size 0;
  m_nonce_odd = false;
  m_side_initiator = side_initiator;
  m_packetstart_kexasym = [];
  m_packetstart_ide = [];
  m_cryptolists_count = replicate system_type_end 0;
  m_boxer = none;
  m_unboxer = none;
}

module _ (lib : Agreements) where
  -- get_hash of a const object; the hash that it caches there is that of the next call too.
  unfoldable pub hash_of : MultiCryptoStrings → Try Str
  hash_of keys = elim (get_hash lib.hash1 keys) [ ok hash _ ↦ value hash | err e _ ↦ throws e ]

  -- `self.m_pub > them`
  unfoldable pub calculate_nonce_odd : MultikeysPair → MultiCryptoStrings → Try Bool
  calculate_nonce_odd self them = elim (hash_of self.m_pub) [
    | throws e ↦ throws e
    | value mine ↦ elim (hash_of them) [
      | throws e ↦ throws e
      | value theirs ↦ value (str_less theirs mine)
    ]
  ]

  -- The NTRU round of this side, after the checks of the packet start.
  unfoldable pub ntru_round_of : (ℕ → Str) → Str → Bool → Try (Round lib)
  ntru_round_of passwords packetstart side_initiator =
      if side_initiator
      then (elim packetstart [
        | [] ↦ value (ntru_send_round lib passwords)
        | c ∷ rest ↦ throws invalid_argument
      ])
      else elim (parse_packetstart_kexasym packetstart) [
        | throws e ↦ throws e
        | value packetstart_kexasym ↦ elim (read_kexasym packetstart_kexasym) [
          | throws e ↦ throws e
          | value received ↦ value (ntru_receive_round lib received)
        ]
      ]

  module _ {Nonce : Type 0} (self : MultikeysPair) (them : MultiCryptoStrings)
      (should_count : Bool) where
    -- One round of the loop over the systems, with the NTRU round of this side.
    unfoldable pub kex_at : Round lib → ℕ → Kex → M (Stream Nonce) Kex
    kex_at ntru_round sys kex = elim (int_to_enum sys) [
      | throws e ↦ return kex
      | value sys_enum ↦ do
        key_count_a ← lift (get_count_keys_in_system self.m_pub sys_enum)
        key_count_b ← lift (get_count_keys_in_system them sys_enum)
        if key_count_a == 0 || (key_count_b == 0) then return kex else do
          lift (t_crypto_system_type_to_id sys_enum)
          λ stream. ok tt (
              if should_count
              then record stream { m_cryptolists_count = set stream.m_cryptolists_count sys 1 }
              else stream)
          lift (kex_system lib self them ntru_round sys_enum key_count_a key_count_b kex)
    ]

    -- The loop from the number `sys` on, by the systems that are left.
    unfoldable pub kex_systems : Round lib → ℕ → ℕ → Kex → M (Stream Nonce) Kex
    kex_systems ntru_round zero sys kex = return kex
    kex_systems ntru_round (suc systems) sys kex = do
      kex' ← kex_at ntru_round sys kex
      kex_systems ntru_round systems (sys + 1) kex'

    unfoldable pub calculate_kct : (ℕ → Str) → Str → M (Stream Nonce) Str
    calculate_kct passwords packetstart = do
      check (get_count_of_systems self.m_prv == get_count_of_systems them) assert_abort
      check (get_count_of_systems self.m_prv == get_count_of_systems self.m_pub) assert_abort
      ntru_round ←
          λ stream. lift (ntru_round_of passwords packetstart stream.m_side_initiator) stream
      λ stream. ok tt (
          if should_count
          then record stream { m_cryptolists_count = map (λ count. 0) stream.m_cryptolists_count }
          else stream)
      kex ←
          kex_systems ntru_round (get_count_of_systems self.m_pub) 0
            (record { kct_accum = replicate hash1_size 0; tosend = [] })
      let kct_ready_full = lib.hash1 kex.kct_accum
      check (leb secretbox_keybytes (length kct_ready_full)) assert_abort
      kct_ready ← lift (locked_substr kct_ready_full secretbox_keybytes)
      packetstart_kexasym ← lift (write_kexasym kex.tosend)
      λ stream. ok kct_ready (record stream { m_packetstart_kexasym = packetstart_kexasym })
