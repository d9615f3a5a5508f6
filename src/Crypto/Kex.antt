-- ===== src/Crypto/Kex.antt =====
-- The key exchange in c_stream::calculate_KCT of src/crypto/crypto.cpp: what one crypto system adds to
-- the key of a stream. The agreement of one pair of keys and the hash are libsodium's, NTRU's and SIDH's.
pub mod Agreement
pub mod Symmetry
use galaxy.Prelude.{
  ℕ, zero, suc, ◌+◌, ◌%◌, ◌≡◌, Bool, true, false, not, ◌||◌, List, [], ◌∷◌, ◌++◌, ltb, leb, ◌==◌,
  if◌then◌else◌, length, take, replicate, map, set, max,
}
use galaxy.Outcome.{ok, err, assert_abort, invalid_argument, runtime_error, out_of_range}
use galaxy.Try.{Try, value, throws, ◌>>=◌}
use galaxy.Serialize.Generator.{
  Str, push_map_object, push_vector_object, push_varstring, push_byte_u,
}
use galaxy.Serialize.Parser.{Read, parser_of_string, pop_varstring, pop_vector_object, pop_byte_u}
use galaxy.Serialize.Maps.{pop_map_object}
use galaxy.Crypto.Systems.{x25519, ntru_ees439ep1, sidh, int_to_enum, t_crypto_system_type_to_id}
use galaxy.Crypto.Xor.{binary_string_xor}
use galaxy.Crypto.Fingerprint.{hash1_size}
use galaxy.Crypto.MultiCryptoStrings.{
  MultiCryptoStrings, at, get_key, get_count_keys_in_system, get_count_of_systems,
}
use galaxy.Crypto.KeyPairs.{MultikeysPair}

-- What the program is linked with. A private key comes first, then the own public key, then theirs.
pub record Agreements : Type 0 where
  pub hash1 : Str → Str
  pub key_agreement : Str → Str → Str
  -- the text and the public key; the octets and the private key
  pub ntru_encrypt : Str → Str → Str
  pub ntru_decrypt : Str → Str → Try Str
  pub sidh_agreement : Str → Str → Str → Str
  pub enable_crypto_ntru : Bool
  pub enable_crypto_sidh : Bool

-- random_len, the size of a password for NTRU_EES439EP1.
abbrev pub random_len : ℕ
random_len = 65

-- t_kexasym: a std::map from char to vectors of strings.
abbrev pub Kexasym : Type 0
Kexasym = List (ℕ × List Str)

-- kexasym[sys_id].push_back(password)
unfoldable pub push_back_at : ℕ → Str → Kexasym → Kexasym
push_back_at sys_id password [] = (sys_id, password ∷ []) ∷ []
push_back_at sys_id password ((id, passwords) ∷ kexasym) =
    if id == sys_id
    then (id, passwords ++ (password ∷ [])) ∷ kexasym
    else if ltb sys_id id
    then (sys_id, password ∷ []) ∷ (id, passwords) ∷ kexasym
    else (id, passwords) ∷ push_back_at sys_id password kexasym

-- kexasym.at(sys_id)
unfoldable pub kexasym_at : ℕ → Kexasym → Try (List Str)
kexasym_at sys_id [] = throws out_of_range
kexasym_at sys_id ((id, passwords) ∷ kexasym) =
    if id == sys_id then value passwords else kexasym_at sys_id kexasym

-- The local variables KCT_accum and kexasym_passencr_tosend.
pub record Kex : Type 0 where
  pub kct_accum : Str
  pub tosend : Kexasym

-- crypto_secretbox_KEYBYTES of libsodium.
abbrev pub secretbox_keybytes : ℕ
secretbox_keybytes = 32

-- substr of src/crypto/crypto_basic.cpp
unfoldable pub locked_substr : Str → ℕ → Try Str
locked_substr str len =
    if len == 0
    then throws runtime_error
    else if ltb len (length str)
    then value (take len str)
    else throws assert_abort

unfoldable pub parse_packetstart_kexasym : Str → Try Str
parse_packetstart_kexasym [] = throws invalid_argument
parse_packetstart_kexasym (c ∷ data_) = elim (pop_varstring (c ∷ data_)) [
  | ok ret now ↦ value ret
  | err e now ↦ throws e
]

-- A parser over the string, and one map from it.
unfoldable pub read_kexasym : Str → Try Kexasym
read_kexasym [] = throws invalid_argument
read_kexasym (c ∷ packetstart_kexasym) =
    elim (pop_map_object ltb pop_byte_u (pop_vector_object pop_varstring)
      (c ∷ packetstart_kexasym)) [ ok kexasym now ↦ value kexasym | err e now ↦ throws e ]

unfoldable pub write_kexasym : Kexasym → Try Str
write_kexasym tosend =
    elim (push_map_object push_byte_u (push_vector_object push_varstring) tosend []) [
      | ok _ m_str ↦ value m_str
      | err e m_str ↦ throws e
    ]

module _ (lib : Agreements) where
  -- Hash1_PRV( Hash1_PRV(secret) ^ Hash1(key_A_pub) ^ Hash1(key_B_pub) )
  unfoldable pub agreed_hash : Str → Str → Str → Try Str
  agreed_hash secret key_a_pub key_b_pub = do
    mixed ← binary_string_xor (lib.hash1 secret) (lib.hash1 key_a_pub)
    both ← binary_string_xor mixed (lib.hash1 key_b_pub)
    value (lib.hash1 both)

  -- KCT_accum = KCT_accum ^ k_dh_agreed
  unfoldable pub join : Str → Str → Str → Kex → Try Kex
  join secret key_a_pub key_b_pub kex = do
    k_dh_agreed ← agreed_hash secret key_a_pub key_b_pub
    kct_accum ← binary_string_xor kex.kct_accum k_dh_agreed
    value (record kex { kct_accum = kct_accum })

  -- The body of each system's loop: the round, then key_A_pub, key_A_PRV and key_B_pub.
  abbrev pub Round : Type 0
  Round = ℕ → Str → Str → Str → Kex → Try Kex

  unfoldable pub x25519_round : Round
  x25519_round keynr_i key_a_pub key_a_prv key_b_pub kex =
      join (lib.key_agreement key_a_prv key_b_pub) key_a_pub key_b_pub kex

  unfoldable pub sidh_round : Round
  sidh_round keynr_i key_a_pub key_a_prv key_b_pub kex =
      join (lib.sidh_agreement key_a_prv key_a_pub key_b_pub) key_a_pub key_b_pub kex

  -- `passwords n` is what randombytes_locked(random_len) returns in round `n`; the initiator sends it encrypted.
  unfoldable pub ntru_send_round : (ℕ → Str) → Round
  ntru_send_round passwords keynr_i key_a_pub key_a_prv key_b_pub kex = do
    sys_id ← t_crypto_system_type_to_id ntru_ees439ep1
    join (passwords keynr_i) key_a_pub key_b_pub (record kex {
      tosend = push_back_at sys_id (lib.ntru_encrypt (passwords keynr_i) key_b_pub) kex.tosend;
    })

  -- The respondent decrypts the password that has the number of the round.
  unfoldable pub ntru_receive_round : Kexasym → Round
  ntru_receive_round received keynr_i key_a_pub key_a_prv key_b_pub kex = do
    sys_id ← t_crypto_system_type_to_id ntru_ees439ep1
    passwords ← kexasym_at sys_id received
    encrypted ← at passwords keynr_i
    decrypted ← lib.ntru_decrypt encrypted key_a_prv
    join decrypted key_a_pub key_b_pub kex

  module _ (self : MultikeysPair) (them : MultiCryptoStrings) where
    -- The loop over the key numbers from `keynr_i` on, by the rounds that are left; the side that has
    -- fewer keys uses them again from the first.
    unfoldable pub kex_rounds : Round → ℕ → ℕ → ℕ → ℕ → ℕ → Kex → Try Kex
    kex_rounds round sys count_a count_b zero keynr_i kex = value kex
    kex_rounds round sys count_a count_b (suc rounds) keynr_i kex = do
      key_a_pub ← get_key self.m_pub sys (keynr_i % count_a)
      key_a_prv ← get_key self.m_prv sys (keynr_i % count_a)
      key_b_pub ← get_key them sys (keynr_i % count_b)
      kex' ← round keynr_i key_a_pub key_a_prv key_b_pub kex
      kex_rounds round sys count_a count_b rounds (keynr_i + 1) kex'

    -- What one system adds; `ntru_round` is that of the side. A system without an agreement adds nothing.
    unfoldable pub kex_system : Round → ℕ → ℕ → ℕ → Kex → Try Kex
    kex_system ntru_round sys count_a count_b kex =
        let loop : Round → Try Kex =
          λ round. kex_rounds round sys count_a count_b (max count_a count_b) 0 kex in
        if sys == x25519
        then loop x25519_round
        else if sys == ntru_ees439ep1
        then (if lib.enable_crypto_ntru then loop ntru_round else value kex)
        else if sys == sidh
        then (if lib.enable_crypto_sidh then loop sidh_round else value kex)
        else value kex
