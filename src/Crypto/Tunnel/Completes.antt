-- ===== src/Crypto/Tunnel/Completes.antt =====
-- The handshake of a c_crypto_tunnel (src/crypto/crypto.cpp) with ephemeral keys from
-- c_multikeys_PAIR::generate.
use galaxy.Prelude.{
  ℕ, ◌+◌, ◌≤◌, ◌≡◌, subst, true, List, some, get_elem?, length, arith, Option-cases, inl, inr,
}
use galaxy.Outcome.{ok}
use galaxy.Try.{value}
use galaxy.Serialize.Generator.{Str}
use galaxy.Serialize.Parser.{sane_max_size_for_string}
use galaxy.Serialize.Codec.{IsSane}
use galaxy.Crypto.Systems.{system_type_end}
use galaxy.Crypto.MultiCryptoStrings.{MultiCryptoStrings, at, get_key, serialize_bin}
use galaxy.Crypto.MultiCryptoStrings.Save.{Saveable}
use galaxy.Crypto.KeyPairs.{MultikeysPair, Generators, generate_counts, no_keys}
use galaxy.Crypto.KeyPairs.Generated.{
  Generated, Aligned-get, Pairs-get, no_keys-Generated, Genuine, generate_counts-Generated,
}
use galaxy.Crypto.Kex.{Agreements}
use galaxy.Crypto.Kex.Agreement.{Documented, Matching, Sized, get_key_found}
use galaxy.Crypto.Stream.{Ciphers, Stream, new_stream}
use galaxy.Crypto.Stream.Exchange.{exchange_start}
use galaxy.Crypto.Stream.Agreement.{Party}
use galaxy.Crypto.Stream.Counts.{used_systems}
use galaxy.Crypto.Stream.Delivery.{Opens}
use galaxy.Crypto.Tunnel.Handshake.{Ephemeral, Apart, Established, established}

get_key-parts :
    (keys : MultiCryptoStrings) (sys n : ℕ) (key : Str)
    → get_key keys sys n ≡ value key
    → (system : _) × (get_elem? keys.m_cryptolists_general sys ≡ some system)
      × (get_elem? system n ≡ some key)
unfolding get_key at
get_key-parts keys sys n key h = elim (Option-cases (get_elem? keys.m_cryptolists_general sys)) [
  | inl missing ↦ absurd (ground (arith, missing, h))
  | inr (system, there) ↦ (system, there, ground (arith, there, h))
]

Matching-Generated :
    (IsKeyPair : ℕ → Str → Str → Type 0) (pair : MultikeysPair)
    → Generated IsKeyPair pair
    → Matching IsKeyPair pair
Matching-Generated IsKeyPair pair g sys n key h =
    let (ks, there, at_n) = get_key-parts pair.m_pub sys n key h in
    let (ps, there', pairs) =
      Aligned-get IsKeyPair 0 sys pair.m_pub.m_cryptolists_general pair.m_prv.m_cryptolists_general
        ks g.aligned there in
    let (prv, at_n', matches) = Pairs-get IsKeyPair (0 + sys) n ks ps key pairs at_n in
    let from_zero : 0 + sys ≡ sys = omega arith in
    (
      prv,
      get_key_found pair.m_prv sys n there' at_n',
      subst (λ s. IsKeyPair s prv key) from_zero matches,
    )

-- Generated keys that can be saved are ephemeral keys that a tunnel can use.
pub Generated-Ephemeral :
    {IsKeyPair : ℕ → Str → Str → Type 0} (generators : Generators) (ide : MultikeysPair)
    (counts : List ℕ)
    → Genuine IsKeyPair generators
    → generate_counts generators true 0 counts no_keys ≡ ok tt ide
    → Saveable 0 ide.m_pub.m_cryptolists_general
    → Ephemeral IsKeyPair ide
Generated-Ephemeral {IsKeyPair} generators ide counts genuine made saveable =
    let g =
      generate_counts-Generated IsKeyPair generators genuine true 0 counts no_keys ide
        (no_keys-Generated IsKeyPair) made in
    record {
      party = record {
        public_array = g.public_array;
        private_array = g.private_array;
        saveable = saveable;
        matching = Matching-Generated IsKeyPair ide g;
      };
      open_use = g.open_use;
      no_hash = g.no_hash;
    }

module _ {Nonce : Type 0} (ciphers : Ciphers Nonce) (opens : Opens ciphers)
    (overhead : (key msg : Str) (nonce : Nonce)
      → length (ciphers.box_with key nonce msg) ≤ length msg + 16)
    {lib : Agreements} {IsKeyPair : ℕ → Str → Str → Type 0} (d : Documented lib IsKeyPair) where
  -- Two nodes whose keys match and can be saved, with different hashes, and whose generators succeed for
  -- the systems in which both have keys, complete the handshake: the initiator's constructor, its
  -- create_IDe, its packet start, the respondent's constructor on that packet start, the respondent's
  -- packet start and the initiator's create_CTf on it all succeed, and the two final streams that are left
  -- are such that each unboxes what the other boxes. The ephemeral keys have to be within the limits of
  -- the format, their hashes different, and the two strings of each packet start below the size limit.
  pub Established-generated :
      (generators generators' : Generators) (random : ℕ → ℕ → Str) {alice bob : MultikeysPair}
      (ide_a ide_b : MultikeysPair)
      → Genuine IsKeyPair generators
      → Genuine IsKeyPair generators'
      → ((n : ℕ) → Sized (random n))
      → Party IsKeyPair alice
      → Party IsKeyPair bob
      → Apart lib alice bob
      → generate_counts generators true 0
          (used_systems alice.m_pub bob.m_pub system_type_end 0)
          no_keys
        ≡ ok tt ide_a
      → generate_counts generators' true 0
          (used_systems bob.m_pub alice.m_pub system_type_end 0)
          no_keys
        ≡ ok tt ide_b
      → Saveable 0 ide_a.m_pub.m_cryptolists_general
      → Saveable 0 ide_b.m_pub.m_cryptolists_general
      → Apart lib ide_b ide_a
      → ((stream : Stream Nonce)
          → exchange_start ciphers lib (random 0) alice bob.m_pub true (new_stream true)
            ≡ ok tt stream
          → IsSane stream.m_packetstart_kexasym)
      → ((stream : Stream Nonce)
          → exchange_start ciphers lib (random 2) ide_b ide_a.m_pub true (new_stream true)
            ≡ ok tt stream
          → IsSane stream.m_packetstart_kexasym)
      → ((bytes : Str)
          → serialize_bin ide_a.m_pub ≡ value bytes
          → length bytes + 16 ≤ sane_max_size_for_string)
      → ((bytes : Str)
          → serialize_bin ide_b.m_pub ≡ value bytes
          → length bytes + 16 ≤ sane_max_size_for_string)
      → Established ciphers lib generators generators' random alice bob
  Established-generated generators generators' random {alice} {bob} ide_a ide_b genuine genuine'
        sized a b apart made made' saveable saveable' apart' kexasym kexasym' small small' =
      established ciphers opens overhead d generators generators' random ide_a ide_b sized a b apart
        made made' (Generated-Ephemeral generators ide_a _ genuine made saveable)
        (Generated-Ephemeral generators' ide_b _ genuine' made' saveable') apart' kexasym kexasym'
        small small'
