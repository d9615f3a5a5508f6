-- ===== src/Crypto/Tunnel/Handshake.antt =====
-- The exchange of both packet starts of a c_crypto_tunnel (src/crypto/crypto.cpp), at both nodes.
use galaxy.Prelude.{
  ℕ, ◌+◌, ◌≤◌, ◌≡◌, ◌≢◌, refl, ap, ◌∙◌, Bool, true, false, not, [], none, some, length, arith,
}
use galaxy.Outcome.{ok, M}
use galaxy.Try.{value}
use galaxy.Serialize.Generator.{Str}
use galaxy.Serialize.Parser.{sane_max_size_for_string}
use galaxy.Serialize.Codec.{IsSane}
use galaxy.Crypto.Systems.{system_type_end}
use galaxy.Crypto.MultiCryptoStrings.{
  MultiCryptoStrings, IsArray, serialize_bin, clear, empty, use_open,
}
use galaxy.Crypto.MultiCryptoStrings.Save.{Saveable}
use galaxy.Crypto.MultiCryptoStrings.RoundTrip.{load_from_bin-clear}
use galaxy.Crypto.KeyPairs.{MultikeysPair, Generators, generate_counts, no_keys}
use galaxy.Crypto.Kex.{Agreements, parse_packetstart_kexasym}
use galaxy.Crypto.Kex.Agreement.{Documented, Sized}
use galaxy.Crypto.Stream.{Ciphers, Boxer, Stream, new_stream, hash_of}
use galaxy.Crypto.Stream.Exchange.{
  set_packetstart_ide_from, generate_packetstart, parse_packetstart_ide, exchange_start,
  exchange_done,
}
use galaxy.Crypto.Stream.Exchange
use galaxy.Crypto.Stream.Agreement.{Party}
use galaxy.Crypto.Stream.Counts.{used_systems}
use galaxy.Crypto.Stream.Delivery.{
  Opens, IsOpen, Linked, IsOpen-Linked, Linked-sym, exchange-IsOpen,
}
use galaxy.Crypto.Stream.PacketStart.{parse-generate_packetstart}
use galaxy.Crypto.Tunnel.{
  Tunnel, load_pub, on_ab, on_final, create_ide, get_packetstart_ab, get_packetstart_final,
  initiate, respond_final, respond, create_ctf,
}

pub load_pub-serialize_bin :
    (keys : MultiCryptoStrings)
    → IsArray keys
    → keys.m_crypto_use ≡ use_open
    → keys.m_hash_cached ≡ []
    → Saveable 0 keys.m_cryptolists_general
    → (bytes : Str) × (serialize_bin keys ≡ value bytes) × (load_pub bytes ≡ value keys)
unfolding load_pub clear
load_pub-serialize_bin keys array open' no_hash saveable =
    let (bytes, saves, loads) =
      load_from_bin-clear keys (empty use_open) array refl open' saveable in
    (bytes, saves, ground (arith, loads, no_hash))

module _ {Nonce : Type 0} where
  on_ab-ok :
      {A : Type 0} (m : M (Stream Nonce) A) (self : Tunnel Nonce) {stream stream' : Stream Nonce}
      {a : A}
      → self.m_stream_crypto_ab ≡ some stream
      → m stream ≡ ok a stream'
      → on_ab m self ≡ ok a (record self { m_stream_crypto_ab = some stream' })
  unfolding on_ab
  on_ab-ok m self e f = cc (e, f)

  on_final-ok :
      {A : Type 0} (m : M (Stream Nonce) A) (self : Tunnel Nonce) {stream stream' : Stream Nonce}
      {a : A}
      → self.m_stream_crypto_final ≡ some stream
      → m stream ≡ ok a stream'
      → on_final m self ≡ ok a (record self { m_stream_crypto_final = some stream' })
  unfolding on_final
  on_final-ok m self e f = cc (e, f)

  create_ide-ok :
      (generators : Generators) (self : Tunnel Nonce) (stream : Stream Nonce) (ide : MultikeysPair)
      (bytes : Str)
      → self.m_ide ≡ none
      → self.m_stream_crypto_ab ≡ some stream
      → generate_counts generators true 0 stream.m_cryptolists_count no_keys ≡ ok tt ide
      → serialize_bin ide.m_pub ≡ value bytes
      → create_ide generators self
        ≡ ok tt (record self {
          m_ide = some ide;
          m_stream_crypto_ab = some (record stream { m_packetstart_ide = bytes });
        })
  unfolding create_ide on_ab Exchange.create_ide
  create_ide-ok generators self stream ide bytes none' ab generated saves =
      ground (arith, none', ab, generated, saves)

-- What a node needs of its ephemeral keys.
pub record Ephemeral (IsKeyPair : ℕ → Str → Str → Type 0) (ide : MultikeysPair) : Type 0 where
  pub party : Party IsKeyPair ide
  pub open_use : ide.m_pub.m_crypto_use ≡ use_open
  pub no_hash : ide.m_pub.m_hash_cached ≡ []

-- Two pairs have hashes of one size that differ.
pub record Apart (lib : Agreements) (mine theirs : MultikeysPair) : Type 0 where
  pub hash_mine : Str
  pub hash_theirs : Str
  pub hashes_mine : hash_of lib mine.m_pub ≡ value hash_mine
  pub hashes_theirs : hash_of lib theirs.m_pub ≡ value hash_theirs
  pub size : length hash_mine ≡ length hash_theirs
  pub differ : hash_mine ≢ hash_theirs

not-not : (b : Bool) → not (not b) ≡ b
not-not true = refl
not-not false = refl

-- A stream that has been opened by an initiator, and what a respondent does.
record Opening {Nonce : Type 0} (ciphers : Ciphers Nonce) (lib : Agreements)
    (alice bob : MultikeysPair) (random random' : ℕ → Str) : Type 0 where
  stream : Stream Nonce
  kct : Str
  odd : Bool
  starts : exchange_start ciphers lib random alice bob.m_pub true (new_stream true) ≡ ok tt stream
  is_open : IsOpen ciphers stream kct odd
  counts : stream.m_cryptolists_count ≡ used_systems alice.m_pub bob.m_pub system_type_end 0
  answers :
      (packetstart : Str)
      → parse_packetstart_kexasym packetstart ≡ value stream.m_packetstart_kexasym
      → (answered : Stream Nonce) × (exchange_done ciphers lib random' bob alice.m_pub packetstart
            (new_stream false)
          ≡ ok tt answered)
        × IsOpen ciphers answered kct (not odd)
        × (answered.m_cryptolists_count ≡ used_systems bob.m_pub alice.m_pub system_type_end 0)

opens_to :
    {Nonce : Type 0} (ciphers : Ciphers Nonce) {lib : Agreements}
    {IsKeyPair : ℕ → Str → Str → Type 0} (d : Documented lib IsKeyPair) {alice bob : MultikeysPair}
    → Party IsKeyPair alice
    → Party IsKeyPair bob
    → Apart lib alice bob
    → (random random' : ℕ → Str) → Sized random
    → Opening ciphers lib alice bob random random'
opens_to ciphers d {alice} {bob} a b apart random random' sized =
    let (kct, odd, opened, starts, is_open, no_ide, counts, answers) =
      exchange-IsOpen ciphers d a b random random' true (new_stream true) (new_stream false)
        apart.hash_mine apart.hash_theirs sized refl refl apart.hashes_mine apart.hashes_theirs
        apart.size apart.differ in
    record {
      stream = opened;
      kct = kct;
      odd = odd;
      starts = starts;
      is_open = is_open;
      counts = counts refl refl;
      answers = λ packetstart parsed.
          let (answered, done, is_open', counts') = answers packetstart parsed in
          (answered, done, is_open', counts' refl);
    }

-- The initiator's constructor succeeds for the public keys of another identity.
pub initiate-ok :
    {Nonce : Type 0} (ciphers : Ciphers Nonce) {lib : Agreements}
    {IsKeyPair : ℕ → Str → Str → Type 0} (d : Documented lib IsKeyPair) {alice bob : MultikeysPair}
    → Party IsKeyPair alice
    → Party IsKeyPair bob
    → Apart lib alice bob
    → (random : ℕ → Str) → Sized random
    → (tunnel : Tunnel Nonce) × (initiate ciphers lib random alice bob.m_pub ≡ value tunnel)
unfolding initiate
initiate-ok ciphers d a b apart random sized =
    let opening = opens_to ciphers d a b apart random random sized in
    (
      record {
        m_side_initiator = true;
        m_ide = none;
        m_stream_crypto_ab = some (opening.stream);
        m_stream_crypto_final = none;
      },
      ground (arith, opening.starts),
    )

module _ {Nonce : Type 0} (ciphers : Ciphers Nonce) (lib : Agreements) where
  -- The respondent's constructor, when every step of it succeeds.
  respond-ok :
      (generators : Generators) (random random' : ℕ → Str) (self ide : MultikeysPair)
      (them them_ide : MultiCryptoStrings) (packetstart ide_data bytes : Str)
      (stream stream' final : Stream Nonce)
      → exchange_done ciphers lib random self them packetstart (new_stream false) ≡ ok tt stream
      → generate_counts generators true 0 stream.m_cryptolists_count no_keys ≡ ok tt ide
      → serialize_bin ide.m_pub ≡ value bytes
      → parse_packetstart_ide ciphers packetstart (record stream { m_packetstart_ide = bytes })
        ≡ ok ide_data stream'
      → load_pub ide_data ≡ value them_ide
      → exchange_start ciphers lib random' ide them_ide true (new_stream true) ≡ ok tt final
      → respond ciphers lib generators random random' self them packetstart
        ≡ value (record {
          m_side_initiator = false;
          m_ide = some ide;
          m_stream_crypto_ab = some stream';
          m_stream_crypto_final = some (record final { m_packetstart_ide = bytes });
        })
  unfolding respond respond_final set_packetstart_ide_from on_ab on_final
  respond-ok generators random random' self ide them them_ide packetstart ide_data bytes stream
        stream' final done generated saves parses loads starts =
      let bare : Tunnel Nonce = record {
        m_side_initiator = false;
        m_ide = none;
        m_stream_crypto_ab = some stream;
        m_stream_crypto_final = none;
      } in
      ground (
        arith,
        done,
        create_ide-ok generators bare stream ide bytes refl refl generated saves,
        parses,
        loads,
        starts,
        saves,
      )

  create_ctf-ok :
      (random : ℕ → Str) (self : Tunnel Nonce) (stream stream' final : Stream Nonce)
      (ide : MultikeysPair) (them_ide : MultiCryptoStrings) (packetstart ide_data : Str)
      → self.m_stream_crypto_ab ≡ some stream
      → self.m_ide ≡ some ide
      → parse_packetstart_ide ciphers packetstart stream ≡ ok ide_data stream'
      → load_pub ide_data ≡ value them_ide
      → exchange_done ciphers lib random ide them_ide packetstart (new_stream false) ≡ ok tt final
      → create_ctf ciphers lib random packetstart self
        ≡ ok tt
            (record self { m_stream_crypto_ab = some stream'; m_stream_crypto_final = some final })
  unfolding create_ctf on_ab on_final
  create_ctf-ok random self stream stream' final ide them_ide packetstart ide_data ab has_ide parses
        loads done =
      ground (arith, ab, has_ide, parses, loads, done)

-- A tunnel that both nodes have, step by step from the initiator's constructor to its final stream.
pub record Established {Nonce : Type 0} (ciphers : Ciphers Nonce) (lib : Agreements)
    (generators generators' : Generators) (random : ℕ → ℕ → Str) (alice bob : MultikeysPair)
    : Type 0 where
  pub initiated : Tunnel Nonce
  pub initiates : initiate ciphers lib (random 0) alice bob.m_pub ≡ value initiated
  pub with_ide : Tunnel Nonce
  pub creates_ide : create_ide generators initiated ≡ ok tt with_ide
  pub packetstart : Str
  pub sent : Tunnel Nonce
  pub sends : get_packetstart_ab ciphers with_ide ≡ ok packetstart sent
  pub responded : Tunnel Nonce
  pub responds :
      respond ciphers lib generators' (random 1) (random 2) bob alice.m_pub packetstart
      ≡ value responded
  pub packetstart' : Str
  pub answered : Tunnel Nonce
  pub answers : get_packetstart_final ciphers responded ≡ ok packetstart' answered
  pub finished : Tunnel Nonce
  pub finishes : create_ctf ciphers lib (random 3) packetstart' sent ≡ ok tt finished
  pub final_alice : Stream Nonce
  pub final_bob : Stream Nonce
  pub has_final_alice : finished.m_stream_crypto_final ≡ some final_alice
  pub has_final_bob : answered.m_stream_crypto_final ≡ some final_bob
  pub linked : Linked ciphers final_alice final_bob

module _ {Nonce : Type 0} (ciphers : Ciphers Nonce) (opens : Opens ciphers)
    (overhead : (key msg : Str) (nonce : Nonce)
      → length (ciphers.box_with key nonce msg) ≤ length msg + 16)
    {lib : Agreements} {IsKeyPair : ℕ → Str → Str → Type 0} (d : Documented lib IsKeyPair) where
  pub established :
      (generators generators' : Generators) (random : ℕ → ℕ → Str) {alice bob : MultikeysPair}
      (ide_a ide_b : MultikeysPair)
      → ((n : ℕ) → Sized (random n))
      → Party IsKeyPair alice
      → Party IsKeyPair bob
      → Apart lib alice bob
      → generate_counts generators true 0
          (used_systems alice.m_pub bob.m_pub system_type_end 0)
          no_keys
        ≡ ok tt ide_a
      → generate_counts generators' true 0
          (used_systems bob.m_pub alice.m_pub system_type_end 0)
          no_keys
        ≡ ok tt ide_b
      → Ephemeral IsKeyPair ide_a
      → Ephemeral IsKeyPair ide_b
      → Apart lib ide_b ide_a
      → ((stream : Stream Nonce)
          → exchange_start ciphers lib (random 0) alice bob.m_pub true (new_stream true)
            ≡ ok tt stream
          → IsSane stream.m_packetstart_kexasym)
      → ((stream : Stream Nonce)
          → exchange_start ciphers lib (random 2) ide_b ide_a.m_pub true (new_stream true)
            ≡ ok tt stream
          → IsSane stream.m_packetstart_kexasym)
      → ((bytes : Str)
          → serialize_bin ide_a.m_pub ≡ value bytes
          → length bytes + 16 ≤ sane_max_size_for_string)
      → ((bytes : Str)
          → serialize_bin ide_b.m_pub ≡ value bytes
          → length bytes + 16 ≤ sane_max_size_for_string)
      → Established ciphers lib generators generators' random alice bob
  unfolding initiate get_packetstart_ab get_packetstart_final
  established generators generators' random {alice} {bob} ide_a ide_b sized a b apart gen_a gen_b
        eph_a eph_b apart' sane_ab sane_f small_a small_b =
      let ab = opens_to ciphers d a b apart (random 0) (random 1) (sized 0) in
      let final =
        opens_to ciphers d eph_b.party eph_a.party apart' (random 2) (random 3) (sized 2) in
      let (bytes_a, saves_a, loads_a) =
        load_pub-serialize_bin ide_a.m_pub eph_a.party.public_array eph_a.open_use eph_a.no_hash
          eph_a.party.saveable in
      let (bytes_b, saves_b, loads_b) =
        load_pub-serialize_bin ide_b.m_pub eph_b.party.public_array eph_b.open_use eph_b.no_hash
          eph_b.party.saveable in
      let box_ab : Boxer Nonce = record {
        nonce = ciphers.nonce_start ab.odd;
        secret_key = ab.kct;
      } in
      let box_ba : Boxer Nonce = record {
        nonce = ciphers.nonce_start (not ab.odd);
        secret_key = ab.kct;
      } in
      let stream_a : Stream Nonce = record (ab.stream) { m_packetstart_ide = bytes_a } in
      let stream_a' : Stream Nonce = record stream_a {
        m_boxer = some (record box_ab { nonce = ciphers.nonce_next box_ab.nonce });
      } in
      let (packet, writes, reads, opens_ide) =
        parse-generate_packetstart ciphers opens stream_a stream_a box_ab ab.is_open.boxer
          (sane_ab ab.stream ab.starts)
          (omega (arith, overhead ab.kct bytes_a box_ab.nonce, small_a bytes_a saves_a)) in
      let (stream_b, done_b, open_b, counts_b) = ab.answers packet reads in
      let unboxes_b : stream_b.m_unboxer ≡ some box_ab =
        open_b.unboxer
        ∙ ap (λ odd. some (record { nonce = ciphers.nonce_start odd; secret_key = ab.kct }))
            (not-not ab.odd) in
      let stream_b' : Stream Nonce = record stream_b { m_packetstart_ide = bytes_b } in
      let stream_b'' : Stream Nonce = record stream_b' {
        m_unboxer = some (record box_ab { nonce = ciphers.nonce_next box_ab.nonce });
      } in
      let final_b : Stream Nonce = record (final.stream) { m_packetstart_ide = bytes_b } in
      let (packet', writes', reads', opens_ide') =
        parse-generate_packetstart ciphers opens final_b stream_b'' box_ba open_b.boxer
          (sane_f final.stream final.starts)
          (omega (arith, overhead ab.kct bytes_b box_ba.nonce, small_b bytes_b saves_b)) in
      let (final_a, done_a, open_a, counts_a) = final.answers packet' reads' in
      let final_open : IsOpen ciphers final_b final.kct final.odd = record {
        boxer = final.is_open.boxer;
        unboxer = final.is_open.unboxer;
      } in
      let tunnel_a : Tunnel Nonce = record {
        m_side_initiator = true;
        m_ide = none;
        m_stream_crypto_ab = some ab.stream;
        m_stream_crypto_final = none;
      } in
      let tunnel_a' : Tunnel Nonce = record tunnel_a {
        m_ide = some ide_a;
        m_stream_crypto_ab = some stream_a;
      } in
      let tunnel_b : Tunnel Nonce = record {
        m_side_initiator = false;
        m_ide = some ide_b;
        m_stream_crypto_ab = some stream_b'';
        m_stream_crypto_final = some final_b;
      } in
      record {
        initiated = tunnel_a;
        initiates = ground (arith, ab.starts);
        with_ide = tunnel_a';
        creates_ide =
            create_ide-ok generators tunnel_a ab.stream ide_a bytes_a refl refl (rw ab.counts gen_a)
              saves_a;
        packetstart = packet;
        sent = record tunnel_a' { m_stream_crypto_ab = some stream_a' };
        sends = on_ab-ok _ tunnel_a' refl writes;
        responded = tunnel_b;
        responds =
            respond-ok ciphers lib generators' (random 1) (random 2) bob ide_b alice.m_pub
              ide_a.m_pub packet bytes_a bytes_b stream_b stream_b'' final.stream done_b
              (rw counts_b gen_b) saves_b (opens_ide stream_b' unboxes_b) loads_a final.starts;
        packetstart' = packet';
        answered = _;
        answers = on_ab-ok (generate_packetstart ciphers final_b) tunnel_b refl writes';
        finished = _;
        finishes =
            create_ctf-ok ciphers lib (random 3) _ stream_a' _ final_a ide_a ide_b.m_pub packet'
              bytes_b refl refl (opens_ide' stream_a' ab.is_open.unboxer) loads_b done_a;
        final_alice = final_a;
        final_bob = final_b;
        has_final_alice = refl;
        has_final_bob = refl;
        linked = Linked-sym ciphers (IsOpen-Linked ciphers final_open open_a);
      }
