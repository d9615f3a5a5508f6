-- ===== src/Crypto/Tunnel.antt =====
-- class c_crypto_tunnel of src/crypto/crypto.cpp: the stream "ab" between two identities and the final
-- stream between their ephemeral keys.
pub mod Handshake
pub mod Completes
mod Tests
use galaxy.Prelude.{ℕ, ◌≡◌, Bool, true, false, [], Option, none, some}
use galaxy.Outcome.{
  Outcome, ok, err, M, ◌>>=◌, ◌>>◌, return, throw, assert_abort, runtime_error, undefined_behaviour,
}
use galaxy.Try.{Try, value, throws, lift}
use galaxy.Serialize.Generator.{Str}
use galaxy.Crypto.MultiCryptoStrings.{MultiCryptoStrings, load_from_bin, empty, use_open}
use galaxy.Crypto.KeyPairs.{MultikeysPair, Generators}
use galaxy.Crypto.Kex.{Agreements}
use galaxy.Crypto.Stream.{Ciphers, Stream, new_stream}
use galaxy.Crypto.Stream.Exchange.{
  set_packetstart_ide_from, box, unbox, generate_packetstart, parse_packetstart_ide, exchange_start,
  exchange_done,
}
use galaxy.Crypto.Stream.Exchange

pub record Tunnel (Nonce : Type 0) : Type 0 where
  pub m_side_initiator : Bool
  -- nullptr until they are made
  pub m_ide : Option MultikeysPair
  pub m_stream_crypto_ab : Option (Stream Nonce)
  pub m_stream_crypto_final : Option (Stream Nonce)

-- c_multikeys_pub::load_from_bin into a new object.
unfoldable pub load_pub : Str → Try MultiCryptoStrings
load_pub data_ = elim (load_from_bin data_ (empty use_open)) [
  | ok _ keys ↦ value keys
  | err e keys ↦ throws e
]

module _ {Nonce : Type 0} where
  -- A method of UsePtr(m_stream_crypto_ab), which aborts on nullptr, and the same of the final stream.
  unfoldable pub on_ab : {A : Type 0} → M (Stream Nonce) A → M (Tunnel Nonce) A
  on_ab m self = elim self.m_stream_crypto_ab [
    | none ↦ err assert_abort self
    | some stream ↦ elim (m stream) [
      | ok a stream' ↦ ok a (record self { m_stream_crypto_ab = some stream' })
      | err e stream' ↦ err e (record self { m_stream_crypto_ab = some stream' })
    ]
  ]

  unfoldable pub on_final : {A : Type 0} → M (Stream Nonce) A → M (Tunnel Nonce) A
  on_final m self = elim self.m_stream_crypto_final [
    | none ↦ err assert_abort self
    | some stream ↦ elim (m stream) [
      | ok a stream' ↦ ok a (record self { m_stream_crypto_final = some stream' })
      | err e stream' ↦ err e (record self { m_stream_crypto_final = some stream' })
    ]
  ]

  unfoldable pub create_ide : Generators → M (Tunnel Nonce) (Unit {0})
  create_ide generators self = elim self.m_ide [
    | some ide ↦ err runtime_error self
    | none ↦ elim (on_ab (Exchange.create_ide generators true) self) [
      | err e self' ↦ err e self'
      | ok ide self' ↦ ok tt (record self' { m_ide = some ide })
    ]
  ]

module _ {Nonce : Type 0} (ciphers : Ciphers Nonce) where
  -- box and unbox of either stream; unbox with the nonce that was sent along, or its own.
  abbrev pub box_ab : Str → M (Tunnel Nonce) (Str × Nonce)
  box_ab msg = on_ab (box ciphers msg)

  abbrev pub box_final : Str → M (Tunnel Nonce) (Str × Nonce)
  box_final msg = on_final (box ciphers msg)

  abbrev pub unbox_ab : Str → Option Nonce → M (Tunnel Nonce) Str
  unbox_ab msg nonce = on_ab (unbox ciphers msg nonce)

  abbrev pub unbox_final : Str → Option Nonce → M (Tunnel Nonce) Str
  unbox_final msg nonce = on_final (unbox ciphers msg nonce)

  -- The stream "ab" encrypts its own packet start, and that of the final stream.
  unfoldable pub get_packetstart_ab : M (Tunnel Nonce) Str
  get_packetstart_ab = on_ab (λ stream. generate_packetstart ciphers stream stream)

  unfoldable pub get_packetstart_final : M (Tunnel Nonce) Str
  get_packetstart_final self = elim self.m_stream_crypto_final [
    | none ↦ err assert_abort self
    | some final ↦ on_ab (generate_packetstart ciphers final) self
  ]

  module _ (lib : Agreements) where
    -- The constructor of the initiator; an exception in it leaves no object.
    unfoldable pub initiate : (ℕ → Str) → MultikeysPair → MultiCryptoStrings → Try (Tunnel Nonce)
    initiate random self them =
        elim (exchange_start ciphers lib random self them true (new_stream true)) [
          | err e stream ↦ throws e
          | ok _ stream ↦ value (record {
            m_side_initiator = true;
            m_ide = none;
            m_stream_crypto_ab = some stream;
            m_stream_crypto_final = none;
          })
        ]

    -- The steps of the respondent's constructor after the exchange for "ab".
    unfoldable pub respond_final : Generators → (ℕ → Str) → Str → M (Tunnel Nonce) (Unit {0})
    respond_final generators random packetstart = do
      create_ide generators
      λ self. ok tt (record self { m_stream_crypto_final = some (new_stream true) })
      ide_data ← on_ab (parse_packetstart_ide ciphers packetstart)
      them_ide ← lift (load_pub ide_data)
      λ self. elim self.m_ide [
        | none ↦ err undefined_behaviour self
        | some ide ↦
            (on_final (exchange_start ciphers lib random ide them_ide true)
                >> on_final (set_packetstart_ide_from ide))
              self
      ]

    -- The constructor of the respondent. `random` is for the exchange "ab", `random'` for the final one.
    unfoldable pub respond :
        Generators
        → (ℕ → Str)
        → (ℕ → Str)
        → MultikeysPair
        → MultiCryptoStrings
        → Str
        → Try (Tunnel Nonce)
    respond generators random random' self them packetstart =
        elim (exchange_done ciphers lib random self them packetstart (new_stream false)) [
          | err e stream ↦ throws e
          | ok _ stream ↦
              elim (respond_final generators random' packetstart (record {
                m_side_initiator = false;
                m_ide = none;
                m_stream_crypto_ab = some stream;
                m_stream_crypto_final = none;
              })) [ err e tunnel ↦ throws e | ok _ tunnel ↦ value tunnel ]
        ]

    -- The initiator's final stream, from the respondent's packet start. Without create_IDe before it
    -- the program follows a null pointer.
    unfoldable pub create_ctf : (ℕ → Str) → Str → M (Tunnel Nonce) (Unit {0})
    create_ctf random packetstart = do
      ide_data ← on_ab (parse_packetstart_ide ciphers packetstart)
      them_ide ← lift (load_pub ide_data)
      λ self. ok tt (record self { m_stream_crypto_final = some (new_stream false) })
      λ self. elim self.m_ide [
        | none ↦ err undefined_behaviour self
        | some ide ↦ on_final (exchange_done ciphers lib random ide them_ide packetstart) self
      ]
