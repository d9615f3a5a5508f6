-- ===== src/Crypto/Stream/Exchange.antt =====
-- The methods of c_stream (src/crypto/crypto.cpp) that run the exchange, write and read the packet
-- start, and send messages.
use galaxy.Prelude.{ℕ, Bool, true, not, [], ◌∷◌, Option, none, some, replicate, str_eq}
use galaxy.Outcome.{ok, err, M, ◌>>=◌, ◌>>◌, assert_abort, invalid_argument, undefined_behaviour}
use galaxy.Try.{Try, value, throws, lift}
use galaxy.Serialize.Generator.{Str, push_varstring}
use galaxy.Serialize.Parser.{pop_varstring, skip_varstring}
use galaxy.Crypto.Fingerprint.{hash1_size}
use galaxy.Crypto.MultiCryptoStrings.{MultiCryptoStrings, serialize_bin}
use galaxy.Crypto.KeyPairs.{MultikeysPair, Generators, generate_counts, no_keys}
use galaxy.Crypto.Kex.{Agreements}
use galaxy.Crypto.Stream.{Ciphers, Stream, calculate_kct, calculate_nonce_odd}

-- The second string of the packet start, still encrypted.
unfoldable pub encrypted_ide : Str → Try Str
encrypted_ide [] = throws invalid_argument
encrypted_ide (c ∷ data_) = elim ((skip_varstring >>= λ _. pop_varstring) (c ∷ data_)) [
  | ok data_encr now ↦ value data_encr
  | err e now ↦ throws e
]

-- What generate_packetstart writes.
unfoldable pub write_packetstart : Str → Str → Try Str
write_packetstart kexasym ide_via_ct =
    elim ((push_varstring kexasym >>= λ _. push_varstring ide_via_ct) []) [
      | ok _ m_str ↦ value m_str
      | err e m_str ↦ throws e
    ]

module _ {Nonce : Type 0} where
  unfoldable pub is_k_not_empty : Stream Nonce → Bool
  is_k_not_empty stream = not (str_eq stream.m_kct (replicate hash1_size 0))

  unfoldable pub set_packetstart_ide_from : MultikeysPair → M (Stream Nonce) (Unit {0})
  set_packetstart_ide_from keypair stream = elim (serialize_bin keypair.m_pub) [
    | throws e ↦ err e stream
    | value bytes ↦ ok tt (record stream { m_packetstart_ide = bytes })
  ]

  -- create_IDe: new keys in the systems that were counted.
  unfoldable pub create_ide : Generators → Bool → M (Stream Nonce) MultikeysPair
  create_ide generators will_asymkex stream =
      elim (generate_counts generators will_asymkex 0 stream.m_cryptolists_count no_keys) [
        | err e ide ↦ err e stream
        | ok _ ide ↦ elim (serialize_bin ide.m_pub) [
          | throws e ↦ err e stream
          | value bytes ↦ ok ide (record stream { m_packetstart_ide = bytes })
        ]
      ]

module _ {Nonce : Type 0} (ciphers : Ciphers Nonce) where
  unfoldable pub create_boxer_with_k : M (Stream Nonce) (Unit {0})
  create_boxer_with_k stream = ok tt (record stream {
    m_boxer =
        some (record { nonce = ciphers.nonce_start stream.m_nonce_odd; secret_key = stream.m_kct });
    m_unboxer = some (record {
      nonce = ciphers.nonce_start (not stream.m_nonce_odd);
      secret_key = stream.m_kct;
    });
  })

  -- box, with the nonce that was used.
  unfoldable pub box : Str → M (Stream Nonce) (Str × Nonce)
  box msg stream = elim stream.m_boxer [
    | none ↦ err assert_abort stream
    | some cb ↦
        ok (ciphers.box_with cb.secret_key cb.nonce msg, cb.nonce)
          (record stream { m_boxer = some (record cb { nonce = ciphers.nonce_next cb.nonce }) })
  ]

  -- unbox: of the given nonce, or of its own where there is none.
  unfoldable pub unbox : Str → Option Nonce → M (Stream Nonce) Str
  unbox msg force_nonce stream = elim stream.m_unboxer [
    | none ↦ err assert_abort stream
    | some cb ↦
        let n : Nonce = elim force_nonce [ none ↦ cb.nonce | some nonce ↦ nonce ] in
        elim (ciphers.unbox_with cb.secret_key n msg) [
          | throws e ↦ err e stream
          | value ret ↦ ok ret (record stream {
            m_unboxer = some (record cb { nonce = ciphers.nonce_given cb.nonce n });
          })
        ]
  ]

  -- generate_packetstart of `self`; the state is the stream to encrypt with, which may be `self`.
  unfoldable pub generate_packetstart : Stream Nonce → M (Stream Nonce) Str
  generate_packetstart self = do
    (packetstart_ide_via_ct, nonce_used) ← box self.m_packetstart_ide
    lift (write_packetstart self.m_packetstart_kexasym packetstart_ide_via_ct)

  -- The unboxer is used without a check that it is there.
  unfoldable pub parse_packetstart_ide : Str → M (Stream Nonce) Str
  parse_packetstart_ide data_ stream = elim (encrypted_ide data_) [
    | throws e ↦ err e stream
    | value data_encr ↦ elim stream.m_unboxer [
      | none ↦ err undefined_behaviour stream
      | some cb ↦ elim (ciphers.unbox_with cb.secret_key cb.nonce data_encr) [
        | throws e ↦ err e stream
        | value data_decr ↦
            ok data_decr (record stream {
              m_unboxer = some (record cb { nonce = ciphers.nonce_next cb.nonce });
            })
      ]
    ]
  ]

  module _ (lib : Agreements) (passwords : ℕ → Str) where
    -- The two exchanges from the key on.
    unfoldable pub exchange :
        MultikeysPair → MultiCryptoStrings → Bool → Str → M (Stream Nonce) (Unit {0})
    exchange id_self id_them should_count packetstart = do
      kct ← calculate_kct lib id_self id_them should_count passwords packetstart
      λ stream. ok tt (record stream { m_kct = kct })
      nonce_odd ← lift (calculate_nonce_odd lib id_self id_them)
      λ stream. ok tt (record stream { m_nonce_odd = nonce_odd })
      create_boxer_with_k

    abbrev pub exchange_start :
        MultikeysPair → MultiCryptoStrings → Bool → M (Stream Nonce) (Unit {0})
    exchange_start id_self id_them will_new_id = exchange id_self id_them will_new_id []

    abbrev pub exchange_done :
        MultikeysPair → MultiCryptoStrings → Str → M (Stream Nonce) (Unit {0})
    exchange_done id_self id_them packetstart = exchange id_self id_them true packetstart
