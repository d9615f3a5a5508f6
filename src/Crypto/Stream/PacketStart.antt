-- ===== src/Crypto/Stream/PacketStart.antt =====
-- The packet start of src/crypto/crypto.cpp, written by one stream and read by the other.
use galaxy.Prelude.{◌≡◌, sym, ap, ◌∙◌, [], ◌∷◌, ◌++◌, append-nil, some, arith}
use galaxy.Outcome.{ok}
use galaxy.Try.{value}
use galaxy.Serialize.Generator.{Str}
use galaxy.Serialize.Parser.{pop_varstring, skip_varstring, pop_integer_uvarint, pop_byte_u}
use galaxy.Serialize.Strings.{varstring, forget, skip_varstring-forget}
use galaxy.Serialize.Codec.{IsSane, string_writes, string_reads}
use galaxy.Crypto.Kex.{parse_packetstart_kexasym}
use galaxy.Crypto.Stream.{Ciphers, Boxer, Stream}
use galaxy.Crypto.Stream.Exchange.{
  write_packetstart, encrypted_ide, box, generate_packetstart, parse_packetstart_ide,
}
use galaxy.Crypto.Stream.Delivery.{Opens}

kexasym_read :
    (data_ ret now : Str)
    → pop_varstring data_ ≡ ok ret now
    → parse_packetstart_kexasym data_ ≡ value ret
unfolding parse_packetstart_kexasym pop_varstring pop_integer_uvarint pop_byte_u
kexasym_read [] ret now h = cc h
kexasym_read (c ∷ data_) ret now h = ground (arith, h)

ide_read :
    (data_ ret now now' : Str)
    → skip_varstring data_ ≡ ok tt now
    → pop_varstring now ≡ ok ret now'
    → encrypted_ide data_ ≡ value ret
unfolding encrypted_ide skip_varstring pop_integer_uvarint pop_byte_u
ide_read [] ret now now' h k = cc h
ide_read (c ∷ data_) ret now now' h k = ground (arith, h, k)

-- Both strings of a packet start.
start_of : Str → Str → Str
start_of kexasym ide = varstring kexasym ++ varstring ide

module _ (kexasym ide : Str) (sane : IsSane kexasym) (sane' : IsSane ide) where
  written : write_packetstart kexasym ide ≡ value (start_of kexasym ide)
  unfolding write_packetstart start_of
  written =
      ground (arith, string_writes kexasym [] sane, string_writes ide (varstring kexasym) sane')

  first_read : parse_packetstart_kexasym (start_of kexasym ide) ≡ value kexasym
  unfolding start_of
  first_read = kexasym_read _ kexasym (varstring ide) (string_reads kexasym (varstring ide) sane)

  second_read : encrypted_ide (start_of kexasym ide) ≡ value ide
  unfolding start_of
  second_read =
      let first = string_reads kexasym (varstring ide) sane in
      ide_read _ ide (varstring ide) []
        (skip_varstring-forget (varstring kexasym ++ varstring ide) ∙ ap forget first)
        (ap pop_varstring (sym (append-nil (varstring ide))) ∙ string_reads ide [] sane')

module _ {Nonce : Type 0} (ciphers : Ciphers Nonce) (opens : Opens ciphers) where
  -- A stream's packet start, encrypted by a boxer `cb` and read with an unboxer of the same key and
  -- nonce, gives both of its parts, within the size limit of strings; both nonces move on.
  pub parse-generate_packetstart :
      (self near : Stream Nonce) (cb : Boxer Nonce)
      → near.m_boxer ≡ some cb
      → IsSane self.m_packetstart_kexasym
      → IsSane (ciphers.box_with cb.secret_key cb.nonce self.m_packetstart_ide)
      → (packetstart : Str) × (generate_packetstart ciphers self near
          ≡ ok packetstart
              (record near { m_boxer = some (record cb { nonce = ciphers.nonce_next cb.nonce }) }))
        × (parse_packetstart_kexasym packetstart ≡ value self.m_packetstart_kexasym)
        × ((far : Stream Nonce)
            → far.m_unboxer ≡ some cb
            → parse_packetstart_ide ciphers packetstart far
              ≡ ok self.m_packetstart_ide (record far {
                m_unboxer = some (record cb { nonce = ciphers.nonce_next cb.nonce });
              }))
  unfolding generate_packetstart parse_packetstart_ide box
  parse-generate_packetstart self near cb boxes sane sane' =
      let ide : Str = ciphers.box_with cb.secret_key cb.nonce self.m_packetstart_ide in
      (
        start_of self.m_packetstart_kexasym ide,
        ground (arith, boxes, written self.m_packetstart_kexasym ide sane sane'),
        first_read self.m_packetstart_kexasym ide sane sane',
        λ far unboxes. ground (
          arith,
          unboxes,
          second_read self.m_packetstart_kexasym ide sane sane',
          opens cb.secret_key cb.nonce self.m_packetstart_ide,
        ),
      )
