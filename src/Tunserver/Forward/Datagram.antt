-- ===== src/Tunserver/Forward/Datagram.antt =====
-- A datagram with tunneled data, as one node writes it and another reads it.
use galaxy.Prelude.{ℕ, ◌≡◌, ◌≤◌, ◌<◌, ◌%◌, [], ◌∷◌, ◌++◌, append_assoc, append-nil, length, arith}
use galaxy.Outcome.{ok}
use galaxy.Serialize.Generator.{Str, append, push_byte_u, push_bytes_n}
use galaxy.Serialize.Parser.{
  pop_byte_u, pop_bytes_n, skip_bytes_n, pop_varstring, sane_max_size_for_string,
}
use galaxy.Serialize.Strings.{varstring, pop_bytes_n-append, push_varstring-varstring}
use galaxy.Serialize.Codec.{string_reads}
use galaxy.Tunserver.Peers.{current_version}
use galaxy.Tunserver.Forward.{
  Packet, write_packet, read_packet, length_of_addr, nonce_bytes, cmd_tunneled_data,
}

-- What the parts of a packet are long, and that its blob may be read back.
abbrev pub IsPacket : Packet → Type 0
IsPacket packet =
    (length packet.src_hip ≡ length_of_addr)
    × (length packet.dst_hip ≡ length_of_addr)
    × (length packet.nonce_used ≡ nonce_bytes)
    × (length packet.blob ≤ sane_max_size_for_string)

-- The layout of the datagram.
unfoldable pub datagram : Packet → Str
datagram packet =
    (current_version ∷ cmd_tunneled_data ∷ packet.src_hip)
    ++ (packet.dst_hip ++ ((packet.ttl % 256 ∷ packet.nonce_used) ++ varstring packet.blob))

pub push_sized :
    (size : ℕ) (bytes m_str : Str)
    → length bytes ≡ size
    → push_bytes_n size bytes m_str ≡ ok tt (m_str ++ bytes)
unfolding push_bytes_n append
push_sized size bytes m_str h = ground (arith, h)

pub write_packet-datagram :
    (packet : Packet) → IsPacket packet → write_packet packet ≡ ok tt (datagram packet)
unfolding write_packet datagram push_byte_u append
write_packet-datagram packet (src, dst, nonce, sane) =
    let head = current_version ∷ cmd_tunneled_data ∷ packet.src_hip in
    let addressed = (head ++ packet.dst_hip) ++ (packet.ttl % 256 ∷ []) in
    ground (
      arith,
      push_sized length_of_addr packet.src_hip (current_version ∷ cmd_tunneled_data ∷ []) src,
      push_sized length_of_addr packet.dst_hip head dst,
      push_sized nonce_bytes packet.nonce_used addressed nonce,
      push_varstring-varstring packet.blob (addressed ++ packet.nonce_used) (omega (arith, sane)),
      append_assoc head packet.dst_hip (packet.ttl % 256 ∷ []),
      append_assoc (head ++ packet.dst_hip) (packet.ttl % 256 ∷ []) packet.nonce_used,
      append_assoc head packet.dst_hip (packet.ttl % 256 ∷ packet.nonce_used),
      append_assoc (head ++ packet.dst_hip) (packet.ttl % 256 ∷ packet.nonce_used)
          (varstring packet.blob),
      append_assoc head packet.dst_hip
          ((packet.ttl % 256 ∷ packet.nonce_used) ++ varstring packet.blob),
    )

pub pop_sized :
    (size : ℕ) (bytes rest : Str)
    → length bytes ≡ size
    → pop_bytes_n size (bytes ++ rest) ≡ ok bytes rest
pop_sized size bytes rest h = rw (← h) (pop_bytes_n-append bytes rest)

popped_whole :
    (bytes : Str)
    → length bytes ≤ sane_max_size_for_string
    → pop_varstring (varstring bytes) ≡ ok bytes []
popped_whole bytes sane = ground (arith, string_reads bytes [] sane, append-nil (varstring bytes))

skip_command : (version cmd : ℕ) (rest : Str) → skip_bytes_n 2 (version ∷ cmd ∷ rest) ≡ ok tt rest
unfolding skip_bytes_n
skip_command version cmd rest = ground arith

pub read_packet-datagram :
    (packet : Packet)
    → IsPacket packet
    → packet.ttl < 256
    → read_packet (datagram packet) ≡ ok packet []
unfolding read_packet datagram pop_byte_u
read_packet-datagram packet (src, dst, nonce, sane) small = ground (
  arith,
  skip_command current_version cmd_tunneled_data (
      packet.src_hip
      ++ (packet.dst_hip ++ ((packet.ttl % 256 ∷ packet.nonce_used) ++ varstring packet.blob))),
  pop_sized length_of_addr packet.src_hip
      (packet.dst_hip ++ ((packet.ttl % 256 ∷ packet.nonce_used) ++ varstring packet.blob)) src,
  pop_sized length_of_addr packet.dst_hip
      ((packet.ttl % 256 ∷ packet.nonce_used) ++ varstring packet.blob) dst,
  pop_sized nonce_bytes packet.nonce_used (varstring packet.blob) nonce,
  popped_whole packet.blob sane,
)
