-- ===== src/Tunserver/Hi.antt =====
-- The command public_hi in the event loop of src/tunserver.cpp: another node presents its public keys, with
-- a signature of the key of the connection.
use galaxy.Prelude.{ℕ, ◌≡◌, ◌≢◌, refl, Bool, true, false, inl, inr, arith, if◌then◌else◌}
use galaxy.Outcome.{
  Error, ok, err, M, ◌>>=◌, ◌>>◌, return, invalid_argument, invalid_argument_in_version,
  Outcome-cases,
}
use galaxy.Try.{Try, value, throws, lift, Try-cases}
use galaxy.Serialize.Generator.{Str}
use galaxy.Serialize.Parser.{Read, pop_varstring}
use galaxy.IpAddr.{Ip46Addr}
use galaxy.Haship.Hexdot.{get_ipv6_string_hexdot}
use galaxy.Crypto.MultiCryptoStrings.{MultiCryptoStrings, empty, use_signature}
use galaxy.Crypto.MultiSign.{Verifiers, multi_sign_verify}
use galaxy.Crypto.MultiSign.Save.{load_signatures}
use galaxy.Crypto.Tunnel.{load_pub}
use galaxy.Tunserver.{Platform, Tunserver}
use galaxy.Tunserver.Peers.{TunnelUse, add_peer_append_pubkey, add_tunnel_to_pubkey}
use galaxy.Tunserver.Peers.WellFormed.{after}

-- What the command carries.
pub record PublicHi : Type 0 where
  pub bin_his_idc_pub : Str
  pub bin_his_idi_pub : Str
  pub bin_his_idi_idc_sig : Str

unfoldable pub read_public_hi : Read PublicHi
read_public_hi = do
  idc ← pop_varstring
  idi ← pop_varstring
  sig ← pop_varstring
  return (record { bin_his_idc_pub = idc; bin_his_idi_pub = idi; bin_his_idi_idc_sig = sig })

-- load_from_bin of a new c_multisign.
unfoldable pub load_sign : Str → Try MultiCryptoStrings
load_sign bytes = elim (load_signatures bytes (empty use_signature)) [
  | ok u signatures ↦ value signatures
  | err e signatures ↦ throws e
]

-- catch (std::invalid_argument &), with the class derived from it.
abbrev pub is_invalid_argument : Error → Bool
is_invalid_argument invalid_argument = true
is_invalid_argument invalid_argument_in_version = true
is_invalid_argument e = false

module _ {Nonce : Type 0} (mine : TunnelUse Nonce) (platform : Platform) (lib : Verifiers) (now : ℕ)
    (prints_debug : Bool) (sender_pip : Ip46Addr) where
  -- "add peer" and "add node", with the keys loaded once for both.
  unfoldable pub add_his_pubkey : MultiCryptoStrings → M Tunserver (Unit {0})
  add_his_pubkey his_pubkey = do
    hip ← lift (platform.addr_dot (get_ipv6_string_hexdot (platform.hip_of_pubkey his_pubkey)))
    add_peer_append_pubkey platform now prints_debug
        (record { peering_addr = sender_pip; haship_addr = hip }) his_pubkey
    add_tunnel_to_pubkey platform mine his_pubkey

  -- The try block.
  unfoldable pub accept_public_hi : PublicHi → M Tunserver (Unit {0})
  accept_public_hi hi = do
    his_idi ← lift (load_pub hi.bin_his_idi_pub)
    his_idi_idc_sig ← lift (load_sign hi.bin_his_idi_idc_sig)
    lift (multi_sign_verify lib hi.bin_his_idc_pub his_idi_idc_sig his_idi)
    add_his_pubkey his_idi

  -- The handler, of the octets behind the version and the command.
  unfoldable pub handle_public_hi : Str → M Tunserver (Unit {0})
  handle_public_hi cmd_data self = elim (read_public_hi cmd_data) [
    | err e rest ↦ err e self
    | ok hi rest ↦ elim (accept_public_hi hi self) [
      | ok u later ↦ ok tt later
      | err e later ↦ if is_invalid_argument e then ok tt later else err e later
    ]
  ]

  -- The signature was verified: by all signing keys of the public keys, for the key of the connection.
  abbrev pub Verified : Str → Type 0
  Verified cmd_data =
      (hi : PublicHi) × (rest : Str) × (keys : MultiCryptoStrings) × (signs : MultiCryptoStrings)
      × (read_public_hi cmd_data ≡ ok hi rest)
      × (load_pub hi.bin_his_idi_pub ≡ value keys)
      × (load_sign hi.bin_his_idi_idc_sig ≡ value signs)
      × (multi_sign_verify lib hi.bin_his_idc_pub signs keys ≡ value tt)

  -- If a greeting changes anything in a node, whether it ends normally or with an exception, then it could
  -- be read, and multi_sign_verify accepted the signature it carries, for the key of the connection that it
  -- carries, against the public keys that it carries.
  pub handle_public_hi-Verified :
      (cmd_data : Str) (self : Tunserver)
      → after (handle_public_hi cmd_data self) ≢ self
      → Verified cmd_data
  unfolding handle_public_hi accept_public_hi
  handle_public_hi-Verified cmd_data self changed = elim (Outcome-cases (read_public_hi cmd_data)) [
    | inr (x, rest, e) ↦ absurd (changed (rw (after, e) refl))
    | inl (hi, rest, e) ↦ elim (Try-cases (load_pub hi.bin_his_idi_pub)) [
      | inr (x, k) ↦ absurd (ground (arith, changed, e, k))
      | inl (keys, k) ↦ elim (Try-cases (load_sign hi.bin_his_idi_idc_sig)) [
        | inr (x, s) ↦ absurd (ground (arith, changed, e, k, s))
        | inl (signs, s) ↦ elim (Try-cases (multi_sign_verify lib hi.bin_his_idc_pub signs keys)) [
          | inr (x, v) ↦ absurd (ground (arith, changed, e, k, s, v))
          | inl (u, v) ↦ (hi, rest, keys, signs, e, k, s, v)
        ]
      ]
    ]
  ]
