-- ===== src/Crypto/Stream/Agreement.antt =====
-- c_stream::calculate_KCT (src/crypto/crypto.cpp) of an initiator and of the respondent that reads its
-- packet start.
use galaxy.Prelude.{
  ℕ, zero, suc, ◌<◌, ◌≤◌, ◌≡◌, refl, sym, ap, ◌∙◌, Bool, true, false, List, [], ◌∷◌, if◌then◌else◌,
  length, append-nil, subst, map, take, replicate, ltb, All, arith, Bool-cases, inl, inr,
}
use galaxy.Outcome.{Outcome, ok}
use galaxy.Try.{value}
use galaxy.Serialize.Generator.{Str}
use galaxy.Serialize.Parser.{pop_vector_object, pop_varstring, pop_byte_u, pop_integer_uvarint}
use galaxy.Serialize.Codec.{IsSane, char_codec, string_codec}
use galaxy.Serialize.Vectors.{vector_codec}
use galaxy.Serialize.Maps.{pop_map_object, pop-push_map_object, MapFits}
use galaxy.Crypto.Systems.{system_type_end}
use galaxy.Crypto.Fingerprint.{hash1_size}
use galaxy.Crypto.MultiCryptoStrings.{MultiCryptoStrings, IsArray, get_count_of_systems}
use galaxy.Crypto.MultiCryptoStrings.Save.{Saveable}
use galaxy.Crypto.KeyPairs.{MultikeysPair}
use galaxy.Crypto.Kex.{
  Agreements, Kexasym, Kex, Round, ntru_send_round, ntru_receive_round, parse_packetstart_kexasym,
  read_kexasym, write_kexasym, locked_substr, secretbox_keybytes,
}
use galaxy.Crypto.Kex.Agreement.{Documented, Matching, Sized, kex_of, tosend_of}
use galaxy.Crypto.Stream.{Stream, calculate_kct, ntru_round_of}
use galaxy.Crypto.Stream.Counts.{used_systems, map_zero, kex_systems-used_systems}
use galaxy.Crypto.Stream.Systems.{
  system-Counted, added_systems, added_systems-Agrees, kex_systems-added_systems,
}

read_parsed :
    (out : Str) (kexasym : Kexasym)
    → pop_map_object ltb pop_byte_u (pop_vector_object pop_varstring) out ≡ ok kexasym []
    → read_kexasym out ≡ value kexasym
unfolding read_kexasym pop_map_object pop_integer_uvarint pop_byte_u
read_parsed [] kexasym h = cc h
read_parsed (c ∷ out) kexasym h = ground (arith, h)

ltb_asymm : (a b : ℕ) → ltb a b ≡ true → ltb b a ≡ false
ltb_asymm a b h = ground (arith, h)

tosend-MapFits :
    (passwords : List Str)
    → length passwords < 0xffff_ffff_ffff_ffff
    → All IsSane passwords
    → MapFits ltb ltb_asymm char_codec (vector_codec string_codec) (tosend_of passwords)
tosend-MapFits [] few sane = (omega arith, tt, tt)
tosend-MapFits (p ∷ passwords) few sane = (omega arith, ((tt, (few, sane)), tt), (tt, tt))

-- The respondent reads the passwords that the initiator wrote.
pub read_kexasym-write_kexasym :
    (passwords : List Str)
    → length passwords < 0xffff_ffff_ffff_ffff
    → All IsSane passwords
    → (out : Str) × (write_kexasym (tosend_of passwords) ≡ value out)
      × (read_kexasym out ≡ value (tosend_of passwords))
unfolding write_kexasym
read_kexasym-write_kexasym passwords few sane =
    let (out, writes, reads) =
      pop-push_map_object ltb ltb_asymm char_codec (vector_codec string_codec) (tosend_of passwords)
        [] [] (tosend-MapFits passwords few sane) in
    (
      out,
      ground (arith, writes),
      read_parsed out (tosend_of passwords) (rw (sym (append-nil out)) reads),
    )

-- What both sides of an exchange hold: full arrays of keys that match and can be saved.
pub record Party (IsKeyPair : ℕ → Str → Str → Type 0) (pair : MultikeysPair) : Type 0 where
  pub public_array : IsArray pair.m_pub
  pub private_array : IsArray pair.m_prv
  pub saveable : Saveable 0 pair.m_pub.m_cryptolists_general
  pub matching : Matching IsKeyPair pair

-- The result of calculate_KCT for `self` and `them`: only the counts and the packet start of the stream
-- change, and the counts, where they are asked for, are those of the systems in which both have keys.
abbrev pub Calculated :
    MultikeysPair
    → MultiCryptoStrings
    → Bool
    → {Nonce : Type 0} → Outcome (Stream Nonce) Str
    → Str
    → Str
    → Stream Nonce
    → Type 0
Calculated self them should_count outcome kct kexasym stream =
    (count : List ℕ) × (outcome
      ≡ ok kct (record stream { m_cryptolists_count = count; m_packetstart_kexasym = kexasym }))
    × (should_count ≡ true
        → length stream.m_cryptolists_count ≡ system_type_end
        → count ≡ used_systems self.m_pub them system_type_end 0)

abbrev no_kex : Kex
no_kex = kex_of (replicate hash1_size 0) []

-- The key that is narrowed from what all agreements are joined to.
narrowed : Agreements → Str → Str
narrowed lib accum = take secretbox_keybytes (lib.hash1 accum)

length-take : (n : ℕ) (s : Str) → n ≤ length s → length (take n s) ≡ n
length-take zero s h = refl
length-take (suc n) [] h = absurd (omega (arith, h))
length-take (suc n) (c ∷ s) h = ap suc (length-take n s (omega (arith, h)))

module _ (lib : Agreements) (hash1_length : (s : Str) → length (lib.hash1 s) ≡ hash1_size) where
  locked_substr-narrowed :
      (accum : Str)
      → locked_substr (lib.hash1 accum) secretbox_keybytes ≡ value (narrowed lib accum)
  unfolding locked_substr narrowed
  locked_substr-narrowed accum = rw (hash1_length accum) refl

  length-narrowed : (accum : Str) → length (narrowed lib accum) ≡ secretbox_keybytes
  unfolding narrowed
  length-narrowed accum =
      length-take secretbox_keybytes (lib.hash1 accum) (omega (arith, hash1_length accum))

  calculate_kct-ok :
      {Nonce : Type 0} (self : MultikeysPair) (them : MultiCryptoStrings) (should_count : Bool)
      (random : ℕ → Str) (packetstart kexasym accum : Str) (passwords : List Str)
      (stream : Stream Nonce) (round : Round lib)
      → get_count_of_systems self.m_prv ≡ get_count_of_systems them
      → get_count_of_systems self.m_prv ≡ get_count_of_systems self.m_pub
      → ntru_round_of lib random packetstart stream.m_side_initiator ≡ value round
      → added_systems lib self them round (get_count_of_systems self.m_pub) 0 no_kex
        ≡ value (kex_of accum passwords)
      → write_kexasym (tosend_of passwords) ≡ value kexasym
      → get_count_of_systems self.m_pub ≡ system_type_end
      → Calculated self them should_count
          (calculate_kct lib self them should_count random packetstart stream)
          (narrowed lib accum)
          kexasym
          stream
  unfolding calculate_kct
  calculate_kct-ok {Nonce = Nonce} self them should_count random packetstart kexasym accum passwords
        stream round e f side computed written full =
      let start : Stream Nonce =
        if should_count
        then record stream { m_cryptolists_count = map (λ count. 0) stream.m_cryptolists_count }
        else stream in
      let (count, loop) =
        kex_systems-added_systems lib self them should_count round (get_count_of_systems self.m_pub)
          0 no_kex (kex_of accum passwords) computed start in
      (
        count,
        elim (Bool-cases should_count) [
          | inl yes' ↦ ground (
            arith,
            e,
            f,
            side,
            written,
            loop,
            yes',
            hash1_length accum,
            locked_substr-narrowed accum,
          )
          | inr no' ↦ ground (
            arith,
            e,
            f,
            side,
            written,
            loop,
            no',
            hash1_length accum,
            locked_substr-narrowed accum,
          )
        ],
        λ counts size.
            let zeros : start.m_cryptolists_count ≡ replicate system_type_end 0 =
              rw counts (map_zero stream.m_cryptolists_count ∙ rw size refl) in
            subst (λ n. count ≡ used_systems self.m_pub them n 0) full
              (kex_systems-used_systems lib self them should_count round
                (get_count_of_systems self.m_pub) no_kex (kex_of accum passwords) start
                (record start { m_cryptolists_count = count }) loop counts (rw full zeros)),
      )

module _ {lib : Agreements} {IsKeyPair : ℕ → Str → Str → Type 0} (d : Documented lib IsKeyPair)
    {alice bob : MultikeysPair} (a : Party IsKeyPair alice) (b : Party IsKeyPair bob) where
  -- An initiator and a respondent that hold matching keys, and each other's public keys, both get a
  -- key of 32 octets from calculate_KCT, and it is the same key: the respondent's for any packet start
  -- with the passwords that the initiator's call leaves in m_packetstart_kexasym. They may hold different
  -- numbers of keys, in different systems, with NTRU and SIDH compiled in or not.
  -- Each side's public keys stand in systems that have IDs, within the limits of the saved form.
  pub calculate_kct-agrees :
      {Nonce : Type 0} (random random' : ℕ → Str) (count_a count_b : Bool)
      (initiator respondent : Stream Nonce)
      → Sized random
      → initiator.m_side_initiator ≡ true
      → respondent.m_side_initiator ≡ false
      → (kct kexasym kexasym' : Str) × (length kct ≡ secretbox_keybytes)
        × Calculated alice bob.m_pub count_a
            (calculate_kct lib alice bob.m_pub count_a random [] initiator)
            kct
            kexasym
            initiator
        × ((packetstart : Str)
            → parse_packetstart_kexasym packetstart ≡ value kexasym
            → Calculated bob alice.m_pub count_b
                (calculate_kct lib bob alice.m_pub count_b random' packetstart respondent)
                kct
                kexasym'
                respondent)
  unfolding ntru_round_of get_count_of_systems
  calculate_kct-agrees random random' count_a count_b initiator respondent sized first second =
      let agreed =
        added_systems-Agrees d alice bob a.matching b.matching random sized
          (λ sys. system-Counted alice.m_pub sys a.public_array a.saveable)
          (λ sys. system-Counted bob.m_pub sys b.public_array b.saveable) system_type_end 0
          (replicate hash1_size 0) [] (omega arith) refl ((λ h. refl), omega arith) in
      let (kexasym, writes, reads) =
        read_kexasym-write_kexasym agreed.more agreed.sent agreed.sane in
      let (kexasym', writes', reads') = read_kexasym-write_kexasym [] (omega arith) tt in
      (
        narrowed lib agreed.accum,
        kexasym,
        kexasym',
        length-narrowed lib d.hash1_length agreed.accum,
        calculate_kct-ok lib d.hash1_length alice bob.m_pub count_a random [] kexasym agreed.accum
            agreed.more initiator (ntru_send_round lib random)
            (omega (arith, a.private_array, b.public_array))
            (omega (arith, a.private_array, a.public_array)) (ground (arith, first))
            (rw a.public_array agreed.sends) writes a.public_array,
        λ packetstart parsed.
            calculate_kct-ok lib d.hash1_length bob alice.m_pub count_b random' packetstart kexasym'
              agreed.accum [] respondent (ntru_receive_round lib (tosend_of agreed.more))
              (omega (arith, b.private_array, a.public_array))
              (omega (arith, b.private_array, b.public_array))
              (ground (arith, second, parsed, reads))
              (rw (b.public_array, sym (append-nil agreed.more)) (agreed.receives [])) writes'
              b.public_array,
      )
