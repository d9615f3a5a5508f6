-- ===== src/Crypto/Stream/Delivery.antt =====
-- Two streams of src/crypto/crypto.cpp after the exchange: what one boxes the other unboxes.
use galaxy.Prelude.{
  ℕ, ◌≡◌, ◌≢◌, refl, sym, ◌∙◌, Bool, true, false, not, List, [], ◌∷◌, some, length, arith,
  Bool-cases, inl, inr, str_eq,
}
use galaxy.Outcome.{ok}
use galaxy.Try.{value}
use galaxy.StdMap.{str_less}
use galaxy.StdMap.Compare.{str_less_asymm, str_less_total}
use galaxy.Serialize.Generator.{Str}
use galaxy.Crypto.Systems.{system_type_end}
use galaxy.Crypto.MultiCryptoStrings.{MultiCryptoStrings}
use galaxy.Crypto.KeyPairs.{MultikeysPair}
use galaxy.Crypto.Kex.{Agreements, parse_packetstart_kexasym}
use galaxy.Crypto.Kex.Agreement.{Documented, Sized}
use galaxy.Crypto.Stream.{Ciphers, Boxer, Stream, hash_of, calculate_nonce_odd, calculate_kct}
use galaxy.Crypto.Stream.Exchange.{
  create_boxer_with_k, box, unbox, exchange, exchange_start, exchange_done,
}
use galaxy.Crypto.Stream.Counts.{used_systems}
use galaxy.Crypto.Stream.Agreement.{Party, calculate_kct-agrees}

str_eq-path : (s t : Str) → str_eq s t ≡ true → s ≡ t
str_eq-path [] [] h = refl
str_eq-path [] (c ∷ t) h = cc h
str_eq-path (b ∷ s) [] h = cc h
str_eq-path (b ∷ s) (c ∷ t) h = ground (arith, h, str_eq-path s t)

-- Of two different hashes each is less than the other in one direction.
less_opposite : (s t : Str) → length s ≡ length t → s ≢ t → str_less s t ≡ not (str_less t s)
less_opposite s t e ne = elim (Bool-cases (str_less t s)) [
  | inl h ↦ ground (arith, h, str_less_asymm t s h)
  | inr h ↦ elim (Bool-cases (str_less s t)) [
    | inl k ↦ rw (h, k) refl
    | inr k ↦ absurd (ne (str_eq-path s t (str_less_total s t e k h)))
  ]
]

module _ {Nonce : Type 0} (ciphers : Ciphers Nonce) where
  -- What is documented of the ciphers.
  abbrev pub Opens : Type 0
  Opens =
      (key : Str) (nonce : Nonce) (msg : Str)
      → ciphers.unbox_with key nonce (ciphers.box_with key nonce msg) ≡ value msg

  -- Right after the exchange, with the key and the parity.
  pub record IsOpen (stream : Stream Nonce) (kct : Str) (odd : Bool) : Type 0 where
    pub boxer : stream.m_boxer ≡ some (record { nonce = ciphers.nonce_start odd; secret_key = kct })
    pub unboxer :
        stream.m_unboxer ≡ some (record { nonce = ciphers.nonce_start (not odd); secret_key = kct })

  -- A stream that has gone through the exchange.
  abbrev exchanged : Str → Bool → Str → List ℕ → Stream Nonce → Stream Nonce
  exchanged kct odd kexasym count stream = record stream {
    m_kct = kct;
    m_nonce_odd = odd;
    m_packetstart_kexasym = kexasym;
    m_cryptolists_count = count;
    m_boxer = some (record { nonce = ciphers.nonce_start odd; secret_key = kct });
    m_unboxer = some (record { nonce = ciphers.nonce_start (not odd); secret_key = kct });
  }

  exchanged-IsOpen :
      (kct : Str) (odd : Bool) (kexasym : Str) (count : List ℕ) (stream : Stream Nonce)
      → IsOpen (exchanged kct odd kexasym count stream) kct odd
  exchanged-IsOpen kct odd kexasym count stream = record { boxer = refl; unboxer = refl }

  exchange-exchanged :
      (lib : Agreements) (self : MultikeysPair) (them : MultiCryptoStrings) (random : ℕ → Str)
      (should_count : Bool) (packetstart kct : Str) (odd : Bool) (kexasym : Str) (count : List ℕ)
      (stream : Stream Nonce)
      → calculate_kct lib self them should_count random packetstart stream
        ≡ ok kct (record stream { m_cryptolists_count = count; m_packetstart_kexasym = kexasym })
      → calculate_nonce_odd lib self them ≡ value odd
      → exchange ciphers lib random self them should_count packetstart stream
        ≡ ok tt (exchanged kct odd kexasym count stream)
  unfolding exchange create_boxer_with_k
  exchange-exchanged lib self them random should_count packetstart kct odd kexasym count stream e
        f =
      ground (arith, e, f)

  -- The boxer of each side and the unboxer of the other have the same key.
  pub record Linked (near far : Stream Nonce) : Type 0 where
    pub near_boxer : Boxer Nonce
    pub near_unboxer : Boxer Nonce
    pub far_boxer : Boxer Nonce
    pub far_unboxer : Boxer Nonce
    pub near_boxes : near.m_boxer ≡ some near_boxer
    pub near_unboxes : near.m_unboxer ≡ some near_unboxer
    pub far_boxes : far.m_boxer ≡ some far_boxer
    pub far_unboxes : far.m_unboxer ≡ some far_unboxer
    pub out : near_boxer.secret_key ≡ far_unboxer.secret_key
    pub back : far_boxer.secret_key ≡ near_unboxer.secret_key

  pub IsOpen-Linked :
      {near far : Stream Nonce} {kct : Str} {odd odd' : Bool}
      → IsOpen near kct odd
      → IsOpen far kct odd'
      → Linked near far
  IsOpen-Linked a b = record {
    near_boxer = _;
    near_unboxer = _;
    far_boxer = _;
    far_unboxer = _;
    near_boxes = a.boxer;
    near_unboxes = a.unboxer;
    far_boxes = b.boxer;
    far_unboxes = b.unboxer;
    out = refl;
    back = refl;
  }

  pub Linked-sym : {near far : Stream Nonce} → Linked near far → Linked far near
  Linked-sym l = record {
    near_boxer = l.far_boxer;
    near_unboxer = l.far_unboxer;
    far_boxer = l.near_boxer;
    far_unboxer = l.near_unboxer;
    near_boxes = l.far_boxes;
    near_unboxes = l.far_unboxes;
    far_boxes = l.near_boxes;
    far_unboxes = l.near_unboxes;
    out = l.back;
    back = l.out;
  }

  Linked-moved :
      {near far : Stream Nonce} (l : Linked near far) (near' far' : Stream Nonce)
      {boxer unboxer : Boxer Nonce}
      → near'.m_boxer ≡ some boxer
      → boxer.secret_key ≡ l.near_boxer.secret_key
      → near'.m_unboxer ≡ near.m_unboxer
      → far'.m_unboxer ≡ some unboxer
      → unboxer.secret_key ≡ l.far_unboxer.secret_key
      → far'.m_boxer ≡ far.m_boxer
      → Linked near' far'
  Linked-moved l near' far' {boxer} {unboxer} boxes same kept unboxes same' kept' = record {
    near_boxer = boxer;
    near_unboxer = l.near_unboxer;
    far_boxer = l.far_boxer;
    far_unboxer = unboxer;
    near_boxes = boxes;
    near_unboxes = kept ∙ l.near_unboxes;
    far_boxes = kept' ∙ l.far_boxes;
    far_unboxes = unboxes;
    out = same ∙ l.out ∙ sym same';
    back = l.back;
  }

  -- Between two streams whose boxers and unboxers share their keys, any message boxed at one is unboxed at
  -- the other to the same message, by the nonce that box returned, and the streams stay such a pair, also
  -- where the message is lost: the other's state need not have changed.
  pub unbox-box :
      Opens
      → (near far : Stream Nonce) (msg : Str) → Linked near far
      → (cipher : Str) × (nonce : Nonce) × (near' far' : Stream Nonce) × (box ciphers msg near
          ≡ ok (cipher, nonce) near')
        × (unbox ciphers cipher (some nonce) far ≡ ok msg far')
        × Linked near' far'
        × Linked near' far
  unfolding box unbox
  unbox-box opens near far msg l =
      let near' : Stream Nonce = record near {
        m_boxer = some (record (l.near_boxer) { nonce = ciphers.nonce_next l.near_boxer.nonce });
      } in
      let far' : Stream Nonce = record far {
        m_unboxer = some (record (l.far_unboxer) {
          nonce = ciphers.nonce_given l.far_unboxer.nonce l.near_boxer.nonce;
        });
      } in
      (
        ciphers.box_with l.near_boxer.secret_key l.near_boxer.nonce msg,
        l.near_boxer.nonce,
        near',
        far',
        ground (arith, l.near_boxes),
        ground (arith, l.far_unboxes, l.out, opens l.near_boxer.secret_key l.near_boxer.nonce msg),
        Linked-moved l near' far' refl refl refl refl refl refl,
        Linked-moved l near' far refl refl refl l.far_unboxes refl refl,
      )

  module _ {lib : Agreements} {IsKeyPair : ℕ → Str → Str → Type 0} (d : Documented lib IsKeyPair)
      {alice bob : MultikeysPair} (a : Party IsKeyPair alice) (b : Party IsKeyPair bob) where
    -- exchange_start at the initiator succeeds, and so does exchange_done at the respondent that gets a
    -- packet start with the initiator's passwords. Both streams are then open with the same key, and
    -- with nonces of opposite parity, for two parties whose public keys have different hashes; and each
    -- has counted, for its ephemeral keys, the systems in which both have keys.
    pub exchange-IsOpen :
        (random random' : ℕ → Str) (will_new_id : Bool) (initiator respondent : Stream Nonce)
        (hash_a hash_b : Str)
        → Sized random
        → initiator.m_side_initiator ≡ true
        → respondent.m_side_initiator ≡ false
        → hash_of lib alice.m_pub ≡ value hash_a
        → hash_of lib bob.m_pub ≡ value hash_b
        → length hash_a ≡ length hash_b
        → hash_a ≢ hash_b
        → (kct : Str) × (odd : Bool) × (opened : Stream Nonce) × (exchange_start ciphers lib random
              alice bob.m_pub will_new_id initiator
            ≡ ok tt opened)
          × IsOpen opened kct odd
          × (opened.m_packetstart_ide ≡ initiator.m_packetstart_ide)
          × (will_new_id ≡ true
              → length initiator.m_cryptolists_count ≡ system_type_end
              → opened.m_cryptolists_count ≡ used_systems alice.m_pub bob.m_pub system_type_end 0)
          × ((packetstart : Str)
              → parse_packetstart_kexasym packetstart ≡ value opened.m_packetstart_kexasym
              → (answered : Stream Nonce) × (exchange_done ciphers lib random' bob alice.m_pub
                    packetstart respondent
                  ≡ ok tt answered)
                × IsOpen answered kct (not odd)
                × (length respondent.m_cryptolists_count ≡ system_type_end
                    → answered.m_cryptolists_count
                      ≡ used_systems bob.m_pub alice.m_pub system_type_end 0))
    unfolding calculate_nonce_odd
    exchange-IsOpen random random' will_new_id initiator respondent hash_a hash_b sized first second
          ha hb lengths different =
        let (kct, kexasym, kexasym', size, (count, starts, counted), answers) =
          calculate_kct-agrees d a b random random' will_new_id true initiator respondent sized
            first second in
        let odd : Bool = str_less hash_b hash_a in
        let parity : str_less hash_a hash_b ≡ not odd =
          less_opposite hash_a hash_b lengths different in
        (
          kct,
          odd,
          exchanged kct odd kexasym count initiator,
          exchange-exchanged lib alice bob.m_pub random will_new_id [] kct odd kexasym count
              initiator starts (ground (arith, ha, hb)),
          exchanged-IsOpen kct odd kexasym count initiator,
          refl,
          counted,
          λ packetstart parsed.
              let (count', done, counted') = answers packetstart parsed in
              (
                exchanged kct (not odd) kexasym' count' respondent,
                exchange-exchanged lib bob alice.m_pub random' true packetstart kct (not odd)
                    kexasym' count' respondent done (ground (arith, ha, hb, parity)),
                exchanged-IsOpen kct (not odd) kexasym' count' respondent,
                counted' refl,
              ),
        )
