-- ===== src/Crypto/Stream/Tests.antt =====
-- Streams of src/crypto/crypto.cpp between two small collections of keys, with ciphers and agreements
-- that satisfy what is documented of the real ones.
use galaxy.Prelude.{
  ℕ, ◌+◌, ◌*◌, ◌%◌, ◌≡◌, refl, ap, true, false, List, [], ◌∷◌, ◌==◌, if◌then◌else◌, length,
  replicate, set, arith, some, ==_self,
}
use galaxy.Outcome.{ok, runtime_error}
use galaxy.Try.{Try, value, throws}
use galaxy.Serialize.Generator.{Str}
use galaxy.Crypto.Systems.{
  x25519, ntru_ees439ep1, sidh, system_type_end, t_crypto_system_type_to_id, HasId,
}
use galaxy.Crypto.MultiCryptoStrings.{MultiCryptoStrings, get_key, use_open, use_secret}
use galaxy.Crypto.MultiCryptoStrings.Save.{Saveable}
use galaxy.Crypto.KeyPairs.{MultikeysPair}
use galaxy.Crypto.Kex.{Agreements, parse_packetstart_kexasym}
use galaxy.Crypto.Kex.Agreement.{Documented, Sized}
use galaxy.Crypto.Stream.{Ciphers, Stream, new_stream, calculate_kct}
use galaxy.Crypto.Stream.Agreement.{Party, Calculated, calculate_kct-agrees}
use galaxy.Crypto.Stream.Delivery.{Opens, Linked, unbox-box}
use galaxy.Crypto.Stream.Exchange.{box, unbox}

abbrev pub toy_sum : Str → ℕ
toy_sum [] = 7
toy_sum (c ∷ s) = (c + 3 * toy_sum s) % 256

abbrev pub toy_hash : Str → Str
toy_hash s = toy_sum s ∷ replicate 63 0

abbrev pub toy_secret : Str → Str → Str
toy_secret mine theirs = (toy_sum mine + toy_sum theirs) % 256 ∷ []

abbrev pub toy : Agreements
toy = record {
  hash1 = toy_hash;
  key_agreement = toy_secret;
  ntru_encrypt = λ password key. password;
  ntru_decrypt = λ encrypted key. value encrypted;
  sidh_agreement = λ prv mine theirs. toy_secret prv theirs;
  enable_crypto_ntru = true;
  enable_crypto_sidh = true;
}

-- The public key is the private one.
abbrev pub Same : ℕ → Str → Str → Type 0
Same sys prv key = key ≡ prv

toy_secret_comm :
    {a b a_pub b_pub : Str} → a_pub ≡ a → b_pub ≡ b → toy_secret a b_pub ≡ toy_secret b a_pub
toy_secret_comm {a} {b} e f = rw (e, f) (ap (λ n. (n % 256) ∷ []) (omega arith))

pub toy-Documented : Documented toy Same
toy-Documented = record {
  hash1_length = λ s. refl;
  key_agreement_comm = toy_secret_comm;
  sidh_agreement_comm = toy_secret_comm;
  ntru_decrypt-ntru_encrypt = λ password size pair. refl;
  ntru_encrypt-IsSane = λ password key size. omega (arith, size);
}

abbrev pub toy_random : ℕ → Str
toy_random n = replicate 65 (n % 256)

pub toy_random-Sized : Sized toy_random
toy_random-Sized n = refl

-- A pair with the given keys of X25519, NTRU and SIDH.
abbrev pub toy_keys : List Str → List Str → List Str → ℕ → MultiCryptoStrings
toy_keys x t s crypto_use = record {
  m_cryptolists_general =
      set (set (set (replicate system_type_end []) x25519 x) ntru_ees439ep1 t) sidh s;
  m_hash_cached = [];
  m_crypto_use = crypto_use;
}

abbrev pub toy_pair : List Str → List Str → List Str → MultikeysPair
toy_pair x t s = record { m_pub = toy_keys x t s use_open; m_prv = toy_keys x t s use_secret }

pub toy_pair-Party :
    (x t s : List Str)
    → Saveable 0 (toy_keys x t s use_open).m_cryptolists_general
    → Party Same (toy_pair x t s)
unfolding get_key
toy_pair-Party x t s saveable = record {
  public_array = refl;
  private_array = refl;
  saveable = saveable;
  matching = λ sys n key h. (key, h, refl);
}

pub x-HasId : HasId x25519
unfolding t_crypto_system_type_to_id
x-HasId = (b'x', refl)

pub t-HasId : HasId ntru_ees439ep1
unfolding t_crypto_system_type_to_id
t-HasId = (b't', refl)

pub s-HasId : HasId sidh
unfolding t_crypto_system_type_to_id
s-HasId = (b's', refl)

abbrev alice : MultikeysPair
alice = toy_pair ((1 ∷ []) ∷ []) ((2 ∷ []) ∷ []) []

abbrev bob : MultikeysPair
bob = toy_pair ((3 ∷ []) ∷ (4 ∷ []) ∷ []) ((5 ∷ []) ∷ (6 ∷ []) ∷ []) ((9 ∷ []) ∷ [])

alice-Party : Party Same alice
alice-Party =
    toy_pair-Party _ _ _
      (x-HasId, (omega arith, (omega arith, tt)), (t-HasId, (omega arith, (omega arith, tt)), tt))

bob-Party : Party Same bob
bob-Party = toy_pair-Party _ _ _ (
  x-HasId,
  (omega arith, (omega arith, (omega arith, tt))),
  (
    t-HasId,
    (omega arith, (omega arith, (omega arith, tt))),
    (s-HasId, (omega arith, (omega arith, tt)), tt),
  ),
)

calculate_kct-agrees_example :
    (kct kexasym kexasym' : Str) × (length kct ≡ 32)
    × Calculated alice bob.m_pub true
        (calculate_kct toy alice bob.m_pub true toy_random [] (new_stream {Nonce = ℕ} true))
        kct
        kexasym
        (new_stream true)
    × ((packetstart : Str)
        → parse_packetstart_kexasym packetstart ≡ value kexasym
        → Calculated bob alice.m_pub true
            (calculate_kct toy bob alice.m_pub true toy_random packetstart
              (new_stream {Nonce = ℕ} false))
            kct
            kexasym'
            (new_stream false))
calculate_kct-agrees_example =
    calculate_kct-agrees toy-Documented alice-Party bob-Party toy_random toy_random true true
      (new_stream true) (new_stream false) toy_random-Sized refl refl

-- A cipher that writes the nonce before the text, and asks for it.
abbrev pub toy_unbox : Str → ℕ → Str → Try Str
toy_unbox key nonce [] = throws runtime_error
toy_unbox key nonce (c ∷ cipher) = if c == nonce then value cipher else throws runtime_error

abbrev pub toy_ciphers : Ciphers ℕ
toy_ciphers = record {
  nonce_start = λ odd. if odd then 1 else 0;
  nonce_next = λ nonce. nonce + 2;
  nonce_given = λ own given. own;
  box_with = λ key nonce msg. nonce ∷ msg;
  unbox_with = toy_unbox;
}

pub toy_ciphers-Opens : Opens toy_ciphers
toy_ciphers-Opens key nonce msg = ground (arith, ==_self nonce)

abbrev open_stream : ℕ → ℕ → Stream ℕ
open_stream mine theirs = record (new_stream true) {
  m_boxer = some (record { nonce = mine; secret_key = 8 ∷ [] });
  m_unboxer = some (record { nonce = theirs; secret_key = 8 ∷ [] });
}

unbox-box_example :
    (cipher : Str) × (nonce : ℕ) × (near' far' : Stream ℕ) × (box toy_ciphers
        (7 ∷ [])
        (open_stream 0 1)
      ≡ ok (cipher, nonce) near')
    × (unbox toy_ciphers cipher (some nonce) (open_stream 1 4) ≡ ok (7 ∷ []) far')
    × Linked toy_ciphers near' far'
    × Linked toy_ciphers near' (open_stream 1 4)
unbox-box_example =
    unbox-box toy_ciphers toy_ciphers-Opens (open_stream 0 1) (open_stream 1 4) (7 ∷ []) (record {
      near_boxer = _;
      near_unboxer = _;
      far_boxer = _;
      far_unboxer = _;
      near_boxes = refl;
      near_unboxes = refl;
      far_boxes = refl;
      far_unboxes = refl;
      out = refl;
      back = refl;
    })
