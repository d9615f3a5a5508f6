-- ===== src/Crypto/Kex/Agreement.antt =====
-- Two sides of a key exchange (src/crypto/crypto.cpp) that hold each other's public keys.
use galaxy.Prelude.{
  ℕ, zero, suc, ◌<◌, ◌≡◌, refl, sym, subst, ap, ◌∙◌, Bool, true, false, List, [], ◌∷◌, ◌++◌,
  append_assoc, append-nil, if◌then◌else◌, length, All, arith, some, get_elem?, Option-cases, inl,
  inr,
}
use galaxy.Try.{Try, value, ◌>>=◌}
use galaxy.Serialize.Generator.{Str}
use galaxy.Serialize.Codec.{IsSane}
use galaxy.Crypto.Systems.{x25519, ntru_ees439ep1, sidh}
use galaxy.Crypto.Fingerprint.{hash1_size}
use galaxy.Crypto.MultiCryptoStrings.{MultiCryptoStrings, at, get_key, get_count_keys_in_system}
use galaxy.Crypto.KeyPairs.{MultikeysPair}
use galaxy.Crypto.Kex.{Agreements, random_len, Kexasym, Kex, push_back_at, kexasym_at}

-- What is documented of the algorithms, where `IsKeyPair sys prv pub` says that a generator of the
-- system `sys` gave the private key `prv` together with the public key `pub`.
pub record Documented (lib : Agreements) (IsKeyPair : ℕ → Str → Str → Type 0) : Type 0 where
  pub hash1_length : (s : Str) → length (lib.hash1 s) ≡ hash1_size
  pub key_agreement_comm :
      {a b a_pub b_pub : Str}
      → IsKeyPair x25519 a a_pub
      → IsKeyPair x25519 b b_pub
      → lib.key_agreement a b_pub ≡ lib.key_agreement b a_pub
  pub sidh_agreement_comm :
      {a b a_pub b_pub : Str}
      → IsKeyPair sidh a a_pub
      → IsKeyPair sidh b b_pub
      → lib.sidh_agreement a a_pub b_pub ≡ lib.sidh_agreement b b_pub a_pub
  pub ntru_decrypt-ntru_encrypt :
      (password : Str) {b b_pub : Str}
      → length password ≡ random_len
      → IsKeyPair ntru_ees439ep1 b b_pub
      → lib.ntru_decrypt (lib.ntru_encrypt password b_pub) b ≡ value password
  pub ntru_encrypt-IsSane :
      (password b_pub : Str)
      → length password ≡ random_len
      → IsSane (lib.ntru_encrypt password b_pub)

-- randombytes_locked returns as many octets as it is asked for.
abbrev pub Sized : (ℕ → Str) → Type 0
Sized random = (n : ℕ) → length (random n) ≡ random_len

-- Every public key stands at the place of its private key.
abbrev pub Matching : (ℕ → Str → Str → Type 0) → MultikeysPair → Type 0
Matching IsKeyPair pair =
    (sys n : ℕ) (key : Str)
    → get_key pair.m_pub sys n ≡ value key
    → (prv : Str) × (get_key pair.m_prv sys n ≡ value prv) × IsKeyPair sys prv key

-- The map of passwords when `passwords` were pushed back: nothing, or one entry.
abbrev pub tosend_of : List Str → Kexasym
tosend_of [] = []
tosend_of (p ∷ passwords) = (b't', p ∷ passwords) ∷ []

abbrev pub kex_of : Str → List Str → Kex
kex_of accum passwords = record { kct_accum = accum; tosend = tosend_of passwords }

pub push_back_at-tosend_of :
    (passwords : List Str) (p : Str)
    → push_back_at b't' p (tosend_of passwords) ≡ tosend_of (passwords ++ (p ∷ []))
unfolding push_back_at
push_back_at-tosend_of [] p = refl
push_back_at-tosend_of (q ∷ passwords) p = refl

pub at-append : (xs ys : List Str) (x : Str) → at (xs ++ (x ∷ ys)) (length xs) ≡ value x
unfolding at
at-append [] ys x = refl
at-append (y ∷ xs) ys x = at-append xs ys x

-- The receiver finds a password at its number.
pub kexasym_at-tosend_of :
    (xs ys : List Str) (x : Str)
    → (kexasym_at b't' (tosend_of (xs ++ (x ∷ ys))) >>= λ passwords. at passwords (length xs))
      ≡ value x
unfolding kexasym_at
kexasym_at-tosend_of [] ys x = at-append [] ys x
kexasym_at-tosend_of (y ∷ xs) ys x = at-append (y ∷ xs) ys x

pub get_elem?-below :
    {A : Type 0} (keys : List A) (n : ℕ)
    → n < length keys
    → (key : A) × (get_elem? keys n ≡ some key)
get_elem?-below [] n h = absurd (omega (arith, h))
get_elem?-below (key ∷ keys) zero h = (key, refl)
get_elem?-below (key ∷ keys) (suc n) h = get_elem?-below keys n (omega (arith, h))

pub get_key_found :
    (keys : MultiCryptoStrings) (sys n : ℕ) {system : List Str} {key : Str}
    → get_elem? keys.m_cryptolists_general sys ≡ some system
    → get_elem? system n ≡ some key
    → get_key keys sys n ≡ value key
unfolding get_key at
get_key_found keys sys n there found = ground (arith, there, found)

-- Below the count of keys there is a key.
pub get_key-below :
    (keys : MultiCryptoStrings) (sys count n : ℕ)
    → get_count_keys_in_system keys sys ≡ value count
    → n < count
    → (key : Str) × (get_key keys sys n ≡ value key)
unfolding get_count_keys_in_system at
get_key-below keys sys count n e h =
    elim (Option-cases (get_elem? keys.m_cryptolists_general sys)) [
      | inl missing ↦ ground (arith, missing, e)
      | inr (system, there) ↦
          let same : length system ≡ count = ground (arith, there, e) in
          let (key, found) = get_elem?-below system n (omega (arith, same, h)) in
          (key, get_key_found keys sys n there found)
    ]

All-append : (xs ys : List Str) → All IsSane xs → All IsSane ys → All IsSane (xs ++ ys)
All-append [] ys hx hy = hy
All-append (x ∷ xs) ys hx hy = (hx.0, All-append xs ys hx.1 hy)

-- Both sides' part of an exchange succeeds. They end with the same key, what is sent grows, and what is
-- sent later does not matter to the receiver.
pub record Agrees (Sent : List Str → Type 0) (send : Try Kex) (receive : Kexasym → Try Kex)
    (passwords : List Str) : Type 0 where
  pub accum : Str
  pub more : List Str
  pub accum_length : length accum ≡ hash1_size
  pub sent : Sent (passwords ++ more)
  pub sane : All IsSane more
  pub sends : send ≡ value (kex_of accum (passwords ++ more))
  pub receives :
      (later : List Str)
      → receive (tosend_of ((passwords ++ more) ++ later)) ≡ value (kex_of accum [])

pub Agrees-value :
    {Sent : List Str → Type 0} (accum : Str) (passwords : List Str)
    → length accum ≡ hash1_size
    → Sent passwords
    → Agrees Sent (value (kex_of accum passwords)) (λ received. value (kex_of accum [])) passwords
Agrees-value {Sent} accum passwords l h = record {
  accum = accum;
  more = [];
  accum_length = l;
  sent = subst Sent (sym (append-nil passwords)) h;
  sane = tt;
  sends = ap (λ p. value (kex_of accum p)) (sym (append-nil passwords));
  receives = λ later. refl;
}

pub Agrees-weaken :
    {Sent Sent' : List Str → Type 0} {send : Try Kex} {receive : Kexasym → Try Kex}
    {passwords : List Str}
    → ((p : List Str) → Sent p → Sent' p)
    → Agrees Sent send receive passwords
    → Agrees Sent' send receive passwords
Agrees-weaken {passwords = passwords} weaken a = record {
  accum = a.accum;
  more = a.more;
  accum_length = a.accum_length;
  sent = weaken (passwords ++ a.more) a.sent;
  sane = a.sane;
  sends = a.sends;
  receives = a.receives;
}

-- Both sides make the same test.
pub if-Agrees :
    (test : Bool) {Sent : List Str → Type 0} {send send' : Try Kex}
    {receive receive' : Kexasym → Try Kex} {passwords : List Str}
    → (test ≡ true → Agrees Sent send receive passwords)
    → (test ≡ false → Agrees Sent send' receive' passwords)
    → Agrees Sent
        (if test then send else send')
        (λ received. if test then receive received else receive' received)
        passwords
if-Agrees true yes' no' = yes' refl
if-Agrees false yes' no' = no' refl

pub Agrees-bind :
    {Sent Sent' : List Str → Type 0} {send : Try Kex} {receive : Kexasym → Try Kex}
    {passwords : List Str} (send' : Kex → Try Kex) (receive' : Kexasym → Kex → Try Kex)
    → Agrees Sent send receive passwords
    → ((accum : Str) (sent : List Str)
        → length accum ≡ hash1_size
        → Sent sent
        → Agrees Sent'
            (send' (kex_of accum sent))
            (λ received. receive' received (kex_of accum []))
            sent)
    → Agrees Sent' (send >>= send') (λ received. receive received >>= receive' received) passwords
Agrees-bind {Sent} {Sent'} {send} {receive} {passwords} send' receive' first second =
    let next = second first.accum (passwords ++ first.more) first.accum_length first.sent in
    record {
      accum = next.accum;
      more = first.more ++ next.more;
      accum_length = next.accum_length;
      sent = subst Sent' (append_assoc passwords first.more next.more) next.sent;
      sane = All-append first.more next.more first.sane next.sane;
      sends = rw first.sends (
          next.sends
          ∙ ap (λ p. value (kex_of next.accum p)) (append_assoc passwords first.more next.more));
      receives = λ later.
          rw
            (
              sym (append_assoc passwords first.more next.more),
              append_assoc (passwords ++ first.more) next.more later,
              first.receives (next.more ++ later),
              ◌>>=◌,
              sym (append_assoc (passwords ++ first.more) next.more later),
            )
            (next.receives later);
    }
