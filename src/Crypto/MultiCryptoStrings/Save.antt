-- ===== src/Crypto/MultiCryptoStrings/Save.antt =====
-- serialize_bin and load_from_bin of c_multicryptostrings, against each other.
use galaxy.Prelude.{
  ℕ, ◌+◌, ◌≡◌, ◌≤◌, ◌<◌, refl, sym, ap, ◌∙◌, List, [], ◌∷◌, ◌++◌, append_assoc, append-nil, lt→ltb,
  length, length-append, set, arith,
}
use galaxy.Outcome.{ok, ◌>>=◌}
use galaxy.Try.{value}
use galaxy.Serialize.Generator.{Str, push_bytes_n, push_byte_u}
use galaxy.Serialize.Parser.{pop_byte_u, is_end}
use galaxy.Serialize.Strings.{pop_bytes_n-append}
use galaxy.Serialize.Varint.{uvarint, push_integer_uvarint-uvarint, pop_integer_uvarint-uvarint}
use galaxy.Serialize.Codec.{string_codec}
use galaxy.Serialize.Vectors.{FitsAll, vector, push_vector_object-vector, pop_vector_object-vector}
use galaxy.Crypto.Systems.{t_crypto_system_type_to_id, HasId, from_id-to_id}
use galaxy.Crypto.MultiCryptoStrings.{
  MultiCryptoStrings, Loader, count_used, push_systems, serialize_into_gen, serialize_bin,
  assign_system, load_systems, load_map, load_parsed, load_from_bin, set_hash_dirty,
}

-- Every system from `ix` on that has keys has an ID, and its keys survive.
abbrev pub Saveable : ℕ → List (List Str) → Type 0
Saveable ix [] = Unit {0}
Saveable ix ([] ∷ systems) = Saveable (ix + 1) systems
Saveable ix ((key ∷ keys) ∷ systems) =
    HasId ix × FitsAll string_codec (key ∷ keys) × Saveable (ix + 1) systems

-- The systems of the first list that have keys, and those of the second where it has none.
unfoldable pub overlay : List (List Str) → List (List Str) → List (List Str)
overlay [] old = []
overlay (keys ∷ systems) [] = []
overlay ([] ∷ systems) (o ∷ old) = o ∷ overlay systems old
overlay ((key ∷ keys) ∷ systems) (o ∷ old) = (key ∷ keys) ∷ overlay systems old

-- An object and the octets that are still to be read.
abbrev pub loader : MultiCryptoStrings → List (List Str) → Str → Loader
loader self lists now = record { self = record self { m_cryptolists_general = lists }; now = now }

abbrev pub Loads : ℕ → List (List Str) → Str → Type 0
Loads ix systems out =
    (self : MultiCryptoStrings) (before old : List (List Str)) (rest : Str)
    → length before ≡ ix
    → length old ≡ length systems
    → load_systems (count_used systems) (loader self (before ++ old) (out ++ rest))
      ≡ ok tt (loader self (before ++ overlay systems old) rest)

set-append :
    {A : Type 0} (before : List A) (o : A) (old : List A) (x : A)
    → set (before ++ (o ∷ old)) (length before) x ≡ before ++ (x ∷ old)
set-append [] o old x = refl
set-append (b ∷ before) o old x = ap (◌∷◌ b) (set-append before o old x)

assign_system-append :
    (ix : ℕ) (self : MultiCryptoStrings) (before old : List (List Str)) (o keys : List Str)
    (now : Str)
    → length before ≡ ix
    → assign_system ix keys (loader self (before ++ (o ∷ old)) now)
      ≡ ok tt (loader self (before ++ (keys ∷ old)) now)
unfolding assign_system
assign_system-append ix self before old o keys now h =
    let inside : ix < length (before ++ (o ∷ old)) =
      omega (arith, length-append before (o ∷ old)) in
    let written : set (before ++ (o ∷ old)) ix keys ≡ before ++ (keys ∷ old) =
      ap (λ n. set (before ++ (o ∷ old)) n keys) (sym h) ∙ set-append before o old keys in
    rw (lt→ltb _ _ inside, written)

load_none :
    (self : MultiCryptoStrings) (before old : List (List Str)) (rest : Str)
    → length old ≡ 0
    → load_systems 0 (loader self (before ++ old) rest) ≡ ok tt (loader self (before ++ []) rest)
unfolding load_systems
load_none self before [] rest h = refl
load_none self before (o ∷ old) rest h = absurd (omega arith)

module _ (ix : ℕ) (systems : List (List Str)) (out : Str) (loads : Loads (ix + 1) systems out) where
  -- The systems behind one that holds `x` by now.
  load_behind :
      (self : MultiCryptoStrings) (before old : List (List Str)) (x : List Str) (rest : Str)
      → length before ≡ ix
      → length old ≡ length systems
      → load_systems (count_used systems) (loader self (before ++ (x ∷ old)) (out ++ rest))
        ≡ ok tt (loader self (before ++ (x ∷ overlay systems old)) rest)
  load_behind self before old x rest h len =
      rw
        (
          sym (append_assoc before (x ∷ []) old),
          sym (append_assoc before (x ∷ []) (overlay systems old)),
        )
        (loads self (before ++ (x ∷ [])) old rest (omega (arith, length-append before (x ∷ [])))
          len)

  load_skip : Loads ix ([] ∷ systems) out
  unfolding count_used overlay
  load_skip self before [] rest h len = absurd (omega arith)
  load_skip self before (o ∷ old) rest h len = load_behind self before old o rest h (omega arith)

  load_one :
      (id : ℕ) (key : Str) (keys : List Str)
      → t_crypto_system_type_to_id ix ≡ value id
      → FitsAll string_codec (key ∷ keys)
      → Loads ix ((key ∷ keys) ∷ systems) (uvarint id ++ (vector string_codec (key ∷ keys) ++ out))
  unfolding count_used overlay load_systems
  load_one id key keys has fits self before [] rest h len = absurd (omega arith)
  load_one id key keys has fits self before (o ∷ old) rest h len =
      let (named, small, inside, enumerator) = from_id-to_id ix id has in
      let keys' : Str = vector string_codec (key ∷ keys) in
      rw
        (
          append_assoc (uvarint id) (keys' ++ out) rest,
          append_assoc keys' out rest,
          pop_integer_uvarint-uvarint id (keys' ++ (out ++ rest)) (omega arith),
          ◌>>=◌,
          named,
          ◌>>=◌,
          pop_vector_object-vector string_codec (key ∷ keys) (out ++ rest) fits,
          ◌>>=◌,
          assign_system-append ix self before old o (key ∷ keys) (out ++ rest) h,
          ◌>>=◌,
        )
        (load_behind self before old (key ∷ keys) rest h (omega arith))

abbrev pub Pushes : ℕ → List (List Str) → Str → Type 0
Pushes ix systems out =
    (m_str : Str) (n : ℕ)
    → push_systems ix systems n m_str ≡ ok (n + count_used systems) (m_str ++ out)

push_one :
    (ix id : ℕ) (systems : List (List Str)) (out key : Str) (keys : List Str)
    → Pushes (ix + 1) systems out
    → t_crypto_system_type_to_id ix ≡ value id
    → FitsAll string_codec (key ∷ keys)
    → Pushes ix ((key ∷ keys) ∷ systems) (uvarint id ++ (vector string_codec (key ∷ keys) ++ out))
unfolding push_systems count_used
push_one ix id systems out key keys pushes has fits m_str n =
    let (named, small, inside, enumerator) = from_id-to_id ix id has in
    let id' : Str = uvarint id in
    let keys' : Str = vector string_codec (key ∷ keys) in
    ground (
      arith,
      has,
      push_integer_uvarint-uvarint id m_str (omega arith),
      push_vector_object-vector string_codec (key ∷ keys) (m_str ++ id') fits,
      pushes ((m_str ++ id') ++ keys') (n + 1),
      append_assoc (m_str ++ id') keys' out,
      append_assoc m_str id' (keys' ++ out),
    )

-- What the loop of serialize_bin writes, the loop of load_from_bin reads.
pub systems_saved :
    (ix : ℕ) (systems : List (List Str))
    → Saveable ix systems
    → (out : Str) × Pushes ix systems out × Loads ix systems out
unfolding push_systems count_used overlay
systems_saved ix [] h = (
  [],
  λ m_str n. rw append-nil (ap (λ k. ok k m_str) (omega arith)),
  λ self before old rest h' len. load_none self before old rest len,
)
systems_saved ix ([] ∷ systems) h =
    let (out, pushes, loads) = systems_saved (ix + 1) systems h in
    (out, pushes, load_skip ix systems out loads)
systems_saved ix ((key ∷ keys) ∷ systems) ((id, has), fits, h) =
    let (out, pushes, loads) = systems_saved (ix + 1) systems h in
    (
      uvarint id ++ (vector string_codec (key ∷ keys) ++ out),
      push_one ix id systems out key keys pushes has fits,
      load_one ix systems out loads id key keys has fits,
    )

pub count_used-le : (systems : List (List Str)) → count_used systems ≤ length systems
unfolding count_used
count_used-le [] = omega arith
count_used-le ([] ∷ systems) = omega (arith, count_used-le systems)
count_used-le ((key ∷ keys) ∷ systems) = omega (arith, count_used-le systems)

-- The whole string: its marks, the number of systems and the systems.
abbrev pub gmk : ℕ → List (List Str) → Str → Str
gmk crypto_use systems out =
    b'G' ∷ b'M' ∷ b'K' ∷ b'a' ∷ crypto_use ∷ (uvarint (count_used systems) ++ out)

pub serialize_body :
    (self : MultiCryptoStrings) (out : Str)
    → count_used self.m_cryptolists_general < 0xffff_ffff_ffff_ffff
    → Pushes 0 self.m_cryptolists_general out
    → serialize_bin self ≡ value (gmk self.m_crypto_use self.m_cryptolists_general out)
unfolding serialize_bin serialize_into_gen push_bytes_n push_byte_u
serialize_body self out few pushes =
    let used : ℕ = count_used self.m_cryptolists_general in
    let start : Str = b'G' ∷ b'M' ∷ b'K' ∷ b'a' ∷ self.m_crypto_use ∷ [] in
    ground (
      arith,
      push_integer_uvarint-uvarint used start (omega arith),
      pushes (start ++ uvarint used) 0,
    )

pub load_body :
    (target : MultiCryptoStrings) (systems : List (List Str)) (out : Str)
    → length systems ≤ 100
    → length target.m_cryptolists_general ≡ length systems
    → Loads 0 systems out
    → load_from_bin (gmk target.m_crypto_use systems out) target
      ≡ ok tt (record target {
        m_cryptolists_general = overlay systems target.m_cryptolists_general;
        m_hash_cached = [];
      })
unfolding load_from_bin load_parsed load_map pop_byte_u is_end set_hash_dirty
load_body target systems out few len loads =
    let body : Str = uvarint (count_used systems) ++ out in
    ground (
      arith,
      pop_bytes_n-append (b'G' ∷ b'M' ∷ b'K' ∷ []) (b'a' ∷ target.m_crypto_use ∷ body),
      count_used-le systems,
      pop_integer_uvarint-uvarint (count_used systems) out (omega (arith, count_used-le systems)),
      append-nil out,
      loads target [] target.m_cryptolists_general [] (omega arith) len,
    )
