-- ===== src/Crypto/MultiSign/Save/RoundTrip.antt =====
-- What load_from_bin of c_multisign reads back of what serialize_bin wrote.
use galaxy.Prelude.{
  ℕ, zero, suc, ◌+◌, ◌≡◌, ◌≢◌, refl, sym, ap, ◌∙◌, List, [], ◌∷◌, ◌++◌, append_assoc, append-nil,
  some, get_elem?, set, get_elem?-set, set-set, set_same, drop, subst, length, arith,
}
use galaxy.Outcome.{ok}
use galaxy.Try.{value}
use galaxy.Serialize.Generator.{Str, append, push_byte_u}
use galaxy.Serialize.Parser.{pop_byte_u, parser_of_string}
use galaxy.Serialize.Codec.{string_codec}
use galaxy.Serialize.Vectors.{
  vector, FitsAll, push_vector_object-vector, pop_vector_object-vector, push_vector_string-object,
  pop_vector_string-object,
}
use galaxy.Crypto.Systems.{ed25519, ntru_sign}
use galaxy.Crypto.MultiCryptoStrings.{
  MultiCryptoStrings, at, add_key, get_key, get_count_keys_in_system,
}
use galaxy.Crypto.MultiSign.Save.{
  add_signature_vec, signatures_from, get_signature_vec, write_signatures, serialize_signatures,
  read_signatures, load_signatures_of, load_signatures,
}

module _ {A : Type 0} where
  get_elem?-set_other :
      (xs : List A) (n m : ℕ) (v : A) → n ≢ m → get_elem? (set xs n v) m ≡ get_elem? xs m
  get_elem?-set_other [] n m v h = refl
  get_elem?-set_other (x ∷ xs) zero zero v h = absurd (h refl)
  get_elem?-set_other (x ∷ xs) zero (suc m) v h = refl
  get_elem?-set_other (x ∷ xs) (suc n) zero v h = refl
  get_elem?-set_other (x ∷ xs) (suc n) (suc m) v h =
      get_elem?-set_other xs n m v (λ e. h (ap suc e))

abbrev pub with_list : ℕ → List Str → MultiCryptoStrings → MultiCryptoStrings
with_list sys keys self = record self {
  m_cryptolists_general = set self.m_cryptolists_general sys keys;
}

pub add_signature_vec-with_list :
    (sys : ℕ) (signatures old : List Str) (self : MultiCryptoStrings)
    → get_elem? self.m_cryptolists_general sys ≡ some old
    → add_signature_vec sys signatures self ≡ ok tt (with_list sys (old ++ signatures) self)
unfolding add_signature_vec add_key at
add_signature_vec-with_list sys [] old self h =
    ap (λ lists. ok tt (record self { m_cryptolists_general = lists }))
      (sym (rw (append-nil old) (set_same self.m_cryptolists_general sys old h)))
add_signature_vec-with_list sys (s ∷ signatures) old self h =
    let lists = self.m_cryptolists_general in
    let added = with_list sys (old ++ (s ∷ [])) self in
    let rest =
      add_signature_vec-with_list sys signatures (old ++ (s ∷ [])) added
        (get_elem?-set lists sys (old ++ (s ∷ [])) h) in
    ground (
      arith,
      h,
      rest,
      set-set lists sys (old ++ (s ∷ [])) ((old ++ (s ∷ [])) ++ signatures),
      append_assoc old (s ∷ []) signatures,
    )

drop_step :
    {A : Type 0}
    → (xs : List A) (i : ℕ) {x : A} → get_elem? xs i ≡ some x
    → drop i xs ≡ x ∷ drop (suc i) xs
drop_step [] i h = cc h
drop_step (y ∷ xs) zero h = ground (arith, h)
drop_step (y ∷ xs) (suc i) h = drop_step xs i h

get_elem?_below :
    {A : Type 0}
    → (xs : List A) (i rounds : ℕ) → suc rounds + i ≡ length xs
    → (x : A) × (get_elem? xs i ≡ some x)
get_elem?_below [] i rounds h = absurd (omega (arith, h))
get_elem?_below (x ∷ xs) zero rounds h = (x, refl)
get_elem?_below (x ∷ xs) (suc i) rounds h = get_elem?_below xs i rounds (omega (arith, h))

drop_all : {A : Type 0} → (xs : List A) → drop (length xs) xs ≡ []
drop_all [] = refl
drop_all (x ∷ xs) = drop_all xs

module _ (self : MultiCryptoStrings) (sys : ℕ) (keys : List Str)
    (there : get_elem? self.m_cryptolists_general sys ≡ some keys) where
  signatures_from-drop :
      (rounds i : ℕ)
      → rounds + i ≡ length keys
      → signatures_from self sys rounds i ≡ value (drop i keys)
  unfolding signatures_from get_key at
  signatures_from-drop zero i h =
      let whole : length keys ≡ i = omega (arith, h) in
      ap value (sym (subst (λ n. drop n keys ≡ []) whole (drop_all keys)))
  signatures_from-drop (suc rounds) i h =
      let (x, e) = get_elem?_below keys i rounds h in
      ground (
        arith,
        there,
        e,
        drop_step keys i e,
        signatures_from-drop rounds (suc i) (omega (arith, h)),
      )

  get_signature_vec-keys : get_signature_vec self sys ≡ value keys
  unfolding get_signature_vec get_count_keys_in_system at
  get_signature_vec-keys = ground (arith, there, signatures_from-drop (length keys) 0 (omega arith))

  write_signatures-vector :
      (m_str : Str)
      → FitsAll string_codec keys
      → write_signatures self sys m_str ≡ ok tt (m_str ++ (sys ∷ vector string_codec keys))
  unfolding write_signatures push_byte_u append
  write_signatures-vector m_str fits = ground (
    arith,
    get_signature_vec-keys,
    push_vector_string-object keys (m_str ++ (sys ∷ [])),
    push_vector_object-vector string_codec keys (m_str ++ (sys ∷ [])) fits,
    append_assoc m_str (sys ∷ []) (vector string_codec keys),
  )

load_signatures_of-vector :
    (sys : ℕ) (keys old : List Str) (rest : Str) (self : MultiCryptoStrings)
    → FitsAll string_codec keys
    → get_elem? self.m_cryptolists_general sys ≡ some old
    → load_signatures_of sys (sys ∷ (vector string_codec keys ++ rest)) self
      ≡ ok rest (with_list sys (old ++ keys) self)
unfolding load_signatures_of read_signatures pop_byte_u
load_signatures_of-vector sys keys old rest self fits there = ground (
  arith,
  pop_vector_string-object (vector string_codec keys ++ rest),
  pop_vector_object-vector string_codec keys rest fits,
  add_signature_vec-with_list sys keys old self there,
)

-- Any collection with an entry for both systems for signing, whose signatures and their numbers are within the
-- limits of the format, is serialized by serialize_bin of c_multisign; and load_from_bin of that string into
-- any c_multisign with an entry for both succeeds, and appends to the signatures it had in those two systems
-- the ones that were saved, and changes nothing else.
pub load_signatures-serialize_signatures :
    (saved target : MultiCryptoStrings) (ed ntru old_ed old_ntru : List Str)
    → get_elem? saved.m_cryptolists_general ed25519 ≡ some ed
    → get_elem? saved.m_cryptolists_general ntru_sign ≡ some ntru
    → FitsAll string_codec ed
    → FitsAll string_codec ntru
    → get_elem? target.m_cryptolists_general ed25519 ≡ some old_ed
    → get_elem? target.m_cryptolists_general ntru_sign ≡ some old_ntru
    → (out : Str) × (serialize_signatures saved ≡ value out)
      × (load_signatures out target
          ≡ ok tt (record target {
            m_cryptolists_general =
                set
                  (set target.m_cryptolists_general ed25519 (old_ed ++ ed))
                  ntru_sign
                  (old_ntru ++ ntru);
          }))
unfolding serialize_signatures load_signatures parser_of_string
load_signatures-serialize_signatures saved target ed ntru old_ed old_ntru there there' fits fits'
      had had' =
    let first = ed25519 ∷ vector string_codec ed in
    let second = ntru_sign ∷ vector string_codec ntru in
    let ed_added = with_list ed25519 (old_ed ++ ed) target in
    let apart : ed25519 ≢ ntru_sign = λ e. omega (arith, e) in
    let loads = load_signatures_of-vector ed25519 ed old_ed second target fits had in
    let loads' = load_signatures_of-vector ntru_sign ntru old_ntru [] ed_added fits' (
      get_elem?-set_other target.m_cryptolists_general ed25519 ntru_sign (old_ed ++ ed) apart
      ∙ had') in
    (
      first ++ second,
      ground (
        arith,
        write_signatures-vector saved ed25519 ed there [] fits,
        write_signatures-vector saved ntru_sign ntru there' first fits',
      ),
      ground (arith, loads, loads', append-nil (vector string_codec ntru)),
    )
