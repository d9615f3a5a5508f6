-- ===== src/Serialize/Vectors.antt =====
-- push_vector_object and pop_vector_object: the elements behind their number.
use galaxy.Prelude.{
  ◌<◌, ◌≡◌, refl, ap, ◌∙◌, List, [], ◌∷◌, ◌++◌, append_assoc, append-nil, length, All, arith,
}
use galaxy.Outcome.{ok, ◌>>=◌}
use galaxy.Serialize.Generator.{
  Str, push_each, push_vector_object, push_vector_string, push_varstring,
}
use galaxy.Serialize.Parser.{pop_each, pop_vector_object, pop_vector_string, pop_varstring}
use galaxy.Serialize.Varint.{uvarint, push_integer_uvarint-uvarint, pop_integer_uvarint-uvarint}
use galaxy.Serialize.Codec.{Codec}

abbrev pub concat_map : {A : Type 0} → (A → Str) → List A → Str
concat_map code [] = []
concat_map code (x ∷ xs) = code x ++ concat_map code xs

module _ {A : Type 0} (c : Codec A) where
  open c use {obj_serialize, obj_deserialize, Fits, code, writes, reads}

  pub push_each-concat :
      (xs : List A) (m_str : Str)
      → All Fits xs
      → push_each obj_serialize xs m_str ≡ ok tt (m_str ++ concat_map code xs)
  unfolding push_each
  push_each-concat [] m_str h = rw append-nil
  push_each-concat (x ∷ xs) m_str (hx, hxs) =
      rw (writes x m_str hx, ◌>>=◌)
        (push_each-concat xs (m_str ++ code x) hxs
          ∙ ap (ok tt) (append_assoc m_str (code x) (concat_map code xs)))

  pub pop_each-concat :
      (xs ret : List A) (rest : Str)
      → All Fits xs
      → pop_each obj_deserialize (length xs) ret (concat_map code xs ++ rest) ≡ ok (ret ++ xs) rest
  unfolding pop_each
  pop_each-concat [] ret rest h = rw append-nil
  pop_each-concat (x ∷ xs) ret rest (hx, hxs) =
      rw
        (
          append_assoc (code x) (concat_map code xs) rest,
          reads x (concat_map code xs ++ rest) hx,
          ◌>>=◌,
        )
        (pop_each-concat xs (ret ++ (x ∷ [])) rest hxs
          ∙ ap (λ l. ok l rest) (append_assoc ret (x ∷ []) xs))

  unfoldable pub vector : List A → Str
  vector xs = uvarint (length xs) ++ concat_map code xs

  -- A vector of values that each survive, fewer than 2 ^ 64 - 1 of them.
  abbrev pub FitsAll : List A → Type 0
  FitsAll xs = (length xs < 0xffff_ffff_ffff_ffff) × All Fits xs

  pub push_vector_object-vector :
      (xs : List A) (m_str : Str)
      → FitsAll xs
      → push_vector_object obj_serialize xs m_str ≡ ok tt (m_str ++ vector xs)
  unfolding push_vector_object vector
  push_vector_object-vector xs m_str (size, h) = ground (
    arith,
    push_integer_uvarint-uvarint (length xs) m_str (omega arith),
    push_each-concat xs (m_str ++ uvarint (length xs)) h,
    append_assoc m_str (uvarint (length xs)) (concat_map code xs),
  )

  pub pop_vector_object-vector :
      (xs : List A) (rest : Str)
      → FitsAll xs
      → pop_vector_object obj_deserialize (vector xs ++ rest) ≡ ok xs rest
  unfolding pop_vector_object vector
  pop_vector_object-vector xs rest (size, h) = ground (
    arith,
    append_assoc (uvarint (length xs)) (concat_map code xs) rest,
    pop_integer_uvarint-uvarint (length xs) (concat_map code xs ++ rest) (omega arith),
    pop_each-concat xs [] rest h,
  )

-- A vector of what has a codec has one.
abbrev pub vector_codec : {A : Type 0} → Codec A → Codec (List A)
vector_codec c = record {
  obj_serialize = push_vector_object c.obj_serialize;
  obj_deserialize = pop_vector_object c.obj_deserialize;
  Fits = FitsAll c;
  code = vector c;
  writes = push_vector_object-vector c;
  reads = pop_vector_object-vector c;
}

-- push_vector_string and pop_vector_string are the same code at std::string.
pub push_vector_string-object :
    (xs : List Str) (m_str : Str)
    → push_vector_string xs m_str ≡ push_vector_object push_varstring xs m_str
unfolding push_vector_string push_vector_object
push_vector_string-object xs m_str = refl

pub pop_vector_string-object :
    (now : Str) → pop_vector_string now ≡ pop_vector_object pop_varstring now
unfolding pop_vector_string pop_vector_object
pop_vector_string-object now = refl
