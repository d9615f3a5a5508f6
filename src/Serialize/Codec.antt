-- ===== src/Serialize/Codec.antt =====
-- What obj_serialize<T> and obj_deserialize<T> promise each other, for the containers that use them,
-- and the specialisations for char and std::string. The one for sodiumpp::locked_string, of
-- src/glue_lockedstring_trivialserialize.hpp, is the string's.
use galaxy.Prelude.{ℕ, ◌≤◌, ◌≡◌, refl, [], ◌∷◌, ◌++◌, length, arith}
use galaxy.Outcome.{ok}
use galaxy.Serialize.Generator.{Str, Write, push_byte_u, push_varstring}
use galaxy.Serialize.Parser.{Read, pop_byte_u, pop_varstring, sane_max_size_for_string}
use galaxy.Serialize.Strings.{varstring, push_varstring-varstring, pop_varstring-varstring}

pub record Codec (A : Type 0) : Type 1 where
  pub obj_serialize : A → Write
  pub obj_deserialize : Read A
  -- The values that survive.
  pub Fits : A → Type 0
  pub code : A → Str
  pub writes : (a : A) (m_str : Str) → Fits a → obj_serialize a m_str ≡ ok tt (m_str ++ code a)
  pub reads : (a : A) (rest : Str) → Fits a → obj_deserialize (code a ++ rest) ≡ ok a rest

pub char_writes : (c : ℕ) (m_str : Str) → Unit {0} → push_byte_u c m_str ≡ ok tt (m_str ++ (c ∷ []))
unfolding push_byte_u
char_writes c m_str h = refl

pub char_reads : (c : ℕ) (rest : Str) → Unit {0} → pop_byte_u ((c ∷ []) ++ rest) ≡ ok c rest
unfolding pop_byte_u
char_reads c rest h = refl

abbrev pub char_codec : Codec ℕ
char_codec = record {
  obj_serialize = push_byte_u;
  obj_deserialize = pop_byte_u;
  Fits = λ c. Unit {0};
  code = λ c. c ∷ [];
  writes = char_writes;
  reads = char_reads;
}

abbrev pub IsSane : Str → Type 0
IsSane bytes = length bytes ≤ sane_max_size_for_string

pub string_writes :
    (bytes m_str : Str)
    → IsSane bytes
    → push_varstring bytes m_str ≡ ok tt (m_str ++ varstring bytes)
string_writes bytes m_str h = push_varstring-varstring bytes m_str (omega arith)

pub string_reads :
    (bytes rest : Str) → IsSane bytes → pop_varstring (varstring bytes ++ rest) ≡ ok bytes rest
string_reads bytes rest h = ground (arith, pop_varstring-varstring bytes rest (omega arith))

abbrev pub string_codec : Codec Str
string_codec = record {
  obj_serialize = push_varstring;
  obj_deserialize = pop_varstring;
  Fits = IsSane;
  code = varstring;
  writes = string_writes;
  reads = string_reads;
}
