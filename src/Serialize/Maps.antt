-- ===== src/Serialize/Maps.antt =====
-- push_map_object and pop_map_object. A std::map is the list of its pairs in ascending order, and
-- `less` is its std::less<TKey>.
use galaxy.Prelude.{
  ℕ, zero, suc, ◌+◌, ◌<◌, ◌≡◌, refl, sym, ap, ◌∙◌, Bool, true, false, not, ◌&&◌, List, [], ◌∷◌,
  ◌++◌, append_assoc, append-nil, ◌==◌, if◌then◌else◌, length, length-append, All, arith, ==_iff,
  ==_self, lt→ltb,
}
use galaxy.Outcome.{ok, ◌>>=◌, ◌>>◌, check, return, format_error_read_badformat}
use galaxy.Serialize.Generator.{Str, push_each, push_map_object}
use galaxy.Serialize.Parser.{Read, pop_integer_uvarint}
use galaxy.Serialize.Varint.{uvarint, push_integer_uvarint-uvarint, pop_integer_uvarint-uvarint}
use galaxy.Serialize.Codec.{Codec}
use galaxy.Serialize.Vectors.{concat_map}

length-snoc : {A : Type 0} (xs : List A) (x : A) → (length (xs ++ (x ∷ [])) == length xs + 1) ≡ true
length-snoc xs x = (==_iff _ _).1 (length-append xs (x ∷ []))

module _ {K V : Type 0} (less : K → K → Bool) where
  -- map::find(key) != map::end()
  unfoldable pub has_key : K → List (K × V) → Bool
  has_key key [] = false
  has_key key ((k, v) ∷ m) = if not (less key k) && not (less k key) then true else has_key key m

  -- map::emplace(key, value), which changes nothing where the key is taken.
  unfoldable pub emplace : K → V → List (K × V) → List (K × V)
  emplace key value [] = (key, value) ∷ []
  emplace key value ((k, v) ∷ m) =
      if less key k
      then (key, value) ∷ (k, v) ∷ m
      else if less k key
      then (k, v) ∷ emplace key value m
      else (k, v) ∷ m

  -- The loop of pop_map_object, by the rounds that are left.
  unfoldable pub pop_pairs : Read K → Read V → ℕ → List (K × V) → Read (List (K × V))
  pop_pairs pop_key pop_value zero ret = return ret
  pop_pairs pop_key pop_value (suc rounds) ret = do
    key ← pop_key
    value ← pop_value
    check (not (has_key key ret)) format_error_read_badformat
    check (length (emplace key value ret) == length ret + 1) format_error_read_badformat
    pop_pairs pop_key pop_value rounds (emplace key value ret)

  unfoldable pub pop_map_object : Read K → Read V → Read (List (K × V))
  pop_map_object pop_key pop_value = do
    size ← pop_integer_uvarint
    ret ← pop_pairs pop_key pop_value size []
    check (length ret == size) format_error_read_badformat
    return ret

  -- In ascending order, as a std::map is.
  abbrev pub Ascending : List (K × V) → Type 0
  Ascending [] = Unit {0}
  Ascending ((k, v) ∷ m) = All (λ p. less k p.0 ≡ true) m × Ascending m

  All-middle :
      (k : K) (xs ys : List (K × V)) (key : K) (value : V)
      → All (λ p. less k p.0 ≡ true) (xs ++ ((key, value) ∷ ys))
      → less k key ≡ true
  All-middle k [] ys key value h = h.0
  All-middle k (x ∷ xs) ys key value h = All-middle k xs ys key value h.1

  module _ (less_asymm : (a b : K) → less a b ≡ true → less b a ≡ false) where
    has_key-later :
        (ret ys : List (K × V)) (key : K) (value : V)
        → Ascending (ret ++ ((key, value) ∷ ys))
        → has_key key ret ≡ false
    unfolding has_key
    has_key-later [] ys key value h = refl
    has_key-later ((k, v) ∷ ret) ys key value h =
        let before = All-middle k ret ys key value h.0 in
        rw (before, less_asymm k key before) (has_key-later ret ys key value h.1)

    emplace-later :
        (ret ys : List (K × V)) (key : K) (value : V)
        → Ascending (ret ++ ((key, value) ∷ ys))
        → emplace key value ret ≡ ret ++ ((key, value) ∷ [])
    unfolding emplace
    emplace-later [] ys key value h = refl
    emplace-later ((k, v) ∷ ret) ys key value h =
        let before = All-middle k ret ys key value h.0 in
        rw (before, less_asymm k key before) (ap (◌∷◌ (k, v)) (emplace-later ret ys key value h.1))

    module _ (ck : Codec K) (cv : Codec V) where
      abbrev pub pair_code : K × V → Str
      pair_code p = ck.code p.0 ++ cv.code p.1

      abbrev pub PairFits : K × V → Type 0
      PairFits p = ck.Fits p.0 × cv.Fits p.1

      push_pairs :
          (m : List (K × V)) (m_str : Str)
          → All PairFits m
          → push_each (λ pair. ck.obj_serialize pair.0 >> cv.obj_serialize pair.1) m m_str
            ≡ ok tt (m_str ++ concat_map pair_code m)
      unfolding push_each
      push_pairs [] m_str h = rw append-nil
      push_pairs ((k, v) ∷ m) m_str ((hk, hv), hm) =
          rw (ck.writes k m_str hk, ◌>>=◌, cv.writes v (m_str ++ ck.code k) hv, ◌>>=◌)
            (push_pairs m ((m_str ++ ck.code k) ++ cv.code v) hm
              ∙ ap (ok tt) (
                  append_assoc (m_str ++ ck.code k) (cv.code v) (concat_map pair_code m)
                  ∙ append_assoc m_str (ck.code k) (cv.code v ++ concat_map pair_code m)
                  ∙ ap (◌++◌ m_str)
                      (sym (append_assoc (ck.code k) (cv.code v) (concat_map pair_code m)))))

      pop_pairs-codes :
          (m ret : List (K × V)) (rest : Str)
          → All PairFits m
          → Ascending (ret ++ m)
          → pop_pairs ck.obj_deserialize cv.obj_deserialize
              (length m)
              ret
              (concat_map pair_code m ++ rest)
            ≡ ok (ret ++ m) rest
      unfolding pop_pairs
      pop_pairs-codes [] ret rest h asc = rw append-nil
      pop_pairs-codes ((k, v) ∷ m) ret rest ((hk, hv), hm) asc =
          rw
            (
              append_assoc (ck.code k ++ cv.code v) (concat_map pair_code m) rest,
              append_assoc (ck.code k) (cv.code v) (concat_map pair_code m ++ rest),
              ck.reads k (cv.code v ++ (concat_map pair_code m ++ rest)) hk,
              ◌>>=◌,
              cv.reads v (concat_map pair_code m ++ rest) hv,
              ◌>>=◌,
            )
            (rw (has_key-later ret m k v asc, emplace-later ret m k v asc, length-snoc ret (k, v))
              (pop_pairs-codes m (ret ++ ((k, v) ∷ [])) rest hm
                  (rw (append_assoc ret ((k, v) ∷ []) m) asc)
                ∙ ap (λ l. ok l rest) (append_assoc ret ((k, v) ∷ []) m)))

      -- A map that survives: its keys ascend, and fewer than 2 ^ 64 - 1 pairs each survive.
      abbrev pub MapFits : List (K × V) → Type 0
      MapFits m = (length m < 0xffff_ffff_ffff_ffff) × All PairFits m × Ascending m

      -- pop_map_object reads back every map, its keys in ascending order and its pairs
      -- within the limits of the format, that push_map_object wrote, whatever follows it,
      -- for any codecs of keys and values.
      pub pop-push_map_object :
          (m : List (K × V)) (m_str rest : Str)
          → MapFits m
          → (out : Str) × (push_map_object ck.obj_serialize cv.obj_serialize m m_str
              ≡ ok tt (m_str ++ out))
            × (pop_map_object ck.obj_deserialize cv.obj_deserialize (out ++ rest) ≡ ok m rest)
      unfolding push_map_object pop_map_object
      pop-push_map_object m m_str rest (size, fits, asc) =
          let body : Str = concat_map pair_code m in
          let head : Str = uvarint (length m) in
          (
            head ++ body,
            rw (push_integer_uvarint-uvarint (length m) m_str (omega arith), lt→ltb _ _ size, ◌>>=◌)
                (push_pairs m (m_str ++ head) fits ∙ ap (ok tt) (append_assoc m_str head body)),
            rw (
              append_assoc head body rest,
              pop_integer_uvarint-uvarint (length m) (body ++ rest) (omega arith),
              ◌>>=◌,
              pop_pairs-codes m [] rest fits asc,
              ◌>>=◌,
              ==_self (length m),
            ),
          )
