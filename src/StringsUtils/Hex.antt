-- ===== src/StringsUtils/Hex.antt =====
-- The hexadecimal strings of src/strings_utils.cpp: class string_as_hex over string_as_bin, and back.
use galaxy.Prelude.{
  ℕ, ◌+◌, ◌-◌, ◌*◌, ◌/◌, ◌%◌, ◌^◌, ◌<◌, ◌≡◌, refl, ap, ◌∙◌, ◌&&◌, [], ◌∷◌, ltb, leb, if◌then◌else◌,
  length, All, arith,
}
use galaxy.Outcome.{invalid_argument, assert_abort}
use galaxy.Try.{Try, value, throws, ◌>>=◌, ◌>>◌, check, bind_value}
use galaxy.Serialize.Generator.{Str}

unfoldable pub int2hexchar : ℕ → Try ℕ
int2hexchar i =
    if leb i 9
    then value (b'0' + i)
    else if leb i 15
    then value (b'a' + (i - 10))
    else throws invalid_argument

unfoldable pub hexchar2int : ℕ → Try ℕ
hexchar2int c =
    if leb b'0' c && leb c b'9'
    then value (c - b'0')
    else if leb b'a' c && leb c b'f'
    then value (c - b'a' + 10)
    else throws invalid_argument

unfoldable pub octet_of_hexchars : ℕ → ℕ → Try ℕ
octet_of_hexchars h l = do high ← hexchar2int h; low ← hexchar2int l; value (high * 16 + low)

unfoldable pub doublehexchar2int : Str → Try ℕ
doublehexchar2int (h ∷ l ∷ []) = octet_of_hexchars h l
doublehexchar2int _ = throws invalid_argument

-- The loop over the octets of `in.bytes`.
unfoldable pub hex_digits : Str → Try Str
hex_digits [] = value []
hex_digits (octet ∷ bytes) = do
  high ← int2hexchar (octet / 16)
  low ← int2hexchar (octet % 16)
  rest ← hex_digits bytes
  value (high ∷ low ∷ rest)

-- string_as_hex::string_as_hex(const string_as_bin &), with its two asserts on the size.
unfoldable pub string_as_hex : Str → Try Str
string_as_hex bytes = do
  check (ltb (length bytes) ((2 ^ 64 - 1) / 2)) assert_abort
  check (ltb (length bytes) ((2 ^ 64 - 1) / 2 - 1)) assert_abort
  hex_digits bytes

-- string_as_bin::string_as_bin(const string_as_hex &): two characters at a time, and a last single
-- one stands for the low half of its octet.
unfoldable pub string_as_bin : Str → Try Str
string_as_bin [] = value []
string_as_bin (l ∷ []) = do octet ← octet_of_hexchars b'0' l; value (octet ∷ [])
string_as_bin (h ∷ l ∷ encoded) = do
  octet ← octet_of_hexchars h l
  rest ← string_as_bin encoded
  value (octet ∷ rest)

abbrev pub IsOctet : ℕ → Type 0
IsOctet c = c < 256

hexchar2int-int2hexchar :
    (i : ℕ) → i < 16 → (c : ℕ) × (int2hexchar i ≡ value c) × (hexchar2int c ≡ value i)
unfolding int2hexchar hexchar2int
hexchar2int-int2hexchar i h =
    (if leb i 9 then b'0' + i else b'a' + (i - 10), ground arith, ground arith)

hex_digits-total :
    (bytes : Str)
    → All IsOctet bytes
    → (out : Str) × (hex_digits bytes ≡ value out)
      × (string_as_bin out ≡ value bytes)
      × (length out ≡ 2 * length bytes)
unfolding hex_digits string_as_bin octet_of_hexchars
hex_digits-total [] h = ([], refl, refl, omega arith)
hex_digits-total (octet ∷ bytes) (ho, hb) =
    let (high, p, q) = hexchar2int-int2hexchar (octet / 16) (omega arith) in
    let (low, r, s) = hexchar2int-int2hexchar (octet % 16) (omega arith) in
    let (out, t, u, n) = hex_digits-total bytes hb in
    (
      high ∷ low ∷ out,
      rw (p, r, t),
      rw (q, s, u) (ap (λ o. value (o ∷ bytes)) (omega arith)),
      omega (arith, n),
    )

-- The hexadecimal form of up to 2 ^ 63 - 3 octets exists, is twice as long, and reads back as the
-- same octets.
pub string_as_bin-string_as_hex :
    (bytes : Str)
    → All IsOctet bytes
    → length bytes < 2 ^ 63 - 2
    → (out : Str) × (string_as_hex bytes ≡ value out)
      × (string_as_bin out ≡ value bytes)
      × (length out ≡ 2 * length bytes)
unfolding string_as_hex
string_as_bin-string_as_hex bytes h size =
    let (out, p, q, n) = hex_digits-total bytes h in (out, ground (arith, p), q, n)

int2hexchar-hexchar2int : (c i : ℕ) → hexchar2int c ≡ value i → (i < 16) × (int2hexchar i ≡ value c)
unfolding int2hexchar hexchar2int
int2hexchar-hexchar2int c i e = ground arith

digits_of-IsOctet :
    (h l octet : ℕ)
    → octet_of_hexchars h l ≡ value octet
    → (int2hexchar (octet / 16) ≡ value h) × (int2hexchar (octet % 16) ≡ value l) × IsOctet octet
unfolding octet_of_hexchars
digits_of-IsOctet h l octet e =
    let (high, p, e') = bind_value (hexchar2int h) _ e in
    let (low, q, e'') = bind_value (hexchar2int l) _ e' in
    let (hh, hp) = int2hexchar-hexchar2int h high p in
    let (hl, lp) = int2hexchar-hexchar2int l low q in
    let n : octet ≡ high * 16 + low = cc in
    (ap int2hexchar (omega arith) ∙ hp, ap int2hexchar (omega arith) ∙ lp, omega arith)
