-- ===== src/Python/Json.antt =====
-- `json.dumps(v, ensure_ascii=False, separators=(",", ":"), sort_keys=True).encode("utf-8")`
pub mod Order
use Prim.Native.Char.{code}
use cloudmorph_tessera.Prelude.{
  ℕ, zero, suc, ◌+◌, ◌/◌, ◌%◌, String, Bool, true, false, ◌&&◌, List, [], ◌∷◌, ◌++◌, ltb, nat_beq,
  if◌then◌else◌, ℤ, pos, negsuc,
}
use cloudmorph_tessera.Python.Float.{Float}
use cloudmorph_tessera.Python.Result.{Result, ok, err, value_error, ◌>>=◌}
use cloudmorph_tessera.Python.Value.{
  Value, Values, Fields, null, bool, int, float, str, list, dict, nil, cons, end, field,
}
use Order.{insert_field}

abbrev pub codes : String → List ℕ
codes String.[] = []
codes (String.◌∷◌ c s) = code c ∷ codes s

-- decimal digits, most significant first; `n + 1` rounds are enough, as each divides by ten
decimal_from : ℕ → ℕ → List ℕ → List ℕ
decimal_from zero n acc = acc
decimal_from (suc fuel) n acc =
    let rest = decimal_from fuel (n / 10) ((48 + n % 10) ∷ acc) in
    if ltb n 10 then (48 + n) ∷ acc else rest

unfoldable pub decimal : ℕ → List ℕ
unfolding decimal_from
decimal n = decimal_from (suc n) n []

hex_digit : ℕ → ℕ
hex_digit d = if ltb d 10 then 48 + d else 87 + d

-- the escapes of the standard library's encoder with `ensure_ascii=False`
unfoldable pub escape : ℕ → List ℕ
unfolding hex_digit
escape c =
    if nat_beq c 34
    then 92 ∷ 34 ∷ []
    else if nat_beq c 92
    then 92 ∷ 92 ∷ []
    else if nat_beq c 10
    then 92 ∷ b'n' ∷ []
    else if nat_beq c 13
    then 92 ∷ b'r' ∷ []
    else if nat_beq c 9
    then 92 ∷ b't' ∷ []
    else if nat_beq c 12
    then 92 ∷ b'f' ∷ []
    else if nat_beq c 8
    then 92 ∷ b'b' ∷ []
    else if ltb c 32
    then 92 ∷ b'u' ∷ 48 ∷ 48 ∷ hex_digit (c / 16) ∷ hex_digit (c % 16) ∷ []
    else c ∷ []

unfoldable pub escape_all : List ℕ → List ℕ
unfolding escape
escape_all [] = []
escape_all (c ∷ cs) = escape c ++ escape_all cs

unfoldable pub quoted : String → List ℕ
unfolding escape_all
quoted s = 34 ∷ (escape_all (codes s) ++ 34 ∷ [])

unfoldable pub integer : ℤ → List ℕ
unfolding decimal
integer (pos n) = decimal n
integer (negsuc n) = 45 ∷ decimal (suc n)

unfoldable mutual
  unfolding insert_field

  pub sort_keys : {F : Type 0} → Value F → Value F
  sort_keys (list vs) = list (sort_keys_items vs)
  sort_keys (dict fs) = dict (sort_keys_fields fs)
  sort_keys v = v

  pub sort_keys_items : {F : Type 0} → Values F → Values F
  sort_keys_items nil = nil
  sort_keys_items (cons v vs) = cons (sort_keys v) (sort_keys_items vs)

  pub sort_keys_fields : {F : Type 0} → Fields F → Fields F
  sort_keys_fields end = end
  sort_keys_fields (field k v fs) = insert_field k (sort_keys v) (sort_keys_fields fs)

module _ {F : Type 0} ⦃fl : Float F⦄ where
  unfoldable mutual
    unfolding integer quoted

    pub encode : Value F → List ℕ
    encode null = b'n' ∷ b'u' ∷ b'l' ∷ b'l' ∷ []
    encode (bool true) = b't' ∷ b'r' ∷ b'u' ∷ b'e' ∷ []
    encode (bool false) = b'f' ∷ b'a' ∷ b'l' ∷ b's' ∷ b'e' ∷ []
    encode (int n) = integer n
    encode (float x) = fl.repr x
    encode (str s) = quoted s
    encode (list nil) = 91 ∷ 93 ∷ []
    encode (list (cons v vs)) = 91 ∷ (encode v ++ encode_items vs)
    encode (dict end) = 123 ∷ 125 ∷ []
    encode (dict (field k v fs)) = 123 ∷ (quoted k ++ 58 ∷ (encode v ++ encode_fields fs))

    pub encode_items : Values F → List ℕ
    encode_items nil = 93 ∷ []
    encode_items (cons v vs) = 44 ∷ (encode v ++ encode_items vs)

    pub encode_fields : Fields F → List ℕ
    encode_fields end = 125 ∷ []
    encode_fields (field k v fs) = 44 ∷ (quoted k ++ 58 ∷ (encode v ++ encode_fields fs))

  unfoldable pub dumps : Value F → List ℕ
  unfolding encode sort_keys
  dumps v = encode (sort_keys v)

unfoldable pub utf8_char : ℕ → List ℕ
utf8_char c =
    if ltb c 128
    then c ∷ []
    else if ltb c 2048
    then (192 + c / 64) ∷ (128 + c % 64) ∷ []
    else if ltb c 65536
    then (224 + c / 4096) ∷ (128 + c / 64 % 64) ∷ (128 + c % 64) ∷ []
    else (240 + c / 262144) ∷ (128 + c / 4096 % 64) ∷ (128 + c / 64 % 64) ∷ (128 + c % 64) ∷ []

-- a code point that UTF-8 has no bytes for
unfoldable pub is_surrogate : ℕ → Bool
is_surrogate c = ltb 55295 c && ltb c 57344

-- UnicodeEncodeError, which is a ValueError, at a lone surrogate
unfoldable pub utf8 : List ℕ → Result (List ℕ)
unfolding utf8_char is_surrogate
utf8 [] = ok []
utf8 (c ∷ cs) =
    let rest = utf8 cs in
    if is_surrogate c then err value_error else (rest >>= λ bytes. ok (utf8_char c ++ bytes))
