-- ===== src/Python/Text.antt =====
-- Texts: `split`, `str(v)` of a text, `float(v)`, and the text of `json.dumps(v)`.
use Prim.Native.Char.{code}
use cloudmorph_tessera.Prelude.{
  ℕ, ◌+◌, ◌-◌, ◌/◌, ◌%◌, String, true, false, none, some, List, [], ◌∷◌, ◌++◌, length, ltb, nat_beq,
  if◌then◌else◌, ℤ, pos,
}
use cloudmorph_tessera.Python.Float.{Float}
use cloudmorph_tessera.Python.Result.{Result, ok, err, type_error, value_error, overflow_error}
use cloudmorph_tessera.Python.Value.{
  Value, Values, Fields, null, bool, int, float, str, list, dict, nil, cons, end, field,
}
use cloudmorph_tessera.Python.Json.{codes, escape, integer}

-- `s.split(sep)` for one character, given by its code
unfoldable pub split : ℕ → String → List String
split sep String.[] = String.[] ∷ []
split sep (String.◌∷◌ c s) =
    let rest = split sep s in
    if nat_beq (code c) sep
    then String.[] ∷ rest
    else elim rest [ [] ↦ (String.◌∷◌ c String.[]) ∷ [] | t ∷ ts ↦ (String.◌∷◌ c t) ∷ ts ]

hex : ℕ → ℕ
hex d = if ltb d 10 then 48 + d else 87 + d

-- `\uXXXX`
unit : ℕ → List ℕ
unit c = 92 ∷ b'u' ∷ hex (c / 4096) ∷ hex (c / 256 % 16) ∷ hex (c / 16 % 16) ∷ hex (c % 16) ∷ []

-- with `ensure_ascii`: a character past the basic plane is written as two surrogates
ascii : ℕ → List ℕ
ascii c =
    if ltb c 127
    then escape c
    else if ltb c 65536
    then unit c
    else unit (55296 + (c - 65536) / 1024) ++ unit (56320 + (c - 65536) % 1024)

ascii_all : List ℕ → List ℕ
ascii_all [] = []
ascii_all (c ∷ cs) = ascii c ++ ascii_all cs

ascii_quoted : String → List ℕ
ascii_quoted s = 34 ∷ (ascii_all (codes s) ++ 34 ∷ [])

module _ {F : Type 0} ⦃fl : Float F⦄ where
  -- `json.dumps(v)`, with ", " and ": "
  unfoldable mutual
    unfolding ascii_quoted ascii_all ascii unit hex

    pub json_text : Value F → List ℕ
    json_text null = b'n' ∷ b'u' ∷ b'l' ∷ b'l' ∷ []
    json_text (bool true) = b't' ∷ b'r' ∷ b'u' ∷ b'e' ∷ []
    json_text (bool false) = b'f' ∷ b'a' ∷ b'l' ∷ b's' ∷ b'e' ∷ []
    json_text (int n) = integer n
    json_text (float x) = fl.repr x
    json_text (str s) = ascii_quoted s
    json_text (list nil) = 91 ∷ 93 ∷ []
    json_text (list (cons v vs)) = 91 ∷ (json_text v ++ json_items vs)
    json_text (dict end) = 123 ∷ 125 ∷ []
    json_text (dict (field k v fs)) =
        123 ∷ (ascii_quoted k ++ 58 ∷ 32 ∷ (json_text v ++ json_fields fs))

    pub json_items : Values F → List ℕ
    json_items nil = 93 ∷ []
    json_items (cons v vs) = 44 ∷ 32 ∷ (json_text v ++ json_items vs)

    pub json_fields : Fields F → List ℕ
    json_fields end = 125 ∷ []
    json_fields (field k v fs) =
        44 ∷ 32 ∷ (ascii_quoted k ++ 58 ∷ 32 ∷ (json_text v ++ json_fields fs))

  -- `len(json.dumps(v))`: the text is ASCII, so this is its size in UTF-8 too
  unfoldable pub json_size : Value F → ℤ
  json_size v = pos (length (json_text v))

  -- `float(v)`
  unfoldable pub to_float : Value F → Result F
  to_float (bool b) = elim (fl.of_int (if b then pos 1 else pos 0)) [
    | none ↦ err overflow_error
    | some x ↦ ok x
  ]
  to_float (int n) = elim (fl.of_int n) [ none ↦ err overflow_error | some x ↦ ok x ]
  to_float (float x) = ok x
  to_float (str s) = elim (fl.parse s) [ none ↦ err value_error | some x ↦ ok x ]
  to_float _ = err type_error
