-- ===== src/Python/Json/Order.antt =====
-- The order of texts by code points, and the insertion of a key into sorted fields.
use Prim.Native.Char.{Char, code}
use text.Mathlib.TextEquality.{codes_equal}
use cloudmorph_tessera.Prelude.{
  ◌≡◌, refl, ◌≢◌, String, Bool, true, false, arith, ltb, if◌then◌else◌, string_eq,
}
use cloudmorph_tessera.Python.Value.{Value, Fields, end, field}

unfoldable pub str_lt : String → String → Bool
str_lt String.[] String.[] = false
str_lt String.[] (String.◌∷◌ d t) = true
str_lt (String.◌∷◌ c s) String.[] = false
str_lt (String.◌∷◌ c s) (String.◌∷◌ d t) =
    let rest = str_lt s t in
    if ltb (code c) (code d) then true else if ltb (code d) (code c) then false else rest

char_eq : (c d : Char) → ltb (code c) (code d) ≡ false → ltb (code d) (code c) ≡ false → c ≡ d
char_eq c d h k = codes_equal c d (ground arith)

pub str_lt_asym : (s t : String) → str_lt s t ≡ true → str_lt t s ≡ false
unfolding str_lt
str_lt_asym String.[] String.[] h = refl
str_lt_asym String.[] (String.◌∷◌ d t) h = refl
str_lt_asym (String.◌∷◌ c s) String.[] h = cc
str_lt_asym (String.◌∷◌ c s) (String.◌∷◌ d t) h = ground (arith, str_lt_asym s t)

pub str_lt_connex : (s t : String) → str_lt s t ≡ false → str_lt t s ≡ false → s ≡ t
unfolding str_lt
str_lt_connex String.[] String.[] h k = refl
str_lt_connex String.[] (String.◌∷◌ d t) h k = cc
str_lt_connex (String.◌∷◌ c s) String.[] h k = cc
str_lt_connex (String.◌∷◌ c s) (String.◌∷◌ d t) h k = ground (arith, str_lt_connex s t, char_eq c d)

pub str_lt_trans : (r s t : String) → str_lt r s ≡ true → str_lt s t ≡ true → str_lt r t ≡ true
unfolding str_lt
str_lt_trans String.[] String.[] String.[] h k = h
str_lt_trans String.[] String.[] (String.◌∷◌ d t) h k = refl
str_lt_trans String.[] (String.◌∷◌ c s) String.[] h k = cc
str_lt_trans String.[] (String.◌∷◌ c s) (String.◌∷◌ d t) h k = refl
str_lt_trans (String.◌∷◌ b r) String.[] t h k = cc
str_lt_trans (String.◌∷◌ b r) (String.◌∷◌ c s) String.[] h k = cc
str_lt_trans (String.◌∷◌ b r) (String.◌∷◌ c s) (String.◌∷◌ d t) h k =
    ground (arith, str_lt_trans r s t)

module _ {F : Type 0} where
  -- a key goes in front of the first greater one
  unfoldable pub insert_field : String → Value F → Fields F → Fields F
  insert_field k v end = field k v end
  insert_field k v (field j w fs) =
      if str_lt k j then field k v (field j w fs) else field j w (insert_field k v fs)

  -- Two different keys may be inserted in either order.
  pub insert_field_comm :
      (k j : String) (v w : Value F) (fs : Fields F)
      → k ≢ j
      → insert_field k v (insert_field j w fs) ≡ insert_field j w (insert_field k v fs)
  unfolding insert_field
  insert_field_comm k j v w end h =
      ground (arith, str_lt_asym k j, str_lt_asym j k, str_lt_connex k j)
  insert_field_comm k j v w (field i x fs) h = ground (
    arith,
    str_lt_asym k j,
    str_lt_asym j k,
    str_lt_connex k j,
    str_lt_trans k j i,
    str_lt_trans j k i,
    insert_field_comm k j v w fs h,
  )
