-- ===== src/Audit/Canonical.antt =====
-- tessera/audit/canonical_json.py
pub mod Order
pub mod Total
use cloudmorph_tessera.Prelude.{ℕ, none, some, List, if◌then◌else◌}
use cloudmorph_tessera.Python.Float.{Float}
use cloudmorph_tessera.Python.Result.{Result, ok, err, value_error, ◌>>=◌}
use cloudmorph_tessera.Python.Value.{
  Value, Values, Fields, null, bool, int, float, str, list, dict, nil, cons, end, field,
}
use cloudmorph_tessera.Python.Json.{dumps, utf8}
use cloudmorph_tessera.Python.Json.Order.{insert_field}

module _ {F : Type 0} ⦃fl : Float F⦄ where
  -- an integral float below 2**53 becomes an integer
  unfoldable pub normalize_float : F → Result (Value F)
  normalize_float x =
      if fl.is_finite x
      then ok (elim (fl.small_integer x) [ none ↦ float x | some n ↦ int n ])
      else err value_error

  -- A value of JSON is of no unsupported type and has no keys but texts. `normalized` is filled in
  -- the order of the sorted keys: that is the insertion sort of its fields.
  unfoldable mutual
    unfolding normalize_float insert_field

    pub normalize : Value F → Result (Value F)
    normalize null = ok null
    normalize (bool b) = ok (bool b)
    normalize (int n) = ok (int n)
    normalize (float x) = normalize_float x
    normalize (str s) = ok (str s)
    normalize (list vs) = do ws ← normalize_items vs; ok (list ws)
    normalize (dict fs) = do gs ← normalize_fields fs; ok (dict gs)

    pub normalize_items : Values F → Result (Values F)
    normalize_items nil = ok nil
    normalize_items (cons v vs) = do w ← normalize v; ws ← normalize_items vs; ok (cons w ws)

    pub normalize_fields : Fields F → Result (Fields F)
    normalize_fields end = ok end
    normalize_fields (field k v fs) = do
      w ← normalize v
      gs ← normalize_fields fs
      ok (insert_field k w gs)

  unfoldable pub canonical_json : Value F → Result (List ℕ)
  unfolding normalize dumps utf8
  canonical_json v = do n ← normalize v; utf8 (dumps n)
