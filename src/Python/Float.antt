-- ===== src/Python/Float.antt =====
-- What the code does with a `float`. The type is abstract: IEEE doubles are not modelled.
use cloudmorph_tessera.Prelude.{ℕ, String, Bool, Option, List, ℤ}

pub record Float (F : Type 0) : Type 0 where
  pub nought : F
  pub add : F → F → F
  pub sub : F → F → F
  pub mul : F → F → F
  -- `<`, `<=`, `==`; a comparison with an integer is exact in Python
  pub lt : F → F → Bool
  pub le : F → F → Bool
  pub eq : F → F → Bool
  pub eq_int : F → ℤ → Bool
  pub gt_int : F → ℤ → Bool
  -- the literals 1.5 and 3.0
  pub one_and_half : F
  pub three : F
  -- `float(n)`, `none` for OverflowError
  pub of_int : ℤ → Option F
  -- `float(s)` of a text, `none` for ValueError
  pub parse : String → Option F
  -- `not (math.isnan(x) or math.isinf(x))`
  pub is_finite : F → Bool
  -- `some (int(x))` if `x.is_integer() and abs(x) < 2**53`
  pub small_integer : F → Option ℤ
  -- the characters that `json.dumps` writes
  pub repr : F → List ℕ
