-- ===== src/Python/Value.antt =====
-- JSON values as Python objects, with `dict` reads and writes, truth and `==`.
pub mod Laws
use cloudmorph_tessera.Prelude.{
  ◌≡◌, ℕ, suc, String, Bool, true, false, not, ◌&&◌, Option, none, some, List, [], ◌∷◌, nat_beq,
  ◌==◌, string_eq, if◌then◌else◌, ℤ, pos, beq_ℤ,
}
use cloudmorph_tessera.Python.Float.{Float}

mutual
  pub data Value (F : Type 0) : Type 0 where
    null : Value F
    bool : Bool → Value F
    int : ℤ → Value F
    float : F → Value F
    str : String → Value F
    list : Values F → Value F
    dict : Fields F → Value F

  pub data Values (F : Type 0) : Type 0 where
    nil : Values F
    cons : Value F → Values F → Values F

  pub data Fields (F : Type 0) : Type 0 where
    end : Fields F
    field : String → Value F → Fields F → Fields F

module _ {F : Type 0} where
  -- `d.get(k)`, and `k in d` as the test for `some`
  unfoldable pub get : String → Fields F → Option (Value F)
  get k end = none
  get k (field j v fs) = if j == k then some v else get k fs

  -- `d.get(k, default)`
  unfoldable pub get_or : String → Value F → Fields F → Value F
  unfolding get
  get_or k v fs = elim (get k fs) [ none ↦ v | some w ↦ w ]

  -- `d[k] = v`, `{**d, k: v}`
  unfoldable pub put : String → Value F → Fields F → Fields F
  put k v end = field k v end
  put k v (field j w fs) = if j == k then field j v fs else field j w (put k v fs)

  -- `d.pop(k, None)`
  unfoldable pub pop : String → Fields F → Fields F
  pop k end = end
  pop k (field j w fs) = let rest = pop k fs in if j == k then fs else field j w rest

  -- `list(d.values())`
  unfoldable pub values : Fields F → List (Value F)
  values end = []
  values (field k v fs) = v ∷ values fs

  unfoldable pub items : Values F → List (Value F)
  items nil = []
  items (cons v vs) = v ∷ items vs

  unfoldable pub size : Fields F → ℕ
  size end = 0
  size (field k v fs) = suc (size fs)

  -- the keys of a dict are distinct
  abbrev pub IsUnique : Fields F → Type 0
  IsUnique end = Unit
  IsUnique (field k v fs) = (get k fs ≡ none) × IsUnique fs

module _ {F : Type 0} ⦃fl : Float F⦄ where
  -- `bool(v)`
  unfoldable pub truthy : Value F → Bool
  truthy null = false
  truthy (bool b) = b
  truthy (int n) = not (beq_ℤ n (pos 0))
  truthy (float x) = not (fl.eq x fl.nought)
  truthy (str s) = not (s == "")
  truthy (list nil) = false
  truthy (list (cons v vs)) = true
  truthy (dict end) = false
  truthy (dict (field k v fs)) = true

  -- `==` of numbers: True == 1 == 1.0
  unfoldable pub int_eq : ℤ → Value F → Bool
  int_eq n (bool b) = beq_ℤ n (if b then pos 1 else pos 0)
  int_eq n (int m) = beq_ℤ n m
  int_eq n (float x) = fl.eq_int x n
  int_eq n _ = false

  unfoldable pub float_eq : F → Value F → Bool
  float_eq x (bool b) = fl.eq_int x (if b then pos 1 else pos 0)
  float_eq x (int m) = fl.eq_int x m
  float_eq x (float y) = fl.eq x y
  float_eq x _ = false

  -- `v == w`: two dicts are equal if they have as many keys and agree on those of the first.
  unfoldable mutual
    unfolding int_eq float_eq get size

    pub value_eq : Value F → Value F → Bool
    value_eq null null = true
    value_eq (bool b) w = int_eq (if b then pos 1 else pos 0) w
    value_eq (int n) w = int_eq n w
    value_eq (float x) w = float_eq x w
    value_eq (str s) (str t) = s == t
    value_eq (list vs) (list ws) = values_eq vs ws
    value_eq (dict fs) (dict gs) = nat_beq (size fs) (size gs) && fields_in fs gs
    value_eq _ _ = false

    pub values_eq : Values F → Values F → Bool
    values_eq nil nil = true
    values_eq (cons v vs) (cons w ws) = value_eq v w && values_eq vs ws
    values_eq _ _ = false

    pub fields_in : Fields F → Fields F → Bool
    fields_in end gs = true
    fields_in (field k v fs) gs =
        elim (get k gs) [ none ↦ false | some w ↦ value_eq v w ] && fields_in fs gs

  -- `v in [...]`
  unfoldable pub value_in : Value F → List (Value F) → Bool
  unfolding value_eq
  value_in v [] = false
  value_in v (w ∷ ws) = if value_eq v w then true else value_in v ws
