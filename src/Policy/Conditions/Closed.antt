-- ===== src/Policy/Conditions/Closed.antt =====
-- tessera/policy/conditions.py: a number that no float holds.
use cloudmorph_tessera.Prelude.{◌≡◌, refl, String, false, none, some, ℤ, ◌==◌, string_eq}
use cloudmorph_tessera.Python.Float.{Float}
use cloudmorph_tessera.Python.Result.{err, overflow_error}
use cloudmorph_tessera.Python.Value.{Value, int, get}
use cloudmorph_tessera.Python.Text.{to_float}
use cloudmorph_tessera.Policy.Schema.{Conditions, also, arg_greater_than}
use cloudmorph_tessera.Policy.Eval.{Host, Context, World, any_of_list}
use cloudmorph_tessera.Policy.Conditions.{evaluate_conditions, evaluate_condition}
use cloudmorph_tessera.Policy.Conditions.Arguments.{
  eval_arg_greater_than, selected, caught, float_gt,
}

module _ {F : Type 0} ⦃fl : Float F⦄ where
  -- Where the first condition is `arg_greater_than` on one named argument, and that is an integer
  -- that no float holds, the evaluation raises OverflowError, in an unchanged world.
  pub evaluate_conditions_overflow :
      (host : Host F) (c : Context F) (policy_id arg : String) (n : ℤ) (value : Value F)
      (conds : Conditions F) (w : World F)
      → (arg == "*") ≡ false
      → get arg c.arguments ≡ some (int n)
      → fl.of_int n ≡ none
      → evaluate_conditions host c policy_id (also (arg_greater_than arg value) conds) w
        ≡ (err overflow_error, w)
  unfolding evaluate_conditions evaluate_condition eval_arg_greater_than selected any_of_list caught
      float_gt to_float
  evaluate_conditions_overflow host c policy_id arg n value conds w h g o =
      rw h (rw g (rw (o, caught) refl))
