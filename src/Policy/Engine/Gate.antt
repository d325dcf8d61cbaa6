-- ===== src/Policy/Engine/Gate.antt =====
-- tessera/policy/engine.py and conditions.py: the gate of the blast-radius prefetch against a condition
-- whose count is not known.
use cloudmorph_tessera.Prelude.{
  ◌&&◌, not, false, ◌≡◌, refl, String, none, List, [], ◌∷◌, ℤ, arith, string_eq,
}
use cloudmorph_tessera.Dict
use cloudmorph_tessera.Policy.Schema.{Operator, blast_radius}
use cloudmorph_tessera.Policy.Eval.{Context}
use cloudmorph_tessera.Policy.Conditions.Backends.{is_irrelevant, principals, eval_blast_radius}
use cloudmorph_tessera.Policy.Engine.{has_blast_radius_for, targets}
use cloudmorph_tessera.Policy.Engine.Counts.{with_counts}

relevant-targets :
    (types : List String) (tool_name : String)
    → is_irrelevant types tool_name ≡ not (targets types tool_name)
unfolding is_irrelevant targets
relevant-targets [] tool_name = refl
relevant-targets (t ∷ ts) tool_name = refl

module _ {F : Type 0} where
  -- Without a cached count and without a backend, the blast-radius condition holds exactly if the gate of
  -- the prefetch asks for the count of the tool; and it holds of no call, whatever its count, for which
  -- the gate does not ask. So a count that is not found blocks where any count might.
  pub eval_blast_radius_unknown :
      (threshold : ℤ) (types : List String) (operator : Operator) (c : Context F)
      → (eval_blast_radius threshold types operator (with_counts [] none c)
          ≡ has_blast_radius_for {F = F} c.tool_name (blast_radius threshold types operator))
        × ((eval_blast_radius threshold types operator c
              && not (
                  has_blast_radius_for {F = F} c.tool_name (blast_radius threshold types operator)))
            ≡ false)
  unfolding eval_blast_radius has_blast_radius_for principals Dict.get
  eval_blast_radius_unknown threshold types operator c = (
    ground (arith, relevant-targets types c.tool_name),
    ground (arith, relevant-targets types c.tool_name),
  )
