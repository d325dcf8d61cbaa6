-- ===== src/Policy/Conditions/Backends.antt =====
-- tessera/policy/conditions.py: the conditions on cost, blast radius, counted resources and spend.
use cloudmorph_tessera.Prelude.{
  ℕ, String, Bool, true, false, not, ◌&&◌, Option, none, some, List, [], ◌∷◌, contains, length,
  ◌==◌, string_eq, if◌then◌else◌, ℤ, pos, ltb_ℤ,
}
use cloudmorph_tessera.Dict
use cloudmorph_tessera.Dict.{Dict}
use cloudmorph_tessera.Python.Float.{Float}
use cloudmorph_tessera.Python.Result.{Result, ok, err, assertion_error}
use cloudmorph_tessera.Python.Value.{Value, null, list, items}
use cloudmorph_tessera.Policy.Schema.{
  Band, high, medium, ceiling, Operator, greater_than, less_than, Range, above, below, between,
}
use cloudmorph_tessera.Policy.Eval.{Host, Context, CostResult}

-- a count against a threshold
unfoldable pub compares_int : Operator → ℤ → ℤ → Bool
compares_int greater_than count threshold = ltb_ℤ threshold count
compares_int less_than count threshold = ltb_ℤ count threshold

-- `resource_types and tool_name not in resource_types`
unfoldable pub is_irrelevant : List String → String → Bool
is_irrelevant [] tool_name = false
is_irrelevant (t ∷ ts) tool_name = not (contains tool_name (t ∷ ts))

module _ {F : Type 0} ⦃fl : Float F⦄ where
  -- `raw_usd * _BAND_MULTIPLIER[band]`; a factor of 1.0 changes nothing
  unfoldable pub adjusted_usd : Band → F → F
  adjusted_usd high raw = raw
  adjusted_usd medium raw = fl.mul raw fl.one_and_half
  adjusted_usd ceiling raw = fl.mul raw fl.three

  unfoldable pub in_range : Range F → F → F → Bool
  in_range above threshold usd = fl.lt threshold usd
  in_range below threshold usd = fl.lt usd threshold
  in_range (between none) threshold usd = false
  in_range (between (some upper)) threshold usd = fl.le threshold usd && fl.le usd upper

  unfoldable pub cost_in_range : F → Band → Range F → Option (CostResult F) → Bool
  cost_in_range threshold band range none = false
  cost_in_range threshold band range (some cost) =
      if cost.source == "miss" then false else elim cost.price_usd [
        | none ↦ false
        | some raw ↦ in_range range threshold (adjusted_usd band raw)
      ]

  -- `assert "cost_cache" in context`
  unfoldable pub eval_predicted_cost : F → Band → Range F → Context F → Result Bool
  eval_predicted_cost threshold band range c = elim c.cost_cache [
    | none ↦ err assertion_error
    | some cache ↦ ok (cost_in_range threshold band range (Dict.get c.tool_name cache))
  ]

  unfoldable pub compares : Operator → F → F → Bool
  compares greater_than usd threshold = fl.lt threshold usd
  compares less_than usd threshold = fl.lt usd threshold

  -- the spend of today, if it is known: injected, or read from the backend
  unfoldable pub today_usd : Context F → Option F
  today_usd c = elim c.cumulative_spend_today_usd [
    | some usd ↦ some usd
    | none ↦ elim c.state_backend [
      | none ↦ none
      | some spend ↦ spend (elim c.scope [ none ↦ "default" | some scope ↦ scope ])
    ]
  ]

  unfoldable pub eval_cumulative_spend_today : F → Operator → Context F → Bool
  eval_cumulative_spend_today threshold operator c = elim (today_usd c) [
    | none ↦ false
    | some usd ↦ compares operator usd threshold
  ]

module _ {F : Type 0} where
  -- the count of principals: cached, or computed by the backend; `none` if neither gives one
  unfoldable pub principals : Context F → Option ℤ
  principals c = elim (Dict.get c.tool_name c.blast_radius_cache) [
    | some count ↦ some count
    | none ↦ elim c.blast_radius_backend [
      | none ↦ none
      | some compute ↦ compute c.tool_name c.arguments
    ]
  ]

  -- an unknown count blocks
  unfoldable pub eval_blast_radius : ℤ → List String → Operator → Context F → Bool
  eval_blast_radius threshold resource_types operator c =
      if is_irrelevant resource_types c.tool_name
      then false
      else elim (principals c) [ none ↦ true | some count ↦ compares_int operator count threshold ]

  unfoldable pub resource_count : Value F → ℕ
  resource_count null = 0
  resource_count (list vs) = length (items vs)
  resource_count v = 1

  unfoldable pub eval_affected_resource_count : Host F → String → ℤ → Operator → Context F → Bool
  eval_affected_resource_count host arg threshold operator c =
      elim (host.jmespath arg c.arguments) [
        | none ↦ false
        | some result ↦ compares_int operator (pos (resource_count result)) threshold
      ]
