-- ===== src/Policy/Matchers.antt =====
-- tessera/policy/matchers.py
use cloudmorph_tessera.Prelude.{
  String, Bool, true, false, Option, none, some, ◌==◌, string_eq, if◌then◌else◌,
}
use cloudmorph_tessera.Policy.Eval.{Host, Context, World, Search, found}

-- `resolve_effective_tool_name`: the name is resolved once, and kept in the context.
unfoldable pub effective_name : {F : Type 0} → Context F → String
effective_name c =
    if c.tool_name == "call_aws"
    then elim (c.from_call_aws c.arguments) [ none ↦ c.tool_name | some resolved ↦ resolved ]
    else c.tool_name

unfoldable pub resolve_effective_tool_name : {F : Type 0} → Context F → World F → String × World F
resolve_effective_tool_name c w = elim w.effective_tool_name [
  | some cached ↦ (cached, w)
  | none ↦ (effective_name c, record w { effective_tool_name = some (effective_name c) })
]

unfoldable pub match_upstream : String → String → Bool
match_upstream policy_upstream request_upstream =
    if policy_upstream == "*" then true else policy_upstream == request_upstream

-- a search that ends in an exception matches nothing
abbrev pub is_found : Search → Bool
is_found found = true
is_found _ = false

module _ {F : Type 0} (host : Host F) where
  unfoldable pub match_tool : Option String → Option String → String → Bool
  match_tool none none tool_name = true
  match_tool (some glob) pattern tool_name =
      if glob == "*" then true else host.fnmatch tool_name glob
  match_tool none (some pattern) tool_name = is_found (host.search pattern tool_name)

  unfoldable pub match_tool_dual : Option String → Option String → String → String → Bool
  match_tool_dual tool pattern tool_name effective =
      if tool_name == effective
      then match_tool tool pattern tool_name
      else if match_tool tool pattern tool_name
      then true
      else match_tool tool pattern effective
