-- ===== src/Audit/Export.antt =====
-- tessera/audit/export.py: the summary of a bundle's events, and the bytes that its signature covers.
use cloudmorph_tessera.Prelude.{
  ℕ, suc, String, Bool, true, false, Option, none, some, List, [], ◌∷◌, string_eq, if◌then◌else◌,
  pos,
}
use cloudmorph_tessera.Python.Float.{Float}
use cloudmorph_tessera.Python.Result.{Result, ok, err, attribute_error, type_error, ◌>>=◌}
use cloudmorph_tessera.Python.Value.{
  Value, Fields, null, int, str, list, dict, end, field, get_or, truthy, value_eq,
}
use cloudmorph_tessera.Audit.Canonical.{canonical_json}

-- `counts`
pub record Counts : Type 0 where
  pub allow : ℕ
  pub block : ℕ
  pub approval : ℕ
  pub log_only : ℕ
  pub other : ℕ

-- how often each tool, or each policy, comes
abbrev pub Tally : Type 0 → Type 0
Tally F = List (Value F × ℕ)

pub record Summary (F : Type 0) : Type 0 where
  pub total : ℕ
  pub counts : Counts
  pub tools : Tally F
  pub policies_fired : Tally F
  pub first_event : Option (Fields F)
  pub last_event : Option (Fields F)

abbrev pub no_events : {F : Type 0} → Summary F
no_events = record {
  total = 0;
  counts = record { allow = 0; block = 0; approval = 0; log_only = 0; other = 0 };
  tools = [];
  policies_fired = [];
  first_event = none;
  last_event = none;
}

module _ {F : Type 0} ⦃fl : Float F⦄ where
  -- `v or w`
  abbrev pub or_else : Value F → Value F → Value F
  or_else v w = if truthy v then v else w

  -- `v.get(k)`: only a dict has it
  unfoldable pub get_of : String → Value F → Result (Value F)
  unfolding get_or
  get_of k (dict fs) = ok (get_or k null fs)
  get_of k _ = err attribute_error

  -- a key of a dict is hashed
  unfoldable pub is_hashable : Value F → Bool
  is_hashable (list vs) = false
  is_hashable (dict fs) = false
  is_hashable _ = true

  -- `d[v] = d.get(v, 0) + 1`
  unfoldable pub tallied : Value F → Tally F → Tally F
  unfolding value_eq
  tallied v [] = (v, 1) ∷ []
  tallied v ((w, n) ∷ tally) =
      let rest = tallied v tally in if value_eq w v then (w, suc n) ∷ tally else (w, n) ∷ rest

  -- `if v: d[v] = d.get(v, 0) + 1`
  unfoldable pub noted : Value F → Tally F → Result (Tally F)
  unfolding truthy is_hashable tallied
  noted v tally =
      if truthy v
      then (if is_hashable v then ok (tallied v tally) else err type_error)
      else ok tally

  -- the count that an event raises
  unfoldable pub counted : Value F → Value F → Counts → Counts
  unfolding value_eq
  counted event_type decision c =
      if value_eq event_type (str "decision")
      then (if value_eq decision (str "allow")
          then record c { allow = suc c.allow }
          else if value_eq decision (str "block")
          then record c { block = suc c.block }
          else if value_eq decision (str "require_approval")
          then record c { approval = suc c.approval }
          else if value_eq decision (str "log_only")
          then record c { log_only = suc c.log_only }
          else record c { other = suc c.other })
      else record c { other = suc c.other }

  abbrev pub named : Value F → Value F → Result (Value F)
  named tool call = if truthy tool then ok tool else get_of "name" (or_else call (dict end))

  -- the third name is looked up only where the first two are empty
  unfoldable pub tool_of : Value F → Result (Value F)
  unfolding get_of truthy
  tool_of payload = do
    canonical ← get_of "canonical_tool_name" payload
    effective ← get_of "effective_tool_name" payload
    call ← get_of "tool_call" payload
    named (if truthy canonical then canonical else effective) call

  -- `first_event` is set once
  abbrev pub first_of : Option (Fields F) → Fields F → Option (Fields F)
  first_of none event = some event
  first_of (some first) event = some first

  -- a round of the loop
  unfoldable pub summarize_event : Fields F → Summary F → Result (Summary F)
  unfolding get_of counted tool_of noted get_or truthy
  summarize_event event s = do
    decision ← get_of "decision" (or_else (get_or "payload" null event) (dict end))
    tool ← tool_of (or_else (get_or "payload" null event) (dict end))
    tools ← noted tool s.tools
    policy_id ← get_of "policy_id" (or_else (get_or "payload" null event) (dict end))
    policies ← noted policy_id s.policies_fired
    ok (record {
      total = suc s.total;
      counts = counted (get_or "eventType" null event) decision s.counts;
      tools = tools;
      policies_fired = policies;
      first_event = first_of s.first_event event;
      last_event = some event;
    })

  unfoldable pub summarize_from : Summary F → List (Fields F) → Result (Summary F)
  unfolding summarize_event
  summarize_from s [] = ok s
  summarize_from s (event ∷ events) = summarize_event event s >>= λ next. summarize_from next events

  unfoldable pub summarize_events : List (Fields F) → Result (Summary F)
  unfolding summarize_from
  summarize_events events = summarize_from no_events events

  -- `first_event.get(k, default) if first_event else default`
  abbrev pub of_event : String → Value F → Option (Fields F) → Value F
  of_event k v none = v
  of_event k v (some event) = get_or k v event

  abbrev pub natural : ℕ → Value F
  natural n = int (pos n)

  -- `event_counts`, as the verifier lists them
  unfoldable pub event_counts_of : Summary F → Fields F
  event_counts_of s = field "total" (natural s.total) (
      field "allow" (natural s.counts.allow) (
        field "block" (natural s.counts.block) (
          field "approval" (natural s.counts.approval) (
            field "log_only" (natural s.counts.log_only)
              (field "other" (natural s.counts.other) end)))))

  -- `chain`
  unfoldable pub chain_of : Summary F → Fields F
  unfolding get_or
  chain_of s = field "first_event_id" (of_event "eventId" (str "") s.first_event) (
      field "first_event_hash" (of_event "eventHash" (str "") s.first_event) (
        field "first_event_prev_hash" (of_event "prevEventHash" (str "") s.first_event) (
          field "last_event_id" (of_event "eventId" (str "") s.last_event)
            (field "last_event_hash" (of_event "eventHash" (str "") s.last_event) end))))

  -- the entries of `chain` that are signed
  unfoldable pub chain_core : Fields F → Fields F
  unfolding get_or
  chain_core chain = field "first_event_id" (get_or "first_event_id" (str "") chain) (
      field "first_event_hash" (get_or "first_event_hash" (str "") chain) (
        field "first_event_prev_hash" (get_or "first_event_prev_hash" (str "") chain) (
          field "last_event_id" (get_or "last_event_id" (str "") chain)
            (field "last_event_hash" (get_or "last_event_hash" (str "") chain) end))))

  abbrev pub bundle_version : Value F
  bundle_version = str "1.0"

  unfoldable pub signing_payload :
      Value F → Value F → Value F → Fields F → Fields F → Result (List ℕ)
  unfolding canonical_json chain_core
  signing_payload scope from_ts to_ts event_counts chain = canonical_json (
      dict (
        field "bundle_version" bundle_version (
          field "scope" scope (
            field "range" (dict (field "from" from_ts (field "to" to_ts end))) (
              field "event_counts" (dict event_counts)
                (field "chain" (dict (chain_core chain)) end))))))
