-- ===== src/Cost/Combinations.antt =====
-- tessera/cost/combinations.py: the data and the writes of `CombinationTracker`; Queries has its
-- queries and its sweep. The lock makes each method one step, and a method is given the readings of its
-- clock. An object `ActiveChain` is reached through its key alone.
pub mod Eviction
pub mod Lookup
pub mod Records
pub mod Recorded
pub mod Repeats
pub mod Cleanup
pub mod Queries
use cloudmorph_tessera.Prelude.{
  ℕ, ◌-◌, ◌≡◌, String, Bool, true, ◌&&◌, ◌||◌, Option, none, some, List, [], ◌∷◌, ◌++◌, map, leb,
  all, keep, contains, length, ◌==◌, string_eq, eq_iff, Eq, arith, ◌↔◌, if◌then◌else◌, ℤ, take,
}
use cloudmorph_tessera.Dict
use cloudmorph_tessera.Dict.{Dict, keys}
use cloudmorph_tessera.Python.Float.{Float}
use cloudmorph_tessera.Python.Value.{Fields}

pub record TriggerOp : Type 0 where
  pub tool_name : String
  pub role : String
  pub must_follow : List String

pub record CombinationDef : Type 0 where
  pub combination_id : String
  pub name : String
  pub description : String
  pub cloud : String
  pub trigger_ops : List TriggerOp
  pub window_seconds : ℤ
  pub cost_runaway_severity : String
  pub blast_radius_severity : String
  pub ops_count : ℤ

pub record ActiveChain (F : Type 0) : Type 0 where
  pub combination_id : String
  pub started_at : F
  pub last_updated : F
  pub observed_ops : List (String × F × Fields F)
  pub aggregate_cost_usd : F
  pub principals : List String

-- the key `(tenant_id, scope_id, combination_id)`
pub record ChainKey : Type 0 where
  pub tenant_id : String
  pub scope_id : String
  pub combination_id : String

abbrev pub key_beq : ChainKey → ChainKey → Bool
key_beq a b =
    a.tenant_id == b.tenant_id && a.scope_id == b.scope_id && a.combination_id == b.combination_id

pub key_beq_iff : (a b : ChainKey) → (key_beq a b ≡ true) ↔ (a ≡ b)
key_beq_iff a b = ground (
  arith,
  eq_iff a.tenant_id b.tenant_id,
  eq_iff a.scope_id b.scope_id,
  eq_iff a.combination_id b.combination_id,
)

instance abbrev pub key_eq : Eq ChainKey
key_eq = record { beq = key_beq; beq_iff = key_beq_iff }

pub record Tracker (F : Type 0) : Type 0 where
  pub defs_by_id : Dict String CombinationDef
  pub defs_by_op : Dict String (List CombinationDef)
  pub active : Dict ChainKey (ActiveChain F)
  pub max_chains_per_tenant : ℕ

abbrev pub default_max_chains_per_tenant : ℕ
default_max_chains_per_tenant = 1000

-- the loop of `_register`: `setdefault(op.tool_name, []).append(defn)`
unfoldable pub index_ops :
    CombinationDef
    → List TriggerOp
    → Dict String (List CombinationDef)
    → Dict String (List CombinationDef)
index_ops defn [] by_op = by_op
index_ops defn (op ∷ ops) by_op = index_ops defn ops (
    Dict.put op.tool_name
      (elim (Dict.get op.tool_name by_op) [ none ↦ [] | some defs ↦ defs ] ++ (defn ∷ [])) by_op)

-- `if principal: chain.principals.add(principal)`
unfoldable pub add_principal : Option String → List String → List String
add_principal none principals = principals
add_principal (some p) principals =
    if p == "" || contains p principals then principals else principals ++ (p ∷ [])

abbrev pub key_of : String → String → CombinationDef → ChainKey
key_of tenant_id scope_id defn = record {
  tenant_id = tenant_id;
  scope_id = scope_id;
  combination_id = defn.combination_id;
}

module _ {F : Type 0} where
  unfoldable pub register : CombinationDef → Tracker F → Tracker F
  register defn t = record t {
    defs_by_id = Dict.put defn.combination_id defn t.defs_by_id;
    defs_by_op = index_ops defn defn.trigger_ops t.defs_by_op;
  }

  -- the loops of `__init__` and `load_from_yaml_docs` over the definitions
  unfoldable pub register_all : List CombinationDef → Tracker F → Tracker F
  register_all [] t = t
  register_all (defn ∷ defs) t = register_all defs (register defn t)

  unfoldable pub new_tracker : List CombinationDef → ℕ → Tracker F
  new_tracker defs max_chains =
      register_all defs (record {
        defs_by_id = [];
        defs_by_op = [];
        active = [];
        max_chains_per_tenant = max_chains;
      })

  unfoldable pub get_definition : String → Tracker F → Option CombinationDef
  get_definition combination_id t = Dict.get combination_id t.defs_by_id

  -- `ActiveChain.is_complete`
  unfoldable pub is_complete : ActiveChain F → CombinationDef → Bool
  is_complete chain defn =
      all
        (λ (op : TriggerOp).
          contains op.tool_name (map (λ (o : String × F × Fields F). o.0) chain.observed_ops))
        defn.trigger_ops

  -- `ActiveChain.ops_count`
  unfoldable pub chain_ops : ActiveChain F → ℕ
  chain_ops chain = length chain.observed_ops

  -- `k[0] == tenant_id`
  abbrev pub is_of : String → ChainKey × ActiveChain F → Bool
  is_of tenant_id entry = (entry.0).tenant_id == tenant_id

  -- `tenant_chains`
  unfoldable pub chains_of : String → Dict ChainKey (ActiveChain F) → Dict ChainKey (ActiveChain F)
  chains_of tenant_id active = keep (is_of tenant_id) active

  unfoldable pub evict_if_needed : String → Tracker F → Tracker F
  evict_if_needed tenant_id t =
      let tenant_chains = chains_of tenant_id t.active in
      if leb (length tenant_chains) t.max_chains_per_tenant then t else record t {
        active =
            Dict.pop_all
              (keys (take (length tenant_chains - t.max_chains_per_tenant) tenant_chains)) t.active;
      }

module _ {F : Type 0} ⦃fl : Float F⦄ where
  unfoldable pub window_seconds : ActiveChain F → F → F
  window_seconds chain now = fl.sub now chain.started_at

  unfoldable pub is_expired : ActiveChain F → CombinationDef → F → Bool
  is_expired chain defn now = fl.gt_int (fl.sub now chain.started_at) defn.window_seconds

  unfoldable pub new_chain : F → CombinationDef → ActiveChain F
  new_chain now defn = record {
    combination_id = defn.combination_id;
    started_at = now;
    last_updated = now;
    observed_ops = [];
    aggregate_cost_usd = fl.nought;
    principals = [];
  }

  -- the chain that an operation extends: the one of its key, or a new one
  unfoldable pub current_chain : F → CombinationDef → Option (ActiveChain F) → ActiveChain F
  current_chain now defn none = new_chain now defn
  current_chain now defn (some chain) =
      if is_expired chain defn now then new_chain now defn else chain

  unfoldable pub extended :
      String → F → Fields F → F → Option String → ActiveChain F → ActiveChain F
  extended tool_name now args cost principal chain = record chain {
    observed_ops = chain.observed_ops ++ ((tool_name, now, args) ∷ []);
    aggregate_cost_usd = fl.add chain.aggregate_cost_usd cost;
    last_updated = now;
    principals = add_principal principal chain.principals;
  }

  -- One round of the loop over the definitions: the chain is written and becomes the newest.
  unfoldable pub touch :
      String
      → String
      → String
      → F
      → Fields F
      → F
      → Option String
      → CombinationDef
      → Dict ChainKey (ActiveChain F)
      → Dict ChainKey (ActiveChain F)
  touch tenant_id scope_id tool_name now args cost principal defn active =
      let key = key_of tenant_id scope_id defn in
      let chain =
        extended tool_name now args cost principal (current_chain now defn (Dict.get key active)) in
      Dict.move_to_end key (Dict.put key chain active)

  unfoldable pub touch_all :
      String
      → String
      → String
      → F
      → Fields F
      → F
      → Option String
      → List CombinationDef
      → Dict ChainKey (ActiveChain F)
      → Dict ChainKey (ActiveChain F)
  touch_all tenant_id scope_id tool_name now args cost principal [] active = active
  touch_all tenant_id scope_id tool_name now args cost principal (defn ∷ defs) active =
      touch_all tenant_id scope_id tool_name now args cost principal defs
        (touch tenant_id scope_id tool_name now args cost principal defn active)

  unfoldable pub matching_defs : String → Tracker F → List CombinationDef
  matching_defs tool_name t = elim (Dict.get tool_name t.defs_by_op) [
    | none ↦ []
    | some defs ↦ defs
  ]

  -- The body of `record_op` for the definitions that match. The chains of the call are returned by
  -- their keys: each is an object that the caller shares.
  unfoldable pub record_on :
      String
      → String
      → String
      → F
      → Fields F
      → F
      → Option String
      → List CombinationDef
      → Tracker F
      → List ChainKey × Tracker F
  record_on tenant_id scope_id tool_name now args cost principal [] t = ([], t)
  record_on tenant_id scope_id tool_name now args cost principal (defn ∷ defs) t = (
    map (key_of tenant_id scope_id) (defn ∷ defs),
    evict_if_needed tenant_id (record t {
      active =
          touch_all tenant_id scope_id tool_name now args cost principal (defn ∷ defs) t.active;
    }),
  )

  unfoldable pub record_op :
      String
      → String
      → String
      → F
      → Fields F
      → F
      → Option String
      → Tracker F
      → List ChainKey × Tracker F
  record_op tenant_id scope_id tool_name now args cost principal t =
      record_on tenant_id scope_id tool_name now args cost principal (matching_defs tool_name t) t
