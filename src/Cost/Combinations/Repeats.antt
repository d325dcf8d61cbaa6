-- ===== src/Cost/Combinations/Repeats.antt =====
-- tessera/cost/combinations.py: a combination that names one tool in several of its operations.
use cloudmorph_tessera.Prelude.{
  ℕ, suc, ◌+◌, ◌≡◌, refl, ap, ◌∙◌, String, true, false, Option, none, some, List, [], ◌∷◌, ◌++◌,
  length, leb, replicate, Bool-cases, inl, inr, if◌then◌else◌, ◌==◌, string_eq, append_assoc,
  append-nil, sym,
}
use cloudmorph_tessera.Dict
use cloudmorph_tessera.Dict.{Dict, get-put}
use cloudmorph_tessera.Python.Float.{Float}
use cloudmorph_tessera.Python.Value.{Fields}
use cloudmorph_tessera.Cost.Combinations.{
  CombinationDef, TriggerOp, ActiveChain, key_eq, key_of, Tracker, chains_of, evict_if_needed,
  index_ops, register, is_expired, touch_all, matching_defs, record_on, record_op,
}
use cloudmorph_tessera.Cost.Combinations.Lookup.{touch_all_repeats}

abbrev defs_of : Option (List CombinationDef) → List CombinationDef
defs_of none = []
defs_of (some defs) = defs

-- how many of the operations name the tool
abbrev pub times_named : String → List TriggerOp → ℕ
times_named tool_name [] = 0
times_named tool_name (op ∷ ops) =
    if op.tool_name == tool_name then suc (times_named tool_name ops) else times_named tool_name ops

defs_of-put :
    (tool_name name : String) (defn : CombinationDef) (by_op : Dict String (List CombinationDef))
    → defs_of (
        Dict.get tool_name (
          Dict.put name
            (elim (Dict.get name by_op) [ none ↦ [] | some defs ↦ defs ] ++ (defn ∷ []))
            by_op))
      ≡ (if name == tool_name
          then defs_of (Dict.get tool_name by_op) ++ (defn ∷ [])
          else defs_of (Dict.get tool_name by_op))
defs_of-put tool_name name defn by_op =
    ap defs_of (get-put name tool_name _ by_op) ∙ elim (Bool-cases (name == tool_name)) [
      | inl same ↦ rw same (
          ap (λ ds. ds ++ (defn ∷ [])) (listed (Dict.get name by_op))
          ∙ ap (λ k. defs_of (Dict.get k by_op) ++ (defn ∷ []))
              ((string_eq.beq_iff name tool_name).0 same))
      | inr other ↦ rw other refl
    ]
  where
    listed :
        (o : Option (List CombinationDef)) → elim o [ none ↦ [] | some defs ↦ defs ] ≡ defs_of o
    listed none = refl
    listed (some defs) = refl

defs_of-index_ops :
    (tool_name : String) (defn : CombinationDef) (ops : List TriggerOp)
    (by_op : Dict String (List CombinationDef))
    → defs_of (Dict.get tool_name (index_ops defn ops by_op))
      ≡ defs_of (Dict.get tool_name by_op) ++ replicate (times_named tool_name ops) defn
unfolding index_ops
defs_of-index_ops tool_name defn [] by_op = sym (append-nil (defs_of (Dict.get tool_name by_op)))
defs_of-index_ops tool_name defn (op ∷ ops) by_op =
    defs_of-index_ops tool_name defn ops _
    ∙ ap (λ ds. ds ++ replicate (times_named tool_name ops) defn)
        (defs_of-put tool_name op.tool_name defn by_op)
    ∙ elim (Bool-cases (op.tool_name == tool_name)) [
      | inl same ↦ rw same (append_assoc (defs_of (Dict.get tool_name by_op)) (defn ∷ []) _)
      | inr other ↦ rw other refl
    ]

module _ {F : Type 0} ⦃fl : Float F⦄ where
  matching_defs-register :
      (tool_name : String) (defn : CombinationDef) (t : Tracker F)
      → matching_defs tool_name (register defn t)
        ≡ matching_defs tool_name t ++ replicate (times_named tool_name defn.trigger_ops) defn
  unfolding matching_defs register
  matching_defs-register tool_name defn t =
      listed (Dict.get tool_name (index_ops defn defn.trigger_ops t.defs_by_op))
      ∙ defs_of-index_ops tool_name defn defn.trigger_ops t.defs_by_op
      ∙ ap (λ ds. ds ++ replicate (times_named tool_name defn.trigger_ops) defn)
          (sym (listed (Dict.get tool_name t.defs_by_op)))
    where
      listed :
          (o : Option (List CombinationDef)) → elim o [ none ↦ [] | some defs ↦ defs ] ≡ defs_of o
      listed none = refl
      listed (some defs) = refl

module _ {F : Type 0} where
  evict_within :
      (tenant_id : String) (t : Tracker F)
      → leb (length (chains_of tenant_id t.active)) t.max_chains_per_tenant ≡ true
      → evict_if_needed tenant_id t ≡ t
  unfolding evict_if_needed
  evict_within tenant_id t h = rw h

module _ {F : Type 0} ⦃fl : Float F⦄ (tenant_id scope_id tool_name : String) (now : F)
    (args : Fields F) (cost : F) (principal : Option String) where
  -- the chains after a call that triggers these definitions, before the eviction
  abbrev pub touched : List CombinationDef → Tracker F → Tracker F
  touched defs t = record t {
    active = touch_all tenant_id scope_id tool_name now args cost principal defs t.active;
  }

  active-record_on :
      (defs : List CombinationDef) (t : Tracker F)
      → leb (length (chains_of tenant_id (touched defs t).active)) t.max_chains_per_tenant ≡ true
      → (record_on tenant_id scope_id tool_name now args cost principal defs t).1.active
        ≡ (touched defs t).active
  unfolding record_on touch_all
  active-record_on [] t h = refl
  active-record_on (defn ∷ defs) t h =
      ap (λ (u : Tracker F). u.active) (evict_within tenant_id (touched (defn ∷ defs) t) h)

  -- Where no registered combination names the tool, one is registered of whose trigger operations `n` name
  -- it. Then, if the chain of its key is within its window and the tenant's chains after the call are
  -- within the cap, `record_op` enters a single call of the tool into that chain `n` times.
  pub record_op_repeats :
      (defn : CombinationDef) (t : Tracker F) (chain : ActiveChain F)
      → matching_defs tool_name t ≡ []
      → Dict.get (key_of tenant_id scope_id defn) t.active ≡ some chain
      → fl.gt_int (fl.sub now chain.started_at) defn.window_seconds ≡ false
      → leb
          (length (
            chains_of tenant_id
              (touched (replicate (times_named tool_name defn.trigger_ops) defn) t).active))
          t.max_chains_per_tenant
        ≡ true
      → (after : ActiveChain F) × (Dict.get
            (key_of tenant_id scope_id defn)
            (record_op tenant_id scope_id tool_name now args cost principal
              (register defn t)).1.active
          ≡ some after)
        × (length after.observed_ops
            ≡ length chain.observed_ops + times_named tool_name defn.trigger_ops)
  unfolding record_op is_expired register
  record_op_repeats defn t chain unnamed found fresh room =
      let n = times_named tool_name defn.trigger_ops in
      let (after, p, counted, started) =
        touch_all_repeats tenant_id scope_id tool_name now args cost principal n defn t.active chain
          (λ c h. ap (λ s. fl.gt_int (fl.sub now s) defn.window_seconds) h ∙ fresh) found in
      (
        after,
        ap
              (λ defs.
                Dict.get (key_of tenant_id scope_id defn)
                  (record_on tenant_id scope_id tool_name now args cost principal defs
                    (register defn t)).1.active)
              (matching_defs-register tool_name defn t ∙ ap (λ ds. ds ++ replicate n defn) unnamed)
            ∙ ap (Dict.get (key_of tenant_id scope_id defn))
                (active-record_on (replicate n defn) (register defn t) room)
            ∙ p,
        counted,
      )
