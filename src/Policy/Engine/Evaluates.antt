-- ===== src/Policy/Engine/Evaluates.antt =====
-- `PolicyEngine.evaluate` as a whole: what it decides, and that it decides.
use cloudmorph_tessera.Prelude.{
  ◌≡◌, refl, String, Bool, true, false, ◌&&◌, none, some, List, [], ◌∷◌, Bool-cases, inl, inr, ◌⊎◌,
  and_split, if◌then◌else◌, ap,
}
use cloudmorph_tessera.Dict.{Dict}
use cloudmorph_tessera.Python.Float.{Float}
use cloudmorph_tessera.Python.Result.{Result, ok}
use cloudmorph_tessera.Policy.Schema.{Action, block, Policy, Decision}
use cloudmorph_tessera.Policy.Eval.{Host, Context, CostResult, World, Eval}
use cloudmorph_tessera.Policy.Matchers.{resolve_effective_tool_name}
use cloudmorph_tessera.Policy.Eval.Returns.{Returns, >>=-Returns, pure-Returns}
use cloudmorph_tessera.Policy.Conditions.Returns.{are_total, evaluate_conditions-Returns}
use cloudmorph_tessera.Policy.Engine.{
  Engine, lockdown_decision, applies, matches, enter, leave, conclude, decision_of, decide,
  evaluate,
}
use cloudmorph_tessera.Policy.Engine.Decides.{decide-Decides}
use cloudmorph_tessera.Policy.Engine.Walk.{Walk, Decides-Walk}

module _ {F : Type 0} where
  -- no policy has a condition that can raise
  abbrev pub all_total : List (Policy F) → Bool
  all_total [] = true
  all_total (p ∷ policies) = are_total p.when && all_total policies

module _ {F : Type 0} ⦃fl : Float F⦄ (host : Host F) (c : Context F) where
  evaluate_locked :
      (e : Engine F) (w : World F)
      → c.lockdown ≡ true
      → evaluate host e c w ≡ (ok lockdown_decision, w)
  unfolding evaluate
  evaluate_locked e w h =
      ap
        (λ b.
          if b
          then (ok lockdown_decision, w)
          else decide host c (resolve_effective_tool_name c w).0 e.default_action e.policies
              (resolve_effective_tool_name c w).1)
        h

  evaluate_open :
      (e : Engine F) (w : World F)
      → c.lockdown ≡ false
      → evaluate host e c w
        ≡ decide host c
            (resolve_effective_tool_name c w).0
            e.default_action
            e.policies
            (resolve_effective_tool_name c w).1
  unfolding evaluate
  evaluate_open e w h =
      ap
        (λ b.
          if b
          then (ok lockdown_decision, w)
          else decide host c (resolve_effective_tool_name c w).0 e.default_action e.policies
              (resolve_effective_tool_name c w).1)
        h

  -- In lockdown every request is blocked, for that reason and by no policy, in an unchanged world, whatever
  -- the policies say. Else the relation `Walk` holds of the result, for the effective name of the tool:
  -- the first policy that names the upstream and the tool, whose required intent is there and whose
  -- conditions hold in a world without errors, decides with its action and the first error noted for it;
  -- an exception of a condition ends the walk; and where no policy decides, the default does.
  pub evaluate-Walk :
      (e : Engine F) (w : World F)
      → ((c.lockdown ≡ true)
          × (evaluate host e c w ≡ (
            ok (record {
              action = block;
              reason = "lockdown_active";
              policy_id = none;
              decision_error = none;
            }),
            w,
          )))
        ⊎ ((c.lockdown ≡ false)
            × Walk host c
                (resolve_effective_tool_name c w).0
                e.default_action
                e.policies
                (resolve_effective_tool_name c w).1
                (evaluate host e c w).0
                (evaluate host e c w).1)
  evaluate-Walk e w = elim (Bool-cases c.lockdown) [
    | inl on ↦ inl (on, evaluate_locked e w on)
    | inr off ↦ inr (
      off,
      rw (evaluate_open e w off) (
          Decides-Walk host c (resolve_effective_tool_name c w).0 e.default_action (
            decide-Decides host c (resolve_effective_tool_name c w).0 e.default_action e.policies
              (resolve_effective_tool_name c w).1)),
    )
  ]

  matches-Returns :
      (cache : Dict String (CostResult F)) (p : Policy F)
      → c.cost_cache ≡ some cache
      → are_total p.when ≡ true
      → Returns (matches host c p)
  unfolding matches
  matches-Returns cache p h t w =
      let (b, w', q) = evaluate_conditions-Returns host c p.id cache h p.when t (enter w) in
      (b, leave w w', ap (λ (r : Result Bool × World F). (r.0, leave w r.1)) q)

  conclude-Returns :
      (p : Policy F) (rest : Eval F Decision) (b : Bool)
      → Returns rest
      → Returns (conclude p rest b)
  unfolding conclude
  conclude-Returns p rest true h = λ w. (decision_of p w.errors, w, refl)
  conclude-Returns p rest false h = h

  if-Returns :
      (b : Bool) (m n : Eval F Decision)
      → Returns m
      → Returns n
      → Returns (λ w. (if b then m else n) w)
  if-Returns true m n h k = h
  if-Returns false m n h k = k

  decide-Returns :
      (cache : Dict String (CostResult F)) (effective : String) (default_action : Action)
      (policies : List (Policy F))
      → c.cost_cache ≡ some cache
      → all_total policies ≡ true
      → Returns (decide host c effective default_action policies)
  unfolding decide
  decide-Returns cache effective default_action [] h t = pure-Returns _
  decide-Returns cache effective default_action (p ∷ policies) h t =
      let rest =
        decide-Returns cache effective default_action policies h
          (and_split (are_total p.when) _ t).1 in
      if-Returns (applies host c effective p) _ _
        (>>=-Returns (matches host c p) _
          (matches-Returns cache p h (and_split (are_total p.when) _ t).0)
          (λ matched. conclude-Returns p _ matched rest))
        rest

  -- Where the cost cache is set and no policy has, at any depth, a condition `arg_greater_than`,
  -- `arg_less_than`, `intent_class_in` or `time_of_day_outside`, nor one on the data volume by the
  -- estimate of a query, `evaluate` returns a decision and does not raise.
  pub evaluate-Returns :
      (cache : Dict String (CostResult F)) (e : Engine F) (w : World F)
      → c.cost_cache ≡ some cache
      → all_total e.policies ≡ true
      → (d : Decision) × (w' : World F) × (evaluate host e c w ≡ (ok d, w'))
  evaluate-Returns cache e w h t = elim (Bool-cases c.lockdown) [
    | inl on ↦ (lockdown_decision, w, evaluate_locked e w on)
    | inr off ↦ rw (evaluate_open e w off) (
        decide-Returns cache (resolve_effective_tool_name c w).0 e.default_action e.policies h t
          (resolve_effective_tool_name c w).1)
  ]
