-- ===== src/Policy/Engine/Walk.antt =====
-- tessera/policy/engine.py: the walk over the policies, described without the functions of the engine.
use cloudmorph_tessera.Prelude.{
  ◌≡◌, refl, ap, sym, ◌∙◌, String, Bool, true, false, Option, none, some, List, [], ◌∷◌, Bool-cases,
  inl, inr, ◌⊎◌, arith,
}
use cloudmorph_tessera.Python.Float.{Float}
use cloudmorph_tessera.Python.Result.{Exception, Result, ok, err}
use cloudmorph_tessera.Policy.Schema.{Action, Policy, Decision}
use cloudmorph_tessera.Policy.Eval.{Host, Context, World}
use cloudmorph_tessera.Policy.Matchers.{match_upstream, match_tool_dual}
use cloudmorph_tessera.Policy.Conditions.{evaluate_conditions}
use cloudmorph_tessera.Policy.Engine.{applies, matches, lacks_intent, decision_of, first_error}
use cloudmorph_tessera.Policy.Engine.Decides.{
  Decides, no_match, skipped, unmatched, matched, raises,
}

-- the first of a list
abbrev pub head_of : List String → Option String
head_of [] = none
head_of (e ∷ es) = some e

first-head : (errors : List String) → first_error errors ≡ head_of errors
first-head [] = refl
first-head (e ∷ es) = refl

module _ {F : Type 0} ⦃fl : Float F⦄ (host : Host F) (c : Context F) (effective : String) where
  -- the policy names the upstream and the tool, by one of its two names, and the intent that it
  -- requires is there
  abbrev pub Admits : Policy F → Type 0
  Admits p =
      (match_upstream p.match.upstream c.upstream ≡ true)
      × (match_tool_dual host p.match.tool p.match.tool_pattern c.tool_name effective ≡ true)
      × ((p.match.require_intent ≡ false) ⊎ ((c.intent ≡ none) → ⊥))

  -- one of these is not so
  abbrev pub Skips : Policy F → Type 0
  Skips p =
      (match_upstream p.match.upstream c.upstream ≡ false)
      ⊎ ((match_tool_dual host p.match.tool p.match.tool_pattern c.tool_name effective ≡ false)
          ⊎ ((p.match.require_intent ≡ true) × (c.intent ≡ none)))

  -- The conditions of the policy, in a world without errors, give `r` and the world `v`, and the walk goes on
  -- in `w'`: that is `v`, but a cache of sizes that was not there before is not kept.
  abbrev pub Evaluates : Policy F → World F → Result Bool → World F → World F → Type 0
  Evaluates p w r v w' =
      (evaluate_conditions host c p.id p.when (record w { errors = [] }) ≡ (r, v))
      × (w' ≡ record v { size_cache = elim w.size_cache [ none ↦ none | some _ ↦ v.size_cache ] })

  module _ (default_action : Action) where
    -- The first policy that admits the call and whose conditions hold decides, with its action and the first
    -- error that was noted for it; an exception of a condition ends the walk; the default decides
    -- at the end.
    pub data Walk : List (Policy F) → World F → Result Decision → World F → Type 0 where
      ended :
          {w : World F} {r : Result Decision}
          → r
            ≡ ok (record {
              action = default_action;
              reason = "default";
              policy_id = none;
              decision_error = none;
            })
          → Walk [] w r w
      passed :
          {p : Policy F} {policies : List (Policy F)} {w w' : World F} {r : Result Decision}
          → Skips p
          → Walk policies w r w'
          → Walk (p ∷ policies) w r w'
      failed :
          {p : Policy F} {policies : List (Policy F)} {w v w' w'' : World F} {r : Result Decision}
          → Admits p
          → Evaluates p w (ok false) v w'
          → Walk policies w' r w''
          → Walk (p ∷ policies) w r w''
      held :
          {p : Policy F} {policies : List (Policy F)} {w v w' : World F} {r : Result Decision}
          → Admits p
          → Evaluates p w (ok true) v w'
          → r
            ≡ ok (record {
              action = p.action;
              reason = p.reason;
              policy_id = some p.id;
              decision_error = head_of v.errors;
            })
          → Walk (p ∷ policies) w r w'
      raised :
          {p : Policy F} {policies : List (Policy F)} {w v w' : World F} {x : Exception}
          {r : Result Decision}
          → Admits p
          → Evaluates p w (err x) v w'
          → r ≡ err x
          → Walk (p ∷ policies) w r w'

    intent_lacking :
        (p : Policy F)
        → lacks_intent p.match.require_intent c.intent ≡ true
        → (p.match.require_intent ≡ true) × (c.intent ≡ none)
    intent_lacking p h = ground arith

    intent_given :
        (p : Policy F)
        → lacks_intent p.match.require_intent c.intent ≡ false
        → (p.match.require_intent ≡ false) ⊎ ((c.intent ≡ none) → ⊥)
    intent_given p h = elim (Bool-cases p.match.require_intent) [
      | inl required ↦ inr (λ k. ground arith)
      | inr free ↦ inl free
    ]

    applies-Admits : (p : Policy F) → applies host c effective p ≡ true → Admits p
    unfolding applies
    applies-Admits p h = (ground arith, ground arith, intent_given p (ground arith))

    applies-Skips : (p : Policy F) → applies host c effective p ≡ false → Skips p
    unfolding applies
    applies-Skips p h = elim (Bool-cases (match_upstream p.match.upstream c.upstream)) [
      | inr other ↦ inl other
      | inl same ↦
          elim (Bool-cases
            (match_tool_dual host p.match.tool p.match.tool_pattern c.tool_name effective)) [
              | inr unnamed ↦ inr (inl unnamed)
              | inl named ↦ inr (inr (intent_lacking p (ground arith)))
            ]
    ]

    matches-Evaluates :
        (p : Policy F) (w w' : World F) (r : Result Bool)
        → matches host c p w ≡ (r, w')
        → (v : World F) × Evaluates p w r v w' × (w'.errors ≡ v.errors)
    unfolding matches
    matches-Evaluates p w w' r h =
        let entered : World F = record w { errors = [] } in
        let (r', v) = evaluate_conditions host c p.id p.when entered in
        let same : r' ≡ r = ap (λ (o : Result Bool × World F). o.0) h in
        let left = ap (λ (o : Result Bool × World F). o.1) h in
        (v, (ap (λ b. (b, v)) same, sym left), ap (λ (u : World F). u.errors) (sym left))

    decided :
        (p : Policy F) {errors noted : List String}
        → errors ≡ noted
        → ok (decision_of p errors)
          ≡ ok (record {
            action = p.action;
            reason = p.reason;
            policy_id = some p.id;
            decision_error = head_of noted;
          })
    unfolding decision_of
    decided p {errors} {noted} same =
        ap
          (λ o. ok (record {
            action = p.action;
            reason = p.reason;
            policy_id = some p.id;
            decision_error = o;
          }))
          (first-head errors ∙ ap head_of same)

    pub Decides-Walk :
        {policies : List (Policy F)} {w w' : World F} {r : Result Decision}
        → Decides host c effective default_action policies w r w'
        → Walk policies w r w'
    Decides-Walk no_match = ended refl
    Decides-Walk (skipped {p = p} skip d) = passed (applies-Skips p skip) (Decides-Walk d)
    Decides-Walk (unmatched {p = p} {w = w} {w' = w'} applied m d) =
        let (v, e, errors) = matches-Evaluates p w w' (ok false) m in
        failed (applies-Admits p applied) e (Decides-Walk d)
    Decides-Walk (matched {p = p} {w = w} {w' = w'} applied m e) =
        let (v, evaluates, errors) = matches-Evaluates p w w' (ok true) m in
        held (applies-Admits p applied) evaluates (e ∙ decided p errors)
    Decides-Walk (raises {p = p} {w = w} {w' = w'} {x = x} applied m e) =
        let (v, evaluates, errors) = matches-Evaluates p w w' (err x) m in
        raised (applies-Admits p applied) evaluates e
