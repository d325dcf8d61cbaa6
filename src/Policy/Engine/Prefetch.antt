-- ===== src/Policy/Engine/Prefetch.antt =====
-- The gate of the blast-radius prefetch: where it says no, the counts are not looked at.
use cloudmorph_tessera.Prelude.{
  ◌≡◌, refl, sym, ap, ◌∙◌, String, Bool, true, false, Option, none, some, List, [], ◌∷◌, ℤ,
  or_split, arith, if◌then◌else◌, ◌==◌, string_eq, beq_refl, ap₂,
}
use cloudmorph_tessera.Dict.{Dict}
use cloudmorph_tessera.Python.Float.{Float}
use cloudmorph_tessera.Python.Result.{Result, ok}
use cloudmorph_tessera.Python.Value.{Fields}
use cloudmorph_tessera.Policy.Schema.{Action, Policy, Decision}
use cloudmorph_tessera.Policy.Eval.{Host, Context, World, Eval, ◌>>=◌}
use cloudmorph_tessera.Policy.Matchers.{
  match_tool, match_tool_dual, resolve_effective_tool_name, effective_name,
}
use cloudmorph_tessera.Policy.Engine.Counts.{with_counts, same_conditions}
use cloudmorph_tessera.Policy.Engine.{
  any_blast_radius_for, gated, policies_need_blast_radius, applies, matches, decide, enter, leave,
  conclude, Engine, evaluate, lockdown_decision,
}

module _ {F : Type 0} ⦃fl : Float F⦄ (host : Host F) (c : Context F) where
  resolve_plain :
      (w : World F)
      → (c.tool_name == "call_aws") ≡ false
      → w.effective_tool_name ≡ none
      → resolve_effective_tool_name c w
        ≡ (c.tool_name, record w { effective_tool_name = some c.tool_name })
  unfolding resolve_effective_tool_name effective_name
  resolve_plain w h k = rw k (rw h refl)

module _ {F : Type 0} ⦃fl : Float F⦄ (host : Host F) (c : Context F) (cache : Dict String ℤ)
    (backend : Option (String → Fields F → Option ℤ)) where
  dual_self :
      (tool pattern : Option String) (name : String)
      → match_tool_dual host tool pattern name name ≡ match_tool host tool pattern name
  unfolding match_tool_dual
  dual_self tool pattern name = rw (beq_refl name)

  -- a policy that applies to the literal name passes the gate
  gated-of-applies :
      (p : Policy F)
      → applies host c c.tool_name p ≡ true
      → gated host c.tool_name c.upstream p ≡ true
  unfolding applies gated
  gated-of-applies p h = ground (arith, dual_self p.match.tool p.match.tool_pattern c.tool_name)

  same_applies :
      (p : Policy F)
      → applies host (with_counts cache backend c) c.tool_name p ≡ applies host c c.tool_name p
  unfolding applies
  same_applies p = refl

  same_matches :
      (p : Policy F)
      → any_blast_radius_for c.tool_name p.when ≡ false
      → matches host (with_counts cache backend c) p ≡ matches host c p
  unfolding matches
  same_matches p h =
      ap (λ (m : Eval F Bool). λ w. let (r, w') = m (enter w) in (r, leave w w'))
        (same_conditions host c p.id cache backend p.when h)

  -- one round of the loop
  round : Policy F → Bool → Eval F Bool → Eval F Decision → Eval F Decision
  round p b m rest = if b then (m >>= conclude p rest) else rest

  same_round :
      (p : Policy F) (b : Bool) (m m' : Eval F Bool) (rest rest' : Eval F Decision)
      → (b ≡ true → m ≡ m')
      → rest ≡ rest'
      → round p b m rest ≡ round p b m' rest'
  unfolding round
  same_round p true m m' rest rest' h k = ap₂ (λ n r. n >>= conclude p r) (h refl) k
  same_round p false m m' rest rest' h k = k

  unneeded :
      (p : Policy F) (policies : List (Policy F))
      → policies_need_blast_radius host (p ∷ policies) c.tool_name c.upstream ≡ false
      → applies host c c.tool_name p ≡ true
      → any_blast_radius_for c.tool_name p.when ≡ false
  unfolding policies_need_blast_radius
  unneeded p policies h a = ground (arith, gated-of-applies p a)

  unneeded_rest :
      (p : Policy F) (policies : List (Policy F))
      → policies_need_blast_radius host (p ∷ policies) c.tool_name c.upstream ≡ false
      → policies_need_blast_radius host policies c.tool_name c.upstream ≡ false
  unfolding policies_need_blast_radius
  unneeded_rest p policies h = (or_split _ _ h).1

  same_decide :
      (default_action : Action) (policies : List (Policy F))
      → policies_need_blast_radius host policies c.tool_name c.upstream ≡ false
      → decide host (with_counts cache backend c) c.tool_name default_action policies
        ≡ decide host c c.tool_name default_action policies
  unfolding decide round
  same_decide default_action [] h = refl
  same_decide default_action (p ∷ policies) h =
      ap
        (λ b.
          round p b (matches host (with_counts cache backend c) p)
            (decide host (with_counts cache backend c) c.tool_name default_action policies))
        (same_applies p)
      ∙ same_round p (applies host c c.tool_name p) _ _ _ _
          (λ a. same_matches p (unneeded p policies h a))
          (same_decide default_action policies (unneeded_rest p policies h))

  -- For a tool other than `call_aws`, in a request whose name is not resolved yet: where
  -- `policies_need_blast_radius` is false, the evaluation is the same for all counts and backends
  -- of the blast radius.
  pub evaluate-without_counts :
      (e : Engine F) (w : World F)
      → (c.tool_name == "call_aws") ≡ false
      → w.effective_tool_name ≡ none
      → policies_need_blast_radius host e.policies c.tool_name c.upstream ≡ false
      → evaluate host e (with_counts cache backend c) w ≡ evaluate host e c w
  unfolding evaluate
  evaluate-without_counts e w h k n =
      ap (from (with_counts cache backend c))
        (resolve_plain host (with_counts cache backend c) w h k)
      ∙ ap
          (λ (m : Eval F Decision).
            if c.lockdown
            then (ok lockdown_decision, w)
            else m (record w { effective_tool_name = some c.tool_name }))
          (same_decide e.default_action e.policies n)
      ∙ ap (from c) (sym (resolve_plain host c w h k))
    where
      from : Context F → String × World F → Result Decision × World F
      from d r =
          if c.lockdown
          then (ok lockdown_decision, w)
          else decide host d r.0 e.default_action e.policies r.1
