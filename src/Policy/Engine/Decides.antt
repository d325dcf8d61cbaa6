-- ===== src/Policy/Engine/Decides.antt =====
-- The engine against its specification: the first policy that applies and matches decides.
use cloudmorph_tessera.Prelude.{
  ◌≡◌, refl, String, Bool, true, false, none, some, List, [], ◌∷◌, ◌++◌, Bool-cases, inl, inr,
}
use cloudmorph_tessera.Python.Float.{Float}
use cloudmorph_tessera.Python.Result.{Exception, Result, ok, err}
use cloudmorph_tessera.Policy.Schema.{Action, Policy, Decision}
use cloudmorph_tessera.Policy.Eval.{Host, Context, World, Eval, >>=_ok, >>=_err}
use cloudmorph_tessera.Policy.Engine.{
  default_decision, decision_of, applies, matches, decide, conclude,
}

module _ {F : Type 0} ⦃fl : Float F⦄ (host : Host F) (c : Context F) (effective : String)
    (default_action : Action) where
  -- The walk over the policies, from one world to the next. A policy that does not apply is not
  -- evaluated; one that applies and does not match leaves its world; the first that matches ends it.
  pub data Decides : List (Policy F) → World F → Result Decision → World F → Type 0 where
    no_match : {w : World F} → Decides [] w (ok (default_decision default_action)) w
    skipped :
        {p : Policy F} {policies : List (Policy F)} {w w' : World F} {r : Result Decision}
        → applies host c effective p ≡ false
        → Decides policies w r w'
        → Decides (p ∷ policies) w r w'
    unmatched :
        {p : Policy F} {policies : List (Policy F)} {w w' w'' : World F} {r : Result Decision}
        → applies host c effective p ≡ true
        → matches host c p w ≡ (ok false, w')
        → Decides policies w' r w''
        → Decides (p ∷ policies) w r w''
    matched :
        {p : Policy F} {policies : List (Policy F)} {w w' : World F} {r : Result Decision}
        → applies host c effective p ≡ true
        → matches host c p w ≡ (ok true, w')
        → r ≡ ok (decision_of p w'.errors)
        → Decides (p ∷ policies) w r w'
    raises :
        {p : Policy F} {policies : List (Policy F)} {w w' : World F} {x : Exception}
        {r : Result Decision}
        → applies host c effective p ≡ true
        → matches host c p w ≡ (err x, w')
        → r ≡ err x
        → Decides (p ∷ policies) w r w'

  decide_skip :
      (p : Policy F) (policies : List (Policy F)) (w : World F)
      → applies host c effective p ≡ false
      → decide host c effective default_action (p ∷ policies) w
        ≡ decide host c effective default_action policies w
  unfolding decide
  decide_skip p policies w h = rw h

  decide_unmatched :
      (p : Policy F) (policies : List (Policy F)) (w w' : World F)
      → applies host c effective p ≡ true
      → matches host c p w ≡ (ok false, w')
      → decide host c effective default_action (p ∷ policies) w
        ≡ decide host c effective default_action policies w'
  unfolding decide conclude
  decide_unmatched p policies w w' h m =
      rw h
        (>>=_ok (matches host c p) (conclude p (decide host c effective default_action policies)) m)

  decide_matched :
      (p : Policy F) (policies : List (Policy F)) (w w' : World F)
      → applies host c effective p ≡ true
      → matches host c p w ≡ (ok true, w')
      → decide host c effective default_action (p ∷ policies) w ≡ (ok (decision_of p w'.errors), w')
  unfolding decide conclude
  decide_matched p policies w w' h m =
      rw h
        (>>=_ok (matches host c p) (conclude p (decide host c effective default_action policies)) m)

  decide_raises :
      (p : Policy F) (policies : List (Policy F)) (w w' : World F) (x : Exception)
      → applies host c effective p ≡ true
      → matches host c p w ≡ (err x, w')
      → decide host c effective default_action (p ∷ policies) w ≡ (err x, w')
  unfolding decide
  decide_raises p policies w w' x h m =
      rw h (
        >>=_err (matches host c p) (conclude p (decide host c effective default_action policies)) m)

  -- What the loop computes is what the walk allows.
  pub decide-Decides :
      (policies : List (Policy F)) (w : World F)
      → Decides policies w
          (decide host c effective default_action policies w).0
          (decide host c effective default_action policies w).1
  decide-Decides [] w = unfold decide in no_match
  decide-Decides (p ∷ policies) w = elim (Bool-cases (applies host c effective p)) [
    | inl applied ↦
        outcome (matches host c p w).0 (matches host c p w).1 applied refl (decide-Decides policies)
    | inr skip ↦ rw (decide_skip p policies w skip) (skipped skip (decide-Decides policies w))
  ]
    where
      outcome :
          (r : Result Bool) (w' : World F)
          → applies host c effective p ≡ true
          → matches host c p w ≡ (r, w')
          → ((v : World F)
              → Decides policies v
                  (decide host c effective default_action policies v).0
                  (decide host c effective default_action policies v).1)
          → Decides
              (p ∷ policies)
              w
              (decide host c effective default_action (p ∷ policies) w).0
              (decide host c effective default_action (p ∷ policies) w).1
      outcome (ok true) w' applied m ih =
          rw (decide_matched p policies w w' applied m) (matched applied m refl)
      outcome (ok false) w' applied m ih =
          rw (decide_unmatched p policies w w' applied m) (unmatched applied m (ih w'))
      outcome (err x) w' applied m ih =
          rw (decide_raises p policies w w' x applied m) (raises applied m refl)

  -- what is decided after policies that have decided nothing
  abbrev pub or_else : Eval F Decision → Result Decision × World F → Result Decision × World F
  or_else next (ok d, w) = elim d.policy_id [ none ↦ next w | some _ ↦ (ok d, w) ]
  or_else next (err x, w) = (err x, w)

  -- The decision of a list of policies in two parts is that of its first part, also if that
  -- raises; only where the first part decides by no policy does the second part decide, in the
  -- world that the first has left.
  pub decide-append :
      (before after : List (Policy F)) (w : World F)
      → decide host c effective default_action (before ++ after) w
        ≡ or_else
            (decide host c effective default_action after)
            (decide host c effective default_action before w)
  decide-append [] after w = unfold decide in refl
  decide-append (p ∷ before) after w = elim (Bool-cases (applies host c effective p)) [
    | inl applied ↦
        outcome (matches host c p w).0 (matches host c p w).1 applied refl
          (decide-append before after)
    | inr skip ↦
        rw (decide_skip p (before ++ after) w skip, decide_skip p before w skip)
          (decide-append before after w)
  ]
    where
      outcome :
          (r : Result Bool) (w' : World F)
          → applies host c effective p ≡ true
          → matches host c p w ≡ (r, w')
          → ((v : World F)
              → decide host c effective default_action (before ++ after) v
                ≡ or_else
                    (decide host c effective default_action after)
                    (decide host c effective default_action before v))
          → decide host c effective default_action (p ∷ (before ++ after)) w
            ≡ or_else
                (decide host c effective default_action after)
                (decide host c effective default_action (p ∷ before) w)
      outcome (ok true) w' applied m ih =
          rw
            (
              decide_matched p (before ++ after) w w' applied m,
              decide_matched p before w w' applied m,
            )
            (unfold decision_of in refl)
      outcome (ok false) w' applied m ih =
          rw
            (
              decide_unmatched p (before ++ after) w w' applied m,
              decide_unmatched p before w w' applied m,
            )
            (ih w')
      outcome (err x) w' applied m ih = rw (
        decide_raises p (before ++ after) w w' x applied m,
        decide_raises p before w w' x applied m,
      )
