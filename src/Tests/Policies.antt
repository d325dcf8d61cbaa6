-- ===== src/Tests/Policies.antt =====
-- The engine at concrete policies.
use cloudmorph_tessera.Prelude.{
  string_eq, ℕ, ◌≡◌, refl, Bool, true, false, none, some, List, [], ◌∷◌, ◌++◌, pos, ltb, negsuc,
  arith, ◌&&◌, ◌⊎◌, ◌==◌, any, not,
}
use cloudmorph_tessera.Python.Result.{Result, ok, err}
use cloudmorph_tessera.Python.Value.{int, field, end}
use cloudmorph_tessera.Policy.Schema.{
  Policy, Decision, Conditions, done, also, arg_equals, none_of, block, allow, log_only,
}
use cloudmorph_tessera.Policy.Eval.{World}
use cloudmorph_tessera.Python.Result.{overflow_error}
use cloudmorph_tessera.Python.Value.{get}
use cloudmorph_tessera.Policy.Schema.{arg_greater_than, greater_than}
use cloudmorph_tessera.Policy.Eval.{Context}
use cloudmorph_tessera.Policy.Matchers.{resolve_effective_tool_name, match_upstream, match_tool}
use cloudmorph_tessera.Policy.Conditions.{evaluate_conditions}
use cloudmorph_tessera.Policy.Conditions.Request.{is_outside}
use cloudmorph_tessera.Policy.Conditions.Clock.{minutes_from, is_outside-circular}
use cloudmorph_tessera.Policy.Conditions.Returns.{is_total}
use cloudmorph_tessera.Policy.Conditions.Backends.{eval_blast_radius}
use cloudmorph_tessera.Policy.Conditions.Closed.{evaluate_conditions_overflow}
use cloudmorph_tessera.Policy.Engine.Gate.{eval_blast_radius_unknown}
use cloudmorph_tessera.Policy.Schema.{blast_radius}
use cloudmorph_tessera.Policy.Engine.Evaluates.{evaluate-Walk, evaluate-Returns}
use cloudmorph_tessera.Policy.Engine.Walk.{Walk}
use cloudmorph_tessera.Policy.Engine.Prefetch.{evaluate-without_counts}
use cloudmorph_tessera.Policy.Engine.Counts.{with_counts}
use cloudmorph_tessera.Policy.Schema.{require_approval, arg_matches_regex}
use cloudmorph_tessera.Policy.Loader.{sorted_policies, sort_conditions}
use cloudmorph_tessera.Policy.Loader.Sorted.{
  IsFalling, sorted_policies-IsFalling, IsTiered, count_tier, sort_conditions-IsTiered,
}
use cloudmorph_tessera.Policy.Engine.{
  Engine, evaluate, policies_need_blast_radius, has_blast_radius_for, gated, decide,
}
use cloudmorph_tessera.Policy.Engine.Decides.{decide-append, or_else}
use cloudmorph_tessera.Policy.Cloud.{merge}
use cloudmorph_tessera.Policy.Cloud.Overrides.{latest, or_local, holds, merge_overrides}
use cloudmorph_tessera.Tests.Fixtures.{fl, host, context, world, policy}

-- a policy for another tool, one whose condition holds, and one that always matches
abbrev before : List (Policy ℕ)
before = policy "other" (some "ec2_stop") done block ∷ []

abbrev after : List (Policy ℕ)
after =
    policy "seven" (some "s3_delete_bucket") (also (arg_equals "count" (int (pos 7))) done) block
    ∷ policy "rest" none done log_only
    ∷ []

abbrev run : Result Decision × World ℕ
run = decide host context "s3_delete_bucket" allow (before ++ after) world

decide-append_example :
    run
    ≡ or_else host context "s3_delete_bucket" allow
        (decide host context "s3_delete_bucket" allow after)
        (decide host context "s3_delete_bucket" allow before world)
decide-append_example = decide-append host context "s3_delete_bucket" allow before after world

-- a day from nine to five, at noon
is_outside-circular_example :
    is_outside 540 1020 720 ≡ ltb (minutes_from 540 1020) (minutes_from 540 720)
is_outside-circular_example =
    is_outside-circular 540 1020 720 (omega arith) (omega arith) (omega arith)

eval_blast_radius_unknown_example :
    (eval_blast_radius (pos 10) ("s3_delete_bucket" ∷ []) greater_than (with_counts [] none context)
      ≡ has_blast_radius_for {F = ℕ} context.tool_name
          (blast_radius (pos 10) ("s3_delete_bucket" ∷ []) greater_than))
    × ((eval_blast_radius (pos 10) ("s3_delete_bucket" ∷ []) greater_than context
          && not (
              has_blast_radius_for {F = ℕ} context.tool_name
                (blast_radius (pos 10) ("s3_delete_bucket" ∷ []) greater_than)))
        ≡ false)
eval_blast_radius_unknown_example =
    eval_blast_radius_unknown (pos 10) ("s3_delete_bucket" ∷ []) greater_than context

-- a number that the instance's floats do not hold
abbrev oversized : Context ℕ
oversized = record context { arguments = field "count" (int (negsuc 0)) end }

evaluate_conditions_overflow_example :
    evaluate_conditions host oversized "seven"
      (also (arg_greater_than "count" (int (pos 7))) done)
      world
    ≡ (err overflow_error, world)
evaluate_conditions_overflow_example =
    evaluate_conditions_overflow host oversized "seven" "count" (negsuc 0) (int (pos 7)) done world
      refl (unfold get in refl) refl

abbrev engine : Engine ℕ
engine = record { policies = after; default_action = block }

evaluate-Walk_example :
    ((context.lockdown ≡ true)
      × (evaluate host engine context world ≡ (
        ok (record {
          action = block;
          reason = "lockdown_active";
          policy_id = none;
          decision_error = none;
        }),
        world,
      )))
    ⊎ ((context.lockdown ≡ false)
        × Walk host context
            (resolve_effective_tool_name context world).0
            block
            after
            (resolve_effective_tool_name context world).1
            (evaluate host engine context world).0
            (evaluate host engine context world).1)
evaluate-Walk_example = evaluate-Walk host context engine world

evaluate-Returns_example :
    (d : Decision) × (w : World ℕ) × (evaluate host engine context world ≡ (ok d, w))
evaluate-Returns_example =
    evaluate-Returns host context [] engine world refl (unfold is_total in refl)

-- no policy asks for a count
evaluate-without_counts_example :
    evaluate host engine (with_counts (("s3_delete_bucket", pos 3) ∷ []) none context) world
    ≡ evaluate host engine context world
evaluate-without_counts_example =
    evaluate-without_counts host context (("s3_delete_bucket", pos 3) ∷ []) none engine world refl
      refl
      (unfold policies_need_blast_radius gated match_upstream match_tool has_blast_radius_for in
        refl)

-- the policies that block
abbrev blocks : Policy ℕ → Bool
blocks p = elim p.action [
  | allow ↦ false
  | block ↦ true
  | log_only ↦ false
  | require_approval ↦ false
]

sorted_policies-IsFalling_example :
    IsFalling (sorted_policies (before ++ after))
    × (any blocks (sorted_policies (before ++ after)) ≡ any blocks (before ++ after))
sorted_policies-IsFalling_example = sorted_policies-IsFalling (before ++ after) blocks

-- a composite, a regex and a lookup
abbrev mixed_tiers : Conditions ℕ
mixed_tiers =
    also (none_of done)
      (also (arg_matches_regex "a" "b") (also (arg_equals "a" (int (pos 1))) done))

mixed_tiers_sorted :
    IsTiered (sort_conditions mixed_tiers)
    × (count_tier 4 (sort_conditions mixed_tiers) ≡ count_tier 4 mixed_tiers)
mixed_tiers_sorted = sort_conditions-IsTiered mixed_tiers 4

-- the cloud's policy of that id allows what the local one blocks
merge_overrides_example :
    (any (λ p. p.id == "other" && blocks p) (merge before (policy "other" none done allow ∷ []))
      ≡ holds blocks
          (or_local (latest "other" (policy "other" none done allow ∷ [])) (latest "other" before)))
    × IsFalling (merge before (policy "other" none done allow ∷ []))
merge_overrides_example =
    merge_overrides "other" blocks before (policy "other" none done allow ∷ [])
