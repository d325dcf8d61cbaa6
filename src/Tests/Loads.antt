-- ===== src/Tests/Loads.antt =====
-- A reload of two policy files, one of which has become malformed, and the rows of the cloud's cache.
use cloudmorph_tessera.Prelude.{
  ℕ, ◌≡◌, refl, String, true, false, none, some, [], ◌∷◌, ◌++◌, if◌then◌else◌, ◌==◌, contains,
  string_eq, Bool, length, List, Option,
}
use cloudmorph_tessera.Python.Result.{Result, ok, err, yaml_error}
use cloudmorph_tessera.Python.Value.{dict, end, Value}
use cloudmorph_tessera.Policy.Schema.{done, allow}
use cloudmorph_tessera.Policy.RegexSafety.{searched}
use cloudmorph_tessera.Policy.Loader.{sorted_policies, sort_conditions}
use cloudmorph_tessera.Dict
use cloudmorph_tessera.Policy.Loader.Compile.{policy_of, compile_regex_fields, compile_conditions}
use cloudmorph_tessera.Policy.Loader.Files.{
  PolicyFile, FilesystemPolicyLoader, Libraries, is_caught, read_policy, load_all, seen_paths,
  policies_of,
}
use cloudmorph_tessera.Policy.Loader.Rounds.{cell, outcome}
use cloudmorph_tessera.Policy.Loader.Reload.{load_all_isolates}
use cloudmorph_tessera.Policy.Cloud.Rows.{
  CloudRow, CloudBackedPolicyLoader, load_cloud_policies, body_of, parse_policy_yaml,
}
use cloudmorph_tessera.Policy.Cloud.Enforced.{enforced, fault, load_cloud_policies_isolates}
use cloudmorph_tessera.Tests.Fixtures.{fl, policy}

abbrev lib : Libraries ℕ
lib = record {
  compiles = λ pattern. true;
  search = λ pattern text. searched false;
  model_validate = λ fields. some (policy "new" none done allow);
  known_verbs = "read.list" ∷ [];
  builtin = [];
}

abbrev file : String → Result (Value ℕ) → PolicyFile ℕ
file name document = record { path = name; name = name; document = document }

abbrev good : PolicyFile ℕ
good = file "good.yaml" (ok (dict end))

abbrev bad : PolicyFile ℕ
bad = file "bad.yaml" (err yaml_error)

abbrev loader : FilesystemPolicyLoader ℕ
loader = record {
  policies =
      ("bad.yaml", policy "old" none done allow)
      ∷ ("gone.yaml", policy "gone" none done allow)
      ∷ [];
  errors = [];
  action_verbs = [];
}

load_all_isolates_example :
    (l' : FilesystemPolicyLoader ℕ) × (load_all lib
        ((file "_notes.yaml" (err yaml_error) ∷ []) ++ (bad ∷ (good ∷ [])))
        loader
      ≡ (ok (sorted_policies (policies_of l'.policies)), l'))
    × (cell "bad.yaml" l' ≡ outcome (read_policy lib bad) (cell "bad.yaml" loader))
    × ((k : String)
        → contains k
            (seen_paths ((file "_notes.yaml" (err yaml_error) ∷ []) ++ (bad ∷ (good ∷ []))))
          ≡ false
        → cell k l' ≡ (none, none))
unfolding seen_paths read_policy is_caught
load_all_isolates_example =
    load_all_isolates lib (file "_notes.yaml" (err yaml_error) ∷ []) (good ∷ []) bad loader refl
      refl refl refl refl

abbrev safe_load : String → Result (Value ℕ)
safe_load text = if text == "bad" then err yaml_error else ok (dict end)

abbrev row : String → Bool → Option String → CloudRow
row policy_id enabled yaml_text = record {
  policy_id = some policy_id;
  enabled = enabled;
  yaml_text = yaml_text;
}

-- a policy, one that is disabled, one without a body and a malformed one
abbrev rows : List CloudRow
rows =
    row "a" true (some " a: 1 ")
    ∷ row "b" false (some "b: 1")
    ∷ row "c" true (some "  ")
    ∷ row "d" true (some " bad")
    ∷ []

abbrev cloud : CloudBackedPolicyLoader
cloud = record { cloud_errors = []; cloud_count = 0 }

one_policy_enforced : length (enforced lib safe_load rows) ≡ 1
unfolding body_of parse_policy_yaml policy_of sort_conditions compile_regex_fields
    compile_conditions
one_policy_enforced = refl

load_cloud_policies_isolates_example :
    ((load_cloud_policies lib safe_load rows cloud).0 ≡ ok (enforced lib safe_load rows))
    × ((load_cloud_policies lib safe_load rows cloud).1.cloud_count
        ≡ length (enforced lib safe_load rows))
    × (Dict.get "d" (load_cloud_policies lib safe_load rows cloud).1.cloud_errors
        ≡ fault lib safe_load "d" rows none)
unfolding body_of parse_policy_yaml policy_of is_caught
load_cloud_policies_isolates_example =
    load_cloud_policies_isolates lib safe_load "d" rows cloud refl
