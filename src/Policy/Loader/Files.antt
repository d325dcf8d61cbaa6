-- ===== src/Policy/Loader/Files.antt =====
-- tessera/policy/loader.py: `FilesystemPolicyLoader` over the files of its directory. Validation of the
-- models and the regex library are parameters. An error stands for its message.
use cloudmorph_tessera.Prelude.{
  String, Bool, true, false, not, ◌&&◌, ◌||◌, Option, none, some, List, [], ◌∷◌, keep, contains,
  ◌==◌, string_eq, if◌then◌else◌,
}
use cloudmorph_tessera.Dict
use cloudmorph_tessera.Dict.{Dict}
use cloudmorph_tessera.Python.Result.{
  Exception, Result, ok, err, policy_error, value_error, yaml_error, ◌>>=◌,
}
use cloudmorph_tessera.Python.Value.{Value, Fields}
use cloudmorph_tessera.Policy.Schema.{Policy}
use cloudmorph_tessera.Policy.RegexSafety.{Search}
use cloudmorph_tessera.Policy.Loader.{sorted_policies}
use cloudmorph_tessera.Policy.ActionVerbs.{user_mappings_of, merge_mappings}
use cloudmorph_tessera.Policy.Loader.Compile.{policy_of}

-- a file as `open` and `yaml.safe_load` give it
pub record PolicyFile (F : Type 0) : Type 0 where
  pub path : String
  pub name : String
  pub document : Result (Value F)

pub record FilesystemPolicyLoader (F : Type 0) : Type 0 where
  pub policies : Dict String (Policy F)
  pub errors : Dict String Exception
  pub action_verbs : Dict String (List String)

-- `fname.startswith("_")`
abbrev pub is_internal : String → Bool
is_internal String.[] = false
is_internal (String.◌∷◌ c s) = String.◌∷◌ c String.[] == "_"

-- the `except` clause of `_load_file`
unfoldable pub is_caught : Exception → Bool
is_caught (policy_error reason) = true
is_caught value_error = true
is_caught yaml_error = true
is_caught _ = false

-- `seen_paths`
unfoldable pub seen_paths : {F : Type 0} → List (PolicyFile F) → List String
seen_paths [] = []
seen_paths (f ∷ files) =
    if f.name == "_action_verbs.yaml" || is_internal f.name
    then seen_paths files
    else f.path ∷ seen_paths files

-- `bool(d)` of a dict
abbrev pub has_entry : {V : Type 0} → Dict String V → Bool
has_entry [] = false
has_entry (entry ∷ d) = true

-- the entries whose files are still there
unfoldable pub still_there : {V : Type 0} → List String → Dict String V → Dict String V
still_there seen = keep (λ (path, v). contains path seen)

module _ {F : Type 0} where
  -- whether an id comes twice
  unfoldable pub has_duplicate : List String → Dict String (Policy F) → Bool
  has_duplicate seen_ids [] = false
  has_duplicate seen_ids ((path, p) ∷ policies) =
      if contains p.id seen_ids then true else has_duplicate (p.id ∷ seen_ids) policies

  unfoldable pub policies_of : Dict String (Policy F) → List (Policy F)
  policies_of [] = []
  policies_of ((path, p) ∷ policies) = p ∷ policies_of policies

  -- what `_load_file` does with the outcome, and what it raises
  abbrev pub recorded :
      Bool
      → String
      → Result (Policy F)
      → FilesystemPolicyLoader F
      → Option Exception × FilesystemPolicyLoader F
  recorded is_startup path (ok p) l =
      (none, record l { policies = Dict.put path p l.policies; errors = Dict.pop path l.errors })
  recorded is_startup path (err x) l =
      if is_caught x
      then (if is_startup
          then (some (policy_error ""), l)
          else (none, record l { errors = Dict.put path x l.errors }))
      else (some x, l)

  -- the loader without what it holds of other files
  abbrev pub pruned : List (PolicyFile F) → FilesystemPolicyLoader F → FilesystemPolicyLoader F
  pruned files l = record l {
    policies = still_there (seen_paths files) l.policies;
    errors = still_there (seen_paths files) l.errors;
  }

  -- `not self._policies and not self._errors`
  abbrev pub is_startup_of : FilesystemPolicyLoader F → Bool
  is_startup_of l = not (has_entry l.policies) && not (has_entry l.errors)

  -- the check of the ids, and the list that `load_all` returns
  abbrev pub returned :
      Bool → FilesystemPolicyLoader F → Result (List (Policy F)) × FilesystemPolicyLoader F
  returned is_startup l =
      if is_startup && has_duplicate [] l.policies
      then (err (policy_error ""), l)
      else (ok (sorted_policies (policies_of l.policies)), l)

  -- any error in the table of verbs ends a startup, and is passed over in a reload
  abbrev pub adopted :
      Bool
      → Dict String (List String)
      → Result (Dict String (List String))
      → FilesystemPolicyLoader F
      → Option Exception × FilesystemPolicyLoader F
  adopted is_startup builtin (err x) l = (if is_startup then some (policy_error "") else none, l)
  adopted is_startup builtin (ok verbs) l =
      (none, record l { action_verbs = merge_mappings builtin verbs })

  -- the end of `load_all`, after the loop
  abbrev pub settled :
      Bool
      → List (PolicyFile F)
      → Option Exception × FilesystemPolicyLoader F
      → Result (List (Policy F)) × FilesystemPolicyLoader F
  settled is_startup files (none, l) = returned is_startup (pruned files l)
  settled is_startup files (some x, l) = (err x, l)

-- what the loader reaches outside of its files
pub record Libraries (F : Type 0) : Type 0 where
  pub compiles : String → Bool
  pub search : String → String → Search
  pub model_validate : Fields F → Option (Policy F)
  -- `KNOWN_VERBS` and `ACTION_VERBS`
  pub known_verbs : List String
  pub builtin : Dict String (List String)

module _ {F : Type 0} (lib : Libraries F) where
  unfoldable pub read_policy : PolicyFile F → Result (Policy F)
  unfolding policy_of
  read_policy f = f.document >>= policy_of lib.compiles lib.search lib.model_validate

  unfoldable pub load_file :
      Bool → PolicyFile F → FilesystemPolicyLoader F → Option Exception × FilesystemPolicyLoader F
  unfolding read_policy Dict.put Dict.pop is_caught
  load_file is_startup f l = recorded is_startup f.path (read_policy f) l

  -- `_action_verbs.yaml`
  unfoldable pub load_verbs :
      Bool → PolicyFile F → FilesystemPolicyLoader F → Option Exception × FilesystemPolicyLoader F
  unfolding user_mappings_of merge_mappings
  load_verbs is_startup f l =
      adopted is_startup lib.builtin (f.document >>= user_mappings_of lib.known_verbs) l

  -- a round of the loop over the sorted files
  unfoldable pub visit :
      Bool → PolicyFile F → FilesystemPolicyLoader F → Option Exception × FilesystemPolicyLoader F
  unfolding load_verbs load_file
  visit is_startup f l =
      if f.name == "_action_verbs.yaml"
      then load_verbs is_startup f l
      else if is_internal f.name
      then (none, l)
      else load_file is_startup f l

  unfoldable pub visit_all :
      Bool
      → List (PolicyFile F)
      → FilesystemPolicyLoader F
      → Option Exception × FilesystemPolicyLoader F
  unfolding visit
  visit_all is_startup [] l = (none, l)
  visit_all is_startup (f ∷ files) l =
      let next = visit is_startup f l in
      let rest = visit_all is_startup files next.1 in
      elim next.0 [ none ↦ rest | some x ↦ (some x, next.1) ]

  -- `load_all` over the files in the order of their paths
  unfoldable pub load_all :
      List (PolicyFile F)
      → FilesystemPolicyLoader F
      → Result (List (Policy F)) × FilesystemPolicyLoader F
  unfolding visit_all still_there has_duplicate sorted_policies policies_of
  load_all files l = settled (is_startup_of l) files (visit_all (is_startup_of l) files l)
