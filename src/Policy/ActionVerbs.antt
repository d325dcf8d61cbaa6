-- ===== src/Policy/ActionVerbs.antt =====
-- tessera/policy/action_verbs.py: the tables that users add. The keys of a mapping are texts.
use cloudmorph_tessera.Prelude.{String, some, List, [], ◌∷◌, contains, string_eq, if◌then◌else◌}
use cloudmorph_tessera.Dict
use cloudmorph_tessera.Dict.{Dict}
use cloudmorph_tessera.Python.Result.{Result, ok, err, value_error, type_error, ◌>>=◌}
use cloudmorph_tessera.Python.Value.{Value, Fields, str, list, dict, end, field, get, items}

module _ {F : Type 0} (known_verbs : List String) where
  -- `frozenset(verb_list)`, all of whose members are known
  unfoldable pub known_all : List (Value F) → Result (List String)
  known_all [] = ok []
  known_all (str s ∷ verbs) =
      known_all verbs >>= λ rest. if contains s known_verbs then ok (s ∷ rest) else err value_error
  known_all (list vs ∷ verbs) = err type_error
  known_all (dict fs ∷ verbs) = err type_error
  known_all (v ∷ verbs) = known_all verbs >>= λ rest. err value_error

  unfoldable pub mappings_of :
      Fields F → Dict String (List String) → Result (Dict String (List String))
  unfolding known_all items Dict.put
  mappings_of end result = ok result
  mappings_of (field tool_name (list verbs) fs) result =
      known_all (items verbs) >>= λ known. mappings_of fs (Dict.put tool_name known result)
  mappings_of (field tool_name v fs) result = err value_error

  -- `load_user_mappings`
  unfoldable pub user_mappings_of : Value F → Result (Dict String (List String))
  unfolding mappings_of get
  user_mappings_of (dict fs) = elim (get "mappings" fs) [
    | some (dict raw) ↦ mappings_of raw []
    | _ ↦ err value_error
  ]
  user_mappings_of _ = err value_error

-- `merge_mappings`
unfoldable pub merge_mappings :
    Dict String (List String) → Dict String (List String) → Dict String (List String)
unfolding Dict.put
merge_mappings builtin [] = builtin
merge_mappings builtin ((tool_name, verbs) ∷ user) =
    merge_mappings (Dict.put tool_name verbs builtin) user
