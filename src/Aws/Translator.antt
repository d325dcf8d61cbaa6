-- ===== src/Aws/Translator.antt =====
-- tessera/integrations/aws/cli_translator.py: canonical names and AWS CLI commands. A handler is its
-- prefix and the list of what it appends, in order. The text of a value, `json.dumps` and the case of
-- letters are parameters.
pub mod Identity
pub mod Compute
pub mod Stores
pub mod Models
pub mod Registered
pub mod RoundTrip
use cloudmorph_tessera.Prelude.{
  String, Option, none, some, List, [], ◌∷◌, ◌==◌, string_eq, if◌then◌else◌,
}
use cloudmorph_tessera.Dict
use cloudmorph_tessera.Dict.{Dict}
use cloudmorph_tessera.Python.Float.{Float}
use cloudmorph_tessera.Python.Result.{Result, ok, err, type_error, ◌>>=◌}
use cloudmorph_tessera.Python.Text.{split}
use cloudmorph_tessera.Python.Value.{
  Value, Fields, str, list, dict, end, field, get, get_or, truthy, items,
}
use cloudmorph_tessera.Python.Words.{concat, words, unwords}

-- What a handler appends for a flag, if the key is there: the value as it is, in quotes, as JSON, as JSON
-- only where it is a dict, as `{"Value": ...}`; the texts of a list, of nothing but a list; one of two
-- switches; a switch if the value is true. Then the first of two keys, and a fixed word.
pub data Part : Type 0 where
  plain quoted json document wrapped ids list_ids : String → String → Part
  switch : String → String → String → Part
  when_true : String → String → Part
  first_plain : String → String → String → Part
  fixed : String → Part

-- `str(v)`, `json.dumps(v)`, `s.lower()` and `s.capitalize()`
pub record Texts (F : Type 0) : Type 0 where
  pub str_of : Value F → String
  pub dumps : Value F → String
  pub lower : String → String
  pub capitalize : String → String

-- `f"{flag} {text}"` and `f"{flag} '{text}'"`
abbrev pub flagged : String → String → String
flagged flag text = concat flag (String.◌∷◌ " " text)

abbrev pub in_quotes : String → String → String
in_quotes flag text = flagged flag (String.◌∷◌ "'" (concat text "'"))

module _ {F : Type 0} ⦃fl : Float F⦄ (texts : Texts F) where
  -- `' '.join(ids)`
  unfoldable pub joined_ids : List (Value F) → Result (List String)
  joined_ids [] = ok []
  joined_ids (str s ∷ values) = joined_ids values >>= λ rest. ok (s ∷ rest)
  joined_ids (v ∷ values) = err type_error

  abbrev pub id_list : String → Value F → Result (Option String)
  id_list flag (list vs) =
      joined_ids (items vs) >>= λ parts. ok (some (flagged flag (unwords parts)))
  id_list flag v = ok (some (flagged flag (texts.str_of v)))

  abbrev pub only_list : String → Value F → Result (Option String)
  only_list flag (list vs) = id_list flag (list vs)
  only_list flag v = ok none

  abbrev pub document_text : Value F → String
  document_text (dict fs) = texts.dumps (dict fs)
  document_text v = texts.str_of v

  -- `if key in args: ...`
  abbrev pub given : Option (Value F) → (Value F → Result (Option String)) → Result (Option String)
  given none append = ok none
  given (some v) append = append v

  -- `elif`
  abbrev pub either : Option (Value F) → Option (Value F) → Option (Value F)
  either none w = w
  either (some v) w = some v

  unfoldable pub render : Part → Fields F → Result (Option String)
  unfolding joined_ids truthy get concat unwords
  render (plain flag key) args =
      given (get key args) (λ v. ok (some (flagged flag (texts.str_of v))))
  render (quoted flag key) args =
      given (get key args) (λ v. ok (some (in_quotes flag (texts.str_of v))))
  render (json flag key) args =
      given (get key args) (λ v. ok (some (in_quotes flag (texts.dumps v))))
  render (document flag key) args =
      given (get key args) (λ v. ok (some (in_quotes flag (document_text v))))
  render (wrapped flag key) args =
      given (get key args)
        (λ v. ok (some (in_quotes flag (texts.dumps (dict (field "Value" v end))))))
  render (ids flag key) args = given (get key args) (id_list flag)
  render (list_ids flag key) args = given (get key args) (only_list flag)
  render (switch on off key) args =
      given (get key args) (λ v. ok (some (if truthy v then on else off)))
  render (when_true flag key) args =
      given (get key args) (λ v. ok (if truthy v then some flag else none))
  render (first_plain flag key other) args =
      given (either (get key args) (get other args))
        (λ v. ok (some (flagged flag (texts.str_of v))))
  render (fixed text) args = ok (some text)

  -- `parts.append`
  abbrev pub appended : Option String → List String → List String
  appended none parts = parts
  appended (some s) parts = s ∷ parts

  unfoldable pub render_all : List Part → Fields F → Result (List String)
  unfolding render
  render_all [] args = ok []
  render_all (part ∷ parts) args =
      render part args >>= λ text. render_all parts args >>= λ rest. ok (appended text rest)

  -- `" ".join(parts)`, the prefix first
  unfoldable pub built : String → List Part → Fields F → Result String
  unfolding render_all unwords
  built prefix parts args = render_all parts args >>= λ rest. ok (unwords (prefix ∷ rest))

-- `f"aws {service} {cli_verb}"` and `f"aws_{service}_{operation_camel}"`
abbrev pub prefix_of : String → String → String
prefix_of service cli_verb = flagged (flagged "aws" service) cli_verb

abbrev pub canonical_of : String → String → String
canonical_of service operation = concat "aws_" (concat service (concat "_" operation))

-- `_HANDLERS` and `_REVERSE_PREFIX_MAP`
pub record Registry (F : Type 0) : Type 0 where
  pub handlers : Dict String (Fields F → Result String)
  pub reverse_prefixes : Dict String String

module _ {F : Type 0} where
  unfoldable pub register_handler :
      String → String → (Fields F → Result String) → Registry F → Registry F
  unfolding Dict.put
  register_handler canonical cli_prefix handler r = record {
    handlers = Dict.put canonical handler r.handlers;
    reverse_prefixes = Dict.put cli_prefix canonical r.reverse_prefixes;
  }

  -- the command of the request that is returned
  unfoldable pub to_call_aws : Registry F → String → Fields F → Result (Option String)
  unfolding Dict.get
  to_call_aws r canonical args = elim (Dict.get canonical r.handlers) [
    | none ↦ ok none
    | some handler ↦ handler args >>= λ command. ok (some command)
  ]

  -- `"".join(word.capitalize() for word in ...)`
  unfoldable pub capitalized : Texts F → List String → String
  unfolding concat
  capitalized texts [] = ""
  capitalized texts (s ∷ parts) = concat (texts.capitalize s) (capitalized texts parts)

  unfoldable pub kebab_to_camel : Texts F → Dict String String → String → String
  unfolding capitalized Dict.get split
  kebab_to_camel texts overrides kebab = elim (Dict.get kebab overrides) [
    | none ↦ capitalized texts (split 45 kebab)
    | some camel ↦ camel
  ]

  -- the fallback that ignores case
  unfoldable pub same_but_case : Texts F → String → List String → Option String
  same_but_case texts lowered [] = none
  same_but_case texts lowered (registered ∷ names) =
      if texts.lower registered == lowered
      then some registered
      else same_but_case texts lowered names

  abbrev pub registered_name : Texts F → Registry F → String → Option String
  registered_name texts r canonical =
      if Dict.has canonical r.handlers
      then some canonical
      else same_but_case texts (texts.lower canonical) (Dict.keys r.handlers)

  abbrev pub name_of : Texts F → Dict String String → Registry F → String → String → Option String
  name_of texts overrides r service cli_verb =
      elim (Dict.get (prefix_of service cli_verb) r.reverse_prefixes) [
        | none ↦
            registered_name texts r (canonical_of service (kebab_to_camel texts overrides cli_verb))
        | some canonical ↦ some canonical
      ]

  -- the tokens of the command
  abbrev pub parsed : Texts F → Dict String String → Registry F → List String → Option String
  parsed texts overrides r (program ∷ service ∷ cli_verb ∷ rest) =
      if program == "aws" then name_of texts overrides r service cli_verb else none
  parsed texts overrides r _ = none

  abbrev pub command_name : Texts F → Dict String String → Registry F → Value F → Option String
  command_name texts overrides r (str command) = parsed texts overrides r (words command)
  command_name texts overrides r v = none

  unfoldable pub from_call_aws :
      Texts F → Dict String String → Registry F → Fields F → Option String
  unfolding get_or words concat kebab_to_camel same_but_case Dict.has Dict.get
  from_call_aws texts overrides r args =
      command_name texts overrides r (get_or "command" (str "") args)
