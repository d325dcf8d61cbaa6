-- ===== src/Tests/Commands.antt =====
-- The registry of the explicit handlers, and a command of each kind of value.
use cloudmorph_tessera.Prelude.{
  ℕ, ◌≡◌, refl, String, Bool, true, false, none, some, List, [], ◌∷◌, ◌==◌, string_eq, all, ◌&&◌,
}
use cloudmorph_tessera.Dict
use cloudmorph_tessera.Python.Value.{Fields, str, end, field}
use cloudmorph_tessera.Python.Words.{words, concat}
use cloudmorph_tessera.Aws.Translator.{
  Texts, Registry, built, to_call_aws, from_call_aws, register_handler, prefix_of,
}
use cloudmorph_tessera.Aws.Translator.Compute.{ec2_run_instances}
use cloudmorph_tessera.Aws.Translator.Registered.{
  Entry, entries, register_entries, kebab_to_camel_overrides,
}
use cloudmorph_tessera.Aws.Translator.RoundTrip.{LeadsBack, from_call_aws-to_call_aws}
use cloudmorph_tessera.Tests.Fixtures.{fl}

abbrev texts : Texts ℕ
texts = record { str_of = λ v. "text"; dumps = λ v. "{}"; lower = λ s. s; capitalize = λ s. s }

abbrev registry : Registry ℕ
registry = register_entries texts entries (record { handlers = []; reverse_prefixes = [] })

abbrev args : Fields ℕ
args = field "ImageId" (str "ami") (field "UserData" (str "x") end)

run_LeadsBack :
    LeadsBack registry "aws_ec2_RunInstances" "aws ec2 run-instances" "ec2" "run-instances"
unfolding register_entries register_handler words concat Dict.get Dict.put
run_LeadsBack = record { three = refl; reverse = refl }

from_call_aws-to_call_aws_example :
    from_call_aws texts kebab_to_camel_overrides registry
      (field "command" (str "aws ec2 run-instances --image-id text --user-data text") end)
    ≡ some "aws_ec2_RunInstances"
unfolding register_entries register_handler Dict.get Dict.put to_call_aws built
from_call_aws-to_call_aws_example =
    from_call_aws-to_call_aws texts kebab_to_camel_overrides registry "aws_ec2_RunInstances"
      "aws ec2 run-instances" "ec2" "run-instances" ec2_run_instances args
      "aws ec2 run-instances --image-id text --user-data text" refl run_LeadsBack refl

abbrev leads_back : Entry → List String → Bool
leads_back e (program ∷ service ∷ cli_verb ∷ []) =
    program == "aws" && elim (Dict.get (prefix_of service cli_verb) registry.reverse_prefixes) [
      | none ↦ false
      | some canonical ↦ canonical == e.canonical
    ]
leads_back e _ = false

all_lead_back : all (λ e. leads_back e (words e.cli_prefix)) entries ≡ true
unfolding register_entries register_handler words concat Dict.get Dict.put
all_lead_back = refl

-- An option in front of the service hides the operation.
hidden_by_option :
    from_call_aws texts kebab_to_camel_overrides registry
      (field "command" (str "aws --region r ec2 run-instances") end)
    ≡ none
unfolding from_call_aws register_entries register_handler words concat
hidden_by_option = refl
